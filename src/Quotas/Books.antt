-- ===== src/Quotas/Books.antt =====
-- The quota of books (mura/quotas.py) and the creation that it guards (storage/book.py).
use mura_project.Prelude.{
  ℕ, ◌+◌, ◌≤◌, ◌<◌, ◌≡◌, String, true, false, none, List, ◌∷◌, arith, eq_refl,
}
use mura_project.Books.Rows.{BookRow, BookSourceSnapshotRow, Database}
use mura_project.Books.Repository.{BookRequest, new_book, create_queued_book}
use mura_project.Budget.Reservations.{Ledger}
use mura_project.Quotas.Checks.{
  BookSettings, exists_id, active_books, daily_books, over_budget, book_check,
}

-- Every condition of the check.
pub record IsAllowed (family_id : String) (settings : BookSettings) (now : ℕ)
    (families : List String) (books : List BookRow) (ledger : Ledger) : Type 0 where
  pub family : exists_id family_id families ≡ true
  pub active : active_books family_id books < settings.book_max_active_per_family
  pub daily : daily_books family_id now books < settings.book_max_created_per_family_per_day
  pub budget : over_budget settings.global_ai_cost_usd_per_day now ledger ≡ false

allowed :
    (family_id : String) (settings : BookSettings) (now : ℕ) (families : List String)
    (books : List BookRow) (ledger : Ledger)
    → book_check family_id settings now families books ledger ≡ none
    → IsAllowed family_id settings now families books ledger
unfolding book_check
allowed family_id settings now families books ledger h = record {
  family = ground arith;
  active = ground arith;
  daily = ground arith;
  budget = ground arith;
}

checked :
    (family_id : String) (settings : BookSettings) (now : ℕ) (families : List String)
    (books : List BookRow) (ledger : Ledger)
    → IsAllowed family_id settings now families books ledger
    → book_check family_id settings now families books ledger ≡ none
unfolding book_check
checked family_id settings now families books ledger a = ground arith

active_books-cons :
    (q : BookRequest) (book_id : String) (now : ℕ) (books : List BookRow)
    → active_books q.family_id (new_book q book_id now ∷ books) ≡ active_books q.family_id books + 1
unfolding active_books new_book
active_books-cons q book_id now books = rw (eq_refl q.family_id) (omega arith)

daily_books-cons :
    (q : BookRequest) (book_id : String) (now : ℕ) (books : List BookRow)
    → daily_books q.family_id now (new_book q book_id now ∷ books)
      ≡ daily_books q.family_id now books + 1
unfolding daily_books new_book
daily_books-cons q book_id now books = rw (eq_refl q.family_id) (ground arith)

-- If the check passes, then the family exists, has fewer books in progress and fewer of the last day than
-- the limits, and the AI budget, where the settings have one, is not used up; and the book that is then
-- created in the same transaction leaves the family within both limits.
pub book_check-keeps_limits :
    (q : BookRequest) (book_id job_id : String) (snapshot : String → BookSourceSnapshotRow)
    (settings : BookSettings) (now : ℕ) (families : List String) (db : Database) (ledger : Ledger)
    → book_check q.family_id settings now families db.books ledger ≡ none
    → let db' = create_queued_book q book_id job_id snapshot now db in
      IsAllowed q.family_id settings now families db.books ledger
      × (active_books q.family_id db'.books ≤ settings.book_max_active_per_family)
      × (daily_books q.family_id now db'.books ≤ settings.book_max_created_per_family_per_day)
unfolding create_queued_book
book_check-keeps_limits q book_id job_id snapshot settings now families db ledger h =
    let a : IsAllowed q.family_id settings now families db.books ledger =
      allowed q.family_id settings now families db.books ledger h in
    (
      a,
      omega (arith, active_books-cons q book_id now db.books, a.active),
      omega (arith, daily_books-cons q book_id now db.books, a.daily),
    )
