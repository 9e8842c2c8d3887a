-- ===== src/Books/Endings.antt =====
-- How a book ends (storage/book.py): together with its job, once, and not before its cancellation is asked.
use mura_project.Prelude.{
  if◌then◌else◌, ◌||◌, ℕ, ◌≡◌, refl, String, Bool, true, false, ◌&&◌, Option, none, some, str_eq,
  ok, holds_text, Bool-cases, inl, inr, subst, not, arith,
}
use mura_project.Prelude.Table.{
  find, modify, HasUniqueKeys, find-modify_self, find-modify_ne, find_where-key, keep_if,
}
use mura_project.Books.Rows.{
  BookStatus, BookJobStatus, BookRow, BookJobRow, Database, book_key, job_key, is_terminal_book,
}
use mura_project.Books.Repository.{
  completed_book, cancelled_book, finished_job, stopped_job, complete_book_and_job,
  cancel_book_and_job, request_cancel, cancel_found, get_book, is_cancel_requested,
}
use mura_project.Books.Effects.{raises, passes, Passed-cases}

-- Both rows of an ended book, and everything else as it was.
pub record Ended (end_book : BookRow → BookRow) (end_job : BookJobRow → BookJobRow)
    (w job_id book_id : String) (db db' : Database) : Type 0 where
  pub book : BookRow
  pub job : BookJobRow
  pub book_before : find book_key book_id db.books ≡ some book
  pub job_before : find job_key job_id db.jobs ≡ some job
  pub owned : holds_text job.lease_owner w ≡ true
  pub book_after : find book_key book_id db'.books ≡ some (end_book book)
  pub job_after : find job_key job_id db'.jobs ≡ some (end_job job)
  pub other_books :
      (b : String) → str_eq book_id b ≡ false → find book_key b db'.books ≡ find book_key b db.books
  pub other_jobs :
      (j : String) → str_eq job_id j ≡ false → find job_key j db'.jobs ≡ find job_key j db.jobs

abbrev both :
    String → String → (BookRow → BookRow) → (BookJobRow → BookJobRow) → Database → Database
both job_id book_id f g db = record db {
  books = modify book_key book_id f db.books;
  jobs = modify job_key job_id g db.jobs;
}

both-Ended :
    (f : BookRow → BookRow) (g : BookJobRow → BookJobRow) (w job_id book_id : String)
    (db : Database) (b : BookRow) (r : BookJobRow)
    → ((x : BookRow) → book_key (f x) ≡ book_key x)
    → ((x : BookJobRow) → job_key (g x) ≡ job_key x)
    → find book_key book_id db.books ≡ some b
    → find job_key job_id db.jobs ≡ some r
    → holds_text r.lease_owner w ≡ true
    → Ended f g w job_id book_id db (both job_id book_id f g db)
both-Ended f g w job_id book_id db b r kf kg eb er h = record {
  book = b;
  job = r;
  book_before = eb;
  job_before = er;
  owned = h;
  book_after = rw (find-modify_self book_key book_id f db.books kf, eb);
  job_after = rw (find-modify_self job_key job_id g db.jobs kg, er);
  other_books = λ j ne. find-modify_ne book_key book_id j f db.books kf ne;
  other_jobs = λ j ne. find-modify_ne job_key job_id j g db.jobs kg ne;
}

-- If a worker completes a book, then it held the lease of the job, and in the one transaction the book and
-- the job have the status and the stage "completed" and the time of the completion, the book its word
-- count, the job no error and no lease. Their other columns and all other books and jobs are as they were.
pub complete_book_and_job-Ended :
    (w job_id book_id : String) (words now : ℕ) (db : Database) {db' : Database}
    → HasUniqueKeys job_key db.jobs
    → complete_book_and_job job_id book_id words w now db ≡ ok db'
    → Ended
        (λ b. record b {
          status = BookStatus.completed;
          stage = "completed";
          word_count = words;
          completed_at = some now;
          updated_at = now;
        })
        (λ r. record r {
          status = BookJobStatus.completed;
          stage = "completed";
          error_code = none;
          error_detail = none;
          completed_at = some now;
          lease_owner = none;
          claimed_at = none;
          lease_expires_at = none;
          last_heartbeat_at = none;
          updated_at = now;
        })
        w
        job_id
        book_id
        db
        db'
unfolding complete_book_and_job completed_book finished_job
complete_book_and_job-Ended w job_id book_id words now db {db'} u h =
    elim (Passed-cases w job_id book_id db u) [
      | raises e g ↦ absurd (ground arith)
      | passes b r g eb er o ↦
          let same : both job_id book_id (completed_book words now) (finished_job now) db ≡ db' =
            ground arith in
          subst (Ended _ _ w job_id book_id db) same
            (both-Ended _ _ w job_id book_id db b r (λ x. refl) (λ x. refl) eb er o)
    ]

-- If a worker cancels a book, then it held the lease of the job, and the book and the job are cancelled in
-- the one transaction; all other books and jobs are as they were.
pub cancel_book_and_job-Ended :
    (w job_id book_id : String) (now : ℕ) (db : Database) {db' : Database}
    → HasUniqueKeys job_key db.jobs
    → cancel_book_and_job job_id book_id w now db ≡ ok db'
    → Ended
        (λ b. record b { status = BookStatus.cancelled; stage = "cancelled"; updated_at = now })
        (λ r. record r {
          status = BookJobStatus.cancelled;
          stage = "cancelled";
          lease_owner = none;
          claimed_at = none;
          lease_expires_at = none;
          last_heartbeat_at = none;
          updated_at = now;
        })
        w
        job_id
        book_id
        db
        db'
unfolding cancel_book_and_job cancelled_book stopped_job
cancel_book_and_job-Ended w job_id book_id now db {db'} u h =
    elim (Passed-cases w job_id book_id db u) [
      | raises e g ↦ absurd (ground arith)
      | passes b r g eb er o ↦
          let same : both job_id book_id (cancelled_book now) (stopped_job now) db ≡ db' =
            ground arith in
          subst (Ended _ _ w job_id book_id db) same
            (both-Ended _ _ w job_id book_id db b r (λ x. refl) (λ x. refl) eb er o)
    ]

-- Whether a book of the family exists and has not ended.
abbrev pub is_cancellable : String → Option BookRow → Bool
is_cancellable family_id none = false
is_cancellable family_id (some b) = str_eq b.family_id family_id && not (is_terminal_book b.status)

abbrev asked : ℕ → BookRow → BookRow
asked now b = record b { cancel_requested_at = some now; updated_at = now }

cancel_found-answer :
    (family_id book_id : String) (now : ℕ) (db : Database) (o : Option BookRow)
    → find book_key book_id db.books ≡ o
    → let (after, granted) =
        cancel_found book_id now db (keep_if (λ b. str_eq b.family_id family_id) o) in
      (granted ≡ is_cancellable family_id o)
      × (after ≡ (if granted then after else db))
      × (is_cancel_requested book_id after ≡ (granted || is_cancel_requested book_id db))
unfolding is_cancel_requested
cancel_found-answer family_id book_id now db none e = (refl, refl, refl)
cancel_found-answer family_id book_id now db (some b) e =
    elim (Bool-cases (str_eq b.family_id family_id)) [
      | inr f ↦ rw f (refl, refl, refl)
      | inl f ↦ elim (Bool-cases (is_terminal_book b.status)) [
        | inl t ↦ rw (f, t) (refl, refl, refl)
        | inr t ↦
            rw (f, t)
              (
                refl,
                refl,
                rw (find-modify_self book_key book_id (asked now) db.books (λ x. refl), e),
              )
      ]
    ]

-- A cancellation is granted exactly if the family has the book and the book has not ended. Unless it is
-- granted, nothing is written; and afterwards the worker sees a request exactly if one was granted now or
-- had been made before.
pub request_cancel-granted :
    (family_id book_id : String) (now : ℕ) (db : Database)
    → HasUniqueKeys book_key db.books
    → let (after, granted) = request_cancel family_id book_id now db in
      (granted ≡ is_cancellable family_id (find book_key book_id db.books))
      × (after ≡ (if granted then after else db))
      × (is_cancel_requested book_id after ≡ (granted || is_cancel_requested book_id db))
unfolding request_cancel get_book
request_cancel-granted family_id book_id now db u =
    rw (find_where-key book_key (λ b. str_eq b.family_id family_id) book_id db.books u)
      (cancel_found-answer family_id book_id now db _ refl)
