-- ===== src/Books/Erasure.antt =====
-- `delete_family_book` of storage/book.py: what is gone, what is queued for erasure, what stays.
use mura_project.Prelude.{
  ◌||◌, text_or, ℕ, ◌≡◌, String, true, false, ◌&&◌, none, some, List, [], ◌∷◌, ◌++◌, any, All,
  str_eq, eq_refl, ok, err, value_error, Bool-cases, inl, inr, arith,
}
use mura_project.Prelude.Table.{find, find-remove, find_where}
use mura_project.Prelude.Select.{any-without, find_where-without}
use mura_project.Cleanup.Rows.{CleanupItem, StorageCleanupJobRow, is_object}
use mura_project.Cleanup.Enqueue.{enqueue_many}
use mura_project.Cleanup.Objects.{HasUniqueObjects, Enqueued, enqueue_many-Enqueued}
use mura_project.Books.Rows.{BookRow, BookExportRow, Database, book_key}
use mura_project.Books.Repository.{get_book}
use mura_project.Books.Deletion.{
  is_safe_segment, canonical_key, build_book_storage_key, artifact, cleanup_items, exports_of,
  without_book, delete_family_book,
}

-- An export that has a storage key has a cleanup row for its object.
abbrev pub IsQueued : String → List StorageCleanupJobRow → BookExportRow → Type 0
IsQueued backend rows e =
    (str_eq (text_or e.storage_key "") ""
      || any
          (is_object
            (artifact e.format (text_or e.storage_backend backend) (text_or e.storage_key "")))
          rows)
    ≡ true

IsQueued-of_items :
    (backend pdf epub : String) (rows : List StorageCleanupJobRow) (exports : List BookExportRow)
    → All (λ item. any (is_object item) rows ≡ true) (cleanup_items backend pdf epub exports)
    → All (IsQueued backend rows) exports
      × (any (is_object (artifact "pdf" backend pdf)) rows ≡ true)
      × (any (is_object (artifact "epub" backend epub)) rows ≡ true)
unfolding cleanup_items
IsQueued-of_items backend pdf epub rows [] h = (tt, h.0, h.1.0)
IsQueued-of_items backend pdf epub rows (e ∷ exports) h =
    elim (Bool-cases (str_eq (text_or e.storage_key "") "")) [
      | inl k ↦
          let (q, p, t) = IsQueued-of_items backend pdf epub rows exports (rw k at h) in
          ((rw k, q), p, t)
      | inr k ↦
          let there : All (λ item. any (is_object item) rows ≡ true)
              (artifact e.format (text_or e.storage_backend backend) (text_or e.storage_key "")
                ∷ cleanup_items backend pdf epub exports) =
            rw k at h in
          let (q, p, t) = IsQueued-of_items backend pdf epub rows exports there.1 in
          ((rw k there.0, q), p, t)
    ]

-- After the deletion of the book.
pub record Erased (family_id book_id backend : String) (db db' : Database) : Type 0 where
  pub book_gone : find book_key book_id db'.books ≡ none
  pub jobs_gone : any (λ r. str_eq r.book_id book_id) db'.jobs ≡ false
  pub snapshots_gone : any (λ r. str_eq r.book_id book_id) db'.snapshots ≡ false
  pub plans_gone : any (λ r. str_eq r.book_id book_id) db'.plans ≡ false
  pub chapters_gone : any (λ r. str_eq r.book_id book_id) db'.chapters ≡ false
  pub continuity_gone : any (λ r. str_eq r.book_id book_id) db'.continuity ≡ false
  pub exports_gone : any (λ r. str_eq r.book_id book_id) db'.exports ≡ false
  pub exports_queued : All (IsQueued backend db'.cleanup) (exports_of book_id db)
  pub pdf_queued :
      any (is_object (artifact "pdf" backend (canonical_key family_id book_id "pdf"))) db'.cleanup
      ≡ true
  pub epub_queued :
      any (is_object (artifact "epub" backend (canonical_key family_id book_id "epub"))) db'.cleanup
      ≡ true
  pub cleanup_kept : (added : List StorageCleanupJobRow) × (db'.cleanup ≡ added ++ db.cleanup)
  pub other_books :
      (b : String) → str_eq book_id b ≡ false → find book_key b db'.books ≡ find book_key b db.books
  pub other_jobs :
      (b : String)
      → str_eq book_id b ≡ false
      → find_where (λ r. str_eq r.book_id b) db'.jobs ≡ find_where (λ r. str_eq r.book_id b) db.jobs
  pub other_exports :
      (b : String)
      → str_eq book_id b ≡ false
      → find_where (λ r. str_eq r.book_id b) db'.exports
        ≡ find_where (λ r. str_eq r.book_id b) db.exports

module _ (id : CleanupItem → String) (max_attempts now : ℕ) (family_id book_id backend : String)
    (db : Database) where
  abbrev erased : Database
  erased =
      without_book id max_attempts now
        (cleanup_items backend (canonical_key family_id book_id "pdf")
          (canonical_key family_id book_id "epub") (exports_of book_id db))
        book_id db

  without_book-Erased : HasUniqueObjects db.cleanup → Erased family_id book_id backend db erased
  unfolding without_book
  without_book-Erased u =
      let pdf : String = canonical_key family_id book_id "pdf" in
      let epub : String = canonical_key family_id book_id "epub" in
      let items : List CleanupItem = cleanup_items backend pdf epub (exports_of book_id db) in
      let enqueued : Enqueued items db.cleanup (enqueue_many id max_attempts now items db.cleanup) =
        enqueue_many-Enqueued id max_attempts now items db.cleanup u in
      let (q, p, e) =
        IsQueued-of_items backend pdf epub (enqueue_many id max_attempts now items db.cleanup)
          (exports_of book_id db) enqueued.covered in
      record {
        book_gone = rw (find-remove book_key book_id book_id db.books, eq_refl book_id);
        jobs_gone = any-without (λ r. r.book_id) book_id db.jobs;
        snapshots_gone = any-without (λ r. r.book_id) book_id db.snapshots;
        plans_gone = any-without (λ r. r.book_id) book_id db.plans;
        chapters_gone = any-without (λ r. r.book_id) book_id db.chapters;
        continuity_gone = any-without (λ r. r.book_id) book_id db.continuity;
        exports_gone = any-without (λ r. r.book_id) book_id db.exports;
        exports_queued = q;
        pdf_queued = p;
        epub_queued = e;
        cleanup_kept = enqueued.kept;
        other_books = λ b ne. rw (find-remove book_key book_id b db.books, ne);
        other_jobs = λ b ne. rw (find_where-without (λ r. r.book_id) book_id b db.jobs, ne);
        other_exports = λ b ne. rw (find_where-without (λ r. r.book_id) book_id b db.exports, ne);
      }

  -- For a family that has the book, under ids that are safe in a storage key, a deletion succeeds: the book,
  -- its jobs, snapshot, plan, chapters, continuity and exports are gone; every object of an export and both
  -- objects under the canonical keys have a cleanup row; the cleanup rows, books, jobs and exports that
  -- were there otherwise stay. The cleanup queue has one row an object.
  pub delete_family_book-Erased :
      {b : BookRow}
      → HasUniqueObjects db.cleanup
      → get_book family_id book_id db ≡ some b
      → is_safe_segment family_id ≡ true
      → is_safe_segment book_id ≡ true
      → (db' : Database) × (delete_family_book id max_attempts now family_id book_id backend db
          ≡ ok (db', true))
        × Erased family_id book_id backend db db'
  unfolding delete_family_book build_book_storage_key
  delete_family_book-Erased u e f g =
      let after : Erased family_id book_id backend db erased = without_book-Erased u in
      (erased, rw (e, f, g), after)

  -- A deletion raises `ValueError` if an id of the book found is unsafe in a storage key.
  delete_family_book-unsafe :
      {b : BookRow}
      → get_book family_id book_id db ≡ some b
      → (is_safe_segment family_id && is_safe_segment book_id) ≡ false
      → delete_family_book id max_attempts now family_id book_id backend db ≡ err value_error
  unfolding delete_family_book build_book_storage_key
  delete_family_book-unsafe e unsafe = elim (Bool-cases (is_safe_segment family_id)) [
    | inl f ↦ let g : is_safe_segment book_id ≡ false = ground arith in rw (e, f, g)
    | inr f ↦ rw (e, f)
  ]

  -- For a family that does not have the book, a deletion does nothing.
  delete_family_book-missing :
      get_book family_id book_id db ≡ none
      → delete_family_book id max_attempts now family_id book_id backend db ≡ ok (db, false)
  unfolding delete_family_book
  delete_family_book-missing e = rw e
