-- ===== src/Books/Fence.antt =====
-- The fence of storage/book.py: what a worker that has lost its lease can still write.
use mura_project.Prelude.{
  ◌≡◌, ℕ, String, false, ◌&&◌, Option, some, List, str_eq, holds_text, err, lease_ownership_lost,
}
use mura_project.Prelude.Table.{find, find_where}
use mura_project.Books.Rows.{
  ChapterStatus, BookRow, BookPlanRow, BookContinuityStateRow, BookExportRow, BookJobRow, Database,
  book_key,
}
use mura_project.Books.Guard.{fenced, guard_worker_write}
use mura_project.Books.Repository.{
  StageUpdate, worker, update_stage, complete_book_and_job, cancel_book_and_job,
}
use mura_project.Books.Chapters.{
  ChapterPlan, create_chapter_stubs, write_chapter, update_chapter_draft, update_chapter_review,
  approve_chapter, fail_chapter,
}
use mura_project.Books.Artifacts.{save_plan, save_continuity, save_export}

-- The book exists, its job does, and somebody else holds the lease, or nobody.
pub record IsStale (w job_id book_id : String) (db : Database) : Type 0 where
  pub book : BookRow
  pub job : BookJobRow
  pub book_stored : find book_key book_id db.books ≡ some book
  pub job_stored :
      find_where (λ r. str_eq r.job_id job_id && str_eq r.book_id book_id) db.jobs ≡ some job
  pub not_owned : holds_text job.lease_owner w ≡ false

pub guard_worker_write-stale :
    (w job_id book_id : String) (db : Database)
    → IsStale w job_id book_id db
    → guard_worker_write book_id (worker job_id w) db ≡ err lease_ownership_lost
unfolding guard_worker_write fenced
guard_worker_write-stale w job_id book_id db s = rw (s.book_stored, s.job_stored, s.not_owned)

module _ (w job_id book_id : String) (db : Database) where
  -- The writes of a book worker that carry the job and the owner to the fence.
  pub record AllRefused : Type 1 where
    pub stage :
        (u : StageUpdate) (now : ℕ)
        → update_stage book_id u (worker job_id w) now db ≡ err lease_ownership_lost
    pub plan :
        (row : BookPlanRow)
        → row.book_id ≡ book_id
        → save_plan row (worker job_id w) db ≡ err lease_ownership_lost
    pub stubs :
        (title : ℕ → String) (id : ChapterPlan → String) (plans : List ChapterPlan) (now : ℕ)
        → create_chapter_stubs title id book_id plans (worker job_id w) now db
          ≡ err lease_ownership_lost
    pub draft :
        (number : ℕ) (text : String) (words : ℕ) (prompt : String) (payload : Option String)
        (model : String) (repairs now : ℕ)
        → update_chapter_draft book_id number text words prompt payload model repairs
            (worker job_id w)
            now
            db
          ≡ err lease_ownership_lost
    pub review :
        (number : ℕ) (status : ChapterStatus) (review gate prompt model : Option String) (now : ℕ)
        → update_chapter_review book_id number status review gate prompt model
            (worker job_id w)
            now
            db
          ≡ err lease_ownership_lost
    pub approval :
        (number : ℕ) (text : String) (words : ℕ) (review gate : Option String) (now : ℕ)
        → approve_chapter book_id number text words review gate (worker job_id w) now db
          ≡ err lease_ownership_lost
    pub failure :
        (number : ℕ) (code : String) (gate review : Option String) (now : ℕ)
        → fail_chapter book_id number code gate review (worker job_id w) now db
          ≡ err lease_ownership_lost
    pub continuity :
        (row : BookContinuityStateRow)
        → row.book_id ≡ book_id
        → save_continuity row (worker job_id w) db ≡ err lease_ownership_lost
    pub export :
        (row : BookExportRow)
        → row.book_id ≡ book_id
        → save_export row (worker job_id w) db ≡ err lease_ownership_lost
    pub completion :
        (words now : ℕ)
        → complete_book_and_job job_id book_id words w now db ≡ err lease_ownership_lost
    pub cancellation :
        (now : ℕ) → cancel_book_and_job job_id book_id w now db ≡ err lease_ownership_lost

-- While the book and its job exist and the worker is not the owner of the lease, each of the eleven
-- writes that take the job and the owner to the fence is refused with `LeaseOwnershipLost`, whatever it
-- would have written: the stage of the book, its plan, its stubs, the four writes to a chapter, the
-- continuity, an export, a completion and a cancellation of the book with its job. `fail_book` has no
-- fence and is not among them, nor are the writes to the job alone, which have a test of their own.
pub stale_book_worker_refused :
    (w job_id book_id : String) (db : Database)
    → IsStale w job_id book_id db
    → AllRefused w job_id book_id db
unfolding update_stage save_plan create_chapter_stubs update_chapter_draft update_chapter_review
    approve_chapter fail_chapter write_chapter save_continuity save_export complete_book_and_job
    cancel_book_and_job
stale_book_worker_refused w job_id book_id db s =
    let refused : guard_worker_write book_id (worker job_id w) db ≡ err lease_ownership_lost =
      guard_worker_write-stale w job_id book_id db s in
    record {
      stage = λ u now. rw refused;
      plan = λ row e. rw (e, refused);
      stubs = λ title id plans now. rw refused;
      draft = λ number text words prompt payload model repairs now. rw refused;
      review = λ number status review gate prompt model now. rw refused;
      approval = λ number text words review gate now. rw refused;
      failure = λ number code gate review now. rw refused;
      continuity = λ row e. rw (e, refused);
      export = λ row e. rw (e, refused);
      completion = λ words now. rw refused;
      cancellation = λ now. rw refused;
    }
