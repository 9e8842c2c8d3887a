-- ===== src/Books/Repository.antt =====
-- `BookRepository` and `BookCreationRepository` of storage/book.py, and the transactions of
-- `BookJobRepository` that end a book together with its job.
use mura_project.Prelude.{
  integrity_error, guard, not, ℕ, String, Bool, true, false, ◌&&◌, Option, none, some, ◌∷◌, is_some,
  or_else, if◌then◌else◌, str_eq, Result, ok, lookup_error, ◌>>◌, or_raise,
}
use mura_project.Prelude.Table.{find, modify, find_where}
use mura_project.Books.Rows.{
  BookStatus, BookJobStatus, is_terminal_book, BookRow, BookSourceSnapshotRow, BookJobRow, Database,
  book_key, job_key,
}
use mura_project.Books.Jobs.{new_job}
use mura_project.Books.Guard.{Writer, guard_worker_write}

abbrev pub write_book : Database → String → (BookRow → BookRow) → Database
write_book db book_id f = record db { books = modify book_key book_id f db.books }

-- The arguments of `update_stage` that may be left out.
pub record StageUpdate : Type 0 where
  pub stage : String
  pub status : Option BookStatus
  pub current_chapter_number : Option ℕ
  pub chapters_total : Option ℕ
  pub chapters_approved : Option ℕ
  pub word_count : Option ℕ

unfoldable pub with_stage : StageUpdate → ℕ → BookRow → BookRow
with_stage u now book = record book {
  stage = u.stage;
  status = or_else u.status book.status;
  current_chapter_number =
      if is_some u.current_chapter_number
      then u.current_chapter_number
      else book.current_chapter_number;
  chapters_total = or_else u.chapters_total book.chapters_total;
  chapters_approved = or_else u.chapters_approved book.chapters_approved;
  word_count = or_else u.word_count book.word_count;
  updated_at = now;
}

unfoldable pub update_stage : String → StageUpdate → Writer → ℕ → Database → Result Database
unfolding with_stage
update_stage book_id u writer now db = do
  guard_worker_write book_id writer db
  or_raise (find book_key book_id db.books) lookup_error
  ok (write_book db book_id (with_stage u now))

unfoldable pub get_book : String → String → Database → Option BookRow
get_book family_id book_id db =
    find_where (λ b. str_eq b.book_id book_id && str_eq b.family_id family_id) db.books

abbrev pub cancel_found : String → ℕ → Database → Option BookRow → Database × Bool
cancel_found book_id now db none = (db, false)
cancel_found book_id now db (some book) = if is_terminal_book book.status then (db, false) else (
  write_book db book_id (λ b. record b { cancel_requested_at = some now; updated_at = now }),
  true,
)

unfoldable pub request_cancel : String → String → ℕ → Database → Database × Bool
request_cancel family_id book_id now db =
    cancel_found book_id now db (get_book family_id book_id db)

abbrev pub cancel_asked : Option BookRow → Bool
cancel_asked none = false
cancel_asked (some book) = is_some book.cancel_requested_at

unfoldable pub is_cancel_requested : String → Database → Bool
is_cancel_requested book_id db = cancel_asked (find book_key book_id db.books)

unfoldable pub completed_book : ℕ → ℕ → BookRow → BookRow
completed_book word_count now book = record book {
  status = BookStatus.completed;
  stage = "completed";
  word_count = word_count;
  completed_at = some now;
  updated_at = now;
}

unfoldable pub complete_book : String → ℕ → ℕ → Database → Result Database
unfolding completed_book
complete_book book_id word_count now db = do
  or_raise (find book_key book_id db.books) lookup_error
  ok (write_book db book_id (completed_book word_count now))

unfoldable pub fail_book : String → String → String → ℕ → Database → Result Database
fail_book book_id error_code error_detail now db = do
  or_raise (find book_key book_id db.books) lookup_error
  ok (
      write_book db book_id (λ b. record b {
        status = BookStatus.failed;
        stage = "failed";
        error_code = some error_code;
        error_detail = some error_detail;
        updated_at = now;
      }))

unfoldable pub cancelled_book : ℕ → BookRow → BookRow
cancelled_book now book = record book {
  status = BookStatus.cancelled;
  stage = "cancelled";
  updated_at = now;
}

unfoldable pub cancel_book : String → ℕ → Database → Result Database
unfolding cancelled_book
cancel_book book_id now db = do
  or_raise (find book_key book_id db.books) lookup_error
  ok (write_book db book_id (cancelled_book now))

unfoldable pub finished_job : ℕ → BookJobRow → BookJobRow
finished_job now r = record r {
  status = BookJobStatus.completed;
  stage = "completed";
  error_code = none;
  error_detail = none;
  completed_at = some now;
  lease_owner = none;
  claimed_at = none;
  lease_expires_at = none;
  last_heartbeat_at = none;
  updated_at = now;
}

-- The writer of the two transactions below is always a worker.
abbrev pub worker : String → String → Writer
worker job_id lease_owner = record { job_id = some job_id; lease_owner = some lease_owner }

unfoldable pub complete_book_and_job : String → String → ℕ → String → ℕ → Database → Result Database
unfolding completed_book finished_job
complete_book_and_job job_id book_id word_count lease_owner now db = do
  guard_worker_write book_id (worker job_id lease_owner) db
  or_raise (find book_key book_id db.books) lookup_error
  or_raise (find job_key job_id db.jobs) lookup_error
  ok (record db {
    books = modify book_key book_id (completed_book word_count now) db.books;
    jobs = modify job_key job_id (finished_job now) db.jobs;
  })

unfoldable pub stopped_job : ℕ → BookJobRow → BookJobRow
stopped_job now r = record r {
  status = BookJobStatus.cancelled;
  stage = "cancelled";
  lease_owner = none;
  claimed_at = none;
  lease_expires_at = none;
  last_heartbeat_at = none;
  updated_at = now;
}

unfoldable pub cancel_book_and_job : String → String → String → ℕ → Database → Result Database
unfolding cancelled_book stopped_job
cancel_book_and_job job_id book_id lease_owner now db = do
  guard_worker_write book_id (worker job_id lease_owner) db
  or_raise (find book_key book_id db.books) lookup_error
  or_raise (find job_key job_id db.jobs) lookup_error
  ok (record db {
    books = modify book_key book_id (cancelled_book now) db.books;
    jobs = modify job_key job_id (stopped_job now) db.jobs;
  })

-- What the caller of `create_queued_book` passes, with the compiled snapshot as its row.
pub record BookRequest : Type 0 where
  pub family_id : String
  pub created_by_user_id : String
  pub title : String
  pub subtitle : Option String
  pub output_language : String
  pub target_word_count : ℕ
  pub supersedes_book_id : Option String
  pub source_snapshot_version : ℕ

unfoldable pub new_book : BookRequest → String → ℕ → BookRow
new_book q book_id now = record {
  book_id = book_id;
  family_id = q.family_id;
  created_by_user_id = some q.created_by_user_id;
  title = q.title;
  subtitle = q.subtitle;
  status = BookStatus.queued;
  stage = "preparing_sources";
  output_language = q.output_language;
  target_word_count = q.target_word_count;
  source_snapshot_version = q.source_snapshot_version;
  chapters_total = 0;
  chapters_approved = 0;
  current_chapter_number = none;
  word_count = 0;
  supersedes_book_id = q.supersedes_book_id;
  cancel_requested_at = none;
  error_code = none;
  error_detail = none;
  completed_at = none;
  created_at = now;
  updated_at = now;
}

unfoldable pub create_book : BookRequest → String → ℕ → Database → Result Database
unfolding new_book
create_book q book_id now db = do
  guard (not (is_some (find book_key book_id db.books))) integrity_error
  ok (record db { books = new_book q book_id now ∷ db.books })

-- The ids are random (`new_book_id`, `new_book_job_id`); `snapshot` is the row of the compiled snapshot
-- for a book id.
unfoldable pub create_queued_book :
    BookRequest → String → String → (String → BookSourceSnapshotRow) → ℕ → Database → Database
unfolding new_book new_job
create_queued_book q book_id job_id snapshot now db = record db {
  books = new_book q book_id now ∷ db.books;
  snapshots = snapshot book_id ∷ db.snapshots;
  jobs =
      new_job job_id book_id q.family_id "preparing_sources" 3 BookJobStatus.queued now ∷ db.jobs;
}
