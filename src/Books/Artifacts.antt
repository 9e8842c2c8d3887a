-- ===== src/Books/Artifacts.antt =====
-- The plan, continuity and export repositories of storage/book.py: one row for each unique key, inserted
-- the first time and overwritten after it.
use mura_project.Prelude.{
  integrity_error, guard, not, any, ◌||◌, ℕ, String, Bool, ◌&&◌, Option, none, some, List, [], ◌∷◌,
  if◌then◌else◌, str_eq, ◌==◌, leb, Result, ok, ◌>>◌,
}
use mura_project.Prelude.Table.{find_where}
use mura_project.Prelude.Where.{upsert}
use mura_project.Books.Rows.{
  BookSourceSnapshotRow, BookPlanRow, BookContinuityStateRow, BookExportRow, Database,
}
use mura_project.Books.Guard.{Writer, guard_worker_write}
use mura_project.Books.Chapters.{given}

-- A book has one snapshot, and the id of a snapshot is its key.
unfoldable pub save_snapshot : BookSourceSnapshotRow → Database → Result Database
save_snapshot row db = do
  guard
      (not (
        any (λ r. str_eq r.snapshot_id row.snapshot_id || str_eq r.book_id row.book_id)
          db.snapshots))
      integrity_error
  ok (record db { snapshots = row ∷ db.snapshots })

unfoldable pub get_snapshot : String → Database → Option BookSourceSnapshotRow
get_snapshot book_id db = find_where (λ r. str_eq r.book_id book_id) db.snapshots

abbrev pub is_plan : String → BookPlanRow → Bool
is_plan book_id r = str_eq r.book_id book_id

-- The columns that a plan's second write replaces.
unfoldable pub replanned : BookPlanRow → BookPlanRow → BookPlanRow
replanned new old = record new {
  plan_id = old.plan_id;
  book_id = old.book_id;
  created_at = old.created_at;
}

unfoldable pub save_plan : BookPlanRow → Writer → Database → Result Database
unfolding replanned
save_plan row writer db = do
  guard_worker_write row.book_id writer db
  ok (record db { plans = upsert (is_plan row.book_id) row (replanned row) db.plans })

unfoldable pub get_plan : String → Database → Option BookPlanRow
get_plan book_id db = find_where (is_plan book_id) db.plans

abbrev pub is_after : String → ℕ → BookContinuityStateRow → Bool
is_after book_id number r = str_eq r.book_id book_id && r.after_chapter_number == number

unfoldable pub recontinued :
    BookContinuityStateRow → BookContinuityStateRow → BookContinuityStateRow
recontinued new old = record old {
  state = new.state;
  prompt_version = new.prompt_version;
  model = new.model;
  updated_at = new.updated_at;
}

unfoldable pub save_continuity : BookContinuityStateRow → Writer → Database → Result Database
unfolding recontinued
save_continuity row writer db = do
  guard_worker_write row.book_id writer db
  ok (record db {
    continuity =
        upsert (is_after row.book_id row.after_chapter_number) row (recontinued row) db.continuity;
  })

unfoldable pub get_continuity_after : String → ℕ → Database → Option BookContinuityStateRow
get_continuity_after book_id number db = find_where (is_after book_id number) db.continuity

abbrev pub later :
    BookContinuityStateRow → Option BookContinuityStateRow → Option BookContinuityStateRow
later r none = some r
later r (some s) = if leb s.after_chapter_number r.after_chapter_number then some r else some s

-- `ORDER BY after_chapter_number DESC LIMIT 1`
unfoldable pub latest_of : String → List BookContinuityStateRow → Option BookContinuityStateRow
latest_of book_id [] = none
latest_of book_id (r ∷ rows) =
    let rest = latest_of book_id rows in if str_eq r.book_id book_id then later r rest else rest

unfoldable pub get_latest_continuity : String → Database → Option BookContinuityStateRow
unfolding latest_of
get_latest_continuity book_id db = latest_of book_id db.continuity

abbrev pub is_export : String → String → BookExportRow → Bool
is_export book_id format r = str_eq r.book_id book_id && str_eq r.format format

unfoldable pub reexported : BookExportRow → BookExportRow → BookExportRow
reexported new old = record old {
  status = new.status;
  storage_key = given new.storage_key old.storage_key;
  storage_backend = given new.storage_backend old.storage_backend;
  size_bytes = given new.size_bytes old.size_bytes;
  sha256 = given new.sha256 old.sha256;
  content_type = given new.content_type old.content_type;
  chapter_count = new.chapter_count;
  word_count = new.word_count;
  engine = given new.engine old.engine;
  error_code = new.error_code;
  updated_at = new.updated_at;
}

unfoldable pub save_export : BookExportRow → Writer → Database → Result Database
unfolding reexported
save_export row writer db = do
  guard_worker_write row.book_id writer db
  ok (record db {
    exports = upsert (is_export row.book_id row.format) row (reexported row) db.exports;
  })

unfoldable pub get_export : String → String → Database → Option BookExportRow
get_export book_id format db = find_where (is_export book_id format) db.exports
