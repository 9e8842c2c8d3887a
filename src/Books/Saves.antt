-- ===== src/Books/Saves.antt =====
-- The plan, the continuity and the exports of a book (storage/book.py): what a save leaves to be read.
use mura_project.Prelude.{
  ℕ, ◌≡◌, String, true, false, ◌&&◌, some, str_eq, ok, ◌==◌, eq_iff, eq_refl, arith,
}
use mura_project.Prelude.Where.{written, find_where-upsert, find_where-upsert_ne, upsert}
use mura_project.Books.Rows.{BookPlanRow, BookContinuityStateRow, BookExportRow, Database}
use mura_project.Books.Guard.{Writer, guard_worker_write}
use mura_project.Books.Artifacts.{
  is_plan, save_plan, get_plan, replanned, is_after, save_continuity, get_continuity_after,
  recontinued, is_export, save_export, get_export, reexported,
}

-- For a worker that passes the fence, a saved plan is what the book's plan is read as, under the id of the
-- first one where there was one; the plans of other books are read as before.
pub save_plan-get_plan :
    (row : BookPlanRow) (writer : Writer) (db : Database)
    → guard_worker_write row.book_id writer db ≡ ok tt
    → (db' : Database) × (save_plan row writer db ≡ ok db')
      × (get_plan row.book_id db' ≡ some (written row (replanned row) (get_plan row.book_id db)))
      × ((b : String) → str_eq row.book_id b ≡ false → get_plan b db' ≡ get_plan b db)
unfolding save_plan get_plan replanned
save_plan-get_plan row writer db g = (
  record db { plans = upsert (is_plan row.book_id) row (replanned row) db.plans },
  rw g,
  find_where-upsert (is_plan row.book_id) (replanned row) row db.plans (eq_refl row.book_id)
      (λ x h. h),
  λ b ne.
      find_where-upsert_ne (is_plan row.book_id) (replanned row) row (is_plan b) db.plans ne (λ x h.
        let equal : x.book_id ≡ row.book_id = (eq_iff x.book_id row.book_id).0 h in
        (rw equal ne, rw equal ne)),
)

-- For a worker that passes the fence, a saved continuity state is read back for its chapter, and those
-- after other chapters are read as before.
pub save_continuity-get_continuity_after :
    (row : BookContinuityStateRow) (writer : Writer) (db : Database)
    → guard_worker_write row.book_id writer db ≡ ok tt
    → (db' : Database) × (save_continuity row writer db ≡ ok db')
      × (get_continuity_after row.book_id row.after_chapter_number db'
          ≡ some (
              written row
                (recontinued row)
                (get_continuity_after row.book_id row.after_chapter_number db)))
      × ((b : String) (n : ℕ)
          → (str_eq row.book_id b && row.after_chapter_number == n) ≡ false
          → get_continuity_after b n db' ≡ get_continuity_after b n db)
unfolding save_continuity get_continuity_after recontinued
save_continuity-get_continuity_after row writer db g = (
  record db {
    continuity =
        upsert (is_after row.book_id row.after_chapter_number) row (recontinued row) db.continuity;
  },
  rw g,
  find_where-upsert (is_after row.book_id row.after_chapter_number) (recontinued row) row
      db.continuity (rw (eq_refl row.book_id) (ground arith)) (λ x h. h),
  λ b n ne.
      find_where-upsert_ne (is_after row.book_id row.after_chapter_number) (recontinued row) row
        (is_after b n) db.continuity ne
        (λ x h. let d : is_after b n x ≡ false = apart b n x ne h in (d, d)),
)
  where
    apart :
        (b : String) (n : ℕ) (x : BookContinuityStateRow)
        → (str_eq row.book_id b && row.after_chapter_number == n) ≡ false
        → is_after row.book_id row.after_chapter_number x ≡ true
        → is_after b n x ≡ false
    apart b n x ne h =
        ground (arith, eq_iff x.book_id row.book_id, eq_iff x.book_id b, eq_iff row.book_id b)

-- For a worker that passes the fence, a saved export is read back for its format. Where the book had an
-- export of that format, a storage key, a backend, a size, a hash, a type and an engine that are not given
-- stay as they were. Exports of other formats and books are read as before.
pub save_export-get_export :
    (row : BookExportRow) (writer : Writer) (db : Database)
    → guard_worker_write row.book_id writer db ≡ ok tt
    → (db' : Database) × (save_export row writer db ≡ ok db')
      × (get_export row.book_id row.format db'
          ≡ some (written row (reexported row) (get_export row.book_id row.format db)))
      × ((b f : String)
          → (str_eq row.book_id b && str_eq row.format f) ≡ false
          → get_export b f db' ≡ get_export b f db)
unfolding save_export get_export reexported
save_export-get_export row writer db g = (
  record db { exports = upsert (is_export row.book_id row.format) row (reexported row) db.exports },
  rw g,
  find_where-upsert (is_export row.book_id row.format) (reexported row) row db.exports
      (rw (eq_refl row.book_id, eq_refl row.format)) (λ x h. h),
  λ b f ne.
      find_where-upsert_ne (is_export row.book_id row.format) (reexported row) row (is_export b f)
        db.exports ne (λ x h. let d : is_export b f x ≡ false = apart b f x ne h in (d, d)),
)
  where
    apart :
        (b f : String) (x : BookExportRow)
        → (str_eq row.book_id b && str_eq row.format f) ≡ false
        → is_export row.book_id row.format x ≡ true
        → is_export b f x ≡ false
    apart b f x ne h = ground (
      arith,
      eq_iff x.book_id row.book_id,
      eq_iff x.book_id b,
      eq_iff row.book_id b,
      eq_iff x.format row.format,
      eq_iff x.format f,
      eq_iff row.format f,
    )
