-- ===== src/Books/Deletion.antt =====
-- `delete_family_book` of storage/book.py, and the storage keys of storage/book_artifacts.py.
use Prim.Native.Char.{Char, code}
use Prim.Native.String as S
use Prim.Native.String.{◌++◌, count}
use mura_project.Prelude.{
  text_or, ℕ, String, Bool, true, false, ◌&&◌, ◌||◌, Option, none, some, List, [], ◌∷◌, str_eq,
  if◌then◌else◌, select, leb, ◌==◌, Result, ok, value_error, ◌>>=◌, ◌>>◌, guard,
}
use mura_project.Prelude.Table.{remove}
use mura_project.Prelude.Select.{without}
use mura_project.Cleanup.Rows.{CleanupItem}
use mura_project.Cleanup.Enqueue.{enqueue_many}
use mura_project.Books.Rows.{BookRow, BookExportRow, Database, book_key}
use mura_project.Books.Repository.{get_book}

abbrev between : ℕ → ℕ → Char → Bool
between low high c = leb low (code c) && leb (code c) high

-- `[A-Za-z0-9_-]`
abbrev pub is_safe_char : Char → Bool
is_safe_char c =
    between 65 90 c || (between 97 122 c || (between 48 57 c || (code c == 95 || code c == 45)))

unfoldable pub all_safe : String → Bool
all_safe S.[] = true
all_safe (S.◌∷◌ c s) = is_safe_char c && all_safe s

-- `_SAFE_SEGMENT`
unfoldable pub is_safe_segment : String → Bool
unfolding all_safe
is_safe_segment s = all_safe s && (leb 1 (count s) && leb (count s) 128)

unfoldable pub canonical_key : String → String → String → String
canonical_key family_id book_id format =
    "families/" ++ (family_id ++ ("/books/" ++ (book_id ++ ("/book." ++ format))))

unfoldable pub build_book_storage_key : String → String → String → Result String
unfolding is_safe_segment canonical_key
build_book_storage_key family_id book_id format = do
  guard (is_safe_segment family_id) value_error
  guard (is_safe_segment book_id) value_error
  ok (canonical_key family_id book_id format)

abbrev pub pdf_or_epub : String → String
pdf_or_epub format = if str_eq format "pdf" then "book_pdf" else "book_epub"

abbrev pub artifact : String → String → String → CleanupItem
artifact format backend key = record {
  resource_type = pdf_or_epub format;
  storage_kind = "book_artifact";
  storage_backend = backend;
  storage_key = key;
}

-- The object of one export, where it has a storage key that is not empty.
abbrev pub export_item : String → BookExportRow → List CleanupItem → List CleanupItem
export_item backend e rest =
    let key = text_or e.storage_key "" in
    if str_eq key "" then rest else artifact e.format (text_or e.storage_backend backend) key ∷ rest

-- The two keys of the formats come after the exports.
unfoldable pub cleanup_items : String → String → String → List BookExportRow → List CleanupItem
cleanup_items backend pdf epub [] = artifact "pdf" backend pdf ∷ artifact "epub" backend epub ∷ []
cleanup_items backend pdf epub (e ∷ exports) =
    export_item backend e (cleanup_items backend pdf epub exports)

-- The exports of a book, as the deletion reads them.
abbrev pub exports_of : String → Database → List BookExportRow
exports_of book_id db = select (λ e. str_eq e.book_id book_id) db.exports

unfoldable pub without_book :
    (CleanupItem → String) → ℕ → ℕ → List CleanupItem → String → Database → Database
without_book new_id max_attempts now items book_id db = record {
  books = remove book_key book_id db.books;
  jobs = without (λ r. r.book_id) book_id db.jobs;
  snapshots = without (λ r. r.book_id) book_id db.snapshots;
  plans = without (λ r. r.book_id) book_id db.plans;
  chapters = without (λ r. r.book_id) book_id db.chapters;
  continuity = without (λ r. r.book_id) book_id db.continuity;
  exports = without (λ r. r.book_id) book_id db.exports;
  cleanup = enqueue_many new_id max_attempts now items db.cleanup;
}

abbrev pub delete_found :
    (CleanupItem → String)
    → ℕ
    → ℕ
    → String
    → String
    → String
    → Database
    → Option BookRow
    → Result (Database × Bool)
delete_found new_id max_attempts now family_id book_id backend db none = ok (db, false)
delete_found new_id max_attempts now family_id book_id backend db (some b) = do
  pdf ← build_book_storage_key family_id book_id "pdf"
  epub ← build_book_storage_key family_id book_id "epub"
  ok (
    without_book new_id max_attempts now (cleanup_items backend pdf epub (exports_of book_id db))
        book_id db,
    true,
  )

-- Whether the book was found stands for the list of cleanup ids that the code returns.
unfoldable pub delete_family_book :
    (CleanupItem → String) → ℕ → ℕ → String → String → String → Database → Result (Database × Bool)
unfolding get_book
delete_family_book new_id max_attempts now family_id book_id backend db =
    delete_found new_id max_attempts now family_id book_id backend db
      (get_book family_id book_id db)
