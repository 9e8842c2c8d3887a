-- ===== src/Books/Drafts.antt =====
-- The writes to one chapter in storage/book.py: what the next lookup shows, and which chapters stay.
use mathlib.Core.Option
use mura_project.Prelude.{
  Option-cases, inl, inr, refl, ℕ, ◌≡◌, refl, String, true, false, ◌&&◌, Option, none, some, str_eq,
  ok, err, lookup_error, ◌==◌, eq_iff, arith, Result, is_some, if◌then◌else◌,
}
use mura_project.Prelude.Where.{modify_where, find_where-modify_where, find_where-modify_where_ne}
use mura_project.Books.Rows.{
  ChapterStatus, reviewing, approved, failed, BookChapterRow, Database, is_chapter,
}
use mura_project.Books.Guard.{Writer, guard_worker_write}
use mura_project.Books.Chapters.{
  get_chapter, write_chapter, drafted, update_chapter_draft, reviewed, update_chapter_review,
  approved_row, approve_chapter, failed_chapter, fail_chapter,
}

-- One write to the chapter `number` of the book: `f` is what it does to the row.
pub record Written (book_id : String) (number : ℕ) (f : BookChapterRow → BookChapterRow)
    (db db' : Database) : Type 0 where
  pub shown : get_chapter book_id number db' ≡ Option.map f (get_chapter book_id number db)
  pub others :
      (b : String) (n : ℕ)
      → (str_eq book_id b && number == n) ≡ false
      → get_chapter b n db' ≡ get_chapter b n db

disjoint :
    (book_id b : String) (number n : ℕ) (r : BookChapterRow)
    → (str_eq book_id b && number == n) ≡ false
    → is_chapter book_id number r ≡ true
    → is_chapter b n r ≡ false
disjoint book_id b number n r ne h =
    ground (arith, eq_iff r.book_id book_id, eq_iff r.book_id b, eq_iff book_id b)

with_chapter : String → ℕ → (BookChapterRow → BookChapterRow) → Database → Database
with_chapter book_id number f db = record db {
  chapters = modify_where (is_chapter book_id number) f db.chapters;
}

with_chapter-Written :
    (book_id : String) (number : ℕ) (f : BookChapterRow → BookChapterRow) (db : Database)
    → ((b : String) (n : ℕ) (r : BookChapterRow) → is_chapter b n (f r) ≡ is_chapter b n r)
    → Written book_id number f db (with_chapter book_id number f db)
unfolding get_chapter with_chapter
with_chapter-Written book_id number f db keep = record {
  shown =
      find_where-modify_where (is_chapter book_id number) f db.chapters
        (λ x h. rw (keep book_id number x) h);
  others = λ b n ne.
      find_where-modify_where_ne (is_chapter book_id number) f (is_chapter b n) db.chapters (λ x h.
        let d : is_chapter b n x ≡ false = disjoint book_id b number n x ne h in
        (d, rw (keep b n x) d));
}

-- The write where the worker passes the fence, by the chapter that it finds.
abbrev pub OutcomeOf :
    Option BookChapterRow
    → String
    → ℕ
    → (BookChapterRow → BookChapterRow)
    → Database
    → Result Database
    → Type 0
OutcomeOf none book_id number f db m = m ≡ err lookup_error
OutcomeOf (some r) book_id number f db m =
    (db' : Database) × (m ≡ ok db') × Written book_id number f db db'

abbrev pub Outcome :
    String → ℕ → (BookChapterRow → BookChapterRow) → Database → Result Database → Type 0
Outcome book_id number f db m = OutcomeOf (get_chapter book_id number db) book_id number f db m

write_chapter-Outcome :
    (book_id : String) (number : ℕ) (writer : Writer) (f : BookChapterRow → BookChapterRow)
    (db : Database)
    → ((b : String) (n : ℕ) (r : BookChapterRow) → is_chapter b n (f r) ≡ is_chapter b n r)
    → guard_worker_write book_id writer db ≡ ok tt
    → Outcome book_id number f db (write_chapter book_id number writer f db)
unfolding write_chapter get_chapter with_chapter
write_chapter-Outcome book_id number writer f db keep g =
    elim (Option-cases (get_chapter book_id number db)) [
      | inl e ↦ rw (g, e) refl
      | inr (r, e) ↦
          rw (g, e)
            (with_chapter book_id number f db, refl, with_chapter-Written book_id number f db keep)
    ]

-- For a worker that passes the fence, a draft, a review, an approval and a failure of a chapter each raise
-- `LookupError` if the chapter is missing. Else they succeed and the next lookup of the chapter shows the row
-- with these columns and no others changed: a draft is in review with its text, an approval is approved
-- with its final text and time, a failure is failed with its code, a review has the status it came with.
-- A report that an approval or a failure is not given stays, as does a version or a model that a review is
-- not given. Every other chapter, of this book or another, is shown as before.
pub chapter_writes :
    (book_id : String) (number : ℕ) (writer : Writer) (now : ℕ) (db : Database)
    → guard_worker_write book_id writer db ≡ ok tt
    → ((text : String) (words : ℕ) (prompt : String) (payload : Option String) (model : String)
          (repairs : ℕ)
        → Outcome book_id number
            (λ r. record r {
              draft_text = some text;
              draft_payload = payload;
              word_count = words;
              writer_prompt_version = some prompt;
              writer_model = some model;
              repair_attempts = repairs;
              status = reviewing;
              updated_at = now;
            })
            db
            (update_chapter_draft book_id number text words prompt payload model repairs writer now
              db))
      × ((status : ChapterStatus) (review gate prompt model : Option String)
          → Outcome book_id number
              (λ r. record r {
                status = status;
                review = review;
                gate_report = gate;
                reviewer_prompt_version =
                    if is_some prompt then prompt else r.reviewer_prompt_version;
                reviewer_model = if is_some model then model else r.reviewer_model;
                updated_at = now;
              })
              db
              (update_chapter_review book_id number status review gate prompt model writer now db))
      × ((text : String) (words : ℕ) (review gate : Option String)
          → Outcome book_id number
              (λ r. record r {
                status = approved;
                final_text = some text;
                word_count = words;
                review = if is_some review then review else r.review;
                gate_report = if is_some gate then gate else r.gate_report;
                approved_at = some now;
                updated_at = now;
              })
              db
              (approve_chapter book_id number text words review gate writer now db))
      × ((code : String) (gate review : Option String)
          → Outcome book_id number
              (λ r. record r {
                status = failed;
                error_code = some code;
                gate_report = if is_some gate then gate else r.gate_report;
                review = if is_some review then review else r.review;
                updated_at = now;
              })
              db
              (fail_chapter book_id number code gate review writer now db))
unfolding update_chapter_draft update_chapter_review approve_chapter fail_chapter drafted reviewed
    approved_row failed_chapter
chapter_writes book_id number writer now db g = (
  λ text words prompt payload model repairs.
      write_chapter-Outcome book_id number writer _ db (λ b n r. refl) g,
  λ status review gate prompt model.
      write_chapter-Outcome book_id number writer _ db (λ b n r. refl) g,
  λ text words review gate. write_chapter-Outcome book_id number writer _ db (λ b n r. refl) g,
  λ code gate review. write_chapter-Outcome book_id number writer _ db (λ b n r. refl) g,
)
