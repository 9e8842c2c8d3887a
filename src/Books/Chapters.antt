-- ===== src/Books/Chapters.antt =====
-- `BookChapterRepository` of storage/book.py.
use mura_project.Prelude.{
  ℕ, String, Bool, ◌&&◌, not, Option, none, some, List, [], ◌∷◌, is_some, or_else, if◌then◌else◌,
  str_eq, any, Result, ok, lookup_error, ◌>>◌, or_raise,
}
use mura_project.Prelude.Table.{find_where, first_by}
use mura_project.Prelude.Where.{modify_where}
use mura_project.Books.Rows.{
  ChapterStatus, planned, reviewing, approved, failed, is_approved, BookChapterRow, Database,
  is_chapter,
}
use mura_project.Books.Guard.{Writer, guard_worker_write}

-- The keys that `create_chapter_stubs` reads of a plan, and the whole of it.
pub record ChapterPlan : Type 0 where
  pub chapter_number : Option ℕ
  pub title : Option String
  pub target_word_count : Option ℕ
  pub person_ids : Option (List String)
  pub place_names : Option (List String)
  pub claim_ids : Option (List String)
  pub source_recording_ids : Option (List String)
  pub source_story_ids : Option (List String)
  pub evidence_refs : Option (List String)
  pub payload : String

abbrev pub number_of : ChapterPlan → ℕ
number_of plan = or_else plan.chapter_number 1

-- `default_title` is the text "Глава {n}".
unfoldable pub new_stub :
    (ℕ → String) → (ChapterPlan → String) → String → ℕ → ChapterPlan → BookChapterRow
new_stub default_title new_id book_id now plan = record {
  chapter_id = new_id plan;
  book_id = book_id;
  chapter_number = number_of plan;
  status = planned;
  title = some (or_else plan.title (default_title (number_of plan)));
  target_word_count = or_else plan.target_word_count 0;
  plan = plan.payload;
  draft_text = none;
  draft_payload = none;
  final_text = none;
  word_count = 0;
  review = none;
  gate_report = none;
  person_ids = or_else plan.person_ids [];
  place_names = or_else plan.place_names [];
  claim_ids = or_else plan.claim_ids [];
  source_recording_ids = or_else plan.source_recording_ids [];
  source_story_ids = or_else plan.source_story_ids [];
  evidence_refs = or_else plan.evidence_refs [];
  writer_prompt_version = none;
  reviewer_prompt_version = none;
  writer_model = none;
  reviewer_model = none;
  repair_attempts = 0;
  error_code = none;
  approved_at = none;
  created_at = now;
  updated_at = now;
}

-- One turn of the loop: a chapter that exists is left alone.
unfoldable pub add_stub :
    (ℕ → String)
    → (ChapterPlan → String)
    → String
    → ℕ
    → ChapterPlan
    → List BookChapterRow
    → List BookChapterRow
unfolding new_stub
add_stub default_title new_id book_id now plan rows =
    if any (is_chapter book_id (number_of plan)) rows
    then rows
    else new_stub default_title new_id book_id now plan ∷ rows

unfoldable pub add_stubs :
    (ℕ → String)
    → (ChapterPlan → String)
    → String
    → ℕ
    → List ChapterPlan
    → List BookChapterRow
    → List BookChapterRow
unfolding add_stub
add_stubs default_title new_id book_id now [] rows = rows
add_stubs default_title new_id book_id now (plan ∷ plans) rows =
    add_stubs default_title new_id book_id now plans
      (add_stub default_title new_id book_id now plan rows)

unfoldable pub create_chapter_stubs :
    (ℕ → String)
    → (ChapterPlan → String)
    → String
    → List ChapterPlan
    → Writer
    → ℕ
    → Database
    → Result Database
unfolding add_stubs
create_chapter_stubs default_title new_id book_id plans writer now db = do
  guard_worker_write book_id writer db
  ok (record db { chapters = add_stubs default_title new_id book_id now plans db.chapters })

unfoldable pub get_chapter : String → ℕ → Database → Option BookChapterRow
get_chapter book_id number db = find_where (is_chapter book_id number) db.chapters

-- The chapters of a book that are not approved.
abbrev pub is_unfinished : String → BookChapterRow → Bool
is_unfinished book_id r = str_eq r.book_id book_id && not (is_approved r.status)

unfoldable pub get_first_unfinished_chapter : String → Database → Option BookChapterRow
get_first_unfinished_chapter book_id db =
    first_by (is_unfinished book_id) (λ r. r.chapter_number) db.chapters

-- The body that the four writes below share: the fence, the row, the write.
unfoldable pub write_chapter :
    String → ℕ → Writer → (BookChapterRow → BookChapterRow) → Database → Result Database
write_chapter book_id number writer f db = do
  guard_worker_write book_id writer db
  or_raise (find_where (is_chapter book_id number) db.chapters) lookup_error
  ok (record db { chapters = modify_where (is_chapter book_id number) f db.chapters })

-- A column that is written only where a value is given.
abbrev pub given {ℓ} : {A : Type ℓ} → Option A → Option A → Option A
given new old = if is_some new then new else old

unfoldable pub drafted :
    String → ℕ → String → Option String → String → ℕ → ℕ → BookChapterRow → BookChapterRow
drafted text words prompt payload model repairs now r = record r {
  draft_text = some text;
  draft_payload = payload;
  word_count = words;
  writer_prompt_version = some prompt;
  writer_model = some model;
  repair_attempts = repairs;
  status = reviewing;
  updated_at = now;
}

unfoldable pub update_chapter_draft :
    String
    → ℕ
    → String
    → ℕ
    → String
    → Option String
    → String
    → ℕ
    → Writer
    → ℕ
    → Database
    → Result Database
unfolding write_chapter drafted
update_chapter_draft book_id number text words prompt payload model repairs writer now =
    write_chapter book_id number writer (drafted text words prompt payload model repairs now)

unfoldable pub reviewed :
    ChapterStatus
    → Option String
    → Option String
    → Option String
    → Option String
    → ℕ
    → BookChapterRow
    → BookChapterRow
reviewed status review gate prompt model now r = record r {
  status = status;
  review = review;
  gate_report = gate;
  reviewer_prompt_version = given prompt r.reviewer_prompt_version;
  reviewer_model = given model r.reviewer_model;
  updated_at = now;
}

unfoldable pub update_chapter_review :
    String
    → ℕ
    → ChapterStatus
    → Option String
    → Option String
    → Option String
    → Option String
    → Writer
    → ℕ
    → Database
    → Result Database
unfolding write_chapter reviewed
update_chapter_review book_id number status review gate prompt model writer now =
    write_chapter book_id number writer (reviewed status review gate prompt model now)

unfoldable pub approved_row :
    String → ℕ → Option String → Option String → ℕ → BookChapterRow → BookChapterRow
approved_row text words review gate now r = record r {
  status = approved;
  final_text = some text;
  word_count = words;
  review = given review r.review;
  gate_report = given gate r.gate_report;
  approved_at = some now;
  updated_at = now;
}

unfoldable pub approve_chapter :
    String
    → ℕ
    → String
    → ℕ
    → Option String
    → Option String
    → Writer
    → ℕ
    → Database
    → Result Database
unfolding write_chapter approved_row
approve_chapter book_id number text words review gate writer now =
    write_chapter book_id number writer (approved_row text words review gate now)

unfoldable pub failed_chapter :
    String → Option String → Option String → ℕ → BookChapterRow → BookChapterRow
failed_chapter error_code gate review now r = record r {
  status = failed;
  error_code = some error_code;
  gate_report = given gate r.gate_report;
  review = given review r.review;
  updated_at = now;
}

unfoldable pub fail_chapter :
    String → ℕ → String → Option String → Option String → Writer → ℕ → Database → Result Database
unfolding write_chapter failed_chapter
fail_chapter book_id number error_code gate review writer now =
    write_chapter book_id number writer (failed_chapter error_code gate review now)
