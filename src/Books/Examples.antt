-- ===== src/Books/Examples.antt =====
-- The theorems about books at a small database, and tests by evaluation.
use mura_project.Prelude.{
  ◌>>=◌, ◌≡◌, refl, ℕ, String, Bool, true, false, none, some, Option, List, [], ◌∷◌, arith, All, ok,
}
use mura_project.Prelude.Table.{find, HasUniqueKeys, find_where, first_by}
use mura_project.Prelude.Table
use mura_project.Cleanup.Rows.{CleanupItem}
use mura_project.Books.Rows.{
  BookStatus, ChapterStatus, BookJobStatus, BookRow, BookExportRow, BookChapterRow, BookJobRow,
  Database, book_key, job_key,
}
use mura_project.Books.Guard.{Writer, fenced, guard_worker_write}
use mura_project.Books.Repository.{
  worker, completed_book, cancelled_book, finished_job, stopped_job, complete_book_and_job,
  get_book,
}
use mura_project.Books.Chapters.{
  ChapterPlan, create_chapter_stubs, get_first_unfinished_chapter, drafted, reviewed, approved_row,
  failed_chapter, update_chapter_draft, update_chapter_review, approve_chapter, fail_chapter,
}
use mura_project.Books.Deletion.{delete_family_book, is_safe_segment}
use mura_project.Books.Fence.{IsStale, AllRefused, stale_book_worker_refused}
use mura_project.Books.Workers.{Action, claim, fails, completes_book, renew, run}
use mura_project.Books.Attempts.{IsBudgeted, run-IsBudgeted, run-strands}
use mura_project.Books.Endings.{Ended, complete_book_and_job-Ended}
use mura_project.Books.Stubs.{Stubbed, create_chapter_stubs-Stubbed}
use mura_project.Books.Drafts.{Outcome, chapter_writes}
use mura_project.Books.Erasure.{Erased, delete_family_book-Erased}

abbrev book : BookRow
book = record {
  book_id = "b1";
  family_id = "f1";
  created_by_user_id = some "u1";
  title = "Отбасы";
  subtitle = none;
  status = BookStatus.writing;
  stage = "writing";
  output_language = "kk";
  target_word_count = 9000;
  source_snapshot_version = 1;
  chapters_total = 2;
  chapters_approved = 1;
  current_chapter_number = some 2;
  word_count = 0;
  supersedes_book_id = none;
  cancel_requested_at = none;
  error_code = none;
  error_detail = none;
  completed_at = none;
  created_at = 1;
  updated_at = 1;
}

-- on its last attempt
abbrev last : BookJobRow
last = record {
  job_id = "j1";
  book_id = "b1";
  family_id = "f1";
  status = BookJobStatus.running;
  stage = "writing";
  attempts = 3;
  max_attempts = 3;
  next_attempt_at = 1;
  error_code = none;
  error_detail = none;
  lease_owner = some "worker_1";
  claimed_at = some 5;
  lease_expires_at = some 50;
  last_heartbeat_at = some 5;
  created_at = 1;
  started_at = some 5;
  completed_at = none;
  updated_at = 5;
}

abbrev waiting : BookJobRow
waiting = record last {
  job_id = "j2";
  book_id = "b2";
  status = BookJobStatus.queued;
  attempts = 0;
  lease_owner = none;
  lease_expires_at = none;
  created_at = 2;
}

abbrev chapter : ℕ → ChapterStatus → BookChapterRow
chapter number status = record {
  chapter_id = "c";
  book_id = "b1";
  chapter_number = number;
  status = status;
  title = none;
  target_word_count = 100;
  plan = "{}";
  draft_text = none;
  draft_payload = none;
  final_text = none;
  word_count = 0;
  review = none;
  gate_report = none;
  person_ids = [];
  place_names = [];
  claim_ids = [];
  source_recording_ids = [];
  source_story_ids = [];
  evidence_refs = [];
  writer_prompt_version = none;
  reviewer_prompt_version = none;
  writer_model = none;
  reviewer_model = none;
  repair_attempts = 0;
  error_code = none;
  approved_at = none;
  created_at = 2;
  updated_at = 2;
}

abbrev pdf : BookExportRow
pdf = record {
  export_id = "e1";
  book_id = "b1";
  format = "pdf";
  status = "ready";
  storage_key = some "old/book.pdf";
  storage_backend = some "supabase";
  size_bytes = some 9;
  sha256 = none;
  content_type = none;
  chapter_count = 2;
  word_count = 10;
  engine = none;
  error_code = none;
  created_at = 3;
  updated_at = 3;
}

abbrev db : Database
db = record {
  books = book ∷ [];
  jobs = last ∷ waiting ∷ [];
  snapshots = [];
  plans = [];
  chapters = chapter 1 ChapterStatus.approved ∷ chapter 2 ChapterStatus.writing ∷ [];
  continuity = [];
  exports = pdf ∷ [];
  cleanup = [];
}

abbrev nobody : String → Bool
nobody id = false

jobs-HasUniqueKeys : HasUniqueKeys job_key db.jobs
unfolding find
jobs-HasUniqueKeys = (refl, (refl, tt))

books-HasUniqueKeys : HasUniqueKeys book_key db.books
unfolding find
books-HasUniqueKeys = (refl, tt)

jobs-IsBudgeted : All IsBudgeted db.jobs
jobs-IsBudgeted = ground arith

abbrev owner : Writer
owner = worker "j1" "worker_1"

owner_passes : guard_worker_write "b1" owner db ≡ ok tt
unfolding guard_worker_write fenced find find_where
owner_passes = refl

abbrev schedule : List (String × Action)
schedule =
    ("worker_2", claim nobody 60 70)
    ∷ ("worker_2", renew "j1" 60 75)
    ∷ ("worker_3", fails "j1" "timeout" "late" 80)
    ∷ ("worker_2", completes_book "j1" "b1" 10 90)
    ∷ []

run-IsBudgeted_example : All IsBudgeted (run schedule db).jobs
run-IsBudgeted_example = run-IsBudgeted schedule db jobs-HasUniqueKeys jobs-IsBudgeted

run-strands_example : find job_key "j1" (run schedule db).jobs ≡ some last
unfolding find
run-strands_example =
    run-strands schedule db last "worker_1" jobs-HasUniqueKeys refl refl refl
      (refl, (refl, (refl, (refl, tt))))

stale : IsStale "worker_2" "j1" "b1" db
unfolding find find_where
stale = record { book = book; job = last; book_stored = refl; job_stored = refl; not_owned = refl }

stale_book_worker_refused_example : AllRefused "worker_2" "j1" "b1" db
stale_book_worker_refused_example = stale_book_worker_refused "worker_2" "j1" "b1" db stale

abbrev completed_db : Database
completed_db = record db {
  books = completed_book 10 60 book ∷ [];
  jobs = finished_job 60 last ∷ waiting ∷ [];
}

complete_book_and_job-Ended_example :
    Ended (completed_book 10 60) (finished_job 60) "worker_1" "j1" "b1" db completed_db
unfolding complete_book_and_job guard_worker_write fenced find find_where Table.modify
    completed_book finished_job
complete_book_and_job-Ended_example =
    complete_book_and_job-Ended "worker_1" "j1" "b1" 10 60 db jobs-HasUniqueKeys refl

abbrev cancelled_db : Database
cancelled_db = record db {
  books = cancelled_book 60 book ∷ [];
  jobs = stopped_job 60 last ∷ waiting ∷ [];
}

abbrev chapter_plan : ℕ → ChapterPlan
chapter_plan n = record {
  chapter_number = some n;
  title = none;
  target_word_count = some 100;
  person_ids = none;
  place_names = none;
  claim_ids = none;
  source_recording_ids = none;
  source_story_ids = none;
  evidence_refs = none;
  payload = "{}";
}

abbrev two_plans : List ChapterPlan
two_plans = chapter_plan 2 ∷ chapter_plan 3 ∷ []

create_chapter_stubs-Stubbed_example :
    (db' : Database) × (create_chapter_stubs (λ n. "Глава") (λ p. "x") "b1" two_plans owner 8 db
      ≡ ok db')
    × Stubbed "b1" two_plans db.chapters db'.chapters
    × (create_chapter_stubs (λ n. "Глава") (λ p. "y") "b1" two_plans owner 9 db'
        ≡ (guard_worker_write "b1" owner db' >>= (λ u. ok db')))
create_chapter_stubs-Stubbed_example =
    create_chapter_stubs-Stubbed (λ n. "Глава") (λ p. "x") (λ p. "y") "b1" two_plans owner owner 8 9
      db owner_passes

turns_to_chapter_2 : get_first_unfinished_chapter "b1" db ≡ some (chapter 2 ChapterStatus.writing)
unfolding get_first_unfinished_chapter first_by
turns_to_chapter_2 = refl

chapter_writes_example :
    ((text : String) (words : ℕ) (prompt : String) (payload : Option String) (model : String)
        (repairs : ℕ)
      → Outcome "b1" 2
          (drafted text words prompt payload model repairs 60)
          db
          (update_chapter_draft "b1" 2 text words prompt payload model repairs owner 60 db))
    × ((status : ChapterStatus) (review gate prompt model : Option String)
        → Outcome "b1" 2
            (reviewed status review gate prompt model 60)
            db
            (update_chapter_review "b1" 2 status review gate prompt model owner 60 db))
    × ((text : String) (words : ℕ) (review gate : Option String)
        → Outcome "b1" 2
            (approved_row text words review gate 60)
            db
            (approve_chapter "b1" 2 text words review gate owner 60 db))
    × ((code : String) (gate review : Option String)
        → Outcome "b1" 2
            (failed_chapter code gate review 60)
            db
            (fail_chapter "b1" 2 code gate review owner 60 db))
unfolding drafted reviewed approved_row failed_chapter
chapter_writes_example = chapter_writes "b1" 2 owner 60 db owner_passes

abbrev new_pdf : BookExportRow
new_pdf = record pdf { export_id = "e2"; storage_key = none; word_count = 20; updated_at = 60 }

abbrev key_as_id : CleanupItem → String
key_as_id i = i.storage_key

delete_family_book-Erased_example :
    (db' : Database) × (delete_family_book key_as_id 8 60 "f1" "b1" "local" db ≡ ok (db', true))
    × Erased "f1" "b1" "local" db db'
unfolding get_book find_where is_safe_segment
delete_family_book-Erased_example =
    delete_family_book-Erased key_as_id 8 60 "f1" "b1" "local" db tt refl refl refl
