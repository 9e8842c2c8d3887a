-- ===== src/Books/Rows.antt =====
-- The tables of the books (storage/book.py), and the state of the database that they form. Ids are texts,
-- instants microseconds, and JSON payloads texts.
use mura_project.Prelude.{ℕ, String, Option, List, Bool, true, false, ◌&&◌, ◌==◌, str_eq}
use mura_project.Cleanup.Rows.{StorageCleanupJobRow}

-- domain/book_models.py
pub data BookStatus : Type 0 where
  draft queued planning writing reviewing exporting completed failed cancelled : BookStatus

-- `TERMINAL_BOOK_STATUSES`
abbrev pub is_terminal_book : BookStatus → Bool
is_terminal_book completed = true
is_terminal_book failed = true
is_terminal_book cancelled = true
is_terminal_book _ = false

pub data ChapterStatus : Type 0 where
  planned writing reviewing repairing approved failed : ChapterStatus

abbrev pub is_approved : ChapterStatus → Bool
is_approved approved = true
is_approved _ = false

pub data BookJobStatus : Type 0 where
  queued running completed failed cancelled : BookJobStatus

-- `TERMINAL_BOOK_JOB_STATUSES`
abbrev pub is_terminal : BookJobStatus → Bool
is_terminal BookJobStatus.completed = true
is_terminal BookJobStatus.failed = true
is_terminal BookJobStatus.cancelled = true
is_terminal _ = false

abbrev pub is_queued : BookJobStatus → Bool
is_queued BookJobStatus.queued = true
is_queued _ = false

pub record BookRow : Type 0 where
  pub book_id : String
  pub family_id : String
  pub created_by_user_id : Option String
  pub title : String
  pub subtitle : Option String
  pub status : BookStatus
  pub stage : String
  pub output_language : String
  pub target_word_count : ℕ
  pub source_snapshot_version : ℕ
  pub chapters_total : ℕ
  pub chapters_approved : ℕ
  pub current_chapter_number : Option ℕ
  pub word_count : ℕ
  pub supersedes_book_id : Option String
  pub cancel_requested_at : Option ℕ
  pub error_code : Option String
  pub error_detail : Option String
  pub completed_at : Option ℕ
  pub created_at : ℕ
  pub updated_at : ℕ

pub record BookSourceSnapshotRow : Type 0 where
  pub snapshot_id : String
  pub book_id : String
  pub family_id : String
  pub compiler_version : String
  pub content_hash : String
  pub payload : String
  pub manifest : String
  pub source_recording_count : ℕ
  pub source_story_count : ℕ
  pub source_claim_count : ℕ
  pub created_at : ℕ

pub record BookPlanRow : Type 0 where
  pub plan_id : String
  pub book_id : String
  pub plan_version : ℕ
  pub blueprint : String
  pub validation_report : String
  pub central_theme : Option String
  pub narrative_voice : Option String
  pub material_anchor : Option String
  pub chapter_count : ℕ
  pub target_total_words : ℕ
  pub planner_prompt_version : String
  pub planner_model : String
  pub created_at : ℕ
  pub updated_at : ℕ

pub record BookChapterRow : Type 0 where
  pub chapter_id : String
  pub book_id : String
  pub chapter_number : ℕ
  pub status : ChapterStatus
  pub title : Option String
  pub target_word_count : ℕ
  pub plan : String
  pub draft_text : Option String
  pub draft_payload : Option String
  pub final_text : Option String
  pub word_count : ℕ
  pub review : Option String
  pub gate_report : Option String
  pub person_ids : List String
  pub place_names : List String
  pub claim_ids : List String
  pub source_recording_ids : List String
  pub source_story_ids : List String
  pub evidence_refs : List String
  pub writer_prompt_version : Option String
  pub reviewer_prompt_version : Option String
  pub writer_model : Option String
  pub reviewer_model : Option String
  pub repair_attempts : ℕ
  pub error_code : Option String
  pub approved_at : Option ℕ
  pub created_at : ℕ
  pub updated_at : ℕ

pub record BookContinuityStateRow : Type 0 where
  pub continuity_id : String
  pub book_id : String
  pub after_chapter_number : ℕ
  pub state : String
  pub prompt_version : String
  pub model : String
  pub created_at : ℕ
  pub updated_at : ℕ

pub record BookExportRow : Type 0 where
  pub export_id : String
  pub book_id : String
  pub format : String
  pub status : String
  pub storage_key : Option String
  pub storage_backend : Option String
  pub size_bytes : Option ℕ
  pub sha256 : Option String
  pub content_type : Option String
  pub chapter_count : ℕ
  pub word_count : ℕ
  pub engine : Option String
  pub error_code : Option String
  pub created_at : ℕ
  pub updated_at : ℕ

pub record BookJobRow : Type 0 where
  pub job_id : String
  pub book_id : String
  pub family_id : String
  pub status : BookJobStatus
  pub stage : String
  pub attempts : ℕ
  pub max_attempts : ℕ
  pub next_attempt_at : ℕ
  pub error_code : Option String
  pub error_detail : Option String
  pub lease_owner : Option String
  pub claimed_at : Option ℕ
  pub lease_expires_at : Option ℕ
  pub last_heartbeat_at : Option ℕ
  pub created_at : ℕ
  pub started_at : Option ℕ
  pub completed_at : Option ℕ
  pub updated_at : ℕ

pub record Database : Type 0 where
  pub books : List BookRow
  pub jobs : List BookJobRow
  pub snapshots : List BookSourceSnapshotRow
  pub plans : List BookPlanRow
  pub chapters : List BookChapterRow
  pub continuity : List BookContinuityStateRow
  pub exports : List BookExportRow
  pub cleanup : List StorageCleanupJobRow

abbrev pub book_key : BookRow → String
book_key r = r.book_id

abbrev pub job_key : BookJobRow → String
job_key r = r.job_id

-- The columns of `uq_book_chapter_number`.
abbrev pub is_chapter : String → ℕ → BookChapterRow → Bool
is_chapter book_id chapter_number r = str_eq r.book_id book_id && r.chapter_number == chapter_number
