-- ===== src/Recordings/Rows.antt =====
-- The tables of the recording queue (storage/database.py, observability.py, storage/archive.py) as
-- records, and the state of the database. Instants are microseconds since an epoch, and
-- durations microseconds: `timedelta(seconds=s)` for `s ≥ 0`. JSON payloads are texts.
use mura_project.Prelude.{ℕ, String, Option, List, Bool, true, false}

-- jobs.py: `JobStatus`
pub data JobStatus : Type 0 where
  queued transcribing cleaning extracting resolving completed failed : JobStatus

-- `TERMINAL_JOB_STATUSES`
abbrev pub is_terminal : JobStatus → Bool
is_terminal completed = true
is_terminal failed = true
is_terminal _ = false

abbrev pub is_queued : JobStatus → Bool
is_queued queued = true
is_queued _ = false

abbrev pub is_completed : JobStatus → Bool
is_completed completed = true
is_completed _ = false

abbrev pub is_failed : JobStatus → Bool
is_failed failed = true
is_failed _ = false

pub record RecordingRow : Type 0 where
  pub recording_id : String
  pub family_id : String
  pub created_by_user_id : Option String
  pub speaker_id : String
  pub speaker_name : String
  pub original_filename : String
  pub content_type : Option String
  pub audio_path : String
  pub storage_key : Option String
  pub storage_backend : Option String
  pub audio_sha256 : Option String
  pub audio_size_bytes : Option ℕ
  pub audio_duration_ms : Option ℕ  -- `Numeric(10, 3)`, in thousandths of a second
  pub audio_mime_type : Option String
  pub audio_language : Option String
  pub output_language : Option String
  pub transcript_preview : Option String
  pub created_at : ℕ

pub record ProcessingJobRow : Type 0 where
  pub job_id : String
  pub recording_id : String
  pub status : JobStatus
  pub stage : String
  pub attempts : ℕ
  pub next_attempt_at : ℕ
  pub error_code : Option String
  pub error_detail : Option String
  pub lease_owner : Option String
  pub claimed_at : Option ℕ
  pub lease_expires_at : Option ℕ
  pub last_heartbeat_at : Option ℕ
  pub created_at : ℕ
  pub started_at : Option ℕ
  pub completed_at : Option ℕ
  pub updated_at : ℕ

pub record PipelineResultRow : Type 0 where
  pub recording_id : String
  pub payload : String
  pub created_at : ℕ
  pub updated_at : ℕ

pub record WorkerRegistrationRow : Type 0 where
  pub worker_name : String
  pub url : String
  pub status : String
  pub registered_at : ℕ

-- observability.py
pub record ProcessingTraceEventRow : Type 0 where
  pub event_id : String
  pub trace_id : String
  pub job_id : String
  pub recording_id : String
  pub family_id : String
  pub attempt : ℕ
  pub sequence : ℕ
  pub stage : String
  pub event_name : String
  pub outcome : String
  pub duration_ms : Option ℕ
  pub attributes : String
  pub created_at : ℕ

-- The columns of storage/archive.py's `ArchiveClaimRow` and `ArchivePersonRow` that the queue reads.
pub record ArchiveClaimRow : Type 0 where
  pub claim_id : String
  pub recording_id : String

pub record ArchivePersonRow : Type 0 where
  pub person_id : String
  pub family_id : String

pub record Database : Type 0 where
  pub recordings : List RecordingRow
  pub jobs : List ProcessingJobRow
  pub results : List PipelineResultRow
  pub workers : List WorkerRegistrationRow
  pub traces : List ProcessingTraceEventRow
  pub claims : List ArchiveClaimRow
  pub people : List ArchivePersonRow

-- The primary keys.
abbrev pub job_key : ProcessingJobRow → String
job_key r = r.job_id

abbrev pub recording_key : RecordingRow → String
recording_key r = r.recording_id

abbrev pub result_key : PipelineResultRow → String
result_key r = r.recording_id

abbrev pub worker_key : WorkerRegistrationRow → String
worker_key r = r.worker_name

abbrev pub event_key : ProcessingTraceEventRow → String
event_key r = r.event_id
