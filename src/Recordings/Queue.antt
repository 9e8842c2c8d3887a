-- ===== src/Recordings/Queue.antt =====
-- `RecordingRepository` of storage/database.py: how a worker takes a job, keeps it and gives it
-- back. Each operation is one transaction; `now` is what `utcnow()` returned.
use mura_project.Prelude.{
  ℕ, ◌+◌, String, Bool, true, false, ◌&&◌, ◌||◌, not, Option, none, some, List, ◌∷◌, leb, is_none,
  is_some, or_else, holds_text, if◌then◌else◌, Result, ok, lookup_error, lease_ownership_lost,
  ◌>>=◌, or_raise, guard, ◌>>◌,
}
use mura_project.Prelude.Table.{find, modify, first_by}
use mura_project.Recordings.Rows.{
  JobStatus, queued, transcribing, completed, failed, is_terminal, is_queued, ProcessingJobRow,
  PipelineResultRow, Database, job_key, recording_key, result_key,
}

-- `_release_lease`
unfoldable pub release_lease : ProcessingJobRow → ProcessingJobRow
release_lease job = record job { lease_owner = none; claimed_at = none; lease_expires_at = none }

abbrev pub waiting_for_asr_stage : String
waiting_for_asr_stage = "waiting_for_asr"

-- `lease_expires_at <= moment` in SQL, which is not true of NULL.
abbrev pub is_past : Option ℕ → ℕ → Bool
is_past none moment = false
is_past (some t) moment = leb t moment

unfoldable pub due_queued : ℕ → ProcessingJobRow → Bool
due_queued moment r =
    is_queued r.status
    && (leb r.next_attempt_at moment
        && (is_none r.lease_expires_at || is_past r.lease_expires_at moment))

unfoldable pub expired_lease : ℕ → ProcessingJobRow → Bool
expired_lease moment r =
    not (is_terminal r.status) && (is_some r.lease_expires_at && is_past r.lease_expires_at moment)

unfoldable pub is_eligible : ℕ → ProcessingJobRow → Bool
unfolding due_queued expired_lease
is_eligible moment r = due_queued moment r || expired_lease moment r

-- What a claim writes to the row.
unfoldable pub claimed : String → ℕ → ℕ → ProcessingJobRow → ProcessingJobRow
claimed owner lease moment job = record job {
  lease_owner = some owner;
  claimed_at = some moment;
  lease_expires_at = some (moment + lease);
  last_heartbeat_at = some moment;
  attempts = job.attempts + 1;
  status = transcribing;
  stage = "asr_transcription";
  started_at = some (or_else job.started_at moment);
  updated_at = moment;
  error_code = none;
  error_detail = none;
}

-- The row that `claim_next_job` selects. `locked` tells the rows that other transactions hold,
-- which `FOR UPDATE SKIP LOCKED` passes over.
unfoldable pub next_job : (String → Bool) → ℕ → List ProcessingJobRow → Option ProcessingJobRow
next_job locked moment =
    first_by (λ r. is_eligible moment r && not (locked r.job_id)) (λ r. r.created_at)

abbrev pub claim_selected :
    String → ℕ → ℕ → Database → Option ProcessingJobRow → Database × Option ProcessingJobRow
claim_selected owner lease moment db none = (db, none)
claim_selected owner lease moment db (some job) = (
  record db { jobs = modify job_key job.job_id (claimed owner lease moment) db.jobs },
  some (claimed owner lease moment job),
)

unfoldable pub claim_next_job :
    (String → Bool) → String → ℕ → ℕ → Database → Database × Option ProcessingJobRow
claim_next_job locked owner lease moment db =
    claim_selected owner lease moment db (next_job locked moment db.jobs)

-- The `WHERE` of `renew_lease`, but for the primary key.
unfoldable pub is_renewable : String → ProcessingJobRow → Bool
is_renewable owner r = holds_text r.lease_owner owner && not (is_terminal r.status)

-- The column `updated_at` is written by its `onupdate`.
unfoldable pub renewed : ℕ → ℕ → ProcessingJobRow → ProcessingJobRow
renewed lease moment r = record r {
  lease_expires_at = some (moment + lease);
  last_heartbeat_at = some moment;
  updated_at = moment;
}

abbrev pub renew_found :
    String → String → ℕ → ℕ → Database → Option ProcessingJobRow → Database × Bool
renew_found job_id owner lease moment db none = (db, false)
renew_found job_id owner lease moment db (some r) =
    if is_renewable owner r
    then (record db { jobs = modify job_key job_id (renewed lease moment) db.jobs }, true)
    else (db, false)

unfoldable pub renew_lease : String → String → ℕ → ℕ → Database → Database × Bool
renew_lease job_id owner lease moment db =
    renew_found job_id owner lease moment db (find job_key job_id db.jobs)

-- The ownership test of `_owned_job`: no owner given is an administrative write.
abbrev pub may_write : Option String → ProcessingJobRow → Bool
may_write none job = true
may_write (some owner) job = holds_text job.lease_owner owner

unfoldable pub owned_job : Database → String → Option String → Result ProcessingJobRow
owned_job db job_id lease_owner = do
  job ← or_raise (find job_key job_id db.jobs) lookup_error
  guard (may_write lease_owner job) lease_ownership_lost
  ok job

-- Writes to the columns of a job that has been loaded.
abbrev pub write_job : Database → String → (ProcessingJobRow → ProcessingJobRow) → Database
write_job db job_id f = record db { jobs = modify job_key job_id f db.jobs }

unfoldable pub update_job_stage :
    String → JobStatus → String → Option String → ℕ → Database → Result Database
update_job_stage job_id status stage lease_owner now db = do
  owned_job db job_id lease_owner
  ok (write_job db job_id (λ r. record r { status = status; stage = stage; updated_at = now }))

unfoldable pub save_transcript_preview :
    String → String → Option String → Database → Result Database
save_transcript_preview job_id text lease_owner db = do
  job ← owned_job db job_id lease_owner
  ok (record db {
    recordings =
        modify recording_key job.recording_id (λ r. record r { transcript_preview = some text })
          db.recordings;
  })

unfoldable pub deferred : String → String → ℕ → ℕ → ProcessingJobRow → ProcessingJobRow
unfolding release_lease
deferred error_code error_detail retry_after now r = release_lease (record r {
  status = queued;
  stage = waiting_for_asr_stage;
  next_attempt_at = now + retry_after;
  error_code = some error_code;
  error_detail = some error_detail;
  updated_at = now;
})

unfoldable pub defer_job :
    String → String → String → ℕ → Option String → ℕ → Database → Result Database
defer_job job_id error_code error_detail retry_after lease_owner now db = do
  owned_job db job_id lease_owner
  ok (write_job db job_id (deferred error_code error_detail retry_after now))

unfoldable pub failed_row : String → String → ℕ → ProcessingJobRow → ProcessingJobRow
unfolding release_lease
failed_row error_code error_detail now r = release_lease (record r {
  status = failed;
  stage = "failed";
  error_code = some error_code;
  error_detail = some error_detail;
  completed_at = some now;
  updated_at = now;
})

unfoldable pub fail_job : String → String → String → Option String → ℕ → Database → Result Database
fail_job job_id error_code error_detail lease_owner now db = do
  owned_job db job_id lease_owner
  ok (write_job db job_id (failed_row error_code error_detail now))

-- Inserts the result of a recording, or overwrites the one that is stored.
unfoldable pub store_result : String → String → ℕ → List PipelineResultRow → List PipelineResultRow
store_result recording_id payload now results =
    if is_some (find result_key recording_id results)
    then modify result_key recording_id (λ r. record r { payload = payload; updated_at = now })
        results
    else record {
      recording_id = recording_id;
      payload = payload;
      created_at = now;
      updated_at = now;
    }
      ∷ results

-- The columns that completing a job writes, before the lease is dropped (or not).
unfoldable pub completed_row : ℕ → ProcessingJobRow → ProcessingJobRow
completed_row now r = record r {
  status = completed;
  stage = "completed";
  error_code = none;
  error_detail = none;
  completed_at = some now;
  updated_at = now;
}

-- `complete_job` has no owner to check, and leaves the lease columns as they are.
unfoldable pub complete_job : String → String → ℕ → Database → Result Database
unfolding completed_row
complete_job job_id payload now db = do
  job ← or_raise (find job_key job_id db.jobs) lookup_error
  ok (record db {
    results = store_result job.recording_id payload now db.results;
    jobs = modify job_key job_id (completed_row now) db.jobs;
  })
