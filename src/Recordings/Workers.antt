-- ===== src/Recordings/Workers.antt =====
-- What worker processes do to the queue: the transactions of orchestration/recordings.py's worker and
-- of its heartbeat, each with the worker's own id, in any order and at any instants.
use mura_project.Prelude.{ℕ, String, Bool, some, List, [], ◌∷◌, settled}
use mura_project.Recordings.Rows.{JobStatus, ProcessingJobRow, ProcessingTraceEventRow, Database}
use mura_project.Recordings.Queue.{
  claim_next_job, renew_lease, renewed, update_job_stage, save_transcript_preview, fail_job,
  deferred, failed_row,
}
use mura_project.Recordings.Completion.{
  finalize_recording_job, defer_recording_job, fail_recording_job, finished_row,
}

pub data Action : Type 0 where
  -- the rows that other transactions hold, the lease and the instant
  claim : (String → Bool) → ℕ → ℕ → Action
  renew : String → ℕ → ℕ → Action
  stage : String → JobStatus → String → ℕ → Action
  preview : String → String → ℕ → Action
  finalize : String → String → List ProcessingTraceEventRow → ℕ → Action
  defer : String → String → String → ℕ → List ProcessingTraceEventRow → ℕ → Action
  fail : String → String → String → List ProcessingTraceEventRow → ℕ → Action
  -- the recording of the job is missing
  fail_bare : String → String → String → ℕ → Action

-- When an action is taken.
abbrev pub instant : Action → ℕ
instant (claim locked lease now) = now
instant (renew job_id lease now) = now
instant (stage job_id status name now) = now
instant (preview job_id text now) = now
instant (finalize job_id payload events now) = now
instant (defer job_id code detail retry_after events now) = now
instant (fail job_id code detail events now) = now
instant (fail_bare job_id code detail now) = now

-- The state after an action of the worker `w`: what raises leaves it as it was.
unfoldable pub step : String → Action → Database → Database
step w (claim locked lease now) db = (claim_next_job locked w lease now db).0
step w (renew job_id lease now) db = (renew_lease job_id w lease now db).0
step w (stage job_id status name now) db =
    settled db (update_job_stage job_id status name (some w) now db)
step w (preview job_id text now) db = settled db (save_transcript_preview job_id text (some w) db)
step w (finalize job_id payload events now) db =
    settled db (finalize_recording_job job_id payload events (some w) now db)
step w (defer job_id code detail retry_after events now) db =
    settled db (defer_recording_job job_id code detail retry_after events (some w) now db)
step w (fail job_id code detail events now) db =
    settled db (fail_recording_job job_id code detail events (some w) now db)
step w (fail_bare job_id code detail now) db =
    settled db (fail_job job_id code detail (some w) now db)

-- A schedule: who acts, and how, in order.
unfoldable pub run : List (String × Action) → Database → Database
run [] db = db
run ((w, a) ∷ rest) db = run rest (step w a db)

-- The job that an action other than a claim writes to, and what it writes.
abbrev pub target : Action → String
target (claim locked lease now) = ""
target (renew job_id lease now) = job_id
target (stage job_id status name now) = job_id
target (preview job_id text now) = job_id
target (finalize job_id payload events now) = job_id
target (defer job_id code detail retry_after events now) = job_id
target (fail job_id code detail events now) = job_id
target (fail_bare job_id code detail now) = job_id

abbrev pub effect : Action → ProcessingJobRow → ProcessingJobRow
effect (claim locked lease now) r = r
effect (renew job_id lease now) r = renewed lease now r
effect (stage job_id status name now) r = record r {
  status = status;
  stage = name;
  updated_at = now;
}
effect (preview job_id text now) r = r
effect (finalize job_id payload events now) r = finished_row now r
effect (defer job_id code detail retry_after events now) r = deferred code detail retry_after now r
effect (fail job_id code detail events now) r = failed_row code detail now r
effect (fail_bare job_id code detail now) r = failed_row code detail now r
