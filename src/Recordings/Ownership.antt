-- ===== src/Recordings/Ownership.antt =====
-- What the ownership test of `_owned_job` and of storage/completion.py refuses, and what a completion stores.
use mathlib.Core.Option
use mura_project.Prelude.{
  inl, inr, ℕ, ◌≡◌, refl, ap, ◌∙◌, String, true, false, Option, none, some, List, str_eq, eq_refl,
  if◌then◌else◌, Option-cases, Bool-cases, holds_text, ok, err, lease_ownership_lost,
  job_finalization_error,
}
use mura_project.Prelude.Table.{find, modify, find-modify_self, find-modify_ne}
use mura_project.Recordings.Rows.{
  JobStatus, completed, ProcessingJobRow, PipelineResultRow, ProcessingTraceEventRow, Database,
  job_key, result_key, is_failed,
}
use mura_project.Recordings.Queue.{
  renew_lease, is_renewable, owned_job, may_write, update_job_stage, save_transcript_preview,
  defer_job, fail_job, store_result, completed_row, release_lease,
}
use mura_project.Recordings.Completion.{
  persist_trace_events, finished_row, finalize_recording_job, defer_recording_job,
  fail_recording_job,
}

-- A worker that no longer owns a job writes nothing: its renewal is refused, and every stage change,
-- preview, deferral and failure raises `LeaseOwnershipLost`; so does a completion, unless the
-- job has failed meanwhile, which is reported as such.
pub stale_worker_refused :
    (w job_id : String) (db : Database) (r : ProcessingJobRow) (status : JobStatus)
    (name text code detail payload : String) (events : List ProcessingTraceEventRow)
    (lease retry_after now : ℕ)
    → find job_key job_id db.jobs ≡ some r
    → holds_text r.lease_owner w ≡ false
    → (renew_lease job_id w lease now db ≡ (db, false))
      × (update_job_stage job_id status name (some w) now db ≡ err lease_ownership_lost)
      × (save_transcript_preview job_id text (some w) db ≡ err lease_ownership_lost)
      × (defer_job job_id code detail retry_after (some w) now db ≡ err lease_ownership_lost)
      × (fail_job job_id code detail (some w) now db ≡ err lease_ownership_lost)
      × (defer_recording_job job_id code detail retry_after events (some w) now db
          ≡ err lease_ownership_lost)
      × (fail_recording_job job_id code detail events (some w) now db ≡ err lease_ownership_lost)
      × (finalize_recording_job job_id payload events (some w) now db
          ≡ (if is_failed r.status then err job_finalization_error else err lease_ownership_lost))
unfolding renew_lease is_renewable owned_job update_job_stage save_transcript_preview defer_job
    fail_job defer_recording_job fail_recording_job finalize_recording_job
stale_worker_refused w job_id db r status name text code detail payload events lease retry_after now
      e h =
    (rw (e, h), rw (e, h), rw (e, h), rw (e, h), rw (e, h), rw (e, h), rw (e, h), finalizes)
  where
    finalizes :
        finalize_recording_job job_id payload events (some w) now db
        ≡ (if is_failed r.status then err job_finalization_error else err lease_ownership_lost)
    finalizes = elim (Bool-cases (is_failed r.status)) [ inl f ↦ rw (e, f) | inr f ↦ rw (e, f, h) ]

-- `store_result` leaves exactly the payload under its recording.
payload-store_result :
    (recording_id payload : String) (now : ℕ) (results : List PipelineResultRow)
    → Option.map
        (λ (r : PipelineResultRow). r.payload)
        (find result_key recording_id (store_result recording_id payload now results))
      ≡ some payload
unfolding store_result
payload-store_result recording_id payload now results =
    elim (Option-cases (find result_key recording_id results)) [
      | inl e ↦ rw e (unfold find in rw (eq_refl recording_id))
      | inr (r, e) ↦ rw e (
          rw (
            find-modify_self result_key recording_id
                (λ (r : PipelineResultRow). record r { payload = payload; updated_at = now })
                results (λ x. refl),
            e,
          ))
    ]

pub record Finalized (job_id payload : String) (now : ℕ) (db db' : Database) (r : ProcessingJobRow)
    : Type 0 where
  pub ended :
      find job_key job_id db'.jobs
      ≡ some (record r {
        status = completed;
        stage = "completed";
        error_code = none;
        error_detail = none;
        completed_at = some now;
        lease_owner = none;
        claimed_at = none;
        lease_expires_at = none;
        updated_at = now;
      })
  pub stored :
      Option.map (λ (p : PipelineResultRow). p.payload) (find result_key r.recording_id db'.results)
      ≡ some payload
  pub others :
      (j : String) → str_eq job_id j ≡ false → find job_key j db'.jobs ≡ find job_key j db.jobs
  pub recordings_kept : db'.recordings ≡ db.recordings

finalized :
    String → String → List ProcessingTraceEventRow → ℕ → Database → ProcessingJobRow → Database
finalized job_id payload events now db r = record db {
  results = store_result r.recording_id payload now db.results;
  traces = persist_trace_events events db.traces;
  jobs = modify job_key job_id (finished_row now) db.jobs;
}

finalized-Finalized :
    (job_id payload : String) (events : List ProcessingTraceEventRow) (now : ℕ) (db : Database)
    (r : ProcessingJobRow)
    → find job_key job_id db.jobs ≡ some r
    → Finalized job_id payload now db (finalized job_id payload events now db r) r
unfolding finalized finished_row completed_row release_lease
finalized-Finalized job_id payload events now db r e = record {
  ended =
      find-modify_self job_key job_id (finished_row now) db.jobs (λ x. refl)
      ∙ ap (Option.map (finished_row now)) e;
  stored = payload-store_result r.recording_id payload now db.results;
  others = λ j ne. find-modify_ne job_key job_id j (finished_row now) db.jobs (λ x. refl) ne;
  recordings_kept = refl;
}

-- A completion of a stored job that has not failed, by its owner or by an administrator, succeeds: the
-- job has the status and the stage "completed", the time of its completion, no error and no lease, the
-- result of its recording is the payload, whether or not one was stored before, and the other columns of
-- the job, the other jobs and the recordings are untouched.
pub finalize_recording_job-Finalized :
    (job_id payload : String) (events : List ProcessingTraceEventRow) (owner : Option String)
    (now : ℕ) (db : Database) (r : ProcessingJobRow)
    → find job_key job_id db.jobs ≡ some r
    → is_failed r.status ≡ false
    → may_write owner r ≡ true
    → (db' : Database) × (finalize_recording_job job_id payload events owner now db ≡ ok db')
      × Finalized job_id payload now db db' r
unfolding finalize_recording_job finalized
finalize_recording_job-Finalized job_id payload events owner now db r e f m = (
  finalized job_id payload events now db r,
  rw (e, f, m),
  finalized-Finalized job_id payload events now db r e,
)
