-- ===== src/Recordings/Completion.antt =====
-- storage/completion.py: the terminal and the deferring transaction of a recording job, with the
-- trace of the attempt. The payload is what `attach_runtime_budget(result, trace_events)` dumps to.
use mura_project.Prelude.{
  ℕ, String, not, Option, List, [], ◌∷◌, is_some, if◌then◌else◌, Result, ok, job_finalization_error,
  lease_ownership_lost, ◌>>=◌, ◌>>◌, or_raise, guard,
}
use mura_project.Prelude.Table.{find, modify}
use mura_project.Recordings.Rows.{
  ProcessingJobRow, ProcessingTraceEventRow, Database, is_failed, job_key, event_key,
}
use mura_project.Recordings.Queue.{
  release_lease, may_write, store_result, completed_row, deferred, failed_row,
}

-- observability.py: an event that is stored already is skipped.
unfoldable pub persist_trace_events :
    List ProcessingTraceEventRow → List ProcessingTraceEventRow → List ProcessingTraceEventRow
persist_trace_events [] stored = stored
persist_trace_events (e ∷ es) stored =
    persist_trace_events es
      (if is_some (find event_key e.event_id stored) then stored else e ∷ stored)

unfoldable pub finished_row : ℕ → ProcessingJobRow → ProcessingJobRow
unfolding completed_row release_lease
finished_row now r = release_lease (completed_row now r)

unfoldable pub finalize_recording_job :
    String → String → List ProcessingTraceEventRow → Option String → ℕ → Database → Result Database
finalize_recording_job job_id payload trace_events lease_owner now db = do
  job ← or_raise (find job_key job_id db.jobs) job_finalization_error
  guard (not (is_failed job.status)) job_finalization_error
  guard (may_write lease_owner job) lease_ownership_lost
  ok (record db {
    results = store_result job.recording_id payload now db.results;
    traces = persist_trace_events trace_events db.traces;
    jobs = modify job_key job_id (finished_row now) db.jobs;
  })

unfoldable pub defer_recording_job :
    String
    → String
    → String
    → ℕ
    → List ProcessingTraceEventRow
    → Option String
    → ℕ
    → Database
    → Result Database
defer_recording_job job_id error_code error_detail retry_after trace_events lease_owner now db = do
  job ← or_raise (find job_key job_id db.jobs) job_finalization_error
  guard (may_write lease_owner job) lease_ownership_lost
  ok (record db {
    traces = persist_trace_events trace_events db.traces;
    jobs = modify job_key job_id (deferred error_code error_detail retry_after now) db.jobs;
  })

unfoldable pub fail_recording_job :
    String
    → String
    → String
    → List ProcessingTraceEventRow
    → Option String
    → ℕ
    → Database
    → Result Database
fail_recording_job job_id error_code error_detail trace_events lease_owner now db = do
  job ← or_raise (find job_key job_id db.jobs) job_finalization_error
  guard (may_write lease_owner job) lease_ownership_lost
  ok (record db {
    traces = persist_trace_events trace_events db.traces;
    jobs = modify job_key job_id (failed_row error_code error_detail now) db.jobs;
  })
