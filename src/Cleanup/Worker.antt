-- ===== src/Cleanup/Worker.antt =====
-- `StorageCleanupWorker` of orchestration/cleanup.py: one round of the worker. Its settings, the stores and what they
-- raise, and how the errors of the repository read as exceptions, are a record.
use mura_project.Prelude.{
  ℕ, ◌+◌, String, Bool, true, false, ◌&&◌, ◌||◌, not, Option, none, some, List, if◌then◌else◌, ltb,
  str_eq, Result, ok, err, Error,
}
use mura_project.Reliability.Failures.{
  PyException, Python, ClassifiedFailure, is_retry, classify_failure,
}
use mura_project.Reliability.Backoff.{calculate_retry_delay}
use mura_project.Cleanup.Rows.{StorageCleanupJobRow}
use mura_project.Cleanup.Queue.{claim_next_job, complete, defer, fail}

-- A `StorageDeleteError` that the worker raises itself
abbrev pub storage_delete_error : String → String → PyException
storage_delete_error error_code message = record {
  text = message;
  type_name = "StorageDeleteError";
  storage_delete =
      some (record { code = error_code; retryable = false; retry_after_seconds = none });
  is_lease_lost = false;
  is_snapshot_closure = false;
  is_timeout_or_connection = false;
  response = none;
  cause = none;
}

pub record StorageCleanupWorker : Type 0 where
  pub worker_id : String
  pub lease_seconds : ℕ
  pub retry_base_seconds : ℕ
  pub retry_max_seconds : ℕ
  -- `(kind, backend) in storage_targets`
  pub has_target : String → String → Bool
  -- what the deletion of the object raises, if anything
  pub erase : StorageCleanupJobRow → Option PyException
  pub python : Python
  pub jitter : ℕ → ℕ
  pub raised : Error → PyException

module _ (w : StorageCleanupWorker) where
  -- `_delete`, with `_storage_for`: what it raises, if anything
  unfoldable pub delete_object : StorageCleanupJobRow → Option PyException
  delete_object job =
      if not (w.has_target job.storage_kind job.storage_backend)
      then some (
          storage_delete_error "storage_backend_unconfigured"
            "storage backend required by cleanup job is not configured")
      else if str_eq job.storage_kind "book_artifact" || str_eq job.storage_kind "audio"
      then w.erase job
      else some (storage_delete_error "storage_kind_invalid" "cleanup job storage kind is invalid")

  abbrev pub safe_detail : String
  safe_detail = "storage cleanup failed; inspect privacy-safe error metadata"

  abbrev pub is_deferred : StorageCleanupJobRow → ClassifiedFailure → Bool
  is_deferred job c = is_retry c.disposition && ltb job.attempts job.max_attempts

  abbrev pub delay_of : StorageCleanupJobRow → ClassifiedFailure → ℕ
  delay_of job c =
      calculate_retry_delay w.jitter true w.retry_base_seconds w.retry_max_seconds
        c.retry_after_seconds job.attempts

  -- `except Exception as exc`
  unfoldable pub recover :
      StorageCleanupJobRow
      → ℕ
      → PyException
      → List StorageCleanupJobRow
      → Result (List StorageCleanupJobRow)
  recover job now exc rows =
      let c = classify_failure w.python exc in
      if is_deferred job c
      then defer job.cleanup_job_id (now + delay_of job c) c.error_code safe_detail
          (some w.worker_id) now rows
      else fail job.cleanup_job_id c.error_code safe_detail (some w.worker_id) now rows

  -- After the deletion: a lost lease is raised again, every other error is recovered from.
  abbrev pub or_recover :
      StorageCleanupJobRow
      → ℕ
      → List StorageCleanupJobRow
      → Result (List StorageCleanupJobRow)
      → Result (List StorageCleanupJobRow)
  or_recover job now rows (ok after) = ok after
  or_recover job now rows (err Error.lease_ownership_lost) = err Error.lease_ownership_lost
  or_recover job now rows (err e) = recover job now (w.raised e) rows

  abbrev pub process_after :
      StorageCleanupJobRow
      → ℕ
      → List StorageCleanupJobRow
      → Option PyException
      → Result (List StorageCleanupJobRow)
  process_after job now rows (some exc) =
      let recovered = recover job now exc rows in
      if exc.is_lease_lost then err Error.lease_ownership_lost else recovered
  process_after job now rows none =
      or_recover job now rows (complete job.cleanup_job_id (some w.worker_id) now rows)

  -- `_process_job`, from the table as it is when the deletion has ended
  unfoldable pub process_job :
      StorageCleanupJobRow → ℕ → List StorageCleanupJobRow → Result (List StorageCleanupJobRow)
  unfolding delete_object recover
  process_job job now rows = process_after job now rows (delete_object job)

  -- The table after the processing: a lost lease is only logged, and any other error leaves `process_once`; in both
  -- cases nothing is written.
  abbrev pub process_claimed :
      ℕ
      → (List StorageCleanupJobRow → List StorageCleanupJobRow)
      → List StorageCleanupJobRow
      → Option StorageCleanupJobRow
      → List StorageCleanupJobRow × Result Bool
  process_claimed now meanwhile rows none = (rows, ok false)
  process_claimed now meanwhile rows (some job) = elim (process_job job now (meanwhile rows)) [
    | ok after ↦ (after, ok true)
    | err e ↦ (meanwhile rows, elim e [ Error.lease_ownership_lost ↦ ok true | other ↦ err other ])
  ]

  -- `process_once`: the claim at one instant and the end at another; in between, the heartbeat and the other
  -- workers change the table.
  unfoldable pub process_once :
      (String → Bool)
      → ℕ
      → ℕ
      → (List StorageCleanupJobRow → List StorageCleanupJobRow)
      → List StorageCleanupJobRow
      → List StorageCleanupJobRow × Result Bool
  unfolding process_job
  process_once locked moment now meanwhile rows =
      let claim = claim_next_job locked w.worker_id w.lease_seconds moment rows in
      process_claimed now meanwhile claim.0 claim.1
