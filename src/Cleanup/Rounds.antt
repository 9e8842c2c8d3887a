-- ===== src/Cleanup/Rounds.antt =====
-- What one round of the worker of orchestration/cleanup.py leaves behind.
use mura_project.Prelude.{
  Result, not, false, true, ◌&&◌, Bool, ℕ, ◌+◌, ◌≡◌, refl, ap, ltb, Option, none, some, List,
  if◌then◌else◌, holds_text, Bool-cases, inl, inr, ok, err, lease_ownership_lost,
}
use mura_project.Prelude.Table.{find, modify}
use mura_project.Reliability.Failures.{PyException, ClassifiedFailure, is_retry, classify_failure}
use mura_project.Reliability.Backoff.{calculate_retry_delay}
use mura_project.Cleanup.Rows.{StorageCleanupJobRow, cleanup_key, queued, completed, failed}
use mura_project.Cleanup.Queue.{
  owned_job, complete, completed_row, release_lease, defer, deferred, fail, failed_row,
}
use mura_project.Cleanup.Worker.{
  StorageCleanupWorker, delete_object, is_deferred, delay_of, safe_detail, recover, process_after,
  process_job,
}

-- Whether the deletion itself raised that the lease is lost
abbrev pub is_lost : Option PyException → Bool
is_lost none = false
is_lost (some exc) = exc.is_lease_lost

unless_lost :
    (lost own : Bool) (result : Result (List StorageCleanupJobRow))
    (after : List StorageCleanupJobRow)
    → result ≡ (if own then ok after else err lease_ownership_lost)
    → (if lost then err lease_ownership_lost else result)
      ≡ (if own && not lost then ok after else err lease_ownership_lost)
unless_lost true true result after h = refl
unless_lost true false result after h = refl
unless_lost false true result after h = h
unless_lost false false result after h = h

module _ (w : StorageCleanupWorker) where
  -- The columns that the round leaves, by what the deletion of the object raised.
  abbrev pub ended :
      StorageCleanupJobRow → ℕ → Option PyException → StorageCleanupJobRow → StorageCleanupJobRow
  ended job now none r = record r {
    status = completed;
    error_code = none;
    error_detail = none;
    completed_at = some now;
    lease_owner = none;
    claimed_at = none;
    lease_expires_at = none;
    last_heartbeat_at = none;
    updated_at = now;
  }
  ended job now (some exc) r =
      let c = classify_failure w.python exc in
      let again = is_retry c.disposition && ltb job.attempts job.max_attempts in
      let delay =
        calculate_retry_delay w.jitter true w.retry_base_seconds w.retry_max_seconds
          c.retry_after_seconds job.attempts in
      record r {
        status = if again then queued else failed;
        next_attempt_at = if again then now + delay else r.next_attempt_at;
        error_code = some c.error_code;
        error_detail = some "storage cleanup failed; inspect privacy-safe error metadata";
        completed_at = if again then r.completed_at else some now;
        lease_owner = none;
        claimed_at = none;
        lease_expires_at = none;
        last_heartbeat_at = none;
        updated_at = now;
      }

  -- The same row for both branches of the failure.
  ended_later :
      (job : StorageCleanupJobRow) (now : ℕ) (exc : PyException)
      → (is_retry (classify_failure w.python exc).disposition && ltb job.attempts job.max_attempts)
        ≡ true
      → (r : StorageCleanupJobRow)
      → deferred
          (now + delay_of w job (classify_failure w.python exc))
          (classify_failure w.python exc).error_code
          (safe_detail w)
          now
          r
        ≡ ended job now (some exc) r
  unfolding deferred release_lease
  ended_later job now exc h r = rw h refl

  ended_over :
      (job : StorageCleanupJobRow) (now : ℕ) (exc : PyException)
      → (is_retry (classify_failure w.python exc).disposition && ltb job.attempts job.max_attempts)
        ≡ false
      → (r : StorageCleanupJobRow)
      → failed_row (classify_failure w.python exc).error_code (safe_detail w) now r
        ≡ ended job now (some exc) r
  unfolding failed_row release_lease
  ended_over job now exc h r = rw h refl

  recover-ended :
      (job r : StorageCleanupJobRow) (now : ℕ) (rows : List StorageCleanupJobRow)
      (exc : PyException)
      → find cleanup_key job.cleanup_job_id rows ≡ some r
      → recover w job now exc rows ≡ (
          if holds_text r.lease_owner w.worker_id
          then ok (modify cleanup_key job.cleanup_job_id (ended job now (some exc)) rows)
          else err lease_ownership_lost)
  unfolding recover defer fail owned_job
  recover-ended job r now rows exc e =
      let c : ClassifiedFailure = classify_failure w.python exc in
      elim (Bool-cases (is_deferred w job c)) [
        | inl later ↦ elim (Bool-cases (holds_text r.lease_owner w.worker_id)) [
          | inl own ↦
              rw (later, e, own)
                (ap (λ g. ok (modify cleanup_key job.cleanup_job_id g rows))
                  (λ i x. ended_later job now exc later x i))
          | inr lost ↦ rw (later, e, lost) refl
        ]
        | inr over ↦ elim (Bool-cases (holds_text r.lease_owner w.worker_id)) [
          | inl own ↦
              rw (over, e, own)
                (ap (λ g. ok (modify cleanup_key job.cleanup_job_id g rows))
                  (λ i x. ended_over job now exc over x i))
          | inr lost ↦ rw (over, e, lost) refl
        ]
      ]

  process_after-ended :
      (job r : StorageCleanupJobRow) (now : ℕ) (rows : List StorageCleanupJobRow)
      (o : Option PyException)
      → find cleanup_key job.cleanup_job_id rows ≡ some r
      → process_after w job now rows o ≡ (
          if holds_text r.lease_owner w.worker_id && not (is_lost o)
          then ok (modify cleanup_key job.cleanup_job_id (ended job now o) rows)
          else err lease_ownership_lost)
  unfolding complete owned_job completed_row release_lease
  process_after-ended job r now rows none e =
      elim (Bool-cases (holds_text r.lease_owner w.worker_id)) [
        | inl own ↦ rw (e, own) refl
        | inr lost ↦ rw (e, lost) refl
      ]
  process_after-ended job r now rows (some exc) e =
      unless_lost exc.is_lease_lost (holds_text r.lease_owner w.worker_id)
        (recover w job now exc rows)
        (modify cleanup_key job.cleanup_job_id (ended job now (some exc)) rows)
        (recover-ended job r now rows exc e)

  -- The processing of a claimed job that is still in the table ends in exactly one way. If the worker has lost the
  -- lease to another, or the deletion says so, nothing is written, whatever happened to the object. Otherwise the
  -- row, and no other, is released. It is completed if the object is erased or was not there. If not, it is queued
  -- again after the delay of the backoff if the failure is one to try again and its attempts are below its limit, and
  -- failed for good when not, in both cases with the code of the failure and the fixed safe detail.
  pub process_job-ended :
      (job r : StorageCleanupJobRow) (now : ℕ) (rows : List StorageCleanupJobRow)
      → find cleanup_key job.cleanup_job_id rows ≡ some r
      → process_job w job now rows ≡ (
          if holds_text r.lease_owner w.worker_id && not (is_lost (delete_object w job))
          then ok (modify cleanup_key job.cleanup_job_id (ended job now (delete_object w job)) rows)
          else err lease_ownership_lost)
  unfolding process_job
  process_job-ended job r now rows e = process_after-ended job r now rows (delete_object w job) e
