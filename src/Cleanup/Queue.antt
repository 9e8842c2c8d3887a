-- ===== src/Cleanup/Queue.antt =====
-- `StorageCleanupRepository` of storage/cleanup.py: claims, leases and the ends of a cleanup job.
use mura_project.Prelude.{
  ℕ, ◌+◌, String, Bool, true, false, ◌&&◌, ◌||◌, not, Option, none, some, List, leb, ltb, is_none,
  holds_text, if◌then◌else◌, Result, ok, lookup_error, lease_ownership_lost, ◌>>=◌, or_raise, guard,
  ◌>>◌,
}
use mura_project.Prelude.Table.{find, modify}
use mura_project.Prelude.Claim.{take_first}
use mura_project.Cleanup.Rows.{
  queued, running, completed, failed, is_queued, is_running, StorageCleanupJobRow, cleanup_key,
}

abbrev pub is_past : Option ℕ → ℕ → Bool
is_past none moment = false
is_past (some t) moment = leb t moment

unfoldable pub due_queued : ℕ → StorageCleanupJobRow → Bool
due_queued moment r =
    is_queued r.status
    && (leb r.next_attempt_at moment
        && (is_none r.lease_expires_at || is_past r.lease_expires_at moment))

unfoldable pub expired_running : ℕ → StorageCleanupJobRow → Bool
expired_running moment r = is_running r.status && is_past r.lease_expires_at moment

-- The `WHERE` of the claim. The bound on the attempts holds for queued jobs alone.
unfoldable pub is_eligible : ℕ → StorageCleanupJobRow → Bool
unfolding due_queued expired_running
is_eligible moment r =
    (due_queued moment r && ltb r.attempts r.max_attempts) || expired_running moment r

-- What a claim writes: a reclaimed job is not charged another attempt.
unfoldable pub claimed : String → ℕ → ℕ → StorageCleanupJobRow → StorageCleanupJobRow
claimed owner lease moment job = record job {
  status = running;
  lease_owner = some owner;
  claimed_at = some moment;
  lease_expires_at = some (moment + lease);
  last_heartbeat_at = some moment;
  attempts = if is_running job.status then job.attempts else job.attempts + 1;
  error_code = none;
  error_detail = none;
  updated_at = moment;
}

abbrev pub is_free : (String → Bool) → ℕ → StorageCleanupJobRow → Bool
is_free locked moment r = is_eligible moment r && not (locked r.cleanup_job_id)

unfoldable pub claim_next_job :
    (String → Bool)
    → String
    → ℕ
    → ℕ
    → List StorageCleanupJobRow
    → List StorageCleanupJobRow × Option StorageCleanupJobRow
claim_next_job locked owner lease moment rows =
    take_first cleanup_key (is_free locked moment) (λ r. r.created_at) (claimed owner lease moment)
      rows

abbrev pub renew_found :
    String
    → String
    → ℕ
    → ℕ
    → List StorageCleanupJobRow
    → Option StorageCleanupJobRow
    → List StorageCleanupJobRow × Bool
renew_found job_id owner lease moment rows none = (rows, false)
renew_found job_id owner lease moment rows (some r) =
    if holds_text r.lease_owner owner && is_running r.status
    then (
      modify cleanup_key job_id
          (λ r. record r {
            lease_expires_at = some (moment + lease);
            last_heartbeat_at = some moment;
            updated_at = moment;
          })
          rows,
      true,
    )
    else (rows, false)

unfoldable pub renew_lease :
    String → String → ℕ → ℕ → List StorageCleanupJobRow → List StorageCleanupJobRow × Bool
renew_lease job_id owner lease moment rows =
    renew_found job_id owner lease moment rows (find cleanup_key job_id rows)

abbrev pub may_write : Option String → StorageCleanupJobRow → Bool
may_write none job = true
may_write (some owner) job = holds_text job.lease_owner owner

unfoldable pub owned_job :
    List StorageCleanupJobRow → String → Option String → Result StorageCleanupJobRow
owned_job rows job_id lease_owner = do
  job ← or_raise (find cleanup_key job_id rows) lookup_error
  guard (may_write lease_owner job) lease_ownership_lost
  ok job

-- `_release_lease`
unfoldable pub release_lease : StorageCleanupJobRow → StorageCleanupJobRow
release_lease job = record job {
  lease_owner = none;
  claimed_at = none;
  lease_expires_at = none;
  last_heartbeat_at = none;
}

unfoldable pub completed_row : ℕ → StorageCleanupJobRow → StorageCleanupJobRow
unfolding release_lease
completed_row now r = release_lease (record r {
  status = completed;
  error_code = none;
  error_detail = none;
  completed_at = some now;
  updated_at = now;
})

unfoldable pub complete :
    String → Option String → ℕ → List StorageCleanupJobRow → Result (List StorageCleanupJobRow)
unfolding owned_job
complete job_id lease_owner now rows = do
  owned_job rows job_id lease_owner
  ok (modify cleanup_key job_id (completed_row now) rows)

unfoldable pub deferred : ℕ → String → String → ℕ → StorageCleanupJobRow → StorageCleanupJobRow
unfolding release_lease
deferred next_attempt_at error_code error_detail now r = release_lease (record r {
  status = queued;
  next_attempt_at = next_attempt_at;
  error_code = some error_code;
  error_detail = some error_detail;
  updated_at = now;
})

unfoldable pub defer :
    String
    → ℕ
    → String
    → String
    → Option String
    → ℕ
    → List StorageCleanupJobRow
    → Result (List StorageCleanupJobRow)
unfolding owned_job
defer job_id next_attempt_at error_code error_detail lease_owner now rows = do
  owned_job rows job_id lease_owner
  ok (modify cleanup_key job_id (deferred next_attempt_at error_code error_detail now) rows)

unfoldable pub failed_row : String → String → ℕ → StorageCleanupJobRow → StorageCleanupJobRow
unfolding release_lease
failed_row error_code error_detail now r = release_lease (record r {
  status = failed;
  error_code = some error_code;
  error_detail = some error_detail;
  completed_at = some now;
  updated_at = now;
})

unfoldable pub fail :
    String
    → String
    → String
    → Option String
    → ℕ
    → List StorageCleanupJobRow
    → Result (List StorageCleanupJobRow)
unfolding owned_job
fail job_id error_code error_detail lease_owner now rows = do
  owned_job rows job_id lease_owner
  ok (modify cleanup_key job_id (failed_row error_code error_detail now) rows)
