-- ===== src/Cleanup/Claims.antt =====
-- `claim_next_job` of storage/cleanup.py: what a claim takes and what it charges.
use mura_project.Prelude.{
  ◌||◌, ltb, if◌then◌else◌, ap, ◌∙◌, ℕ, ◌+◌, ◌≡◌, refl, String, Bool, true, some, List, arith,
}
use mura_project.Prelude.Table.{HasUniqueKeys}
use mura_project.Prelude.Claim.{Takes, take_first-Takes}
use mura_project.Cleanup.Rows.{StorageCleanupJobRow, cleanup_key, is_running}
use mura_project.Cleanup.Queue.{claim_next_job, is_free, is_eligible, claimed}

-- The claim of a worker, as a reading of the table.
abbrev pub Took :
    (String → Bool)
    → String
    → ℕ
    → ℕ
    → List StorageCleanupJobRow
    → StorageCleanupJobRow
    → StorageCleanupJobRow
    → Type 0
Took locked owner lease moment =
    Takes cleanup_key (is_free locked moment) (λ r. r.created_at) (claimed owner lease moment)

charged :
    (locked : String → Bool) (owner : String) (lease moment : ℕ) (r : StorageCleanupJobRow)
    → is_free locked moment r ≡ true
    → ((is_running r.status || ltb r.attempts r.max_attempts) ≡ true)
      × ((claimed owner lease moment r).attempts
          ≡ (if is_running r.status then r.attempts else r.attempts + 1))
unfolding claimed is_eligible
charged locked owner lease moment r f = ground arith

-- If a claim returns a job, it is the oldest row that is eligible and not locked, now stamped with the
-- owner and the lease, and the other rows are as they were. A queued job is charged an attempt, which it
-- had left; a job that is taken over from a dead worker is charged none.
pub claim_next_job-Took :
    (locked : String → Bool) (owner : String) (lease moment : ℕ) (rows : List StorageCleanupJobRow)
    {job : StorageCleanupJobRow}
    → HasUniqueKeys cleanup_key rows
    → (claim_next_job locked owner lease moment rows).1 ≡ some job
    → (r : StorageCleanupJobRow) × Took locked owner lease moment rows job r
      × ((is_running r.status || ltb r.attempts r.max_attempts) ≡ true)
      × (job.attempts ≡ (if is_running r.status then r.attempts else r.attempts + 1))
unfolding claim_next_job
claim_next_job-Took locked owner lease moment rows {job} unique h =
    let (r, t) =
      take_first-Takes cleanup_key (is_free locked moment) (λ r. r.created_at)
        (claimed owner lease moment) rows (unfold claimed in λ x. refl) unique h in
    let (some_left, attempts) = charged locked owner lease moment r t.was_free in
    (r, t, some_left, ap (λ (j : StorageCleanupJobRow). j.attempts) t.returned ∙ attempts)
