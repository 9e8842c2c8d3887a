-- ===== src/Cleanup/Workers.antt =====
-- Schedules of cleanup workers, and what holds of every row under them.
use mura_project.Prelude.{
  false, ◌⊎◌, Bool-cases, All-map, Option-cases, leb, inl, inr, ℕ, ◌≤◌, ◌≡◌, refl, String, Bool,
  true, ◌&&◌, Option, none, some, List, [], ◌∷◌, arith, is_some, ◌>>◌, All, Result, ok, err,
  settled, Bool-cases, holds_text,
}
use mura_project.Prelude.Table.{HasUniqueKeys-modify, find, modify, HasUniqueKeys, All-modify}
use mura_project.Prelude.Claim.{take_first-HasUniqueKeys, take_first-All}
use mura_project.Cleanup.Rows.{StorageCleanupJobRow, cleanup_key, is_running}
use mura_project.Cleanup.Queue.{
  claim_next_job, is_free, is_eligible, claimed, renew_lease, renew_found, owned_job, complete,
  completed_row, defer, deferred, fail, failed_row,
}

-- The transactions of orchestration/cleanup.py's worker, which pass the id of the worker.
pub data Action : Type 0 where
  claim : (String → Bool) → ℕ → ℕ → Action
  renew : String → ℕ → ℕ → Action
  completes : String → ℕ → Action
  defers : String → ℕ → String → String → ℕ → Action
  fails : String → String → String → ℕ → Action

unfoldable pub step : String → Action → List StorageCleanupJobRow → List StorageCleanupJobRow
step w (claim locked lease now) rows = (claim_next_job locked w lease now rows).0
step w (renew job_id lease now) rows = (renew_lease job_id w lease now rows).0
step w (completes job_id now) rows = settled rows (complete job_id (some w) now rows)
step w (defers job_id next code detail now) rows =
    settled rows (defer job_id next code detail (some w) now rows)
step w (fails job_id code detail now) rows =
    settled rows (fail job_id code detail (some w) now rows)

unfoldable pub run : List (String × Action) → List StorageCleanupJobRow → List StorageCleanupJobRow
run [] rows = rows
run ((w, a) ∷ rest) rows = run rest (step w a rows)

-- A row is within its budget of attempts, and has an owner and an expiry exactly while it runs.
pub record IsOrderly (r : StorageCleanupJobRow) : Type 0 where
  pub within : r.attempts ≤ r.max_attempts
  pub owned : is_some r.lease_owner ≡ is_running r.status
  pub leased : is_some r.lease_expires_at ≡ is_running r.status

claimed-IsOrderly :
    (locked : String → Bool) (w : String) (lease now : ℕ) (r : StorageCleanupJobRow)
    → IsOrderly r
    → is_free locked now r ≡ true
    → IsOrderly (claimed w lease now r)
unfolding claimed is_eligible
claimed-IsOrderly locked w lease now r s f = ground arith

renew-IsOrderly :
    (job_id w : String) (lease now : ℕ) (rows : List StorageCleanupJobRow)
    (o : Option StorageCleanupJobRow)
    → find cleanup_key job_id rows ≡ o
    → All IsOrderly rows
    → All IsOrderly (renew_found job_id w lease now rows o).0
renew-IsOrderly job_id w lease now rows none e s = s
renew-IsOrderly job_id w lease now rows (some r) e s =
    elim (Bool-cases (holds_text r.lease_owner w && is_running r.status)) [
      | inl h ↦ rw h (
          All-modify cleanup_key IsOrderly job_id _ rows
            (λ x at px. let same : r ≡ x = cc in ground arith) s)
      | inr h ↦ rw h s
    ]

settled-IsOrderly :
    (job_id w : String) (f : StorageCleanupJobRow → StorageCleanupJobRow)
    (rows : List StorageCleanupJobRow)
    → ((r : StorageCleanupJobRow) → IsOrderly r → IsOrderly (f r))
    → All IsOrderly rows
    → All IsOrderly
        (settled rows (owned_job rows job_id (some w) >> ok (modify cleanup_key job_id f rows)))
settled-IsOrderly job_id w f rows keep s = settles (owned_job rows job_id (some w))
  where
    settles :
        (m : Result StorageCleanupJobRow)
        → All IsOrderly (settled rows (m >> ok (modify cleanup_key job_id f rows)))
    settles (ok job) = All-modify cleanup_key IsOrderly job_id f rows (λ x at px. keep x px) s
    settles (err e) = s

pub step-IsOrderly :
    (w : String) (a : Action) (rows : List StorageCleanupJobRow)
    → HasUniqueKeys cleanup_key rows
    → All IsOrderly rows
    → All IsOrderly (step w a rows)
unfolding step claim_next_job renew_lease complete completed_row defer deferred fail failed_row
    claimed
step-IsOrderly w (claim locked lease now) rows u s =
    take_first-All cleanup_key _ _ _ IsOrderly rows
      (λ x px f. claimed-IsOrderly locked w lease now x px f) u s
step-IsOrderly w (renew job_id lease now) rows u s =
    renew-IsOrderly job_id w lease now rows _ refl s
step-IsOrderly w (completes job_id now) rows u s =
    settled-IsOrderly job_id w _ rows (λ r p. ground arith) s
step-IsOrderly w (defers job_id next code detail now) rows u s =
    settled-IsOrderly job_id w _ rows (λ r p. ground arith) s
step-IsOrderly w (fails job_id code detail now) rows u s =
    settled-IsOrderly job_id w _ rows (λ r p. ground arith) s

renew-HasUniqueKeys :
    (job_id w : String) (lease now : ℕ) (rows : List StorageCleanupJobRow)
    (o : Option StorageCleanupJobRow)
    → HasUniqueKeys cleanup_key rows
    → HasUniqueKeys cleanup_key (renew_found job_id w lease now rows o).0
renew-HasUniqueKeys job_id w lease now rows none u = u
renew-HasUniqueKeys job_id w lease now rows (some r) u =
    elim (Bool-cases (holds_text r.lease_owner w && is_running r.status)) [
      | inl h ↦ rw h (HasUniqueKeys-modify cleanup_key job_id _ rows (λ x. refl) u)
      | inr h ↦ rw h u
    ]

settled-HasUniqueKeys :
    (job_id w : String) (f : StorageCleanupJobRow → StorageCleanupJobRow)
    (rows : List StorageCleanupJobRow)
    → ((r : StorageCleanupJobRow) → cleanup_key (f r) ≡ cleanup_key r)
    → HasUniqueKeys cleanup_key rows
    → HasUniqueKeys cleanup_key
        (settled rows (owned_job rows job_id (some w) >> ok (modify cleanup_key job_id f rows)))
settled-HasUniqueKeys job_id w f rows keep u = settles (owned_job rows job_id (some w))
  where
    settles :
        (m : Result StorageCleanupJobRow)
        → HasUniqueKeys cleanup_key (settled rows (m >> ok (modify cleanup_key job_id f rows)))
    settles (ok job) = HasUniqueKeys-modify cleanup_key job_id f rows keep u
    settles (err e) = u

step-HasUniqueKeys :
    (w : String) (a : Action) (rows : List StorageCleanupJobRow)
    → HasUniqueKeys cleanup_key rows
    → HasUniqueKeys cleanup_key (step w a rows)
unfolding step claim_next_job renew_lease complete completed_row defer deferred fail failed_row
    claimed
step-HasUniqueKeys w (claim locked lease now) rows u =
    take_first-HasUniqueKeys cleanup_key _ _ _ rows (λ x. refl) u
step-HasUniqueKeys w (renew job_id lease now) rows u =
    renew-HasUniqueKeys job_id w lease now rows _ u
step-HasUniqueKeys w (completes job_id now) rows u =
    settled-HasUniqueKeys job_id w _ rows (λ r. refl) u
step-HasUniqueKeys w (defers job_id next code detail now) rows u =
    settled-HasUniqueKeys job_id w _ rows (λ r. refl) u
step-HasUniqueKeys w (fails job_id code detail now) rows u =
    settled-HasUniqueKeys job_id w _ rows (λ r. refl) u

-- Over every schedule of cleanup workers no job exceeds its budget of attempts, and a job has an owner
-- and an expiry exactly while it runs.
pub run-IsOrderly :
    (schedule : List (String × Action)) (rows : List StorageCleanupJobRow)
    → HasUniqueKeys cleanup_key rows
    → All IsOrderly rows
    → All IsOrderly (run schedule rows)
unfolding run
run-IsOrderly [] rows u s = s
run-IsOrderly ((w, a) ∷ rest) rows u s =
    run-IsOrderly rest (step w a rows) (step-HasUniqueKeys w a rows u) (step-IsOrderly w a rows u s)

-- The job does not run, or it has an expiry and, whatever it has used of its budget, a claim may take it
-- exactly from that instant on.
abbrev pub IsRecoverable : StorageCleanupJobRow → Type 0
IsRecoverable r =
    (is_running r.status ≡ false)
    ⊎ (t : ℕ) × (r.lease_expires_at ≡ some t) × ((moment : ℕ) → is_eligible moment r ≡ leb t moment)

IsRecoverable-of_orderly : (r : StorageCleanupJobRow) → IsOrderly r → IsRecoverable r
unfolding is_eligible
IsRecoverable-of_orderly r s = elim (Bool-cases (is_running r.status)) [
  | inr idle ↦ inl idle
  | inl running ↦ elim (Option-cases r.lease_expires_at) [
    | inl e ↦ absurd (ground arith)
    | inr (t, e) ↦ inr (t, e, λ moment. ground arith)
  ]
]

-- Over every schedule, a job whose worker has died is recovered: every running job, also one on its last
-- attempt, has an expiry and is eligible exactly from that instant on.
pub run-recovers :
    (schedule : List (String × Action)) (rows : List StorageCleanupJobRow)
    → HasUniqueKeys cleanup_key rows
    → All IsOrderly rows
    → All IsRecoverable (run schedule rows)
run-recovers schedule rows u s =
    All-map IsRecoverable-of_orderly (run schedule rows) (run-IsOrderly schedule rows u s)
