-- ===== src/Recordings/Leases.antt =====
-- A lease that has not expired is not taken away: what the schedules of the other workers leave alone.
use mura_project.Prelude.{
  inl, inr, ℕ, ◌<◌, ◌≡◌, refl, sym, ap, ◌∙◌, String, false, some, List, [], ◌∷◌, arith, str_eq,
  eq_iff, Bool-cases, holds_text, All,
}
use mathlib.Core.Bool.{false≢true}
use mura_project.Prelude.Table.{
  find, HasUniqueKeys, HasUniqueKeys-modify, find_of_Mem, find-modify_ne,
}
use mura_project.Recordings.Rows.{ProcessingJobRow, Database, job_key}
use mura_project.Recordings.Queue.{is_eligible, claimed}
use mura_project.Recordings.Workers.{Action, instant, step, run, target, effect}
use mura_project.Recordings.Effects.{JobsAfter, same, took, wrote, step-JobsAfter, effect-job_id}

job_key-claimed :
    (owner : String) (lease now : ℕ) (r : ProcessingJobRow)
    → job_key (claimed owner lease now r) ≡ job_key r
unfolding claimed
job_key-claimed owner lease now r = refl

pub after-HasUniqueKeys :
    (w : String) (a : Action) (db : Database) (jobs : List ProcessingJobRow)
    → JobsAfter w a db jobs
    → HasUniqueKeys job_key db.jobs
    → HasUniqueKeys job_key jobs
after-HasUniqueKeys w a db jobs (same e) u = rw e u
after-HasUniqueKeys w a db jobs (took r locked lease now _ m el e) u = rw e (
    HasUniqueKeys-modify job_key r.job_id (claimed w lease now) db.jobs
      (job_key-claimed w lease now) u)
after-HasUniqueKeys w a db jobs (wrote r f h e) u =
    rw e (HasUniqueKeys-modify job_key (target a) (effect a) db.jobs (effect-job_id a) u)

-- A row that is not eligible when a claim is made and is not the actor's keeps its place.
pub after-keeps :
    (w : String) (a : Action) (db : Database) (jobs : List ProcessingJobRow) (r : ProcessingJobRow)
    → JobsAfter w a db jobs
    → HasUniqueKeys job_key db.jobs
    → find job_key r.job_id db.jobs ≡ some r
    → holds_text r.lease_owner w ≡ false
    → is_eligible (instant a) r ≡ false
    → find job_key r.job_id jobs ≡ some r
after-keeps w a db jobs r (same e) u here other late = rw e here
after-keeps w a db jobs r (took s locked lease now ea m el e) u here other late =
    elim (Bool-cases (str_eq s.job_id r.job_id)) [
      | inl k ↦
          let there : find job_key s.job_id db.jobs ≡ some s = find_of_Mem job_key db.jobs u m in
          let when : instant a ≡ now = ap instant ea in
          let equal : s.job_id ≡ r.job_id = (eq_iff s.job_id r.job_id).0 k in
          let one : s ≡ r = cc in absurd (false≢true (sym late ∙ (rw (when, ← one) el)))
      | inr k ↦ rw e (
          find-modify_ne job_key s.job_id r.job_id (claimed w lease now) db.jobs
            (job_key-claimed w lease now) k
          ∙ here)
    ]
after-keeps w a db jobs r (wrote s f h e) u here other late =
    elim (Bool-cases (str_eq (target a) r.job_id)) [
      | inl k ↦
          let equal : target a ≡ r.job_id = (eq_iff (target a) r.job_id).0 k in
          let one : s ≡ r = cc in absurd (false≢true (sym other ∙ (rw (← one) h)))
      | inr k ↦
          rw e (
            find-modify_ne job_key (target a) r.job_id (effect a) db.jobs (effect-job_id a) k
            ∙ here)
    ]

-- An action by someone else, before the deadline.
abbrev pub IsEarlier : String → ℕ → String × Action → Type 0
IsEarlier owner deadline (w, a) = (str_eq owner w ≡ false) × (instant a < deadline)

leased-eligible :
    (r : ProcessingJobRow) (deadline now : ℕ)
    → r.lease_expires_at ≡ some deadline
    → now < deadline
    → is_eligible now r ≡ false
unfolding is_eligible
leased-eligible r deadline now e h = ground arith

-- While a lease has not expired, no schedule of claims, renewals, stage changes, completions,
-- deferrals and failures by other workers changes the leased row in any column.
pub run-keeps-leased :
    (schedule : List (String × Action)) (db : Database) (r : ProcessingJobRow) (owner : String)
    (deadline : ℕ)
    → HasUniqueKeys job_key db.jobs
    → find job_key r.job_id db.jobs ≡ some r
    → r.lease_owner ≡ some owner
    → r.lease_expires_at ≡ some deadline
    → All (IsEarlier owner deadline) schedule
    → find job_key r.job_id (run schedule db).jobs ≡ some r
unfolding run
run-keeps-leased [] db r owner deadline u here o d h = here
run-keeps-leased ((w, a) ∷ rest) db r owner deadline u here o d h =
    let after : JobsAfter w a db (step w a db).jobs = step-JobsAfter w a db in
    run-keeps-leased rest (step w a db) r owner deadline (after-HasUniqueKeys w a db _ after u)
      (after-keeps w a db _ r after u here (rw o h.0.0)
        (leased-eligible r deadline (instant a) d h.0.1))
      o d h.1
