-- ===== src/Recordings/Attempts.antt =====
-- `attempts` counts claims.
use mathlib.Core.Option
use mathlib.Core.Bool.{false≢true}
use mura_project.Prelude.{
  inl, inr, ℕ, ◌+◌, ◌≡◌, refl, sym, ap, ◌∙◌, String, Bool, true, false, Option, none, some, List,
  [], ◌∷◌, arith, str_eq, eq_iff, if◌then◌else◌, Bool-cases,
}
use mura_project.Prelude.Table.{find, find-modify_self, find-modify_ne}
use mura_project.Recordings.Rows.{ProcessingJobRow, Database, job_key}
use mura_project.Recordings.Queue.{
  claimed, claim_next_job, claim_selected, next_job, renewed, deferred, failed_row,
}
use mura_project.Recordings.Completion.{finished_row}
use mura_project.Recordings.Workers.{
  Action, claim, renew, stage, preview, finalize, defer, fail, fail_bare, step, run, target, effect,
}
use mura_project.Recordings.Effects.{JobsAfter, same, took, wrote, step-JobsAfter, effect-job_id}

abbrev is_job : String → Option ProcessingJobRow → ℕ
is_job j none = 0
is_job j (some r) = if str_eq r.job_id j then 1 else 0

-- 1 if the action is a claim that returned the job `j`, else 0.
abbrev pub claims_by : String → Action → String → Database → ℕ
claims_by w (claim locked lease now) j db = is_job j (claim_next_job locked w lease now db).1
claims_by w _ j db = 0

-- How often the workers of a schedule were given the job `j`.
unfoldable pub claims_in : List (String × Action) → String → Database → ℕ
claims_in [] j db = 0
claims_in ((w, a) ∷ rest) j db = claims_by w a j db + claims_in rest j (step w a db)

abbrev is_claim : Action → Bool
is_claim (claim locked lease now) = true
is_claim _ = false

effect-attempts : (a : Action) (r : ProcessingJobRow) → (effect a r).attempts ≡ r.attempts
unfolding renewed finished_row deferred failed_row
effect-attempts (claim _ _ _) r = refl
effect-attempts _ r = refl

-- The stored row of `j` after an action, with its count.
abbrev Counted : String → ℕ → ProcessingJobRow → List ProcessingJobRow → Type 0
Counted j n r jobs =
    (s : ProcessingJobRow) × (find job_key j jobs ≡ some s) × (s.attempts ≡ r.attempts + n)

module _ (w j : String) (db : Database) (r : ProcessingJobRow)
    (here : find job_key j db.jobs ≡ some r) where
  Counted-of_write :
      (a : Action) (jobs : List ProcessingJobRow)
      → is_claim a ≡ false
      → JobsAfter w a db jobs
      → Counted j 0 r jobs
  Counted-of_write a jobs c (same e) = (r, rw e here, omega arith)
  Counted-of_write a jobs c (took s locked lease now e m el p) =
      absurd (false≢true (sym c ∙ ap is_claim e))
  Counted-of_write a jobs c (wrote s f h e) = elim (Bool-cases (str_eq (target a) j)) [
    | inl k ↦
        let equal : target a ≡ j = (eq_iff (target a) j).0 k in
        (
          effect a r,
          rw (e, equal)
              (find-modify_self job_key j (effect a) db.jobs (effect-job_id a)
                ∙ ap (Option.map (effect a)) here),
          omega (arith, effect-attempts a r),
        )
    | inr k ↦ (
      r,
      rw e (find-modify_ne job_key (target a) j (effect a) db.jobs (effect-job_id a) k ∙ here),
      omega arith,
    )
  ]

  Counted-of_claim :
      (lease now : ℕ) (o : Option ProcessingJobRow)
      → Counted j
          (is_job j (claim_selected w lease now db o).1)
          r
          (claim_selected w lease now db o).0.jobs
  unfolding claimed
  Counted-of_claim lease now none = (r, here, omega arith)
  Counted-of_claim lease now (some s) = elim (Bool-cases (str_eq s.job_id j)) [
    | inl k ↦
        let equal : s.job_id ≡ j = (eq_iff s.job_id j).0 k in
        (
          claimed w lease now r,
          rw equal (
              find-modify_self job_key j (claimed w lease now) db.jobs (λ x. refl)
              ∙ ap (Option.map (claimed w lease now)) here),
          rw k refl,
        )
    | inr k ↦ (
      r,
      find-modify_ne job_key s.job_id j (claimed w lease now) db.jobs (λ x. refl) k ∙ here,
      rw k (omega arith),
    )
  ]

  step-Counted : (a : Action) → Counted j (claims_by w a j db) r (step w a db).jobs
  unfolding step claim_next_job
  step-Counted (claim locked lease now) = Counted-of_claim lease now (next_job locked now db.jobs)
  step-Counted (renew job_id lease now) =
      Counted-of_write (renew job_id lease now) _ refl (step-JobsAfter w _ db)
  step-Counted (stage job_id status name now) =
      Counted-of_write (stage job_id status name now) _ refl (step-JobsAfter w _ db)
  step-Counted (preview job_id text now) =
      Counted-of_write (preview job_id text now) _ refl (step-JobsAfter w _ db)
  step-Counted (finalize job_id payload events now) =
      Counted-of_write (finalize job_id payload events now) _ refl (step-JobsAfter w _ db)
  step-Counted (defer job_id code detail retry_after events now) =
      Counted-of_write (defer job_id code detail retry_after events now) _ refl
        (step-JobsAfter w _ db)
  step-Counted (fail job_id code detail events now) =
      Counted-of_write (fail job_id code detail events now) _ refl (step-JobsAfter w _ db)
  step-Counted (fail_bare job_id code detail now) =
      Counted-of_write (fail_bare job_id code detail now) _ refl (step-JobsAfter w _ db)

-- Over any schedule the attempts of a stored job grow by the number of claims that returned it, and
-- by nothing else.
pub run-attempts :
    (schedule : List (String × Action)) (j : String) (db : Database) (r : ProcessingJobRow)
    → find job_key j db.jobs ≡ some r
    → (s : ProcessingJobRow) × (find job_key j (run schedule db).jobs ≡ some s)
      × (s.attempts ≡ r.attempts + claims_in schedule j db)
unfolding run claims_in
run-attempts [] j db r here = (r, here, omega arith)
run-attempts ((w, a) ∷ rest) j db r here =
    let (t, stored, one) = step-Counted w j db r here a in
    let (s, last, sum) = run-attempts rest j (step w a db) t stored in (s, last, omega arith)
