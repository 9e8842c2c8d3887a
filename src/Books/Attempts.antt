-- ===== src/Books/Attempts.antt =====
-- The budget of attempts of a book job (storage/book.py).
use mura_project.Prelude.{
  ℕ, ◌≤◌, ◌≡◌, refl, sym, ◌∙◌, String, Bool, true, false, some, List, [], ◌∷◌, arith, is_some,
  holds_text, All, inl, inr, str_eq, eq_iff, Bool-cases,
}
use mathlib.Core.Bool.{false≢true}
use mura_project.Prelude.Table.{
  find, HasUniqueKeys, HasUniqueKeys-modify, All-modify, find_of_Mem, find-modify_ne,
}
use mura_project.Books.Rows.{BookJobStatus, BookJobRow, Database, job_key}
use mura_project.Books.Jobs.{
  is_eligible, is_free, claimed, renewed, deferred, failed_row, completed_row, cancelled_row,
}
use mura_project.Books.Repository.{finished_job, stopped_job}
use mura_project.Books.Workers.{
  Action, claim, renew, stage, defers, fails, completes, cancels, completes_book, cancels_book,
  target, effect, step, run,
}
use mura_project.Books.Effects.{JobsAfter, same, took, wrote, step-JobsAfter, effect-job_id}

abbrev pub is_running : BookJobStatus → Bool
is_running BookJobStatus.running = true
is_running _ = false

-- A job is within its budget of attempts, and has an owner and an expiry exactly while it runs.
pub record IsBudgeted (r : BookJobRow) : Type 0 where
  pub within : r.attempts ≤ r.max_attempts
  pub owned : is_some r.lease_owner ≡ is_running r.status
  pub leased : is_some r.lease_expires_at ≡ is_running r.status

claimed-IsBudgeted :
    (w : String) (locked : String → Bool) (lease now : ℕ) (r : BookJobRow)
    → is_free locked now r ≡ true
    → IsBudgeted r
    → IsBudgeted (claimed w lease now r)
unfolding claimed is_eligible
claimed-IsBudgeted w locked lease now r f s = ground arith

effect-IsBudgeted :
    (w : String) (a : Action) (r : BookJobRow)
    → holds_text r.lease_owner w ≡ true
    → IsBudgeted r
    → IsBudgeted (effect a r)
unfolding renewed deferred failed_row completed_row cancelled_row finished_job stopped_job
effect-IsBudgeted w (claim locked lease now) r h s = s
effect-IsBudgeted w (renew job_id lease now) r h s = ground arith
effect-IsBudgeted w (stage job_id name now) r h s = ground arith
effect-IsBudgeted w (defers job_id code detail after at name now) r h s = ground arith
effect-IsBudgeted w (fails job_id code detail now) r h s = ground arith
effect-IsBudgeted w (completes job_id now) r h s = ground arith
effect-IsBudgeted w (cancels job_id now) r h s = ground arith
effect-IsBudgeted w (completes_book job_id book_id words now) r h s = ground arith
effect-IsBudgeted w (cancels_book job_id book_id now) r h s = ground arith

claimed-job_id :
    (owner : String) (lease now : ℕ) (r : BookJobRow)
    → job_key (claimed owner lease now r) ≡ job_key r
unfolding claimed
claimed-job_id owner lease now r = refl

pub after-HasUniqueKeys :
    (w : String) (a : Action) (db : Database) (jobs : List BookJobRow)
    → JobsAfter w a db jobs
    → HasUniqueKeys job_key db.jobs
    → HasUniqueKeys job_key jobs
after-HasUniqueKeys w a db jobs (same e) u = rw e u
after-HasUniqueKeys w a db jobs (took r locked lease now _ m f e) u = rw e (
    HasUniqueKeys-modify job_key r.job_id (claimed w lease now) db.jobs (claimed-job_id w lease now)
      u)
after-HasUniqueKeys w a db jobs (wrote r f h e) u =
    rw e (HasUniqueKeys-modify job_key (target a) (effect a) db.jobs (effect-job_id a) u)

after-IsBudgeted :
    (w : String) (a : Action) (db : Database) (jobs : List BookJobRow)
    → JobsAfter w a db jobs
    → HasUniqueKeys job_key db.jobs
    → All IsBudgeted db.jobs
    → All IsBudgeted jobs
after-IsBudgeted w a db jobs (same e) u s = rw e s
after-IsBudgeted w a db jobs (took r locked lease now _ m f e) u s = rw e (
    All-modify job_key IsBudgeted r.job_id (claimed w lease now) db.jobs
      (λ x at p.
        let here : find job_key r.job_id db.jobs ≡ some r = find_of_Mem job_key db.jobs u m in
        let one : r ≡ x = cc in claimed-IsBudgeted w locked lease now x (rw (← one) f) p)
      s)
after-IsBudgeted w a db jobs (wrote r f h e) u s = rw e (
    All-modify job_key IsBudgeted (target a) (effect a) db.jobs
      (λ x at p. let one : r ≡ x = cc in effect-IsBudgeted w a x (rw (← one) h) p) s)

-- Over every schedule of claims, renewals and guarded writes by any workers, no book job has more
-- attempts than its limit, and a job has an owner and an expiry exactly while it runs.
pub run-IsBudgeted :
    (schedule : List (String × Action)) (db : Database)
    → HasUniqueKeys job_key db.jobs
    → All IsBudgeted db.jobs
    → All IsBudgeted (run schedule db).jobs
unfolding run
run-IsBudgeted [] db u s = s
run-IsBudgeted ((w, a) ∷ rest) db u s =
    let after : JobsAfter w a db (step w a db).jobs = step-JobsAfter w a db u in
    run-IsBudgeted rest (step w a db) (after-HasUniqueKeys w a db _ after u)
      (after-IsBudgeted w a db _ after u s)

-- A job that no claim may take keeps its place under whoever does not own it.
after-keeps :
    (w : String) (a : Action) (db : Database) (jobs : List BookJobRow) (r : BookJobRow)
    → JobsAfter w a db jobs
    → HasUniqueKeys job_key db.jobs
    → find job_key r.job_id db.jobs ≡ some r
    → holds_text r.lease_owner w ≡ false
    → ((moment : ℕ) → is_eligible moment r ≡ false)
    → find job_key r.job_id jobs ≡ some r
after-keeps w a db jobs r (same e) u here other never = rw e here
after-keeps w a db jobs r (took s locked lease now _ m f e) u here other never =
    elim (Bool-cases (str_eq s.job_id r.job_id)) [
      | inl k ↦
          let there : find job_key s.job_id db.jobs ≡ some s = find_of_Mem job_key db.jobs u m in
          let equal : s.job_id ≡ r.job_id = (eq_iff s.job_id r.job_id).0 k in
          let one : s ≡ r = cc in
          let free : is_free locked now r ≡ true = rw (← one) f in
          absurd (ground (arith, never now))
      | inr k ↦ rw e (
          find-modify_ne job_key s.job_id r.job_id (claimed w lease now) db.jobs
            (claimed-job_id w lease now) k
          ∙ here)
    ]
after-keeps w a db jobs r (wrote s f h e) u here other never =
    elim (Bool-cases (str_eq (target a) r.job_id)) [
      | inl k ↦
          let equal : target a ≡ r.job_id = (eq_iff (target a) r.job_id).0 k in
          let one : s ≡ r = cc in absurd (false≢true (sym other ∙ (rw (← one) h)))
      | inr k ↦
          rw e (
            find-modify_ne job_key (target a) r.job_id (effect a) db.jobs (effect-job_id a) k
            ∙ here)
    ]

exhausted-eligible :
    (r : BookJobRow) (moment : ℕ) → r.attempts ≡ r.max_attempts → is_eligible moment r ≡ false
unfolding is_eligible
exhausted-eligible r moment e = ground arith

-- If a job is leased on its last attempt and its owner acts no more, then whatever the other workers do,
-- and however much time passes, the row of the job stays exactly as it is: nobody can take it over.
pub run-strands :
    (schedule : List (String × Action)) (db : Database) (r : BookJobRow) (owner : String)
    → HasUniqueKeys job_key db.jobs
    → find job_key r.job_id db.jobs ≡ some r
    → r.lease_owner ≡ some owner
    → r.attempts ≡ r.max_attempts
    → All (λ (by : String × Action). str_eq owner by.0 ≡ false) schedule
    → find job_key r.job_id (run schedule db).jobs ≡ some r
unfolding run
run-strands [] db r owner u here o last h = here
run-strands ((w, a) ∷ rest) db r owner u here o last h =
    let after : JobsAfter w a db (step w a db).jobs = step-JobsAfter w a db u in
    run-strands rest (step w a db) r owner (after-HasUniqueKeys w a db _ after u)
      (after-keeps w a db _ r after u here (rw o h.0) (λ moment. exhausted-eligible r moment last))
      o last h.1
