-- ===== src/Recordings/Invariant.antt =====
-- What holds of every job row between the transactions of the workers.
use mura_project.Prelude.{
  inl, inr, ℕ, ◌≡◌, String, true, false, ◌||◌, none, some, List, [], ◌∷◌, arith, str_eq, Bool-cases,
  holds_text, is_some, All, Memᴰ,
}
use mura_project.Prelude.Table.{find, HasUniqueKeys, All-modify}
use mura_project.Recordings.Rows.{ProcessingJobRow, Database, job_key, is_terminal, is_queued}
use mura_project.Recordings.Queue.{is_eligible, claimed, renewed, deferred, failed_row}
use mura_project.Recordings.Completion.{finished_row}
use mura_project.Recordings.Workers.{
  Action, claim, renew, stage, preview, finalize, defer, fail, fail_bare, step, run, target, effect,
}
use mura_project.Recordings.Effects.{JobsAfter, same, took, wrote, step-JobsAfter}
use mura_project.Recordings.Leases.{after-HasUniqueKeys, after-keeps}

-- A row has an owner exactly when it has an expiry, and no owner while it waits or is finished.
pub record IsSound (r : ProcessingJobRow) : Type 0 where
  pub leased : is_some r.lease_owner ≡ is_some r.lease_expires_at
  pub idle : (is_queued r.status || is_terminal r.status) ≡ true → r.lease_owner ≡ none

-- A worker reports only the stages of a running job: `report_stage` of orchestration/recordings.py
-- names transcribing, cleaning, extracting and resolving.
abbrev pub IsReport : Action → Type 0
IsReport (stage job_id status name now) = (is_queued status || is_terminal status) ≡ false
IsReport _ = Unit

claimed-IsSound :
    (w : String) (lease now : ℕ) (r : ProcessingJobRow) → IsSound (claimed w lease now r)
unfolding claimed
claimed-IsSound w lease now r = ground arith

effect-IsSound :
    (w : String) (a : Action) (r : ProcessingJobRow)
    → IsReport a
    → holds_text r.lease_owner w ≡ true
    → IsSound r
    → IsSound (effect a r)
unfolding renewed finished_row deferred failed_row
effect-IsSound w (claim locked lease now) r g h s = s
effect-IsSound w (renew job_id lease now) r g h s = ground arith
effect-IsSound w (stage job_id status name now) r g h s = ground arith
effect-IsSound w (preview job_id text now) r g h s = s
effect-IsSound w (finalize job_id payload events now) r g h s = ground arith
effect-IsSound w (defer job_id code detail retry_after events now) r g h s = ground arith
effect-IsSound w (fail job_id code detail events now) r g h s = ground arith
effect-IsSound w (fail_bare job_id code detail now) r g h s = ground arith

after-IsSound :
    (w : String) (a : Action) (db : Database) (jobs : List ProcessingJobRow)
    → JobsAfter w a db jobs
    → IsReport a
    → All IsSound db.jobs
    → All IsSound jobs
after-IsSound w a db jobs (same e) g s = rw e s
after-IsSound w a db jobs (took r locked lease now _ m el e) g s = rw e (
    All-modify job_key IsSound r.job_id (claimed w lease now) db.jobs
      (λ x at px. claimed-IsSound w lease now x) s)
after-IsSound w a db jobs (wrote r f h e) g s = rw e (
    All-modify job_key IsSound (target a) (effect a) db.jobs
      (λ x at px. let one : r ≡ x = cc in effect-IsSound w a x g (rw (← one) h) px) s)

abbrev pub AreReports : List (String × Action) → Type 0
AreReports = All (λ e. IsReport e.1)

-- From sound rows, every schedule of workers that report only running stages leads to sound rows.
pub run-IsSound :
    (schedule : List (String × Action)) (db : Database)
    → AreReports schedule
    → All IsSound db.jobs
    → All IsSound (run schedule db).jobs
unfolding run
run-IsSound [] db g s = s
run-IsSound ((w, a) ∷ rest) db g s =
    run-IsSound rest (step w a db) g.1 (after-IsSound w a db _ (step-JobsAfter w a db) g.0 s)

find-mem :
    (k : String) (rows : List ProcessingJobRow) {r : ProcessingJobRow}
    → find job_key k rows ≡ some r
    → Memᴰ r rows
unfolding find
find-mem k [] h = absurd (cc)
find-mem k (x ∷ xs) h = elim (Bool-cases (str_eq x.job_id k)) [
  | inl e ↦ Memᴰ.head (ground arith)
  | inr e ↦ Memᴰ.tail (find-mem k xs (ground arith))
]

terminal_unowned :
    (r : ProcessingJobRow) (w : String)
    → IsSound r
    → is_terminal r.status ≡ true
    → holds_text r.lease_owner w ≡ false
terminal_unowned r w s t = rw (s.idle (ground arith))

terminal-ineligible :
    (r : ProcessingJobRow) (now : ℕ) → is_terminal r.status ≡ true → is_eligible now r ≡ false
unfolding is_eligible
terminal-ineligible r now t = ground arith

-- A finished job is finished for good: in a sound table no schedule of the workers changes any column
-- of a completed or failed row.
pub run-keeps-terminal :
    (schedule : List (String × Action)) (db : Database) (r : ProcessingJobRow)
    → HasUniqueKeys job_key db.jobs
    → find job_key r.job_id db.jobs ≡ some r
    → IsSound r
    → is_terminal r.status ≡ true
    → find job_key r.job_id (run schedule db).jobs ≡ some r
unfolding run
run-keeps-terminal [] db r u here s t = here
run-keeps-terminal ((w, a) ∷ rest) db r u here s t =
    let after : JobsAfter w a db (step w a db).jobs = step-JobsAfter w a db in
    run-keeps-terminal rest (step w a db) r (after-HasUniqueKeys w a db _ after u)
      (after-keeps w a db _ r after u here (terminal_unowned r w s t) (terminal-ineligible r _ t)) s
      t
