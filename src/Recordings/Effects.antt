-- ===== src/Recordings/Effects.antt =====
-- What one action of a worker does to the table of jobs: nothing, the row that a claim takes, or
-- the effect of the action on a row that the worker owns.
use mura_project.Prelude.{
  ℕ, ◌≡◌, refl, String, Bool, true, false, ◌&&◌, Option, none, some, List, inl, inr, arith,
  Bool-cases, Option-cases, holds_text, Memᴰ,
}
use mura_project.Prelude.Table.{find, modify, first_by-mem, first_by-holds}
use mura_project.Recordings.Rows.{ProcessingJobRow, Database, job_key, is_failed}
use mura_project.Recordings.Queue.{
  claimed, claim_next_job, claim_selected, next_job, is_eligible, renew_lease, renew_found,
  is_renewable, renewed, owned_job, update_job_stage, save_transcript_preview, fail_job, deferred,
  failed_row,
}
use mura_project.Recordings.Completion.{
  finalize_recording_job, defer_recording_job, fail_recording_job, finished_row,
}
use mura_project.Recordings.Workers.{
  Action, claim, renew, stage, preview, finalize, defer, fail, fail_bare, step, target, effect,
}

pub data JobsAfter (w : String) (a : Action) (db : Database) (jobs : List ProcessingJobRow)
    : Type 0 where
  same : jobs ≡ db.jobs → JobsAfter w a db jobs
  took :
      (r : ProcessingJobRow) (locked : String → Bool) (lease now : ℕ)
      → a ≡ claim locked lease now
      → Memᴰ r db.jobs
      → is_eligible now r ≡ true
      → jobs ≡ modify job_key r.job_id (claimed w lease now) db.jobs
      → JobsAfter w a db jobs
  wrote :
      (r : ProcessingJobRow)
      → find job_key (target a) db.jobs ≡ some r
      → holds_text r.lease_owner w ≡ true
      → jobs ≡ modify job_key (target a) (effect a) db.jobs
      → JobsAfter w a db jobs

pub effect-job_id : (a : Action) (r : ProcessingJobRow) → job_key (effect a r) ≡ job_key r
unfolding renewed finished_row deferred failed_row
effect-job_id (claim _ _ _) r = refl
effect-job_id _ r = refl

data Owned (w job_id : String) (db : Database) : Type 0 where
  missing : find job_key job_id db.jobs ≡ none → Owned w job_id db
  foreign :
      (r : ProcessingJobRow)
      → find job_key job_id db.jobs ≡ some r
      → holds_text r.lease_owner w ≡ false
      → Owned w job_id db
  owner :
      (r : ProcessingJobRow)
      → find job_key job_id db.jobs ≡ some r
      → holds_text r.lease_owner w ≡ true
      → Owned w job_id db

Owned-cases : (w job_id : String) (db : Database) → Owned w job_id db
Owned-cases w job_id db = elim (Option-cases (find job_key job_id db.jobs)) [
  | inl e ↦ missing e
  | inr (r, e) ↦ elim (Bool-cases (holds_text r.lease_owner w)) [
    | inl h ↦ owner r e h
    | inr h ↦ foreign r e h
  ]
]

claim-JobsAfter :
    (w : String) (locked : String → Bool) (lease now : ℕ) (db : Database)
    (o : Option ProcessingJobRow)
    → next_job locked now db.jobs ≡ o
    → JobsAfter w (claim locked lease now) db (claim_selected w lease now db o).0.jobs
unfolding next_job
claim-JobsAfter w locked lease now db none e = same refl
claim-JobsAfter w locked lease now db (some r) e =
    took r locked lease now refl (first_by-mem _ _ db.jobs e)
      (left_of_and _ _ (first_by-holds _ _ db.jobs e)) refl
  where
    left_of_and : (b c : Bool) → (b && c) ≡ true → b ≡ true
    left_of_and b c h = ground arith

renew-JobsAfter :
    (w job_id : String) (lease now : ℕ) (db : Database) (o : Option ProcessingJobRow)
    → find job_key job_id db.jobs ≡ o
    → JobsAfter w (renew job_id lease now) db (renew_found job_id w lease now db o).0.jobs
unfolding is_renewable
renew-JobsAfter w job_id lease now db none e = same refl
renew-JobsAfter w job_id lease now db (some r) e = elim (Bool-cases (is_renewable w r)) [
  | inl h ↦ wrote r e (ground arith) (rw (h, is_renewable))
  | inr h ↦ same (rw (h, is_renewable))
]

pub step-JobsAfter : (w : String) (a : Action) (db : Database) → JobsAfter w a db (step w a db).jobs
unfolding step claim_next_job renew_lease owned_job update_job_stage save_transcript_preview
    fail_job finalize_recording_job defer_recording_job fail_recording_job
step-JobsAfter w (claim locked lease now) db = claim-JobsAfter w locked lease now db _ refl
step-JobsAfter w (renew job_id lease now) db = renew-JobsAfter w job_id lease now db _ refl
step-JobsAfter w (stage job_id status name now) db = elim (Owned-cases w job_id db) [
  | missing e ↦ same (rw e)
  | foreign r e h ↦ same (rw (e, h))
  | owner r e h ↦ wrote r e h (rw (e, h))
]
step-JobsAfter w (preview job_id text now) db = elim (Owned-cases w job_id db) [
  | missing e ↦ same (rw e)
  | foreign r e h ↦ same (rw (e, h))
  | owner r e h ↦ same (rw (e, h))
]
step-JobsAfter w (finalize job_id payload events now) db = elim (Owned-cases w job_id db) [
  | missing e ↦ same (rw e)
  | foreign r e h ↦ same (ground arith)
  | owner r e h ↦ elim (Bool-cases (is_failed r.status)) [
    | inl f ↦ same (rw (e, f))
    | inr f ↦ wrote r e h (rw (e, f, h))
  ]
]
step-JobsAfter w (defer job_id code detail retry_after events now) db =
    elim (Owned-cases w job_id db) [
      | missing e ↦ same (rw e)
      | foreign r e h ↦ same (rw (e, h))
      | owner r e h ↦ wrote r e h (rw (e, h))
    ]
step-JobsAfter w (fail job_id code detail events now) db = elim (Owned-cases w job_id db) [
  | missing e ↦ same (rw e)
  | foreign r e h ↦ same (rw (e, h))
  | owner r e h ↦ wrote r e h (rw (e, h))
]
step-JobsAfter w (fail_bare job_id code detail now) db = elim (Owned-cases w job_id db) [
  | missing e ↦ same (rw e)
  | foreign r e h ↦ same (rw (e, h))
  | owner r e h ↦ wrote r e h (rw (e, h))
]
