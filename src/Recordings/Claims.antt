-- ===== src/Recordings/Claims.antt =====
-- `claim_next_job`: which job a worker gets, and what the claim changes.
use mathlib.Core.Option
use mura_project.Prelude.{
  ℕ, ◌+◌, ◌≤◌, ◌≡◌, refl, ap, subst, ◌∙◌, ◌↔◌, String, Bool, true, false, ◌&&◌, not, Option, none,
  some, arith, str_eq, leb, All, or_else,
}
use mura_project.Prelude.Table.{
  find, HasUniqueKeys, find-modify_self, find-modify_ne, find_of_Mem, first_by-holds, first_by-mem,
  first_by-least, first_by-none, first_by-eq-none,
}
use mura_project.Recordings.Rows.{transcribing, ProcessingJobRow, Database, job_key, is_terminal}
use mura_project.Recordings.Queue.{
  is_eligible, claimed, next_job, claim_selected, claim_next_job, deferred,
}

-- A row that a worker can take now: eligible, and in no other transaction's hands.
abbrev pub is_free : (String → Bool) → ℕ → ProcessingJobRow → Bool
is_free locked moment r = is_eligible moment r && not (locked r.job_id)

-- What `claim_next_job` did when it took the row `r`.
pub record Takes (locked : String → Bool) (owner : String) (lease moment : ℕ) (db : Database)
    (job r : ProcessingJobRow) : Type 0 where
  pub stored : find job_key r.job_id db.jobs ≡ some r
  pub eligible : is_eligible moment r ≡ true
  pub unlocked : locked r.job_id ≡ false
  pub oldest : All (λ s. is_free locked moment s ≡ true → r.created_at ≤ s.created_at) db.jobs
  pub returned : job ≡ record r {
    lease_owner = some owner;
    claimed_at = some moment;
    lease_expires_at = some (moment + lease);
    last_heartbeat_at = some moment;
    attempts = r.attempts + 1;
    status = transcribing;
    stage = "asr_transcription";
    started_at = some (or_else r.started_at moment);
    updated_at = moment;
    error_code = none;
    error_detail = none;
  }
  pub written :
      find job_key r.job_id (claim_next_job locked owner lease moment db).0.jobs ≡ some job
  pub others :
      (j : String)
      → str_eq r.job_id j ≡ false
      → find job_key j (claim_next_job locked owner lease moment db).0.jobs ≡ find job_key j db.jobs

module _ (locked : String → Bool) (owner : String) (lease moment : ℕ) (db : Database) where
  job_key-claimed : (r : ProcessingJobRow) → job_key (claimed owner lease moment r) ≡ job_key r
  unfolding claimed
  job_key-claimed r = refl

  Takes-of_next :
      {r : ProcessingJobRow}
      → HasUniqueKeys job_key db.jobs
      → next_job locked moment db.jobs ≡ some r
      → Takes locked owner lease moment db (claimed owner lease moment r) r
  unfolding next_job claim_next_job
  Takes-of_next {r} unique e =
      let here : find job_key r.job_id db.jobs ≡ some r =
        find_of_Mem job_key db.jobs unique (first_by-mem _ _ db.jobs e) in
      let free : is_free locked moment r ≡ true = first_by-holds _ _ db.jobs e in
      record {
        stored = here;
        eligible = ground arith;
        unlocked = ground arith;
        oldest = first_by-least _ _ db.jobs e;
        returned = unfold claimed in refl;
        written = rw e (
            find-modify_self job_key r.job_id (claimed owner lease moment) db.jobs job_key-claimed
            ∙ ap (Option.map (claimed owner lease moment)) here);
        others = λ j ne. rw e (
            find-modify_ne job_key r.job_id j (claimed owner lease moment) db.jobs job_key-claimed
              ne);
      }

  -- If a claim returns a job, that job was stored, eligible and not locked, no free job is
  -- older, the stored row is now the returned one, stamped with the owner and the new lease,
  -- and every other row is as it was.
  pub claim_next_job-Takes :
      {job : ProcessingJobRow}
      → HasUniqueKeys job_key db.jobs
      → (claim_next_job locked owner lease moment db).1 ≡ some job
      → (r : ProcessingJobRow) × Takes locked owner lease moment db job r
  unfolding claim_next_job
  claim_next_job-Takes {job} unique h = taken (next_job locked moment db.jobs) refl h
    where
      taken :
          (o : Option ProcessingJobRow)
          → next_job locked moment db.jobs ≡ o
          → (claim_selected owner lease moment db o).1 ≡ some job
          → (r : ProcessingJobRow) × Takes locked owner lease moment db job r
      taken none e p = absurd (cc)
      taken (some r) e p =
          let same : claimed owner lease moment r ≡ job = cc in
          (r, subst (λ j. Takes locked owner lease moment db j r) same (Takes-of_next unique e))

  -- A claim returns nothing exactly when every stored job is ineligible or locked.
  pub claim_next_job-none :
      ((claim_next_job locked owner lease moment db).1 ≡ none)
      ↔ All (λ r. is_free locked moment r ≡ false) db.jobs
  unfolding claim_next_job next_job
  claim_next_job-none =
      (λ h. first_by-none _ _ db.jobs (none_of_next h), λ h. rw (first_by-eq-none _ _ db.jobs h))
    where
      selects :
          (o : Option ProcessingJobRow)
          → (claim_selected owner lease moment db o).1 ≡ none
          → o ≡ none
      selects none e = refl
      selects (some r) e = absurd (cc)

      none_of_next :
          (claim_next_job locked owner lease moment db).1 ≡ none
          → next_job locked moment db.jobs ≡ none
      none_of_next h = selects (next_job locked moment db.jobs) h

-- A job that Core deferred at `now` for `retry_after` becomes eligible exactly at the end of that
-- delay: never before it, and always after it.
pub is_eligible-deferred :
    (error_code error_detail : String) (retry_after now moment : ℕ) (r : ProcessingJobRow)
    → is_eligible moment (deferred error_code error_detail retry_after now r)
      ≡ leb (now + retry_after) moment
unfolding is_eligible deferred
is_eligible-deferred error_code error_detail retry_after now moment r = ground arith

-- A job that is not finished and has a lease is eligible at any instant from the expiry of the lease
-- on, and before it only if it is queued, which a claimed job is not.
pub is_eligible-claimed :
    (owner : String) (lease now moment : ℕ) (r : ProcessingJobRow)
    → is_eligible moment (claimed owner lease now r) ≡ leb (now + lease) moment
unfolding is_eligible claimed
is_eligible-claimed owner lease now moment r = ground arith

-- A finished job is never eligible.
pub is_eligible-terminal :
    (moment : ℕ) (r : ProcessingJobRow) → is_terminal r.status ≡ true → is_eligible moment r ≡ false
unfolding is_eligible
is_eligible-terminal moment r h = ground arith
