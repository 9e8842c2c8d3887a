-- ===== src/Books/Effects.antt =====
-- What one action of a worker does to the table of book jobs: nothing, the row that a claim takes, or the
-- effect of the action on a row that the worker owns.
use mura_project.Prelude.{
  ℕ, ◌≡◌, refl, String, Bool, true, false, ◌&&◌, not, Option, none, some, List, inl, inr, arith,
  Bool-cases, Option-cases, holds_text, Memᴰ, str_eq, ok, Error, lookup_error, lease_ownership_lost,
  err, ◌>>◌, settled,
}
use mura_project.Prelude.Table.{
  find, modify, first_by-mem, first_by-holds, HasUniqueKeys, find_where, find_where-key, keep_if,
  first_by,
}
use mura_project.Prelude.Claim.{stamp_chosen, take_first}
use mura_project.Books.Rows.{BookRow, BookJobRow, Database, book_key, job_key, is_terminal}
use mura_project.Books.Jobs.{
  claim_next_job, is_free, claimed, renew_lease, renew_found, renewed, owned_job, update_job_stage,
  defer_job, deferred, fail_job, failed_row, complete_job, completed_row, cancel_job, cancelled_row,
}
use mura_project.Books.Guard.{guard_worker_write, fenced}
use mura_project.Books.Repository.{
  complete_book_and_job, finished_job, cancel_book_and_job, stopped_job, worker,
}
use mura_project.Books.Workers.{
  Action, claim, renew, stage, defers, fails, completes, cancels, completes_book, cancels_book,
  target, effect, step,
}

pub data JobsAfter (w : String) (a : Action) (db : Database) (jobs : List BookJobRow) : Type 0 where
  same : jobs ≡ db.jobs → JobsAfter w a db jobs
  took :
      (r : BookJobRow) (locked : String → Bool) (lease now : ℕ)
      → a ≡ claim locked lease now
      → Memᴰ r db.jobs
      → is_free locked now r ≡ true
      → jobs ≡ modify job_key r.job_id (claimed w lease now) db.jobs
      → JobsAfter w a db jobs
  wrote :
      (r : BookJobRow)
      → find job_key (target a) db.jobs ≡ some r
      → holds_text r.lease_owner w ≡ true
      → jobs ≡ modify job_key (target a) (effect a) db.jobs
      → JobsAfter w a db jobs

pub effect-job_id : (a : Action) (r : BookJobRow) → job_key (effect a r) ≡ job_key r
unfolding renewed deferred failed_row completed_row cancelled_row finished_job stopped_job
effect-job_id (claim _ _ _) r = refl
effect-job_id _ r = refl

data Owned (w job_id : String) (db : Database) : Type 0 where
  missing : find job_key job_id db.jobs ≡ none → Owned w job_id db
  foreign :
      (r : BookJobRow)
      → find job_key job_id db.jobs ≡ some r
      → holds_text r.lease_owner w ≡ false
      → Owned w job_id db
  owner :
      (r : BookJobRow)
      → find job_key job_id db.jobs ≡ some r
      → holds_text r.lease_owner w ≡ true
      → Owned w job_id db

Owned-cases : (w job_id : String) (db : Database) → Owned w job_id db
Owned-cases w job_id db = elim (Option-cases (find job_key job_id db.jobs)) [
  | inl e ↦ missing e
  | inr (r, e) ↦ elim (Bool-cases (holds_text r.lease_owner w)) [
    | inl h ↦ owner r e h
    | inr h ↦ foreign r e h
  ]
]

-- What the fence has established where it lets a worker pass, or that it raises.
pub data Passed (w job_id book_id : String) (db : Database) : Type 0 where
  raises :
      (e : Error)
      → guard_worker_write book_id (worker job_id w) db ≡ err e
      → Passed w job_id book_id db
  passes :
      (b : BookRow) (r : BookJobRow)
      → guard_worker_write book_id (worker job_id w) db ≡ ok tt
      → find book_key book_id db.books ≡ some b
      → find job_key job_id db.jobs ≡ some r
      → holds_text r.lease_owner w ≡ true
      → Passed w job_id book_id db

pub Passed-cases :
    (w job_id book_id : String) (db : Database)
    → HasUniqueKeys job_key db.jobs
    → Passed w job_id book_id db
unfolding guard_worker_write fenced
Passed-cases w job_id book_id db u =
    let keyed : find_where (λ r. str_eq r.job_id job_id && str_eq r.book_id book_id) db.jobs
        ≡ keep_if (λ r. str_eq r.book_id book_id) (find job_key job_id db.jobs) =
      find_where-key job_key (λ r. str_eq r.book_id book_id) job_id db.jobs u in
    elim (Option-cases (find book_key book_id db.books)) [
      | inl e ↦ raises lookup_error (rw e)
      | inr (b, e) ↦ elim (Owned-cases w job_id db) [
        | missing f ↦ raises lookup_error (rw (e, keyed, f))
        | foreign r f h ↦ elim (Bool-cases (str_eq r.book_id book_id)) [
          | inl k ↦ raises lease_ownership_lost (rw (e, keyed, f, k, h))
          | inr k ↦ raises lookup_error (rw (e, keyed, f, k))
        ]
        | owner r f h ↦ elim (Bool-cases (str_eq r.book_id book_id)) [
          | inl k ↦ passes b r (rw (e, keyed, f, k, h)) e f h
          | inr k ↦ raises lookup_error (rw (e, keyed, f, k))
        ]
      ]
    ]

claim-JobsAfter :
    (w : String) (locked : String → Bool) (lease now : ℕ) (db : Database) (o : Option BookJobRow)
    → first_by (is_free locked now) (λ r. r.created_at) db.jobs ≡ o
    → JobsAfter w
        (claim locked lease now)
        db
        (stamp_chosen job_key
          (is_free locked now)
          (λ r. r.created_at)
          (claimed w lease now)
          db.jobs
          o).0
claim-JobsAfter w locked lease now db none e = same refl
claim-JobsAfter w locked lease now db (some r) e =
    took r locked lease now refl (first_by-mem _ _ db.jobs e) (first_by-holds _ _ db.jobs e) refl

renew-JobsAfter :
    (w job_id : String) (lease now : ℕ) (db : Database) (o : Option BookJobRow)
    → find job_key job_id db.jobs ≡ o
    → JobsAfter w (renew job_id lease now) db (renew_found job_id w lease now db o).0.jobs
renew-JobsAfter w job_id lease now db none e = same refl
renew-JobsAfter w job_id lease now db (some r) e =
    elim (Bool-cases (holds_text r.lease_owner w && not (is_terminal r.status))) [
      | inl h ↦ wrote r e (ground arith) (rw h)
      | inr h ↦ same (rw h)
    ]

-- A write that `_owned_job` guards.
owned-JobsAfter :
    (w : String) (a : Action) (db db' : Database)
    → db'.jobs ≡ modify job_key (target a) (effect a) db.jobs
    → JobsAfter w a db (settled db (owned_job db (target a) (some w) >> ok db')).jobs
unfolding owned_job
owned-JobsAfter w a db db' k = elim (Owned-cases w (target a) db) [
  | missing e ↦ same (rw e)
  | foreign r e h ↦ same (rw (e, h))
  | owner r e h ↦ wrote r e h (rw (e, h) k)
]

pub step-JobsAfter :
    (w : String) (a : Action) (db : Database)
    → HasUniqueKeys job_key db.jobs
    → JobsAfter w a db (step w a db).jobs
unfolding step claim_next_job take_first renew_lease update_job_stage defer_job fail_job
    complete_job cancel_job complete_book_and_job cancel_book_and_job
step-JobsAfter w (claim locked lease now) db u = claim-JobsAfter w locked lease now db _ refl
step-JobsAfter w (renew job_id lease now) db u = renew-JobsAfter w job_id lease now db _ refl
step-JobsAfter w (stage job_id name now) db u = owned-JobsAfter w (stage job_id name now) db _ refl
step-JobsAfter w (defers job_id code detail after at name now) db u =
    owned-JobsAfter w (defers job_id code detail after at name now) db _ refl
step-JobsAfter w (fails job_id code detail now) db u =
    owned-JobsAfter w (fails job_id code detail now) db _ refl
step-JobsAfter w (completes job_id now) db u = owned-JobsAfter w (completes job_id now) db _ refl
step-JobsAfter w (cancels job_id now) db u = owned-JobsAfter w (cancels job_id now) db _ refl
step-JobsAfter w (completes_book job_id book_id words now) db u =
    elim (Passed-cases w job_id book_id db u) [
      | raises e g ↦ same (rw g)
      | passes b r g eb er h ↦ wrote r er h (rw (g, eb, er))
    ]
step-JobsAfter w (cancels_book job_id book_id now) db u =
    elim (Passed-cases w job_id book_id db u) [
      | raises e g ↦ same (rw g)
      | passes b r g eb er h ↦ wrote r er h (rw (g, eb, er))
    ]
