-- ===== src/Books/Claims.antt =====
-- `claim_next_job` of the book queue (storage/book.py): what a claim takes, and when it takes nothing.
use mura_project.Prelude.{
  ap, ℕ, ◌+◌, ◌<◌, ◌≡◌, refl, String, Bool, true, false, none, some, List, arith, All, ◌↔◌,
}
use mura_project.Prelude.Table.{HasUniqueKeys}
use mura_project.Prelude.Claim.{Takes, take_first-Takes, take_first-none}
use mura_project.Books.Rows.{BookJobRow, Database, job_key, is_terminal}
use mura_project.Books.Jobs.{claim_next_job, is_free, is_eligible, claimed}

abbrev pub Took :
    (String → Bool) → String → ℕ → ℕ → List BookJobRow → BookJobRow → BookJobRow → Type 0
Took locked owner lease moment =
    Takes job_key (is_free locked moment) (λ r. r.created_at) (claimed owner lease moment)

charged :
    (locked : String → Bool) (moment : ℕ) (r : BookJobRow)
    → is_free locked moment r ≡ true
    → (r.attempts < r.max_attempts) × (is_terminal r.status ≡ false)
unfolding is_eligible
charged locked moment r f = ground arith

-- If a claim returns a book job, it is the oldest one that is eligible and not locked; it had an attempt left
-- and had not ended; it is now running for the owner, charged one attempt; and the other jobs are as they
-- were.
pub claim_next_job-Taken :
    (locked : String → Bool) (owner : String) (lease moment : ℕ) (db : Database) (job : BookJobRow)
    → HasUniqueKeys job_key db.jobs
    → (claim_next_job locked owner lease moment db).1 ≡ some job
    → (r : BookJobRow) × Took locked owner lease moment db.jobs job r
      × (r.attempts < r.max_attempts)
      × (is_terminal r.status ≡ false)
      × (job.attempts ≡ r.attempts + 1)
unfolding claim_next_job claimed
claim_next_job-Taken locked owner lease moment db job u h =
    let (r, t) =
      take_first-Takes job_key (is_free locked moment) (λ r. r.created_at)
        (claimed owner lease moment) db.jobs (λ x. refl) u h in
    let (some_left, live) = charged locked moment r t.was_free in
    (r, t, some_left, live, ap (λ (j : BookJobRow). j.attempts) t.returned)

-- A claim returns nothing exactly if no job is eligible and not locked.
claim_next_job-idle :
    (locked : String → Bool) (owner : String) (lease moment : ℕ) (db : Database)
    → ((claim_next_job locked owner lease moment db).1 ≡ none)
      ↔ All (λ r. is_free locked moment r ≡ false) db.jobs
unfolding claim_next_job
claim_next_job-idle locked owner lease moment db =
    take_first-none job_key (is_free locked moment) (λ r. r.created_at) (claimed owner lease moment)
      db.jobs
