-- ===== src/Books/Workers.antt =====
-- Schedules of the transactions on book jobs, and what holds of every job under them.
use mura_project.Prelude.{ℕ, String, Bool, Option, some, List, [], ◌∷◌, settled}
use mura_project.Books.Rows.{BookJobRow, Database}
use mura_project.Books.Jobs.{
  claim_next_job, renew_lease, renewed, update_job_stage, defer_job, deferred, fail_job, failed_row,
  complete_job, completed_row, cancel_job, cancelled_row,
}
use mura_project.Books.Repository.{
  complete_book_and_job, finished_job, cancel_book_and_job, stopped_job,
}

-- The transactions of the worker `w`.
pub data Action : Type 0 where
  claim : (String → Bool) → ℕ → ℕ → Action
  renew : String → ℕ → ℕ → Action
  stage : String → String → ℕ → Action
  defers : String → String → String → Option ℕ → Option ℕ → Option String → ℕ → Action
  fails : String → String → String → ℕ → Action
  completes : String → ℕ → Action
  cancels : String → ℕ → Action
  completes_book : String → String → ℕ → ℕ → Action
  cancels_book : String → String → ℕ → Action

unfoldable pub step : String → Action → Database → Database
step w (claim locked lease now) db = (claim_next_job locked w lease now db).0
step w (renew job_id lease now) db = (renew_lease job_id w lease now db).0
step w (stage job_id name now) db = settled db (update_job_stage job_id name (some w) now db)
step w (defers job_id code detail after at name now) db =
    settled db (defer_job job_id code detail after at (some w) name now db)
step w (fails job_id code detail now) db = settled db (fail_job job_id code detail (some w) now db)
step w (completes job_id now) db = settled db (complete_job job_id (some w) now db)
step w (cancels job_id now) db = settled db (cancel_job job_id (some w) now db)
step w (completes_book job_id book_id words now) db =
    settled db (complete_book_and_job job_id book_id words w now db)
step w (cancels_book job_id book_id now) db =
    settled db (cancel_book_and_job job_id book_id w now db)

unfoldable pub run : List (String × Action) → Database → Database
run [] db = db
run ((w, a) ∷ rest) db = run rest (step w a db)

-- The job that an action other than a claim writes to, and what it writes.
abbrev pub target : Action → String
target (claim locked lease now) = ""
target (renew job_id lease now) = job_id
target (stage job_id name now) = job_id
target (defers job_id code detail after at name now) = job_id
target (fails job_id code detail now) = job_id
target (completes job_id now) = job_id
target (cancels job_id now) = job_id
target (completes_book job_id book_id words now) = job_id
target (cancels_book job_id book_id now) = job_id

abbrev pub effect : Action → BookJobRow → BookJobRow
effect (claim locked lease now) r = r
effect (renew job_id lease now) r = renewed lease now r
effect (stage job_id name now) r = record r { stage = name; updated_at = now }
effect (defers job_id code detail after at name now) r = deferred code detail after at name now r
effect (fails job_id code detail now) r = failed_row code detail now r
effect (completes job_id now) r = completed_row now r
effect (cancels job_id now) r = cancelled_row now r
effect (completes_book job_id book_id words now) r = finished_job now r
effect (cancels_book job_id book_id now) r = stopped_job now r
