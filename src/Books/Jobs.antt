-- ===== src/Books/Jobs.antt =====
-- `BookJobRepository` of storage/book.py: the queue of book jobs.
use mura_project.Prelude.{
  is_some, integrity_error, ℕ, ◌+◌, String, Bool, true, false, ◌&&◌, ◌||◌, not, Option, none, some,
  List, [], ◌∷◌, leb, ltb, is_none, or_else, holds_text, if◌then◌else◌, Result, ok, str_eq, select,
  lookup_error, lease_ownership_lost, ◌>>=◌, or_raise, guard, ◌>>◌,
}
use mura_project.Prelude.Table.{find, modify}
use mura_project.Prelude.Claim.{take_first}
use mura_project.Books.Rows.{BookJobStatus, is_terminal, is_queued, BookJobRow, Database, job_key}

abbrev pub is_past : Option ℕ → ℕ → Bool
is_past none moment = false
is_past (some t) moment = leb t moment

unfoldable pub due_queued : ℕ → BookJobRow → Bool
due_queued moment r =
    is_queued r.status
    && (leb r.next_attempt_at moment
        && (is_none r.lease_expires_at || is_past r.lease_expires_at moment))

unfoldable pub expired_lease : ℕ → BookJobRow → Bool
expired_lease moment r = not (is_terminal r.status) && is_past r.lease_expires_at moment

unfoldable pub is_eligible : ℕ → BookJobRow → Bool
unfolding due_queued expired_lease
is_eligible moment r =
    ltb r.attempts r.max_attempts && (due_queued moment r || expired_lease moment r)

unfoldable pub claimed : String → ℕ → ℕ → BookJobRow → BookJobRow
claimed owner lease moment job = record job {
  lease_owner = some owner;
  claimed_at = some moment;
  lease_expires_at = some (moment + lease);
  last_heartbeat_at = some moment;
  attempts = job.attempts + 1;
  status = BookJobStatus.running;
  started_at = some (or_else job.started_at moment);
  updated_at = moment;
  error_code = none;
  error_detail = none;
}

-- `locked` tells the rows that other transactions hold.
abbrev pub is_free : (String → Bool) → ℕ → BookJobRow → Bool
is_free locked moment r = is_eligible moment r && not (locked r.job_id)

unfoldable pub claim_next_job :
    (String → Bool) → String → ℕ → ℕ → Database → Database × Option BookJobRow
claim_next_job locked owner lease moment db =
    let (jobs, job) =
      take_first job_key (is_free locked moment) (λ r. r.created_at) (claimed owner lease moment)
        db.jobs in
    (record db { jobs = jobs }, job)

unfoldable pub renewed : ℕ → ℕ → BookJobRow → BookJobRow
renewed lease moment r = record r {
  lease_expires_at = some (moment + lease);
  last_heartbeat_at = some moment;
  updated_at = moment;
}

abbrev pub renew_found : String → String → ℕ → ℕ → Database → Option BookJobRow → Database × Bool
renew_found job_id owner lease moment db none = (db, false)
renew_found job_id owner lease moment db (some r) =
    if holds_text r.lease_owner owner && not (is_terminal r.status)
    then (record db { jobs = modify job_key job_id (renewed lease moment) db.jobs }, true)
    else (db, false)

unfoldable pub renew_lease : String → String → ℕ → ℕ → Database → Database × Bool
renew_lease job_id owner lease moment db =
    renew_found job_id owner lease moment db (find job_key job_id db.jobs)

abbrev pub may_write : Option String → BookJobRow → Bool
may_write none job = true
may_write (some owner) job = holds_text job.lease_owner owner

unfoldable pub owned_job : Database → String → Option String → Result BookJobRow
owned_job db job_id lease_owner = do
  job ← or_raise (find job_key job_id db.jobs) lookup_error
  guard (may_write lease_owner job) lease_ownership_lost
  ok job

abbrev pub write_job : Database → String → (BookJobRow → BookJobRow) → Database
write_job db job_id f = record db { jobs = modify job_key job_id f db.jobs }

unfoldable pub update_job_stage : String → String → Option String → ℕ → Database → Result Database
unfolding owned_job
update_job_stage job_id stage lease_owner now db = do
  owned_job db job_id lease_owner
  ok (write_job db job_id (λ r. record r { stage = stage; updated_at = now }))

-- The next attempt of `defer_job`: an instant that is given, else a delay, else now.
unfoldable pub next_attempt : Option ℕ → Option ℕ → ℕ → ℕ
next_attempt (some instant) delay now = instant
next_attempt none (some delay) now = now + delay
next_attempt none none now = now

unfoldable pub deferred :
    String → String → Option ℕ → Option ℕ → Option String → ℕ → BookJobRow → BookJobRow
unfolding next_attempt
deferred error_code error_detail retry_after next_attempt_at stage now r = record r {
  status = BookJobStatus.queued;
  error_code = some error_code;
  error_detail = some error_detail;
  next_attempt_at = next_attempt next_attempt_at retry_after now;
  lease_owner = none;
  lease_expires_at = none;
  last_heartbeat_at = none;
  stage = or_else stage r.stage;
  updated_at = now;
}

unfoldable pub defer_job :
    String
    → String
    → String
    → Option ℕ
    → Option ℕ
    → Option String
    → Option String
    → ℕ
    → Database
    → Result Database
unfolding owned_job
defer_job job_id error_code error_detail retry_after next_attempt_at lease_owner stage now db = do
  owned_job db job_id lease_owner
  ok (write_job db job_id (deferred error_code error_detail retry_after next_attempt_at stage now))

unfoldable pub failed_row : String → String → ℕ → BookJobRow → BookJobRow
failed_row error_code error_detail now r = record r {
  status = BookJobStatus.failed;
  stage = "failed";
  error_code = some error_code;
  error_detail = some error_detail;
  lease_owner = none;
  lease_expires_at = none;
  last_heartbeat_at = none;
  updated_at = now;
}

unfoldable pub fail_job : String → String → String → Option String → ℕ → Database → Result Database
unfolding owned_job
fail_job job_id error_code error_detail lease_owner now db = do
  owned_job db job_id lease_owner
  ok (write_job db job_id (failed_row error_code error_detail now))

unfoldable pub completed_row : ℕ → BookJobRow → BookJobRow
completed_row now r = record r {
  status = BookJobStatus.completed;
  stage = "completed";
  error_code = none;
  error_detail = none;
  completed_at = some now;
  lease_owner = none;
  lease_expires_at = none;
  last_heartbeat_at = none;
  updated_at = now;
}

unfoldable pub complete_job : String → Option String → ℕ → Database → Result Database
unfolding owned_job
complete_job job_id lease_owner now db = do
  owned_job db job_id lease_owner
  ok (write_job db job_id (completed_row now))

unfoldable pub cancelled_row : ℕ → BookJobRow → BookJobRow
cancelled_row now r = record r {
  status = BookJobStatus.cancelled;
  stage = "cancelled";
  lease_owner = none;
  lease_expires_at = none;
  last_heartbeat_at = none;
  updated_at = now;
}

unfoldable pub cancel_job : String → Option String → ℕ → Database → Result Database
unfolding owned_job
cancel_job job_id lease_owner now db = do
  owned_job db job_id lease_owner
  ok (write_job db job_id (cancelled_row now))

-- The row that `create_job` inserts, with the defaults of its arguments as the callers leave them.
unfoldable pub new_job : String → String → String → String → ℕ → BookJobStatus → ℕ → BookJobRow
new_job job_id book_id family_id stage max_attempts status now = record {
  job_id = job_id;
  book_id = book_id;
  family_id = family_id;
  status = status;
  stage = stage;
  attempts = 0;
  max_attempts = max_attempts;
  next_attempt_at = now;
  error_code = none;
  error_detail = none;
  lease_owner = none;
  claimed_at = none;
  lease_expires_at = none;
  last_heartbeat_at = none;
  created_at = now;
  started_at = none;
  completed_at = none;
  updated_at = now;
}

unfoldable pub create_job : BookJobRow → Database → Result Database
create_job row db = do
  guard (not (is_some (find job_key row.job_id db.jobs))) integrity_error
  ok (record db { jobs = row ∷ db.jobs })

abbrev pub later : BookJobRow → Option BookJobRow → Option BookJobRow
later r none = some r
later r (some s) = if leb s.created_at r.created_at then some r else some s

-- The row that was created last, of several the first in the table.
unfoldable pub latest : List BookJobRow → Option BookJobRow
latest [] = none
latest (r ∷ rows) = later r (latest rows)

unfoldable pub get_job_for_book : String → Database → Option BookJobRow
unfolding latest
get_job_for_book book_id db = latest (select (λ r. str_eq r.book_id book_id) db.jobs)

unfoldable pub get_job : String → Database → Option BookJobRow
get_job job_id db = find job_key job_id db.jobs
