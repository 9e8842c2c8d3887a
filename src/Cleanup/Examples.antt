-- ===== src/Cleanup/Examples.antt =====
-- The theorems about the cleanup queue at a small table, and tests by evaluation.
use mura_project.Prelude.{
  true, ok, ◌≡◌, refl, String, Bool, false, none, some, List, [], ◌∷◌, arith, All,
}
use mura_project.Prelude.Table.{find, modify, HasUniqueKeys, first_by}
use mura_project.Prelude.Claim.{take_first}
use mura_project.Cleanup.Rows.{queued, running, StorageCleanupJobRow, CleanupItem, cleanup_key}
use mura_project.Cleanup.Queue.{claim_next_job, is_eligible, claimed}
use mura_project.Cleanup.Workers.{
  Action, claim, defers, completes, run, IsOrderly, run-IsOrderly, IsRecoverable, run-recovers,
}
use mura_project.Cleanup.Worker.{StorageCleanupWorker, delete_object, process_job}
use mura_project.Cleanup.Rounds.{ended, process_job-ended}
use mura_project.Reliability.Examples.{plain, plain_error}

abbrev waiting : StorageCleanupJobRow
waiting = record {
  cleanup_job_id = "c1";
  resource_type = "recording_audio";
  storage_kind = "audio";
  storage_backend = "local";
  storage_key = "a.ogg";
  status = queued;
  attempts = 0;
  max_attempts = 2;
  next_attempt_at = 1;
  lease_owner = none;
  claimed_at = none;
  lease_expires_at = none;
  last_heartbeat_at = none;
  error_code = none;
  error_detail = none;
  created_at = 1;
  updated_at = 1;
  completed_at = none;
}

-- on its last attempt
abbrev last : StorageCleanupJobRow
last = record waiting {
  cleanup_job_id = "c2";
  storage_key = "b.ogg";
  status = running;
  attempts = 2;
  lease_owner = some "worker_1";
  claimed_at = some 5;
  lease_expires_at = some 50;
  created_at = 0;
}

abbrev table : List StorageCleanupJobRow
table = waiting ∷ last ∷ []

abbrev nobody : String → Bool
nobody id = false

table-HasUniqueKeys : HasUniqueKeys cleanup_key table
unfolding find
table-HasUniqueKeys = (refl, (refl, tt))

table-IsOrderly : All IsOrderly table
table-IsOrderly = ground arith

abbrev schedule : List (String × Action)
schedule =
    ("worker_2", claim nobody 60 10)
    ∷ ("worker_2", defers "c1" 100 "timeout" "late" 20)
    ∷ ("worker_3", claim nobody 60 55)
    ∷ ("worker_3", completes "c2" 60)
    ∷ []

run-IsOrderly_example : All IsOrderly (run schedule table)
run-IsOrderly_example = run-IsOrderly schedule table table-HasUniqueKeys table-IsOrderly

run-recovers_example : All IsRecoverable (run schedule table)
run-recovers_example = run-recovers schedule table table-HasUniqueKeys table-IsOrderly

abbrev item : String → CleanupItem
item key = record {
  resource_type = "recording_audio";
  storage_kind = "audio";
  storage_backend = "local";
  storage_key = key;
}

abbrev key_as_id : CleanupItem → String
key_as_id i = i.storage_key

-- A job on its last attempt is taken over, at no further charge.
takes_over : (claim_next_job nobody "worker_2" 60 55 table).1 ≡ some (claimed "worker_2" 60 55 last)
unfolding claim_next_job take_first first_by is_eligible
takes_over = refl

-- A worker whose store does not answer.
abbrev worker : StorageCleanupWorker
worker = record {
  worker_id = "worker_1";
  lease_seconds = 120000000;
  retry_base_seconds = 5000000;
  retry_max_seconds = 3600000000;
  has_target = λ kind backend. true;
  erase = λ job. some (plain_error "read timeout");
  python = plain;
  jitter = λ n. n;
  raised = λ e. plain_error "";
}

abbrev held : StorageCleanupJobRow
held = record waiting { status = running; attempts = 1; lease_owner = some "worker_1" }

process_job-ended_example :
    process_job worker held 70 (held ∷ [])
    ≡ ok (modify cleanup_key "c1" (ended worker held 70 (delete_object worker held)) (held ∷ []))
unfolding find delete_object
process_job-ended_example = process_job-ended worker held held 70 (held ∷ []) refl
