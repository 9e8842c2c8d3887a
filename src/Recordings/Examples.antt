-- ===== src/Recordings/Examples.antt =====
-- The theorems about the recording queue at a small database, and tests by evaluation.
use mura_project.Prelude.{
  ◌+◌, ◌≡◌, refl, String, Bool, true, false, none, some, List, [], ◌∷◌, arith, if◌then◌else◌, All,
  ok, err, lease_ownership_lost, job_finalization_error,
}
use mura_project.Prelude.Table.{find, HasUniqueKeys, first_by, find_where}
use mura_project.Recordings.Rows.{
  queued, transcribing, cleaning, failed, is_failed, RecordingRow, ProcessingJobRow,
  ProcessingTraceEventRow, Database, job_key, recording_key,
}
use mura_project.Recordings.Queue.{
  is_eligible, claimed, next_job, claim_next_job, renew_lease, update_job_stage,
  save_transcript_preview, defer_job, fail_job,
}
use mura_project.Recordings.Completion.{
  persist_trace_events, finalize_recording_job, defer_recording_job, fail_recording_job,
}
use mura_project.Recordings.Scope.{get_family_recording}
use mura_project.Recordings.Retry.{resolve_retry_state}
use mura_project.Recordings.Claims.{Takes, claim_next_job-Takes}
use mura_project.Recordings.Workers.{Action, claim, renew, stage, finalize, fail, run}
use mura_project.Recordings.Leases.{run-keeps-leased}
use mura_project.Recordings.Invariant.{IsSound, run-IsSound, run-keeps-terminal}
use mura_project.Recordings.Attempts.{claims_in, run-attempts}
use mura_project.Recordings.Ownership.{
  stale_worker_refused, Finalized, finalize_recording_job-Finalized,
}
use mura_project.Recordings.Trace.{persist_idem}
use mura_project.Recordings.Deletion.{Stores, delete_recording}
use mura_project.Recordings.Erasure.{Deleted, delete_recording-Deleted}

abbrev waiting : ProcessingJobRow
waiting = record {
  job_id = "job_a";
  recording_id = "rec_a";
  status = queued;
  stage = "queued";
  attempts = 0;
  next_attempt_at = 5;
  error_code = none;
  error_detail = none;
  lease_owner = none;
  claimed_at = none;
  lease_expires_at = none;
  last_heartbeat_at = none;
  created_at = 5;
  started_at = none;
  completed_at = none;
  updated_at = 5;
}

abbrev running : ProcessingJobRow
running = record {
  job_id = "job_b";
  recording_id = "rec_b";
  status = transcribing;
  stage = "asr_transcription";
  attempts = 1;
  next_attempt_at = 1;
  error_code = none;
  error_detail = none;
  lease_owner = some "worker_1";
  claimed_at = some 10;
  lease_expires_at = some 100;
  last_heartbeat_at = some 10;
  created_at = 1;
  started_at = some 10;
  completed_at = none;
  updated_at = 10;
}

abbrev broken : ProcessingJobRow
broken = record {
  job_id = "job_c";
  recording_id = "rec_c";
  status = failed;
  stage = "failed";
  attempts = 2;
  next_attempt_at = 1;
  error_code = some "asr_failed";
  error_detail = some "no audio";
  lease_owner = none;
  claimed_at = none;
  lease_expires_at = none;
  last_heartbeat_at = some 3;
  created_at = 2;
  started_at = some 2;
  completed_at = some 4;
  updated_at = 4;
}

abbrev recording : String → String → RecordingRow
recording id family = record {
  recording_id = id;
  family_id = family;
  created_by_user_id = none;
  speaker_id = "s";
  speaker_name = "Апа";
  original_filename = "a.ogg";
  content_type = none;
  audio_path = "a";
  storage_key = none;
  storage_backend = none;
  audio_sha256 = none;
  audio_size_bytes = some 12;
  audio_duration_ms = none;
  audio_mime_type = none;
  audio_language = none;
  output_language = none;
  transcript_preview = none;
  created_at = 0;
}

abbrev event : ProcessingTraceEventRow
event = record {
  event_id = "e1";
  trace_id = "t";
  job_id = "job_b";
  recording_id = "rec_b";
  family_id = "fam_2";
  attempt = 1;
  sequence = 1;
  stage = "asr";
  event_name = "done";
  outcome = "ok";
  duration_ms = none;
  attributes = "{}";
  created_at = 20;
}

abbrev db : Database
db = record {
  recordings =
      recording "rec_a" "fam_1" ∷ recording "rec_b" "fam_2" ∷ recording "rec_c" "fam_1" ∷ [];
  jobs = waiting ∷ running ∷ broken ∷ [];
  results = [];
  workers = [];
  traces = [];
  claims = [];
  people = [];
}

abbrev nobody : String → Bool
nobody id = false

db-HasUniqueKeys : HasUniqueKeys job_key db.jobs
unfolding find
db-HasUniqueKeys = (refl, (refl, (refl, tt)))

recordings-HasUniqueKeys : HasUniqueKeys recording_key db.recordings
unfolding find
recordings-HasUniqueKeys = (refl, (refl, (refl, tt)))

db-IsSound : All IsSound db.jobs
db-IsSound = ground arith

claim_next_job-Takes_example :
    (r : ProcessingJobRow) × Takes nobody "worker_2" 60 50 db (claimed "worker_2" 60 50 waiting) r
unfolding claim_next_job next_job is_eligible first_by claimed
claim_next_job-Takes_example = claim_next_job-Takes nobody "worker_2" 60 50 db db-HasUniqueKeys refl

abbrev schedule : List (String × Action)
schedule =
    ("worker_2", claim nobody 60 50)
    ∷ ("worker_2", stage "job_a" cleaning "cleaning" 60)
    ∷ ("worker_2", renew "job_b" 60 70)
    ∷ ("worker_3", fail "job_b" "timeout" "late" [] 80)
    ∷ ("worker_2", finalize "job_a" "{}" (event ∷ []) 90)
    ∷ []

run-keeps-leased_example : find job_key "job_b" (run schedule db).jobs ≡ some running
unfolding find
run-keeps-leased_example =
    run-keeps-leased schedule db running "worker_1" 100 db-HasUniqueKeys refl refl refl (
      (refl, omega arith),
      (
        (refl, omega arith),
        ((refl, omega arith), ((refl, omega arith), ((refl, omega arith), tt))),
      ),
    )

run-IsSound_example : All IsSound (run schedule db).jobs
run-IsSound_example = run-IsSound schedule db (tt, (refl, (tt, (tt, (tt, tt))))) db-IsSound

run-keeps-terminal_example : find job_key "job_c" (run schedule db).jobs ≡ some broken
unfolding find
run-keeps-terminal_example =
    run-keeps-terminal schedule db broken db-HasUniqueKeys refl (ground arith) refl

run-attempts_example :
    (s : ProcessingJobRow) × (find job_key "job_a" (run schedule db).jobs ≡ some s)
    × (s.attempts ≡ 0 + claims_in schedule "job_a" db)
unfolding find
run-attempts_example = run-attempts schedule "job_a" db waiting refl

stale_worker_refused_example :
    (renew_lease "job_b" "worker_2" 60 70 db ≡ (db, false))
    × (update_job_stage "job_b" cleaning "cleaning" (some "worker_2") 70 db
        ≡ err lease_ownership_lost)
    × (save_transcript_preview "job_b" "text" (some "worker_2") db ≡ err lease_ownership_lost)
    × (defer_job "job_b" "c" "d" 5 (some "worker_2") 70 db ≡ err lease_ownership_lost)
    × (fail_job "job_b" "c" "d" (some "worker_2") 70 db ≡ err lease_ownership_lost)
    × (defer_recording_job "job_b" "c" "d" 5 [] (some "worker_2") 70 db ≡ err lease_ownership_lost)
    × (fail_recording_job "job_b" "c" "d" [] (some "worker_2") 70 db ≡ err lease_ownership_lost)
    × (finalize_recording_job "job_b" "{}" [] (some "worker_2") 70 db ≡ (
        if is_failed running.status then err job_finalization_error else err lease_ownership_lost))
unfolding find
stale_worker_refused_example =
    stale_worker_refused "worker_2" "job_b" db running cleaning "cleaning" "text" "c" "d" "{}" [] 60
      5 70 refl refl

finalize_recording_job-Finalized_example :
    (db' : Database) × (finalize_recording_job "job_b" "{}" (event ∷ []) (some "worker_1") 70 db
      ≡ ok db')
    × Finalized "job_b" "{}" 70 db db' running
unfolding find
finalize_recording_job-Finalized_example =
    finalize_recording_job-Finalized "job_b" "{}" (event ∷ []) (some "worker_1") 70 db running refl
      refl refl

persist_idem_example :
    persist_trace_events (event ∷ event ∷ []) (persist_trace_events (event ∷ event ∷ []) [])
    ≡ persist_trace_events (event ∷ event ∷ []) []
persist_idem_example = persist_idem (event ∷ event ∷ []) []

countdown_rounds_up :
    (resolve_retry_state queued "waiting_for_asr" 2500000 1000000).retry_after_seconds ≡ some 2
unfolding resolve_retry_state
countdown_rounds_up = refl

oldest_due_first :
    (claim_next_job nobody "worker_2" 60 200 db).1 ≡ some (claimed "worker_2" 60 200 running)
unfolding claim_next_job next_job is_eligible first_by
oldest_due_first = refl

abbrev stores : Stores
stores = record { queue = db; cleanup = [] }

delete_recording-Deleted_example :
    Deleted "local" "rec_b"
      (recording "rec_b" "fam_2")
      stores
      (delete_recording "c1" 8 60 "local" "fam_2" "rec_b" stores).0
    × ((delete_recording "c1" 8 60 "local" "fam_2" "rec_b" stores).1.rows_deleted ≡ true)
unfolding get_family_recording find_where
delete_recording-Deleted_example =
    delete_recording-Deleted "c1" 8 60 "local" "fam_2" "rec_b" stores refl
