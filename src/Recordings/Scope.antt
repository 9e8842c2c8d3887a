-- ===== src/Recordings/Scope.antt =====
-- `RecordingRepository` of storage/database.py: the creation, the lookups by family and the
-- deletion of a recording, and the registration of the speech worker.
use Prim.Native.Char.{code}
use mura_project.Prelude.{
  ℕ, String, Bool, ◌&&◌, not, Option, none, some, ◌∷◌, is_some, ◌==◌, if◌then◌else◌, str_eq, any,
  select, Result, ok, integrity_error, ◌>>◌, guard,
}
use mura_project.Prelude.Table.{find, modify, remove, find_where}
use mura_project.Recordings.Rows.{
  queued, RecordingRow, ProcessingJobRow, PipelineResultRow, WorkerRegistrationRow, Database,
  job_key, recording_key, result_key, worker_key,
}

-- The job row that is created with a recording, its defaults filled in.
unfoldable pub new_job : String → String → ℕ → ProcessingJobRow
new_job job_id recording_id now = record {
  job_id = job_id;
  recording_id = recording_id;
  status = queued;
  stage = "queued";
  attempts = 0;
  next_attempt_at = now;
  error_code = none;
  error_detail = none;
  lease_owner = none;
  claimed_at = none;
  lease_expires_at = none;
  last_heartbeat_at = none;
  created_at = now;
  started_at = none;
  completed_at = none;
  updated_at = now;
}

-- The columns `recording_id` and `job_id` are primary keys, and a recording has one job.
unfoldable pub create_recording_and_job : RecordingRow → String → ℕ → Database → Result Database
create_recording_and_job row job_id now db = do
  guard (not (is_some (find recording_key row.recording_id db.recordings))) integrity_error
  guard (not (is_some (find job_key job_id db.jobs))) integrity_error
  guard (not (any (λ r. str_eq r.recording_id row.recording_id) db.jobs)) integrity_error
  ok (record db {
    recordings = row ∷ db.recordings;
    jobs = new_job job_id row.recording_id now ∷ db.jobs;
  })

unfoldable pub get_recording : String → Database → Option RecordingRow
get_recording recording_id db = find recording_key recording_id db.recordings

unfoldable pub get_family_recording : String → String → Database → Option RecordingRow
get_family_recording family_id recording_id db =
    find_where (λ r. str_eq r.recording_id recording_id && str_eq r.family_id family_id)
      db.recordings

-- The `JOIN` to the recording with the family of the caller.
unfoldable pub is_in_family : String → String → Database → Bool
is_in_family family_id recording_id db =
    any (λ rec. str_eq rec.recording_id recording_id && str_eq rec.family_id family_id)
      db.recordings

unfoldable pub get_family_job : String → String → Database → Option ProcessingJobRow
get_family_job family_id job_id db =
    find_where (λ r. str_eq r.job_id job_id && is_in_family family_id r.recording_id db) db.jobs

unfoldable pub get_family_job_for_recording : String → String → Database → Option ProcessingJobRow
get_family_job_for_recording family_id recording_id db =
    find_where (λ r. str_eq r.recording_id recording_id && is_in_family family_id r.recording_id db)
      db.jobs

unfoldable pub get_family_pipeline_result : String → String → Database → Option PipelineResultRow
get_family_pipeline_result family_id recording_id db =
    find_where (λ r. str_eq r.recording_id recording_id && is_in_family family_id r.recording_id db)
      db.results

unfoldable pub family_person_exists : String → String → Database → Bool
family_person_exists family_id person_id db =
    is_some
      (find_where (λ p. str_eq p.person_id person_id && str_eq p.family_id family_id) db.people)

unfoldable pub get_job : String → Database → Option ProcessingJobRow
get_job job_id db = find job_key job_id db.jobs

unfoldable pub get_job_for_recording : String → Database → Option ProcessingJobRow
get_job_for_recording recording_id db = find_where (λ r. str_eq r.recording_id recording_id) db.jobs

unfoldable pub get_pipeline_result : String → Database → Option PipelineResultRow
get_pipeline_result recording_id db = find result_key recording_id db.results

-- The rows that stay when everything of one recording is deleted. (The foreign keys cascade to
-- the same rows: the trace events of a job carry the recording of the job.)
unfoldable pub without_recording : String → Database → Database
without_recording recording_id db = record db {
  jobs = select (λ r. not (str_eq r.recording_id recording_id)) db.jobs;
  results = select (λ r. not (str_eq r.recording_id recording_id)) db.results;
  traces = select (λ r. not (str_eq r.recording_id recording_id)) db.traces;
  claims = select (λ r. not (str_eq r.recording_id recording_id)) db.claims;
  recordings = remove recording_key recording_id db.recordings;
}

abbrev pub delete_found : String → Database → Option RecordingRow → Database × Option RecordingRow
delete_found recording_id db none = (db, none)
delete_found recording_id db (some recording) = (without_recording recording_id db, some recording)

unfoldable pub delete_family_recording : String → String → Database → Database × Option RecordingRow
unfolding without_recording
delete_family_recording family_id recording_id db =
    delete_found recording_id db (get_family_recording family_id recording_id db)

-- `url.rstrip("/")`
unfoldable pub strip_slashes : String → String
strip_slashes String.[] = ""
strip_slashes (String.◌∷◌ c s) =
    let rest = strip_slashes s in if str_eq rest "" && code c == b'/' then "" else String.◌∷◌ c rest

unfoldable pub register_worker : String → String → ℕ → Database → Database × WorkerRegistrationRow
unfolding strip_slashes
register_worker url status now db =
    let row : WorkerRegistrationRow = record {
      worker_name = "kaggle-asr";
      url = strip_slashes url;
      status = status;
      registered_at = now;
    } in
    if is_some (find worker_key "kaggle-asr" db.workers)
    then (record db { workers = modify worker_key "kaggle-asr" (λ r. row) db.workers }, row)
    else (record db { workers = row ∷ db.workers }, row)

unfoldable pub current_worker : Database → Option WorkerRegistrationRow
current_worker db = find worker_key "kaggle-asr" db.workers
