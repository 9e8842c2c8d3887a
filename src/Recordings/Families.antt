-- ===== src/Recordings/Families.antt =====
-- The family scope of the queue: what a family sees, and what the deletion of a recording erases.
use mura_project.Prelude.{
  inl, inr, ℕ, ◌≡◌, refl, ◌∙◌, String, Bool, false, Option, none, some, ◌∷◌, str_eq, eq_refl,
  if◌then◌else◌, Bool-cases, any, ok, select,
}
use mura_project.Prelude.Table.{
  find, find_where, find-remove, HasUniqueKeys, keep_if, holds_of, find_where-key, any-eq-none,
  find_where-eq-none, any-key,
}
use mura_project.Prelude.Select.{find_where-without, find-without, any-without, select-without}
use mura_project.Recordings.Rows.{
  RecordingRow, ProcessingJobRow, ProcessingTraceEventRow, ArchiveClaimRow, Database, job_key,
  result_key, recording_key,
}
use mura_project.Recordings.Scope.{
  get_job, new_job, create_recording_and_job, get_recording, get_family_recording, is_in_family,
  get_family_job, get_job_for_recording, get_pipeline_result, delete_family_recording,
}

-- What a deletion did to the database.
pub record Erased (id : String) (db db' : Database) : Type 0 where
  pub recording_gone : get_recording id db' ≡ none
  pub job_gone : get_job_for_recording id db' ≡ none
  pub result_gone : get_pipeline_result id db' ≡ none
  pub traces_gone : any (λ t. str_eq t.recording_id id) db'.traces ≡ false
  pub claims_gone : any (λ c. str_eq c.recording_id id) db'.claims ≡ false
  pub recordings_kept :
      (j : String) → str_eq id j ≡ false → get_recording j db' ≡ get_recording j db
  pub jobs_kept :
      (j : String) → str_eq id j ≡ false → get_job_for_recording j db' ≡ get_job_for_recording j db
  pub results_kept :
      (j : String) → str_eq id j ≡ false → get_pipeline_result j db' ≡ get_pipeline_result j db
  pub traces_kept :
      (j : String)
      → str_eq id j ≡ false
      → select (λ t. str_eq t.recording_id j) db'.traces
        ≡ select (λ t. str_eq t.recording_id j) db.traces
  pub claims_kept :
      (j : String)
      → str_eq id j ≡ false
      → select (λ c. str_eq c.recording_id j) db'.claims
        ≡ select (λ c. str_eq c.recording_id j) db.claims
  pub rest_kept : (db'.people ≡ db.people) × (db'.workers ≡ db.workers)

-- A deletion that finds the recording in the family returns it and erases it: neither the recording, nor
-- its job, nor its result is found any more, no trace event and no claim of it is left, and the
-- recording, the job, the result, the trace events and the claims of every other recording are as before.
pub delete_family_recording-Erased :
    (family id : String) (db : Database) {r : RecordingRow}
    → get_family_recording family id db ≡ some r
    → ((delete_family_recording family id db).1 ≡ some r)
      × Erased id db (delete_family_recording family id db).0
unfolding delete_family_recording get_recording get_job_for_recording get_pipeline_result
delete_family_recording-Erased family id db {r} e = rw e (
  refl,
  record {
    recording_gone = rw (find-remove recording_key id id db.recordings, eq_refl id);
    job_gone =
        rw
          (find_where-without (λ (x : ProcessingJobRow). x.recording_id) id id db.jobs, eq_refl id);
    result_gone = rw (find-without result_key id id db.results, eq_refl id);
    traces_gone = any-without (λ (x : ProcessingTraceEventRow). x.recording_id) id db.traces;
    claims_gone = any-without (λ (x : ArchiveClaimRow). x.recording_id) id db.claims;
    recordings_kept = λ j ne. rw (find-remove recording_key id j db.recordings, ne);
    jobs_kept =
        λ j ne. rw (find_where-without (λ (x : ProcessingJobRow). x.recording_id) id j db.jobs, ne);
    results_kept = λ j ne. rw (find-without result_key id j db.results, ne);
    traces_kept =
        λ j ne. select-without (λ (x : ProcessingTraceEventRow). x.recording_id) id j db.traces ne;
    claims_kept =
        λ j ne. select-without (λ (x : ArchiveClaimRow). x.recording_id) id j db.claims ne;
    rest_kept = (refl, refl);
  },
)

-- A deletion that does not find the recording in the family changes nothing.
pub delete_family_recording-foreign :
    (family id : String) (db : Database)
    → get_family_recording family id db ≡ none
    → delete_family_recording family id db ≡ (db, none)
unfolding delete_family_recording
delete_family_recording-foreign family id db e = rw e

keep_if_ext :
    (p q : ProcessingJobRow → Bool) (o : Option ProcessingJobRow)
    → ((x : ProcessingJobRow) → p x ≡ q x)
    → keep_if p o ≡ keep_if q o
keep_if_ext p q none h = refl
keep_if_ext p q (some x) h = rw (h x)

-- Whether the recording of that id is stored with that family.
abbrev pub owned_by : String → String → Database → Bool
owned_by family id db = holds_of (λ rec. str_eq rec.family_id family) (get_recording id db)

-- With unique keys the lookups by family answer as the plain lookups do where the recording is the
-- family's, and as for an unknown id where it is not: for a recording and for a job by its id.
pub family_lookups :
    (family id : String) (db : Database)
    → HasUniqueKeys recording_key db.recordings
    → HasUniqueKeys job_key db.jobs
    → (get_family_recording family id db
        ≡ keep_if (λ rec. str_eq rec.family_id family) (get_recording id db))
      × (get_family_job family id db
          ≡ keep_if (λ job. owned_by family job.recording_id db) (get_job id db))
unfolding get_family_recording get_recording get_family_job get_job is_in_family
family_lookups family id db ur uj =
    let own : (i : String) → is_in_family family i db ≡ owned_by family i db =
      λ i. any-key recording_key (λ rec. str_eq rec.family_id family) i db.recordings ur in
    (
      find_where-key recording_key (λ rec. str_eq rec.family_id family) id db.recordings ur,
      find_where-key job_key (λ job. is_in_family family job.recording_id db) id db.jobs uj
          ∙ keep_if_ext _ _ (find job_key id db.jobs) (λ job. own job.recording_id),
    )

-- With its recording id, its job id and the job's recording all free, a creation succeeds, and the new job
-- is then found by the recording's family and by no other family.
pub create_recording_and_job-get :
    (row : RecordingRow) (job_id : String) (now : ℕ) (db : Database)
    → find recording_key row.recording_id db.recordings ≡ none
    → find job_key job_id db.jobs ≡ none
    → any (λ r. str_eq r.recording_id row.recording_id) db.jobs ≡ false
    → (db' : Database) × (create_recording_and_job row job_id now db ≡ ok db')
      × ((family : String)
          → get_family_job family job_id db' ≡ (
              if str_eq row.family_id family
              then some (new_job job_id row.recording_id now)
              else none))
unfolding create_recording_and_job get_family_job is_in_family find_where new_job
create_recording_and_job-get row job_id now db a b c = (
  record db {
    recordings = row ∷ db.recordings;
    jobs = new_job job_id row.recording_id now ∷ db.jobs;
  },
  rw (a, b, c),
  λ family.
      rw
        (
          eq_refl job_id,
          eq_refl row.recording_id,
          any-eq-none recording_key (λ rec. str_eq rec.family_id family) row.recording_id
              db.recordings a,
        )
        (elim (Bool-cases (str_eq row.family_id family)) [
          | inl e ↦ rw e
          | inr e ↦ rw e (find_where-eq-none job_key _ job_id db.jobs b)
        ]),
)
