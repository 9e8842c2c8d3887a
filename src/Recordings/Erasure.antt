-- ===== src/Recordings/Erasure.antt =====
-- `delete_recording` of storage/deletion.py: what is gone, what is queued for erasure, what stays.
use mura_project.Prelude.{
  ◌||◌, ℕ, ◌≡◌, refl, String, true, false, none, some, List, [], ◌∷◌, ◌++◌, any, str_eq, Bool-cases,
  inl, inr,
}
use mura_project.Cleanup.Rows.{StorageCleanupJobRow, is_object}
use mura_project.Cleanup.Enqueue.{new_row, enqueue_cleanup}
use mura_project.Cleanup.Objects.{has_row, enqueue_cleanup-has_row}
use mura_project.Recordings.Rows.{RecordingRow, Database}
use mura_project.Recordings.Scope.{get_family_recording, without_recording, delete_family_recording}
use mura_project.Recordings.Families.{Erased, delete_family_recording-Erased}
use mura_project.Recordings.Deletion.{
  physical_key, audio_item, queue_audio, Stores, delete_recording,
}

without_recording-Erased :
    (family_id recording_id : String) (db : Database) (r : RecordingRow)
    → get_family_recording family_id recording_id db ≡ some r
    → Erased recording_id db (without_recording recording_id db)
unfolding delete_family_recording
without_recording-Erased family_id recording_id db r e =
    let h : Erased recording_id db (delete_family_recording family_id recording_id db).0 =
      (delete_family_recording-Erased family_id recording_id db e).1 in
    rw e at h

queue_audio-has_row :
    (new_id : String) (max_attempts now : ℕ) (default : String) (r : RecordingRow)
    (cleanup : List StorageCleanupJobRow)
    → (str_eq (physical_key r) ""
        || has_row (queue_audio new_id max_attempts now default r cleanup) (audio_item default r))
      ≡ true
unfolding queue_audio
queue_audio-has_row new_id max_attempts now default r cleanup =
    elim (Bool-cases (str_eq (physical_key r) "")) [
      | inl k ↦ rw k
      | inr k ↦
          rw k
            (enqueue_cleanup-has_row (λ i. new_id) max_attempts now (audio_item default r) cleanup)
    ]

queue_audio-kept :
    (new_id : String) (max_attempts now : ℕ) (default : String) (r : RecordingRow)
    (cleanup : List StorageCleanupJobRow)
    → (added : List StorageCleanupJobRow) × (queue_audio new_id max_attempts now default r cleanup
        ≡ added ++ cleanup)
unfolding queue_audio enqueue_cleanup
queue_audio-kept new_id max_attempts now default r cleanup =
    elim (Bool-cases (str_eq (physical_key r) "")) [
      | inl k ↦ ([], rw k)
      | inr k ↦ elim (Bool-cases (any (is_object (audio_item default r)) cleanup)) [
        | inl h ↦ ([], rw (k, h))
        | inr h ↦ (new_row (audio_item default r) new_id max_attempts now ∷ [], rw (k, h))
      ]
    ]

pub record Deleted (default recording_id : String) (r : RecordingRow) (s s' : Stores) : Type 0 where
  pub erased : Erased recording_id s.queue s'.queue
  pub audio_queued :
      (str_eq (physical_key r) "" || any (is_object (audio_item default r)) s'.cleanup) ≡ true
  pub cleanup_kept : (added : List StorageCleanupJobRow) × (s'.cleanup ≡ added ++ s.cleanup)

-- If the family has the recording, its deletion succeeds and erases it with its job, result, trace events
-- and claims. Every other recording is found as before, with its job, its result and all of its trace
-- events and claims; people and workers stay. If the recording has audio under a key or path, that object
-- has a cleanup row then; and no cleanup row that was there is lost or changed.
pub delete_recording-Deleted :
    (new_id : String) (max_attempts now : ℕ) (default family_id recording_id : String) (s : Stores)
    {r : RecordingRow}
    → get_family_recording family_id recording_id s.queue ≡ some r
    → Deleted default recording_id r s
        (delete_recording new_id max_attempts now default family_id recording_id s).0
      × ((delete_recording new_id max_attempts now default family_id recording_id s).1.rows_deleted
          ≡ true)
unfolding delete_recording
delete_recording-Deleted new_id max_attempts now default family_id recording_id s {r} e = rw e (
  record {
    erased = without_recording-Erased family_id recording_id s.queue r e;
    audio_queued = queue_audio-has_row new_id max_attempts now default r s.cleanup;
    cleanup_kept = queue_audio-kept new_id max_attempts now default r s.cleanup;
  },
  refl,
)

-- For a recording that the family does not have, nothing changes and the answer says so.
delete_recording-missing :
    (new_id : String) (max_attempts now : ℕ) (default family_id recording_id : String) (s : Stores)
    → get_family_recording family_id recording_id s.queue ≡ none
    → delete_recording new_id max_attempts now default family_id recording_id s
      ≡ (s, record { rows_deleted = false; cleanup_enqueued = false })
unfolding delete_recording
delete_recording-missing new_id max_attempts now default family_id recording_id s e = rw e
