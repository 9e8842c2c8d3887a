-- ===== src/Recordings/Deletion.antt =====
-- `RecordingDeletionService` of storage/deletion.py, over the tables of the queue and the cleanup queue.
use mura_project.Prelude.{
  ℕ, String, Bool, true, false, Option, none, some, List, str_eq, text_or, if◌then◌else◌,
}
use mura_project.Cleanup.Rows.{StorageCleanupJobRow, CleanupItem}
use mura_project.Cleanup.Enqueue.{enqueue_cleanup}
use mura_project.Recordings.Rows.{RecordingRow, Database}
use mura_project.Recordings.Scope.{get_family_recording, without_recording}

-- `storage_key or audio_path`
unfoldable pub physical_key : RecordingRow → String
physical_key r = text_or r.storage_key r.audio_path

-- Where there is no storage key the path is one of before the storage backends.
unfoldable pub backend_of : String → RecordingRow → String
backend_of default r =
    if str_eq (text_or r.storage_key "") ""
    then "legacy_local"
    else text_or r.storage_backend default

unfoldable pub audio_item : String → RecordingRow → CleanupItem
unfolding physical_key backend_of
audio_item default r = record {
  resource_type = "recording_audio";
  storage_kind = "audio";
  storage_backend = backend_of default r;
  storage_key = physical_key r;
}

-- `new_id` is the id of the cleanup job, should one be inserted.
unfoldable pub queue_audio :
    String → ℕ → ℕ → String → RecordingRow → List StorageCleanupJobRow → List StorageCleanupJobRow
unfolding audio_item physical_key
queue_audio new_id max_attempts now default r cleanup =
    if str_eq (physical_key r) ""
    then cleanup
    else enqueue_cleanup (audio_item default r) new_id max_attempts now cleanup

-- `rows_deleted` and `cleanup_enqueued` of the answer.
pub record RecordingDeletion : Type 0 where
  pub rows_deleted : Bool
  pub cleanup_enqueued : Bool

pub record Stores : Type 0 where
  pub queue : Database
  pub cleanup : List StorageCleanupJobRow

abbrev pub delete_found :
    String → ℕ → ℕ → String → String → Stores → Option RecordingRow → Stores × RecordingDeletion
delete_found new_id max_attempts now default recording_id s none =
    (s, record { rows_deleted = false; cleanup_enqueued = false })
delete_found new_id max_attempts now default recording_id s (some r) = (
  record {
    queue = without_recording recording_id s.queue;
    cleanup = queue_audio new_id max_attempts now default r s.cleanup;
  },
  record {
    rows_deleted = true;
    cleanup_enqueued = if str_eq (physical_key r) "" then false else true;
  },
)

unfoldable pub delete_recording :
    String → ℕ → ℕ → String → String → String → Stores → Stores × RecordingDeletion
unfolding queue_audio physical_key
delete_recording new_id max_attempts now default family_id recording_id s =
    delete_found new_id max_attempts now default recording_id s
      (get_family_recording family_id recording_id s.queue)
