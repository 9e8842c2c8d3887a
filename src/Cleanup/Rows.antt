-- ===== src/Cleanup/Rows.antt =====
-- storage/cleanup.py: the table of the cleanup queue. The table is the state of the component.
use mura_project.Prelude.{ℕ, String, Option, Bool, true, false, ◌&&◌, str_eq}

pub data StorageCleanupStatus : Type 0 where
  queued running completed failed : StorageCleanupStatus

abbrev pub is_queued : StorageCleanupStatus → Bool
is_queued queued = true
is_queued _ = false

abbrev pub is_running : StorageCleanupStatus → Bool
is_running running = true
is_running _ = false

pub record StorageCleanupJobRow : Type 0 where
  pub cleanup_job_id : String
  pub resource_type : String
  pub storage_kind : String
  pub storage_backend : String
  pub storage_key : String
  pub status : StorageCleanupStatus
  pub attempts : ℕ
  pub max_attempts : ℕ
  pub next_attempt_at : ℕ
  pub lease_owner : Option String
  pub claimed_at : Option ℕ
  pub lease_expires_at : Option ℕ
  pub last_heartbeat_at : Option ℕ
  pub error_code : Option String
  pub error_detail : Option String
  pub created_at : ℕ
  pub updated_at : ℕ
  pub completed_at : Option ℕ

abbrev pub cleanup_key : StorageCleanupJobRow → String
cleanup_key r = r.cleanup_job_id

-- An item of `enqueue_many`: the object that is to be erased.
pub record CleanupItem : Type 0 where
  pub resource_type : String
  pub storage_kind : String
  pub storage_backend : String
  pub storage_key : String

-- The columns of the constraint `uq_storage_cleanup_object`.
abbrev pub is_object : CleanupItem → StorageCleanupJobRow → Bool
is_object item r =
    str_eq r.storage_kind item.storage_kind
    && (str_eq r.storage_backend item.storage_backend && str_eq r.storage_key item.storage_key)

abbrev pub is_same_object : CleanupItem → CleanupItem → Bool
is_same_object a b =
    str_eq a.storage_kind b.storage_kind
    && (str_eq a.storage_backend b.storage_backend && str_eq a.storage_key b.storage_key)
