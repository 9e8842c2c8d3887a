-- ===== src/Cleanup/Enqueue.antt =====
-- storage/cleanup.py: `enqueue_cleanup` and `enqueue_many`. The random ids of `new_cleanup_job_id` are a
-- parameter, one for each item.
use mura_project.Prelude.{ℕ, String, not, none, List, [], ◌∷◌, if◌then◌else◌, any, select}
use mura_project.Cleanup.Rows.{queued, StorageCleanupJobRow, CleanupItem, is_object, is_same_object}

unfoldable pub new_row : CleanupItem → String → ℕ → ℕ → StorageCleanupJobRow
new_row item id max_attempts now = record {
  cleanup_job_id = id;
  resource_type = item.resource_type;
  storage_kind = item.storage_kind;
  storage_backend = item.storage_backend;
  storage_key = item.storage_key;
  status = queued;
  attempts = 0;
  max_attempts = max_attempts;
  next_attempt_at = now;
  lease_owner = none;
  claimed_at = none;
  lease_expires_at = none;
  last_heartbeat_at = none;
  error_code = none;
  error_detail = none;
  created_at = now;
  updated_at = now;
  completed_at = none;
}

-- An object that has a row keeps it, whatever its status.
unfoldable pub enqueue_cleanup :
    CleanupItem → String → ℕ → ℕ → List StorageCleanupJobRow → List StorageCleanupJobRow
unfolding new_row
enqueue_cleanup item id max_attempts now rows =
    if any (is_object item) rows then rows else new_row item id max_attempts now ∷ rows

-- `unique.setdefault(key, item)`: the first item of each object, in order.
unfoldable pub unique_items : List CleanupItem → List CleanupItem
unique_items [] = []
unique_items (item ∷ items) =
    item ∷ select (λ other. not (is_same_object item other)) (unique_items items)

unfoldable pub enqueue_all :
    (CleanupItem → String)
    → ℕ
    → ℕ
    → List CleanupItem
    → List StorageCleanupJobRow
    → List StorageCleanupJobRow
unfolding enqueue_cleanup
enqueue_all id max_attempts now [] rows = rows
enqueue_all id max_attempts now (item ∷ items) rows =
    enqueue_all id max_attempts now items (enqueue_cleanup item (id item) max_attempts now rows)

unfoldable pub enqueue_many :
    (CleanupItem → String)
    → ℕ
    → ℕ
    → List CleanupItem
    → List StorageCleanupJobRow
    → List StorageCleanupJobRow
unfolding enqueue_all unique_items
enqueue_many id max_attempts now items rows =
    enqueue_all id max_attempts now (unique_items items) rows
