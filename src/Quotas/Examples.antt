-- ===== src/Quotas/Examples.antt =====
-- The theorems about the quotas at small tables, and tests by evaluation.
use mura_project.Budget.Reservations.{check_budget_available}
use mura_project.Prelude.Table.{find}
use mura_project.Prelude.{◌≤◌, ◌≡◌, refl, some, none, [], ◌∷◌, String, List}
use mura_project.Books.Rows as B
use mura_project.Books.Rows.{BookSourceSnapshotRow}
use mura_project.Books.Repository.{BookRequest, create_queued_book}
use mura_project.Recordings.Rows as R
use mura_project.Recordings.Rows.{RecordingRow}
use mura_project.Recordings.Scope.{new_job, create_recording_and_job}
use mura_project.Budget.Reservations.{Ledger}
use mura_project.Quotas.Checks.{
  BookSettings, active_books, daily_books, book_check, pos, negsuc, value_error, RecordingSettings,
  recording_check,
}
use mura_project.Quotas.Books as BookQuota
use mura_project.Quotas.Books.{book_check-keeps_limits}
use mura_project.Quotas.Recordings.{IsAllowed, IsNew, WithinLimits, recording_check-keeps_limits}

abbrev request : BookRequest
request = record {
  family_id = "f1";
  created_by_user_id = "u1";
  title = "t";
  subtitle = none;
  output_language = "ru";
  target_word_count = 25000;
  supersedes_book_id = none;
  source_snapshot_version = 1;
}

abbrev snapshot : String → BookSourceSnapshotRow
snapshot book_id = record {
  snapshot_id = "s1";
  book_id = book_id;
  family_id = "f1";
  compiler_version = "v1";
  content_hash = "h";
  payload = "{}";
  manifest = "{}";
  source_recording_count = 1;
  source_story_count = 1;
  source_claim_count = 1;
  created_at = 10;
}

abbrev book_settings : BookSettings
book_settings = record {
  book_max_active_per_family = 1;
  book_max_created_per_family_per_day = 3;
  global_ai_cost_usd_per_day = some 25000000;
}

abbrev ledger : Ledger
ledger = record { reservations = []; events = [] }

abbrev no_books : B.Database
no_books = record {
  books = [];
  jobs = [];
  snapshots = [];
  plans = [];
  chapters = [];
  continuity = [];
  exports = [];
  cleanup = [];
}

abbrev families : List String
families = "f1" ∷ []

abbrev users : List String
users = "u1" ∷ []

book_check-keeps_limits_example :
    let db' = create_queued_book request "b1" "j1" snapshot 10 no_books in
    BookQuota.IsAllowed "f1" book_settings 10 families [] ledger
    × (active_books "f1" db'.books ≤ 1)
    × (daily_books "f1" 10 db'.books ≤ 3)
unfolding book_check check_budget_available
book_check-keeps_limits_example =
    book_check-keeps_limits request "b1" "j1" snapshot book_settings 10 families no_books ledger
      refl

abbrev recording : RecordingRow
recording = record {
  recording_id = "rec_1";
  family_id = "f1";
  created_by_user_id = some "u1";
  speaker_id = "s";
  speaker_name = "Апа";
  original_filename = "a.ogg";
  content_type = none;
  audio_path = "a";
  storage_key = none;
  storage_backend = none;
  audio_sha256 = none;
  audio_size_bytes = some 12;
  audio_duration_ms = some 3000;
  audio_mime_type = none;
  audio_language = none;
  output_language = none;
  transcript_preview = none;
  created_at = 10;
}

abbrev settings : RecordingSettings
settings = record {
  recording_max_audio_seconds = 1800000;
  recording_max_active_per_family = 4;
  recording_max_created_per_family_per_day = 100;
  recording_max_created_per_user_per_day = 25;
  family_max_audio_storage_bytes = 10737418240;
  user_audio_seconds_per_day = 3600000;
  family_audio_seconds_per_day = 14400000;
}

abbrev no_recordings : R.Database
no_recordings = record {
  recordings = [];
  jobs = [];
  results = [];
  workers = [];
  traces = [];
  claims = [];
  people = [];
}

abbrev one_recording : R.Database
one_recording = record no_recordings {
  recordings = recording ∷ [];
  jobs = new_job "j1" "rec_1" 10 ∷ [];
}

recording-IsNew : IsNew "f1" "u1" (pos 12) (some (pos 3000)) 10 recording
recording-IsNew = record {
  family = refl;
  user = refl;
  size_stored = refl;
  duration_stored = refl;
  instant = refl;
}

recording_check-keeps_limits_example :
    IsAllowed "f1" "u1" (pos 12) (some (pos 3000)) settings 10 users families [] []
    × WithinLimits "f1" "u1"
        (some (pos 3000))
        settings
        10
        (recording ∷ [])
        (new_job "j1" "rec_1" 10 ∷ [])
unfolding recording_check create_recording_and_job find
recording_check-keeps_limits_example =
    recording_check-keeps_limits "f1" "u1" "j1" (pos 12) (some (pos 3000)) settings 10 users
      families recording no_recordings one_recording recording-IsNew refl refl

refuses_negative_size :
    recording_check "f1" "u1" (negsuc 0) none settings 10 users families [] [] ≡ some value_error
unfolding recording_check
refuses_negative_size = refl

allows_a_first_recording :
    recording_check "f1" "u1" (pos 12) (some (pos 3000)) settings 10 users families [] [] ≡ none
unfolding recording_check
allows_a_first_recording = refl
