-- ===== src/Quotas/Checks.antt =====
-- `check_creation_allowed` of `BookQuotaService` and `RecordingQuotaService` in mura/quotas.py. A check
-- answers the error that it raises, or none. Spans of audio are milliseconds, instants microseconds.
use mura_project.Prelude.{
  ℕ, ◌+◌, String, Bool, true, false, ◌&&◌, not, Option, none, some, List, leb, ltb, or_else,
  holds_text, str_eq, if◌then◌else◌, sum_where, count_where, any,
}
use mura_project.Recordings.Rows as R
use mura_project.Recordings.Rows.{RecordingRow, ProcessingJobRow}
use mura_project.Books.Rows.{BookRow, is_terminal_book}
use mura_project.Budget.Reservations.{Ledger, check_budget_available, is_recent}

pub data Refusal : Type 0 where
  value_error authentication_required family_not_found : Refusal
  book_generation_already_active book_daily_limit_reached : Refusal
  global_ai_cost_budget_exceeded recording_audio_too_long : Refusal
  recording_concurrency_limit_reached recording_family_daily_limit_reached : Refusal
  recording_user_daily_limit_reached family_audio_storage_limit_reached : Refusal
  recording_user_audio_budget_exceeded recording_family_audio_budget_exceeded : Refusal

-- `if test: raise refusal`
abbrev pub refuse_if : Bool → Refusal → Option Refusal → Option Refusal
refuse_if test refusal rest = if test then some refusal else rest

-- The ids of the families and users that exist.
abbrev pub exists_id : String → List String → Bool
exists_id id ids = any (λ i. str_eq i id) ids

pub record BookSettings : Type 0 where
  pub book_max_active_per_family : ℕ
  pub book_max_created_per_family_per_day : ℕ
  -- none where the settings have no such attribute
  pub global_ai_cost_usd_per_day : Option ℕ

unfoldable pub active_books : String → List BookRow → ℕ
active_books family_id =
    count_where (λ b. str_eq b.family_id family_id && not (is_terminal_book b.status))

unfoldable pub daily_books : String → ℕ → List BookRow → ℕ
daily_books family_id now =
    count_where (λ b. str_eq b.family_id family_id && is_recent now b.created_at)

abbrev pub over_budget : Option ℕ → ℕ → Ledger → Bool
over_budget none now l = false
over_budget (some budget) now l = not (check_budget_available budget 0 now l)

unfoldable pub book_check :
    String → BookSettings → ℕ → List String → List BookRow → Ledger → Option Refusal
unfolding active_books daily_books
book_check family_id settings now families books ledger =
    refuse_if (not (exists_id family_id families)) family_not_found (
      refuse_if (leb settings.book_max_active_per_family (active_books family_id books))
        book_generation_already_active
        (refuse_if
          (leb settings.book_max_created_per_family_per_day (daily_books family_id now books))
          book_daily_limit_reached
          (refuse_if (over_budget settings.global_ai_cost_usd_per_day now ledger)
            global_ai_cost_budget_exceeded none)))

-- An integer of Python, over the native numbers.
pub data ℤ : Type 0 where
  pos negsuc : ℕ → ℤ

abbrev pub is_negative : ℤ → Bool
is_negative (pos n) = false
is_negative (negsuc n) = true

-- Its value, once it is known not to be negative.
abbrev pub to_ℕ : ℤ → ℕ
to_ℕ (pos n) = n
to_ℕ (negsuc n) = 0

pub record RecordingSettings : Type 0 where
  pub recording_max_audio_seconds : ℕ
  pub recording_max_active_per_family : ℕ
  pub recording_max_created_per_family_per_day : ℕ
  pub recording_max_created_per_user_per_day : ℕ
  pub family_max_audio_storage_bytes : ℕ
  pub user_audio_seconds_per_day : ℕ
  pub family_audio_seconds_per_day : ℕ

-- The job of a recording of the family that has not ended.
abbrev pub is_active : String → List RecordingRow → ProcessingJobRow → Bool
is_active family_id recordings job =
    any (λ r. str_eq r.recording_id job.recording_id && str_eq r.family_id family_id) recordings
    && not (R.is_terminal job.status)

unfoldable pub active_recordings : String → List RecordingRow → List ProcessingJobRow → ℕ
active_recordings family_id recordings = count_where (is_active family_id recordings)

abbrev pub of_family_today : String → ℕ → RecordingRow → Bool
of_family_today family_id now r = str_eq r.family_id family_id && is_recent now r.created_at

abbrev pub of_user_today : String → ℕ → RecordingRow → Bool
of_user_today user_id now r = holds_text r.created_by_user_id user_id && is_recent now r.created_at

unfoldable pub family_daily : String → ℕ → List RecordingRow → ℕ
family_daily family_id now = count_where (of_family_today family_id now)

unfoldable pub user_daily : String → ℕ → List RecordingRow → ℕ
user_daily user_id now = count_where (of_user_today user_id now)

unfoldable pub stored_bytes : String → List RecordingRow → ℕ
stored_bytes family_id =
    sum_where (λ r. str_eq r.family_id family_id) (λ r. or_else r.audio_size_bytes 0)

unfoldable pub user_audio : String → ℕ → List RecordingRow → ℕ
user_audio user_id now = sum_where (of_user_today user_id now) (λ r. or_else r.audio_duration_ms 0)

unfoldable pub family_audio : String → ℕ → List RecordingRow → ℕ
family_audio family_id now =
    sum_where (of_family_today family_id now) (λ r. or_else r.audio_duration_ms 0)

-- The checks that are made only of a duration that is known.
abbrev pub duration_check :
    String → String → Option ℤ → RecordingSettings → ℕ → List RecordingRow → Option Refusal
duration_check family_id user_id none settings now recordings = none
duration_check family_id user_id (some d) settings now recordings =
    refuse_if (ltb settings.user_audio_seconds_per_day (user_audio user_id now recordings + to_ℕ d))
      recording_user_audio_budget_exceeded
      (refuse_if
        (ltb settings.family_audio_seconds_per_day (family_audio family_id now recordings + to_ℕ d))
        recording_family_audio_budget_exceeded none)

abbrev pub is_negative_duration : Option ℤ → Bool
is_negative_duration none = false
is_negative_duration (some d) = is_negative d

abbrev pub is_too_long : ℕ → Option ℤ → Bool
is_too_long limit none = false
is_too_long limit (some d) = ltb limit (to_ℕ d)

unfoldable pub recording_check :
    String
    → String
    → ℤ
    → Option ℤ
    → RecordingSettings
    → ℕ
    → List String
    → List String
    → List RecordingRow
    → List ProcessingJobRow
    → Option Refusal
unfolding active_recordings family_daily user_daily stored_bytes user_audio family_audio
recording_check family_id user_id size duration s now users families recordings jobs =
    refuse_if (is_negative size) value_error (
      refuse_if (is_negative_duration duration) value_error (
        refuse_if (is_too_long s.recording_max_audio_seconds duration) recording_audio_too_long (
          refuse_if (not (exists_id user_id users)) authentication_required (
            refuse_if (not (exists_id family_id families)) family_not_found (
              refuse_if
                (leb s.recording_max_active_per_family
                  (active_recordings family_id recordings jobs))
                recording_concurrency_limit_reached
                (refuse_if
                  (leb s.recording_max_created_per_family_per_day
                    (family_daily family_id now recordings))
                  recording_family_daily_limit_reached
                  (refuse_if
                    (leb s.recording_max_created_per_user_per_day
                      (user_daily user_id now recordings))
                    recording_user_daily_limit_reached
                    (refuse_if
                      (ltb s.family_max_audio_storage_bytes
                        (stored_bytes family_id recordings + to_ℕ size))
                      family_audio_storage_limit_reached
                      (duration_check family_id user_id duration s now recordings)))))))))
