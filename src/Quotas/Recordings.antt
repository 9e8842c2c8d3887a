-- ===== src/Quotas/Recordings.antt =====
-- The quota of recordings (mura/quotas.py) and the creation that it guards (storage/database.py).
use mathlib.Core.Option
use mura_project.Prelude.{
  ℕ, ◌+◌, ◌≤◌, ◌<◌, ◌≡◌, refl, String, true, false, Option, none, some, List, [], ◌∷◌, any,
  count_where, arith, str_eq, eq_iff, ok, subst,
}
use mura_project.Recordings.Rows.{RecordingRow, ProcessingJobRow, Database}
use mura_project.Recordings.Scope.{new_job, create_recording_and_job}
use mura_project.Quotas.Checks.{
  ℤ, to_ℕ, is_negative, is_negative_duration, is_too_long, RecordingSettings, exists_id, is_active,
  active_recordings, family_daily, user_daily, stored_bytes, user_audio, family_audio,
  recording_check,
}

abbrev pub WithinAudio : ℕ → Option ℤ → ℕ → Type 0
WithinAudio used none limit = Unit
WithinAudio used (some d) limit = used + to_ℕ d ≤ limit

-- The seconds of audio are limited for a recording that comes with a duration.
abbrev pub AudioWithin : Option ℤ → ℕ → ℕ → Type 0
AudioWithin none used limit = Unit
AudioWithin (some d) used limit = used ≤ limit

-- Every condition of the check.
pub record IsAllowed (family_id user_id : String) (size : ℤ) (duration : Option ℤ)
    (s : RecordingSettings) (now : ℕ) (users families : List String)
    (recordings : List RecordingRow) (jobs : List ProcessingJobRow) : Type 0 where
  pub size_given : is_negative size ≡ false
  pub duration_given : is_negative_duration duration ≡ false
  pub short : is_too_long s.recording_max_audio_seconds duration ≡ false
  pub user : exists_id user_id users ≡ true
  pub family : exists_id family_id families ≡ true
  pub active : active_recordings family_id recordings jobs < s.recording_max_active_per_family
  pub of_family : family_daily family_id now recordings < s.recording_max_created_per_family_per_day
  pub of_user : user_daily user_id now recordings < s.recording_max_created_per_user_per_day
  pub storage : stored_bytes family_id recordings + to_ℕ size ≤ s.family_max_audio_storage_bytes
  pub user_seconds :
      WithinAudio (user_audio user_id now recordings) duration s.user_audio_seconds_per_day
  pub family_seconds :
      WithinAudio (family_audio family_id now recordings) duration s.family_audio_seconds_per_day

module _ (family_id user_id : String) (size : ℤ) (s : RecordingSettings) (now : ℕ)
    (users families : List String) (recordings : List RecordingRow)
    (jobs : List ProcessingJobRow) where
  allowed :
      (duration : Option ℤ)
      → recording_check family_id user_id size duration s now users families recordings jobs ≡ none
      → IsAllowed family_id user_id size duration s now users families recordings jobs
  unfolding recording_check
  allowed none h = record {
    size_given = ground arith;
    duration_given = refl;
    short = refl;
    user = ground arith;
    family = ground arith;
    active = ground arith;
    of_family = ground arith;
    of_user = ground arith;
    storage = ground arith;
    user_seconds = tt;
    family_seconds = tt;
  }
  allowed (some d) h = record {
    size_given = ground arith;
    duration_given = ground arith;
    short = ground arith;
    user = ground arith;
    family = ground arith;
    active = ground arith;
    of_family = ground arith;
    of_user = ground arith;
    storage = ground arith;
    user_seconds = ground arith;
    family_seconds = ground arith;
  }

  checked :
      (duration : Option ℤ)
      → IsAllowed family_id user_id size duration s now users families recordings jobs
      → recording_check family_id user_id size duration s now users families recordings jobs ≡ none
  unfolding recording_check
  checked none a = ground arith
  checked (some d) a = ground arith

-- The row that is created after the check: its family, user, size, duration and instant.
pub record IsNew (family_id user_id : String) (size : ℤ) (duration : Option ℤ) (now : ℕ)
    (row : RecordingRow) : Type 0 where
  pub family : row.family_id ≡ family_id
  pub user : row.created_by_user_id ≡ some user_id
  pub size_stored : row.audio_size_bytes ≡ some (to_ℕ size)
  pub duration_stored : row.audio_duration_ms ≡ Option.map to_ℕ duration
  pub instant : row.created_at ≡ now

-- What the family and the user have after the creation.
pub record WithinLimits (family_id user_id : String) (duration : Option ℤ) (s : RecordingSettings)
    (now : ℕ) (recordings : List RecordingRow) (jobs : List ProcessingJobRow) : Type 0 where
  pub active : active_recordings family_id recordings jobs ≤ s.recording_max_active_per_family
  pub of_family : family_daily family_id now recordings ≤ s.recording_max_created_per_family_per_day
  pub of_user : user_daily user_id now recordings ≤ s.recording_max_created_per_user_per_day
  pub storage : stored_bytes family_id recordings ≤ s.family_max_audio_storage_bytes
  pub user_seconds :
      AudioWithin duration (user_audio user_id now recordings) s.user_audio_seconds_per_day
  pub family_seconds :
      AudioWithin duration (family_audio family_id now recordings) s.family_audio_seconds_per_day

-- A recording that no job has counts for none.
active-other :
    (family_id : String) (row : RecordingRow) (recordings : List RecordingRow)
    (jobs : List ProcessingJobRow)
    → any (λ r. str_eq r.recording_id row.recording_id) jobs ≡ false
    → count_where (is_active family_id (row ∷ recordings)) jobs
      ≡ count_where (is_active family_id recordings) jobs
active-other family_id row recordings [] h = refl
active-other family_id row recordings (j ∷ jobs) h = ground (
  arith,
  active-other family_id row recordings jobs,
  eq_iff row.recording_id j.recording_id,
  eq_iff j.recording_id row.recording_id,
)

active_recordings-create :
    (family_id job_id : String) (now : ℕ) (row : RecordingRow) (recordings : List RecordingRow)
    (jobs : List ProcessingJobRow)
    → any (λ r. str_eq r.recording_id row.recording_id) jobs ≡ false
    → active_recordings family_id (row ∷ recordings) (new_job job_id row.recording_id now ∷ jobs)
      ≤ active_recordings family_id recordings jobs + 1
unfolding active_recordings new_job
active_recordings-create family_id job_id now row recordings jobs h =
    ground (arith, active-other family_id row recordings jobs h)

module _ (family_id user_id : String) (size : ℤ) (now : ℕ) (row : RecordingRow)
    (recordings : List RecordingRow) where
  counts-create :
      (duration : Option ℤ)
      → IsNew family_id user_id size duration now row
      → (family_daily family_id now (row ∷ recordings) ≤ family_daily family_id now recordings + 1)
        × (user_daily user_id now (row ∷ recordings) ≤ user_daily user_id now recordings + 1)
        × (stored_bytes family_id (row ∷ recordings)
            ≤ stored_bytes family_id recordings + to_ℕ size)
  unfolding family_daily user_daily stored_bytes
  counts-create duration n = (ground arith, ground arith, rw n.size_stored (ground arith))

  audio-create :
      (d : ℤ)
      → IsNew family_id user_id size (some d) now row
      → (user_audio user_id now (row ∷ recordings) ≤ user_audio user_id now recordings + to_ℕ d)
        × (family_audio family_id now (row ∷ recordings)
            ≤ family_audio family_id now recordings + to_ℕ d)
  unfolding user_audio family_audio
  audio-create d n = (rw n.duration_stored (ground arith), rw n.duration_stored (ground arith))

created-WithinLimits :
    (family_id user_id job_id : String) (size : ℤ) (duration : Option ℤ) (s : RecordingSettings)
    (now : ℕ) (users families : List String) (row : RecordingRow) (recordings : List RecordingRow)
    (jobs : List ProcessingJobRow)
    → IsAllowed family_id user_id size duration s now users families recordings jobs
    → IsNew family_id user_id size duration now row
    → any (λ r. str_eq r.recording_id row.recording_id) jobs ≡ false
    → WithinLimits family_id user_id duration s now
        (row ∷ recordings)
        (new_job job_id row.recording_id now ∷ jobs)
created-WithinLimits family_id user_id job_id size duration s now users families row recordings jobs
      a n h =
    let (f, u, b) = counts-create family_id user_id size now row recordings duration n in
    record {
      active =
          omega
            (arith, active_recordings-create family_id job_id now row recordings jobs h, a.active);
      of_family = omega (arith, f, a.of_family);
      of_user = omega (arith, u, a.of_user);
      storage = omega (arith, b, a.storage);
      user_seconds = user_within duration a n;
      family_seconds = family_within duration a n;
    }
  where
    user_within :
        (d : Option ℤ)
        → IsAllowed family_id user_id size d s now users families recordings jobs
        → IsNew family_id user_id size d now row
        → AudioWithin d (user_audio user_id now (row ∷ recordings)) s.user_audio_seconds_per_day
    user_within none a n = tt
    user_within (some d) a n =
        omega
          (arith, (audio-create family_id user_id size now row recordings d n).0, a.user_seconds)

    family_within :
        (d : Option ℤ)
        → IsAllowed family_id user_id size d s now users families recordings jobs
        → IsNew family_id user_id size d now row
        → AudioWithin d
            (family_audio family_id now (row ∷ recordings))
            s.family_audio_seconds_per_day
    family_within none a n = tt
    family_within (some d) a n =
        omega
          (arith, (audio-create family_id user_id size now row recordings d n).1, a.family_seconds)

created :
    (row : RecordingRow) (job_id : String) (now : ℕ) (db db' : Database)
    → create_recording_and_job row job_id now db ≡ ok db'
    → (any (λ r. str_eq r.recording_id row.recording_id) db.jobs ≡ false)
      × (record db {
        recordings = row ∷ db.recordings;
        jobs = new_job job_id row.recording_id now ∷ db.jobs;
      }
          ≡ db')
unfolding create_recording_and_job
created row job_id now db db' h = (ground arith, ground arith)

-- If the check passes, then the size and the duration are not negative, the duration is within the limit
-- of one recording, the user and the family exist, and the jobs in progress, the recordings of the day,
-- the stored bytes and the seconds of audio leave room for the recording. If the recording that was
-- checked is then created in the same transaction, the family and the user are within every limit.
pub recording_check-keeps_limits :
    (family_id user_id job_id : String) (size : ℤ) (duration : Option ℤ) (s : RecordingSettings)
    (now : ℕ) (users families : List String) (row : RecordingRow) (db db' : Database)
    → IsNew family_id user_id size duration now row
    → recording_check family_id user_id size duration s now users families db.recordings db.jobs
      ≡ none
    → create_recording_and_job row job_id now db ≡ ok db'
    → IsAllowed family_id user_id size duration s now users families db.recordings db.jobs
      × WithinLimits family_id user_id duration s now db'.recordings db'.jobs
recording_check-keeps_limits family_id user_id job_id size duration s now users families row db db'
      n h c =
    let (fresh, same) = created row job_id now db db' c in
    let a : IsAllowed family_id user_id size duration s now users families db.recordings db.jobs =
      allowed family_id user_id size s now users families db.recordings db.jobs duration h in
    (
      a,
      subst (λ (d : Database). WithinLimits family_id user_id duration s now d.recordings d.jobs)
          same
          (created-WithinLimits family_id user_id job_id size duration s now users families row
            db.recordings db.jobs a n fresh),
    )
