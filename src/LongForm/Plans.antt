-- ===== src/LongForm/Plans.antt =====
-- The plan of long_form.py: when there is one, that it is within the budget, and that it shows every segment.
use mathlib.Core.Option
use mura_project.Prelude.{◌≡◌, String, Bool, false, List, is_empty, any, All, str_eq}
use mura_project.LongForm.Segments.{RawSegment}
use mura_project.LongForm.Windows.{TranscriptWindow}

module _ {Seconds : Type 0} where
  -- Whether a piece belongs to the segment with the id, and whether a window shows that segment.
  abbrev pub belongs : String → RawSegment Seconds → Bool
  belongs k s = str_eq k s.segment_id

  abbrev pub shows : String → TranscriptWindow Seconds → Bool
  shows k w = any (str_eq k) w.source_segment_ids

  abbrev AreFull : List (List (RawSegment Seconds)) → Type 0
  AreFull = All (λ g. is_empty g ≡ false)
