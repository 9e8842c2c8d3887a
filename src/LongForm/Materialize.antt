-- ===== src/LongForm/Materialize.antt =====
-- `materialize_window` of long_form.py: what the language model is shown of a window.
use mathlib.Core.Option
use mura_project.Prelude.{
  ℕ, ◌≡◌, refl, String, true, false, Option, none, some, List, [], ◌∷◌, ◌++◌, map, length, slice,
  All, str_eq,
}
use mura_project.LongForm.Tokens.{Text, Platform}
use mura_project.LongForm.Segments.{RawSegment, TranscriptEnvelope, LongFormPolicy}
use mura_project.LongForm.Windows.{SegmentSlice, TranscriptWindow, find_last, segment_key, latest}

abbrev pub slice_key : SegmentSlice → String
slice_key s = s.segment_id

-- `" ".join(texts)`
abbrev pub join_spaced : List Text → Text
join_spaced [] = []
join_spaced (t ∷ []) = t
join_spaced (t ∷ u ∷ texts) = t ++ (32 ∷ join_spaced (u ∷ texts))

module _ {Seconds : Type 0} (os : Platform Seconds) (policy : LongFormPolicy Seconds) where
  -- The part of the segment that a slice names, with its times.
  unfoldable pub cut : SegmentSlice → RawSegment Seconds → RawSegment Seconds
  cut s original =
      let duration = os.minus original.end original.start in
      let instant =
        λ (c : ℕ). os.plus original.start (os.times duration (os.ratio c (length original.text))) in
      record original {
        start = instant s.start_char;
        end = instant s.end_char;
        text = slice s.start_char s.end_char original.text;
      }

  unfoldable pub cut_by : Option SegmentSlice → RawSegment Seconds → RawSegment Seconds
  unfolding cut
  cut_by none original = original
  cut_by (some s) original = cut s original

  -- One round of the loop; `none` for a `KeyError`.
  unfoldable pub materialize_segment :
      List (RawSegment Seconds) → List SegmentSlice → String → Option (RawSegment Seconds)
  unfolding cut_by find_last
  materialize_segment segments slices k =
      Option.map (cut_by (find_last slice_key k slices)) (find_last segment_key k segments)

  unfoldable pub materialize_segments :
      List (RawSegment Seconds)
      → List SegmentSlice
      → List String
      → Option (List (RawSegment Seconds))
  unfolding materialize_segment Option.bind
  materialize_segments segments slices [] = some []
  materialize_segments segments slices (k ∷ ids) =
      Option.bind (materialize_segment segments slices k)
        (λ s. Option.map (λ rest. s ∷ rest) (materialize_segments segments slices ids))

  -- The transcript that is left, where there is a segment; `none` where `max` raises.
  unfoldable pub with_segments :
      TranscriptEnvelope Seconds → List (RawSegment Seconds) → Option (TranscriptEnvelope Seconds)
  with_segments transcript [] = none
  with_segments transcript (s ∷ segments) = some (record transcript {
    duration_seconds = latest os policy s.end segments;
    full_text = join_spaced (map (λ (r : RawSegment Seconds). r.text) (s ∷ segments));
    segments = s ∷ segments;
  })

  unfoldable pub materialize_window :
      TranscriptEnvelope Seconds → TranscriptWindow Seconds → Option (TranscriptEnvelope Seconds)
  unfolding materialize_segments with_segments Option.bind
  materialize_window transcript w =
      Option.bind (materialize_segments transcript.segments w.segment_slices w.source_segment_ids)
        (with_segments transcript)

-- The dictionary holds the last entry of a key.
pub find_last-append :
    {A : Type 0} (key : A → String) (k : String) (xs : List A) (a : A) (ys : List A)
    → str_eq (key a) k ≡ true
    → All (λ y. str_eq (key y) k ≡ false) ys
    → find_last key k (xs ++ (a ∷ ys)) ≡ some a
unfolding find_last
find_last-append key k [] a ys e h = rw (none_of ys h, e)
  where
    none_of : (zs : List _) → All (λ y. str_eq (key y) k ≡ false) zs → find_last key k zs ≡ none
    none_of [] h = refl
    none_of (z ∷ zs) h = rw (none_of zs h.1, h.0)
find_last-append key k (x ∷ xs) a ys e h = rw (find_last-append key k xs a ys e h)
