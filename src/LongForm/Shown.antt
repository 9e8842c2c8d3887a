-- ===== src/LongForm/Shown.antt =====
-- What long_form.py shows of a transcript: all of it on the short path, and of a segment that a window holds
-- in several pieces the last one.
use mathlib.Core.Option
use mura_project.Prelude.{
  ◌≡◌, refl, ap, String, true, false, none, some, List, [], ◌∷◌, ◌++◌, map, any, All, All-map,
  Bool-cases, inl, inr, arith, str_eq, eq_refl, is_empty,
}
use mura_project.Prelude.Table.{find, HasUniqueKeys}
use mura_project.LongForm.Tokens.{Text, Platform}
use mura_project.LongForm.Segments.{RawSegment, TranscriptEnvelope, LongFormPolicy, text_eq}
use mura_project.LongForm.Windows.{
  SegmentSlice, TranscriptWindow, find_last, segment_key, unique_texts, slice_of, slices_of, window,
  reasons_of, plan_windows, plan, plan_of,
}
use mura_project.LongForm.Materialize.{
  slice_key, cut, cut_by, materialize_segment, materialize_segments, with_segments,
  materialize_window, find_last-append,
}

text_eq_refl : (t : Text) → text_eq t t ≡ true
text_eq_refl [] = refl
text_eq_refl (c ∷ t) = ground (arith, text_eq_refl t)

module _ {A : Type 0} (key : A → String) where
  none-All :
      (k : String) (xs : List A) → find key k xs ≡ none → All (λ y. str_eq (key y) k ≡ false) xs
  unfolding find
  none-All k [] h = tt
  none-All k (x ∷ xs) h = elim (Bool-cases (str_eq (key x) k)) [
    | inl e ↦ absurd (ground arith)
    | inr e ↦ (e, none-All k xs (rw e at h))
  ]

  find_last-none :
      (k : String) (xs : List A)
      → All (λ y. str_eq (key y) k ≡ false) xs
      → find_last key k xs ≡ none
  unfolding find_last
  find_last-none k [] h = refl
  find_last-none k (x ∷ xs) h = rw (find_last-none k xs h.1, h.0)

  -- With unique keys every entry is found under its key.
  find_last-own :
      (xs : List A) → HasUniqueKeys key xs → All (λ x. find_last key (key x) xs ≡ some x) xs
  unfolding find_last
  find_last-own [] u = tt
  find_last-own (x ∷ xs) u = (
    rw (find_last-none (key x) xs (none-All (key x) xs u.0), eq_refl (key x)),
    All-map (λ y h. rw h) xs (find_last-own xs u.1),
  )

  unique_texts-keys :
      (seen : List String) (xs : List A)
      → HasUniqueKeys key xs
      → All (λ x. any (str_eq (key x)) seen ≡ false) xs
      → unique_texts seen (map key xs) ≡ map key xs
  unfolding unique_texts
  unique_texts-keys seen [] u h = refl
  unique_texts-keys seen (x ∷ xs) u h = rw h.0 (
      ap (λ r. key x ∷ r)
        (unique_texts-keys (key x ∷ seen) xs u.1 (both xs (none-All (key x) xs u.0) h.1)))
    where
      both :
          (ys : List A)
          → All (λ y. str_eq (key y) (key x) ≡ false) ys
          → All (λ y. any (str_eq (key y)) seen ≡ false) ys
          → All (λ y. any (str_eq (key y)) (key x ∷ seen) ≡ false) ys
      both [] p q = tt
      both (y ∷ ys) p q = (rw (p.0, q.0), both ys p.1 q.1)

  nothing_seen : (xs : List A) → All (λ x. any (str_eq (key x)) [] ≡ false) xs
  nothing_seen [] = tt
  nothing_seen (x ∷ xs) = (refl, nothing_seen xs)

module _ {Seconds : Type 0} (os : Platform Seconds) (policy : LongFormPolicy Seconds) where
  slice_of-whole :
      (segments : List (RawSegment Seconds)) (s : RawSegment Seconds)
      → find_last segment_key s.segment_id segments ≡ some s
      → slice_of segments s ≡ []
  unfolding slice_of
  slice_of-whole segments s h = rw (h, slice_of) (rw (text_eq_refl s.text))

  slices_of-whole :
      (segments pieces : List (RawSegment Seconds))
      → All (λ s. find_last segment_key s.segment_id segments ≡ some s) pieces
      → slices_of segments pieces ≡ []
  unfolding slices_of
  slices_of-whole segments [] h = refl
  slices_of-whole segments (s ∷ pieces) h =
      rw (slice_of-whole segments s h.0) (slices_of-whole segments pieces h.1)

  materialize_segments-whole :
      (segments pieces : List (RawSegment Seconds))
      → All (λ s. find_last segment_key s.segment_id segments ≡ some s) pieces
      → materialize_segments os policy segments [] (map segment_key pieces) ≡ some pieces
  unfolding materialize_segments materialize_segment cut_by find_last Option.bind
  materialize_segments-whole segments [] h = refl
  materialize_segments-whole segments (s ∷ pieces) h =
      rw (h.0, materialize_segments-whole segments pieces h.1)

  whole_window :
      (transcript : TranscriptEnvelope Seconds)
      → is_empty transcript.segments ≡ false
      → (w : TranscriptWindow Seconds) × (window os policy transcript 1 transcript.segments []
            "short_path"
          ≡ some w)
        × (w.source_segment_ids ≡ unique_texts [] (map segment_key transcript.segments))
        × (w.segment_slices ≡ slices_of transcript.segments transcript.segments)
  unfolding window
  whole_window transcript full = go transcript.segments full
    where
      go :
          (segments : List (RawSegment Seconds))
          → is_empty segments ≡ false
          → (w : TranscriptWindow Seconds) × (window os policy transcript 1 segments [] "short_path"
              ≡ some w)
            × (w.source_segment_ids ≡ unique_texts [] (map segment_key segments))
            × (w.segment_slices ≡ slices_of transcript.segments segments)
      go [] h = absurd (ground arith)
      go (s ∷ segments) h = (_, refl, refl, refl)

  segments-with_segments :
      (transcript : TranscriptEnvelope Seconds) (segments : List (RawSegment Seconds))
      → is_empty segments ≡ false
      → Option.map
          (λ (t : TranscriptEnvelope Seconds). t.segments)
          (with_segments os policy transcript segments)
        ≡ some segments
  unfolding with_segments
  segments-with_segments transcript [] h = absurd (ground arith)
  segments-with_segments transcript (s ∷ segments) h = refl

  -- A transcript that has no reason against a single pass gets one window, and the model is then shown exactly
  -- its segments.
  pub plan-materialize_window :
      (transcript : TranscriptEnvelope Seconds)
      → is_empty transcript.segments ≡ false
      → HasUniqueKeys segment_key transcript.segments
      → reasons_of os policy transcript ≡ []
      → (w : TranscriptWindow Seconds) × (plan os policy transcript
          ≡ some (plan_of os policy transcript [] (w ∷ [])))
        × (Option.map
              (λ (t : TranscriptEnvelope Seconds). t.segments)
              (materialize_window os policy transcript w)
            ≡ some transcript.segments)
  unfolding plan plan_windows materialize_window Option.bind
  plan-materialize_window transcript full unique few =
      let segments : List (RawSegment Seconds) = transcript.segments in
      let (w, e, ids, slices) = whole_window transcript full in
      let own : All (λ s. find_last segment_key s.segment_id segments ≡ some s) segments =
        find_last-own segment_key segments unique in
      (
        w,
        rw (few, e),
        rw
            (
              slices,
              slices_of-whole segments segments own,
              ids,
              unique_texts-keys segment_key [] segments unique (nothing_seen segment_key segments),
              materialize_segments-whole segments segments own,
            )
            (segments-with_segments transcript segments full),
      )

  -- Where a window has several slices of a segment, the model is shown the last of them only: the piece that
  -- an earlier slice names is missing from what it reads.
  pub materialize_segment-last :
      (segments : List (RawSegment Seconds)) (original : RawSegment Seconds)
      (earlier later : List SegmentSlice) (a : SegmentSlice) (k : String)
      → find_last segment_key k segments ≡ some original
      → str_eq a.segment_id k ≡ true
      → All (λ (s : SegmentSlice). str_eq s.segment_id k ≡ false) later
      → materialize_segment os policy segments (earlier ++ (a ∷ later)) k
        ≡ some (cut os policy a original)
  unfolding materialize_segment cut_by
  materialize_segment-last segments original earlier later a k e h rest =
      rw (e, find_last-append slice_key k earlier a later h rest)
