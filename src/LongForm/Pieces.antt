-- ===== src/LongForm/Pieces.antt =====
-- `_expand_oversized_segments` of long_form.py: when it succeeds, and what its pieces spell.
use mathlib.Core.List.{append-nil}
use mathlib.Core.Option
use mura_project.Prelude.{
  ℕ, ◌<◌, ◌≡◌, ◌∙◌, refl, sym, ap, Bool, true, false, ◌&&◌, ◌||◌, not, Option, none, some, List, [],
  ◌∷◌, ◌++◌, map, flatten, leb, length, slice, Bool-cases, inl, inr, All, arith, is_empty, any, all,
  select,
}
use mura_project.LongForm.Tokens.{Text, Platform, IsStripping, estimate_tokens}
use mura_project.LongForm.Segments.{RawSegment, LongFormPolicy, IsValid, HasText}
use mura_project.LongForm.Slices.{
  ceil_div, raw_segment, instant, piece_of, pieces_at, slice_count, pieces_of,
  bounded_clause_slices, expand_oversized_segments,
}
use mura_project.LongForm.Partition.{
  ceil_div-pos, IsPartition, flatten-slices, bounded_clause_slices-IsPartition,
}

module _ {Seconds : Type 0} (os : Platform Seconds) where
  -- The characters of a text that are no blanks.
  abbrev pub solid : Text → Text
  solid = select (λ c. not (os.is_blank c))

  abbrev pub text_of : List (RawSegment Seconds) → Text
  text_of pieces = flatten (map (λ (p : RawSegment Seconds). p.text) pieces)

  -- The pieces stand in the order of the segments; those of a segment, at least one, carry its id and spell
  -- its text up to blanks.
  abbrev pub Spells : List (RawSegment Seconds) → List (RawSegment Seconds) → Type 0
  Spells [] out = out ≡ []
  Spells (s ∷ segments) out =
      (pieces : List (RawSegment Seconds)) × (rest : List (RawSegment Seconds)) × (out
        ≡ pieces ++ rest)
      × (is_empty pieces ≡ false)
      × All (λ (p : RawSegment Seconds). (p.segment_id ≡ s.segment_id) × (is_empty p.text ≡ false))
          pieces
      × (solid (text_of pieces) ≡ solid s.text)
      × Spells segments rest

  solid-append : (s t : Text) → solid (s ++ t) ≡ solid s ++ solid t
  solid-append [] t = refl
  solid-append (c ∷ s) t = elim (Bool-cases (os.is_blank c)) [
    | inl b ↦ rw b (solid-append s t)
    | inr b ↦ rw b (ap (λ r. c ∷ r) (solid-append s t))
  ]

  any-solid : (t : Text) → any (λ c. not (os.is_blank c)) t ≡ not (is_empty (solid t))
  any-solid [] = refl
  any-solid (c ∷ t) = elim (Bool-cases (os.is_blank c)) [
    | inl b ↦ rw b (any-solid t)
    | inr b ↦ rw b refl
  ]

  strip-full :
      (t : Text)
      → IsStripping os
      → any (λ c. not (os.is_blank c)) t ≡ true
      → is_empty (os.strip t) ≡ false
  strip-full t stripping h =
      full (os.strip t) (rw (any-solid (os.strip t), stripping.keeps t, sym (any-solid t)) h)
    where
      full : (s : Text) → any (λ c. not (os.is_blank c)) s ≡ true → is_empty s ≡ false
      full [] k = absurd (ground (arith, k))
      full (c ∷ s) k = refl

  -- Whether a piece can be made of the characters: not all are blanks, and their instants increase.
  abbrev pub has_piece : RawSegment Seconds → ℕ × ℕ → Bool
  has_piece s p =
      any (λ c. not (os.is_blank c)) (slice p.0 p.1 s.text)
      && not (os.is_at_least (instant os s p.0) (instant os s p.1))

  pieces_at-Spells :
      (s : RawSegment Seconds) (slices : List (ℕ × ℕ))
      → IsStripping os
      → all (has_piece s) slices ≡ true
      → (pieces : List (RawSegment Seconds)) × (pieces_at os s slices ≡ some pieces)
        × (is_empty pieces ≡ is_empty slices)
        × All
            (λ (p : RawSegment Seconds). (p.segment_id ≡ s.segment_id) × (is_empty p.text ≡ false))
            pieces
        × (solid (text_of pieces)
            ≡ solid (flatten (map (λ (p : ℕ × ℕ). slice p.0 p.1 s.text) slices)))
  unfolding pieces_at piece_of raw_segment Option.bind flatten
  pieces_at-Spells s [] stripping h = ([], refl, refl, tt, refl)
  pieces_at-Spells s ((a, b) ∷ slices) stripping h =
      let here : any (λ c. not (os.is_blank c)) (slice a b s.text) ≡ true = ground arith in
      let later : os.is_at_least (instant os s a) (instant os s b) ≡ false = ground arith in
      let next : all (has_piece s) slices ≡ true = ground arith in
      let full : is_empty (os.strip (slice a b s.text)) ≡ false =
        strip-full (slice a b s.text) stripping here in
      let (pieces, e, n, ids, texts) = pieces_at-Spells s slices stripping next in
      (
        record {
          segment_id = s.segment_id;
          start = instant os s a;
          end = instant os s b;
          text = os.strip (slice a b s.text);
          chunk_id = s.chunk_id;
        }
            ∷ pieces,
        rw (full, later, e) refl,
        refl,
        ((refl, full), ids),
        rw
            (
              solid-append (os.strip (slice a b s.text)) (text_of pieces),
              solid-append (slice a b s.text)
                  (flatten (map (λ (p : ℕ × ℕ). slice p.0 p.1 s.text) slices)),
              stripping.keeps (slice a b s.text),
              texts,
            )
            refl,
      )

abbrev pub each : (ℕ × ℕ → Bool) → Option (List (ℕ × ℕ)) → Bool
each p none = false
each p (some slices) = all p slices

module _ {Seconds : Type 0} (os : Platform Seconds) (policy : LongFormPolicy Seconds) where
  -- Whether the segment fits a window, or all of its slices give pieces.
  abbrev pub is_cuttable : RawSegment Seconds → Bool
  is_cuttable s =
      leb (estimate_tokens os s.text) policy.maximum_window_tokens
      || each (has_piece os s) (bounded_clause_slices s.text (slice_count os policy s))

module _ {Seconds : Type 0} (os : Platform Seconds) (policy : LongFormPolicy Seconds)
    (valid : IsValid policy) where
  slice_count-pos :
      (segment : RawSegment Seconds)
      → leb (estimate_tokens os segment.text) policy.maximum_window_tokens ≡ false
      → 0 < slice_count os policy segment
  unfolding slice_count
  slice_count-pos segment big =
      let some_slices : 0 < ceil_div (estimate_tokens os segment.text) policy.target_window_tokens =
        ceil_div-pos (estimate_tokens os segment.text) policy.target_window_tokens (ground arith)
          (omega (arith, valid.some_tokens)) in
      omega (arith, valid.some_windows)

  pieces_of-Spells :
      (s : RawSegment Seconds)
      → IsStripping os
      → HasText s
      → is_cuttable os policy s ≡ true
      → (pieces : List (RawSegment Seconds)) × (pieces_of os policy s ≡ some pieces)
        × (is_empty pieces ≡ false)
        × All
            (λ (p : RawSegment Seconds). (p.segment_id ≡ s.segment_id) × (is_empty p.text ≡ false))
            pieces
        × (solid os (text_of os pieces) ≡ solid os s.text)
  unfolding pieces_of Option.bind
  pieces_of-Spells s stripping some_text cuts =
      elim (Bool-cases (leb (estimate_tokens os s.text) policy.maximum_window_tokens)) [
        | inl small ↦ (
          s ∷ [],
          rw small refl,
          refl,
          ((refl, some_text), tt),
          unfold flatten in ap (solid os) (append-nil s.text),
        )
        | inr big ↦
            let (slices, e, p) =
              bounded_clause_slices-IsPartition s.text (slice_count os policy s)
                (length-pos s.text some_text) (slice_count-pos s big) in
            let fit : all (has_piece os s) slices ≡ true = rw (big, e) at cuts in
            let (pieces, f, n, ids, texts) = pieces_at-Spells os s slices stripping fit in
            (
              pieces,
              rw (big, e) f,
              n ∙ some_slice (length s.text) slices (length-pos s.text some_text) p,
              ids,
              texts ∙ ap (solid os) (flatten-slices s.text 0 slices p),
            )
      ]
    where
      length-pos : (text : Text) → is_empty text ≡ false → 0 < length text
      length-pos [] h = absurd (ground arith)
      length-pos (c ∷ cs) h = omega arith

      some_slice :
          (n : ℕ) (slices : List (ℕ × ℕ)) → 0 < n → IsPartition 0 n slices → is_empty slices ≡ false
      some_slice n [] pos p = absurd (omega (arith, p))
      some_slice n (x ∷ xs) pos p = refl

  -- Under a valid policy, for segments with text, if the strip takes away blanks only and no slice of a segment
  -- that is too long for a window is blank or has no duration, the expansion succeeds, and its pieces spell
  -- the transcript: in the order of the segments, the pieces of each are not empty, carry its id and together
  -- have all characters of its text that are no blanks, in their order, none lost or doubled.
  pub expand_oversized_segments-Spells :
      (segments : List (RawSegment Seconds))
      → IsStripping os
      → All HasText segments
      → all (is_cuttable os policy) segments ≡ true
      → (out : List (RawSegment Seconds)) × (expand_oversized_segments os policy segments
          ≡ some out)
        × Spells os segments out
  unfolding expand_oversized_segments Option.bind
  expand_oversized_segments-Spells [] stripping h cuts = ([], refl, refl)
  expand_oversized_segments-Spells (s ∷ segments) stripping (h, hs) cuts =
      let first : is_cuttable os policy s ≡ true = and_left (is_cuttable os policy s) _ cuts in
      let others : all (is_cuttable os policy) segments ≡ true =
        and_right (is_cuttable os policy s) _ cuts in
      let (pieces, e, n, ids, texts) = pieces_of-Spells s stripping h first in
      let (rest, f, spelled) = expand_oversized_segments-Spells segments stripping hs others in
      (pieces ++ rest, rw (e, f) refl, (pieces, rest, refl, n, ids, texts, spelled))
    where
      and_left : (a b : Bool) → (a && b) ≡ true → a ≡ true
      and_left a b h = ground arith

      and_right : (a b : Bool) → (a && b) ≡ true → b ≡ true
      and_right a b h = ground arith
