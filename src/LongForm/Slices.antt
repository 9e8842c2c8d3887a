-- ===== src/LongForm/Slices.antt =====
-- `_bounded_clause_slices` and `_expand_oversized_segments` of long_form.py.
use mathlib.Core.Option
use mura_project.Prelude.{
  ℕ, zero, suc, ◌+◌, ◌-◌, ◌/◌, min, max, Bool, String, ◌||◌, Option, none, some, List, [], ◌∷◌,
  ◌++◌, if◌then◌else◌, ltb, leb, ◌==◌, length, select, slice, get_elem?, or_else, is_empty,
}
use mura_project.LongForm.Tokens.{Text, Platform, estimate_tokens}
use mura_project.LongForm.Segments.{RawSegment, LongFormPolicy}

-- a character of `".!?;,:\n"`
abbrev pub is_clause_mark : ℕ → Bool
is_clause_mark c =
    c == b'.' || c == b'!' || c == b'?' || c == b';' || c == b',' || c == b':' || c == 10

abbrev pub is_mark_at : Text → ℕ → Bool
is_mark_at text i = is_clause_mark (or_else (get_elem? text i) 0)

-- `range(lo, lo + n)`
unfoldable pub count_up : ℕ → ℕ → List ℕ
count_up zero lo = []
count_up (suc n) lo = lo ∷ count_up n (lo + 1)

-- `abs(value - cursor)`
abbrev pub distance : ℕ → ℕ → ℕ
distance a b = (a - b) + (b - a)

-- `min(candidates, key=...)`, the first of the nearest
unfoldable pub nearest : ℕ → ℕ → List ℕ → ℕ
nearest cursor best [] = best
nearest cursor best (i ∷ rest) =
    nearest cursor (if ltb (distance i cursor) (distance best cursor) then i else best) rest

-- The end of the slice that starts at `last`.
unfoldable pub boundary_after : Text → ℕ → ℕ → ℕ
unfolding count_up nearest
boundary_after text last cursor =
    let lo = max (last + 1) (cursor - 80) in
    let hi = min (length text) (cursor + 80) in
    elim (select (is_mark_at text) (count_up (hi - lo) lo)) [
      | [] ↦ cursor
      | i ∷ rest ↦ nearest cursor i rest + 1
    ]

-- The loop over the boundaries, as the pairs of neighbours; `none` means that the fuel ran out.
unfoldable pub slice_loop : Text → ℕ → ℕ → ℕ → Option (List (ℕ × ℕ))
slice_loop text target zero last = none
slice_loop text target (suc fuel) last =
    let cursor = last + target in
    let boundary = boundary_after text last cursor in
    let rest = slice_loop text target fuel boundary in
    let final = if ltb last (length text) then (last, length text) ∷ [] else [] in
    if ltb cursor (length text)
    then Option.map (λ slices. (last, boundary) ∷ slices) rest
    else some final

-- `math.ceil(a / b)`
abbrev pub ceil_div : ℕ → ℕ → ℕ
ceil_div a b = (a + b - 1) / b

unfoldable pub bounded_clause_slices : Text → ℕ → Option (List (ℕ × ℕ))
unfolding slice_loop boundary_after
bounded_clause_slices text slice_count =
    slice_loop text (ceil_div (length text) slice_count) (suc (length text)) 0

module _ {Seconds : Type 0} (os : Platform Seconds) where
  -- `RawSegment(...)`: the text is stripped; an empty one, or an end that is not after the start, is refused
  -- with a ValidationError. (The ids come from a segment, whose texts are stripped already.)
  unfoldable pub raw_segment :
      String → Seconds → Seconds → Text → Option String → Option (RawSegment Seconds)
  raw_segment segment_id start end text chunk_id =
      let stripped = os.strip text in
      if is_empty stripped || os.is_at_least start end
      then none
      else some (record {
        segment_id = segment_id;
        start = start;
        end = end;
        text = stripped;
        chunk_id = chunk_id;
      })

  -- `segment.start + duration * fraction`, for the fraction at a character
  abbrev pub instant : RawSegment Seconds → ℕ → Seconds
  instant segment c =
      os.plus segment.start
        (os.times (os.minus segment.end segment.start) (os.ratio c (length segment.text)))

  -- The piece of the segment between two characters.
  unfoldable pub piece_of : RawSegment Seconds → ℕ × ℕ → Option (RawSegment Seconds)
  unfolding raw_segment
  piece_of segment (start_char, end_char) =
      raw_segment segment.segment_id (instant segment start_char) (instant segment end_char)
        (slice start_char end_char segment.text) segment.chunk_id

  -- The loop over the boundaries, which the first refused piece ends.
  unfoldable pub pieces_at : RawSegment Seconds → List (ℕ × ℕ) → Option (List (RawSegment Seconds))
  unfolding piece_of Option.bind
  pieces_at segment [] = some []
  pieces_at segment (boundary ∷ boundaries) =
      Option.bind (piece_of segment boundary)
        (λ piece. Option.map (λ rest. piece ∷ rest) (pieces_at segment boundaries))

module _ {Seconds : Type 0} (os : Platform Seconds) (policy : LongFormPolicy Seconds) where
  unfoldable pub slice_count : RawSegment Seconds → ℕ
  unfolding estimate_tokens
  slice_count segment =
      min policy.maximum_windows
        (ceil_div (estimate_tokens os segment.text) policy.target_window_tokens)

  unfoldable pub pieces_of : RawSegment Seconds → Option (List (RawSegment Seconds))
  unfolding bounded_clause_slices pieces_at slice_count Option.bind
  pieces_of segment =
      if leb (estimate_tokens os segment.text) policy.maximum_window_tokens
      then some (segment ∷ [])
      else Option.bind (bounded_clause_slices segment.text (slice_count segment))
          (pieces_at os segment)

  -- `none`: a piece was refused.
  unfoldable pub expand_oversized_segments :
      List (RawSegment Seconds) → Option (List (RawSegment Seconds))
  unfolding pieces_of Option.bind
  expand_oversized_segments [] = some []
  expand_oversized_segments (segment ∷ segments) =
      Option.bind (pieces_of segment)
        (λ pieces. Option.map (λ rest. pieces ++ rest) (expand_oversized_segments segments))
