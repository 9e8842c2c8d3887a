-- ===== src/LongForm/Groups.antt =====
-- The grouping of pieces into windows, and `_coalesce_to_budget`, of long_form.py.
use mura_project.Prelude.{
  ℕ, zero, suc, ◌+◌, Bool, false, ◌&&◌, ◌||◌, not, Option, none, some, List, [], ◌∷◌, ◌++◌,
  if◌then◌else◌, ltb, leb, ◌==◌, length, suffix, last, is_empty, any, str_eq,
}
use mura_project.LongForm.Tokens.{Platform, estimate_tokens}
use mura_project.LongForm.Segments.{RawSegment, LongFormPolicy, is_same_piece, total_tokens}

-- `min(range(...), key=...)`: the first index of a least value, from the best one so far
unfoldable pub least_index : ℕ → ℕ → ℕ → List ℕ → ℕ
least_index best value i [] = best
least_index best value i (v ∷ values) =
    let better = ltb v value in
    least_index (if better then i else best) (if better then v else value) (i + 1) values

module _ {Seconds : Type 0} where
  -- `_unique_segments`, with the pieces seen so far
  unfoldable pub unique_segments :
      List (RawSegment Seconds) → List (RawSegment Seconds) → List (RawSegment Seconds)
  unique_segments seen [] = []
  unique_segments seen (s ∷ segments) =
      let old = any (is_same_piece s) seen in
      let rest = unique_segments (if old then seen else s ∷ seen) segments in
      if old then rest else s ∷ rest

  -- `groups[i : i + 2] = [list(_unique_segments(merged))]`
  unfoldable pub merge_at : ℕ → List (List (RawSegment Seconds)) → List (List (RawSegment Seconds))
  unfolding unique_segments
  merge_at i [] = []
  merge_at i (g ∷ []) = g ∷ []
  merge_at zero (g ∷ h ∷ groups) = unique_segments [] (g ++ h) ∷ groups
  merge_at (suc i) (g ∷ h ∷ groups) = g ∷ merge_at i (h ∷ groups)

module _ {Seconds : Type 0} (os : Platform Seconds) (policy : LongFormPolicy Seconds) where
  -- `current[-1].segment_id == segment.segment_id`
  abbrev pub is_repeated : Option (RawSegment Seconds) → RawSegment Seconds → Bool
  is_repeated none segment = false
  is_repeated (some before) segment = str_eq before.segment_id segment.segment_id

  abbrev pub is_after_pause : Option (RawSegment Seconds) → RawSegment Seconds → Bool
  is_after_pause none segment = false
  is_after_pause (some before) segment =
      os.is_at_least (os.minus segment.start before.end) policy.pause_boundary_seconds

  -- `would_exceed or pause_boundary`
  unfoldable pub is_boundary : List (RawSegment Seconds) → ℕ → RawSegment Seconds → Bool
  is_boundary current current_tokens segment =
      not (is_empty current)
      && (ltb policy.maximum_window_tokens (current_tokens + estimate_tokens os segment.text)
          || leb policy.target_segments_per_window (length current)
          || is_repeated (last current) segment
          || (is_after_pause (last current) segment
              && leb policy.minimum_window_tokens current_tokens))

  -- What the next window starts with.
  unfoldable pub overlap_of :
      List (RawSegment Seconds) → RawSegment Seconds → List (RawSegment Seconds)
  overlap_of current segment =
      if not (policy.overlap_segments == 0) && not (is_repeated (last current) segment)
      then suffix policy.overlap_segments current
      else []

  -- The loop over the segments, with its variables `current` and `current_tokens`.
  unfoldable pub group_segments :
      List (RawSegment Seconds) → ℕ → List (RawSegment Seconds) → List (List (RawSegment Seconds))
  unfolding is_boundary overlap_of
  group_segments current current_tokens [] = if is_empty current then [] else current ∷ []
  group_segments current current_tokens (segment ∷ segments) =
      let ends = is_boundary current current_tokens segment in
      let overlap = overlap_of current segment in
      let kept = if ends then overlap else current in
      let kept_tokens = if ends then total_tokens os overlap else current_tokens in
      let rest =
        group_segments (kept ++ segment ∷ []) (kept_tokens + estimate_tokens os segment.text)
          segments in
      if ends then current ∷ rest else rest

  -- The tokens of each group with the next one.
  unfoldable pub pair_tokens : List (List (RawSegment Seconds)) → List ℕ
  pair_tokens [] = []
  pair_tokens (g ∷ []) = []
  pair_tokens (g ∷ h ∷ groups) = (total_tokens os g + total_tokens os h) ∷ pair_tokens (h ∷ groups)

  unfoldable pub merge_index : List (List (RawSegment Seconds)) → ℕ
  unfolding pair_tokens least_index
  merge_index groups = elim (pair_tokens groups) [ [] ↦ 0 | v ∷ values ↦ least_index 0 v 1 values ]

  -- The while loop, for at most the given number of rounds.
  unfoldable pub merge_rounds :
      ℕ → List (List (RawSegment Seconds)) → List (List (RawSegment Seconds))
  unfolding merge_at merge_index
  merge_rounds zero groups = groups
  merge_rounds (suc rounds) groups =
      let rest = merge_rounds rounds (merge_at (merge_index groups) groups) in
      if ltb policy.maximum_windows (length groups) then rest else groups

  unfoldable pub coalesce_to_budget :
      List (List (RawSegment Seconds)) → List (List (RawSegment Seconds))
  unfolding merge_rounds
  coalesce_to_budget groups = merge_rounds (length groups) groups
