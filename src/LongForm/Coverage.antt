-- ===== src/LongForm/Coverage.antt =====
-- No piece is lost between the expansion of long_form.py and the groups that become windows.
use mura_project.Prelude.{
  ℕ, zero, suc, ◌+◌, ◌≡◌, ◌∙◌, refl, ap, String, Bool, true, ◌||◌, List, [], ◌∷◌, ◌++◌, ltb, length,
  any, any-append, Bool-cases, inl, inr, arith, eq_iff,
}
use mura_project.LongForm.Tokens.{Text, Platform, estimate_tokens}
use mura_project.LongForm.Segments.{
  RawSegment, LongFormPolicy, text_eq, is_same_piece, total_tokens,
}
use mura_project.LongForm.Groups.{
  is_boundary, overlap_of, group_segments, unique_segments, merge_index, merge_at, merge_rounds,
  coalesce_to_budget,
}

text_eq→eq : (s t : Text) → text_eq s t ≡ true → s ≡ t
text_eq→eq [] [] h = refl
text_eq→eq [] (d ∷ t) h = absurd (ground arith)
text_eq→eq (c ∷ s) [] h = absurd (ground arith)
text_eq→eq (c ∷ s) (d ∷ t) h =
    let first : c ≡ d = ground arith in
    let rest : text_eq s t ≡ true = ground arith in
    ap (λ k. k ∷ s) first ∙ ap (λ r. d ∷ r) (text_eq→eq s t rest)

module _ {Seconds : Type 0} (f : String → Text → Bool) where
  -- A test that reads the id and the text of a piece.
  abbrev pub holds : RawSegment Seconds → Bool
  holds r = f r.segment_id r.text

  holds-same : (r s : RawSegment Seconds) → is_same_piece r s ≡ true → holds r ≡ holds s
  holds-same r s h =
      let ids : r.segment_id ≡ s.segment_id = (eq_iff r.segment_id s.segment_id).0 (ground arith) in
      let texts : r.text ≡ s.text = text_eq→eq r.text s.text (ground arith) in
      ap (λ k. f k r.text) ids ∙ ap (λ t. f s.segment_id t) texts

  holds_of_seen :
      (r : RawSegment Seconds) (seen : List (RawSegment Seconds))
      → any (is_same_piece r) seen ≡ true
      → holds r ≡ true
      → any holds seen ≡ true
  holds_of_seen r [] h k = h
  holds_of_seen r (s ∷ seen) h k = elim (Bool-cases (is_same_piece r s)) [
    | inl same ↦ ground (arith, holds-same r s same)
    | inr other ↦ ground (arith, holds_of_seen r seen (rw other at h) k)
  ]

  any-unique_segments :
      (seen segments : List (RawSegment Seconds))
      → (any holds seen || any holds (unique_segments seen segments))
        ≡ (any holds seen || any holds segments)
  unfolding unique_segments
  any-unique_segments seen [] = refl
  any-unique_segments seen (s ∷ segments) = elim (Bool-cases (any (is_same_piece s) seen)) [
    | inl old ↦ rw old (ground (arith, any-unique_segments seen segments, holds_of_seen s seen old))
    | inr new ↦ rw new (ground (arith, any-unique_segments (s ∷ seen) segments))
  ]

  any-merge_at :
      (i : ℕ) (groups : List (List (RawSegment Seconds)))
      → any (any holds) (merge_at i groups) ≡ any (any holds) groups
  unfolding merge_at
  any-merge_at i [] = refl
  any-merge_at i (g ∷ []) = refl
  any-merge_at zero (g ∷ h ∷ groups) =
      ground (arith, any-unique_segments [] (g ++ h), any-append holds g h)
  any-merge_at (suc i) (g ∷ h ∷ groups) = ap (λ b. any holds g || b) (any-merge_at i (h ∷ groups))

  module _ (os : Platform Seconds) (policy : LongFormPolicy Seconds) where
    any-merge_rounds :
        (rounds : ℕ) (groups : List (List (RawSegment Seconds)))
        → any (any holds) (merge_rounds os policy rounds groups) ≡ any (any holds) groups
    unfolding merge_rounds
    any-merge_rounds zero groups = refl
    any-merge_rounds (suc rounds) groups =
        elim (Bool-cases (ltb policy.maximum_windows (length groups))) [
          | inl many ↦ rw many (
              any-merge_rounds rounds (merge_at (merge_index os policy groups) groups)
              ∙ any-merge_at (merge_index os policy groups) groups)
          | inr fits ↦ rw fits
        ]

    any-group_segments :
        (current : List (RawSegment Seconds)) (tokens : ℕ) (segments : List (RawSegment Seconds))
        → (any holds current || any holds segments) ≡ true
        → any (any holds) (group_segments os policy current tokens segments) ≡ true
    unfolding group_segments
    any-group_segments [] tokens [] h = h
    any-group_segments (c ∷ cs) tokens [] h = h
    any-group_segments current tokens (s ∷ segments) h =
        elim (Bool-cases (is_boundary os policy current tokens s)) [
          | inl ends ↦
              let overlap : List (RawSegment Seconds) = overlap_of os policy current s in
              rw ends (
                ground (
                  arith,
                  any-append holds overlap (s ∷ []),
                  any-group_segments (overlap ++ s ∷ [])
                      (total_tokens os overlap + estimate_tokens os s.text) segments,
                ))
          | inr goes ↦ rw goes (
              any-group_segments (current ++ s ∷ []) (tokens + estimate_tokens os s.text) segments
                (rw (any-append holds current (s ∷ [])) (ground arith)))
        ]

    -- Whatever test on the id and the text of a piece holds of one of the pieces holds of one in the groups, after
    -- the grouping and the merging: no piece is dropped.
    pub any-coalesce_to_budget :
        (segments : List (RawSegment Seconds))
        → any holds segments ≡ true
        → any (any holds) (coalesce_to_budget os policy (group_segments os policy [] 0 segments))
          ≡ true
    unfolding coalesce_to_budget
    any-coalesce_to_budget segments h =
        let groups : List (List (RawSegment Seconds)) = group_segments os policy [] 0 segments in
        any-merge_rounds (length groups) groups ∙ any-group_segments [] 0 segments h
