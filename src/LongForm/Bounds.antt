-- ===== src/LongForm/Bounds.antt =====
-- The bounds of the windows of long_form.py: of one window while it is filled, and of their number.
use mura_project.Prelude.{
  ℕ, ◌+◌, ◌-◌, max, ◌≤◌, ◌<◌, ◌≡◌, ◌⊎◌, inl, inr, refl, false, List, [], ◌∷◌, ◌++◌, length,
  length-append, length-drop, is_empty, Bool-cases, All, arith,
}
use mura_project.LongForm.Tokens.{Platform, estimate_tokens}
use mura_project.LongForm.Segments.{RawSegment, LongFormPolicy, total_tokens}
use mura_project.LongForm.Groups.{is_boundary, overlap_of, group_segments}

module _ {Seconds : Type 0} (os : Platform Seconds) (policy : LongFormPolicy Seconds) where
  total_tokens-append :
      (xs ys : List (RawSegment Seconds))
      → total_tokens os (xs ++ ys) ≡ total_tokens os xs + total_tokens os ys
  total_tokens-append [] ys = omega arith
  total_tokens-append (x ∷ xs) ys = omega (arith, total_tokens-append xs ys)

  length-overlap_of :
      (current : List (RawSegment Seconds)) (s : RawSegment Seconds)
      → length (overlap_of os policy current s) ≤ policy.overlap_segments
  unfolding overlap_of
  length-overlap_of current s =
      ground (arith, length-drop (length current - policy.overlap_segments) current)

  -- A window as it is filled: it is within the limit of tokens, or it holds one segment after the overlap;
  -- and it has no more segments than the target, or than that.
  pub record IsFitting (group : List (RawSegment Seconds)) : Type 0 where
    pub tokens :
        (total_tokens os group ≤ policy.maximum_window_tokens)
        ⊎ (length group ≤ policy.overlap_segments + 1)
    pub segments :
        length group ≤ max policy.target_segments_per_window (policy.overlap_segments + 1)

  fresh-IsFitting :
      (overlap : List (RawSegment Seconds)) (s : RawSegment Seconds)
      → length overlap ≤ policy.overlap_segments
      → IsFitting (overlap ++ s ∷ [])
  fresh-IsFitting overlap s h =
      let n : length (overlap ++ s ∷ []) ≤ policy.overlap_segments + 1 =
        omega (arith, length-append overlap (s ∷ [])) in
      record { tokens = inr n; segments = omega arith }

  filled-IsFitting :
      (current : List (RawSegment Seconds)) (s : RawSegment Seconds)
      → is_boundary os policy current (total_tokens os current) s ≡ false
      → IsFitting (current ++ s ∷ [])
  unfolding is_boundary
  filled-IsFitting [] s h = fresh-IsFitting [] s (omega arith)
  filled-IsFitting (c ∷ cs) s h =
      let few : total_tokens os (c ∷ cs) + estimate_tokens os s.text
          ≤ policy.maximum_window_tokens =
        ground arith in
      let short : length (c ∷ cs) < policy.target_segments_per_window = ground arith in
      record {
        tokens = inl (omega (arith, total_tokens-append (c ∷ cs) (s ∷ [])));
        segments = omega (arith, length-append (c ∷ cs) (s ∷ []));
      }

  group_segments-IsFitting :
      (current : List (RawSegment Seconds)) (tokens : ℕ) (segments : List (RawSegment Seconds))
      → tokens ≡ total_tokens os current
      → IsFitting current
      → All IsFitting (group_segments os policy current tokens segments)
  unfolding group_segments
  group_segments-IsFitting current tokens [] e fits = elim (Bool-cases (is_empty current)) [
    | inl none ↦ rw none tt
    | inr some ↦ rw some (fits, tt)
  ]
  group_segments-IsFitting current tokens (s ∷ segments) e fits =
      let overlap : List (RawSegment Seconds) = overlap_of os policy current s in
      elim (Bool-cases (is_boundary os policy current tokens s)) [
        | inl ends ↦ rw ends (
          fits,
          group_segments-IsFitting (overlap ++ s ∷ [])
              (total_tokens os overlap + estimate_tokens os s.text) segments
              (omega (arith, total_tokens-append overlap (s ∷ [])))
              (fresh-IsFitting overlap s (length-overlap_of current s)),
        )
        | inr goes ↦ rw goes (
            group_segments-IsFitting (current ++ s ∷ []) (tokens + estimate_tokens os s.text)
              segments (omega (arith, total_tokens-append current (s ∷ [])))
              (filled-IsFitting current s (rw e at goes)))
      ]

  -- Before they are merged, every window is within the limit of tokens or holds at most one segment after the
  -- overlap, and no window has more segments than the target or, if that is more, than one
  -- after the overlap.
  pub group_segments_bounds :
      (segments : List (RawSegment Seconds))
      → All IsFitting (group_segments os policy [] 0 segments)
  group_segments_bounds segments =
      group_segments-IsFitting [] 0 segments refl
        (record { tokens = inl (omega arith); segments = omega arith })
