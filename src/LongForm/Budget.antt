-- ===== src/LongForm/Budget.antt =====
-- `_coalesce_to_budget` of long_form.py ends within the budget of windows.
use mura_project.Prelude.{
  ℕ, zero, suc, ◌+◌, ◌≤◌, ◌<◌, ◌≡◌, inl, inr, refl, List, [], ◌∷◌, ltb, length, Bool-cases, arith,
}
use mura_project.LongForm.Tokens.{Platform}
use mura_project.LongForm.Segments.{RawSegment, LongFormPolicy, IsValid, total_tokens}
use mura_project.LongForm.Groups.{
  pair_tokens, least_index, merge_index, merge_at, merge_rounds, coalesce_to_budget,
}

least_index-lt :
    (best value i : ℕ) (values : List ℕ)
    → best < i
    → least_index best value i values < i + length values
unfolding least_index
least_index-lt best value i [] h = omega arith
least_index-lt best value i (v ∷ values) h = elim (Bool-cases (ltb v value)) [
  | inl e ↦ rw e (omega (arith, least_index-lt i v (i + 1) values (omega arith)))
  | inr e ↦ rw e (omega (arith, least_index-lt best value (i + 1) values (omega arith)))
]

module _ {Seconds : Type 0} (os : Platform Seconds) (policy : LongFormPolicy Seconds) where
  length-pair_tokens :
      (g : List (RawSegment Seconds)) (groups : List (List (RawSegment Seconds)))
      → length (pair_tokens os policy (g ∷ groups)) ≡ length groups
  unfolding pair_tokens
  length-pair_tokens g [] = refl
  length-pair_tokens g (h ∷ groups) = omega (arith, length-pair_tokens h groups)

  length-merge_at :
      (i : ℕ) (groups : List (List (RawSegment Seconds)))
      → i + 1 < length groups
      → length (merge_at i groups) + 1 ≡ length groups
  unfolding merge_at
  length-merge_at i [] h = absurd (omega arith)
  length-merge_at i (g ∷ []) h = absurd (omega arith)
  length-merge_at zero (g ∷ h ∷ groups) l = omega arith
  length-merge_at (suc i) (g ∷ h ∷ groups) l = omega (arith, length-merge_at i (h ∷ groups))

  merge_index-lt :
      (groups : List (List (RawSegment Seconds)))
      → 1 < length groups
      → merge_index os policy groups + 1 < length groups
  unfolding merge_index pair_tokens
  merge_index-lt [] h = absurd (omega arith)
  merge_index-lt (g ∷ []) h = absurd (omega arith)
  merge_index-lt (g ∷ k ∷ groups) h = omega (
    arith,
    least_index-lt 0 (total_tokens os g + total_tokens os k) 1 (pair_tokens os policy (k ∷ groups))
        (omega arith),
    length-pair_tokens k groups,
  )

  merge_rounds-within :
      (rounds : ℕ) (groups : List (List (RawSegment Seconds)))
      → 1 ≤ policy.maximum_windows
      → length groups ≤ rounds + policy.maximum_windows
      → length (merge_rounds os policy rounds groups) ≤ policy.maximum_windows
  unfolding merge_rounds
  merge_rounds-within zero groups some_windows h = omega arith
  merge_rounds-within (suc rounds) groups some_windows h =
      elim (Bool-cases (ltb policy.maximum_windows (length groups))) [
        | inr fits ↦ rw fits (ground arith)
        | inl many ↦
            let big : policy.maximum_windows < length groups = ground arith in
            let shorter : length (merge_at (merge_index os policy groups) groups) + 1
                ≡ length groups =
              length-merge_at (merge_index os policy groups) groups
                (merge_index-lt groups (omega arith)) in
            rw many (
              merge_rounds-within rounds (merge_at (merge_index os policy groups) groups)
                some_windows (omega arith))
      ]

  -- The merging of neighbouring windows ends with at most as many windows as the policy allows, however many
  -- there were.
  pub coalesce_to_budget_bound :
      (groups : List (List (RawSegment Seconds)))
      → IsValid policy
      → length (coalesce_to_budget os policy groups) ≤ policy.maximum_windows
  unfolding coalesce_to_budget
  coalesce_to_budget_bound groups valid =
      merge_rounds-within (length groups) groups valid.some_windows (omega arith)
