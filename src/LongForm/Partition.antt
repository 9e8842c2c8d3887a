-- ===== src/LongForm/Partition.antt =====
-- `_bounded_clause_slices` ends, and its slices are a partition of the text.
use mura_project.Prelude.{
  subst, ℕ, zero, suc, ◌+◌, ◌-◌, min, max, ◌≤◌, ◌<◌, ◌≡◌, ◌∙◌, refl, sym, ap, Bool, some, List, [],
  ◌∷◌, ◌++◌, map, flatten, ltb, length, select, slice, drop, take-drop, drop-drop, Bool-cases, inl,
  inr, All, arith,
}
use mura_project.LongForm.Tokens.{Text}
use mura_project.LongForm.Slices.{
  count_up, nearest, distance, is_mark_at, boundary_after, slice_loop, ceil_div,
  bounded_clause_slices, slice_count,
}

abbrev Between : ℕ → ℕ → ℕ → Type 0
Between lo hi i = (lo ≤ i) × (i < hi)

count_up-Between : (n lo : ℕ) → All (Between lo (lo + n)) (count_up n lo)
unfolding count_up
count_up-Between n lo = go n lo lo (omega arith)
  where
    go : (m from low : ℕ) → low ≤ from → All (Between low (from + m)) (count_up m from)
    go zero from low h = tt
    go (suc m) from low h =
        let e : from + 1 + m ≡ from + suc m = omega arith in
        (
          (h, omega arith),
          subst (λ top. All (Between low top) (count_up m (from + 1))) e
              (go m (from + 1) low (omega arith)),
        )

select-All : (P : ℕ → Type 0) (p : ℕ → Bool) (xs : List ℕ) → All P xs → All P (select p xs)
select-All P p [] h = tt
select-All P p (x ∷ xs) h = elim (Bool-cases (p x)) [
  | inl e ↦ rw e (h.0, select-All P p xs h.1)
  | inr e ↦ rw e (select-All P p xs h.1)
]

nearest-All :
    (P : ℕ → Type 0) (cursor best : ℕ) (xs : List ℕ)
    → P best
    → All P xs
    → P (nearest cursor best xs)
unfolding nearest
nearest-All P cursor best [] b h = b
nearest-All P cursor best (x ∷ xs) b h =
    elim (Bool-cases (ltb (distance x cursor) (distance best cursor))) [
      | inl e ↦ rw e (nearest-All P cursor x xs h.0 h.1)
      | inr e ↦ rw e (nearest-All P cursor best xs b h.1)
    ]

boundary_bounds :
    (text : Text) (last cursor : ℕ)
    → last < cursor
    → cursor < length text
    → (last < boundary_after text last cursor) × (boundary_after text last cursor ≤ length text)
unfolding boundary_after
boundary_bounds text last cursor low high =
    let lo : ℕ = max (last + 1) (cursor - 80) in
    let hi : ℕ = min (length text) (cursor + 80) in
    chosen (select (is_mark_at text) (count_up (hi - lo) lo))
      (select-All _ (is_mark_at text) (count_up (hi - lo) lo) (count_up-Between (hi - lo) lo))
  where
    chosen :
        (candidates : List ℕ)
        → All
            (Between (max (last + 1) (cursor - 80)) (
              max (last + 1) (cursor - 80)
              + (min (length text) (cursor + 80) - max (last + 1) (cursor - 80))))
            candidates
        → (last < (elim candidates [ [] ↦ cursor | i ∷ rest ↦ nearest cursor i rest + 1 ]))
          × ((elim candidates [ [] ↦ cursor | i ∷ rest ↦ nearest cursor i rest + 1 ]) ≤ length text)
    chosen [] h = (low, omega arith)
    chosen (i ∷ rest) h =
        let (below, above) = nearest-All _ cursor i rest h.0 h.1 in (omega arith, omega arith)

-- Neighbouring intervals from `a` to `b`, none of them empty.
abbrev pub IsPartition : ℕ → ℕ → List (ℕ × ℕ) → Type 0
IsPartition a b [] = a ≡ b
IsPartition a b ((s, t) ∷ rest) = (s ≡ a) × (s < t) × IsPartition t b rest

slice_loop-IsPartition :
    (text : Text) (target fuel last : ℕ)
    → 0 < target
    → last ≤ length text
    → length text - last < fuel
    → (slices : List (ℕ × ℕ)) × (slice_loop text target fuel last ≡ some slices)
      × IsPartition last (length text) slices
unfolding slice_loop
slice_loop-IsPartition text target zero last pos within enough = absurd (omega arith)
slice_loop-IsPartition text target (suc fuel) last pos within enough =
    elim (Bool-cases (ltb (last + target) (length text))) [
      | inl more ↦
          let (low, high) =
            boundary_bounds text last (last + target) (omega arith) (ground arith) in
          let b : ℕ = boundary_after text last (last + target) in
          let (slices, e, p) = slice_loop-IsPartition text target fuel b pos high (omega arith) in
          ((last, b) ∷ slices, rw (more, e), (refl, low, p))
      | inr done ↦ elim (Bool-cases (ltb last (length text))) [
        | inl left ↦ ((last, length text) ∷ [], rw (done, left), (refl, ground arith, refl))
        | inr all ↦ ([], rw (done, all), ground arith)
      ]
    ]

pub ceil_div-pos : (a b : ℕ) → 0 < a → 0 < b → 0 < ceil_div a b
ceil_div-pos a b h k = grind arith

-- The search for clause boundaries ends on every text, and its slices are neighbours, not empty, and cover
-- the text from its first to its last character.
pub bounded_clause_slices-IsPartition :
    (text : Text) (slice_count : ℕ)
    → 0 < length text
    → 0 < slice_count
    → (slices : List (ℕ × ℕ)) × (bounded_clause_slices text slice_count ≡ some slices)
      × IsPartition 0 (length text) slices
unfolding bounded_clause_slices
bounded_clause_slices-IsPartition text slice_count some_text some_slices =
    slice_loop-IsPartition text (ceil_div (length text) slice_count) (suc (length text)) 0
      (ceil_div-pos (length text) slice_count some_text some_slices) (omega arith) (omega arith)

IsPartition-le : (a b : ℕ) (slices : List (ℕ × ℕ)) → IsPartition a b slices → a ≤ b
IsPartition-le a b [] e = omega arith
IsPartition-le a b ((s, t) ∷ rest) (e, lt, p) = omega (arith, IsPartition-le t b rest p)

drop_all : (xs : Text) (n : ℕ) → length xs ≤ n → drop n xs ≡ []
drop_all [] zero h = refl
drop_all [] (suc n) h = refl
drop_all (x ∷ xs) zero h = absurd (omega arith)
drop_all (x ∷ xs) (suc n) h = drop_all xs n (omega arith)

-- The slices of a partition spell the rest of the text.
pub flatten-slices :
    (text : Text) (a : ℕ) (slices : List (ℕ × ℕ))
    → IsPartition a (length text) slices
    → flatten (map (λ (p : ℕ × ℕ). slice p.0 p.1 text) slices) ≡ drop a text
unfolding flatten
flatten-slices text a [] p = sym (drop_all text a (omega arith))
flatten-slices text a ((s, t) ∷ rest) (e, lt, p) =
    let whole : s + (t - s) ≡ t = omega arith in
    let tail : drop (t - s) (drop s text) ≡ drop t text =
      drop-drop (t - s) s text ∙ ap (λ n. drop n text) whole in
    ap (λ r. slice s t text ++ r) (flatten-slices text t rest p ∙ sym tail)
    ∙ take-drop (t - s) (drop s text)
    ∙ ap (λ n. drop n text) e
