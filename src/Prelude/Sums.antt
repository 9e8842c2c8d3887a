-- ===== src/Prelude/Sums.antt =====
-- Sums over the rows of a table, before and after a write to it.
use mura_project.Prelude.Tests.{if◌then◌else◌, Bool-cases}
use mura_project.Prelude.Lists.{sum_where}
use mura_project.Prelude.Table.{find, modify}
use Prim.Native.Nat.{ℕ, ◌+◌}
use Prim.Native.String.{String}
use mathlib.Core.Path.{◌≡◌, refl}
use mathlib.Core.Logic.{inl, inr}
use mathlib.Core.Bool.{Bool}
use mathlib.Core.Option.{some}
use mathlib.Core.List.{List, [], ◌∷◌, map}
use native.Mathlib.Omega.{arith}
use text.Mathlib.Text.{◌==◌}

-- What one row adds to `sum_where p f`.
abbrev pub part {ℓ} : {A : Type ℓ} → (A → Bool) → (A → ℕ) → A → ℕ
part p f x = if p x then f x else 0

module _ {ℓ} {A : Type ℓ} (p : A → Bool) (f : A → ℕ) where
  pub sum_where-modify :
      (key : A → String) (k : String) (g : A → A) (xs : List A) {r : A}
      → find key k xs ≡ some r
      → sum_where p f (modify key k g xs) + part p f r ≡ sum_where p f xs + part p f (g r)
  unfolding find modify
  sum_where-modify key k g [] h = absurd (cc)
  sum_where-modify key k g (x ∷ xs) {r} h = elim (Bool-cases (key x == k)) [
    | inl e ↦ let same : x ≡ r = ground arith in rw (e, ← same) (omega arith)
    | inr e ↦
        let rest : sum_where p f (modify key k g xs) + part p f r
            ≡ sum_where p f xs + part p f (g r) =
          sum_where-modify key k g xs (rw e at h) in
        rw e (omega arith)
  ]

  -- A write to every row that changes what no row adds.
  pub sum_where-map :
      (g : A → A) (xs : List A)
      → ((x : A) → part p f (g x) ≡ part p f x)
      → sum_where p f (map g xs) ≡ sum_where p f xs
  sum_where-map g [] h = refl
  sum_where-map g (x ∷ xs) h = omega (arith, h x, sum_where-map g xs h)
