-- ===== src/Prelude/Select.antt =====
-- What a bulk deletion by a text column leaves of the rows that are looked up by it.
use mura_project.Prelude.Tests.{if◌then◌else◌}
use mura_project.Prelude.Lists.{select, any}
use mura_project.Prelude.Table.{find, find_where}
use Prim.Native.String.{String}
use mathlib.Core.Path.{◌≡◌, refl}
use mathlib.Core.Bool.{false, not}
use mathlib.Core.Option.{none}
use mathlib.Core.List.{List, [], ◌∷◌}
use native.Mathlib.Omega.{arith}
use text.Mathlib.Text.{◌==◌}
use text.Mathlib.TextEquality.{eq_iff}

module _ {ℓ} {A : Type ℓ} (col : A → String) where
  -- `DELETE ... WHERE col = k`, for a column that is no key
  abbrev pub without : String → List A → List A
  without k xs = select (λ r. not (col r == k)) xs

  pub find_where-without :
      (k j : String) (xs : List A)
      → find_where (λ r. col r == j) (without k xs)
        ≡ (if k == j then none else find_where (λ r. col r == j) xs)
  unfolding find_where
  find_where-without k j [] = ground arith
  find_where-without k j (x ∷ xs) =
      ground (arith, find_where-without k j xs, eq_iff (col x) k, eq_iff (col x) j, eq_iff k j)

  pub find-without :
      (k j : String) (xs : List A)
      → find col j (without k xs) ≡ (if k == j then none else find col j xs)
  unfolding find
  find-without k j [] = ground arith
  find-without k j (x ∷ xs) =
      ground (arith, find-without k j xs, eq_iff (col x) k, eq_iff (col x) j, eq_iff k j)

  pub any-without : (k : String) (xs : List A) → any (λ r. col r == k) (without k xs) ≡ false
  any-without k [] = refl
  any-without k (x ∷ xs) = ground (arith, any-without k xs)

  pub select-without :
      (k j : String) (xs : List A)
      → (k == j) ≡ false
      → select (λ r. col r == j) (without k xs) ≡ select (λ r. col r == j) xs
  select-without k j [] ne = refl
  select-without k j (x ∷ xs) ne =
      ground (arith, select-without k j xs ne, eq_iff (col x) k, eq_iff (col x) j, eq_iff k j)
