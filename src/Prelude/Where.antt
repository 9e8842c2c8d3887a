-- ===== src/Prelude/Where.antt =====
-- A write to the first row of a condition that a unique constraint keys, and what lookups see of it.
use mathlib.Core.Option
use mura_project.Prelude.Tests.{if◌then◌else◌, Bool-cases, is_some}
use mura_project.Prelude.Lists.{All, any, count_where}
use Prim.Native.Nat.{ℕ, ◌+◌}
use mura_project.Prelude.Table.{find_where}
use mathlib.Core.Path.{◌≡◌, refl}
use mathlib.Core.Logic.{inl, inr}
use mathlib.Core.Bool.{Bool, true, false}
use mathlib.Core.Option.{Option, none, some}
use mathlib.Core.List.{List, [], ◌∷◌}
use native.Mathlib.Omega.{arith}

unfoldable pub modify_where {ℓ} : {A : Type ℓ} → (A → Bool) → (A → A) → List A → List A
modify_where p f [] = []
modify_where p f (x ∷ xs) = if p x then f x ∷ xs else x ∷ modify_where p f xs

-- `existing is None`: insert, else overwrite.
unfoldable pub upsert {ℓ} : {A : Type ℓ} → (A → Bool) → A → (A → A) → List A → List A
unfolding modify_where
upsert p new f rows = if any p rows then modify_where p f rows else new ∷ rows

-- What a lookup of the key shows after an `upsert`.
abbrev pub written {ℓ} : {A : Type ℓ} → A → (A → A) → Option A → A
written new f none = new
written new f (some x) = f x

module _ {ℓ} {A : Type ℓ} (p : A → Bool) (f : A → A) where
  pub find_where-modify_where :
      (xs : List A)
      → ((x : A) → p x ≡ true → p (f x) ≡ true)
      → find_where p (modify_where p f xs) ≡ Option.map f (find_where p xs)
  unfolding find_where modify_where
  find_where-modify_where [] keep = refl
  find_where-modify_where (x ∷ xs) keep = elim (Bool-cases (p x)) [
    | inl e ↦ ground (arith, keep x e)
    | inr e ↦ ground (arith, find_where-modify_where xs keep)
  ]

  pub find_where-modify_where_ne :
      (q : A → Bool) (xs : List A)
      → ((x : A) → p x ≡ true → (q x ≡ false) × (q (f x) ≡ false))
      → find_where q (modify_where p f xs) ≡ find_where q xs
  unfolding find_where modify_where
  find_where-modify_where_ne q [] ne = refl
  find_where-modify_where_ne q (x ∷ xs) ne = elim (Bool-cases (p x)) [
    | inl e ↦ ground (arith, (ne x e).0, (ne x e).1)
    | inr e ↦ ground (arith, find_where-modify_where_ne q xs ne)
  ]

  pub any-find_where : (xs : List A) → any p xs ≡ is_some (find_where p xs)
  unfolding find_where
  any-find_where [] = refl
  any-find_where (x ∷ xs) = ground (arith, any-find_where xs)

  find_where-absent : (xs : List A) → any p xs ≡ false → find_where p xs ≡ none
  unfolding find_where
  find_where-absent [] h = refl
  find_where-absent (x ∷ xs) h = ground (arith, find_where-absent xs)

  pub find_where-upsert :
      (new : A) (xs : List A)
      → p new ≡ true
      → ((x : A) → p x ≡ true → p (f x) ≡ true)
      → find_where p (upsert p new f xs) ≡ some (written new f (find_where p xs))
  unfolding upsert find_where
  find_where-upsert new xs n keep = elim (Bool-cases (any p xs)) [
    | inl e ↦ ground (arith, find_where-modify_where xs keep, any-find_where xs)
    | inr e ↦ ground (arith, find_where-absent xs e)
  ]

  pub find_where-upsert_ne :
      (new : A) (q : A → Bool) (xs : List A)
      → q new ≡ false
      → ((x : A) → p x ≡ true → (q x ≡ false) × (q (f x) ≡ false))
      → find_where q (upsert p new f xs) ≡ find_where q xs
  unfolding upsert find_where
  find_where-upsert_ne new q xs n ne = elim (Bool-cases (any p xs)) [
    | inl e ↦ ground (arith, find_where-modify_where_ne q xs ne)
    | inr e ↦ ground arith
  ]

  -- A property of every row survives.
  pub All-modify_where {κ} :
      (P : A → Type κ) (xs : List A)
      → ((x : A) → p x ≡ true → P x → P (f x))
      → All P xs
      → All P (modify_where p f xs)
  unfolding modify_where
  All-modify_where P [] keep h = tt
  All-modify_where P (x ∷ xs) keep h = elim (Bool-cases (p x)) [
    | inl e ↦ rw e (keep x e h.0, h.1)
    | inr e ↦ rw e (h.0, All-modify_where P xs keep h.1)
  ]

-- `session.delete` of the first row of a condition.
unfoldable pub remove_where {ℓ} : {A : Type ℓ} → (A → Bool) → List A → List A
remove_where p [] = []
remove_where p (x ∷ xs) = if p x then xs else x ∷ remove_where p xs

-- 1 for a row that is counted.
abbrev pub one_if : Bool → ℕ
one_if b = if b then 1 else 0

module _ {ℓ} {A : Type ℓ} (p q : A → Bool) where
  pub count_where-remove_where :
      (xs : List A) {x : A}
      → find_where p xs ≡ some x
      → count_where q (remove_where p xs) + one_if (q x) ≡ count_where q xs
  unfolding find_where remove_where
  count_where-remove_where [] h = absurd (cc)
  count_where-remove_where (y ∷ xs) {x} h = elim (Bool-cases (p y)) [
    | inl e ↦ let same : y ≡ x = ground arith in rw (e, ← same) (ground arith)
    | inr e ↦
        let rest : count_where q (remove_where p xs) + one_if (q x) ≡ count_where q xs =
          count_where-remove_where xs (rw e at h) in
        rw e (ground arith)
  ]

  pub count_where-modify_where :
      (f : A → A) (xs : List A) {x : A}
      → find_where p xs ≡ some x
      → count_where q (modify_where p f xs) + one_if (q x) ≡ count_where q xs + one_if (q (f x))
  unfolding find_where modify_where
  count_where-modify_where f [] h = absurd (cc)
  count_where-modify_where f (y ∷ xs) {x} h = elim (Bool-cases (p y)) [
    | inl e ↦ let same : y ≡ x = ground arith in rw (e, ← same) (ground arith)
    | inr e ↦
        let rest : count_where q (modify_where p f xs) + one_if (q x)
            ≡ count_where q xs + one_if (q (f x)) =
          count_where-modify_where f xs (rw e at h) in
        rw e (ground arith)
  ]
