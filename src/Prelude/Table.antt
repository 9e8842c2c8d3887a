-- ===== src/Prelude/Table.antt =====
-- A database table as a list of rows, over the column that is its primary key.
use mathlib.Core.Option
use mura_project.Prelude.Tests.{leb, if◌then◌else◌, Bool-cases, Option-cases}
use mura_project.Prelude.Lists.{All, All-map, any}
use Prim.Native.Nat.{ℕ, ◌≤◌}
use Prim.Native.String.{String}
use mathlib.Core.Path.{◌≡◌, refl, sym, ◌∙◌}
use mathlib.Core.Logic.{◌⊎◌, inl, inr}
use mathlib.Core.Bool.{Bool, true, false, ◌&&◌, false≢true}
use mathlib.Core.Option.{Option, none, some}
use mathlib.Core.List.{List, [], ◌∷◌, Memᴰ}
use native.Mathlib.Omega.{arith}
use text.Mathlib.Text.{◌==◌}
use text.Mathlib.TextEquality.{eq_iff}

module _ {ℓ} {A : Type ℓ} (key : A → String) where
  -- `SELECT ... WHERE key = k`, `session.get`
  unfoldable pub find : String → List A → Option A
  find k [] = none
  find k (x ∷ xs) = if key x == k then some x else find k xs

  -- a write to the row with the key
  unfoldable pub modify : String → (A → A) → List A → List A
  modify k f [] = []
  modify k f (x ∷ xs) = if key x == k then f x ∷ xs else x ∷ modify k f xs

  -- `DELETE ... WHERE key = k`
  unfoldable pub remove : String → List A → List A
  remove k [] = []
  remove k (x ∷ xs) = let rest = remove k xs in if key x == k then rest else x ∷ rest

  -- The primary key: no row has the key of an earlier one.
  abbrev pub HasUniqueKeys : List A → Type ℓ
  HasUniqueKeys [] = Unit
  HasUniqueKeys (x ∷ xs) = (find (key x) xs ≡ none) × HasUniqueKeys xs

  pub find-modify :
      (k j : String) (f : A → A) (xs : List A)
      → ((x : A) → key (f x) ≡ key x)
      → find j (modify k f xs) ≡ (if k == j then Option.map f (find k xs) else find j xs)
  unfolding find modify
  find-modify k j f [] h = ground arith
  find-modify k j f (x ∷ xs) h = ground (
    arith,
    h x,
    find-modify k j f xs h,
    eq_iff (key x) k,
    eq_iff (key x) j,
    eq_iff (key (f x)) j,
    eq_iff k j,
  )

  pub find-modify_self :
      (k : String) (f : A → A) (xs : List A)
      → ((x : A) → key (f x) ≡ key x)
      → find k (modify k f xs) ≡ Option.map f (find k xs)
  find-modify_self k f xs h = ground (arith, find-modify k k f xs h, eq_iff k k)

  pub find-modify_ne :
      (k j : String) (f : A → A) (xs : List A)
      → ((x : A) → key (f x) ≡ key x)
      → (k == j) ≡ false
      → find j (modify k f xs) ≡ find j xs
  find-modify_ne k j f xs h ne = ground (arith, find-modify k j f xs h)

  pub find-remove :
      (k j : String) (xs : List A) → find j (remove k xs) ≡ (if k == j then none else find j xs)
  unfolding find remove
  find-remove k j [] = ground arith
  find-remove k j (x ∷ xs) =
      ground (arith, find-remove k j xs, eq_iff (key x) k, eq_iff (key x) j, eq_iff k j)

  pub key-find : (k : String) (xs : List A) {x : A} → find k xs ≡ some x → key x ≡ k
  unfolding find
  key-find k [] h = cc
  key-find k (y ∷ xs) {x} h = ground (arith, key-find k xs {x = x}, eq_iff (key y) k)

  pub find_of_Mem : (xs : List A) {x : A} → HasUniqueKeys xs → Memᴰ x xs → find (key x) xs ≡ some x
  unfolding find
  find_of_Mem [] u m = elim m [ ]
  find_of_Mem (y ∷ xs) {x} u (Memᴰ.head e) = ground (arith, e, eq_iff (key y) (key x))
  find_of_Mem (y ∷ xs) {x} u (Memᴰ.tail m) =
      ground (arith, find_of_Mem xs u.1 m, u.0, eq_iff (key y) (key x))

-- `SELECT ... WHERE p ORDER BY m LIMIT 1`. SQL leaves open which of several least rows comes
-- first; here it is the first in the table.
module _ {ℓ} {A : Type ℓ} (p : A → Bool) (m : A → ℕ) where
  abbrev pub earlier : A → Option A → Option A
  earlier x none = some x
  earlier x (some y) = if leb (m x) (m y) then some x else some y

  unfoldable pub first_by : List A → Option A
  first_by [] = none
  first_by (x ∷ xs) = let rest = first_by xs in if p x then earlier x rest else rest

  pub first_by-holds : (xs : List A) {x : A} → first_by xs ≡ some x → p x ≡ true
  unfolding first_by
  first_by-holds [] h = cc
  first_by-holds (y ∷ xs) {x} h = elim (Option-cases (first_by xs)) [
    | inl e ↦ ground arith
    | inr (z, e) ↦ ground (arith, first_by-holds xs {x = z} e)
  ]

  pub first_by-mem : (xs : List A) {x : A} → first_by xs ≡ some x → Memᴰ x xs
  unfolding first_by
  first_by-mem [] h = absurd (cc)
  first_by-mem (y ∷ xs) {x} h = elim (came_from (p y) (first_by xs) h) [
    | inl e ↦ Memᴰ.head e
    | inr e ↦ Memᴰ.tail (first_by-mem xs e)
  ]
    where
      came_from :
          (b : Bool) (rest : Option A)
          → (if b then earlier y rest else rest) ≡ some x
          → (x ≡ y) ⊎ (rest ≡ some x)
      came_from b rest e = ground arith

  pub first_by-none : (xs : List A) → first_by xs ≡ none → All (λ y. p y ≡ false) xs
  unfolding first_by
  first_by-none [] h = tt
  first_by-none (y ∷ xs) h = (ground arith, first_by-none xs (ground arith))

  pub first_by-eq-none : (xs : List A) → All (λ y. p y ≡ false) xs → first_by xs ≡ none
  unfolding first_by
  first_by-eq-none [] h = refl
  first_by-eq-none (y ∷ xs) h = rw (h.0, first_by-eq-none xs h.1)

  earlier-le :
      (b : Bool) (y z x : A)
      → (if b then earlier y (some z) else some z) ≡ some x
      → (m x ≤ m z) × (b ≡ true → m x ≤ m y)
  earlier-le b y z x h = ground arith

  -- No row that qualifies comes before the one that is chosen.
  pub first_by-least :
      (xs : List A) {x : A} → first_by xs ≡ some x → All (λ y. p y ≡ true → m x ≤ m y) xs
  unfolding first_by
  first_by-least [] h = tt
  first_by-least (y ∷ xs) {x} h = elim (Option-cases (first_by xs)) [
    | inl e ↦ (
      λ py. ground arith,
      All-map (λ w pf pt. absurd (false≢true (sym pf ∙ pt))) xs (first_by-none xs e),
    )
    | inr (z, e) ↦
        let (lez, ley) = earlier-le (p y) y z x (rw e at h) in
        (ley, All-map (λ w f pt. omega (arith, f pt)) xs (first_by-least xs {x = z} e))
  ]

-- `SELECT ... WHERE p LIMIT 1` with no order: the first row in the table.
unfoldable pub find_where {ℓ} : {A : Type ℓ} → (A → Bool) → List A → Option A
find_where p [] = none
find_where p (x ∷ xs) = if p x then some x else find_where p xs

pub find_where-holds {ℓ} :
    {A : Type ℓ} (p : A → Bool) (xs : List A) {x : A} → find_where p xs ≡ some x → p x ≡ true
unfolding find_where
find_where-holds p [] h = cc
find_where-holds p (y ∷ xs) {x} h = ground (arith, find_where-holds p xs {x = x})

pub find_where-mem {ℓ} :
    {A : Type ℓ} (p : A → Bool) (xs : List A) {x : A} → find_where p xs ≡ some x → Memᴰ x xs
unfolding find_where
find_where-mem p [] h = absurd (cc)
find_where-mem p (y ∷ xs) {x} h = elim (Bool-cases (p y)) [
  | inl e ↦ Memᴰ.head (ground arith)
  | inr e ↦ Memᴰ.tail (find_where-mem p xs (ground arith))
]

pub find_where-none {ℓ} :
    {A : Type ℓ} (p : A → Bool) (xs : List A) → find_where p xs ≡ none → All (λ x. p x ≡ false) xs
unfolding find_where
find_where-none p [] h = tt
find_where-none p (x ∷ xs) h = (ground arith, find_where-none p xs (ground arith))

module _ {ℓ} {A : Type ℓ} (key : A → String) where
  pub HasUniqueKeys-modify :
      (k : String) (f : A → A) (xs : List A)
      → ((x : A) → key (f x) ≡ key x)
      → HasUniqueKeys key xs
      → HasUniqueKeys key (modify key k f xs)
  unfolding modify
  HasUniqueKeys-modify k f [] h u = tt
  HasUniqueKeys-modify k f (x ∷ xs) h u = elim (Bool-cases (key x == k)) [
    | inl e ↦ rw e (rw h u.0, u.1)
    | inr e ↦ rw e (
      find-modify_ne key k (key x) f xs h (ground (arith, eq_iff (key x) k, eq_iff k (key x)))
          ∙ u.0,
      HasUniqueKeys-modify k f xs h u.1,
    )
  ]

  -- A property of every row survives a write that keeps it.
  pub All-modify {κ} :
      (P : A → Type κ) (k : String) (f : A → A) (xs : List A)
      → ((x : A) → find key k xs ≡ some x → P x → P (f x))
      → All P xs
      → All P (modify key k f xs)
  unfolding modify find
  All-modify P k f [] keep h = tt
  All-modify P k f (x ∷ xs) keep h = elim (Bool-cases (key x == k)) [
    | inl e ↦ rw e (keep x (rw e) h.0, h.1)
    | inr e ↦ rw e (h.0, All-modify P k f xs (λ y at. keep y (rw e at)) h.1)
  ]

-- The value, if there is one and it passes the test.
abbrev pub keep_if {ℓ} : {A : Type ℓ} → (A → Bool) → Option A → Option A
keep_if q none = none
keep_if q (some x) = if q x then some x else none

abbrev pub holds_of {ℓ} : {A : Type ℓ} → (A → Bool) → Option A → Bool
holds_of q none = false
holds_of q (some x) = q x

module _ {ℓ} {A : Type ℓ} (key : A → String) (q : A → Bool) where
  pub find_where-eq-none :
      (k : String) (xs : List A)
      → find key k xs ≡ none
      → find_where (λ r. key r == k && q r) xs ≡ none
  unfolding find find_where
  find_where-eq-none k [] h = refl
  find_where-eq-none k (x ∷ xs) h = ground (arith, find_where-eq-none k xs)

  pub any-eq-none :
      (k : String) (xs : List A) → find key k xs ≡ none → any (λ r. key r == k && q r) xs ≡ false
  unfolding find
  any-eq-none k [] h = refl
  any-eq-none k (x ∷ xs) h = ground (arith, any-eq-none k xs)

  -- A lookup by the key with one more condition is the lookup by the key, filtered.
  pub find_where-key :
      (k : String) (xs : List A)
      → HasUniqueKeys key xs
      → find_where (λ r. key r == k && q r) xs ≡ keep_if q (find key k xs)
  unfolding find find_where
  find_where-key k [] u = refl
  find_where-key k (x ∷ xs) u = elim (Bool-cases (key x == k)) [
    | inl e ↦
        let same : key x ≡ k = (eq_iff (key x) k).0 e in
        let rest : find_where (λ r. key r == k && q r) xs ≡ none =
          find_where-eq-none k xs (rw (← same) u.0) in
        ground arith
    | inr e ↦ ground (arith, find_where-key k xs u.1)
  ]

  pub any-key :
      (k : String) (xs : List A)
      → HasUniqueKeys key xs
      → any (λ r. key r == k && q r) xs ≡ holds_of q (find key k xs)
  unfolding find
  any-key k [] u = refl
  any-key k (x ∷ xs) u = elim (Bool-cases (key x == k)) [
    | inl e ↦
        let same : key x ≡ k = (eq_iff (key x) k).0 e in
        let rest : any (λ r. key r == k && q r) xs ≡ false = any-eq-none k xs (rw (← same) u.0) in
        ground arith
    | inr e ↦ ground (arith, any-key k xs u.1)
  ]
