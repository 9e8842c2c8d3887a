-- ===== src/Snapshots/Passing.antt =====
-- When a check of book/snapshot_validation.py passes: one test, one after the other, over a list.
use mura_project.Prelude.{
  ◌≡◌, ◌↔◌, ◌∙◌, refl, sym, String, Bool, true, false, ◌&&◌, ◌||◌, not, Option, none, some, List,
  [], ◌∷◌, All, is_empty, is_none, ok, err, value_error, ◌>>◌, guard, arith,
}
use mura_project.Snapshots.Ids.{is_within, IsWithin, IsSame, IsUnique}
use mura_project.Snapshots.Sets.{exact_ids-IsSame, is_unique-IsUnique, is_within-IsWithin}
use mura_project.Snapshots.Validation.{
  Check, for_each, require_same, require_unique, require_within, is_some_in,
}
use mura_project.Snapshots.Closed.{IsSomeIn, IsOptionalIn, IsNonempty}

abbrev pub Passes : Check → Type 0
Passes r = r ≡ ok tt

pub iff_trans : {A B C : Type 0} → A ↔ B → B ↔ C → A ↔ C
iff_trans p q = ((λ a. q.0 (p.0 a)), (λ c. p.1 (q.1 c)))

pub guard-Passes : (b : Bool) → Passes (guard b value_error) ↔ (b ≡ true)
guard-Passes true = ((λ h. refl), (λ h. refl))
guard-Passes false = ((λ h. absurd (ground arith)), (λ h. absurd (ground arith)))

pub then-Passes :
    {P Q : Type 0} (r q : Check) → Passes r ↔ P → Passes q ↔ Q → Passes (r >> q) ↔ (P × Q)
then-Passes (ok tt) q p k = ((λ h. (p.0 refl, k.0 h)), (λ h. k.1 h.1))
then-Passes (err e) q p k = ((λ h. absurd (ground arith)), (λ h. absurd (ground (arith, p.1 h.0))))

pub for_each-Passes :
    {A : Type 0} {P : A → Type 0} (f : A → Check)
    → ((x : A) → Passes (f x) ↔ P x)
    → (xs : List A) → Passes (for_each f xs) ↔ All P xs
unfolding for_each
for_each-Passes f each [] = ((λ h. tt), (λ h. refl))
for_each-Passes f each (x ∷ xs) =
    then-Passes (f x) (for_each f xs) (each x) (for_each-Passes f each xs)

pub IsSame-Passes : (xs ys : List String) → Passes (require_same xs ys) ↔ IsSame xs ys
IsSame-Passes xs ys = iff_trans (guard-Passes _) (exact_ids-IsSame xs ys)

pub IsUnique-Passes : (xs : List String) → Passes (require_unique xs) ↔ IsUnique xs
IsUnique-Passes xs = iff_trans (guard-Passes _) (is_unique-IsUnique xs)

pub IsWithin-Passes : (xs ys : List String) → Passes (require_within xs ys) ↔ IsWithin xs ys
IsWithin-Passes xs ys = iff_trans (guard-Passes _) (is_within-IsWithin xs ys)

pub IsSomeIn-Passes :
    (o : Option String) (ys : List String)
    → Passes (guard (is_some_in o ys) value_error) ↔ IsSomeIn o ys
IsSomeIn-Passes none ys = ((λ h. absurd (ground arith)), (λ h. absurd h))
IsSomeIn-Passes (some k) ys = guard-Passes _

pub IsOptionalIn-Passes :
    (o : Option String) (ys : List String)
    → Passes (guard (is_none o || is_some_in o ys) value_error) ↔ IsOptionalIn o ys
IsOptionalIn-Passes none ys = ((λ h. tt), (λ h. refl))
IsOptionalIn-Passes (some k) ys = guard-Passes _

pub IsNonempty-Passes :
    (xs : List String) → Passes (guard (not (is_empty xs)) value_error) ↔ IsNonempty xs
IsNonempty-Passes [] = ((λ h. absurd (ground arith)), (λ h. absurd h))
IsNonempty-Passes (x ∷ xs) = ((λ h. tt), (λ h. refl))

-- Two lists that are within each other have the same ids.
pub mutual-Passes :
    (xs ys : List String)
    → Passes (guard (is_within xs ys && is_within ys xs) value_error) ↔ IsSame xs ys
mutual-Passes xs ys = (
  (λ h k.
      let both : (is_within xs ys && is_within ys xs) ≡ true = (guard-Passes _).0 h in
      ground (
        arith,
        (is_within-IsWithin xs ys).0 (ground arith) k,
        (is_within-IsWithin ys xs).0 (ground arith) k,
      )),
  (λ same.
      rw
        (
          (is_within-IsWithin xs ys).1 (λ k m. sym (same k) ∙ m),
          (is_within-IsWithin ys xs).1 (λ k m. same k ∙ m),
        )
        refl),
)
