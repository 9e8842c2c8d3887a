-- ===== src/Snapshots/Sets.antt =====
-- Why the comparisons of lists of ids compare their sets (book/snapshot_validation.py, `_exact_ids`).
use mura_project.Prelude.{
  suc, ◌≤◌, ◌≡◌, ◌↔◌, ◌∙◌, refl, sym, ap, subst, String, true, false, ◌||◌, List, [], ◌∷◌,
  if◌then◌else◌, any, length, str_eq, eq_iff, eq_refl, Bool-cases, inl, inr, arith,
}
use mura_project.Prelude.Texts.{text_lt, text_lt_irrefl, text_lt_asym, text_lt_trans, text_lt_total}
use mura_project.Snapshots.Ids.{
  insert_id, exact_ids, is_same_ids, is_within, is_unique, IsUnique, IsSame, IsIn, IsWithin,
}

any-insert_id :
    (k j : String) (xs : List String) → any (str_eq k) (insert_id j xs) ≡ any (str_eq k) (j ∷ xs)
unfolding insert_id
any-insert_id k j [] = refl
any-insert_id k j (x ∷ xs) = ground (arith, any-insert_id k j xs, eq_iff j x)

pub any-exact_ids :
    (k : String) (xs : List String) → any (str_eq k) (exact_ids xs) ≡ any (str_eq k) xs
unfolding exact_ids
any-exact_ids k [] = refl
any-exact_ids k (x ∷ xs) =
    any-insert_id k x (exact_ids xs) ∙ ap (λ b. str_eq k x || b) (any-exact_ids k xs)

-- Each id is below all that follow it.
abbrev IsOrdered : List String → Type 0
IsOrdered [] = Unit
IsOrdered (x ∷ xs) = ((k : String) → IsIn k xs → text_lt x k ≡ true) × IsOrdered xs

insert_id-IsOrdered : (k : String) (xs : List String) → IsOrdered xs → IsOrdered (insert_id k xs)
unfolding insert_id
insert_id-IsOrdered k [] o = ((λ j h. ground (arith, eq_iff j k)), tt)
insert_id-IsOrdered k (x ∷ xs) o = elim (Bool-cases (str_eq k x)) [
  | inl same ↦ rw same o
  | inr apart ↦ elim (Bool-cases (text_lt k x)) [
    | inl below ↦
        rw (apart, below)
          ((λ j h. ground (arith, h, below, o.0 j, eq_iff j x, text_lt_trans k x j)), o)
    | inr above ↦
        rw (apart, above)
          (
            (λ j h. ground (
              arith,
              h,
              above,
              any-insert_id j k xs,
              o.0 j,
              eq_iff j k,
              eq_iff k x,
              text_lt_total k x above,
            )),
            insert_id-IsOrdered k xs o.1,
          )
  ]
]

exact_ids-IsOrdered : (xs : List String) → IsOrdered (exact_ids xs)
unfolding exact_ids
exact_ids-IsOrdered [] = tt
exact_ids-IsOrdered (x ∷ xs) = insert_id-IsOrdered x (exact_ids xs) (exact_ids-IsOrdered xs)

-- The first of an ordered list is in no other with the same ids behind the first.
first_is_least :
    (x y : String) (xs ys : List String)
    → IsOrdered (x ∷ xs)
    → IsOrdered (y ∷ ys)
    → IsSame (x ∷ xs) (y ∷ ys)
    → text_lt x y ≡ false
first_is_least x y xs ys o p same =
    ground (arith, same x, eq_refl x, eq_iff x y, p.0 x, text_lt_asym x y, text_lt_irrefl x)

tails-IsSame :
    (x : String) (xs ys : List String)
    → IsOrdered (x ∷ xs)
    → IsOrdered (x ∷ ys)
    → IsSame (x ∷ xs) (x ∷ ys)
    → IsSame xs ys
tails-IsSame x xs ys o p same k = elim (Bool-cases (str_eq k x)) [
  | inr apart ↦ ground (arith, same k, apart)
  | inl equal ↦
      let e : k ≡ x = (eq_iff k x).0 equal in rw e (ground (arith, o.0 x, p.0 x, text_lt_irrefl x))
]

ordered_eq : (xs ys : List String) → IsOrdered xs → IsOrdered ys → IsSame xs ys → xs ≡ ys
ordered_eq [] [] o p same = refl
ordered_eq [] (y ∷ ys) o p same = absurd (ground (arith, same y, eq_refl y))
ordered_eq (x ∷ xs) [] o p same = absurd (ground (arith, same x, eq_refl x))
ordered_eq (x ∷ xs) (y ∷ ys) o p same =
    let e : x ≡ y =
      text_lt_total x y (first_is_least x y xs ys o p same)
        (first_is_least y x ys xs p o (λ k. sym (same k))) in
    let o' : IsOrdered (y ∷ xs) = subst (λ z. IsOrdered (z ∷ xs)) e o in
    let same' : IsSame (y ∷ xs) (y ∷ ys) = subst (λ z. IsSame (z ∷ xs) (y ∷ ys)) e same in
    let rest : xs ≡ ys = ordered_eq xs ys o.1 p.1 (tails-IsSame y xs ys o' p same') in
    λ i. e i ∷ rest i

is_same_ids→eq : (xs ys : List String) → is_same_ids xs ys ≡ true → xs ≡ ys
unfolding is_same_ids
is_same_ids→eq [] [] h = refl
is_same_ids→eq [] (y ∷ ys) h = absurd (ground arith)
is_same_ids→eq (x ∷ xs) [] h = absurd (ground arith)
is_same_ids→eq (x ∷ xs) (y ∷ ys) h =
    let e : x ≡ y = (eq_iff x y).0 (ground arith) in
    let rest : xs ≡ ys = is_same_ids→eq xs ys (ground arith) in λ i. e i ∷ rest i

is_same_ids_refl : (xs : List String) → is_same_ids xs xs ≡ true
unfolding is_same_ids
is_same_ids_refl [] = refl
is_same_ids_refl (x ∷ xs) = ground (arith, eq_refl x, is_same_ids_refl xs)

-- Two lists of ids pass the comparison exactly if they have the same ids.
pub exact_ids-IsSame :
    (xs ys : List String) → (is_same_ids (exact_ids xs) (exact_ids ys) ≡ true) ↔ IsSame xs ys
exact_ids-IsSame xs ys = (
  (λ h k.
      sym (any-exact_ids k xs)
      ∙ ap (any (str_eq k)) (is_same_ids→eq (exact_ids xs) (exact_ids ys) h)
      ∙ any-exact_ids k ys),
  (λ same.
      let e : exact_ids xs ≡ exact_ids ys =
        ordered_eq (exact_ids xs) (exact_ids ys) (exact_ids-IsOrdered xs) (exact_ids-IsOrdered ys)
          (λ k. any-exact_ids k xs ∙ same k ∙ sym (any-exact_ids k ys)) in
      ap (is_same_ids (exact_ids xs)) (sym e) ∙ is_same_ids_refl (exact_ids xs)),
)

length-insert_id :
    (k : String) (xs : List String)
    → IsOrdered xs
    → length (insert_id k xs) ≡ (if any (str_eq k) xs then length xs else suc (length xs))
unfolding insert_id
length-insert_id k [] o = refl
length-insert_id k (x ∷ xs) o = ground (arith, length-insert_id k xs o.1, o.0 k, text_lt_asym x k)

length-exact_ids : (xs : List String) → length (exact_ids xs) ≤ length xs
unfolding exact_ids
length-exact_ids [] = omega arith
length-exact_ids (x ∷ xs) =
    ground (arith, length-insert_id x (exact_ids xs) (exact_ids-IsOrdered xs), length-exact_ids xs)

-- A list passes the count exactly if no id comes twice in it.
pub is_unique-IsUnique : (xs : List String) → (is_unique xs ≡ true) ↔ IsUnique xs
unfolding is_unique exact_ids
is_unique-IsUnique [] = ((λ h. tt), (λ h. refl))
is_unique-IsUnique (x ∷ xs) =
    let size = length-insert_id x (exact_ids xs) (exact_ids-IsOrdered xs) in
    let same = any-exact_ids x xs in
    let bound = length-exact_ids xs in
    let rest = is_unique-IsUnique xs in
    (
      (λ h.
          let fresh : any (str_eq x) xs ≡ false = ground (arith, h, size, same, bound) in
          (fresh, rest.0 (ground (arith, h, size, same, bound, fresh)))),
      (λ u. ground (arith, size, same, u.0, rest.1 u.1)),
    )

pub is_within-IsWithin : (xs ys : List String) → (is_within xs ys ≡ true) ↔ IsWithin xs ys
is_within-IsWithin [] ys = ((λ h k m. ground (arith, m)), (λ h. refl))
is_within-IsWithin (x ∷ xs) ys =
    let rest = is_within-IsWithin xs ys in
    (
      (λ h k m. elim (Bool-cases (str_eq k x)) [
        | inl same ↦ rw ((eq_iff k x).0 same) (ground (arith, h))
        | inr apart ↦ rest.0 (ground (arith, h)) k (ground (arith, m, apart))
      ]),
      (λ w.
          ground (arith, w x (ground (arith, eq_refl x)), rest.1 (λ k m. w k (ground (arith, m))))),
    )
