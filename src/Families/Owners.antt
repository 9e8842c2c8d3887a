-- ===== src/Families/Owners.antt =====
-- The owner invariants of storage/identity.py: what each write to the memberships keeps.
use mura_project.Prelude.{
  ℕ, ◌+◌, ◌≤◌, ◌≡◌, refl, String, Bool, true, false, ◌&&◌, not, some, List, [], ◌∷◌, leb, any,
  select, count_where, str_eq, eq_iff, arith, Bool-cases, inl, inr,
}
use mura_project.Prelude.Table.{find_where, find_where-holds}
use mura_project.Prelude.Where.{
  modify_where, remove_where, count_where-modify_where, count_where-remove_where,
}
use mura_project.Families.Rows.{FamilyRole, is_owner, FamilyMembershipRow, is_member, is_owner_of}
use mura_project.Families.Members.{lock_owners, with_role, is_blocked}

-- `uq_family_membership`
abbrev pub HasUniqueMembers : List FamilyMembershipRow → Type 0
HasUniqueMembers rows = (f u : String) → count_where (is_member f u) rows ≤ 1

-- A write to the memberships that keeps every family owned and the memberships unique.
pub record Keeps (rows rows' : List FamilyMembershipRow) : Type 0 where
  pub owners :
      (f : String) → HasUniqueMembers rows → 1 ≤ lock_owners f rows → 1 ≤ lock_owners f rows'
  pub unique : HasUniqueMembers rows → HasUniqueMembers rows'

pub Keeps-same : (rows : List FamilyMembershipRow) → Keeps rows rows
Keeps-same rows = record { owners = λ f u h. h; unique = λ u. u }

count-none :
    (p : FamilyMembershipRow → Bool) (rows : List FamilyMembershipRow)
    → any p rows ≡ false
    → count_where p rows ≡ 0
count-none p [] h = refl
count-none p (m ∷ rows) h = ground (arith, count-none p rows)

pub Keeps-added :
    (m : FamilyMembershipRow) (rows : List FamilyMembershipRow)
    → any (is_member m.family_id m.user_id) rows ≡ false
    → Keeps rows (m ∷ rows)
unfolding lock_owners
Keeps-added m rows new = record { owners = λ f u h. ground arith; unique = unique_after }
  where
    unique_after : HasUniqueMembers rows → HasUniqueMembers (m ∷ rows)
    unique_after u f v = elim (Bool-cases (is_member f v m)) [
      | inl e ↦
          let same_family : m.family_id ≡ f = (eq_iff m.family_id f).0 (ground arith) in
          let same_user : m.user_id ≡ v = (eq_iff m.user_id v).0 (ground arith) in
          let zero : count_where (is_member f v) rows ≡ 0 =
            count-none (is_member f v) rows (rw (← same_family, ← same_user) new) in
          rw e (omega (arith, zero))
      | inr e ↦ rw e (u f v)
    ]

-- Another family's owners are not this member.
not_owner_elsewhere :
    (f g u : String) (m : FamilyMembershipRow)
    → is_member f u m ≡ true
    → str_eq f g ≡ false
    → is_owner_of g m ≡ false
not_owner_elsewhere f g u m h ne =
    ground (arith, eq_iff m.family_id f, eq_iff m.family_id g, eq_iff f g)

pub Keeps-changed :
    (f u : String) (role : FamilyRole) (now : ℕ) (rows : List FamilyMembershipRow)
    (m : FamilyMembershipRow)
    → find_where (is_member f u) rows ≡ some m
    → (is_owner m.role && (not (is_owner role) && leb (lock_owners f rows) 1)) ≡ false
    → Keeps rows (modify_where (is_member f u) (with_role role now) rows)
unfolding lock_owners with_role
Keeps-changed f u role now rows m h may = record { owners = owners_after; unique = unique_after }
  where
    mine : is_member f u m ≡ true
    mine = find_where-holds (is_member f u) rows h

    owners_after :
        (g : String)
        → HasUniqueMembers rows
        → 1 ≤ lock_owners g rows
        → 1 ≤ lock_owners g (modify_where (is_member f u) (with_role role now) rows)
    owners_after g un one =
        let count =
          count_where-modify_where (is_member f u) (is_owner_of g) (with_role role now) rows h in
        elim (Bool-cases (str_eq f g)) [
          | inl e ↦
              let same : f ≡ g = (eq_iff f g).0 e in
              let may' : (is_owner m.role && (not (is_owner role) && leb (lock_owners g rows) 1))
                  ≡ false =
                rw (← same) may in
              ground (arith, count)
          | inr e ↦ ground (arith, count, not_owner_elsewhere f g u m mine e)
        ]

    unique_after :
        HasUniqueMembers rows
        → HasUniqueMembers (modify_where (is_member f u) (with_role role now) rows)
    unique_after un g v = omega (
      arith,
      un g v,
      count_where-modify_where (is_member f u) (is_member g v) (with_role role now) rows h,
    )

pub Keeps-removed :
    (f u : String) (rows : List FamilyMembershipRow) (m : FamilyMembershipRow)
    → find_where (is_member f u) rows ≡ some m
    → (is_owner m.role && leb (lock_owners f rows) 1) ≡ false
    → Keeps rows (remove_where (is_member f u) rows)
unfolding lock_owners
Keeps-removed f u rows m h may = record { owners = owners_after; unique = unique_after }
  where
    mine : is_member f u m ≡ true
    mine = find_where-holds (is_member f u) rows h

    owners_after :
        (g : String)
        → HasUniqueMembers rows
        → 1 ≤ lock_owners g rows
        → 1 ≤ lock_owners g (remove_where (is_member f u) rows)
    owners_after g un one =
        let count = count_where-remove_where (is_member f u) (is_owner_of g) rows h in
        elim (Bool-cases (str_eq f g)) [
          | inl e ↦
              let same : f ≡ g = (eq_iff f g).0 e in
              let may' : (is_owner m.role && leb (lock_owners g rows) 1) ≡ false =
                rw (← same) may in
              ground (arith, count)
          | inr e ↦ ground (arith, count, not_owner_elsewhere f g u m mine e)
        ]

    unique_after : HasUniqueMembers rows → HasUniqueMembers (remove_where (is_member f u) rows)
    unique_after un g v =
        omega (arith, un g v, count_where-remove_where (is_member f u) (is_member g v) rows h)

-- Nobody is blocked: then a family of which the user is an owner has two.
two_owners :
    (user f : String) (n : String → ℕ) (rows : List FamilyMembershipRow)
    → any (λ m. str_eq m.user_id user && (is_owner m.role && leb (n m.family_id) 1)) rows ≡ false
    → 1 ≤ count_where (λ m. is_owner_of f m && str_eq m.user_id user) rows
    → 2 ≤ n f
two_owners user f n [] h one = absurd (omega (arith, one))
two_owners user f n (m ∷ rows) h one =
    elim (Bool-cases (is_owner_of f m && str_eq m.user_id user)) [
      | inl e ↦
          let same : m.family_id ≡ f = (eq_iff m.family_id f).0 (ground arith) in
          let two : 2 ≤ n m.family_id = ground arith in rw (← same) two
      | inr e ↦ two_owners user f n rows (ground arith) (ground arith)
    ]

count-split :
    (p q : FamilyMembershipRow → Bool) (rows : List FamilyMembershipRow)
    → count_where p (select (λ m. not (q m)) rows) + count_where (λ m. p m && q m) rows
      ≡ count_where p rows
count-split p q [] = refl
count-split p q (m ∷ rows) = ground (arith, count-split p q rows)

count-le :
    (p q : FamilyMembershipRow → Bool) (rows : List FamilyMembershipRow)
    → ((m : FamilyMembershipRow) → p m ≡ true → q m ≡ true)
    → count_where p rows ≤ count_where q rows
count-le p q [] h = omega arith
count-le p q (m ∷ rows) h = ground (arith, count-le p q rows h, h m)

pub Keeps-left :
    (user : String) (rows : List FamilyMembershipRow)
    → any (is_blocked user rows) rows ≡ false
    → Keeps rows (select (λ m. not (str_eq m.user_id user)) rows)
unfolding is_blocked lock_owners
Keeps-left user rows free = record { owners = owners_after; unique = unique_after }
  where
    owners_after :
        (f : String)
        → HasUniqueMembers rows
        → 1 ≤ lock_owners f rows
        → 1 ≤ lock_owners f (select (λ m. not (str_eq m.user_id user)) rows)
    owners_after f un one =
        let split = count-split (is_owner_of f) (λ m. str_eq m.user_id user) rows in
        let few : count_where (λ m. is_owner_of f m && str_eq m.user_id user) rows
            ≤ count_where (is_member f user) rows =
          count-le (λ m. is_owner_of f m && str_eq m.user_id user) (is_member f user) rows
            (λ m e. ground arith) in
        elim (Bool-cases
          (leb 1 (count_where (λ m. is_owner_of f m && str_eq m.user_id user) rows))) [
            | inl e ↦
                let two : 2 ≤ lock_owners f rows =
                  two_owners user f (λ g. lock_owners g rows) rows free (ground arith) in
                omega (arith, split, few, un f user, two)
            | inr e ↦ ground (arith, split)
          ]

    unique_after :
        HasUniqueMembers rows → HasUniqueMembers (select (λ m. not (str_eq m.user_id user)) rows)
    unique_after un f v =
        omega (arith, un f v, count-split (is_member f v) (λ m. str_eq m.user_id user) rows)
