-- ===== src/Snapshots/Endpoints.antt =====
-- The meaning of a relationship and the order of its end points (book/relationship_semantics.py).
use mura_project.Prelude.{
  ap, ◌≡◌, refl, String, Bool, true, false, ◌&&◌, ◌||◌, not, some, or_else, str_eq, eq_iff, eq_refl,
  Bool-cases, inl, inr, arith,
}
use mura_project.Prelude.Texts.{text_lt_asym, text_lt_total}
use mura_project.Snapshots.Relationships.{
  Unicode, RelationshipShape, CanonicalRelationship, sorted_ends, parent_child_of, spouse_of,
  sibling_of, canonical_of, checked_canonical, are_sibling_roles, is_blank,
  normalize_relationship_role, canonical_relationship, is_same_relationship,
  relationship_semantics_match,
}

-- The same relationship told from its other end.
abbrev pub turned : RelationshipShape → RelationshipShape
turned r = record {
  relationship_type = r.relationship_type;
  subject_person_id = r.object_person_id;
  subject_role = r.object_role;
  object_person_id = r.subject_person_id;
  object_role = r.subject_role;
}

-- Each person with the other's role.
abbrev pub reversed : RelationshipShape → RelationshipShape
reversed r = record r { subject_role = r.object_role; object_role = r.subject_role }

abbrev pub is_family_type : String → Bool
is_family_type t = str_eq t "parent_child" || str_eq t "spouse" || str_eq t "sibling"

sorted_ends_turned :
    (t s a o b : String) → str_eq s o ≡ false → sorted_ends t o b s a ≡ sorted_ends t s a o b
unfolding sorted_ends
sorted_ends_turned t s a o b h =
    ground (arith, text_lt_asym s o, text_lt_asym o s, text_lt_total s o, eq_iff s o, eq_iff o s)

parent_not_child : (a : String) → str_eq a "parent" ≡ true → str_eq a "child" ≡ false
parent_not_child a h = rw ((eq_iff a "parent").0 h) refl

parent_child_turned : (t s a o b : String) → parent_child_of t o b s a ≡ parent_child_of t s a o b
unfolding parent_child_of
parent_child_turned t s a o b = ground (arith, parent_not_child a, parent_not_child b)

are_sibling_roles_turned : (a b : String) → are_sibling_roles b a ≡ are_sibling_roles a b
are_sibling_roles_turned a b = ground arith

sibling_turned :
    (t s a o b : String) → str_eq s o ≡ false → sibling_of t o b s a ≡ sibling_of t s a o b
unfolding sibling_of
sibling_turned t s a o b h = rw (are_sibling_roles_turned a b, sorted_ends_turned t s a o b h) refl

spouse_turned :
    (t s a o b : String) → str_eq s o ≡ false → spouse_of t o b s a ≡ spouse_of t s a o b
unfolding spouse_of
spouse_turned t s a o b h = ground (arith, sorted_ends_turned t s "spouse" o "spouse" h)

canonical_of_turned :
    (t s a o b : String)
    → is_family_type t ≡ true
    → str_eq s o ≡ false
    → canonical_of t o b s a ≡ canonical_of t s a o b
unfolding canonical_of
canonical_of_turned t s a o b family h =
    ground
      (arith, parent_child_turned t s a o b, spouse_turned t s a o b h, sibling_turned t s a o b h)

is_same_refl : (c : CanonicalRelationship) → is_same_relationship (some c) (some c) ≡ true
is_same_refl c =
    rw
      (
        eq_refl c.relationship_type,
        eq_refl c.first_person_id,
        eq_refl c.first_role,
        eq_refl c.second_person_id,
        eq_refl c.second_role,
      )
      refl

parent_child_reversed :
    (t s a o b : String)
    → str_eq s o ≡ false
    → is_same_relationship (parent_child_of t s b o a) (parent_child_of t s a o b) ≡ false
unfolding parent_child_of
parent_child_reversed t s a o b h =
    ground (arith, parent_not_child a, parent_not_child b, eq_iff s o, eq_iff o s)

sibling_reversed :
    (t s a o b : String)
    → str_eq s o ≡ false
    → str_eq a b ≡ false
    → is_same_relationship (sibling_of t s b o a) (sibling_of t s a o b) ≡ false
unfolding sibling_of sorted_ends
sibling_reversed t s a o b h d = elim (Bool-cases (are_sibling_roles a b)) [
  | inr none_such ↦ rw (are_sibling_roles_turned a b, none_such) refl
  | inl siblings ↦
      rw (are_sibling_roles_turned a b, siblings)
        (ground (arith, eq_iff s o, eq_iff o s, eq_iff a b, eq_iff b a))
]

checked_canonical_turned :
    (t s a o b : String)
    → is_family_type t ≡ true
    → checked_canonical t o b s a ≡ checked_canonical t s a o b
unfolding checked_canonical
checked_canonical_turned t s a o b family =
    ground (arith, canonical_of_turned t s a o b family, eq_iff s o, eq_iff o s)

canonical_of_reversed :
    (t s a o b : String)
    → (str_eq t "parent_child" || (str_eq t "sibling" && not (str_eq a b))) ≡ true
    → str_eq s o ≡ false
    → is_same_relationship (canonical_of t s b o a) (canonical_of t s a o b) ≡ false
unfolding canonical_of
canonical_of_reversed t s a o b directional h = elim (Bool-cases (str_eq t "parent_child")) [
  | inl e ↦ rw e (parent_child_reversed t s a o b h)
  | inr e ↦
      let sibling : t ≡ "sibling" = (eq_iff t "sibling").0 (ground arith) in
      let apart : str_eq a b ≡ false = ground arith in
      rw sibling (sibling_reversed "sibling" s a o b h apart)
]

checked_canonical_reversed :
    (t s a o b : String)
    → (str_eq t "parent_child" || (str_eq t "sibling" && not (str_eq a b))) ≡ true
    → is_same_relationship (checked_canonical t s b o a) (checked_canonical t s a o b) ≡ false
unfolding checked_canonical
checked_canonical_reversed t s a o b directional =
    elim (Bool-cases (is_blank t || is_blank s || is_blank o || str_eq s o)) [
      | inl e ↦ rw e refl
      | inr e ↦ rw e (canonical_of_reversed t s a o b directional (ground arith))
    ]

module _ (os : Unicode) where
  abbrev pub type_of : RelationshipShape → String
  type_of r = os.casefold (os.strip r.relationship_type)

  -- The roles tell the two people apart.
  abbrev pub is_directional : RelationshipShape → Bool
  is_directional r =
      str_eq (type_of r) "parent_child"
      || (str_eq (type_of r) "sibling"
          && not (
              str_eq (normalize_relationship_role os r.subject_role)
                (normalize_relationship_role os r.object_role)))

  canonical_relationship-turned :
      (r : RelationshipShape)
      → is_family_type (type_of r) ≡ true
      → canonical_relationship os (turned r) ≡ canonical_relationship os r
  unfolding canonical_relationship
  canonical_relationship-turned r family =
      checked_canonical_turned (type_of r) (os.strip (or_else r.subject_person_id ""))
        (normalize_relationship_role os r.subject_role) (os.strip (or_else r.object_person_id ""))
        (normalize_relationship_role os r.object_role) family

  canonical_relationship-reversed :
      (r : RelationshipShape)
      → is_directional r ≡ true
      → is_same_relationship (canonical_relationship os (reversed r)) (canonical_relationship os r)
        ≡ false
  unfolding canonical_relationship
  canonical_relationship-reversed r directional =
      checked_canonical_reversed (type_of r) (os.strip (or_else r.subject_person_id ""))
        (normalize_relationship_role os r.subject_role) (os.strip (or_else r.object_person_id ""))
        (normalize_relationship_role os r.object_role) directional

  -- For parents, spouses and siblings, a relationship told from its other end is supported by the same claims;
  -- and where the roles tell the two people apart, a claim with the roles exchanged never supports it.
  pub relationship_semantics_match-ends :
      (l r : RelationshipShape)
      → is_family_type (type_of r) ≡ true
      → (relationship_semantics_match os l (turned r) ≡ relationship_semantics_match os l r)
        × ((is_directional r && relationship_semantics_match os (reversed r) r) ≡ false)
  unfolding relationship_semantics_match
  relationship_semantics_match-ends l r family = (
    ap (is_same_relationship (canonical_relationship os l))
        (canonical_relationship-turned r family),
    elim (Bool-cases (is_directional r)) [
      | inl e ↦ rw (e, canonical_relationship-reversed r e) refl
      | inr e ↦ rw e refl
    ],
  )
