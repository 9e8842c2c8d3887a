-- ===== src/Snapshots/Relationships.antt =====
-- book/relationship_semantics.py: relationships up to the order of their end points.
use Prim.Native.String as Native
use Prim.Native.Char.{char, code}
use mura_project.Prelude.{
  String, Bool, false, ◌&&◌, ◌||◌, Option, none, some, List, [], ◌∷◌, if◌then◌else◌, ◌==◌, or_else,
  str_eq,
}
use mura_project.Prelude.Texts.{text_lt}

-- What the code takes from Python's tables of Unicode: `str.strip` and `str.casefold`.
pub record Unicode : Type 0 where
  pub strip : String → String
  pub casefold : String → String

-- `.replace("-", "_")`
abbrev pub with_underscores : String → String
with_underscores Native.String.[] = Native.String.[]
with_underscores (Native.String.◌∷◌ c s) =
    Native.String.◌∷◌ (if code c == 45 then char 95 tt else c) (with_underscores s)

-- `_ROLE_ALIASES`
abbrev pub role_aliases : List (String × String)
role_aliases =
    ("parent", "parent")
    ∷ ("father", "parent")
    ∷ ("mother", "parent")
    ∷ ("отец", "parent")
    ∷ ("мать", "parent")
    ∷ ("әке", "parent")
    ∷ ("ана", "parent")
    ∷ ("child", "child")
    ∷ ("son", "child")
    ∷ ("daughter", "child")
    ∷ ("сын", "child")
    ∷ ("дочь", "child")
    ∷ ("ұл", "child")
    ∷ ("қыз", "child")
    ∷ ("spouse", "spouse")
    ∷ ("husband", "spouse")
    ∷ ("wife", "spouse")
    ∷ ("муж", "spouse")
    ∷ ("жена", "spouse")
    ∷ ("күйеу", "spouse")
    ∷ ("әйел", "spouse")
    ∷ ("sibling", "sibling")
    ∷ ("brother", "sibling")
    ∷ ("sister", "sibling")
    ∷ ("брат", "sibling")
    ∷ ("сестра", "sibling")
    ∷ ("older_sibling", "older_sibling")
    ∷ ("older brother", "older_sibling")
    ∷ ("older sister", "older_sibling")
    ∷ ("younger_sibling", "younger_sibling")
    ∷ ("younger brother", "younger_sibling")
    ∷ ("younger sister", "younger_sibling")
    ∷ []

-- `aliases.get(raw, raw)`
unfoldable pub alias_of : String → List (String × String) → String
alias_of raw [] = raw
alias_of raw ((alias, role) ∷ aliases) = if str_eq alias raw then role else alias_of raw aliases

pub record RelationshipShape : Type 0 where
  pub relationship_type : String
  pub subject_person_id : Option String
  pub subject_role : Option String
  pub object_person_id : Option String
  pub object_role : Option String

pub record CanonicalRelationship : Type 0 where
  pub relationship_type : String
  pub first_person_id : String
  pub first_role : String
  pub second_person_id : String
  pub second_role : String

abbrev pub canonical : String → String → String → String → String → CanonicalRelationship
canonical rtype first_id first_role second_id second_role = record {
  relationship_type = rtype;
  first_person_id = first_id;
  first_role = first_role;
  second_person_id = second_id;
  second_role = second_role;
}

-- The two end points as sorted pairs of a person and a role.
unfoldable pub sorted_ends : String → String → String → String → String → CanonicalRelationship
sorted_ends rtype s s_role o o_role =
    if text_lt o s || (str_eq o s && text_lt o_role s_role)
    then canonical rtype o o_role s s_role
    else canonical rtype s s_role o o_role

-- The branch of parent and child
unfoldable pub parent_child_of :
    String → String → String → String → String → Option CanonicalRelationship
parent_child_of rtype s s_role o o_role =
    if str_eq s_role "parent" && str_eq o_role "child"
    then some (canonical rtype s "parent" o "child")
    else if str_eq s_role "child" && str_eq o_role "parent"
    then some (canonical rtype o "parent" s "child")
    else none

unfoldable pub spouse_of : String → String → String → String → String → Option CanonicalRelationship
spouse_of rtype s s_role o o_role =
    if str_eq s_role "spouse" && str_eq o_role "spouse"
    then some (sorted_ends rtype s "spouse" o "spouse")
    else none

-- Whether the set of the two roles is {sibling} or {older_sibling, younger_sibling}.
abbrev pub are_sibling_roles : String → String → Bool
are_sibling_roles a b =
    (str_eq a "sibling" && str_eq b "sibling")
    || (str_eq a "older_sibling" && str_eq b "younger_sibling")
    || (str_eq a "younger_sibling" && str_eq b "older_sibling")

unfoldable pub sibling_of :
    String → String → String → String → String → Option CanonicalRelationship
sibling_of rtype s s_role o o_role =
    if are_sibling_roles s_role o_role then some (sorted_ends rtype s s_role o o_role) else none

-- The branches by type, of normalized parts.
unfoldable pub canonical_of :
    String → String → String → String → String → Option CanonicalRelationship
canonical_of rtype s s_role o o_role =
    if str_eq rtype "parent_child"
    then parent_child_of rtype s s_role o o_role
    else if str_eq rtype "spouse"
    then spouse_of rtype s s_role o o_role
    else if str_eq rtype "sibling"
    then sibling_of rtype s s_role o o_role
    else some (canonical rtype s s_role o o_role)

abbrev pub is_blank : String → Bool
is_blank s = str_eq s ""

-- The first guard, and then the branches.
unfoldable pub checked_canonical :
    String → String → String → String → String → Option CanonicalRelationship
checked_canonical rtype s s_role o o_role =
    if is_blank rtype || is_blank s || is_blank o || str_eq s o
    then none
    else canonical_of rtype s s_role o o_role

-- `left is not None and left == right`
abbrev pub is_same_relationship : Option CanonicalRelationship → Option CanonicalRelationship → Bool
is_same_relationship none r = false
is_same_relationship (some l) none = false
is_same_relationship (some l) (some r) =
    str_eq l.relationship_type r.relationship_type
    && str_eq l.first_person_id r.first_person_id
    && str_eq l.first_role r.first_role
    && str_eq l.second_person_id r.second_person_id
    && str_eq l.second_role r.second_role

module _ (os : Unicode) where
  unfoldable pub normalize_relationship_role : Option String → String
  normalize_relationship_role value =
      alias_of (with_underscores (os.casefold (os.strip (or_else value "")))) role_aliases

  unfoldable pub canonical_relationship : RelationshipShape → Option CanonicalRelationship
  canonical_relationship r =
      checked_canonical (os.casefold (os.strip r.relationship_type))
        (os.strip (or_else r.subject_person_id "")) (normalize_relationship_role r.subject_role)
        (os.strip (or_else r.object_person_id "")) (normalize_relationship_role r.object_role)

  unfoldable pub relationship_semantics_match : RelationshipShape → RelationshipShape → Bool
  relationship_semantics_match left right =
      is_same_relationship (canonical_relationship left) (canonical_relationship right)
