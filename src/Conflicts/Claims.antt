-- ===== src/Conflicts/Claims.antt =====
-- How the archive reads a relationship claim (storage/archive.py): its state, its pair of people, its
-- signature, and the values of the edge that it supports.
use mura_project.Prelude.Texts.{text_lt}
use mura_project.Prelude.{
  String, Bool, false, ◌&&◌, ◌||◌, not, Option, none, some, if◌then◌else◌, is_some, or_else, str_eq,
  holds_text, is_empty,
}
use mura_project.Conflicts.Rows.{
  ClaimStatus, active, unresolved, historical, ended, negated, figurative, ArchiveClaimRow,
  is_active,
}

unfoldable pub relationship_state_status : ArchiveClaimRow → ClaimStatus
relationship_state_status row =
    let state = or_else row.payload.relationship_state "current" in
    if not (is_some row.subject_person_id) || not (is_some row.object_person_id)
    then unresolved
    else if is_some row.payload.uncertainty || holds_text row.assertion_mode "uncertain"
    then unresolved
    else if str_eq state "former"
    then historical
    else if str_eq state "ended"
    then ended
    else if str_eq state "negated"
    then negated
    else if str_eq state "figurative"
    then figurative
    else if not (str_eq state "current")
    then unresolved
    else active

-- `claim.evidence_class in _AUTO_MATERIALIZABLE_CLASSES`
abbrev pub is_materializable : String → Bool
is_materializable c =
    str_eq c "A_explicit" || str_eq c "B_morphologically_explicit" || str_eq c "C_speaker_anchored"

-- `subject != object` of two people that are both there
abbrev pub are_distinct : Option String → Option String → Bool
are_distinct none o = false
are_distinct (some s) none = false
are_distinct (some s) (some o) = not (str_eq s o)

unfoldable pub claim_is_grounded : ArchiveClaimRow → Bool
claim_is_grounded claim =
    is_active (relationship_state_status claim)
    && are_distinct claim.subject_person_id claim.object_person_id
    && is_materializable claim.evidence_class
    && not (is_empty claim.evidence_ids)

-- `sorted((subject or "", object or ""))`
unfoldable pub relationship_pair : ArchiveClaimRow → String × String
relationship_pair row =
    let s = or_else row.subject_person_id "" in
    let o = or_else row.object_person_id "" in if text_lt o s then (o, s) else (s, o)

abbrev pub is_same_pair : String × String → String × String → Bool
is_same_pair (a, b) (c, d) = str_eq a c && str_eq b d

pub record EdgeValues : Type 0 where
  pub relationship_type : String
  pub subject_id : String
  pub subject_role : String
  pub object_id : String
  pub object_role : String

abbrev pub is_same_values : EdgeValues → EdgeValues → Bool
is_same_values u v =
    str_eq u.relationship_type v.relationship_type
    && str_eq u.subject_id v.subject_id
    && str_eq u.subject_role v.subject_role
    && str_eq u.object_id v.object_id
    && str_eq u.object_role v.object_role

abbrev pub is_symmetric : String → Bool
is_symmetric t = str_eq t "spouse" || str_eq t "sibling"

-- `_edge_values`, which is also `_relationship_signature` up to the order of the fields: the end points of a
-- symmetric relationship are sorted.
unfoldable pub edge_values : ArchiveClaimRow → EdgeValues
edge_values row =
    let s = or_else row.subject_person_id "" in
    let o = or_else row.object_person_id "" in
    let swapped =
      is_symmetric row.payload.relationship_type
      && (text_lt o s
          || (str_eq o s && text_lt row.payload.object_role row.payload.subject_role)) in
    if swapped
    then record {
      relationship_type = row.payload.relationship_type;
      subject_id = o;
      subject_role = row.payload.object_role;
      object_id = s;
      object_role = row.payload.subject_role;
    }
    else record {
      relationship_type = row.payload.relationship_type;
      subject_id = s;
      subject_role = row.payload.subject_role;
      object_id = o;
      object_role = row.payload.object_role;
    }
