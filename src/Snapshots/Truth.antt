-- ===== src/Snapshots/Truth.antt =====
-- book/truth_eligibility.py: which claims may enter a book as facts.
use mura_project.Prelude.{
  String, Bool, true, false, ◌&&◌, ◌||◌, not, Option, List, if◌then◌else◌, is_some, is_none,
  text_or, str_eq, holds_text, any, is_empty,
}
use mura_project.Snapshots.Relationships.{Unicode, RelationshipShape, canonical_relationship}

-- What the code reads of the payload of a claim. The payloads of other claims have none of it.
pub record Payload : Type 0 where
  pub relationship_state : Option String
  pub uncertainty : Option String
  pub relationship_type : Option String
  pub subject_role : Option String
  pub object_role : Option String

pub record BookClaim : Type 0 where
  pub recording_id : String
  pub object_type : String
  pub predicate : String
  pub subject_person_id : Option String
  pub object_person_id : Option String
  pub evidence_ids : List String
  pub evidence_class : String
  pub verification_status : String
  pub assertion_mode : Option String
  pub status : String
  pub payload : Payload

-- `archive_status in allowed_statuses`
abbrev pub is_allowed_status : Bool → String → Bool
is_allowed_status allow_disputed status =
    str_eq status "active"
    || str_eq status "accepted"
    || (allow_disputed && str_eq status "disputed")

-- `assertion_mode in (None, "explicit")`
abbrev pub is_asserted : Option String → Bool
is_asserted mode = is_none mode || holds_text mode "explicit"

module _ (os : Unicode) where
  -- The value, normalized, is one of `_BOOK_GROUNDED_EVIDENCE_CLASSES`.
  abbrev pub is_book_grounded : String → Bool
  is_book_grounded value =
      let normalized = os.casefold (os.strip value) in
      str_eq normalized (os.casefold "A_explicit")
      || str_eq normalized (os.casefold "B_morphologically_explicit")
      || str_eq normalized (os.casefold "C_speaker_anchored")

  -- The arguments in the order of the code: the claim's recording, the selected ones, the status, the
  -- evidence and its class, the verification, the mode, and whether a disputed claim is allowed.
  unfoldable pub book_truth_fields_eligible :
      String → List String → String → List String → String → String → Option String → Bool → Bool
  book_truth_fields_eligible recording_id selected status evidence_ids evidence_class verification
        mode allow_disputed =
      any (str_eq recording_id) selected
      && is_allowed_status allow_disputed status
      && not (str_eq verification "rejected")
      && is_asserted mode
      && is_book_grounded evidence_class
      && not (is_empty evidence_ids)

  abbrev pub shape_of : BookClaim → RelationshipShape
  shape_of claim = record {
    relationship_type = text_or claim.payload.relationship_type claim.predicate;
    subject_person_id = claim.subject_person_id;
    subject_role = claim.payload.subject_role;
    object_person_id = claim.object_person_id;
    object_role = claim.payload.object_role;
  }

  -- The branch of a relationship
  unfoldable pub is_current_relationship : BookClaim → Bool
  unfolding canonical_relationship
  is_current_relationship claim =
      str_eq (text_or claim.payload.relationship_state "current") "current"
      && is_none claim.payload.uncertainty
      && is_some (canonical_relationship os (shape_of claim))

  unfoldable pub is_book_truth_eligible : BookClaim → List String → Bool → Bool
  unfolding book_truth_fields_eligible is_current_relationship
  is_book_truth_eligible claim selected allow_disputed =
      book_truth_fields_eligible claim.recording_id selected claim.status claim.evidence_ids
        claim.evidence_class claim.verification_status claim.assertion_mode allow_disputed
      && (if str_eq claim.object_type "question"
          then false
          else if str_eq claim.object_type "person_mention"
          then is_some claim.subject_person_id
          else if str_eq claim.object_type "relationship"
          then is_current_relationship claim
          else true)

unfoldable pub is_book_uncertainty_context_eligible : BookClaim → List String → Bool
is_book_uncertainty_context_eligible claim selected =
    str_eq claim.object_type "question"
    && any (str_eq claim.recording_id) selected
    && is_allowed_status true claim.status
    && not (str_eq claim.verification_status "rejected")
    && not (is_empty claim.evidence_ids)
