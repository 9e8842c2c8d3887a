-- ===== src/Snapshots/Examples.antt =====
-- The theorems about snapshots at a family of two, and tests by evaluation.
use mura_project.Prelude.{
  ◌≡◌, ◌↔◌, refl, String, false, ◌&&◌, none, some, [], ◌∷◌, ok, err, value_error, Memᴰ,
}
use mura_project.Prelude.Table.{find}
use mura_project.Snapshots.Relationships.{
  Unicode, RelationshipShape, relationship_semantics_match, normalize_relationship_role, alias_of,
  canonical_relationship, checked_canonical, canonical_of, parent_child_of, spouse_of, sibling_of,
  sorted_ends,
}
use mura_project.Snapshots.Truth.{book_truth_fields_eligible}
use mura_project.Snapshots.Rows.{
  SnapshotPerson, SnapshotRelationship, SnapshotClaim, SnapshotEvidence, BookSourceSnapshot,
}
use mura_project.Snapshots.Ids.{insert_id, exact_ids, is_same_ids, is_unique}
use mura_project.Snapshots.Validation.{
  validate_snapshot_closure, check_version, check_unique, check_manifest, for_each, check_evidence,
  check_claim, is_eligible, check_person, required_keys, check_attribute, sources_of,
  check_relationship, check_support,
}
use mura_project.Snapshots.Closed.{IsClosed}
use mura_project.Snapshots.Endpoints.{
  turned, reversed, is_directional, relationship_semantics_match-ends,
}
use mura_project.Snapshots.Acceptance.{validate_snapshot_closure-IsClosed}
use mura_project.Snapshots.Provenance.{IsGrounded, validate_snapshot_closure-IsGrounded}

-- Lower-case texts without blanks at their ends.
abbrev pub plain : Unicode
plain = record { strip = λ s. s; casefold = λ s. s }

abbrev told : RelationshipShape
told = record {
  relationship_type = "parent_child";
  subject_person_id = some "p1";
  subject_role = some "әке";
  object_person_id = some "p2";
  object_role = some "daughter";
}

abbrev person : String → SnapshotPerson
person k = record {
  person_id = k;
  aliases = [];
  category = "unknown";
  relation_to_speaker = none;
  birth_date = none;
  death_date = none;
  professions = [];
  locations = [];
  descriptions = "teacher" ∷ [];
  source_recording_ids = "r1" ∷ [];
  attribute_sources = ("display_name", "r1" ∷ []) ∷ ("description:teacher", "r1" ∷ []) ∷ [];
}

abbrev claim : SnapshotClaim
claim = record {
  claim_id = "c1";
  recording_id = "r1";
  object_type = "relationship";
  shape = told;
  evidence_class = "A_explicit";
  assertion_mode = some "explicit";
  verification_status = "unreviewed";
  archive_status = "accepted";
  evidence_ids = "e1" ∷ [];
}

abbrev words : SnapshotEvidence
words = record {
  evidence_id = "e1";
  recording_id = "r1";
  text = "my father";
  person_ids = "p1" ∷ "p2" ∷ [];
}

-- The edge names the daughter first.
abbrev edge : SnapshotRelationship
edge = record { edge_id = "g1"; shape = turned told; source_claim_ids = "c1" ∷ [] }

abbrev pub snapshot : BookSourceSnapshot
snapshot = record {
  schema_version = "book-source-snapshot-v3";
  manifest = record {
    source_recording_ids = "r1" ∷ [];
    source_story_ids = [];
    source_claim_ids = "c1" ∷ [];
    source_event_ids = [];
    source_person_ids = "p2" ∷ "p1" ∷ [];
    source_evidence_ids = "e1" ∷ [];
    correction_count = 0;
    uncertainty_count = 0;
    conflict_count = 0;
  };
  people = person "p1" ∷ person "p2" ∷ [];
  relationships = edge ∷ [];
  events = [];
  stories = [];
  claims = claim ∷ [];
  corrections = [];
  uncertainties = [];
  conflicts = [];
  evidence = words ∷ [];
  allowed_years = [];
  material_anchor_candidates = [];
}

pub accepted : validate_snapshot_closure plain snapshot (some ("r1" ∷ [])) ≡ ok tt
unfolding validate_snapshot_closure check_version is_same_ids exact_ids insert_id check_unique
    is_unique check_manifest for_each check_evidence check_claim is_eligible
    book_truth_fields_eligible check_person required_keys check_attribute sources_of
    check_relationship find check_support relationship_semantics_match canonical_relationship
    checked_canonical canonical_of normalize_relationship_role alias_of parent_child_of spouse_of
    sibling_of sorted_ends
accepted = refl

-- A claim that cites evidence outside the snapshot
dangling :
    validate_snapshot_closure plain
      (record snapshot { claims = record claim { evidence_ids = "e2" ∷ [] } ∷ [] })
      none
    ≡ err value_error
unfolding validate_snapshot_closure check_version is_same_ids exact_ids insert_id check_unique
    is_unique check_manifest for_each check_evidence check_claim is_eligible
    book_truth_fields_eligible
dangling = refl

validate_snapshot_closure-IsClosed_example :
    (validate_snapshot_closure plain snapshot none ≡ ok tt) ↔ IsClosed snapshot plain none
validate_snapshot_closure-IsClosed_example = validate_snapshot_closure-IsClosed snapshot plain none

validate_snapshot_closure-IsGrounded_example : IsGrounded plain snapshot edge
validate_snapshot_closure-IsGrounded_example =
    validate_snapshot_closure-IsGrounded plain snapshot (some ("r1" ∷ [])) edge accepted
      (Memᴰ.head refl)

relationship_semantics_match-ends_example :
    (relationship_semantics_match plain told (turned told)
      ≡ relationship_semantics_match plain told told)
    × ((is_directional plain told && relationship_semantics_match plain (reversed told) told)
        ≡ false)
relationship_semantics_match-ends_example = relationship_semantics_match-ends plain told told refl
