-- ===== src/Snapshots/Rows.antt =====
-- The parts of a snapshot (domain/book_models.py), with what the validations read of them.
use mura_project.Prelude.{ℕ, String, Option, List}
use mura_project.Snapshots.Relationships.{RelationshipShape}

pub record SnapshotDate : Type 0 where
  pub value : Option String
  pub precision : String

pub record SnapshotPerson : Type 0 where
  pub person_id : String
  pub aliases : List String
  pub category : String
  pub relation_to_speaker : Option String
  pub birth_date : Option SnapshotDate
  pub death_date : Option SnapshotDate
  pub professions : List String
  pub locations : List String
  pub descriptions : List String
  pub source_recording_ids : List String
  -- a dictionary: no key comes twice
  pub attribute_sources : List (String × List String)

pub record SnapshotRelationship : Type 0 where
  pub edge_id : String
  pub shape : RelationshipShape
  pub source_claim_ids : List String

pub record SnapshotEvent : Type 0 where
  pub event_id : String
  pub participant_person_ids : List String
  pub recording_id : Option String
  pub evidence_quote_ids : List String

pub record SnapshotStory : Type 0 where
  pub story_id : String
  pub recording_id : String
  pub person_ids : List String
  pub evidence_quote_ids : List String

-- The predicate of a claim and its people and roles are its shape.
pub record SnapshotClaim : Type 0 where
  pub claim_id : String
  pub recording_id : String
  pub object_type : String
  pub shape : RelationshipShape
  pub evidence_class : String
  pub assertion_mode : Option String
  pub verification_status : String
  pub archive_status : String
  pub evidence_ids : List String

pub record SnapshotCorrection : Type 0 where
  pub correction_id : String
  pub recording_id : String

pub record SnapshotUncertainty : Type 0 where
  pub uncertainty_id : String
  pub recording_id : Option String
  pub person_ids : List String

pub record SnapshotConflict : Type 0 where
  pub conflict_id : String
  pub claim_ids : List String
  pub preferred_claim_id : Option String
  pub recording_ids : List String

pub record SnapshotEvidence : Type 0 where
  pub evidence_id : String
  pub recording_id : String
  pub text : String
  pub person_ids : List String

pub record SnapshotManifest : Type 0 where
  pub source_recording_ids : List String
  pub source_story_ids : List String
  pub source_claim_ids : List String
  pub source_event_ids : List String
  pub source_person_ids : List String
  pub source_evidence_ids : List String
  pub correction_count : ℕ
  pub uncertainty_count : ℕ
  pub conflict_count : ℕ

pub record BookSourceSnapshot : Type 0 where
  pub schema_version : String
  pub manifest : SnapshotManifest
  pub people : List SnapshotPerson
  pub relationships : List SnapshotRelationship
  pub events : List SnapshotEvent
  pub stories : List SnapshotStory
  pub claims : List SnapshotClaim
  pub corrections : List SnapshotCorrection
  pub uncertainties : List SnapshotUncertainty
  pub conflicts : List SnapshotConflict
  pub evidence : List SnapshotEvidence
  pub allowed_years : List ℕ
  pub material_anchor_candidates : List String

abbrev pub evidence_key : SnapshotEvidence → String
evidence_key e = e.evidence_id

abbrev pub claim_key : SnapshotClaim → String
claim_key c = c.claim_id

abbrev pub person_key : SnapshotPerson → String
person_key p = p.person_id
