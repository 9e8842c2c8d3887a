-- ===== src/Snapshots/Closed.antt =====
-- What a snapshot is when its provenance is closed: every reference leads to a part of the snapshot, and every
-- part comes from a selected recording (the docstring of book/snapshot_validation.py).
use mura_project.Prelude.{◌≡◌, String, true, Option, none, some, List, [], ◌∷◌, map, All, length}
use mura_project.Prelude.Table.{find}
use mura_project.Snapshots.Relationships.{Unicode, relationship_semantics_match}
use mura_project.Snapshots.Rows.{
  SnapshotPerson, SnapshotRelationship, SnapshotEvent, SnapshotStory, SnapshotClaim,
  SnapshotUncertainty, SnapshotConflict, SnapshotEvidence, BookSourceSnapshot, evidence_key,
  claim_key, person_key,
}
use mura_project.Snapshots.Ids.{IsUnique, IsSame, IsIn, IsWithin}
use mura_project.Snapshots.Validation.{
  selected, is_eligible, required_keys, sources_of, recordings_of,
}

abbrev pub IsSomeIn : Option String → List String → Type 0
IsSomeIn none ys = ⊥
IsSomeIn (some k) ys = IsIn k ys

-- None, or one of the list
abbrev pub IsOptionalIn : Option String → List String → Type 0
IsOptionalIn none ys = Unit
IsOptionalIn (some k) ys = IsIn k ys

abbrev pub IsExpected : Option (List String) → List String → Type 0
IsExpected none ids = Unit
IsExpected (some expected) ids = IsSame ids expected

abbrev pub IsNonempty : List String → Type 0
IsNonempty [] = ⊥
IsNonempty (k ∷ ks) = Unit

module _ (s : BookSourceSnapshot) where
  abbrev pub evidence_ids : List String
  evidence_ids = map evidence_key s.evidence

  abbrev pub claim_ids : List String
  claim_ids = map claim_key s.claims

  abbrev pub person_ids : List String
  person_ids = map person_key s.people

  pub record HasUniqueIds : Type 0 where
    pub evidence : IsUnique evidence_ids
    pub claims : IsUnique claim_ids
    pub people : IsUnique person_ids
    pub stories : IsUnique (map (λ x. x.story_id) s.stories)
    pub events : IsUnique (map (λ x. x.event_id) s.events)
    pub relationships : IsUnique (map (λ x. x.edge_id) s.relationships)
    pub corrections : IsUnique (map (λ x. x.correction_id) s.corrections)
    pub conflicts : IsUnique (map (λ x. x.conflict_id) s.conflicts)

  -- The manifest is an exact table of contents.
  pub record IsListed : Type 0 where
    pub evidence : IsSame evidence_ids s.manifest.source_evidence_ids
    pub claims : IsSame claim_ids s.manifest.source_claim_ids
    pub people : IsSame person_ids s.manifest.source_person_ids
    pub stories : IsSame (map (λ x. x.story_id) s.stories) s.manifest.source_story_ids
    pub events : IsSame (map (λ x. x.event_id) s.events) s.manifest.source_event_ids
    pub corrections : s.manifest.correction_count ≡ length s.corrections
    pub uncertainties : s.manifest.uncertainty_count ≡ length s.uncertainties
    pub conflicts : s.manifest.conflict_count ≡ length s.conflicts

  abbrev pub IsClosedEvidence : SnapshotEvidence → Type 0
  IsClosedEvidence e = IsIn e.recording_id (selected s) × IsWithin e.person_ids person_ids

  abbrev pub IsClosedAttribute : SnapshotPerson → String → Type 0
  IsClosedAttribute p key =
      IsNonempty (sources_of key p.attribute_sources)
      × IsWithin (sources_of key p.attribute_sources) (selected s)

  -- The person and each attribute that the snapshot states have sources, and all are selected.
  abbrev pub IsClosedPerson : SnapshotPerson → Type 0
  IsClosedPerson p =
      IsWithin p.source_recording_ids (selected s)
      × IsNonempty p.source_recording_ids
      × All (IsClosedAttribute p) (required_keys p)

  abbrev pub IsClosedStory : SnapshotStory → Type 0
  IsClosedStory x =
      IsIn x.recording_id (selected s)
      × IsWithin x.evidence_quote_ids evidence_ids
      × IsWithin x.person_ids person_ids

  abbrev pub IsClosedEvent : SnapshotEvent → Type 0
  IsClosedEvent x =
      IsSomeIn x.recording_id (selected s)
      × IsWithin x.evidence_quote_ids evidence_ids
      × IsWithin x.participant_person_ids person_ids

  abbrev pub IsClosedUncertainty : SnapshotUncertainty → Type 0
  IsClosedUncertainty x =
      IsOptionalIn x.recording_id (selected s) × IsWithin x.person_ids person_ids

  -- A conflict has claims of the snapshot, prefers none or one of them, and names exactly their recordings.
  abbrev pub IsClosedConflict : SnapshotConflict → Type 0
  IsClosedConflict x =
      IsNonempty x.claim_ids
      × IsWithin x.claim_ids claim_ids
      × IsOptionalIn x.preferred_claim_id x.claim_ids
      × IsWithin x.recording_ids (selected s)
      × IsSame x.recording_ids (recordings_of s.claims x.claim_ids)

  module _ (os : Unicode) where
    abbrev pub IsClosedClaim : SnapshotClaim → Type 0
    IsClosedClaim c = (is_eligible os s c ≡ true) × IsWithin c.evidence_ids evidence_ids

    -- The claim of the snapshot that an id names tells of the relationship.
    abbrev pub IsSupport : SnapshotRelationship → String → Type 0
    IsSupport r k =
        (c : SnapshotClaim) × (find claim_key k s.claims ≡ some c)
        × (c.object_type ≡ "relationship")
        × (relationship_semantics_match os c.shape r.shape ≡ true)
        × IsIn c.recording_id (selected s)

    abbrev pub IsClosedRelationship : SnapshotRelationship → Type 0
    IsClosedRelationship r =
        IsSomeIn r.shape.subject_person_id person_ids
        × IsSomeIn r.shape.object_person_id person_ids
        × IsNonempty r.source_claim_ids
        × All (IsSupport r) r.source_claim_ids

    pub record IsClosed (wanted : Option (List String)) : Type 0 where
      pub version : s.schema_version ≡ "book-source-snapshot-v3"
      pub expected : IsExpected wanted (selected s)
      pub unique : HasUniqueIds
      pub listed : IsListed
      pub evidence : All IsClosedEvidence s.evidence
      pub claims : All IsClosedClaim s.claims
      pub people : All IsClosedPerson s.people
      pub relationships : All IsClosedRelationship s.relationships
      pub stories : All IsClosedStory s.stories
      pub events : All IsClosedEvent s.events
      pub corrections : All (λ x. IsIn x.recording_id (selected s)) s.corrections
      pub uncertainties : All IsClosedUncertainty s.uncertainties
      pub conflicts : All IsClosedConflict s.conflicts
