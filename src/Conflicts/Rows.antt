-- ===== src/Conflicts/Rows.antt =====
-- The tables of the archive that conflicts are about (storage/archive.py, storage/conflict_resolution.py).
use mura_project.Prelude.{ℕ, String, Bool, true, false, Option, List}

-- `ArchiveClaimRow.status`
pub data ClaimStatus : Type 0 where
  active accepted rejected disputed unresolved historical ended negated figurative : ClaimStatus

-- What the archive reads of the payload of a relationship claim; the keys of its type and its roles are
-- those of a validated claim, always there.
pub record Relationship : Type 0 where
  pub relationship_type : String
  pub subject_role : String
  pub object_role : String
  pub relationship_state : Option String
  pub uncertainty : Option String

pub record ArchiveClaimRow : Type 0 where
  pub claim_id : String
  pub family_id : String
  pub recording_id : String
  pub object_type : String
  pub subject_person_id : Option String
  pub object_person_id : Option String
  pub payload : Relationship
  pub evidence_ids : List String
  pub evidence_class : String
  pub assertion_mode : Option String
  pub status : ClaimStatus

-- `ConflictStatus` of domain/models.py
pub data ConflictStatus : Type 0 where
  open_status resolved dismissed : ConflictStatus

pub record ArchiveConflictRow : Type 0 where
  pub conflict_id : String
  pub family_id : String
  pub conflict_type : String
  pub status : ConflictStatus
  pub claim_ids : List String
  pub preferred_claim_id : Option String
  pub resolution_note : Option String
  pub updated_at : ℕ

pub data ConflictAction : Type 0 where
  resolve dismiss reopen auto_reopen : ConflictAction

pub record ArchiveConflictDecisionRow : Type 0 where
  pub decision_id : String
  pub conflict_id : String
  pub family_id : String
  pub action : ConflictAction
  pub previous_status : ConflictStatus
  pub resulting_status : ConflictStatus
  pub preferred_claim_id : Option String
  pub reviewer_reference : String
  pub note : String
  pub created_at : ℕ

pub record FamilyGraphEdgeRow : Type 0 where
  pub edge_id : String
  pub family_id : String
  pub relationship_type : String
  pub subject_person_id : String
  pub subject_role : String
  pub object_person_id : String
  pub object_role : String
  pub source_claim_ids : List String

-- A new row comes before the old ones.
pub record Database : Type 0 where
  pub claims : List ArchiveClaimRow
  pub conflicts : List ArchiveConflictRow
  pub decisions : List ArchiveConflictDecisionRow
  pub edges : List FamilyGraphEdgeRow

abbrev pub conflict_key : ArchiveConflictRow → String
conflict_key c = c.conflict_id

abbrev pub claim_key : ArchiveClaimRow → String
claim_key c = c.claim_id

-- `claim.status in {"active", "accepted"}`
abbrev pub is_in_force : ClaimStatus → Bool
is_in_force active = true
is_in_force accepted = true
is_in_force rejected = false
is_in_force disputed = false
is_in_force unresolved = false
is_in_force historical = false
is_in_force ended = false
is_in_force negated = false
is_in_force figurative = false

abbrev pub is_active : ClaimStatus → Bool
is_active active = true
is_active accepted = false
is_active rejected = false
is_active disputed = false
is_active unresolved = false
is_active historical = false
is_active ended = false
is_active negated = false
is_active figurative = false

abbrev pub is_open : ConflictStatus → Bool
is_open open_status = true
is_open resolved = false
is_open dismissed = false

abbrev pub is_resolved : ConflictStatus → Bool
is_resolved open_status = false
is_resolved resolved = true
is_resolved dismissed = false

abbrev pub is_dismissed : ConflictStatus → Bool
is_dismissed open_status = false
is_dismissed resolved = false
is_dismissed dismissed = true
