-- ===== src/Conflicts/Service.antt =====
-- `ConflictResolutionService` of storage/conflict_resolution.py: resolve, dismiss, reopen.
use mura_project.Prelude.{
  ℕ, String, Bool, false, ◌&&◌, not, Option, none, some, List, ◌∷◌, map, if◌then◌else◌, any, str_eq,
  holds_text, Result, ok, lookup_error, value_error, ◌>>=◌, ◌>>◌, or_raise, guard,
}
use mura_project.Prelude.Table.{find, modify}
use mura_project.Conflicts.Rows.{
  ClaimStatus, accepted, rejected, disputed, ArchiveClaimRow, ConflictStatus, open_status, resolved,
  dismissed, ArchiveConflictRow, ConflictAction, ArchiveConflictDecisionRow, Database, conflict_key,
  claim_key, is_open, is_resolved, is_dismissed,
}
use mura_project.Conflicts.Rows
use mura_project.Conflicts.Claims.{EdgeValues, claim_is_grounded}
use mura_project.Conflicts.Graph.{rebuild_graph}

-- The status that a conflict gives to one of its claims.
abbrev pub status_in : ConflictStatus → Option String → String → ClaimStatus
status_in open_status preferred_claim_id claim_id = disputed
status_in resolved preferred_claim_id claim_id =
    if holds_text preferred_claim_id claim_id then accepted else rejected
status_in dismissed preferred_claim_id claim_id = rejected

abbrev pub is_claim_of : ArchiveConflictRow → ArchiveClaimRow → Bool
is_claim_of conflict c = any (str_eq c.claim_id) conflict.claim_ids

-- `_apply_conflict_state`
unfoldable pub apply_conflict_state :
    ArchiveConflictRow → List ArchiveClaimRow → List ArchiveClaimRow
apply_conflict_state conflict claims =
    map
      (λ (c : ArchiveClaimRow).
        if is_claim_of conflict c
        then record c { status = status_in conflict.status conflict.preferred_claim_id c.claim_id }
        else c)
      claims

-- `_append_decision` about the conflict as it was before the write
abbrev pub decision :
    String
    → ArchiveConflictRow
    → ConflictAction
    → ConflictStatus
    → String
    → String
    → Option String
    → ℕ
    → ArchiveConflictDecisionRow
decision new_id conflict action resulting_status reviewer_reference note preferred_claim_id now =
    record {
      decision_id = new_id;
      conflict_id = conflict.conflict_id;
      family_id = conflict.family_id;
      action = action;
      previous_status = conflict.status;
      resulting_status = resulting_status;
      preferred_claim_id = preferred_claim_id;
      reviewer_reference = reviewer_reference;
      note = note;
      created_at = now;
    }

abbrev pub decided :
    ConflictStatus → Option String → Option String → ℕ → ArchiveConflictRow → ArchiveConflictRow
decided status preferred_claim_id note now conflict = record conflict {
  status = status;
  preferred_claim_id = preferred_claim_id;
  resolution_note = note;
  updated_at = now;
}

-- `_get_conflict`; `ConflictNotFoundError` is a `LookupError`.
unfoldable pub get_conflict : String → String → Database → Result ArchiveConflictRow
get_conflict family_id conflict_id db = do
  conflict ← or_raise (find conflict_key conflict_id db.conflicts) lookup_error
  guard (str_eq conflict.family_id family_id) lookup_error
  ok conflict

-- What a reviewer passes along, with the new decision's id and the time.
pub record Review : Type 0 where
  pub family_id : String
  pub conflict_id : String
  pub reviewer_reference : String
  pub note : String
  pub new_id : String
  pub now : ℕ

-- The common end of the three methods: the conflict, its decision, its claims and the graph.
unfoldable pub decide :
    (String → EdgeValues → String)
    → Review
    → ConflictAction
    → ConflictStatus
    → Option String
    → ArchiveConflictRow
    → Database
    → Database
unfolding apply_conflict_state rebuild_graph
decide edge_id v action status preferred_claim_id conflict db =
    let after = decided status preferred_claim_id (some v.note) v.now conflict in
    rebuild_graph edge_id v.family_id (record db {
      conflicts =
          modify conflict_key conflict.conflict_id
            (decided status preferred_claim_id (some v.note) v.now) db.conflicts;
      decisions =
          decision v.new_id conflict action status v.reviewer_reference v.note preferred_claim_id
            v.now
          ∷ db.decisions;
      claims = apply_conflict_state after db.claims;
    })

-- `preferred is None or not _claim_is_grounded(preferred)`, negated
abbrev pub is_groundable : Option ArchiveClaimRow → Bool
is_groundable none = false
is_groundable (some c) = claim_is_grounded c

-- `ConflictResolutionError` is a `ValueError`.
unfoldable pub resolve :
    (String → EdgeValues → String) → Review → String → Database → Result Database
unfolding get_conflict decide
resolve edge_id v preferred_claim_id db = do
  conflict ← get_conflict v.family_id v.conflict_id db
  guard (any (str_eq preferred_claim_id) conflict.claim_ids) value_error
  guard (is_groundable (find claim_key preferred_claim_id db.claims)) value_error
  ok (
      if is_resolved conflict.status
        && holds_text conflict.preferred_claim_id preferred_claim_id
        && holds_text conflict.resolution_note v.note
      then rebuild_graph edge_id v.family_id db
      else decide edge_id v Rows.resolve resolved (some preferred_claim_id) conflict db)

unfoldable pub dismiss : (String → EdgeValues → String) → Review → Database → Result Database
unfolding get_conflict decide
dismiss edge_id v db = do
  conflict ← get_conflict v.family_id v.conflict_id db
  ok (
      if is_dismissed conflict.status && holds_text conflict.resolution_note v.note
      then rebuild_graph edge_id v.family_id db
      else decide edge_id v Rows.dismiss dismissed none conflict db)

unfoldable pub reopen : (String → EdgeValues → String) → Review → Database → Result Database
unfolding get_conflict decide
reopen edge_id v db = do
  conflict ← get_conflict v.family_id v.conflict_id db
  guard (not (is_open conflict.status)) value_error
  ok (decide edge_id v Rows.reopen open_status none conflict db)
