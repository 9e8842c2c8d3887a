-- ===== src/Conflicts/Examples.antt =====
-- The theorems about conflicts at a small family, and tests by evaluation.
use mura_project.Prelude.{ℕ, ◌≡◌, refl, String, none, some, [], ◌∷◌, map, ok, length}
use mura_project.Prelude.Table.{find, modify}
use mura_project.Conflicts.Rows.{
  ArchiveClaimRow, Relationship, active, accepted, rejected, disputed, open_status, resolved,
  dismissed, Database, FamilyGraphEdgeRow, conflict_key,
}
use mura_project.Conflicts.Rows
use mura_project.Conflicts.Claims.{
  EdgeValues, claim_is_grounded, relationship_state_status, relationship_pair, edge_values,
}
use mura_project.Conflicts.Graph.{rebuild_graph}
use mura_project.Conflicts.Service.{Review, resolve}
use mura_project.Conflicts.Reconcile.{Generated}
use mura_project.Conflicts.Schedules.{resolves, dismisses, reopens, ingests, run}
use mura_project.Conflicts.Ingestion.{Audited}
use mura_project.Conflicts.Audit.{run-Audited}
use mura_project.Conflicts.Edges.{IsGraph}
use mura_project.Conflicts.Rebuilt.{rebuild_graph-IsGraph}
use mura_project.Conflicts.Judgement.{IsJudged, resolve-IsJudged}

abbrev edge_id : String → EdgeValues → String
edge_id family_id v = v.relationship_type

abbrev related : String → String → ArchiveClaimRow
related k relationship_type = record {
  claim_id = k;
  family_id = "f1";
  recording_id = "r1";
  object_type = "relationship";
  subject_person_id = some "p1";
  object_person_id = some "p2";
  payload = record {
    relationship_type = relationship_type;
    subject_role = "first";
    object_role = "second";
    relationship_state = some "current";
    uncertainty = none;
  };
  evidence_ids = "e1" ∷ [];
  evidence_class = "A_explicit";
  assertion_mode = some "asserted";
  status = active;
}

-- Two claims that disagree about two people.
abbrev fresh : Database
fresh = record {
  claims = related "c1" "parent" ∷ related "c2" "spouse" ∷ [];
  conflicts = [];
  decisions = [];
  edges = [];
}

abbrev generated : Generated
generated = record { conflict_id = λ f ks. "x1"; decision_id = λ k. "d0"; now = 10 }

abbrev review : String → ℕ → Review
review d t = record {
  family_id = "f1";
  conflict_id = "x1";
  reviewer_reference = "u1";
  note = "checked with the family";
  new_id = d;
  now = t;
}

-- The database after an ingestion: both claims are disputed and no edge is left.
abbrev ingested : Database
ingested = run edge_id (ingests generated "f1" ∷ []) fresh

abbrev settled_db : Database
settled_db = run edge_id (resolves (review "d1" 20) "c2" ∷ []) ingested

statuses : map (λ c. c.status) ingested.claims ≡ disputed ∷ disputed ∷ []
unfolding run find modify claim_is_grounded relationship_state_status relationship_pair edge_values
statuses = refl

no_edges : ingested.edges ≡ []
unfolding run find modify claim_is_grounded relationship_state_status relationship_pair edge_values
no_edges = refl

chosen : map (λ c. c.status) settled_db.claims ≡ rejected ∷ accepted ∷ []
unfolding run find modify claim_is_grounded relationship_state_status relationship_pair edge_values
chosen = refl

one_edge : map (λ e. e.source_claim_ids) settled_db.edges ≡ ("c2" ∷ []) ∷ []
unfolding run find modify claim_is_grounded relationship_state_status relationship_pair edge_values
one_edge = refl

-- The same resolution again leaves no second decision.
again : length (run edge_id (resolves (review "d2" 30) "c2" ∷ []) settled_db).decisions ≡ 1
unfolding run find modify claim_is_grounded relationship_state_status relationship_pair edge_values
again = refl

rebuild_graph-IsGraph_example :
    IsGraph "f1" [] fresh.claims (rebuild_graph edge_id "f1" fresh).edges
rebuild_graph-IsGraph_example = rebuild_graph-IsGraph edge_id "f1" fresh

run-Audited_example : Audited (
    run edge_id
      (ingests generated "f1"
        ∷ resolves (review "d1" 20) "c2"
        ∷ reopens (review "d2" 30)
        ∷ dismisses (review "d3" 40)
        ∷ [])
      fresh)
unfolding find
run-Audited_example =
    run-Audited edge_id
      (ingests generated "f1"
        ∷ resolves (review "d1" 20) "c2"
        ∷ reopens (review "d2" 30)
        ∷ dismisses (review "d3" 40)
        ∷ [])
      fresh (record { unique = tt; known = tt; settled = tt; history = λ k c e. absurd (cc) })

abbrev disputed_conflict : Rows.ArchiveConflictRow
disputed_conflict = record {
  conflict_id = "x1";
  family_id = "f1";
  conflict_type = "relationship";
  status = open_status;
  claim_ids = "c1" ∷ "c2" ∷ [];
  preferred_claim_id = none;
  resolution_note = none;
  updated_at = 10;
}

abbrev open_db : Database
open_db = record fresh { conflicts = disputed_conflict ∷ [] }

resolve-IsJudged_example :
    (db' : Database) × (resolve edge_id (review "d1" 20) "c2" open_db ≡ ok db')
    × IsJudged (review "d1" 20) "c2" disputed_conflict open_db db'
unfolding find claim_is_grounded relationship_state_status
resolve-IsJudged_example =
    resolve-IsJudged edge_id (review "d1" 20) "c2" disputed_conflict open_db refl refl refl refl
      refl
