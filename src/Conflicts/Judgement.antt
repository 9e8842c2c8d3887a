-- ===== src/Conflicts/Judgement.antt =====
-- What a reviewer's decision does (storage/conflict_resolution.py): to the conflict, the log, the claims and
-- the graph.
use mathlib.Core.Option
use mura_project.Prelude.{
  ◌≡◌, ◌⊎◌, ◌∙◌, refl, sym, ap, subst, String, true, false, ◌&&◌, Option, some, List, [], ◌∷◌, map,
  if◌then◌else◌, any, All, All-map, str_eq, eq_iff, holds_text, Bool-cases, inl, inr, arith, ok,
}
use mura_project.Prelude.Table.{find, modify, find-modify_self, key-find}
use mura_project.Conflicts.Rows.{
  ClaimStatus, accepted, rejected, ConflictStatus, open_status, resolved, dismissed,
  ArchiveConflictRow, ArchiveClaimRow, Database, FamilyGraphEdgeRow, ConflictAction, conflict_key,
  claim_key, is_in_force, is_resolved, is_open, is_dismissed,
}
use mura_project.Conflicts.Rows
use mura_project.Conflicts.Claims.{EdgeValues}
use mura_project.Conflicts.Graph.{rebuild_graph}
use mura_project.Conflicts.Service.{
  Review, status_in, is_claim_of, apply_conflict_state, decided, decision, decide, get_conflict,
  is_groundable, resolve,
}
use mura_project.Conflicts.Edges.{is_source, IsGraph}
use mura_project.Conflicts.Rebuilt.{rebuild_graph-IsGraph}

-- The claim after the decision.
abbrev pub judged : ArchiveConflictRow → ArchiveClaimRow → ArchiveClaimRow
judged conflict c =
    if is_claim_of conflict c
    then record c { status = status_in conflict.status conflict.preferred_claim_id c.claim_id }
    else c

-- The edge is another family's, or the claim is no source of it.
abbrev pub IsFreeOf : String → String → FamilyGraphEdgeRow → Type 0
IsFreeOf family_id k e =
    (str_eq e.family_id family_id ≡ false) ⊎ (any (str_eq k) e.source_claim_ids ≡ false)

-- A decision that gave the conflict `c` the status and the preferred claim, in the terms of the service.
pub record HasEffect (v : Review) (action : ConflictAction) (status : ConflictStatus)
    (preferred : Option String) (c : ArchiveConflictRow) (db db' : Database) : Type 0 where
  pub conflict :
      find conflict_key v.conflict_id db'.conflicts
      ≡ some (decided status preferred (some v.note) v.now c)
  pub log :
      db'.decisions
      ≡ decision v.new_id c action status v.reviewer_reference v.note preferred v.now ∷ db.decisions
  pub claims :
      (k : String)
      → find claim_key k db'.claims
        ≡ Option.map
            (judged (decided status preferred (some v.note) v.now c))
            (find claim_key k db.claims)
  pub graph : IsGraph v.family_id db.edges db'.claims db'.edges
  pub losers :
      (k : String)
      → any (str_eq k) c.claim_ids ≡ true
      → is_in_force (status_in status preferred k) ≡ false
      → All (IsFreeOf v.family_id k) db'.edges

-- A conflict `c` that is resolved in favour of the claim `k`, on the columns.
pub record IsJudged (v : Review) (k : String) (c : ArchiveConflictRow) (db db' : Database)
    : Type 0 where
  pub conflict :
      find conflict_key v.conflict_id db'.conflicts
      ≡ some (record c {
        status = resolved;
        preferred_claim_id = some k;
        resolution_note = some v.note;
        updated_at = v.now;
      })
  pub log :
      db'.decisions
      ≡ record {
        decision_id = v.new_id;
        conflict_id = c.conflict_id;
        family_id = c.family_id;
        action = Rows.resolve;
        previous_status = c.status;
        resulting_status = resolved;
        preferred_claim_id = some k;
        reviewer_reference = v.reviewer_reference;
        note = v.note;
        created_at = v.now;
      }
        ∷ db.decisions
  pub claims :
      (j : String)
      → find claim_key j db'.claims
        ≡ Option.map
            (λ (claim : ArchiveClaimRow).
              if any (str_eq claim.claim_id) c.claim_ids
              then record claim { status = if str_eq k claim.claim_id then accepted else rejected }
              else claim)
            (find claim_key j db.claims)
  pub graph : IsGraph v.family_id db.edges db'.claims db'.edges
  pub losers :
      (j : String)
      → any (str_eq j) c.claim_ids ≡ true
      → str_eq k j ≡ false
      → All (IsFreeOf v.family_id j) db'.edges

find-map :
    (f : ArchiveClaimRow → ArchiveClaimRow) (k : String) (claims : List ArchiveClaimRow)
    → ((c : ArchiveClaimRow) → claim_key (f c) ≡ claim_key c)
    → find claim_key k (map f claims) ≡ Option.map f (find claim_key k claims)
unfolding find
find-map f k [] keep = refl
find-map f k (c ∷ claims) keep = ground (arith, keep c, find-map f k claims keep)

judged-claim_key :
    (conflict : ArchiveConflictRow) (c : ArchiveClaimRow)
    → claim_key (judged conflict c) ≡ claim_key c
judged-claim_key conflict c = ground arith

-- A claim that the conflict takes out of force supports nothing.
silenced :
    (family_id k : String) (conflict : ArchiveConflictRow) (e : FamilyGraphEdgeRow)
    (claims : List ArchiveClaimRow)
    → any (str_eq k) conflict.claim_ids ≡ true
    → is_in_force (status_in conflict.status conflict.preferred_claim_id k) ≡ false
    → any (is_source family_id e k) (apply_conflict_state conflict claims) ≡ false
unfolding apply_conflict_state
silenced family_id k conflict e [] one out = refl
silenced family_id k conflict e (c ∷ claims) one out = elim (Bool-cases (str_eq k c.claim_id)) [
  | inl same ↦
      let equal : k ≡ c.claim_id = (eq_iff k c.claim_id).0 same in
      let own : is_claim_of conflict c ≡ true = rw equal at one in
      let gone : is_in_force (status_in conflict.status conflict.preferred_claim_id c.claim_id)
          ≡ false =
        rw equal at out in
      rw own (ground (arith, gone, silenced family_id k conflict e claims one out))
  | inr other ↦ elim (Bool-cases (is_claim_of conflict c)) [
    | inl own ↦ rw own (ground (arith, silenced family_id k conflict e claims one out))
    | inr foreign ↦ rw foreign (ground (arith, silenced family_id k conflict e claims one out))
  ]
]

module _ (edge_id : String → EdgeValues → String) where
  decide-HasEffect :
      (v : Review) (action : ConflictAction) (status : ConflictStatus) (preferred : Option String)
      (c : ArchiveConflictRow) (db : Database)
      → find conflict_key v.conflict_id db.conflicts ≡ some c
      → HasEffect v action status preferred c db (decide edge_id v action status preferred c db)
  unfolding decide
  decide-HasEffect v action status preferred c db e =
      let after : ArchiveConflictRow = decided status preferred (some v.note) v.now c in
      let before : Database = record db { claims = apply_conflict_state after db.claims } in
      let own : c.conflict_id ≡ v.conflict_id =
        key-find conflict_key v.conflict_id db.conflicts e in
      let g : IsGraph v.family_id db.edges before.claims
          (rebuild_graph edge_id v.family_id before).edges =
        rebuild_graph-IsGraph edge_id v.family_id before in
      record {
        conflict =
            subst
              (λ j.
                find conflict_key v.conflict_id (
                  modify conflict_key j (decided status preferred (some v.note) v.now) db.conflicts)
                ≡ some after)
              (sym own)
              (find-modify_self conflict_key v.conflict_id
                  (decided status preferred (some v.note) v.now) db.conflicts (λ x. refl)
                ∙ ap (Option.map (decided status preferred (some v.note) v.now)) e);
        log = unfold rebuild_graph in refl;
        claims = λ k.
            unfold rebuild_graph apply_conflict_state in
            find-map (judged after) k db.claims (judged-claim_key after);
        graph = unfold rebuild_graph in g;
        losers = λ k one out.
            unfold rebuild_graph in
            All-map
              (λ edge from. elim from [
                | inl other ↦ inl other
                | inr same ↦ inr (same k ∙ silenced v.family_id k after edge db.claims one out)
              ])
              _ g.sources;
      }

  decide-IsJudged :
      (v : Review) (k : String) (c : ArchiveConflictRow) (db : Database)
      → find conflict_key v.conflict_id db.conflicts ≡ some c
      → IsJudged v k c db (decide edge_id v Rows.resolve resolved (some k) c db)
  decide-IsJudged v k c db e =
      let h : HasEffect v Rows.resolve resolved (some k) c db
          (decide edge_id v Rows.resolve resolved (some k) c db) =
        decide-HasEffect v Rows.resolve resolved (some k) c db e in
      record {
        conflict = h.conflict;
        log = h.log;
        claims = h.claims;
        graph = h.graph;
        losers = λ j one other. h.losers j one (rw other refl);
      }

  -- Resolving a conflict of the family in favour of one of its claims that is grounded, unless it is resolved
  -- that way already, succeeds, and: the conflict is resolved and prefers the claim, the log has one new
  -- decision that names the status from before, each claim of the conflict is accepted if it is the preferred
  -- one and rejected otherwise, other claims are as they were, the edges are the graph of the claims as they
  -- are then, and no edge of the family has a claim that lost among its sources.
  pub resolve-IsJudged :
      (v : Review) (k : String) (c : ArchiveConflictRow) (db : Database)
      → find conflict_key v.conflict_id db.conflicts ≡ some c
      → str_eq c.family_id v.family_id ≡ true
      → any (str_eq k) c.claim_ids ≡ true
      → is_groundable (find claim_key k db.claims) ≡ true
      → (is_resolved c.status
          && holds_text c.preferred_claim_id k
          && holds_text c.resolution_note v.note)
        ≡ false
      → (db' : Database) × (resolve edge_id v k db ≡ ok db') × IsJudged v k c db db'
  unfolding resolve get_conflict
  resolve-IsJudged v k c db e own one grounded new = (
    decide edge_id v Rows.resolve resolved (some k) c db,
    rw (e, own, one, grounded, new) refl,
    decide-IsJudged v k c db e,
  )
