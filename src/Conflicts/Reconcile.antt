-- ===== src/Conflicts/Reconcile.antt =====
-- `_reconcile_relationship_conflicts` of storage/conflict_resolution.py: after an ingestion, the conflicts of
-- a family are found again from its claims.
use mura_project.Prelude.{
  ℕ, String, Bool, true, false, ◌&&◌, ◌||◌, not, Option, none, some, List, [], ◌∷◌, map,
  if◌then◌else◌, leb, any, all, select, length, str_eq, Result, ok, integrity_error, ◌>>=◌, ◌>>◌,
  guard, is_none,
}
use mura_project.Prelude.Table.{find, modify}
use mura_project.Conflicts.Rows.{
  ArchiveClaimRow, open_status, ArchiveConflictRow, Database, auto_reopen, conflict_key, claim_key,
  is_open, is_resolved,
}
use mura_project.Conflicts.Claims.{
  claim_is_grounded, relationship_state_status, relationship_pair, is_same_pair,
}
use mura_project.Conflicts.Graph.{sorted, is_relationship_of, distinct_values}
use mura_project.Conflicts.Service.{apply_conflict_state, decision, decided}

-- `set(a) == set(b)`
abbrev pub is_same_set : List String → List String → Bool
is_same_set xs ys = all (λ x. any (str_eq x) ys) xs && all (λ y. any (str_eq y) xs) ys

abbrev pub newer : ArchiveConflictRow → Option ArchiveConflictRow → Option ArchiveConflictRow
newer c none = some c
newer c (some d) = if leb d.updated_at c.updated_at then some c else some d

-- `ORDER BY updated_at DESC`, the first that passes the test
unfoldable pub latest_where :
    (ArchiveConflictRow → Bool) → List ArchiveConflictRow → Option ArchiveConflictRow
latest_where p [] = none
latest_where p (c ∷ conflicts) =
    let rest = latest_where p conflicts in if p c then newer c rest else rest

-- `_conflict_pair`, from the claims left to look at
unfoldable pub conflict_pair : List ArchiveClaimRow → List String → Option (String × String)
conflict_pair claims [] = none
conflict_pair claims (k ∷ claim_ids) = elim (find claim_key k claims) [
  | none ↦ conflict_pair claims claim_ids
  | some c ↦
      if str_eq c.object_type "relationship"
      then some (relationship_pair c)
      else conflict_pair claims claim_ids
]

abbrev pub is_about : Option (String × String) → String × String → Bool
is_about none pair = false
is_about (some p) pair = is_same_pair p pair

abbrev pub or_latest :
    Option ArchiveConflictRow → Option ArchiveConflictRow → Option ArchiveConflictRow
or_latest none d = d
or_latest (some c) d = some c

-- `_find_existing_conflict`
unfoldable pub find_existing_conflict :
    String → String × String → List String → Database → Option ArchiveConflictRow
unfolding latest_where conflict_pair
find_existing_conflict family_id pair claim_ids db =
    let is_candidate = λ (c : ArchiveConflictRow).
      str_eq c.family_id family_id && str_eq c.conflict_type "relationship" in
    or_latest (latest_where (λ c. is_candidate c && is_same_set c.claim_ids claim_ids) db.conflicts)
      (latest_where (λ c. is_candidate c && is_about (conflict_pair db.claims c.claim_ids) pair)
        db.conflicts)

-- What the ingestion generates: the hash of a new conflict, the id of a decision, and the time.
pub record Generated : Type 0 where
  pub conflict_id : String → List String → String
  pub decision_id : String → String
  pub now : ℕ

abbrev pub new_conflict : Generated → String → List String → ArchiveConflictRow
new_conflict g family_id claim_ids = record {
  conflict_id = g.conflict_id family_id claim_ids;
  family_id = family_id;
  conflict_type = "relationship";
  status = open_status;
  claim_ids = claim_ids;
  preferred_claim_id = none;
  resolution_note = none;
  updated_at = g.now;
}

abbrev pub reopened : Generated → List String → ArchiveConflictRow → ArchiveConflictRow
reopened g claim_ids conflict = record (decided open_status none none g.now conflict) {
  claim_ids = if is_same_set conflict.claim_ids claim_ids then conflict.claim_ids else claim_ids;
}

-- `conflict.preferred_claim_id not in claim_ids`
abbrev pub is_preferred_lost : Option String → List String → Bool
is_preferred_lost none claim_ids = true
is_preferred_lost (some k) claim_ids = not (any (str_eq k) claim_ids)

-- Whether the conflict is opened again: its claims have changed, or its preferred claim is gone.
abbrev pub is_outdated : List String → ArchiveConflictRow → Bool
is_outdated claim_ids conflict =
    not (is_same_set conflict.claim_ids claim_ids)
    || (is_resolved conflict.status && is_preferred_lost conflict.preferred_claim_id claim_ids)

abbrev pub reopen_note : List String → ArchiveConflictRow → String
reopen_note claim_ids conflict =
    if is_same_set conflict.claim_ids claim_ids
    then "conflict reopened because the preferred claim is unavailable"
    else "conflict reopened because its competing claim set changed"

-- The conflict of one pair of people: found, made or opened again.
unfoldable pub current_conflict :
    Generated
    → String
    → List String
    → Option ArchiveConflictRow
    → Database
    → Result (ArchiveConflictRow × Database)
current_conflict g family_id claim_ids none db = do
  let c = new_conflict g family_id claim_ids
  guard (is_none (find conflict_key c.conflict_id db.conflicts)) integrity_error
  ok (c, record db { conflicts = c ∷ db.conflicts })
current_conflict g family_id claim_ids (some conflict) db = ok (
    if is_outdated claim_ids conflict
    then (
      reopened g claim_ids conflict,
      record db {
        conflicts = modify conflict_key conflict.conflict_id (reopened g claim_ids) db.conflicts;
        decisions =
            decision (g.decision_id conflict.conflict_id) conflict auto_reopen open_status
              "system:archive-ingestion" (reopen_note claim_ids conflict) none g.now
            ∷ db.decisions;
      },
    )
    else (conflict, db))

-- The round for a pair whose claims disagree. The ids of the conflicts so far come along.
unfoldable pub reconcile_pair :
    Generated
    → String
    → String × String
    → List String
    → List String × Database
    → Result (List String × Database)
unfolding find_existing_conflict current_conflict
reconcile_pair g family_id pair claim_ids (current, db) = do
  (conflict, after) ←
      current_conflict g family_id claim_ids (find_existing_conflict family_id pair claim_ids db) db
  ok (
    conflict.conflict_id ∷ current,
    record after { claims = apply_conflict_state conflict after.claims },
  )

-- One round of the loop over `grouped`: a pair with one signature is passed over.
unfoldable pub reconcile_group :
    Generated
    → String
    → String × String
    → List ArchiveClaimRow
    → List String × Database
    → Result (List String × Database)
unfolding reconcile_pair sorted
reconcile_group g family_id pair candidates state =
    if leb (length (distinct_values [] candidates)) 1
    then ok state
    else reconcile_pair g family_id pair (sorted (map claim_key candidates)) state

unfoldable pub distinct_pairs :
    List (String × String) → List ArchiveClaimRow → List (String × String)
distinct_pairs seen [] = []
distinct_pairs seen (c ∷ claims) =
    let old = any (is_same_pair (relationship_pair c)) seen in
    let rest = distinct_pairs (relationship_pair c ∷ seen) claims in
    if old then rest else relationship_pair c ∷ rest

unfoldable pub reconcile_pairs :
    Generated
    → String
    → List ArchiveClaimRow
    → List (String × String)
    → List String × Database
    → Result (List String × Database)
unfolding reconcile_group
reconcile_pairs g family_id eligible [] state = ok state
reconcile_pairs g family_id eligible (pair ∷ pairs) state = do
  next ←
      reconcile_group g family_id pair
        (select (λ c. is_same_pair (relationship_pair c) pair) eligible) state
  reconcile_pairs g family_id eligible pairs next

-- `claim.status = _base_claim_status(claim)` for the relationship claims of the family
unfoldable pub with_base_status : String → List ArchiveClaimRow → List ArchiveClaimRow
with_base_status family_id claims =
    map
      (λ (c : ArchiveClaimRow).
        if is_relationship_of family_id c
        then record c { status = relationship_state_status c }
        else c)
      claims

abbrev pub is_open_row : Option ArchiveConflictRow → Bool
is_open_row none = false
is_open_row (some c) = is_open c.status

abbrev pub is_conflict_open : List ArchiveConflictRow → String → Bool
is_conflict_open conflicts k = is_open_row (find conflict_key k conflicts)

-- The new tables, and the number of open conflicts.
unfoldable pub reconcile_relationship_conflicts :
    Generated → String → Database → Result (Database × ℕ)
unfolding with_base_status distinct_pairs reconcile_pairs
reconcile_relationship_conflicts g family_id db = do
  let claims = with_base_status family_id db.claims
  let eligible = select (λ c. is_relationship_of family_id c && claim_is_grounded c) claims
  (current, after) ←
      reconcile_pairs g family_id eligible (distinct_pairs [] eligible)
        ([], record db { claims = claims })
  ok (after, length (select (is_conflict_open after.conflicts) current))
