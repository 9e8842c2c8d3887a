-- ===== src/Conflicts/Ingestion.antt =====
-- The decision log of conflicts over an ingestion: what `_reconcile_relationship_conflicts` keeps.
use mathlib.Core.Option.{Option}
use mura_project.Prelude.{
  ◌⊎◌, ◌>>=◌, ◌≡◌, ◌∙◌, refl, ap, String, Bool, none, some, List, [], ◌∷◌, if◌then◌else◌, length,
  leb, Bool-cases, Option-cases, inl, inr, arith, Result, ok, err, Memᴰ, map,
}
use mura_project.Prelude.Table.{find, find_of_Mem}
use mura_project.Conflicts.Rows.{
  ArchiveConflictRow, ArchiveClaimRow, Database, conflict_key, claim_key,
}
use mura_project.Conflicts.Graph.{sorted, distinct_values}
use mura_project.Conflicts.Service.{apply_conflict_state}
use mura_project.Conflicts.Reconcile.{
  Generated, latest_where, newer, or_latest, find_existing_conflict, new_conflict, reopened,
  is_outdated, current_conflict, reconcile_pair, reconcile_group, reconcile_pairs,
}
use mura_project.Conflicts.History.{IsAudited, modify-IsAudited, insert-IsAudited}

abbrev pub Audited : Database → Type 0
Audited db = IsAudited db.conflicts db.decisions

-- A result that keeps the log, if it is one.
abbrev pub KeepsLog : Result Database → Type 0
KeepsLog (ok db) = Audited db
KeepsLog (err e) = Unit

abbrev pub KeepsLogs : Result (List String × Database) → Type 0
KeepsLogs (ok (current, db)) = Audited db
KeepsLogs (err e) = Unit

latest_where-mem :
    (p : ArchiveConflictRow → Bool) (cs : List ArchiveConflictRow) {c : ArchiveConflictRow}
    → latest_where p cs ≡ some c
    → Memᴰ c cs
unfolding latest_where
latest_where-mem p [] h = absurd (cc)
latest_where-mem p (x ∷ cs) {c} h = elim (came_from (p x) (latest_where p cs) h) [
  | inl e ↦ Memᴰ.head e
  | inr e ↦ Memᴰ.tail (latest_where-mem p cs e)
]
  where
    came_from :
        (b : Bool) (rest : Option ArchiveConflictRow)
        → (if b then newer x rest else rest) ≡ some c
        → (c ≡ x) ⊎ (rest ≡ some c)
    came_from b rest e = ground arith

-- The conflict that an ingestion goes on with is one of the table.
stored_latest :
    (db : Database) (p q : ArchiveConflictRow → Bool) {c : ArchiveConflictRow}
    → Audited db
    → or_latest (latest_where p db.conflicts) (latest_where q db.conflicts) ≡ some c
    → find conflict_key c.conflict_id db.conflicts ≡ some c
stored_latest db p q {c} h e = elim (Option-cases (latest_where p db.conflicts)) [
  | inl none_p ↦
      find_of_Mem conflict_key db.conflicts h.unique
        (latest_where-mem q db.conflicts (rw none_p at e))
  | inr (x, some_p) ↦
      let same : x ≡ c = ground arith in
      find_of_Mem conflict_key db.conflicts h.unique
        (latest_where-mem p db.conflicts (some_p ∙ ap some same))
]

abbrev KeepsRow : Result (ArchiveConflictRow × Database) → Type 0
KeepsRow (ok (c, db)) = Audited db
KeepsRow (err e) = Unit

module _ (g : Generated) (family_id : String) where
  current_conflict-KeepsRow :
      (claim_ids : List String) (o : Option ArchiveConflictRow) (db : Database)
      → Audited db
      → ((c : ArchiveConflictRow)
          → o ≡ some c
          → find conflict_key c.conflict_id db.conflicts ≡ some c)
      → KeepsRow (current_conflict g family_id claim_ids o db)
  unfolding current_conflict
  current_conflict-KeepsRow claim_ids none db h stored =
      let c : ArchiveConflictRow = new_conflict g family_id claim_ids in
      elim (Option-cases (find conflict_key c.conflict_id db.conflicts)) [
        | inr (x, taken) ↦ rw taken tt
        | inl fresh ↦ rw fresh (
            insert-IsAudited db.conflicts db.decisions c h fresh refl
              (record { preferred = refl; own = refl }))
      ]
  current_conflict-KeepsRow claim_ids (some c) db h stored =
      elim (Bool-cases (is_outdated claim_ids c)) [
        | inr fine ↦ rw fine h
        | inl outdated ↦ rw outdated (
            modify-IsAudited db.conflicts db.decisions c.conflict_id c (reopened g claim_ids) _ h
              (λ x. refl) (stored c refl) refl refl refl (record { preferred = refl; own = refl }))
      ]

  reconcile_pair-KeepsLogs :
      (pair : String × String) (claim_ids current : List String) (db : Database)
      → Audited db
      → KeepsLogs (reconcile_pair g family_id pair claim_ids (current, db))
  unfolding reconcile_pair find_existing_conflict
  reconcile_pair-KeepsLogs pair claim_ids current db h =
      passed (current_conflict g family_id claim_ids _ db)
        (current_conflict-KeepsRow claim_ids _ db h (λ c e. stored_latest db _ _ h e))
    where
      passed :
          (r : Result (ArchiveConflictRow × Database))
          → KeepsRow r
          → KeepsLogs (
              r >>= λ p. ok (
                p.0.conflict_id ∷ current,
                record (p.1) { claims = apply_conflict_state p.0 p.1.claims },
              ))
      passed (ok (c, after)) k = k
      passed (err e) k = tt

  reconcile_group-KeepsLogs :
      (pair : String × String) (candidates : List ArchiveClaimRow) (current : List String)
      (db : Database)
      → Audited db
      → KeepsLogs (reconcile_group g family_id pair candidates (current, db))
  unfolding reconcile_group
  reconcile_group-KeepsLogs pair candidates current db h =
      elim (Bool-cases (leb (length (distinct_values [] candidates)) 1)) [
        | inl agree ↦ rw agree h
        | inr disagree ↦
            rw disagree
              (reconcile_pair-KeepsLogs pair (sorted (map claim_key candidates)) current db h)
      ]

  pub reconcile_pairs-KeepsLogs :
      (eligible : List ArchiveClaimRow) (pairs : List (String × String)) (current : List String)
      (db : Database)
      → Audited db
      → KeepsLogs (reconcile_pairs g family_id eligible pairs (current, db))
  unfolding reconcile_pairs
  reconcile_pairs-KeepsLogs eligible [] current db h = h
  reconcile_pairs-KeepsLogs eligible (pair ∷ pairs) current db h =
      onward (reconcile_group g family_id pair _ (current, db))
        (reconcile_group-KeepsLogs pair _ current db h)
        (λ c d k. reconcile_pairs-KeepsLogs eligible pairs c d k)
    where
      onward :
          (r : Result (List String × Database))
          → KeepsLogs r
          → ((c : List String) (d : Database)
              → Audited d
              → KeepsLogs (reconcile_pairs g family_id eligible pairs (c, d)))
          → KeepsLogs (r >>= λ s. reconcile_pairs g family_id eligible pairs s)
      onward (ok (c, d)) k next = next c d k
      onward (err e) k next = tt
