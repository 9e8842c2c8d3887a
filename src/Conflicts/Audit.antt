-- ===== src/Conflicts/Audit.antt =====
-- The decision log explains the status of every conflict, whatever the reviewers and the ingestions do.
use mathlib.Core.Option.{Option}
use mura_project.Prelude.{
  ◌>>=◌, ℕ, ◌≡◌, refl, sym, subst, String, ◌&&◌, none, some, List, [], ◌∷◌, any, select, length,
  str_eq, Bool-cases, Option-cases, inl, inr, Result, ok, err, settled, holds_text,
}
use mura_project.Prelude.Table.{find, key-find}
use mura_project.Conflicts.Rows.{
  ConflictStatus, open_status, resolved, dismissed, ArchiveConflictRow, ArchiveClaimRow, Database,
  ConflictAction, conflict_key, claim_key, is_resolved, is_open, is_dismissed,
}
use mura_project.Conflicts.Claims.{EdgeValues, claim_is_grounded}
use mura_project.Conflicts.Graph.{rebuild_graph, is_relationship_of}
use mura_project.Conflicts.Service.{
  Review, decided, decision, decide, get_conflict, is_groundable, resolve, dismiss, reopen,
}
use mura_project.Conflicts.Reconcile.{
  Generated, reconcile_pairs, reconcile_relationship_conflicts, with_base_status, is_conflict_open,
  distinct_pairs,
}
use mura_project.Conflicts.History.{IsSettled, modify-IsAudited}
use mura_project.Conflicts.Schedules.{
  Action, resolves, dismisses, reopens, ingests, ingest, perform, run,
}
use mura_project.Conflicts.Ingestion.{Audited, KeepsLog, KeepsLogs, reconcile_pairs-KeepsLogs}

module _ (edge_id : String → EdgeValues → String) where
  decide-Audited :
      (v : Review) (action : ConflictAction) (status : ConflictStatus) (preferred : Option String)
      (c : ArchiveConflictRow) (db : Database)
      → Audited db
      → find conflict_key v.conflict_id db.conflicts ≡ some c
      → IsSettled (decided status preferred (some v.note) v.now c)
      → Audited (decide edge_id v action status preferred c db)
  unfolding decide rebuild_graph
  decide-Audited v action status preferred c db h e good =
      let own : c.conflict_id ≡ v.conflict_id =
        key-find conflict_key v.conflict_id db.conflicts e in
      modify-IsAudited db.conflicts db.decisions c.conflict_id c
        (decided status preferred (some v.note) v.now)
        (decision v.new_id c action status v.reviewer_reference v.note preferred v.now) h
        (λ x. refl) (subst (λ j. find conflict_key j db.conflicts ≡ some c) (sym own) e) refl refl
        refl good

  resolve-KeepsLog :
      (v : Review) (k : String) (db : Database) → Audited db → KeepsLog (resolve edge_id v k db)
  unfolding resolve get_conflict rebuild_graph
  resolve-KeepsLog v k db h = elim (Option-cases (find conflict_key v.conflict_id db.conflicts)) [
    | inl e ↦ rw e tt
    | inr (c, e) ↦ elim (Bool-cases (str_eq c.family_id v.family_id)) [
      | inr other ↦ rw (e, other) tt
      | inl own ↦ elim (Bool-cases (any (str_eq k) c.claim_ids)) [
        | inr foreign ↦ rw (e, own, foreign) tt
        | inl one ↦ elim (Bool-cases (is_groundable (find claim_key k db.claims))) [
          | inr loose ↦ rw (e, own, one, loose) tt
          | inl grounded ↦
              elim (Bool-cases (
                is_resolved c.status
                && holds_text c.preferred_claim_id k
                && holds_text c.resolution_note v.note)) [
                  | inl again ↦ rw (e, own, one, grounded, again) h
                  | inr new ↦
                      rw (e, own, one, grounded, new)
                        (decide-Audited v ConflictAction.resolve resolved (some k) c db h e
                          (record { preferred = refl; own = one }))
                ]
        ]
      ]
    ]
  ]

  dismiss-KeepsLog : (v : Review) (db : Database) → Audited db → KeepsLog (dismiss edge_id v db)
  unfolding dismiss get_conflict rebuild_graph
  dismiss-KeepsLog v db h = elim (Option-cases (find conflict_key v.conflict_id db.conflicts)) [
    | inl e ↦ rw e tt
    | inr (c, e) ↦ elim (Bool-cases (str_eq c.family_id v.family_id)) [
      | inr other ↦ rw (e, other) tt
      | inl own ↦ elim (Bool-cases (is_dismissed c.status && holds_text c.resolution_note v.note)) [
        | inl again ↦ rw (e, own, again) h
        | inr new ↦
            rw (e, own, new)
              (decide-Audited v ConflictAction.dismiss dismissed none c db h e
                (record { preferred = refl; own = refl }))
      ]
    ]
  ]

  reopen-KeepsLog : (v : Review) (db : Database) → Audited db → KeepsLog (reopen edge_id v db)
  unfolding reopen get_conflict
  reopen-KeepsLog v db h = elim (Option-cases (find conflict_key v.conflict_id db.conflicts)) [
    | inl e ↦ rw e tt
    | inr (c, e) ↦ elim (Bool-cases (str_eq c.family_id v.family_id)) [
      | inr other ↦ rw (e, other) tt
      | inl own ↦ elim (Bool-cases (is_open c.status)) [
        | inl already ↦ rw (e, own, already) tt
        | inr closed ↦
            rw (e, own, closed)
              (decide-Audited v ConflictAction.reopen open_status none c db h e
                (record { preferred = refl; own = refl }))
      ]
    ]
  ]

  ingest-KeepsLog :
      (g : Generated) (family_id : String) (db : Database)
      → Audited db
      → KeepsLog (ingest edge_id g family_id db)
  unfolding ingest reconcile_relationship_conflicts rebuild_graph
  ingest-KeepsLog g family_id db h =
      let claims : List ArchiveClaimRow = with_base_status family_id db.claims in
      let eligible : List ArchiveClaimRow =
        select (λ c. is_relationship_of family_id c && claim_is_grounded c) claims in
      let pairs : List (String × String) = distinct_pairs [] eligible in
      let based : Database = record db { claims = claims } in
      done (reconcile_pairs g family_id eligible pairs ([], based))
        (reconcile_pairs-KeepsLogs g family_id eligible pairs [] based h)
    where
      done :
          (r : Result (List String × Database))
          → KeepsLogs r
          → KeepsLog (
              ◌>>=◌ {A = Database × ℕ} {B = Database}
                (◌>>=◌ {A = List String × Database} {B = Database × ℕ} r
                  (λ p. ok (p.1, length (select (is_conflict_open (p.1).conflicts) p.0))))
                (λ q. ok (rebuild_graph edge_id family_id q.0)))
      done (ok (c, d)) k = k
      done (err e) k = tt

  perform-KeepsLog : (a : Action) (db : Database) → Audited db → KeepsLog (perform edge_id a db)
  unfolding perform
  perform-KeepsLog (resolves v k) db h = resolve-KeepsLog v k db h
  perform-KeepsLog (dismisses v) db h = dismiss-KeepsLog v db h
  perform-KeepsLog (reopens v) db h = reopen-KeepsLog v db h
  perform-KeepsLog (ingests g family_id) db h = ingest-KeepsLog g family_id db h

  -- Over every sequence of resolutions, dismissals, reopenings and ingestions, the decisions about each conflict
  -- are a history of it: the first starts from an open conflict, each starts where the one before
  -- it ended, and the last ends in the status that the conflict has. A resolved conflict prefers
  -- one of its claims, and no other conflict prefers any.
  pub run-Audited :
      (actions : List Action) (db : Database) → Audited db → Audited (run edge_id actions db)
  unfolding run
  run-Audited [] db h = h
  run-Audited (a ∷ actions) db h =
      run-Audited actions (settled db (perform edge_id a db))
        (committed (perform edge_id a db) (perform-KeepsLog a db h))
    where
      committed : (r : Result Database) → KeepsLog r → Audited (settled db r)
      committed (ok after) k = k
      committed (err e) k = h
