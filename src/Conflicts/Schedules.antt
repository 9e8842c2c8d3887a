-- ===== src/Conflicts/Schedules.antt =====
-- What happens to the conflicts of the families, one transaction after the other.
use mura_project.Prelude.{String, List, [], ◌∷◌, Result, ok, ◌>>=◌, settled}
use mura_project.Conflicts.Rows.{Database}
use mura_project.Conflicts.Claims.{EdgeValues}
use mura_project.Conflicts.Graph.{rebuild_graph}
use mura_project.Conflicts.Service.{Review, resolve, dismiss, reopen}
use mura_project.Conflicts.Reconcile.{Generated, reconcile_relationship_conflicts}

pub data Action : Type 0 where
  resolves : Review → String → Action
  dismisses : Review → Action
  reopens : Review → Action
  -- the end of an ingestion: the conflicts are found again and the graph is built again
  ingests : Generated → String → Action

module _ (edge_id : String → EdgeValues → String) where
  -- The last two calls of `persist_pipeline_result`.
  unfoldable pub ingest : Generated → String → Database → Result Database
  unfolding reconcile_relationship_conflicts rebuild_graph
  ingest g family_id db = do
    (after, open_conflicts) ← reconcile_relationship_conflicts g family_id db
    ok (rebuild_graph edge_id family_id after)

  unfoldable pub perform : Action → Database → Result Database
  unfolding resolve dismiss reopen ingest
  perform (resolves v k) db = resolve edge_id v k db
  perform (dismisses v) db = dismiss edge_id v db
  perform (reopens v) db = reopen edge_id v db
  perform (ingests g family_id) db = ingest g family_id db

  unfoldable pub run : List Action → Database → Database
  unfolding perform
  run [] db = db
  run (a ∷ actions) db = run actions (settled db (perform a db))
