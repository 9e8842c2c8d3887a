-- ===== src/Conflicts/Graph.antt =====
-- `_rebuild_graph` of storage/conflict_resolution.py: the edges of a family's graph from its claims.
use mura_project.Prelude.{
  String, Bool, ◌&&◌, List, [], ◌∷◌, ◌++◌, map, if◌then◌else◌, any, select, str_eq,
}
use mura_project.Prelude.Select.{without}
use mura_project.Conflicts.Rows.{
  ArchiveClaimRow, FamilyGraphEdgeRow, Database, claim_key, is_in_force,
}
use mura_project.Prelude.Texts.{text_lt}
use mura_project.Conflicts.Claims.{claim_is_grounded, EdgeValues, is_same_values, edge_values}

-- `sorted(...)` of texts
unfoldable pub insert_sorted : String → List String → List String
insert_sorted s [] = s ∷ []
insert_sorted s (t ∷ texts) =
    let rest = insert_sorted s texts in if text_lt t s then t ∷ rest else s ∷ t ∷ texts

unfoldable pub sorted : List String → List String
unfolding insert_sorted
sorted [] = []
sorted (s ∷ texts) = insert_sorted s (sorted texts)

-- `_relationship_claims`
abbrev pub is_relationship_of : String → ArchiveClaimRow → Bool
is_relationship_of family_id c = str_eq c.family_id family_id && str_eq c.object_type "relationship"

-- The claims that the graph is built from.
abbrev pub supports : String → ArchiveClaimRow → Bool
supports family_id c = is_relationship_of family_id c && is_in_force c.status && claim_is_grounded c

-- The keys of `grouped`, in the order of their first claim, with those seen so far.
unfoldable pub distinct_values : List EdgeValues → List ArchiveClaimRow → List EdgeValues
distinct_values seen [] = []
distinct_values seen (c ∷ claims) =
    let old = any (is_same_values (edge_values c)) seen in
    let rest = distinct_values (edge_values c ∷ seen) claims in
    if old then rest else edge_values c ∷ rest

abbrev pub has_values : EdgeValues → ArchiveClaimRow → Bool
has_values v c = is_same_values (edge_values c) v

-- The edge of one entry of `grouped`. `_stable_id` of the family and the values is an argument.
unfoldable pub edge_of :
    (String → EdgeValues → String) → String → List ArchiveClaimRow → EdgeValues → FamilyGraphEdgeRow
unfolding sorted
edge_of new_id family_id eligible v = record {
  edge_id = new_id family_id v;
  family_id = family_id;
  relationship_type = v.relationship_type;
  subject_person_id = v.subject_id;
  subject_role = v.subject_role;
  object_person_id = v.object_id;
  object_role = v.object_role;
  source_claim_ids = sorted (map claim_key (select (has_values v) eligible));
}

unfoldable pub family_edges :
    (String → EdgeValues → String) → String → List ArchiveClaimRow → List FamilyGraphEdgeRow
unfolding distinct_values edge_of
family_edges new_id family_id claims =
    let eligible = select (supports family_id) claims in
    map (edge_of new_id family_id eligible) (distinct_values [] eligible)

unfoldable pub rebuild_graph : (String → EdgeValues → String) → String → Database → Database
unfolding family_edges
rebuild_graph new_id family_id db = record db {
  edges =
      family_edges new_id family_id db.claims
      ++ without (λ (e : FamilyGraphEdgeRow). e.family_id) family_id db.edges;
}
