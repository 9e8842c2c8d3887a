-- ===== src/Conflicts/Rebuilt.antt =====
-- `_rebuild_graph` of storage/conflict_resolution.py builds the graph of the family.
use mura_project.Prelude.{
  ◌+◌, ◌≤◌, ◌≡◌, ◌∙◌, refl, ap, String, Bool, true, false, ◌&&◌, ◌||◌, not, List, [], ◌∷◌, ◌++◌,
  map, any, any-append, select, count_where, All, All-map, str_eq, eq_refl, Bool-cases, inl, inr,
  arith,
}
use mura_project.Prelude.Select.{without}
use mura_project.Conflicts.Rows.{ArchiveClaimRow, FamilyGraphEdgeRow, Database, claim_key}
use mura_project.Conflicts.Claims.{EdgeValues, is_same_values, edge_values}
use mura_project.Conflicts.Graph.{
  supports, distinct_values, has_values, edge_of, family_edges, rebuild_graph,
}
use mura_project.Conflicts.Edges.{
  is_edge, HasSources, IsGraph, any-sorted, is_same_values_refl, any-distinct_values,
  count-distinct_values,
}

any-select_keys :
    (k : String) (p q : ArchiveClaimRow → Bool) (claims : List ArchiveClaimRow)
    → any (str_eq k) (map claim_key (select q (select p claims)))
      ≡ any (λ c. p c && (q c && str_eq k c.claim_id)) claims
any-select_keys k p q [] = refl
any-select_keys k p q (c ∷ claims) = elim (Bool-cases (p c)) [
  | inr out ↦ rw out (any-select_keys k p q claims)
  | inl in_p ↦ elim (Bool-cases (q c)) [
    | inl in_q ↦ rw (in_p, in_q) (ap (λ b. str_eq k c.claim_id || b) (any-select_keys k p q claims))
    | inr out ↦ rw (in_p, out) (any-select_keys k p q claims)
  ]
]

any_of_supporting :
    (v : EdgeValues) (p : ArchiveClaimRow → Bool) (claims : List ArchiveClaimRow)
    → any (λ c. is_same_values v (edge_values c)) (select p claims)
      ≡ any (λ c. p c && is_same_values v (edge_values c)) claims
any_of_supporting v p [] = refl
any_of_supporting v p (c ∷ claims) = ground (arith, any_of_supporting v p claims)

any_self :
    (p : ArchiveClaimRow → Bool) (claims : List ArchiveClaimRow)
    → All
        (λ c.
          (not (p c) || any (λ d. p d && is_same_values (edge_values c) (edge_values d)) claims)
          ≡ true)
        claims
any_self p [] = tt
any_self p (c ∷ claims) = (
  ground (arith, is_same_values_refl (edge_values c)),
  All-map (λ d h. ground (arith, h)) claims (any_self p claims),
)

module _ (new_id : String → EdgeValues → String) (family_id : String)
    (claims : List ArchiveClaimRow) where
  edges_of : List EdgeValues → List FamilyGraphEdgeRow
  edges_of vs = map (edge_of new_id family_id (select (supports family_id) claims)) vs

  any-edges_of :
      (v : EdgeValues) (vs : List EdgeValues)
      → any (is_edge family_id v) (edges_of vs) ≡ any (is_same_values v) vs
  unfolding edges_of edge_of
  any-edges_of v [] = refl
  any-edges_of v (w ∷ vs) =
      rw (eq_refl family_id) (ap (λ b. is_same_values v w || b) (any-edges_of v vs))

  count-edges_of :
      (v : EdgeValues) (vs : List EdgeValues)
      → count_where (is_edge family_id v) (edges_of vs) ≡ count_where (is_same_values v) vs
  unfolding edges_of edge_of
  count-edges_of v [] = refl
  count-edges_of v (w ∷ vs) = rw (eq_refl family_id) (ground (arith, count-edges_of v vs))

  sources-edges_of : (vs : List EdgeValues) → All (HasSources family_id claims) (edges_of vs)
  unfolding edges_of edge_of
  sources-edges_of [] = tt
  sources-edges_of (v ∷ vs) = (
    inr (λ k.
        any-sorted (str_eq k) _ ∙ any-select_keys k (supports family_id) (has_values v) claims),
    sources-edges_of vs,
  )

  covered_of :
      (rest : List FamilyGraphEdgeRow) (c : ArchiveClaimRow)
      → (not (supports family_id c)
          || any
              (λ d. supports family_id d && is_same_values (edge_values c) (edge_values d))
              claims)
        ≡ true
      → (not (supports family_id c)
          || any
              (is_edge family_id (edge_values c))
              (edges_of (distinct_values [] (select (supports family_id) claims)) ++ rest))
        ≡ true
  covered_of rest c h =
      let vs : List EdgeValues = distinct_values [] (select (supports family_id) claims) in
      rw
        (
          any-append (is_edge family_id (edge_values c)) (edges_of vs) rest,
          any-edges_of (edge_values c) vs,
          any-distinct_values (edge_values c) [] (select (supports family_id) claims),
          any_of_supporting (edge_values c) (supports family_id) claims,
        )
        (ground (arith, h))

  without-edges_of :
      (vs : List EdgeValues)
      → without (λ (e : FamilyGraphEdgeRow). e.family_id) family_id (edges_of vs) ≡ []
  unfolding edges_of edge_of
  without-edges_of [] = refl
  without-edges_of (v ∷ vs) = rw (eq_refl family_id) (without-edges_of vs)

-- What is left of the edges is of other families.
module _ (family_id : String) where
  abbrev kept : List FamilyGraphEdgeRow → List FamilyGraphEdgeRow
  kept old = without (λ (e : FamilyGraphEdgeRow). e.family_id) family_id old

  kept-others :
      (old : List FamilyGraphEdgeRow) → All (λ e. str_eq e.family_id family_id ≡ false) (kept old)
  kept-others [] = tt
  kept-others (e ∷ old) = elim (Bool-cases (str_eq e.family_id family_id)) [
    | inl own ↦ rw own (kept-others old)
    | inr other ↦ rw other (other, kept-others old)
  ]

  kept_append : (xs ys : List FamilyGraphEdgeRow) → kept xs ≡ [] → kept (xs ++ ys) ≡ kept ys
  kept_append [] ys h = refl
  kept_append (x ∷ xs) ys h = ground (arith, kept_append xs ys)

  kept_idem : (old : List FamilyGraphEdgeRow) → kept (kept old) ≡ kept old
  kept_idem [] = refl
  kept_idem (e ∷ old) = elim (Bool-cases (str_eq e.family_id family_id)) [
    | inl own ↦ rw own (kept_idem old)
    | inr other ↦ rw (other, other) (ap (λ r. e ∷ r) (kept_idem old))
  ]

  count_kept :
      (v : EdgeValues) (es : List FamilyGraphEdgeRow)
      → All (λ e. str_eq e.family_id family_id ≡ false) es
      → count_where (is_edge family_id v) es ≡ 0
  count_kept v [] h = refl
  count_kept v (e ∷ es) h = rw h.0 (count_kept v es h.1)

count-append :
    (p : FamilyGraphEdgeRow → Bool) (xs ys : List FamilyGraphEdgeRow)
    → count_where p (xs ++ ys) ≡ count_where p xs + count_where p ys
count-append p [] ys = omega arith
count-append p (x ∷ xs) ys = ground (arith, count-append p xs ys)

All-append :
    (P : FamilyGraphEdgeRow → Type 0) (xs ys : List FamilyGraphEdgeRow)
    → All P xs
    → All P ys
    → All P (xs ++ ys)
All-append P [] ys p q = q
All-append P (x ∷ xs) ys p q = (p.0, All-append P xs ys p.1 q)

-- The graph that is built is the graph of the family's claims, and those of the other families stay.
pub rebuild_graph-IsGraph :
    (new_id : String → EdgeValues → String) (family_id : String) (db : Database)
    → IsGraph family_id db.edges db.claims (rebuild_graph new_id family_id db).edges
unfolding rebuild_graph family_edges edges_of
rebuild_graph-IsGraph new_id family_id db =
    let p : ArchiveClaimRow → Bool = supports family_id in
    let vs : List EdgeValues = distinct_values [] (select p db.claims) in
    let own : List FamilyGraphEdgeRow = edges_of new_id family_id db.claims vs in
    let rest : List FamilyGraphEdgeRow = kept family_id db.edges in
    record {
      covered =
          All-map (λ c h. covered_of new_id family_id db.claims rest c h) db.claims
            (any_self p db.claims);
      sources =
          All-append (HasSources family_id db.claims) own rest
            (sources-edges_of new_id family_id db.claims vs)
            (All-map (λ e h. inl h) rest (kept-others family_id db.edges));
      single = λ v.
          let n : count_where (is_same_values v) vs + 0 ≤ 1 =
            count-distinct_values v [] (select p db.claims) in
          omega (
            arith,
            count-append (is_edge family_id v) own rest,
            count-edges_of new_id family_id db.claims v vs,
            count_kept family_id v rest (kept-others family_id db.edges),
          );
      others =
          kept_append family_id own rest (without-edges_of new_id family_id db.claims vs)
          ∙ kept_idem family_id db.edges;
    }
