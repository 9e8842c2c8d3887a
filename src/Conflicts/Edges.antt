-- ===== src/Conflicts/Edges.antt =====
-- The graph that `_rebuild_graph` of storage/conflict_resolution.py builds, against what it stands for.
use mura_project.Prelude.{
  ◌+◌, ◌≤◌, ◌≡◌, ◌⊎◌, ◌∙◌, refl, ap, String, Bool, true, false, ◌&&◌, ◌||◌, not, List, [], ◌∷◌,
  if◌then◌else◌, any, count_where, All, str_eq, eq_iff, eq_refl, Bool-cases, inl, inr, arith,
}
use mura_project.Prelude.Select.{without}
use mura_project.Conflicts.Rows.{ArchiveClaimRow, FamilyGraphEdgeRow}
use mura_project.Conflicts.Claims.{EdgeValues, is_same_values, edge_values}
use mura_project.Conflicts.Graph.{insert_sorted, sorted, supports, distinct_values, has_values}

abbrev pub values_of : FamilyGraphEdgeRow → EdgeValues
values_of e = record {
  relationship_type = e.relationship_type;
  subject_id = e.subject_person_id;
  subject_role = e.subject_role;
  object_id = e.object_person_id;
  object_role = e.object_role;
}

-- Whether the edge belongs to the family and has the values.
abbrev pub is_edge : String → EdgeValues → FamilyGraphEdgeRow → Bool
is_edge family_id v e = str_eq e.family_id family_id && is_same_values v (values_of e)

-- Whether the claim with the id supports the edge.
abbrev pub is_source : String → FamilyGraphEdgeRow → String → ArchiveClaimRow → Bool
is_source family_id e k c =
    supports family_id c && (has_values (values_of e) c && str_eq k c.claim_id)

-- The edge is another family's, or its sources are exactly the claims that support it.
abbrev pub HasSources : String → List ArchiveClaimRow → FamilyGraphEdgeRow → Type 0
HasSources family_id claims e =
    (str_eq e.family_id family_id ≡ false)
    ⊎ ((k : String) → any (str_eq k) e.source_claim_ids ≡ any (is_source family_id e k) claims)

-- The edges of the family are its graph: exactly one for the values of each claim that supports it, with
-- exactly the claims of these values as its sources. The other families have the edges that they had.
pub record IsGraph (family_id : String) (old : List FamilyGraphEdgeRow)
    (claims : List ArchiveClaimRow) (edges : List FamilyGraphEdgeRow) : Type 0 where
  pub covered :
      All
        (λ c. (not (supports family_id c) || any (is_edge family_id (edge_values c)) edges) ≡ true)
        claims
  pub sources : All (HasSources family_id claims) edges
  pub single : (v : EdgeValues) → count_where (is_edge family_id v) edges ≤ 1
  pub others :
      without (λ (e : FamilyGraphEdgeRow). e.family_id) family_id edges
      ≡ without (λ (e : FamilyGraphEdgeRow). e.family_id) family_id old

any-insert_sorted :
    (p : String → Bool) (s : String) (texts : List String)
    → any p (insert_sorted s texts) ≡ (p s || any p texts)
unfolding insert_sorted
any-insert_sorted p s [] = refl
any-insert_sorted p s (t ∷ texts) = ground (arith, any-insert_sorted p s texts)

pub any-sorted : (p : String → Bool) (texts : List String) → any p (sorted texts) ≡ any p texts
unfolding sorted
any-sorted p [] = refl
any-sorted p (s ∷ texts) =
    any-insert_sorted p s (sorted texts) ∙ ap (λ b. p s || b) (any-sorted p texts)

pub is_same_values_refl : (v : EdgeValues) → is_same_values v v ≡ true
is_same_values_refl v = rw (
  eq_refl v.relationship_type,
  eq_refl v.subject_id,
  eq_refl v.subject_role,
  eq_refl v.object_id,
  eq_refl v.object_role,
)

is_same_values→eq : (u v : EdgeValues) → is_same_values u v ≡ true → u ≡ v
is_same_values→eq u v h = ground (
  arith,
  eq_iff u.relationship_type v.relationship_type,
  eq_iff u.subject_id v.subject_id,
  eq_iff u.subject_role v.subject_role,
  eq_iff u.object_id v.object_id,
  eq_iff u.object_role v.object_role,
)

any_values_same :
    (v w : EdgeValues) (seen : List EdgeValues)
    → is_same_values v w ≡ true
    → any (is_same_values v) seen ≡ any (is_same_values w) seen
any_values_same v w seen e = rw (is_same_values→eq v w e)

pub any-distinct_values :
    (v : EdgeValues) (seen : List EdgeValues) (claims : List ArchiveClaimRow)
    → (any (is_same_values v) seen || any (is_same_values v) (distinct_values seen claims))
      ≡ (any (is_same_values v) seen || any (λ c. is_same_values v (edge_values c)) claims)
unfolding distinct_values
any-distinct_values v seen [] = refl
any-distinct_values v seen (c ∷ claims) =
    elim (Bool-cases (any (is_same_values (edge_values c)) seen)) [
      | inl old ↦ rw old (
          ground (
            arith,
            any-distinct_values v (edge_values c ∷ seen) claims,
            any_values_same v (edge_values c) seen,
          ))
      | inr new ↦ rw new (ground (arith, any-distinct_values v (edge_values c ∷ seen) claims))
    ]

-- Values occur at most once among the distinct ones, and not at all if they were seen.
pub count-distinct_values :
    (v : EdgeValues) (seen : List EdgeValues) (claims : List ArchiveClaimRow)
    → count_where (is_same_values v) (distinct_values seen claims)
        + (if any (is_same_values v) seen then 1 else 0)
      ≤ 1
unfolding distinct_values
count-distinct_values v seen [] = ground arith
count-distinct_values v seen (c ∷ claims) =
    elim (Bool-cases (any (is_same_values (edge_values c)) seen)) [
      | inl old ↦ rw old (
          ground (
            arith,
            count-distinct_values v (edge_values c ∷ seen) claims,
            any_values_same v (edge_values c) seen,
          ))
      | inr new ↦ rw new (
          ground (
            arith,
            count-distinct_values v (edge_values c ∷ seen) claims,
            any_values_same v (edge_values c) seen,
          ))
    ]
