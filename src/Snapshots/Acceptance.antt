-- ===== src/Snapshots/Acceptance.antt =====
-- Which snapshots `validate_snapshot_closure` of book/snapshot_validation.py accepts.
use mura_project.Prelude.{
  ◌≡◌, ◌↔◌, refl, subst, String, true, Option, none, some, List, map, str_eq, any, Option-cases,
  inl, inr, ok, arith,
}
use mura_project.Prelude.Table.{find}
use mura_project.Snapshots.Relationships.{Unicode, relationship_semantics_match}
use mura_project.Snapshots.Truth.{book_truth_fields_eligible, is_allowed_status}
use mura_project.Snapshots.Rows.{
  SnapshotRelationship, SnapshotClaim, SnapshotCorrection, BookSourceSnapshot, evidence_key,
  claim_key,
}
use mura_project.Snapshots.Ids.{IsIn}
use mura_project.Snapshots.Validation.{
  selected, is_eligible, check_version, check_unique, check_manifest, check_evidence, check_claim,
  check_support, check_relationship, check_person, check_story, check_event, check_correction,
  check_uncertainty, check_conflict, validate_snapshot_closure,
}
use mura_project.Snapshots.Closed.{
  IsExpected, HasUniqueIds, IsListed, IsClosedClaim, IsSupport, IsClosedRelationship, IsClosed,
}
use mura_project.Snapshots.Passing.{
  Passes, guard-Passes, then-Passes, for_each-Passes, IsSame-Passes, IsUnique-Passes,
  IsWithin-Passes, IsSomeIn-Passes, IsNonempty-Passes,
}
use mura_project.Snapshots.Closure.{
  then3-Passes, number-Passes, text-Passes, evidence-Passes, story-Passes, event-Passes,
  uncertainty-Passes, person-Passes, conflict-Passes,
}

module _ (s : BookSourceSnapshot) where
  version-Passes :
      (wanted : Option (List String))
      → Passes (check_version s wanted)
        ↔ ((s.schema_version ≡ "book-source-snapshot-v3") × IsExpected wanted (selected s))
  unfolding check_version
  version-Passes none =
      let one = text-Passes s.schema_version "book-source-snapshot-v3" in
      ((λ h. (one.0 h, tt)), (λ h. one.1 h.0))
  version-Passes (some wanted) =
      then-Passes _ _ (text-Passes s.schema_version "book-source-snapshot-v3") (IsSame-Passes _ _)

  unique_ids-Passes : Passes (check_unique s) ↔ HasUniqueIds s
  unfolding check_unique
  unique_ids-Passes =
      let chain = then-Passes _ _ (IsUnique-Passes _) (
        then3-Passes _ _ _ (IsUnique-Passes _) (IsUnique-Passes _) (
          then3-Passes _ _ _ (IsUnique-Passes _) (IsUnique-Passes _)
            (then3-Passes _ _ _ (IsUnique-Passes _) (IsUnique-Passes _) (IsUnique-Passes _)))) in
      (
        (λ h.
            let a = chain.0 h in
            record {
              evidence = a.0;
              claims = a.1.0;
              people = a.1.1;
              stories = a.1.2.0;
              events = a.1.2.1;
              relationships = a.1.2.2.0;
              corrections = a.1.2.2.1;
              conflicts = a.1.2.2.2;
            }),
        (λ u. chain.1 (
          u.evidence,
          (
            u.claims,
            u.people,
            (u.stories, u.events, (u.relationships, u.corrections, u.conflicts)),
          ),
        )),
      )

  listed-Passes : Passes (check_manifest s) ↔ IsListed s
  unfolding check_manifest
  listed-Passes =
      let chain = then-Passes _ _ (IsSame-Passes _ _) (
        then3-Passes _ _ _ (IsSame-Passes _ _) (IsSame-Passes _ _) (
          then3-Passes _ _ _ (IsSame-Passes _ _) (IsSame-Passes _ _)
            (then3-Passes _ _ _ (number-Passes _ _) (number-Passes _ _) (number-Passes _ _)))) in
      (
        (λ h.
            let a = chain.0 h in
            record {
              evidence = a.0;
              claims = a.1.0;
              people = a.1.1;
              stories = a.1.2.0;
              events = a.1.2.1;
              corrections = a.1.2.2.0;
              uncertainties = a.1.2.2.1;
              conflicts = a.1.2.2.2;
            }),
        (λ u. chain.1 (
          u.evidence,
          (
            u.claims,
            u.people,
            (u.stories, u.events, (u.corrections, u.uncertainties, u.conflicts)),
          ),
        )),
      )

  correction-Passes :
      (x : SnapshotCorrection) → Passes (check_correction s x) ↔ IsIn x.recording_id (selected s)
  unfolding check_correction
  correction-Passes x = guard-Passes _

  module _ (os : Unicode) where
    -- An eligible claim is of a selected recording, and its status is one that a book takes.
    eligible_claim :
        (c : SnapshotClaim)
        → is_eligible os s c ≡ true
        → IsIn c.recording_id (selected s) × (is_allowed_status true c.archive_status ≡ true)
    unfolding is_eligible book_truth_fields_eligible
    eligible_claim c h = (ground (arith, h), ground (arith, h))

    claim-Passes : (c : SnapshotClaim) → Passes (check_claim os s c) ↔ IsClosedClaim s os c
    unfolding check_claim
    claim-Passes c =
        let chain = then-Passes _ _ (guard-Passes (is_eligible os s c)) (
          then3-Passes _ _ _ (guard-Passes (any (str_eq c.recording_id) (selected s)))
            (guard-Passes (is_allowed_status true c.archive_status))
            (IsWithin-Passes c.evidence_ids (map evidence_key s.evidence))) in
        (
          (λ h. ((chain.0 h).0, (chain.0 h).1.2)),
          (λ h. chain.1 (h.0, ((eligible_claim c h.0).0, (eligible_claim c h.0).1, h.1))),
        )

    IsSupport-Passes :
        (r : SnapshotRelationship) (k : String)
        → Passes (check_support os s r k) ↔ IsSupport s os r k
    unfolding check_support
    IsSupport-Passes r k =
        let rest : (c : SnapshotClaim) → _ = λ (c : SnapshotClaim).
          then3-Passes _ _ _ (text-Passes c.object_type "relationship")
            (guard-Passes (relationship_semantics_match os c.shape r.shape))
            (guard-Passes (any (str_eq c.recording_id) (selected s))) in
        elim (Option-cases (find claim_key k s.claims)) [
          | inl e ↦
              ((λ h. absurd (ground (arith, rw e at h))), (λ g. absurd (ground (arith, e, g.1))))
          | inr (c, e) ↦ rw e (
            (λ h. let a = (rest c).0 h in (c, refl, a.0, a.1, a.2)),
            (λ g.
                let same : g.0 ≡ c = cc in
                (rest c).1 (
                  subst
                    (λ (d : SnapshotClaim).
                      (d.object_type ≡ "relationship")
                      × (relationship_semantics_match os d.shape r.shape ≡ true)
                      × IsIn d.recording_id (selected s))
                    same (g.2, g.3, g.4))),
          )
        ]

    relationship-Passes :
        (r : SnapshotRelationship)
        → Passes (check_relationship os s r) ↔ IsClosedRelationship s os r
    unfolding check_relationship
    relationship-Passes r =
        let chain = then-Passes _ _ (IsSomeIn-Passes _ _) (
          then3-Passes _ _ _ (IsSomeIn-Passes _ _) (IsNonempty-Passes _)
            (for_each-Passes (check_support os s r) (IsSupport-Passes r) r.source_claim_ids)) in
        (
          (λ h. ((chain.0 h).0, (chain.0 h).1.0, (chain.0 h).1.1, (chain.0 h).1.2)),
          (λ h. chain.1 (h.0, (h.1, h.2, h.3))),
        )

    -- The validation accepts a snapshot exactly if its provenance is closed: its version is the current one and
    -- its recordings are the expected ones, no id comes twice, the manifest lists what the snapshot holds,
    -- every id that a part refers to is there, every part comes from selected recordings and every
    -- attribute of a person has a source, every claim is eligible, every relationship has
    -- claims that tell of it, and every conflict names exactly the recordings of its claims.
    pub validate_snapshot_closure-IsClosed :
        (wanted : Option (List String))
        → (validate_snapshot_closure os s wanted ≡ ok tt) ↔ IsClosed s os wanted
    unfolding validate_snapshot_closure
    validate_snapshot_closure-IsClosed wanted =
        let chain = then3-Passes _ _ _ (version-Passes wanted) unique_ids-Passes (
          then3-Passes _ _ _ listed-Passes
            (for_each-Passes (check_evidence s) (evidence-Passes s) s.evidence)
            (then3-Passes _ _ _ (for_each-Passes (check_claim os s) claim-Passes s.claims)
              (for_each-Passes (check_person s) (person-Passes s) s.people)
              (then3-Passes _ _ _
                (for_each-Passes (check_relationship os s) relationship-Passes s.relationships)
                (for_each-Passes (check_story s) (story-Passes s) s.stories)
                (then3-Passes _ _ _ (for_each-Passes (check_event s) (event-Passes s) s.events)
                  (for_each-Passes (check_correction s) correction-Passes s.corrections)
                  (then-Passes _ _
                    (for_each-Passes (check_uncertainty s) (uncertainty-Passes s) s.uncertainties)
                    (for_each-Passes (check_conflict s) (conflict-Passes s) s.conflicts)))))) in
        (
          (λ h.
              let a = chain.0 h in
              record {
                version = a.0.0;
                expected = a.0.1;
                unique = a.1;
                listed = a.2.0;
                evidence = a.2.1;
                claims = a.2.2.0;
                people = a.2.2.1;
                relationships = a.2.2.2.0;
                stories = a.2.2.2.1;
                events = a.2.2.2.2.0;
                corrections = a.2.2.2.2.1;
                uncertainties = a.2.2.2.2.2.0;
                conflicts = a.2.2.2.2.2.1;
              }),
          (λ c. chain.1 (
            (c.version, c.expected),
            c.unique,
            (
              c.listed,
              c.evidence,
              (
                c.claims,
                c.people,
                (
                  c.relationships,
                  c.stories,
                  (c.events, c.corrections, (c.uncertainties, c.conflicts)),
                ),
              ),
            ),
          )),
        )
