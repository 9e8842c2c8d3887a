-- ===== src/Snapshots/Provenance.antt =====
-- Where the facts of an accepted snapshot come from (book/snapshot_validation.py).
use mura_project.Prelude.{
  ◌≡◌, refl, String, true, false, Option, some, List, [], ◌∷◌, map, All, All-mem, Memᴰ, str_eq,
  eq_iff, is_empty, ok, arith, Bool-cases, inl, inr,
}
use mura_project.Prelude.Table.{find}
use mura_project.Snapshots.Relationships.{Unicode, relationship_semantics_match}
use mura_project.Snapshots.Truth.{book_truth_fields_eligible}
use mura_project.Snapshots.Rows.{
  SnapshotRelationship, SnapshotClaim, SnapshotEvidence, BookSourceSnapshot, evidence_key,
  claim_key,
}
use mura_project.Snapshots.Ids.{IsIn}
use mura_project.Snapshots.Validation.{selected, is_eligible, validate_snapshot_closure}
use mura_project.Snapshots.Closed.{
  IsNonempty, IsClosedClaim, IsSupport, IsClosedEvidence, IsClosedRelationship, IsClosed,
}
use mura_project.Snapshots.Acceptance.{validate_snapshot_closure-IsClosed}

find-Mem :
    {A : Type 0} (key : A → String) (k : String) (xs : List A) {x : A}
    → find key k xs ≡ some x
    → Memᴰ x xs
unfolding find
find-Mem key k [] h = absurd (ground arith)
find-Mem key k (y ∷ xs) h = elim (Bool-cases (str_eq (key y) k)) [
  | inl e ↦ Memᴰ.head (ground (arith, h, e))
  | inr e ↦ Memᴰ.tail (find-Mem key k xs (ground (arith, h, e)))
]

found_of_IsIn :
    {A : Type 0} (key : A → String) (k : String) (xs : List A)
    → IsIn k (map key xs)
    → (x : A) × (find key k xs ≡ some x)
unfolding find
found_of_IsIn key k [] h = absurd (ground arith)
found_of_IsIn key k (y ∷ xs) h = elim (Bool-cases (str_eq (key y) k)) [
  | inl e ↦ (y, rw e refl)
  | inr e ↦
      let rest =
        found_of_IsIn key k xs (ground (arith, h, e, eq_iff k (key y), eq_iff (key y) k)) in
      (rest.0, rw e rest.1)
]

first_of : (xs : List String) → IsNonempty xs → (k : String) × IsIn k xs
first_of [] h = absurd h
first_of (k ∷ xs) h = (k, ground (arith, eq_iff k k))

module _ (os : Unicode) (s : BookSourceSnapshot) where
  -- A claim of the snapshot that tells of the relationship, and a piece of evidence of the snapshot that the claim
  -- cites; both come from recordings that are selected for the book.
  pub record IsGrounded (r : SnapshotRelationship) : Type 0 where
    pub claim : SnapshotClaim
    pub evidence : SnapshotEvidence
    pub claim_there : Memᴰ claim s.claims
    pub evidence_there : Memᴰ evidence s.evidence
    pub tells : relationship_semantics_match os claim.shape r.shape ≡ true
    pub cites :
        (k : String) × IsIn k claim.evidence_ids × (find evidence_key k s.evidence ≡ some evidence)
    pub claim_selected : IsIn claim.recording_id (selected s)
    pub evidence_selected : IsIn evidence.recording_id (selected s)

  cites_something :
      (c : SnapshotClaim) → is_eligible os s c ≡ true → is_empty c.evidence_ids ≡ false
  unfolding is_eligible book_truth_fields_eligible
  cites_something c h = ground (arith, h)

  is_empty-IsNonempty : (xs : List String) → is_empty xs ≡ false → IsNonempty xs
  is_empty-IsNonempty [] h = absurd (ground arith)
  is_empty-IsNonempty (x ∷ xs) h = tt

  Support-Grounded :
      (wanted : Option (List String)) (r : SnapshotRelationship) (k : String)
      → IsClosed s os wanted
      → IsSupport s os r k
      → IsGrounded r
  Support-Grounded wanted r k closed (c, e, kind, tells, from) =
      let there : Memᴰ c s.claims = find-Mem claim_key k s.claims e in
      let good : IsClosedClaim s os c = All-mem (IsClosedClaim s os) s.claims closed.claims there in
      let id =
        first_of c.evidence_ids (is_empty-IsNonempty c.evidence_ids (cites_something c good.0)) in
      let known = found_of_IsIn evidence_key id.0 s.evidence (good.1 id.0 id.1) in
      let kept : Memᴰ known.0 s.evidence = find-Mem evidence_key id.0 s.evidence known.1 in
      record {
        claim = c;
        evidence = known.0;
        claim_there = there;
        evidence_there = kept;
        tells = tells;
        cites = (id.0, id.1, known.1);
        claim_selected = from;
        evidence_selected = (All-mem (IsClosedEvidence s) s.evidence closed.evidence kept).0;
      }

  first-IsSupport :
      (r : SnapshotRelationship) (ks : List String)
      → IsNonempty ks
      → All (IsSupport s os r) ks
      → (k : String) × IsSupport s os r k
  first-IsSupport r [] h a = absurd h
  first-IsSupport r (k ∷ ks) h a = (k, a.0)

  -- Every relationship of a snapshot that the validation accepts goes back to words of the family: there is a claim of
  -- the snapshot that tells of it, up to the order of its end points, and a piece of evidence of the
  -- snapshot that the claim cites, both from selected recordings.
  pub validate_snapshot_closure-IsGrounded :
      (wanted : Option (List String)) (r : SnapshotRelationship)
      → validate_snapshot_closure os s wanted ≡ ok tt
      → Memᴰ r s.relationships
      → IsGrounded r
  validate_snapshot_closure-IsGrounded wanted r accepted there =
      let closed : IsClosed s os wanted =
        (validate_snapshot_closure-IsClosed s os wanted).0 accepted in
      let good : IsClosedRelationship s os r =
        All-mem (IsClosedRelationship s os) s.relationships closed.relationships there in
      let one = first-IsSupport r r.source_claim_ids good.2 good.3 in
      Support-Grounded wanted r one.0 closed one.1
