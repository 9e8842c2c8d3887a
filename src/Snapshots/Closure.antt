-- ===== src/Snapshots/Closure.antt =====
-- The checks of the single parts of a snapshot (book/snapshot_validation.py).
use mura_project.Prelude.{
  ℕ, ◌≡◌, ◌↔◌, String, map, ◌==◌, str_eq, eq_iff, value_error, ◌>>◌, guard, arith,
}
use mura_project.Snapshots.Rows.{
  SnapshotPerson, SnapshotEvent, SnapshotStory, SnapshotUncertainty, SnapshotConflict,
  SnapshotEvidence, BookSourceSnapshot, claim_key,
}
use mura_project.Snapshots.Validation.{
  Check, selected, check_evidence, check_attribute, check_person, check_story, check_event,
  check_uncertainty, check_conflict, required_keys, recordings_of,
}
use mura_project.Snapshots.Closed.{
  IsClosedEvidence, IsClosedAttribute, IsClosedPerson, IsClosedStory, IsClosedEvent,
  IsClosedUncertainty, IsClosedConflict,
}
use mura_project.Snapshots.Passing.{
  Passes, iff_trans, guard-Passes, then-Passes, for_each-Passes, IsWithin-Passes, IsSomeIn-Passes,
  IsOptionalIn-Passes, IsNonempty-Passes, mutual-Passes,
}

pub then3-Passes :
    {P Q S : Type 0} (p q s : Check)
    → Passes p ↔ P
    → Passes q ↔ Q
    → Passes s ↔ S
    → Passes (p >> (q >> s)) ↔ (P × Q × S)
then3-Passes p q s pp qq ss =
    let both = then-Passes p (q >> s) pp (then-Passes q s qq ss) in
    ((λ h. ((both.0 h).0, (both.0 h).1.0, (both.0 h).1.1)), (λ h. both.1 (h.0, (h.1, h.2))))

pub number-Passes : (a b : ℕ) → Passes (guard (a == b) value_error) ↔ (a ≡ b)
number-Passes a b = iff_trans (guard-Passes _) ((λ h. ground (arith, h)), (λ e. ground (arith, e)))

pub text-Passes : (a b : String) → Passes (guard (str_eq a b) value_error) ↔ (a ≡ b)
text-Passes a b = iff_trans (guard-Passes _) (eq_iff a b)

module _ (s : BookSourceSnapshot) where
  pub evidence-Passes : (e : SnapshotEvidence) → Passes (check_evidence s e) ↔ IsClosedEvidence s e
  unfolding check_evidence
  evidence-Passes e = then-Passes _ _ (guard-Passes _) (IsWithin-Passes _ _)

  pub story-Passes : (x : SnapshotStory) → Passes (check_story s x) ↔ IsClosedStory s x
  unfolding check_story
  story-Passes x = then3-Passes _ _ _ (guard-Passes _) (IsWithin-Passes _ _) (IsWithin-Passes _ _)

  pub event-Passes : (x : SnapshotEvent) → Passes (check_event s x) ↔ IsClosedEvent s x
  unfolding check_event
  event-Passes x =
      then3-Passes _ _ _ (IsSomeIn-Passes _ _) (IsWithin-Passes _ _) (IsWithin-Passes _ _)

  pub uncertainty-Passes :
      (x : SnapshotUncertainty) → Passes (check_uncertainty s x) ↔ IsClosedUncertainty s x
  unfolding check_uncertainty
  uncertainty-Passes x = then-Passes _ _ (IsOptionalIn-Passes _ _) (IsWithin-Passes _ _)

  pub attribute-Passes :
      (p : SnapshotPerson) (key : String)
      → Passes (check_attribute s p key) ↔ IsClosedAttribute s p key
  unfolding check_attribute
  attribute-Passes p key = then-Passes _ _ (IsNonempty-Passes _) (IsWithin-Passes _ _)

  pub person-Passes : (p : SnapshotPerson) → Passes (check_person s p) ↔ IsClosedPerson s p
  unfolding check_person
  person-Passes p =
      then3-Passes _ _ _ (IsWithin-Passes _ _) (IsNonempty-Passes _)
        (for_each-Passes (check_attribute s p) (attribute-Passes p) (required_keys p))

  pub conflict-Passes : (x : SnapshotConflict) → Passes (check_conflict s x) ↔ IsClosedConflict s x
  unfolding check_conflict
  conflict-Passes x =
      let last =
        then3-Passes _ _ _ (IsOptionalIn-Passes x.preferred_claim_id x.claim_ids)
          (IsWithin-Passes x.recording_ids (selected s))
          (mutual-Passes x.recording_ids (recordings_of s.claims x.claim_ids)) in
      let whole =
        then3-Passes _ _ _ (IsNonempty-Passes x.claim_ids)
          (IsWithin-Passes x.claim_ids (map claim_key s.claims)) last in
      (
        (λ h. let a = whole.0 h in (a.0, a.1, a.2.0, a.2.1, a.2.2)),
        (λ h. whole.1 (h.0, h.1, (h.2, h.3, h.4))),
      )
