-- ===== src/Conflicts/History.antt =====
-- The decision log of conflicts as a history: what every write to a conflict keeps.
use mathlib.Core.Option.{Option}
use mura_project.Prelude.{
  ◌≡◌, ◌∙◌, refl, sym, ap, subst, String, Bool, true, false, none, some, List, [], ◌∷◌,
  if◌then◌else◌, any, select, All, All-map, str_eq, eq_iff, eq_refl, Bool-cases, inl, inr, arith,
  is_some,
}
use mura_project.Prelude.Table.{
  find, modify, HasUniqueKeys, find-modify, HasUniqueKeys-modify, All-modify,
}
use mura_project.Conflicts.Rows.{
  ConflictStatus, open_status, ArchiveConflictRow, ArchiveConflictDecisionRow, conflict_key,
  is_resolved,
}

-- The decisions from the latest to the first, each from the status that the one before it left; the first
-- from an open conflict.
abbrev pub IsHistory : ConflictStatus → List ArchiveConflictDecisionRow → Type 0
IsHistory status [] = status ≡ open_status
IsHistory status (d ∷ decisions) =
    (d.resulting_status ≡ status) × IsHistory d.previous_status decisions

abbrev pub is_about_conflict : String → ArchiveConflictDecisionRow → Bool
is_about_conflict k d = str_eq d.conflict_id k

-- Whether the claim that is preferred belongs to the conflict.
abbrev pub is_one_of : Option String → List String → Bool
is_one_of none claim_ids = false
is_one_of (some k) claim_ids = any (str_eq k) claim_ids

abbrev pub has_preferred : ArchiveConflictRow → Bool
has_preferred c = is_one_of c.preferred_claim_id c.claim_ids

-- A resolved conflict prefers one of its claims, and no other conflict prefers any.
pub record IsSettled (c : ArchiveConflictRow) : Type 0 where
  pub preferred : is_resolved c.status ≡ is_some c.preferred_claim_id
  pub own : has_preferred c ≡ is_some c.preferred_claim_id

pub record IsAudited (conflicts : List ArchiveConflictRow)
    (decisions : List ArchiveConflictDecisionRow) : Type 0 where
  pub unique : HasUniqueKeys conflict_key conflicts
  pub known : All (λ d. is_some (find conflict_key d.conflict_id conflicts) ≡ true) decisions
  pub settled : All IsSettled conflicts
  pub history :
      (k : String) (c : ArchiveConflictRow)
      → find conflict_key k conflicts ≡ some c
      → IsHistory c.status (select (is_about_conflict k) decisions)

-- A write to a conflict together with the decision that leads to its new status.
module _ (conflicts : List ArchiveConflictRow) (decisions : List ArchiveConflictDecisionRow)
    (k : String) (c : ArchiveConflictRow) (f : ArchiveConflictRow → ArchiveConflictRow)
    (d : ArchiveConflictDecisionRow) (h : IsAudited conflicts decisions)
    (keep : (x : ArchiveConflictRow) → conflict_key (f x) ≡ conflict_key x)
    (at_k : find conflict_key k conflicts ≡ some c) (about : d.conflict_id ≡ k)
    (from_old : d.previous_status ≡ c.status) (to_new : d.resulting_status ≡ (f c).status)
    (good : IsSettled (f c)) where
  found_modify :
      (j : String)
      → find conflict_key j (modify conflict_key k f conflicts)
        ≡ (if str_eq k j then some (f c) else find conflict_key j conflicts)
  found_modify j = rw (find-modify conflict_key k j f conflicts keep, at_k)

  known_modify :
      (ds : List ArchiveConflictDecisionRow)
      → All (λ x. is_some (find conflict_key x.conflict_id conflicts) ≡ true) ds
      → All
          (λ x.
            is_some (find conflict_key x.conflict_id (modify conflict_key k f conflicts)) ≡ true)
          ds
  known_modify ds p = All-map (λ x q. ground (arith, found_modify x.conflict_id, q)) ds p

  IsHistory-modify :
      (j : String) (x : ArchiveConflictRow)
      → find conflict_key j (modify conflict_key k f conflicts) ≡ some x
      → IsHistory x.status (select (is_about_conflict j) (d ∷ decisions))
  IsHistory-modify j x e = elim (Bool-cases (str_eq k j)) [
    | inl same ↦
        let equal : k ≡ j = (eq_iff k j).0 same in
        let new : f c ≡ x = ground (arith, sym e ∙ found_modify j) in
        let old : IsHistory c.status (select (is_about_conflict j) decisions) =
          h.history j c (rw (← equal) at_k) in
        rw (about, same) (to_new ∙ ap (λ (y : ArchiveConflictRow). y.status) new, rw from_old old)
    | inr other ↦
        let old : IsHistory x.status (select (is_about_conflict j) decisions) =
          h.history j x (ground (arith, sym e ∙ found_modify j)) in
        rw (about, other) old
  ]

  pub modify-IsAudited : IsAudited (modify conflict_key k f conflicts) (d ∷ decisions)
  modify-IsAudited = record {
    unique = HasUniqueKeys-modify conflict_key k f conflicts keep h.unique;
    known = (rw (about, found_modify k, eq_refl k), known_modify decisions h.known);
    settled =
        All-modify conflict_key IsSettled k f conflicts
          (λ x e s.
            let same : c ≡ x = ground (arith, sym at_k ∙ e) in
            subst (λ (y : ArchiveConflictRow). IsSettled (f y)) same good)
          h.settled;
    history = IsHistory-modify;
  }

-- A conflict that is new and open.
module _ (conflicts : List ArchiveConflictRow) (decisions : List ArchiveConflictDecisionRow)
    (c : ArchiveConflictRow) (h : IsAudited conflicts decisions)
    (fresh : find conflict_key c.conflict_id conflicts ≡ none) (opened : c.status ≡ open_status)
    (good : IsSettled c) where
  nothing_about :
      (ds : List ArchiveConflictDecisionRow)
      → All (λ x. is_some (find conflict_key x.conflict_id conflicts) ≡ true) ds
      → select (is_about_conflict c.conflict_id) ds ≡ []
  nothing_about [] p = refl
  nothing_about (d ∷ ds) p = elim (Bool-cases (str_eq d.conflict_id c.conflict_id)) [
    | inl same ↦
        let equal : d.conflict_id ≡ c.conflict_id = (eq_iff d.conflict_id c.conflict_id).0 same in
        absurd (ground (arith, rw (equal, fresh) at p.0))
    | inr other ↦ rw other (nothing_about ds p.1)
  ]

  IsHistory-insert :
      (j : String) (x : ArchiveConflictRow)
      → find conflict_key j (c ∷ conflicts) ≡ some x
      → IsHistory x.status (select (is_about_conflict j) decisions)
  unfolding find
  IsHistory-insert j x e = elim (Bool-cases (str_eq c.conflict_id j)) [
    | inl same ↦
        let equal : c.conflict_id ≡ j = (eq_iff c.conflict_id j).0 same in
        let row : c ≡ x = ground arith in
        rw (← equal, nothing_about decisions h.known)
          (sym (ap (λ (y : ArchiveConflictRow). y.status) row) ∙ opened)
    | inr other ↦ h.history j x (rw other at e)
  ]

  pub insert-IsAudited : IsAudited (c ∷ conflicts) decisions
  unfolding find
  insert-IsAudited = record {
    unique = (fresh, h.unique);
    known = All-map (λ d p. ground (arith, p)) decisions h.known;
    settled = (good, h.settled);
    history = IsHistory-insert;
  }
