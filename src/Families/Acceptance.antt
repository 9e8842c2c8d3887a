-- ===== src/Families/Acceptance.antt =====
-- `accept_invitation` of storage/identity.py: whom it admits, with which role, and how often.
use mura_project.Prelude.{
  ◌⊎◌, ℕ, ◌<◌, ◌≡◌, refl, String, true, false, ◌&&◌, ◌||◌, Option, none, some, List, ◌∷◌, leb,
  holds_text, str_eq, eq_iff, eq_refl, Bool-cases, Option-cases, inl, inr, ok, err, if◌then◌else◌,
  arith, subst, ok_inj, invitation_expired, invitation_already_accepted,
}
use mura_project.Prelude.Table.{find_where}
use mura_project.Prelude.Where.{find_where-modify_where}
use mura_project.Families.Rows.{
  is_accepted, is_revoked, is_expired, FamilyMembershipRow, FamilyInvitationRow, Database,
  is_member,
}
use mura_project.Families.Members.{lock_family, new_membership, get_membership}
use mura_project.Families.Invitations.{
  has_hash, accepted_row, Acceptance, again, mark_accepted, join, accept_found, accept_invitation,
}

-- The invitation of the token has been used by the user.
pub record IsUsedBy (hash user_id : String) (db : Database) : Type 0 where
  pub row : FamilyInvitationRow
  pub stored : find_where (has_hash hash) db.invitations ≡ some row
  pub is_used : is_accepted row.status ≡ true
  pub by : holds_text row.accepted_by_user_id user_id ≡ true

-- What holds after the acceptance of the invitation `i` by the user.
pub record Accepted (hash user_id : String) (now : ℕ) (db : Database) (i : FamilyInvitationRow)
    (db' : Database) (a : Acceptance) : Type 0 where
  pub stored : find_where (has_hash hash) db.invitations ≡ some i
  pub not_revoked : is_revoked i.status ≡ false
  pub not_expired : (is_expired i.status ≡ false) × (now < i.expires_at)
  pub admitted : get_membership i.family_id user_id db' ≡ some a.membership
  pub role_kept_or_given :
      (get_membership i.family_id user_id db ≡ some a.membership)
      ⊎ (get_membership i.family_id user_id db ≡ none) × (a.membership.role ≡ i.intended_role)
  pub others :
      (f u : String)
      → (str_eq i.family_id f && str_eq user_id u) ≡ false
      → get_membership f u db' ≡ get_membership f u db
  pub used : IsUsedBy hash user_id db'

mark_accepted-IsUsedBy :
    (hash user_id : String) (now : ℕ) (i : FamilyInvitationRow) (db : Database)
    (rows : List FamilyMembershipRow)
    → find_where (has_hash hash) db.invitations ≡ some i
    → IsUsedBy hash user_id (record (mark_accepted hash user_id now db) { memberships = rows })
unfolding accepted_row
mark_accepted-IsUsedBy hash user_id now i db rows e = record {
  row = accepted_row user_id now i;
  stored = rw (
    find_where-modify_where (has_hash hash) (accepted_row user_id now) db.invitations (λ x h. h),
    e,
  );
  is_used = refl;
  by = eq_refl user_id;
}

module _ (hash user_id membership_id : String) (now : ℕ) (db : Database)
    (i : FamilyInvitationRow) where
  join-Accepted :
      (existing : Option FamilyMembershipRow)
      → find_where (has_hash hash) db.invitations ≡ some i
      → is_revoked i.status ≡ false
      → (is_expired i.status || leb i.expires_at now) ≡ false
      → find_where (is_member i.family_id user_id) db.memberships ≡ existing
      → Accepted hash user_id now db i
          (join hash user_id membership_id now i db existing).0
          (join hash user_id membership_id now i db existing).1
  unfolding get_membership new_membership find_where
  join-Accepted (some m) e nr ne h = record {
    stored = e;
    not_revoked = nr;
    not_expired = (ground arith, ground arith);
    admitted = h;
    role_kept_or_given = inl h;
    others = λ f u d. refl;
    used = mark_accepted-IsUsedBy hash user_id now i db db.memberships e;
  }
  join-Accepted none e nr ne h = record {
    stored = e;
    not_revoked = nr;
    not_expired = (ground arith, ground arith);
    admitted = rw (eq_refl i.family_id, eq_refl user_id);
    role_kept_or_given = inr (h, refl);
    others = λ f u d. rw d;
    used =
        mark_accepted-IsUsedBy hash user_id now i db
          (new_membership membership_id i.family_id user_id i.intended_role now ∷ db.memberships) e;
  }

  again-Accepted :
      (existing : Option FamilyMembershipRow) (db' : Database) (a : Acceptance)
      → find_where (has_hash hash) db.invitations ≡ some i
      → is_revoked i.status ≡ false
      → (is_expired i.status || leb i.expires_at now) ≡ false
      → is_accepted i.status ≡ true
      → holds_text i.accepted_by_user_id user_id ≡ true
      → find_where (is_member i.family_id user_id) db.memberships ≡ existing
      → again db existing ≡ ok (db', a)
      → Accepted hash user_id now db i db' a
  unfolding get_membership
  again-Accepted none db' a e nr ne ac by h k = absurd (ground arith)
  again-Accepted (some m) db' a e nr ne ac by h k =
      subst (λ (p : Database × Acceptance). Accepted hash user_id now db i p.0 p.1)
        (ok_inj (db, record { membership = m; already_member = true }) k)
        (record {
          stored = e;
          not_revoked = nr;
          not_expired = (ground arith, ground arith);
          admitted = h;
          role_kept_or_given = inl h;
          others = λ f u d. refl;
          used = record { row = i; stored = e; is_used = ac; by = by };
        })

  found-Accepted :
      (db' : Database) (a : Acceptance) (existing : Option FamilyMembershipRow)
      → find_where (has_hash hash) db.invitations ≡ some i
      → find_where (is_member i.family_id user_id) db.memberships ≡ existing
      → accept_found hash user_id membership_id now i db existing ≡ ok (db', a)
      → Accepted hash user_id now db i db' a
  found-Accepted db' a existing e h k = elim (Bool-cases (is_revoked i.status)) [
    | inl nr ↦ absurd (ground arith)
    | inr nr ↦ elim (Bool-cases (is_expired i.status || leb i.expires_at now)) [
      | inl ne ↦ absurd (ground arith)
      | inr ne ↦ elim (Bool-cases (is_accepted i.status)) [
        | inl ac ↦ elim (Bool-cases (holds_text i.accepted_by_user_id user_id)) [
          | inl by ↦ again-Accepted existing db' a e nr ne ac by h (rw (nr, ne, ac, by) at k)
          | inr by ↦ absurd (ground arith)
        ]
        | inr ac ↦ elim (Bool-cases (lock_family i.family_id db)) [
          | inl l ↦
              subst (λ (p : Database × Acceptance). Accepted hash user_id now db i p.0 p.1)
                (ok_inj (join hash user_id membership_id now i db existing)
                  (rw (nr, ne, ac, l) at k))
                (join-Accepted existing e nr ne h)
          | inr l ↦ absurd (ground arith)
        ]
      ]
    ]
  ]

-- An acceptance succeeds only with the token of an invitation that is neither revoked nor expired. The user is
-- then a member of its family: with the role of the invitation if the user was none before, else
-- with the membership as it was, so that no invitation changes a role. No other membership changes, and the
-- invitation is marked as used by this user.
pub accept_invitation-Accepted :
    (hash user_id membership_id : String) (now : ℕ) (db db' : Database) (a : Acceptance)
    → accept_invitation hash user_id membership_id now db ≡ ok (db', a)
    → (i : FamilyInvitationRow) × Accepted hash user_id now db i db' a
unfolding accept_invitation
accept_invitation-Accepted hash user_id membership_id now db db' a k =
    elim (Option-cases (find_where (has_hash hash) db.invitations)) [
      | inl e ↦ absurd (ground arith)
      | inr (i, e) ↦
          (i, found-Accepted hash user_id membership_id now db i db' a _ e refl (rw e at k))
    ]

used-accept_found :
    (hash second membership_id : String) (now : ℕ) (i : FamilyInvitationRow) (db : Database)
    (existing : Option FamilyMembershipRow)
    → is_accepted i.status ≡ true
    → holds_text i.accepted_by_user_id second ≡ false
    → accept_found hash second membership_id now i db existing
      ≡ (if leb i.expires_at now then err invitation_expired else err invitation_already_accepted)
used-accept_found hash second membership_id now i db existing a h = ground arith

other_user :
    (o : Option String) (first second : String)
    → holds_text o first ≡ true
    → str_eq first second ≡ false
    → holds_text o second ≡ false
other_user none first second p ne = refl
other_user (some x) first second p ne =
    ground (arith, eq_iff x first, eq_iff x second, eq_iff first second)

-- An invitation admits one user: once somebody has used it, every other user is refused, with
-- `InvitationExpired` from its expiry on and `InvitationAlreadyAccepted` before, in any state that still has the
-- invitation as used by the first user.
pub accept_invitation_once :
    (hash first second membership_id : String) (now : ℕ) (db : Database)
    (used : IsUsedBy hash first db)
    → str_eq first second ≡ false
    → accept_invitation hash second membership_id now db ≡ (
        if leb used.row.expires_at now
        then err invitation_expired
        else err invitation_already_accepted)
unfolding accept_invitation
accept_invitation_once hash first second membership_id now db used ne = rw used.stored (
    used-accept_found hash second membership_id now used.row db _ used.is_used
      (other_user used.row.accepted_by_user_id first second used.by ne))
