-- ===== src/Families/Invitations.antt =====
-- Invitations into a family in storage/identity.py. `hash_invitation_token` is applied by the caller here: the
-- operations take the hash of the token.
use mura_project.Prelude.{
  ℕ, ◌+◌, ◌*◌, String, Bool, true, false, ◌&&◌, ◌||◌, not, Option, none, some, ◌∷◌, leb, holds_text,
  str_eq, if◌then◌else◌, any, map, Result, ok, err, integrity_error, membership_not_found,
  invitation_not_found, invitation_expired, invitation_revoked, invitation_already_accepted,
  invalid_invitation_role, runtime_error, ◌>>=◌, ◌>>◌, or_raise, guard,
}
use mura_project.Prelude.Table.{find_where}
use mura_project.Prelude.Where.{modify_where}
use mura_project.Families.Rows.{
  FamilyRole, is_owner, pending, accepted, revoked, expired, is_pending, is_accepted, is_revoked,
  is_expired, FamilyMembershipRow, FamilyInvitationRow, Database, is_member,
}
use mura_project.Families.Members.{lock_family, new_membership}

-- `timedelta(hours=1)`
abbrev hour : ℕ
hour = 3600000000

abbrev pub has_hash : String → FamilyInvitationRow → Bool
has_hash token_hash i = str_eq i.token_hash token_hash

unfoldable pub new_invitation :
    String → String → String → FamilyRole → String → ℕ → ℕ → FamilyInvitationRow
new_invitation invitation_id family_id creator_user_id role token_hash ttl_hours now = record {
  invitation_id = invitation_id;
  family_id = family_id;
  created_by_user_id = some creator_user_id;
  intended_role = role;
  token_hash = token_hash;
  status = pending;
  expires_at = now + ttl_hours * hour;
  created_at = now;
  accepted_at = none;
  accepted_by_user_id = none;
  revoked_at = none;
  revoked_by_user_id = none;
}

-- The hash of a token is unique.
unfoldable pub create_invitation :
    String → String → String → FamilyRole → String → ℕ → ℕ → Database → Result Database
unfolding new_invitation lock_family
create_invitation invitation_id family_id creator_user_id role token_hash ttl_hours now db = do
  guard (not (is_owner role)) invalid_invitation_role
  guard (lock_family family_id db) membership_not_found
  guard (not (any (has_hash token_hash) db.invitations)) integrity_error
  ok (record db {
    invitations =
        new_invitation invitation_id family_id creator_user_id role token_hash ttl_hours now
        ∷ db.invitations;
  })

abbrev pub is_invitation : String → String → FamilyInvitationRow → Bool
is_invitation family_id invitation_id i =
    str_eq i.invitation_id invitation_id && str_eq i.family_id family_id

abbrev revoke_pending : String → String → String → ℕ → Database → Database
revoke_pending family_id invitation_id revoker_user_id now db = record db {
  invitations =
      modify_where (is_invitation family_id invitation_id)
        (λ i. record i {
          status = revoked;
          revoked_at = some now;
          revoked_by_user_id = some revoker_user_id;
        })
        db.invitations;
}

-- A revoked invitation stays as it is.
unfoldable pub revoke_invitation : String → String → String → ℕ → Database → Result Database
unfolding lock_family
revoke_invitation family_id invitation_id revoker_user_id now db = do
  guard (lock_family family_id db) membership_not_found
  i ←
      or_raise (find_where (is_invitation family_id invitation_id) db.invitations)
        invitation_not_found
  guard (not (is_accepted i.status)) runtime_error
  ok (
      if is_revoked i.status
      then db
      else revoke_pending family_id invitation_id revoker_user_id now db)

unfoldable pub accepted_row : String → ℕ → FamilyInvitationRow → FamilyInvitationRow
accepted_row user_id now i = record i {
  status = accepted;
  accepted_at = some now;
  accepted_by_user_id = some user_id;
}

-- The membership that an acceptance returns, and whether the user already had it.
pub record Acceptance : Type 0 where
  pub membership : FamilyMembershipRow
  pub already_member : Bool

abbrev pub again : Database → Option FamilyMembershipRow → Result (Database × Acceptance)
again db none = err invitation_already_accepted
again db (some m) = ok (db, record { membership = m; already_member = true })

abbrev pub mark_accepted : String → String → ℕ → Database → Database
mark_accepted token_hash user_id now db = record db {
  invitations = modify_where (has_hash token_hash) (accepted_row user_id now) db.invitations;
}

abbrev pub join :
    String
    → String
    → String
    → ℕ
    → FamilyInvitationRow
    → Database
    → Option FamilyMembershipRow
    → Database × Acceptance
join token_hash user_id membership_id now i db (some m) =
    (mark_accepted token_hash user_id now db, record { membership = m; already_member = true })
join token_hash user_id membership_id now i db none =
    let m = new_membership membership_id i.family_id user_id i.intended_role now in
    (
      record (mark_accepted token_hash user_id now db) { memberships = m ∷ db.memberships },
      record { membership = m; already_member = false },
    )

abbrev pub accept_found :
    String
    → String
    → String
    → ℕ
    → FamilyInvitationRow
    → Database
    → Option FamilyMembershipRow
    → Result (Database × Acceptance)
accept_found token_hash user_id membership_id now i db existing =
    if is_revoked i.status
    then err invitation_revoked
    else if is_expired i.status || leb i.expires_at now
    then err invitation_expired
    else if is_accepted i.status
    then (if holds_text i.accepted_by_user_id user_id
        then again db existing
        else err invitation_already_accepted)
    else if lock_family i.family_id db
    then ok (join token_hash user_id membership_id now i db existing)
    else err membership_not_found

-- The status `expired` that the code sets before it raises is rolled back with the transaction.
unfoldable pub accept_invitation :
    String → String → String → ℕ → Database → Result (Database × Acceptance)
unfolding lock_family accepted_row new_membership
accept_invitation token_hash user_id membership_id now db = do
  i ← or_raise (find_where (has_hash token_hash) db.invitations) invitation_not_found
  accept_found token_hash user_id membership_id now i db
      (find_where (is_member i.family_id user_id) db.memberships)

-- The expiry that `list_invitations` writes before it reads.
unfoldable pub expire_pending : String → ℕ → Database → Database
expire_pending family_id now db = record db {
  invitations =
      map
        (λ (i : FamilyInvitationRow).
          if str_eq i.family_id family_id && (is_pending i.status && leb i.expires_at now)
          then record i { status = expired }
          else i)
        db.invitations;
}
