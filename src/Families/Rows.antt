-- ===== src/Families/Rows.antt =====
-- The tables of storage/identity.py, and the roles of identity/policy.py. Ids and hashes are texts, instants
-- microseconds.
use mura_project.Prelude.{ℕ, String, Bool, true, false, ◌&&◌, Option, List, str_eq}
use mura_project.Books.Rows.{BookRow}

pub data FamilyRole : Type 0 where
  owner editor viewer : FamilyRole

abbrev pub is_owner : FamilyRole → Bool
is_owner owner = true
is_owner _ = false

pub data FamilyInvitationStatus : Type 0 where
  pending accepted revoked expired : FamilyInvitationStatus

abbrev pub is_pending : FamilyInvitationStatus → Bool
is_pending pending = true
is_pending _ = false

abbrev pub is_accepted : FamilyInvitationStatus → Bool
is_accepted accepted = true
is_accepted _ = false

abbrev pub is_revoked : FamilyInvitationStatus → Bool
is_revoked revoked = true
is_revoked _ = false

abbrev pub is_expired : FamilyInvitationStatus → Bool
is_expired expired = true
is_expired _ = false

pub record UserRow : Type 0 where
  pub user_id : String
  pub auth_issuer : String
  pub auth_subject : String
  pub email : Option String
  pub display_name : Option String

pub record FamilyRow : Type 0 where
  pub family_id : String
  pub name : String
  pub created_by_user_id : Option String
  pub created_at : ℕ
  pub updated_at : ℕ

pub record FamilyMembershipRow : Type 0 where
  pub membership_id : String
  pub family_id : String
  pub user_id : String
  pub role : FamilyRole
  pub created_at : ℕ
  pub updated_at : ℕ

pub record FamilyInvitationRow : Type 0 where
  pub invitation_id : String
  pub family_id : String
  pub created_by_user_id : Option String
  pub intended_role : FamilyRole
  pub token_hash : String
  pub status : FamilyInvitationStatus
  pub expires_at : ℕ
  pub created_at : ℕ
  pub accepted_at : Option ℕ
  pub accepted_by_user_id : Option String
  pub revoked_at : Option ℕ
  pub revoked_by_user_id : Option String

pub record Database : Type 0 where
  pub users : List UserRow
  pub families : List FamilyRow
  pub memberships : List FamilyMembershipRow
  pub invitations : List FamilyInvitationRow
  pub books : List BookRow

abbrev pub user_key : UserRow → String
user_key r = r.user_id

abbrev pub family_key : FamilyRow → String
family_key r = r.family_id

-- The columns of `uq_family_membership`.
abbrev pub is_member : String → String → FamilyMembershipRow → Bool
is_member family_id user_id m = str_eq m.family_id family_id && str_eq m.user_id user_id

abbrev pub is_owner_of : String → FamilyMembershipRow → Bool
is_owner_of family_id m = str_eq m.family_id family_id && is_owner m.role
