-- ===== src/Families/Schedules.antt =====
-- Schedules of the transactions of storage/identity.py on memberships and invitations.
use mura_project.Prelude.{ℕ, String, List, [], ◌∷◌, Result, ok, err, settled}
use mura_project.Families.Rows.{FamilyRole, Database}
use mura_project.Families.Members.{create_family, change_member_role, remove_member, delete_account}
use mura_project.Families.Invitations.{
  create_invitation, revoke_invitation, accept_invitation, expire_pending,
}

pub data Action : Type 0 where
  creates : String → String → String → String → ℕ → Action
  changes : String → String → FamilyRole → ℕ → Action
  removes : String → String → Action
  deletes : String → ℕ → Action
  invites : String → String → String → FamilyRole → String → ℕ → ℕ → Action
  revokes : String → String → String → ℕ → Action
  accepts : String → String → String → ℕ → Action
  lists : String → ℕ → Action

-- The state after a transaction that also answers something.
abbrev pub settled_with {ℓ} : {A : Type ℓ} → Database → Result (Database × A) → Database
settled_with db (ok (db', a)) = db'
settled_with db (err e) = db

unfoldable pub step : Action → Database → Database
step (creates family_id membership_id name user_id now) db =
    settled db (create_family family_id membership_id name user_id now db)
step (changes family_id user_id role now) db =
    settled db (change_member_role family_id user_id role now db)
step (removes family_id user_id) db = settled db (remove_member family_id user_id db)
step (deletes user_id now) db = settled_with db (delete_account user_id now db)
step (invites id family_id creator role hash ttl now) db =
    settled db (create_invitation id family_id creator role hash ttl now db)
step (revokes family_id invitation_id revoker now) db =
    settled db (revoke_invitation family_id invitation_id revoker now db)
step (accepts hash user_id membership_id now) db =
    settled_with db (accept_invitation hash user_id membership_id now db)
step (lists family_id now) db = expire_pending family_id now db

unfoldable pub run : List Action → Database → Database
run [] db = db
run (a ∷ rest) db = run rest (step a db)
