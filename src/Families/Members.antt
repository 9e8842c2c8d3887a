-- ===== src/Families/Members.antt =====
-- The members of a family in storage/identity.py: `create_family`, the change and removal of a member, and
-- the deletion of an account.
use mura_project.Prelude.{
  ℕ, String, Bool, true, false, ◌&&◌, not, Option, none, some, List, ◌∷◌, leb, is_some, holds_text,
  str_eq, if◌then◌else◌, count_where, select, any, all, map, Result, ok, integrity_error,
  sole_owner, membership_not_found, account_deletion_blocked, ◌>>=◌, ◌>>◌, or_raise, guard,
}
use mura_project.Prelude.Table.{find, remove, find_where}
use mura_project.Prelude.Where.{modify_where, remove_where}
use mura_project.Books.Rows.{BookRow}
use mura_project.Families.Rows.{
  FamilyRole, owner, is_owner, UserRow, FamilyRow, FamilyMembershipRow, FamilyInvitationRow,
  Database, user_key, family_key, is_member, is_owner_of,
}

-- `_lock_family`
unfoldable pub lock_family : String → Database → Bool
lock_family family_id db = is_some (find family_key family_id db.families)

-- `_lock_owners`, `count_owners`
unfoldable pub lock_owners : String → List FamilyMembershipRow → ℕ
lock_owners family_id = count_where (is_owner_of family_id)

unfoldable pub new_membership : String → String → String → FamilyRole → ℕ → FamilyMembershipRow
new_membership membership_id family_id user_id role now = record {
  membership_id = membership_id;
  family_id = family_id;
  user_id = user_id;
  role = role;
  created_at = now;
  updated_at = now;
}

-- The ids are random. A primary key or a membership that is there makes the insert fail.
unfoldable pub create_family : String → String → String → String → ℕ → Database → Result Database
unfolding new_membership
create_family family_id membership_id name owner_user_id now db = do
  guard (not (is_some (find family_key family_id db.families))) integrity_error
  guard (not (any (is_member family_id owner_user_id) db.memberships)) integrity_error
  ok (record db {
    families =
        record {
          family_id = family_id;
          name = name;
          created_by_user_id = some owner_user_id;
          created_at = now;
          updated_at = now;
        }
        ∷ db.families;
    memberships = new_membership membership_id family_id owner_user_id owner now ∷ db.memberships;
  })

unfoldable pub get_membership : String → String → Database → Option FamilyMembershipRow
get_membership family_id user_id db = find_where (is_member family_id user_id) db.memberships

unfoldable pub with_role : FamilyRole → ℕ → FamilyMembershipRow → FamilyMembershipRow
with_role role now m = record m { role = role; updated_at = now }

unfoldable pub change_member_role : String → String → FamilyRole → ℕ → Database → Result Database
unfolding lock_family lock_owners with_role
change_member_role family_id user_id role now db = do
  guard (lock_family family_id db) membership_not_found
  m ← or_raise (find_where (is_member family_id user_id) db.memberships) membership_not_found
  guard
      (not
        (is_owner m.role && (not (is_owner role) && leb (lock_owners family_id db.memberships) 1)))
      sole_owner
  ok (record db {
    memberships = modify_where (is_member family_id user_id) (with_role role now) db.memberships;
  })

unfoldable pub remove_member : String → String → Database → Result Database
unfolding lock_family lock_owners
remove_member family_id user_id db = do
  guard (lock_family family_id db) membership_not_found
  m ← or_raise (find_where (is_member family_id user_id) db.memberships) membership_not_found
  guard (not (is_owner m.role && leb (lock_owners family_id db.memberships) 1)) sole_owner
  ok (record db { memberships = remove_where (is_member family_id user_id) db.memberships })

abbrev pub clear : String → Option String → Option String
clear user_id o = if holds_text o user_id then none else o

-- The memberships of the user whose family has no other owner.
unfoldable pub is_blocked : String → List FamilyMembershipRow → FamilyMembershipRow → Bool
unfolding lock_owners
is_blocked user_id rows m =
    str_eq m.user_id user_id && (is_owner m.role && leb (lock_owners m.family_id rows) 1)

-- The family of a membership of the user is there to be locked.
abbrev pub is_lockable : String → Database → FamilyMembershipRow → Bool
is_lockable user_id db m = if str_eq m.user_id user_id then lock_family m.family_id db else true

-- What the deletion of an account writes: attributions are cleared, memberships and the user deleted. An
-- update of a book also sets its `updated_at`, which the column does by itself (`onupdate`).
unfoldable pub without_account : String → ℕ → Database → Database
without_account user_id now db = record {
  users = remove user_key user_id db.users;
  families =
      map
        (λ (f : FamilyRow).
          if holds_text f.created_by_user_id user_id
          then record f { created_by_user_id = none; updated_at = now }
          else f)
        db.families;
  memberships = select (λ m. not (str_eq m.user_id user_id)) db.memberships;
  invitations =
      map
        (λ (i : FamilyInvitationRow). record i {
          created_by_user_id = clear user_id i.created_by_user_id;
          accepted_by_user_id = clear user_id i.accepted_by_user_id;
          revoked_by_user_id = clear user_id i.revoked_by_user_id;
        })
        db.invitations;
  books =
      map
        (λ (b : BookRow).
          if holds_text b.created_by_user_id user_id
          then record b { created_by_user_id = none; updated_at = now }
          else b)
        db.books;
}

abbrev pub delete_found : String → ℕ → Database → Option UserRow → Result (Database × Bool)
delete_found user_id now db none = ok (db, false)
delete_found user_id now db (some u) = do
  guard (all (is_lockable user_id db) db.memberships) membership_not_found
  guard (not (any (is_blocked user_id db.memberships) db.memberships)) account_deletion_blocked
  ok (without_account user_id now db, true)

unfoldable pub delete_account : String → ℕ → Database → Result (Database × Bool)
unfolding lock_family is_blocked without_account
delete_account user_id now db = delete_found user_id now db (find user_key user_id db.users)
