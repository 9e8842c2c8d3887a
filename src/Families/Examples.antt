-- ===== src/Families/Examples.antt =====
-- The theorems about families at a small database, and tests by evaluation.
use mura_project.Prelude.{
  ◌≤◌, ◌≡◌, refl, String, none, some, List, [], ◌∷◌, arith, ok, err, sole_owner,
  invitation_already_accepted, false,
}
use mura_project.Prelude.Table.{find, find_where}
use mura_project.Prelude.Where
use mura_project.Families.Rows.{
  owner, viewer, pending, UserRow, FamilyMembershipRow, FamilyInvitationRow, Database,
}
use mura_project.Families.Members.{lock_owners, lock_family, change_member_role, new_membership}
use mura_project.Families.Invitations.{Acceptance, accept_invitation, accepted_row}
use mura_project.Families.Schedules.{Action, changes, removes, deletes, accepts, run}
use mura_project.Families.Owners.{HasUniqueMembers}
use mura_project.Families.Ownership.{run-keeps-owner}
use mura_project.Families.Acceptance.{Accepted, accept_invitation-Accepted, accept_invitation_once}

abbrev member : FamilyMembershipRow
member = record {
  membership_id = "m1";
  family_id = "f1";
  user_id = "u1";
  role = owner;
  created_at = 1;
  updated_at = 1;
}

abbrev invitation : FamilyInvitationRow
invitation = record {
  invitation_id = "i1";
  family_id = "f1";
  created_by_user_id = some "u1";
  intended_role = viewer;
  token_hash = "h1";
  status = pending;
  expires_at = 100;
  created_at = 1;
  accepted_at = none;
  accepted_by_user_id = none;
  revoked_at = none;
  revoked_by_user_id = none;
}

abbrev user : String → UserRow
user id = record {
  user_id = id;
  auth_issuer = "iss";
  auth_subject = id;
  email = none;
  display_name = none;
}

abbrev db : Database
db = record {
  users = user "u1" ∷ user "u2" ∷ [];
  families =
      record {
        family_id = "f1";
        name = "Отбасы";
        created_by_user_id = some "u1";
        created_at = 1;
        updated_at = 1;
      }
      ∷ [];
  memberships = member ∷ [];
  invitations = invitation ∷ [];
  books = [];
}

db-HasUniqueMembers : HasUniqueMembers db.memberships
db-HasUniqueMembers f u = ground arith

abbrev schedule : List Action
schedule =
    accepts "h1" "u2" "m2" 50
    ∷ changes "f1" "u1" viewer 60
    ∷ removes "f1" "u1"
    ∷ deletes "u1" 70
    ∷ []

run-keeps-owner_example :
    (1 ≤ lock_owners "f1" (run schedule db).memberships)
    × HasUniqueMembers (run schedule db).memberships
unfolding lock_owners
run-keeps-owner_example = run-keeps-owner schedule "f1" db db-HasUniqueMembers (omega arith)

last_owner_stays : change_member_role "f1" "u1" viewer 60 db ≡ err sole_owner
unfolding change_member_role lock_family lock_owners find find_where
last_owner_stays = refl

abbrev joined : FamilyMembershipRow
joined = new_membership "m2" "f1" "u2" viewer 50

abbrev after : Database
after = record db {
  memberships = joined ∷ member ∷ [];
  invitations = accepted_row "u2" 50 invitation ∷ [];
}

abbrev acceptance : Acceptance
acceptance = record { membership = joined; already_member = false }

accepts_invitation : accept_invitation "h1" "u2" "m2" 50 db ≡ ok (after, acceptance)
unfolding accept_invitation lock_family find find_where Where.modify_where
accepts_invitation = refl

accept_invitation-Accepted_example :
    (i : FamilyInvitationRow) × Accepted "h1" "u2" 50 db i after acceptance
accept_invitation-Accepted_example =
    accept_invitation-Accepted "h1" "u2" "m2" 50 db after acceptance accepts_invitation

accept_invitation_once_example :
    accept_invitation "h1" "u3" "m3" 60 after ≡ err invitation_already_accepted
unfolding find_where accepted_row
accept_invitation_once_example =
    accept_invitation_once "h1" "u2" "u3" "m3" 60 after
      (record { row = accepted_row "u2" 50 invitation; stored = refl; is_used = refl; by = refl })
      refl
