-- ===== src/Families/Ownership.antt =====
-- The owner invariants of storage/identity.py under every schedule of its transactions.
use mura_project.Prelude.{
  ℕ, ◌≤◌, ◌≡◌, refl, String, false, ◌&&◌, ◌||◌, not, Option, none, some, List, [], ◌∷◌, leb, any,
  all, holds_text, Bool-cases, Option-cases, inl, inr, settled, is_some, arith,
}
use mura_project.Prelude.Table.{find, find_where}
use mura_project.Families.Rows.{
  FamilyRole, is_owner, is_accepted, is_revoked, is_expired, FamilyMembershipRow,
  FamilyInvitationRow, Database, is_member, family_key, user_key,
}
use mura_project.Families.Members.{
  lock_owners, lock_family, new_membership, create_family, change_member_role, remove_member,
  is_blocked, is_lockable, without_account, delete_account,
}
use mura_project.Families.Invitations.{
  has_hash, create_invitation, revoke_invitation, is_invitation, accept_invitation, accept_found,
  again, join, expire_pending,
}
use mura_project.Families.Schedules.{
  Action, creates, changes, removes, deletes, invites, revokes, accepts, lists, settled_with, step,
  run,
}
use mura_project.Families.Owners.{
  HasUniqueMembers, Keeps, Keeps-same, Keeps-added, Keeps-changed, Keeps-removed, Keeps-left,
}

absent_member :
    (f u : String) (rows : List FamilyMembershipRow)
    → find_where (is_member f u) rows ≡ none
    → any (is_member f u) rows ≡ false
unfolding find_where
absent_member f u [] h = refl
absent_member f u (m ∷ rows) h = ground (arith, absent_member f u rows)

create_family-Keeps :
    (family_id membership_id name user_id : String) (now : ℕ) (db : Database)
    → Keeps db.memberships
        (settled db (create_family family_id membership_id name user_id now db)).memberships
unfolding create_family new_membership
create_family-Keeps family_id membership_id name user_id now db =
    elim (Bool-cases (is_some (find family_key family_id db.families))) [
      | inl e ↦ rw e (Keeps-same db.memberships)
      | inr e ↦ elim (Bool-cases (any (is_member family_id user_id) db.memberships)) [
        | inl k ↦ rw (e, k) (Keeps-same db.memberships)
        | inr k ↦ rw (e, k) (Keeps-added _ db.memberships k)
      ]
    ]

change_member_role-Keeps :
    (family_id user_id : String) (role : FamilyRole) (now : ℕ) (db : Database)
    → Keeps db.memberships
        (settled db (change_member_role family_id user_id role now db)).memberships
unfolding change_member_role
change_member_role-Keeps family_id user_id role now db =
    elim (Bool-cases (lock_family family_id db)) [
      | inr e ↦ rw e (Keeps-same db.memberships)
      | inl e ↦ elim (Option-cases (find_where (is_member family_id user_id) db.memberships)) [
        | inl f ↦ rw (e, f) (Keeps-same db.memberships)
        | inr (m, f) ↦
            elim (Bool-cases (
              is_owner m.role
              && (not (is_owner role) && leb (lock_owners family_id db.memberships) 1))) [
                | inl g ↦ rw (e, f, g) (Keeps-same db.memberships)
                | inr g ↦
                    rw (e, f, g) (Keeps-changed family_id user_id role now db.memberships m f g)
              ]
      ]
    ]

remove_member-Keeps :
    (family_id user_id : String) (db : Database)
    → Keeps db.memberships (settled db (remove_member family_id user_id db)).memberships
unfolding remove_member
remove_member-Keeps family_id user_id db = elim (Bool-cases (lock_family family_id db)) [
  | inr e ↦ rw e (Keeps-same db.memberships)
  | inl e ↦ elim (Option-cases (find_where (is_member family_id user_id) db.memberships)) [
    | inl f ↦ rw (e, f) (Keeps-same db.memberships)
    | inr (m, f) ↦
        elim (Bool-cases (is_owner m.role && leb (lock_owners family_id db.memberships) 1)) [
          | inl g ↦ rw (e, f, g) (Keeps-same db.memberships)
          | inr g ↦ rw (e, f, g) (Keeps-removed family_id user_id db.memberships m f g)
        ]
  ]
]

delete_account-Keeps :
    (user_id : String) (now : ℕ) (db : Database)
    → Keeps db.memberships (settled_with db (delete_account user_id now db)).memberships
unfolding delete_account without_account
delete_account-Keeps user_id now db = elim (Option-cases (find user_key user_id db.users)) [
  | inl e ↦ rw e (Keeps-same db.memberships)
  | inr (u, e) ↦ elim (Bool-cases (all (is_lockable user_id db) db.memberships)) [
    | inr f ↦ rw (e, f) (Keeps-same db.memberships)
    | inl f ↦ elim (Bool-cases (any (is_blocked user_id db.memberships) db.memberships)) [
      | inl g ↦ rw (e, f, g) (Keeps-same db.memberships)
      | inr g ↦ rw (e, f, g) (Keeps-left user_id db.memberships g)
    ]
  ]
]

create_invitation-Keeps :
    (id family_id creator : String) (role : FamilyRole) (hash : String) (ttl now : ℕ)
    (db : Database)
    → Keeps db.memberships
        (settled db (create_invitation id family_id creator role hash ttl now db)).memberships
unfolding create_invitation
create_invitation-Keeps id family_id creator role hash ttl now db =
    elim (Bool-cases (is_owner role)) [
      | inl e ↦ rw e (Keeps-same db.memberships)
      | inr e ↦ elim (Bool-cases (lock_family family_id db)) [
        | inr f ↦ rw (e, f) (Keeps-same db.memberships)
        | inl f ↦ elim (Bool-cases (any (has_hash hash) db.invitations)) [
          | inl g ↦ rw (e, f, g) (Keeps-same db.memberships)
          | inr g ↦ rw (e, f, g) (Keeps-same db.memberships)
        ]
      ]
    ]

revoke_invitation-Keeps :
    (family_id invitation_id revoker : String) (now : ℕ) (db : Database)
    → Keeps db.memberships
        (settled db (revoke_invitation family_id invitation_id revoker now db)).memberships
unfolding revoke_invitation
revoke_invitation-Keeps family_id invitation_id revoker now db =
    elim (Bool-cases (lock_family family_id db)) [
      | inr e ↦ rw e (Keeps-same db.memberships)
      | inl e ↦
          elim (Option-cases (find_where (is_invitation family_id invitation_id) db.invitations)) [
            | inl f ↦ rw (e, f) (Keeps-same db.memberships)
            | inr (i, f) ↦ elim (Bool-cases (is_accepted i.status)) [
              | inl g ↦ rw (e, f, g) (Keeps-same db.memberships)
              | inr g ↦ elim (Bool-cases (is_revoked i.status)) [
                | inl k ↦ rw (e, f, g, k) (Keeps-same db.memberships)
                | inr k ↦ rw (e, f, g, k) (Keeps-same db.memberships)
              ]
            ]
          ]
    ]

join-Keeps :
    (hash user_id membership_id : String) (now : ℕ) (i : FamilyInvitationRow) (db : Database)
    (existing : Option FamilyMembershipRow)
    → find_where (is_member i.family_id user_id) db.memberships ≡ existing
    → Keeps db.memberships
        (settled_with db (accept_found hash user_id membership_id now i db existing)).memberships
unfolding new_membership
join-Keeps hash user_id membership_id now i db existing h =
    elim (Bool-cases (is_revoked i.status)) [
      | inl a ↦ rw a (Keeps-same db.memberships)
      | inr a ↦ elim (Bool-cases (is_expired i.status || leb i.expires_at now)) [
        | inl b ↦ rw (a, b) (Keeps-same db.memberships)
        | inr b ↦ elim (Bool-cases (is_accepted i.status)) [
          | inl c ↦ elim (Bool-cases (holds_text i.accepted_by_user_id user_id)) [
            | inl d ↦ rw (a, b, c, d) (repeated existing)
            | inr d ↦ rw (a, b, c, d) (Keeps-same db.memberships)
          ]
          | inr c ↦ elim (Bool-cases (lock_family i.family_id db)) [
            | inl d ↦ rw (a, b, c, d) (joins existing h)
            | inr d ↦ rw (a, b, c, d) (Keeps-same db.memberships)
          ]
        ]
      ]
    ]
  where
    repeated :
        (o : Option FamilyMembershipRow)
        → Keeps db.memberships (settled_with db (again db o)).memberships
    repeated none = Keeps-same db.memberships
    repeated (some m) = Keeps-same db.memberships

    joins :
        (o : Option FamilyMembershipRow)
        → find_where (is_member i.family_id user_id) db.memberships ≡ o
        → Keeps db.memberships (join hash user_id membership_id now i db o).0.memberships
    joins none e = Keeps-added _ db.memberships (absent_member i.family_id user_id db.memberships e)
    joins (some m) e = Keeps-same db.memberships

accept_invitation-Keeps :
    (hash user_id membership_id : String) (now : ℕ) (db : Database)
    → Keeps db.memberships
        (settled_with db (accept_invitation hash user_id membership_id now db)).memberships
unfolding accept_invitation
accept_invitation-Keeps hash user_id membership_id now db =
    elim (Option-cases (find_where (has_hash hash) db.invitations)) [
      | inl e ↦ rw e (Keeps-same db.memberships)
      | inr (i, e) ↦ rw e (join-Keeps hash user_id membership_id now i db _ refl)
    ]

step-Keeps : (a : Action) (db : Database) → Keeps db.memberships (step a db).memberships
unfolding step expire_pending
step-Keeps (creates family_id membership_id name user_id now) db =
    create_family-Keeps family_id membership_id name user_id now db
step-Keeps (changes family_id user_id role now) db =
    change_member_role-Keeps family_id user_id role now db
step-Keeps (removes family_id user_id) db = remove_member-Keeps family_id user_id db
step-Keeps (deletes user_id now) db = delete_account-Keeps user_id now db
step-Keeps (invites id family_id creator role hash ttl now) db =
    create_invitation-Keeps id family_id creator role hash ttl now db
step-Keeps (revokes family_id invitation_id revoker now) db =
    revoke_invitation-Keeps family_id invitation_id revoker now db
step-Keeps (accepts hash user_id membership_id now) db =
    accept_invitation-Keeps hash user_id membership_id now db
step-Keeps (lists family_id now) db = Keeps-same db.memberships

-- A family that has an owner has one after every schedule of family creations, role changes, removals of
-- members, deletions of accounts and invitations, if no user had two memberships in one family before;
-- and no user has afterwards.
pub run-keeps-owner :
    (schedule : List Action) (family_id : String) (db : Database)
    → HasUniqueMembers db.memberships
    → 1 ≤ lock_owners family_id db.memberships
    → (1 ≤ lock_owners family_id (run schedule db).memberships)
      × HasUniqueMembers (run schedule db).memberships
unfolding run
run-keeps-owner [] family_id db u h = (h, u)
run-keeps-owner (a ∷ rest) family_id db u h =
    let k : Keeps db.memberships (step a db).memberships = step-Keeps a db in
    run-keeps-owner rest family_id (step a db) (k.unique u) (k.owners family_id u h)
