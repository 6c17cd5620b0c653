-- ===== src/Groups/Changes.antt =====
-- What `update_member_role` and `archive` have checked and done when they return.
use ulutekproje.Common.Result.{ok, Result-cases}
use ulutekproje.Common.{
  ℕ, ◌≡◌, ◌⊎◌, inl, inr, some, true, false, ◌&&◌, arith, ◌==◌, Bool-cases, Option-cases, is_none,
}
use ulutekproje.Records.{Database, Group, GroupMember, GroupRole, get_group, put_group}
use ulutekproje.Records.Members.{find_active, active_membership}
use ulutekproje.Summary.{get_for_group, DebtSummary}
use ulutekproje.Groups.{
  MemberResponse, is_owner, same_role, owner_count, with_members, with_archived_at, with_groups,
  get_authorized_group, archive_open, archive, change_role, update_member_role, any_unsettled,
}
use ulutekproje.Groups.Returns.{get_authorized_group-returns}

-- What a successful `update_member_role` has checked and done: nothing if the role was held.
pub record Reroled (db : Database) (gid actor user : ℕ) (role : GroupRole) (db' : Database)
    : Type 0 where
  pub group : Group
  pub actor_row : GroupMember
  pub target : GroupMember
  pub found : get_group gid db.groups ≡ some group
  pub active : find_active actor group.members ≡ some actor_row
  pub by_owner : is_owner actor_row.role ≡ true
  pub present : find_active user group.members ≡ some target
  pub change :
      (db ≡ db')
      ⊎ ((same_role target.role role ≡ false)
          × ((is_owner target.role && owner_count group.members == 1) ≡ false)
          × (with_groups db
                (put_group (with_members group (change_role actor target role group)) db.groups)
              ≡ db'))

pub update_member_role-Reroled :
    (db : Database) (gid actor user : ℕ) (role : GroupRole) (r : MemberResponse) (db' : Database)
    → update_member_role db gid actor user role ≡ ok (r, db')
    → Reroled db gid actor user role db'
unfolding update_member_role active_membership
update_member_role-Reroled db gid actor user role r db' h =
    elim (Result-cases (get_authorized_group db gid actor true)) [
      | inr (e, raised) ↦ absurd (cc (raised, h))
      | inl (g, authorized) ↦
          let (m, found, active, high) =
            get_authorized_group-returns db gid actor true g authorized in
          elim (Option-cases (find_active user g.members)) [
            | inl missing ↦ absurd (cc (authorized, missing, h))
            | inr (t, present) ↦ record {
              group = g;
              actor_row = m;
              target = t;
              found = found;
              active = active;
              by_owner = ground (arith, high);
              present = present;
              change = elim (Bool-cases (same_role t.role role)) [
                | inl held ↦ inl (cc (authorized, present, held, h))
                | inr new ↦ elim (Bool-cases (is_owner t.role && owner_count g.members == 1)) [
                  | inl sole ↦ absurd (cc (authorized, present, new, sole, h))
                  | inr guarded ↦ inr (new, guarded, cc (authorized, present, new, guarded, h))
                ]
              ];
            }
          ]
    ]

-- What a successful `archive` has checked and done: nothing for an archived group.
pub record Archived (now : ℕ) (db : Database) (gid actor : ℕ) (db' : Database) : Type 0 where
  pub group : Group
  pub actor_row : GroupMember
  pub found : get_group gid db.groups ≡ some group
  pub active : find_active actor group.members ≡ some actor_row
  pub by_owner : is_owner actor_row.role ≡ true
  pub change :
      ((is_none group.archived_at ≡ false) × (db ≡ db'))
      ⊎ ((is_none group.archived_at ≡ true)
          × (debt_summary : DebtSummary) × (get_for_group now db group.id (some group)
              ≡ ok debt_summary)
          × (any_unsettled debt_summary.balances ≡ false)
          × (with_groups db (put_group (with_archived_at now group) db.groups) ≡ db'))

pub archive-Archived :
    (now : ℕ) (db : Database) (gid actor : ℕ) (db' : Database)
    → archive now db gid actor ≡ ok db'
    → Archived now db gid actor db'
unfolding archive archive_open
archive-Archived now db gid actor db' h =
    elim (Result-cases (get_authorized_group db gid actor true)) [
      | inr (e, raised) ↦ absurd (cc (raised, h))
      | inl (g, authorized) ↦
          let (m, found, active, high) =
            get_authorized_group-returns db gid actor true g authorized in
          record {
            group = g;
            actor_row = m;
            found = found;
            active = active;
            by_owner = ground (arith, high);
            change = elim (Bool-cases (is_none g.archived_at)) [
              | inr closed ↦ inl (closed, cc (authorized, closed, h))
              | inl in_use ↦ elim (Result-cases (get_for_group now db g.id (some g))) [
                | inr (e, raised) ↦ absurd (cc (authorized, in_use, raised, h))
                | inl (s, summarized) ↦ elim (Bool-cases (any_unsettled s.balances)) [
                  | inl due ↦ absurd (cc (authorized, in_use, summarized, due, h))
                  | inr settled ↦ inr (
                    in_use,
                    s,
                    summarized,
                    settled,
                    cc (authorized, in_use, summarized, settled, h),
                  )
                ]
              ]
            ];
          }
    ]
