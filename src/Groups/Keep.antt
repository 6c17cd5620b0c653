-- ===== src/Groups/Keep.antt =====
-- The active owners of a group under every method.
use ulutekproje.Common.Result.{ok}
use ulutekproje.Common.{
  ℕ, ◌≤◌, ◌≡◌, refl, sym, ap, subst, ◌∙◌, inl, inr, some, true, false, ◌&&◌, List, arith, ◌==◌, All,
  Bool-cases, Option-cases,
}
use ulutekproje.Records.{Database, Group, GroupMember, GroupRole, admin, User, get_group, put_group}
use ulutekproje.Records.Members.{find_active, active_membership}
use ulutekproje.Groups.Owners.{
  IsOwned, owner_weight_le, find_active-eq-some, find_active-change_other,
  owner_count-change_active, owner_count-insert_row, owner_count-drop_row, get_group-All,
  put_group-All,
}
use ulutekproje.Groups.{
  MemberResponse, is_owner, owner_weight, owner_count, change_active, get_member, drop_row,
  insert_row, with_role, with_left_at, with_members, with_archived_at, archive, joining_row,
  enter_member, add_member, remove_member, hands_over, change_role, update_member_role,
}
use ulutekproje.Groups.Returns.{add_member-Added, remove_member-Removed}
use ulutekproje.Groups.Changes.{update_member_role-Reroled, archive-Archived}

pub enter_member-owner_count :
    (now : ℕ) (u : User) (role : GroupRole) (ms ms' : List GroupMember)
    → enter_member now u role ms ≡ ok ms'
    → owner_count ms ≤ owner_count ms'
unfolding enter_member
enter_member-owner_count now u role ms ms' h =
    let row = joining_row now u role in
    elim (Option-cases (get_member u.id ms)) [
      | inl new ↦
          let same : insert_row row ms ≡ ms' = cc (new, h) in
          rw (sym same) (omega (arith, owner_count-insert_row row ms))
      | inr (existing, found) ↦ elim (Option-cases existing.left_at) [
        | inl active ↦ absurd (cc (found, active, h))
        | inr (t, left) ↦
            let same : insert_row row (drop_row u.id ms) ≡ ms' = cc (found, left, h) in
            let light : owner_weight existing ≡ 0 = ground (arith, left) in
            rw (sym same) (
              omega (
                arith,
                owner_count-insert_row row (drop_row u.id ms),
                light,
                owner_count-drop_row u.id ms existing found,
              ))
      ]
    ]

-- The change of a role behind the guard on the last owner.
pub change_role-owner_count :
    (g : Group) (actor user : ℕ) (a target : GroupMember) (role : GroupRole)
    → find_active actor g.members ≡ some a
    → find_active user g.members ≡ some target
    → (is_owner target.role && owner_count g.members == 1) ≡ false
    → 1 ≤ owner_count g.members
    → 1 ≤ owner_count (change_role actor target role g)
unfolding change_role active_membership
change_role-owner_count g actor user a target role fa ft guard owned =
    let (ida, active) = find_active-eq-some actor g.members a fa in
    let (idt, present) = find_active-eq-some user g.members target ft in
    let promoted = change_active target.user_id (with_role role) g.members in
    let f : find_active target.user_id g.members ≡ some target =
      ap (λ k. find_active k g.members) idt ∙ ft in
    let up = owner_count-change_active target.user_id (with_role role) g.members target f in
    elim (Bool-cases
      (hands_over role (find_active actor g.members) target (owner_count g.members))) [
        | inl over ↦
            let over' : hands_over role (some a) target (owner_count g.members) ≡ true =
              subst (λ o. hands_over role o target (owner_count g.members) ≡ true) fa over in
            let apart : (actor == target.user_id) ≡ false = ground (arith, ida, over') in
            let seen : find_active actor promoted ≡ some a =
              find_active-change_other actor target.user_id (with_role role) g.members (λ m. refl)
                apart
              ∙ fa in
            let down = owner_count-change_active actor (with_role admin) promoted a seen in
            rw over (ground (arith, up, down, owner_weight_le a, present, over', guard))
        | inr stays ↦ rw stays (ground (arith, up, guard, owned))
      ]

-- The groups of a database after one of them has changed.
changed-IsOwned :
    (db : Database) (gid : ℕ) (g g' : Group)
    → All IsOwned db.groups
    → get_group gid db.groups ≡ some g
    → (IsOwned g → IsOwned g')
    → All IsOwned (put_group g' db.groups)
changed-IsOwned db gid g g' owned found step =
    put_group-All IsOwned g' db.groups (step (get_group-All IsOwned gid db.groups g found owned))
      owned

pub add_member-IsOwned :
    (now : ℕ) (db : Database) (gid actor user : ℕ) (role : GroupRole) (r : MemberResponse)
    (db' : Database)
    → All IsOwned db.groups
    → add_member now db gid actor user role ≡ ok (r, db')
    → All IsOwned db'.groups
add_member-IsOwned now db gid actor user role r db' owned h =
    let a = add_member-Added now db gid actor user role r db' h in
    subst (λ (d : Database). All IsOwned d.groups) a.result
      (changed-IsOwned db gid a.group (with_members a.group a.members) owned a.found λ o. elim o [
        | inl archived ↦ inl archived
        | inr one ↦ inr (
            omega (
              arith,
              one,
              enter_member-owner_count now a.joined role a.group.members a.members a.entered,
            ))
      ])

pub remove_member-IsOwned :
    (now : ℕ) (db : Database) (gid actor user : ℕ) (db' : Database)
    → All IsOwned db.groups
    → remove_member now db gid actor user ≡ ok db'
    → All IsOwned db'.groups
remove_member-IsOwned now db gid actor user db' owned h =
    let a = remove_member-Removed now db gid actor user db' h in
    let ms = change_active user (with_left_at now) (a.group).members in
    let kept =
      owner_count-change_active user (with_left_at now) (a.group).members a.target a.present in
    let guarded = a.guarded in
    let light = owner_weight_le a.target in
    subst (λ (d : Database). All IsOwned d.groups) a.result
      (changed-IsOwned db gid a.group (with_members a.group ms) owned a.found λ o. elim o [
        | inl archived ↦ inl archived
        | inr one ↦ inr (ground (arith, one, kept, guarded, light))
      ])

pub update_member_role-IsOwned :
    (db : Database) (gid actor user : ℕ) (role : GroupRole) (r : MemberResponse) (db' : Database)
    → All IsOwned db.groups
    → update_member_role db gid actor user role ≡ ok (r, db')
    → All IsOwned db'.groups
update_member_role-IsOwned db gid actor user role r db' owned h =
    let a = update_member_role-Reroled db gid actor user role r db' h in
    let g = a.group in
    let target = a.target in
    let found = a.found in
    let active = a.active in
    let present = a.present in
    elim a.change [
      | inl same ↦ subst (λ (d : Database). All IsOwned d.groups) same owned
      | inr (_, guarded, result) ↦
          subst (λ (d : Database). All IsOwned d.groups) result
            (changed-IsOwned db gid g (with_members g (change_role actor target role g)) owned found
              λ o. elim o [
                | inl archived ↦ inl archived
                | inr one ↦ inr (
                    change_role-owner_count g actor user a.actor_row target role active present
                      guarded one)
              ])
    ]

pub archive-IsOwned :
    (now : ℕ) (db : Database) (gid actor : ℕ) (db' : Database)
    → All IsOwned db.groups
    → archive now db gid actor ≡ ok db'
    → All IsOwned db'.groups
archive-IsOwned now db gid actor db' owned h =
    let a = archive-Archived now db gid actor db' h in
    elim a.change [
      | inl (_, same) ↦ subst (λ (d : Database). All IsOwned d.groups) same owned
      | inr (_, s, summarized, settled, result) ↦
          subst (λ (d : Database). All IsOwned d.groups) result
            (changed-IsOwned db gid a.group (with_archived_at now a.group) owned a.found
              λ o. inl refl)
    ]
