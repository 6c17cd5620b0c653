-- ===== src/Groups/Role.antt =====
-- Changing roles: how the ownership of a group moves, and who may let whom in.
use ulutekproje.Common.Result.{ok}
use ulutekproje.Common.{ℕ, ◌≡◌, refl, ap, ◌∙◌, some, true, false, List, arith, ◌==◌}
use ulutekproje.Records.{
  Database, Group, GroupMember, GroupRole, owner, admin, member, get_group, put_group,
}
use ulutekproje.Records.Members.{find_active, active_membership}
use ulutekproje.Groups.Owners.{
  find_active-eq-some, find_active-change_other, find_active-change_same, owner_count-change_active,
}
use ulutekproje.Groups.{
  MemberResponse, is_owner, same_role, owner_count, change_active, with_role, with_members,
  with_groups, member_response, get_authorized_group, hands_over, change_role, update_member_role,
}

new_owner : (role : GroupRole) → is_owner role ≡ false → same_role role owner ≡ false
new_owner owner h = cc
new_owner admin h = refl
new_owner member h = refl

module _ (g : Group) (actor user : ℕ) (a target : GroupMember)
    (active : find_active actor g.members ≡ some a) (by_owner : is_owner a.role ≡ true)
    (present : find_active user g.members ≡ some target) (plain : is_owner target.role ≡ false)
    (apart : (actor == user) ≡ false) (sole : owner_count g.members ≡ 1) where
  abbrev handed : List GroupMember
  handed = change_active actor (with_role admin) (change_active user (with_role owner) g.members)

  user-eq : target.user_id ≡ user
  user-eq = (find_active-eq-some user g.members target present).0

  actor-eq : a.user_id ≡ actor
  actor-eq = (find_active-eq-some actor g.members a active).0

  still : find_active actor (change_active user (with_role owner) g.members) ≡ some a
  still = find_active-change_other actor user (with_role owner) g.members (λ m. refl) apart ∙ active

  owner_count-handed : owner_count handed ≡ 1
  owner_count-handed =
      let up = owner_count-change_active user (with_role owner) g.members target present in
      let down =
        owner_count-change_active actor (with_role admin)
          (change_active user (with_role owner) g.members) a still in
      let (_, here) = find_active-eq-some user g.members target present in
      let (_, there) = find_active-eq-some actor g.members a active in
      ground (arith, up, down, here, there, by_owner, plain, sole)

  actor-handed : find_active actor handed ≡ some (with_role admin a)
  actor-handed = find_active-change_same actor admin _ a still

  user-handed : find_active user handed ≡ some (with_role owner target)
  user-handed =
      find_active-change_other user actor (with_role admin) _ (λ m. refl) (ground (arith, apart))
      ∙ find_active-change_same user owner g.members target present

  change_role-handed : change_role actor target owner g ≡ handed
  unfolding change_role active_membership
  change_role-handed =
      rw (active, over)
        (ap
          (λ k. change_active actor (with_role admin) (change_active k (with_role owner) g.members))
          user-eq)
    where
      over : hands_over owner (some a) target (owner_count g.members) ≡ true
      over = ground (arith, apart, sole, user-eq, actor-eq)

-- When the only owner of a group makes another active member its owner, the ownership moves: the
-- call returns, the member is the owner, the actor an administrator, and nobody else is an owner.
pub update_member_role_hands_over :
    (db : Database) (gid actor user : ℕ) (g : Group) (a target : GroupMember)
    → get_group gid db.groups ≡ some g
    → find_active actor g.members ≡ some a
    → is_owner a.role ≡ true
    → find_active user g.members ≡ some target
    → is_owner target.role ≡ false
    → (actor == user) ≡ false
    → owner_count g.members ≡ 1
    → (r : MemberResponse) × (ms : List GroupMember) × (update_member_role db gid actor user owner
        ≡ ok (r, with_groups db (put_group (with_members g ms) db.groups)))
      × (owner_count ms ≡ 1)
      × (find_active user ms ≡ some (with_role owner target))
      × (find_active actor ms ≡ some (with_role admin a))
unfolding update_member_role get_authorized_group active_membership
update_member_role_hands_over db gid actor user g a target found active by_owner present plain apart
      sole =
    let r = member_response g.id (with_role owner target) in
    let ms = handed g actor user a target active by_owner present plain apart sole in
    (
      r,
      ms,
      rw (found, active, by_owner, present, new_owner target.role plain, plain)
          (ap (λ ms. ok (r, with_groups db (put_group (with_members g ms) db.groups)))
            (change_role-handed g actor user a target active by_owner present plain apart sole)),
      owner_count-handed g actor user a target active by_owner present plain apart sole,
      user-handed g actor user a target active by_owner present plain apart sole,
      actor-handed g actor user a target active by_owner present plain apart sole,
    )
