-- ===== src/Groups/Rows.antt =====
-- Reading and changing the rows of a group.
use ulutekproje.Common.{
  ℕ, ◌+◌, Option, none, some, Bool, true, false, ◌&&◌, List, [], ◌∷◌, ◌==◌, leb, is_none,
  if◌then◌else◌,
}
use ulutekproje.Records.{
  Database, Group, GroupMember, GroupRole, owner, admin, member, User, member_joined, get_user,
}
use ulutekproje.Records.Members.{or_default, actor_name}

abbrev pub is_owner : GroupRole → Bool
is_owner owner = true
is_owner admin = false
is_owner member = false

abbrev pub is_admin : GroupRole → Bool
is_admin owner = false
is_admin admin = true
is_admin member = false

-- `a is b`
abbrev pub same_role : GroupRole → GroupRole → Bool
same_role owner b = is_owner b
same_role admin b = is_admin b
same_role member owner = false
same_role member admin = false
same_role member member = true

-- `role_rank` of `remove_member`
abbrev pub role_rank : GroupRole → ℕ
role_rank owner = 3
role_rank admin = 2
role_rank member = 1

-- One for an active owner.
abbrev pub owner_weight : GroupMember → ℕ
owner_weight m = if is_owner m.role && is_none m.left_at then 1 else 0

-- `len(active_owners)`, and the sum over the active members in `remove_member`.
unfoldable pub owner_count : List GroupMember → ℕ
owner_count [] = 0
owner_count (m ∷ ms) = owner_weight m + owner_count ms

-- A change of the object that `_active_membership` returns.
unfoldable pub change_active : ℕ → (GroupMember → GroupMember) → List GroupMember → List GroupMember
change_active user_id change [] = []
change_active user_id change (m ∷ ms) =
    if m.user_id == user_id && is_none m.left_at
    then change m ∷ ms
    else m ∷ change_active user_id change ms

abbrev pub with_role : GroupRole → GroupMember → GroupMember
with_role role m = record {
  user_id = m.user_id;
  role = role;
  joined_at = m.joined_at;
  left_at = m.left_at;
  user = m.user;
}

abbrev pub with_left_at : ℕ → GroupMember → GroupMember
with_left_at now m = record {
  user_id = m.user_id;
  role = m.role;
  joined_at = m.joined_at;
  left_at = some now;
  user = m.user;
}

-- `session.get(GroupMember, (group_id, user_id))`: the row of the primary key, active or not.
unfoldable pub get_member : ℕ → List GroupMember → Option GroupMember
get_member user_id [] = none
get_member user_id (m ∷ ms) = if m.user_id == user_id then some m else get_member user_id ms

unfoldable pub drop_row : ℕ → List GroupMember → List GroupMember
drop_row user_id [] = []
drop_row user_id (m ∷ ms) = if m.user_id == user_id then ms else m ∷ drop_row user_id ms

-- The relationship `members` is ordered by `joined_at`.
unfoldable pub insert_row : GroupMember → List GroupMember → List GroupMember
insert_row m [] = m ∷ []
insert_row m (k ∷ ks) = if leb k.joined_at m.joined_at then k ∷ insert_row m ks else m ∷ k ∷ ks

abbrev pub with_members : Group → List GroupMember → Group
with_members g members = record {
  id = g.id;
  name = g.name;
  description = g.description;
  currency = g.currency;
  is_direct = g.is_direct;
  created_by = g.created_by;
  updated_at = g.updated_at;
  archived_at = g.archived_at;
  members = members;
}

abbrev pub with_archived_at : ℕ → Group → Group
with_archived_at now g = record {
  id = g.id;
  name = g.name;
  description = g.description;
  currency = g.currency;
  is_direct = g.is_direct;
  created_by = g.created_by;
  updated_at = now;
  archived_at = some now;
  members = g.members;
}

abbrev pub with_groups : Database → List Group → Database
with_groups db groups = record {
  users = db.users;
  groups = groups;
  expenses = db.expenses;
  settlements = db.settlements;
  activities = db.activities;
}

-- The entry that `add_member` puts into the activity log.
abbrev pub log_joined : Database → ℕ → ℕ → User → Database
log_joined db group_id actor_user_id u = record {
  users = db.users;
  groups = db.groups;
  expenses = db.expenses;
  settlements = db.settlements;
  activities =
      record {
        group_id = group_id;
        actor_user_id = actor_user_id;
        payload =
            member_joined (actor_name (get_user actor_user_id db.users)) u.id
              (or_default u.display_name u.email);
      }
      ∷ db.activities;
}
