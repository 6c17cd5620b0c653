-- ===== src/Groups/Create.antt =====
-- The methods of backend/app/services/group_service.py that make a group or change its texts:
-- `create`, `update` and `get_or_create_direct_group`, with `GroupRepository.create` and
-- `get_direct_group`; and the response of a group.
use ulutekproje.Common.Result.{Result, ok, ◌>>=◌, ◌>>◌, raise_if}
use ulutekproje.Common.{
  ℕ, zero, suc, String, Option, none, some, Bool, true, false, not, ◌&&◌, List, [], ◌∷◌, ◌++◌, ◌==◌,
  is_none, if◌then◌else◌,
}
use ulutekproje.Records.{Database, Group, GroupMember, owner, member, User, get_user, put_group}
use ulutekproje.Records.Members.{find_active}
use ulutekproje.Settlements.Text.{upper}
use ulutekproje.Groups.{
  GroupError, cannot_friend_self, user_not_found, require, get_authorized_group, enter_member,
  with_groups, with_members,
}

-- The row of a group's creator.
abbrev pub owner_row : ℕ → ℕ → Option User → GroupMember
owner_row now user_id u = record {
  user_id = user_id;
  role = owner;
  joined_at = now;
  left_at = none;
  user = u;
}

-- `GroupRepository.create`
abbrev pub new_group : ℕ → ℕ → Option User → ℕ → String → Option String → List ℕ → Bool → Group
new_group new_id now creator created_by name description currency is_direct = record {
  id = new_id;
  name = name;
  description = description;
  currency = upper currency;
  is_direct = is_direct;
  created_by = some created_by;
  updated_at = now;
  archived_at = none;
  members = owner_row now created_by creator ∷ [];
}

-- The new row is the last in the order of `list_for_user`.
unfoldable pub create_group :
    ℕ → ℕ → Database → ℕ → String → Option String → List ℕ → Group × Database
create_group new_id now db actor_user_id name description currency =
    let g =
      new_group new_id now (get_user actor_user_id db.users) actor_user_id name description currency
        false in
    (g, with_groups db (db.groups ++ (g ∷ [])))

-- `changes`: a key that is absent is `none`; a description may be set to none.
pub record GroupChanges : Type 0 where
  pub name : Option String
  pub description : Option (Option String)

abbrev pub changed_name : Option String → String → String
changed_name none old = old
changed_name (some new) old = new

abbrev pub changed_description : Option (Option String) → Option String → Option String
changed_description none old = old
changed_description (some new) old = new

abbrev pub changed_group : ℕ → GroupChanges → Group → Group
changed_group now changes g = record g {
  name = changed_name changes.name g.name;
  description = changed_description changes.description g.description;
  updated_at = now;
}

unfoldable pub update_group :
    ℕ → Database → ℕ → ℕ → GroupChanges → Result GroupError (Group × Database)
unfolding get_authorized_group
update_group now db group_id actor_user_id changes = do
  g ← get_authorized_group db group_id actor_user_id true
  ok (
    changed_group now changes g,
    with_groups db (put_group (changed_group now changes g) db.groups),
  )

abbrev pub is_member : ℕ → Group → Bool
is_member user_id g = not (is_none (find_active user_id g.members))

-- The rows of the query of `get_direct_group`, which finds archived groups, too.
unfoldable pub direct_groups : ℕ → ℕ → List Group → List Group
unfolding find_active
direct_groups user_a_id user_b_id [] = []
direct_groups user_a_id user_b_id (g ∷ gs) =
    let rest = direct_groups user_a_id user_b_id gs in
    if g.is_direct && (is_member user_a_id g && is_member user_b_id g) then g ∷ rest else rest

-- `scalar` without an order: the database returns the row at `choice`, or the last one.
unfoldable pub any_row : ℕ → List Group → Option Group
any_row choice [] = none
any_row zero (g ∷ gs) = some g
any_row (suc choice) (g ∷ []) = some g
any_row (suc choice) (g ∷ h ∷ gs) = any_row choice (h ∷ gs)

unfoldable pub get_direct_group : ℕ → ℕ → ℕ → List Group → Option Group
unfolding direct_groups any_row
get_direct_group choice user_a_id user_b_id gs =
    any_row choice (direct_groups user_a_id user_b_id gs)

-- The currency "TRY".
abbrev pub lira : List ℕ
lira = 84 ∷ 82 ∷ 89 ∷ []

unfoldable pub create_direct : ℕ → ℕ → Database → ℕ → User → Result GroupError (Group × Database)
unfolding enter_member
create_direct new_id now db user_a_id b = do
  let g = new_group new_id now (get_user user_a_id db.users) user_a_id "" none lira true
  members ← enter_member now b member g.members
  ok (with_members g members, with_groups db (db.groups ++ (with_members g members ∷ [])))

unfoldable pub get_or_create_direct_group :
    ℕ → ℕ → ℕ → Database → ℕ → ℕ → Result GroupError (Group × Database)
unfolding get_direct_group create_direct
get_or_create_direct_group new_id now choice db user_a_id user_b_id = do
  raise_if (user_a_id == user_b_id) cannot_friend_self
  b ← require user_not_found (get_user user_b_id db.users)
  elim (get_direct_group choice user_a_id user_b_id db.groups) [
    | some existing ↦ ok (existing, db)
    | none ↦ create_direct new_id now db user_a_id b
  ]
