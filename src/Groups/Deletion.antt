-- ===== src/Groups/Deletion.antt =====
-- What becomes of the groups of a user who is deleted: `prepare_for_user_deletion` of
-- backend/app/repositories/groups.py, which the deletion of an account calls, and then the foreign
-- keys of backend/app/models/group.py on the user's row.
use ulutekproje.Common.{
  ℕ, Option, none, some, Bool, not, ◌&&◌, ◌||◌, List, [], ◌∷◌, map, ◌==◌, ltb, is_none,
  if◌then◌else◌,
}
use ulutekproje.Records.{Database, Group, GroupMember, GroupRole, owner, admin, member, User}
use ulutekproje.Records.Members.{find_active}
use ulutekproje.Groups.{
  is_owner, change_active, with_role, drop_row, with_members, with_archived_at,
}

abbrev pub role_order : GroupRole → ℕ
role_order admin = 0
role_order member = 1
role_order owner = 2

-- `candidates`
unfoldable pub candidates : ℕ → List GroupMember → List GroupMember
candidates user_id [] = []
candidates user_id (m ∷ ms) =
    if not (m.user_id == user_id) && is_none m.left_at
    then m ∷ candidates user_id ms
    else candidates user_id ms

-- The key of `min`: the role, the instant of joining, the id.
abbrev pub precedes : GroupMember → GroupMember → Bool
precedes a b =
    ltb (role_order a.role) (role_order b.role)
    || (role_order a.role == role_order b.role
        && (ltb a.joined_at b.joined_at || (a.joined_at == b.joined_at && ltb a.user_id b.user_id)))

-- `min`, which keeps the first of equal items.
unfoldable pub least : GroupMember → List GroupMember → GroupMember
least m [] = m
least m (k ∷ ks) = least (if precedes k m then k else m) ks

abbrev pub successor : List GroupMember → Option GroupMember
successor [] = none
successor (m ∷ ms) = some (least m ms)

abbrev pub promote : ℕ → Group → Option GroupMember → Group
promote archived_at g none = with_archived_at archived_at g
promote archived_at g (some s) =
    with_members g (change_active s.user_id (with_role owner) g.members)

-- The turn of the loop for an affected group.
abbrev pub hand_on : ℕ → ℕ → Group → GroupMember → Group
hand_on user_id archived_at g deleting_membership =
    if is_owner deleting_membership.role
    then promote archived_at g (successor (candidates user_id g.members))
    else g

-- The membership for which a group is affected.
abbrev pub deleting_membership : ℕ → Group → Option GroupMember
deleting_membership user_id g =
    if is_none g.archived_at then find_active user_id g.members else none

abbrev pub prepared : ℕ → ℕ → Group → Option GroupMember → Group
prepared user_id archived_at g none = g
prepared user_id archived_at g (some m) = hand_on user_id archived_at g m

unfoldable pub affected_ids : ℕ → List Group → List ℕ
affected_ids user_id [] = []
affected_ids user_id (g ∷ gs) =
    if is_none (deleting_membership user_id g)
    then affected_ids user_id gs
    else g.id ∷ affected_ids user_id gs

unfoldable pub prepare_for_user_deletion : ℕ → ℕ → List Group → List ℕ × List Group
unfolding affected_ids
prepare_for_user_deletion user_id archived_at gs = (
  affected_ids user_id gs,
  map (λ g. prepared user_id archived_at g (deleting_membership user_id g)) gs,
)

-- `ON DELETE SET NULL`
abbrev pub set_null : ℕ → Option ℕ → Option ℕ
set_null user_id none = none
set_null user_id (some u) = if u == user_id then none else some u

-- `ON DELETE CASCADE` on a membership, whose primary key is the group with the user.
abbrev pub without_user : ℕ → Group → Group
without_user user_id g = record g {
  created_by = set_null user_id g.created_by;
  members = drop_row user_id g.members;
}

unfoldable pub remove_user : ℕ → List User → List User
remove_user user_id [] = []
remove_user user_id (u ∷ us) = if u.id == user_id then us else u ∷ remove_user user_id us

-- The groups in the deletion of an account, from the call to the commit.
unfoldable pub delete_user : ℕ → ℕ → Database → List ℕ × Database
unfolding prepare_for_user_deletion remove_user
delete_user user_id archived_at db =
    let prepared_groups = prepare_for_user_deletion user_id archived_at db.groups in
    (
      prepared_groups.0,
      record db {
        users = remove_user user_id db.users;
        groups = map (without_user user_id) prepared_groups.1;
      },
    )
