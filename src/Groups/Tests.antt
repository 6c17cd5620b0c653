-- ===== src/Groups/Tests.antt =====
-- A group of an owner 1, an administrator 2 and a member 3, without expenses.
use ulutekproje.Common.Int.{pos, ◌+ℤ◌}
use ulutekproje.Common.Result.{ok, err}
use ulutekproje.Common.{ℕ, ◌≡◌, refl, inr, none, some, false, true, List, [], ◌∷◌, arith, All}
use ulutekproje.Records.{
  Database, Group, GroupMember, GroupRole, owner, admin, member, User, get_group, get_user,
  put_group, list_expenses, list_settlements,
}
use ulutekproje.Common.Dict.{value, from_entries, insert, all_zero}
use ulutekproje.Debts.{make_balance, apply_settlements, simplify}
use ulutekproje.Debts.Heap.{heapify}
use ulutekproje.Records.Members.{find_active, active_membership, active_ids}
use ulutekproje.Summary.{get_for_group}
use ulutekproje.Summary.Net.{group_net}
use ulutekproje.Groups.Owners.{IsOwned}
use ulutekproje.Groups.Requests.{
  removes, changes_role, archives, creates, updates, befriends, serve_all,
}
use ulutekproje.Groups.Create.{GroupChanges, direct_groups, get_or_create_direct_group}
use ulutekproje.Groups.Direct.{joins, direct_group_once}
use ulutekproje.Groups.Correct.{serve_all-IsOwned, archive_settled}
use ulutekproje.Groups.Role.{update_member_role_hands_over}
use ulutekproje.Groups.{
  MemberResponse, is_owner, owner_count, with_role, with_members, with_groups, with_archived_at,
  joining_row, remove_member, update_member_role, archive, last_owner_required,
}

abbrev person : ℕ → User
person u = record { id = u; email = "a@example.com"; display_name = some "Ali" }

abbrev row : ℕ → GroupRole → GroupMember
row u role = record {
  user_id = u;
  role = role;
  joined_at = u;
  left_at = none;
  user = some (person u);
}

abbrev flat : Group
flat = record {
  id = 10;
  name = "Ev";
  description = none;
  currency = 84 ∷ 82 ∷ 89 ∷ [];
  is_direct = false;
  created_by = some 1;
  updated_at = 5;
  archived_at = none;
  members = row 1 owner ∷ row 2 admin ∷ row 3 member ∷ [];
}

abbrev db : Database
db = record {
  users = person 1 ∷ person 2 ∷ person 3 ∷ person 4 ∷ [];
  groups = flat ∷ [];
  expenses = [];
  settlements = [];
  activities = [];
}

-- The last owner may not leave.
remove_member-owner : remove_member 9 db 10 1 1 ≡ err last_owner_required
unfolding remove_member get_group find_active active_membership
remove_member-owner = refl

flat-IsOwned : All IsOwned db.groups
unfolding owner_count
flat-IsOwned = (inr (omega arith), tt)

abbrev texts : GroupChanges
texts = record { name = some "Yazlik"; description = some none }

serve_all-IsOwned_example :
    All IsOwned
      (serve_all db (
        creates 11 8 4 "Tatil" none (116 ∷ 114 ∷ 121 ∷ [])
        ∷ befriends 12 8 0 3 4
        ∷ updates 9 11 4 texts
        ∷ changes_role 10 1 2 owner
        ∷ removes 9 10 2 1
        ∷ archives 9 10 2
        ∷ [])).groups
serve_all-IsOwned_example = serve_all-IsOwned db _ flat-IsOwned

direct_group_once_example :
    (g : Group) × (db' : Database) × (get_or_create_direct_group 12 8 0 db 3 4 ≡ ok (g, db'))
    × (joins 3 4 g ≡ true)
    × (get_or_create_direct_group 13 9 1 db' 3 4 ≡ ok (g, db'))
    × (get_or_create_direct_group 13 9 1 db' 4 3 ≡ ok (g, db'))
unfolding get_user direct_groups
direct_group_once_example =
    direct_group_once 12 8 0 13 9 1 db 3 4 (person 3) (person 4) refl refl refl (omega arith)

archive_settled_example :
    ((m : GroupMember) × (find_active 1 flat.members ≡ some m) × (is_owner m.role ≡ true))
    × ((u : ℕ) → group_net u (list_expenses 10 []) (list_settlements 10 []) ≡ pos 0)
unfolding archive get_group find_active list_expenses list_settlements active_membership
    get_for_group active_ids make_balance apply_settlements ◌+ℤ◌ value from_entries insert simplify
    heapify all_zero put_group
archive_settled_example =
    archive_settled 9 db 10 1 flat (with_groups db (with_archived_at 9 flat ∷ [])) refl refl tt tt
      refl

update_member_role_hands_over_example :
    (r : MemberResponse) × (ms : List GroupMember) × (update_member_role db 10 1 2 owner
      ≡ ok (r, with_groups db (put_group (with_members flat ms) db.groups)))
    × (owner_count ms ≡ 1)
    × (find_active 2 ms ≡ some (with_role owner (row 2 admin)))
    × (find_active 1 ms ≡ some (with_role admin (row 1 owner)))
unfolding get_group find_active owner_count
update_member_role_hands_over_example =
    update_member_role_hands_over db 10 1 2 flat (row 1 owner) (row 2 admin) refl refl refl refl
      refl refl refl

abbrev joined : List GroupMember
joined = row 1 owner ∷ row 2 admin ∷ row 3 member ∷ joining_row 9 (person 4) member ∷ []
