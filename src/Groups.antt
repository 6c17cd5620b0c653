-- ===== src/Groups.antt =====
-- backend/app/services/group_service.py: who is in a group and in which role, with the methods of
-- backend/app/repositories/groups.py that it calls. Every method returns the changed database; a
-- raised exception rolls the transaction back. `now` is the instant of the call.
mod Rows
pub mod Owners
pub mod Create
pub mod Returns
pub mod Changes
pub mod Keep
pub mod Grow
pub mod Direct
pub mod Deletion
pub mod Successor
pub mod Requests
pub mod Correct
pub mod Entered
pub mod Role
mod Tests
unfoldable pub use Rows.*
use ulutekproje.Common.Int.{ℤ, pos, eqb_ℤ}
use ulutekproje.Common.Result.{Result, ok, err, ◌>>=◌, ◌>>◌, raise_if}
use ulutekproje.Common.{
  ℕ, suc, String, Option, none, some, Bool, true, false, not, ◌&&◌, ◌||◌, List, [], ◌∷◌, ◌==◌, leb,
  is_none, if◌then◌else◌,
}
use ulutekproje.Debts.{DebtBalance}
use ulutekproje.Records.{
  Database, Group, GroupMember, GroupRole, owner, admin, User, get_group, get_user, put_group,
}
use ulutekproje.Records.Members.{active_membership, display_name}
use ulutekproje.Summary.{SummaryError, get_for_group}

-- The codes of a `GroupServiceError`, and an exception of the debt summary, which passes through.
pub data GroupError : Type 0 where
  group_not_found group_forbidden user_not_found member_already_exists : GroupError
  member_not_found last_owner_required member_has_unsettled_balance : GroupError
  group_has_unsettled_balances cannot_friend_self : GroupError
  summary : SummaryError → GroupError

abbrev pub lift_summary : {A : Type 0} → Result SummaryError A → Result GroupError A
lift_summary (ok a) = ok a
lift_summary (err e) = err (summary e)

-- `if x is None: raise e`
abbrev pub require : {A : Type 0} → GroupError → Option A → Result GroupError A
require e none = err e
require e (some a) = ok a

-- `_get_authorized_group`
unfoldable pub get_authorized_group : Database → ℕ → ℕ → Bool → Result GroupError Group
get_authorized_group db group_id actor_user_id require_owner = do
  g ← require group_not_found (get_group group_id db.groups)
  membership ← require group_forbidden (active_membership g actor_user_id)
  raise_if (require_owner && not (is_owner membership.role)) group_forbidden
  ok g

-- `_member_response`
pub record MemberResponse : Type 0 where
  pub group_id : ℕ
  pub user_id : ℕ
  pub display_name : String
  pub role : GroupRole
  pub joined_at : ℕ
  pub left_at : Option ℕ

abbrev pub member_response : ℕ → GroupMember → MemberResponse
member_response gid m = record {
  group_id = gid;
  user_id = m.user_id;
  display_name = display_name m;
  role = m.role;
  joined_at = m.joined_at;
  left_at = m.left_at;
}

-- `any(balance.net_amount_in_minor != 0 for balance in debt_summary.balances)`
unfoldable pub any_unsettled : List DebtBalance → Bool
any_unsettled [] = false
any_unsettled (b ∷ bs) = not (eqb_ℤ b.net_amount_in_minor (pos 0)) || any_unsettled bs

-- The part of `archive` behind its test that the group is not archived.
unfoldable pub archive_open : ℕ → Database → Group → Result GroupError Database
unfolding any_unsettled
archive_open now db g = do
  debt_summary ← lift_summary (get_for_group now db g.id (some g))
  raise_if (any_unsettled debt_summary.balances) group_has_unsettled_balances
  ok (with_groups db (put_group (with_archived_at now g) db.groups))

unfoldable pub archive : ℕ → Database → ℕ → ℕ → Result GroupError Database
unfolding get_authorized_group archive_open
archive now db group_id actor_user_id = do
  g ← get_authorized_group db group_id actor_user_id true
  if is_none g.archived_at then archive_open now db g else ok db

-- The row that the repository's `add_member` flushes for a user without an active one: a former
-- member's row is used again, with a new role and date.
abbrev pub joining_row : ℕ → User → GroupRole → GroupMember
joining_row now u role = record {
  user_id = u.id;
  role = role;
  joined_at = now;
  left_at = none;
  user = some u;
}

unfoldable pub enter_member :
    ℕ → User → GroupRole → List GroupMember → Result GroupError (List GroupMember)
unfolding get_member drop_row insert_row
enter_member now u role members = elim (get_member u.id members) [
  | none ↦ ok (insert_row (joining_row now u role) members)
  | some existing ↦ do
    raise_if (is_none existing.left_at) member_already_exists
    ok (insert_row (joining_row now u role) (drop_row u.id members))
]

unfoldable pub add_member :
    ℕ → Database → ℕ → ℕ → ℕ → GroupRole → Result GroupError (MemberResponse × Database)
unfolding get_authorized_group enter_member
add_member now db group_id actor_user_id user_id role = do
  g ← get_authorized_group db group_id actor_user_id false
  actor ← require group_forbidden (active_membership g actor_user_id)
  raise_if (not (is_admin actor.role || is_owner actor.role)) group_forbidden
  raise_if (is_owner role || (is_admin role && not (is_owner actor.role))) group_forbidden
  u ← require user_not_found (get_user user_id db.users)
  members ← enter_member now u role g.members
  ok (
    member_response g.id (joining_row now u role),
    log_joined (with_groups db (put_group (with_members g members) db.groups)) group_id
        actor_user_id u,
  )

-- `next((balance.net_amount_in_minor for balance in debt_summary.balances if ...), 0)`
unfoldable pub balance_of : ℕ → List DebtBalance → ℤ
balance_of user_id [] = pos 0
balance_of user_id (b ∷ bs) =
    if b.user_id == user_id then b.net_amount_in_minor else balance_of user_id bs

-- Whether `remove_member` refuses this actor's removal of somebody else.
abbrev pub outranked : Option GroupMember → GroupMember → Bool
outranked none target = true
outranked (some actor) target = leb (role_rank actor.role) (role_rank target.role)

unfoldable pub remove_member : ℕ → Database → ℕ → ℕ → ℕ → Result GroupError Database
unfolding get_authorized_group owner_count balance_of change_active
remove_member now db group_id actor_user_id user_id = do
  g ← get_authorized_group db group_id actor_user_id false
  target ← require member_not_found (active_membership g user_id)
  raise_if (not (actor_user_id == user_id) && outranked (active_membership g actor_user_id) target)
      group_forbidden
  raise_if (is_owner target.role && owner_count g.members == 1) last_owner_required
  debt_summary ← lift_summary (get_for_group now db g.id (some g))
  raise_if (not (eqb_ℤ (balance_of (suc target.user_id) debt_summary.balances) (pos 0)))
      member_has_unsettled_balance
  ok (
      with_groups db
        (put_group (with_members g (change_active user_id (with_left_at now) g.members)) db.groups))

-- The promotion by a single owner of somebody else makes the actor an administrator.
abbrev pub hands_over : GroupRole → Option GroupMember → GroupMember → ℕ → Bool
hands_over role none target owners = false
hands_over role (some actor) target owners =
    is_owner role && (not (actor.user_id == target.user_id) && owners == 1)

-- The members after `target.role = role` and what follows it.
unfoldable pub change_role : ℕ → GroupMember → GroupRole → Group → List GroupMember
unfolding owner_count change_active
change_role actor_user_id target role g =
    let promoted = change_active target.user_id (with_role role) g.members in
    if hands_over role (active_membership g actor_user_id) target (owner_count g.members)
    then change_active actor_user_id (with_role admin) promoted
    else promoted

unfoldable pub update_member_role :
    Database → ℕ → ℕ → ℕ → GroupRole → Result GroupError (MemberResponse × Database)
unfolding get_authorized_group change_role
update_member_role db group_id actor_user_id user_id role = do
  g ← get_authorized_group db group_id actor_user_id true
  target ← require member_not_found (active_membership g user_id)
  if same_role target.role role then ok (member_response g.id target, db) else do
    raise_if (is_owner target.role && owner_count g.members == 1) last_owner_required
    ok (
      member_response g.id (with_role role target),
      with_groups db
          (put_group (with_members g (change_role actor_user_id target role g)) db.groups),
    )
