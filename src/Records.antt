-- ===== src/Records.antt =====
-- The rows of backend/app/models/{user,group,group_expense,settlement}.py, and the queries of
-- backend/app/repositories/{groups,group_expenses,settlements}.py that only read.
-- UUIDs and instants are numbers; an instant is in UTC, as `_as_utc` makes it. A table is a list of
-- rows in the order in which its list query returns them. A currency is the list of its code points.
mod Defs
pub mod Members
pub use Defs.*
use ulutekproje.Common.{
  ℕ, Option, none, some, Bool, ◌&&◌, ◌||◌, List, [], ◌∷◌, ◌==◌, leb, ltb, is_none, if◌then◌else◌,
}

-- `get_by_id` without members: the row with this id.
unfoldable pub get_group : ℕ → List Group → Option Group
get_group group_id [] = none
get_group group_id (g ∷ gs) = if g.id == group_id then some g else get_group group_id gs

-- `GroupExpenseRepository.list_for_group`: the expenses of a group that are not deleted.
unfoldable pub list_expenses : ℕ → List GroupExpense → List GroupExpense
list_expenses group_id [] = []
list_expenses group_id (e ∷ es) =
    if e.group_id == group_id && is_none e.deleted_at
    then e ∷ list_expenses group_id es
    else list_expenses group_id es

-- `SettlementRepository.list_for_group`
unfoldable pub list_settlements : ℕ → List Settlement → List Settlement
list_settlements group_id [] = []
list_settlements group_id (s ∷ ss) =
    if s.group_id == group_id
    then s ∷ list_settlements group_id ss
    else list_settlements group_id ss

-- `session.get(User, user_id)`
unfoldable pub get_user : ℕ → List User → Option User
get_user user_id [] = none
get_user user_id (u ∷ us) = if u.id == user_id then some u else get_user user_id us

-- A flushed change of a group: the row with its id is replaced.
unfoldable pub put_group : Group → List Group → List Group
put_group g [] = []
put_group g (h ∷ hs) = if h.id == g.id then g ∷ hs else h ∷ put_group g hs

-- A flushed settlement, in the order of `list_for_group`: the latest first, then the greatest id.
unfoldable pub insert_settlement : Settlement → List Settlement → List Settlement
insert_settlement s [] = s ∷ []
insert_settlement s (t ∷ ts) =
    if ltb t.settled_at s.settled_at || (t.settled_at == s.settled_at && leb t.id s.id)
    then s ∷ t ∷ ts
    else t ∷ insert_settlement s ts
