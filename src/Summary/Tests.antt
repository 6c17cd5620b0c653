-- ===== src/Summary/Tests.antt =====
-- A group of three: user 1 has paid 900 for all, and user 2 has paid back 100.
use ulutekproje.Common.Int.{ℤ, pos, ◌+ℤ◌, ◌-ℤ◌}
use ulutekproje.Common.Dict.{value, add_default}
use ulutekproje.Common.Result.{ok, err}
use ulutekproje.Common.{
  contains, ◌||◌, ℕ, ◌≡◌, refl, none, some, false, [], ◌∷◌, arith, All, ◌==◌, if◌then◌else◌,
}
use ulutekproje.Records.{
  User, Group, GroupMember, owner, member, GroupExpense, equal, Settlement, Database, list_expenses,
  list_settlements, get_group,
}
use ulutekproje.Shares.{shares_total}
use ulutekproje.Summary.Net.{group_net, IsSplit, IsPayable}
use ulutekproje.Summary.Correct.{IsSummary, get_for_group-IsSummary}
use ulutekproje.Summary.Aggregate.{get_group_net_balances}
use ulutekproje.Summary.Activity.{
  IsStatus, group_status, get_groups_with_activity, has_rows, get_groups_with_activity-eq,
  get_groups_with_activity-IsStatus,
}
use ulutekproje.Summary.Aggregate.Agree.{get_group_net_balances-eq-group_net}
use ulutekproje.Summary.{DebtSummary, get_for_group, group_not_found}

abbrev ali : User
ali = record { id = 1; email = "ali@example.com"; display_name = some "Ali" }

abbrev row : ℕ → GroupMember
row u = record {
  user_id = u;
  role = if u == 1 then owner else member;
  joined_at = 5;
  left_at = none;
  user = some ali;
}

abbrev flat : Group
flat = record {
  id = 10;
  name = "Ev";
  description = none;
  currency = 84 ∷ 82 ∷ 89 ∷ [];
  is_direct = false;
  created_by = some 1;
  updated_at = 5;
  archived_at = none;
  members = row 1 ∷ row 2 ∷ row 3 ∷ [];
}

abbrev dinner : GroupExpense
dinner = record {
  id = 20;
  group_id = 10;
  receipt_id = none;
  payer_user_id = 1;
  created_by_id = 1;
  title = "Yemek";
  note = none;
  expense_date = 6;
  total_amount_in_minor = pos 900;
  currency = 84 ∷ 82 ∷ 89 ∷ [];
  split_type = equal;
  shares = (1, pos 300) ∷ (2, pos 300) ∷ (3, pos 300) ∷ [];
  idempotency_key = none;
  idempotency_request_hash = none;
  created_at = 6;
  deleted_at = none;
}

abbrev paid_back : Settlement
paid_back = record {
  id = 30;
  group_id = 10;
  from_user_id = 2;
  to_user_id = 1;
  amount_in_minor = pos 100;
  currency = 84 ∷ 82 ∷ 89 ∷ [];
  settled_at = 7;
  note = none;
  created_at = 7;
}

abbrev db : Database
db = record {
  users = ali ∷ [];
  groups = flat ∷ [];
  expenses = dinner ∷ [];
  settlements = paid_back ∷ [];
  activities = [];
}

-- User 1 is still owed 200 by user 2 and 300 by user 3.
abbrev totals_of_two : ℤ
totals_of_two = value 10 (get_group_net_balances 2 (10 ∷ []) db)

totals_of_two-eq : totals_of_two ≡ pos 0 -ℤ pos 200
unfolding get_group_net_balances value add_default ◌+ℤ◌ ◌-ℤ◌
totals_of_two-eq = refl

get_for_group-nobody : get_for_group 8 db 11 none ≡ err group_not_found
unfolding get_for_group get_group
get_for_group-nobody = refl

dinner_split : pos 300 +ℤ (pos 300 +ℤ (pos 300 +ℤ pos 0)) ≡ pos 900
unfolding ◌+ℤ◌
dinner_split = refl

dinner-IsSplit : All IsSplit (list_expenses 10 db.expenses)
unfolding list_expenses shares_total
dinner-IsSplit = (dinner_split, tt)

paid_back-IsPayable : All IsPayable (list_settlements 10 db.settlements)
unfolding list_settlements
paid_back-IsPayable = (((λ e. omega (arith, e)), omega arith), tt)

get_for_group-IsSummary_example :
    (s : DebtSummary) × (get_for_group 8 db 10 none ≡ ok s)
    × IsSummary
        (list_expenses 10 db.expenses)
        (list_settlements 10 db.settlements)
        s.balances
        s.suggested_transfers
unfolding get_group
get_for_group-IsSummary_example =
    get_for_group-IsSummary 8 db 10 none flat refl dinner-IsSplit paid_back-IsPayable

get_group_net_balances-eq-group_net_example :
    value 10 (get_group_net_balances 2 (9 ∷ 10 ∷ []) db)
    ≡ group_net 2 (list_expenses 10 db.expenses) (list_settlements 10 db.settlements)
get_group_net_balances-eq-group_net_example =
    get_group_net_balances-eq-group_net 2 10 (9 ∷ 10 ∷ []) db refl

get_groups_with_activity-eq_example :
    contains 10 (get_groups_with_activity (9 ∷ 10 ∷ []) db)
    ≡ (has_rows (list_settlements 10 db.settlements) || has_rows (list_expenses 10 db.expenses))
get_groups_with_activity-eq_example = get_groups_with_activity-eq 10 (9 ∷ 10 ∷ []) db refl

get_groups_with_activity-IsStatus_example :
    IsStatus (group_net 2 (list_expenses 10 db.expenses) (list_settlements 10 db.settlements)) (
      group_status
        (value 10 (get_group_net_balances 2 (9 ∷ 10 ∷ []) db))
        (contains 10 (get_groups_with_activity (9 ∷ 10 ∷ []) db)))
get_groups_with_activity-IsStatus_example =
    get_groups_with_activity-IsStatus 2 10 (9 ∷ 10 ∷ []) db refl
