-- ===== src/Expenses/Tests.antt =====
-- A group of three, with a receipt of two lines.
use ulutekproje.Common.Int.{ℤ, pos, ◌+ℤ◌}
use ulutekproje.Common.Result.{ok, err}
use ulutekproje.Common.Dict.{value, add_default}
use ulutekproje.Common.{ℕ, ◌≡◌, refl, none, some, false, List, [], ◌∷◌}
use ulutekproje.Records.{
  Group, GroupMember, GroupRole, owner, member, GroupExpense, equal, get_group, list_expenses,
  list_settlements,
}
use ulutekproje.Records.Members.{active_ids}
use ulutekproje.Settlements.Text.{strip, upper, same_text}
use ulutekproje.Groups.{get_member}
use ulutekproje.Shares.{
  calculate_equal_shares, deal, shares_total, sort_shares, insert_share, idempotency_key_reused,
}
use ulutekproje.Summary.{DebtSummary, get_for_group}
use ulutekproje.Summary.Net.{share_in, group_net, IsSplit}
use ulutekproje.Summary.Correct.{IsSummary}
use ulutekproje.Expenses.{
  refused, CloudReceipt, CloudReceiptLineItem, Ledger, CreateExpense, tip, new_expense,
  record_expense, create_fast_split, create_new, find_existing, check_fast_split, calculate_shares,
  participant_ids, all_active, violates, bad_shares, key_taken, insert_expense, get_receipt,
  get_by_idempotency_key, is_financially_locked,
}
use ulutekproje.Expenses.Itemized.{
  LineItemAssignmentInput, ItemizedRequest, create_itemized, check_itemized, itemize,
  itemized_expense, record_itemized, take_assignments, take_extra_amounts, take_extra_shares,
  has_pair, line_ids, assigned_ids, assigned_users, extra_users, share_users, is_subset,
  any_assigned, unassigned, check_lines, normalized_label,
}
use ulutekproje.Expenses.Totals.{prices_total, extras_total, assigned_to, extra_to}
use ulutekproje.Expenses.Effect.{expense_effect, create_fast_split_adds, create_fast_split_retry}
use ulutekproje.Expenses.Receipt.{create_itemized_reconciles}
use ulutekproje.Expenses.Serve.{splits, serve_all, serve, serve_all_summarizes}

abbrev row : ℕ → GroupRole → GroupMember
row u role = record { user_id = u; role = role; joined_at = u; left_at = none; user = none }

abbrev lira : List ℕ
lira = 84 ∷ 82 ∷ 89 ∷ []

abbrev flat : Group
flat = record {
  id = 10;
  name = "Ev";
  description = none;
  currency = lira;
  is_direct = false;
  created_by = some 1;
  updated_at = 5;
  archived_at = none;
  members = row 1 owner ∷ row 2 member ∷ row 3 member ∷ [];
}

abbrev line : ℕ → ℤ → CloudReceiptLineItem
line id price = record { id = id; price_in_minor = price; quantity = some (pos 1000) }

abbrev bill : CloudReceipt
bill = record {
  id = 40;
  user_id = 1;
  currency = lira;
  deleted_at = none;
  line_items = line 41 (pos 500) ∷ line 42 (pos 301) ∷ [];
}

abbrev start : Ledger
start = record {
  tables = record {
    users = [];
    groups = flat ∷ [];
    expenses = [];
    settlements = [];
    activities = [];
  };
  receipts = bill ∷ [];
  line_item_assignments = [];
  extra_amounts = [];
}

abbrev dinner : CreateExpense
dinner = record {
  group_id = 10;
  actor_user_id = 1;
  payer_user_id = 2;
  receipt_id = none;
  title = "Yemek";
  expense_date = 6;
  total_amount_in_minor = pos 100;
  currency = 116 ∷ 114 ∷ 121 ∷ [];
  split_type = equal;
  participants = (1, none) ∷ (2, none) ∷ (3, none) ∷ [];
  note = none;
  idempotency_key = some 77;
  idempotency_request_hash = some 5;
}

abbrev dinner_row : GroupExpense
dinner_row = new_expense 20 8 dinner ((1, pos 34) ∷ (2, pos 33) ∷ (3, pos 33) ∷ [])

abbrev after : Ledger
after = record start { tables = record_expense start.tables 1 dinner_row }

create_dinner : create_fast_split 20 8 start dinner ≡ ok ((dinner_row, false), after)
unfolding create_fast_split create_new find_existing check_fast_split calculate_shares
    participant_ids all_active violates bad_shares key_taken insert_expense get_group
    get_by_idempotency_key active_ids upper same_text calculate_equal_shares deal
create_dinner = refl

create_fast_split_adds_example :
    IsSplit dinner_row
    × (dinner_row.total_amount_in_minor ≡ pos 100)
    × (dinner_row.payer_user_id ≡ 2)
    × (after.tables.groups ≡ start.tables.groups)
    × (after.tables.settlements ≡ start.tables.settlements)
    × ((u gid : ℕ)
        → group_net u
            (list_expenses gid after.tables.expenses)
            (list_settlements gid after.tables.settlements)
          ≡ group_net u
              (list_expenses gid start.tables.expenses)
              (list_settlements gid start.tables.settlements)
            +ℤ expense_effect u gid dinner_row)
create_fast_split_adds_example =
    create_fast_split_adds 20 8 start dinner dinner_row after create_dinner

create_fast_split_retry_example :
    create_fast_split 21 9 after (record dinner { idempotency_request_hash = some 6 })
    ≡ err (refused idempotency_key_reused)
create_fast_split_retry_example =
    create_fast_split_retry 20 8 start dinner dinner_row after 77 21 9
      (record dinner { idempotency_request_hash = some 6 }) create_dinner refl refl refl refl

abbrev assigned : ℕ → ℕ → ℤ → LineItemAssignmentInput
assigned line user amount = record {
  receipt_line_item_id = line;
  user_id = user;
  amount_in_minor = amount;
  quantity_share_milli = none;
}

abbrev lunch : ItemizedRequest
lunch = record {
  group_id = 10;
  receipt_id = 40;
  actor_user_id = 1;
  payer_user_id = 1;
  title = "Fatura";
  expense_date = 7;
  total_amount_in_minor = pos 851;
  currency = lira;
  assignments = assigned 41 3 (pos 500) ∷ assigned 42 1 (pos 101) ∷ assigned 42 2 (pos 200) ∷ [];
  extra_amounts =
      record {
        type = tip;
        label = none;
        amount_in_minor = pos 50;
        shares = (1, pos 25) ∷ (3, pos 25) ∷ [];
      }
      ∷ [];
  note = none;
}

abbrev lunch_row : GroupExpense
lunch_row = itemized_expense 30 9 lunch ((1, pos 126) ∷ (2, pos 200) ∷ (3, pos 525) ∷ [])

create_lunch :
    create_itemized 30 9 start lunch ≡ ok (lunch_row, record_itemized 30 start lunch lunch_row)
unfolding create_itemized check_itemized itemize take_assignments take_extra_amounts
    take_extra_shares has_pair line_ids assigned_ids assigned_users extra_users share_users
    is_subset any_assigned unassigned check_lines normalized_label get_group get_member get_receipt
    upper same_text strip active_ids value add_default ◌+ℤ◌ shares_total sort_shares insert_share
    violates bad_shares key_taken
create_lunch = refl

create_itemized_reconciles_example :
    (receipt : CloudReceipt) × (get_receipt 40 1 start.receipts ≡ some receipt)
    × (lunch_row.total_amount_in_minor
        ≡ prices_total receipt.line_items +ℤ extras_total lunch.extra_amounts)
    × IsSplit lunch_row
    × ((u : ℕ)
        → share_in u lunch_row.shares
          ≡ assigned_to u lunch.assignments +ℤ extra_to u lunch.extra_amounts)
    × ((u gid : ℕ)
        → group_net u
            (list_expenses gid (record_itemized 30 start lunch lunch_row).tables.expenses)
            (list_settlements gid (record_itemized 30 start lunch lunch_row).tables.settlements)
          ≡ group_net u
              (list_expenses gid start.tables.expenses)
              (list_settlements gid start.tables.settlements)
            +ℤ expense_effect u gid lunch_row)
unfolding line_ids
create_itemized_reconciles_example =
    create_itemized_reconciles 30 9 start lunch lunch_row (record_itemized 30 start lunch lunch_row)
      ((refl, (refl, tt)), tt) create_lunch

locked : is_financially_locked dinner_row [] ≡ false
unfolding is_financially_locked
locked = refl

serve_all_summarizes_example :
    (s : DebtSummary) × (get_for_group 12 (serve_all start (splits 20 8 dinner ∷ [])).tables 10 none
      ≡ ok s)
    × IsSummary
        (list_expenses 10 (serve_all start (splits 20 8 dinner ∷ [])).tables.expenses)
        (list_settlements 10 (serve_all start (splits 20 8 dinner ∷ [])).tables.settlements)
        s.balances
        s.suggested_transfers
unfolding serve_all serve get_group line_ids create_fast_split create_new find_existing
    check_fast_split calculate_shares participant_ids all_active violates bad_shares key_taken
    insert_expense get_by_idempotency_key active_ids upper same_text calculate_equal_shares deal
serve_all_summarizes_example =
    serve_all_summarizes start (splits 20 8 dinner ∷ []) 12 10 flat
      (record { split = tt; payable = tt; lines = ((refl, (refl, tt)), tt) }) refl
