-- ===== src/Expenses/Itemized.antt =====
-- `create_itemized` of backend/app/services/group_expense_service.py: an expense whose shares come
-- from the lines of a receipt, assigned to members, and from extra amounts such as a tip.
use ulutekproje.Common.Int.{ℤ, pos, ltb_ℤ, leb_ℤ, eqb_ℤ, ◌+ℤ◌}
use ulutekproje.Common.Result.{Result, ok, err, ◌>>=◌, ◌>>◌, raise_if}
use ulutekproje.Common.Dict.{Dict, value, add_default}
use ulutekproje.Common.{
  ℕ, String, Option, none, some, Bool, true, false, not, ◌&&◌, ◌||◌, List, [], ◌∷◌, ◌++◌, ◌==◌, leb,
  contains, is_none, if◌then◌else◌,
}
use ulutekproje.Records.{Group, GroupMember, GroupExpense, itemized, get_group}
use ulutekproje.Records.Members.{active_ids}
use ulutekproje.Settlements.Text.{strip, upper, same_text}
use ulutekproje.Shares.{Share, is_empty, shares_total, sort_shares}
use ulutekproje.Groups.{get_member}
use ulutekproje.Expenses.Rows.{
  CloudReceipt, CloudReceiptLineItem, ExpenseLineItemAssignment, ExpenseExtraAmount,
  ExpenseExtraAmountType, tax, tip, service_fee, other, Ledger, get_receipt, violates,
  insert_expense, record_expense,
}

-- The codes of an `ItemizedExpenseValidationError`, one with the ids that it carries, and the
-- `IntegrityError` of the flush.
pub data ItemizedError : Type 0 where
  group_not_found group_forbidden invalid_request currency_mismatch : ItemizedError
  receipt_not_synced invalid_split_total member_not_found integrity_error : ItemizedError
  unassigned_line_items : (receipt_line_item_ids : List ℕ) → ItemizedError

pub record LineItemAssignmentInput : Type 0 where
  pub receipt_line_item_id : ℕ
  pub user_id : ℕ
  pub amount_in_minor : ℤ
  pub quantity_share_milli : Option ℤ

-- A share of it is a user with an amount.
pub record ExtraAmountInput : Type 0 where
  pub type : ExpenseExtraAmountType
  pub label : Option (List ℕ)
  pub amount_in_minor : ℤ
  pub shares : List Share

-- The keyword arguments of `create_itemized`.
pub record ItemizedRequest : Type 0 where
  pub group_id : ℕ
  pub receipt_id : ℕ
  pub actor_user_id : ℕ
  pub payer_user_id : ℕ
  pub title : String
  pub expense_date : ℕ
  pub total_amount_in_minor : ℤ
  pub currency : List ℕ
  pub assignments : List LineItemAssignmentInput
  pub extra_amounts : List ExtraAmountInput
  pub note : Option String

-- The set of keys, and the three `defaultdict`s, that the loops fill.
pub record Tally : Type 0 where
  pub assignment_keys : List (ℕ × ℕ)
  pub amounts_by_line_item : Dict
  pub quantities_by_line_item : Dict
  pub amounts_by_user : Dict

abbrev pub empty_tally : Tally
empty_tally = record {
  assignment_keys = [];
  amounts_by_line_item = [];
  quantities_by_line_item = [];
  amounts_by_user = [];
}

unfoldable pub has_pair : ℕ → ℕ → List (ℕ × ℕ) → Bool
has_pair line user [] = false
has_pair line user ((l, u) ∷ ks) = (line == l && user == u) || has_pair line user ks

-- `quantity is not None and quantity <= 0`
abbrev pub not_positive : Option ℤ → Bool
not_positive none = false
not_positive (some q) = leb_ℤ q (pos 0)

abbrev pub add_quantity : ℕ → Option ℤ → Dict → Dict
add_quantity line none d = d
add_quantity line (some q) d = add_default line q d

-- The loop over the assignments.
unfoldable pub take_assignments : Tally → List LineItemAssignmentInput → Result ItemizedError Tally
unfolding has_pair add_default
take_assignments t [] = ok t
take_assignments t (a ∷ as_left) = do
  raise_if (has_pair a.receipt_line_item_id a.user_id t.assignment_keys) invalid_request
  raise_if (ltb_ℤ a.amount_in_minor (pos 0)) invalid_request
  raise_if (not_positive a.quantity_share_milli) invalid_request
  take_assignments
      (record {
        assignment_keys = (a.receipt_line_item_id, a.user_id) ∷ t.assignment_keys;
        amounts_by_line_item =
            add_default a.receipt_line_item_id a.amount_in_minor t.amounts_by_line_item;
        quantities_by_line_item =
            add_quantity a.receipt_line_item_id a.quantity_share_milli t.quantities_by_line_item;
        amounts_by_user = add_default a.user_id a.amount_in_minor t.amounts_by_user;
      })
      as_left

-- The loop over the shares of an extra amount: `seen` is `seen_extra_user_ids`, `total` is
-- `extra_share_total`; the dict is `amounts_by_user`.
unfoldable pub take_extra_shares : List ℕ → ℤ → Dict → List Share → Result ItemizedError (ℤ × Dict)
unfolding add_default
take_extra_shares seen total by_user [] = ok (total, by_user)
take_extra_shares seen total by_user ((u, v) ∷ ss) = do
  raise_if (contains u seen) invalid_request
  raise_if (ltb_ℤ v (pos 0)) invalid_request
  take_extra_shares (u ∷ seen) (total +ℤ v) (add_default u v by_user) ss

-- `label.strip()`, where an empty label is none.
unfoldable pub normalized_label : Option (List ℕ) → Option (List ℕ)
unfolding strip
normalized_label none = none
normalized_label (some label) = elim (strip label) [ [] ↦ none | c ∷ cs ↦ some (c ∷ cs) ]

abbrev pub is_other : ExpenseExtraAmountType → Bool
is_other tax = false
is_other tip = false
is_other service_fee = false
is_other other = true

-- The loop over the extra amounts, which returns `amounts_by_user`.
unfoldable pub take_extra_amounts : Dict → List ExtraAmountInput → Result ItemizedError Dict
unfolding take_extra_shares normalized_label
take_extra_amounts by_user [] = ok by_user
take_extra_amounts by_user (x ∷ xs) = do
  raise_if (leb_ℤ x.amount_in_minor (pos 0)) invalid_request
  raise_if (is_other x.type && is_none (normalized_label x.label)) invalid_request
  (total, by_user') ← take_extra_shares [] (pos 0) by_user x.shares
  raise_if (not (eqb_ℤ total x.amount_in_minor)) invalid_split_total
  take_extra_amounts by_user' xs

unfoldable pub line_ids : List CloudReceiptLineItem → List ℕ
line_ids [] = []
line_ids (l ∷ ls) = l.id ∷ line_ids ls

unfoldable pub assigned_ids : List LineItemAssignmentInput → List ℕ
assigned_ids [] = []
assigned_ids (a ∷ as_left) = a.receipt_line_item_id ∷ assigned_ids as_left

unfoldable pub assigned_users : List LineItemAssignmentInput → List ℕ
assigned_users [] = []
assigned_users (a ∷ as_left) = a.user_id ∷ assigned_users as_left

unfoldable pub share_users : List Share → List ℕ
share_users [] = []
share_users ((u, v) ∷ ss) = u ∷ share_users ss

-- `extra_participant_user_ids`
unfoldable pub extra_users : List ExtraAmountInput → List ℕ
unfolding share_users
extra_users [] = []
extra_users (x ∷ xs) = share_users x.shares ++ extra_users xs

-- Whether every id of the first list is in the second (`issubset`, and an empty set difference).
unfoldable pub is_subset : List ℕ → List ℕ → Bool
is_subset [] ks = true
is_subset (i ∷ is) ks = contains i ks && is_subset is ks

-- Whether an expense has a line of the receipt already.
unfoldable pub any_assigned : List ℕ → List ExpenseLineItemAssignment → Bool
any_assigned ids [] = false
any_assigned ids (a ∷ as_left) = contains a.receipt_line_item_id ids || any_assigned ids as_left

unfoldable pub insert_id : ℕ → List ℕ → List ℕ
insert_id i [] = i ∷ []
insert_id i (j ∷ js) = if leb i j then i ∷ j ∷ js else j ∷ insert_id i js

-- `sorted(set(line_items_by_id) - provided_line_item_ids, key=str)`
unfoldable pub unassigned : List ℕ → List ℕ → List ℕ
unfolding insert_id
unassigned [] provided = []
unassigned (i ∷ is) provided =
    if contains i provided then unassigned is provided else insert_id i (unassigned is provided)

abbrev pub exceeds : ℤ → Option ℤ → Bool
exceeds assigned none = false
exceeds assigned (some quantity) = ltb_ℤ (pos 0) assigned && ltb_ℤ quantity assigned

-- The loop over the lines of the receipt.
unfoldable pub check_lines : Tally → List CloudReceiptLineItem → Result ItemizedError Unit
unfolding value
check_lines t [] = ok tt
check_lines t (l ∷ ls) = do
  raise_if (not (eqb_ℤ (value l.id t.amounts_by_line_item) l.price_in_minor)) invalid_split_total
  raise_if (exceeds (value l.id t.quantities_by_line_item) l.quantity) invalid_request
  check_lines t ls

-- What follows the queries: the shares of the lines and the extra amounts.
unfoldable pub itemize :
    List CloudReceiptLineItem → List ℕ → ItemizedRequest → Result ItemizedError (List Share)
unfolding take_assignments take_extra_amounts assigned_users extra_users is_subset unassigned
    check_lines line_ids assigned_ids shares_total sort_shares
itemize lines active r = do
  t ← take_assignments empty_tally r.assignments
  by_user ← take_extra_amounts t.amounts_by_user r.extra_amounts
  raise_if
      (not (
        is_subset (r.payer_user_id ∷ assigned_users r.assignments ++ extra_users r.extra_amounts)
          active))
      member_not_found
  raise_if (not (is_empty (unassigned (line_ids lines) (assigned_ids r.assignments))))
      (unassigned_line_items (unassigned (line_ids lines) (assigned_ids r.assignments)))
  check_lines t lines
  raise_if (not (eqb_ℤ (shares_total by_user) r.total_amount_in_minor)) invalid_split_total
  ok (sort_shares by_user)

abbrev pub is_inactive : Option GroupMember → Bool
is_inactive none = true
is_inactive (some m) = not (is_none m.left_at)

-- `if x is None: raise e`
abbrev pub expect : {A : Type 0} → ItemizedError → Option A → Result ItemizedError A
expect e none = err e
expect e (some a) = ok a

-- The guards of `create_itemized` up to the loops.
unfoldable pub check_itemized :
    Ledger → ItemizedRequest → Result ItemizedError (Group × CloudReceipt)
unfolding line_ids assigned_ids is_subset any_assigned get_member get_receipt
check_itemized l r = do
  g ← expect group_not_found (get_group r.group_id l.tables.groups)
  raise_if (not (is_none g.archived_at)) group_forbidden
  raise_if (leb_ℤ r.total_amount_in_minor (pos 0)) invalid_request
  raise_if (not (same_text (upper r.currency) (upper g.currency))) currency_mismatch
  raise_if (is_inactive (get_member r.actor_user_id g.members)) group_forbidden
  receipt ← expect receipt_not_synced (get_receipt r.receipt_id r.actor_user_id l.receipts)
  raise_if (not (same_text (upper receipt.currency) (upper g.currency))) currency_mismatch
  raise_if (is_empty receipt.line_items) invalid_request
  raise_if (not (is_subset (assigned_ids r.assignments) (line_ids receipt.line_items)))
      receipt_not_synced
  raise_if (any_assigned (assigned_ids r.assignments) l.line_item_assignments) invalid_request
  ok (g, receipt)

abbrev pub itemized_expense : ℕ → ℕ → ItemizedRequest → List Share → GroupExpense
itemized_expense new_id now r shares = record {
  id = new_id;
  group_id = r.group_id;
  receipt_id = some r.receipt_id;
  payer_user_id = r.payer_user_id;
  created_by_id = r.actor_user_id;
  title = r.title;
  note = r.note;
  expense_date = r.expense_date;
  total_amount_in_minor = r.total_amount_in_minor;
  currency = upper (upper r.currency);
  split_type = itemized;
  shares = shares;
  idempotency_key = none;
  idempotency_request_hash = none;
  created_at = now;
  deleted_at = none;
}

unfoldable pub assignment_rows : ℕ → List LineItemAssignmentInput → List ExpenseLineItemAssignment
assignment_rows new_id [] = []
assignment_rows new_id (a ∷ as_left) =
    record {
      expense_id = new_id;
      receipt_line_item_id = a.receipt_line_item_id;
      user_id = a.user_id;
      amount_in_minor = a.amount_in_minor;
      quantity_share_milli = a.quantity_share_milli;
    }
    ∷ assignment_rows new_id as_left

unfoldable pub extra_rows : ℕ → List ExtraAmountInput → List ExpenseExtraAmount
unfolding normalized_label
extra_rows new_id [] = []
extra_rows new_id (x ∷ xs) =
    record {
      expense_id = new_id;
      type = x.type;
      label = normalized_label x.label;
      amount_in_minor = x.amount_in_minor;
      shares = x.shares;
    }
    ∷ extra_rows new_id xs

-- The flushed expense with its assignments and extra amounts, and the entry of the log.
unfoldable pub record_itemized : ℕ → Ledger → ItemizedRequest → GroupExpense → Ledger
unfolding assignment_rows extra_rows insert_expense
record_itemized new_id l r e = record {
  tables = record_expense l.tables r.actor_user_id e;
  receipts = l.receipts;
  line_item_assignments = assignment_rows new_id r.assignments ++ l.line_item_assignments;
  extra_amounts = extra_rows new_id r.extra_amounts ++ l.extra_amounts;
}

unfoldable pub create_itemized :
    ℕ → ℕ → Ledger → ItemizedRequest → Result ItemizedError (GroupExpense × Ledger)
unfolding check_itemized itemize violates record_itemized
create_itemized new_id now l r = do
  (g, receipt) ← check_itemized l r
  shares ← itemize receipt.line_items (active_ids g.members) r
  let e = itemized_expense new_id now r shares
  raise_if (violates e l.tables.expenses) integrity_error
  ok (e, record_itemized new_id l r e)
