-- ===== src/Expenses/Rows.antt =====
-- The tables that the expense service adds to those of the groups, from
-- backend/app/models/{cloud_receipt,group_expense}.py, and the queries of
-- backend/app/repositories/group_expenses.py.
use ulutekproje.Common.Int.{ℤ, pos, max_bigint, ltb_ℤ}
use ulutekproje.Common.{
  ℕ, Option, none, some, Bool, true, false, ◌&&◌, ◌||◌, List, [], ◌∷◌, ◌==◌, leb, ltb, contains,
  is_none, if◌then◌else◌,
}
use ulutekproje.Records.{Database, GroupExpense, Settlement, expense_created, get_user}
use ulutekproje.Records.Members.{actor_name}

-- The quantity in thousandths, as the column keeps three decimals.
pub record CloudReceiptLineItem : Type 0 where
  pub id : ℕ
  pub price_in_minor : ℤ
  pub quantity : Option ℤ

pub record CloudReceipt : Type 0 where
  pub id : ℕ
  pub user_id : ℕ
  pub currency : List ℕ
  pub deleted_at : Option ℕ
  pub line_items : List CloudReceiptLineItem

pub record ExpenseLineItemAssignment : Type 0 where
  pub expense_id : ℕ
  pub receipt_line_item_id : ℕ
  pub user_id : ℕ
  pub amount_in_minor : ℤ
  pub quantity_share_milli : Option ℤ

-- `expense_extra_amounts` with `expense_extra_amount_shares`.
pub data ExpenseExtraAmountType : Type 0 where
  tax tip service_fee other : ExpenseExtraAmountType

pub record ExpenseExtraAmount : Type 0 where
  pub expense_id : ℕ
  pub type : ExpenseExtraAmountType
  pub label : Option (List ℕ)
  pub amount_in_minor : ℤ
  pub shares : List (ℕ × ℤ)

pub record Ledger : Type 0 where
  pub tables : Database
  pub receipts : List CloudReceipt
  pub line_item_assignments : List ExpenseLineItemAssignment
  pub extra_amounts : List ExpenseExtraAmount

-- `a == b` for optional keys and hashes.
abbrev pub same_key : Option ℕ → Option ℕ → Bool
same_key none none = true
same_key none (some k) = false
same_key (some j) none = false
same_key (some j) (some k) = j == k

-- In SQL a comparison with NULL does not hold.
abbrev pub has_key : ℕ → Option ℕ → Bool
has_key k none = false
has_key k (some j) = j == k

unfoldable pub get_by_idempotency_key : ℕ → ℕ → ℕ → List GroupExpense → Option GroupExpense
get_by_idempotency_key group_id created_by_id key [] = none
get_by_idempotency_key group_id created_by_id key (e ∷ es) =
    if e.group_id == group_id
      && e.created_by_id == created_by_id
      && (has_key key e.idempotency_key && is_none e.deleted_at)
    then some e
    else get_by_idempotency_key group_id created_by_id key es

-- `get_by_id` of an expense that is not deleted.
unfoldable pub get_expense : ℕ → List GroupExpense → Option GroupExpense
get_expense expense_id [] = none
get_expense expense_id (e ∷ es) =
    if e.id == expense_id && is_none e.deleted_at then some e else get_expense expense_id es

-- A flushed expense, in the order of `list_for_group`: the latest date first, then the greatest id.
unfoldable pub insert_expense : GroupExpense → List GroupExpense → List GroupExpense
insert_expense e [] = e ∷ []
insert_expense e (k ∷ ks) =
    if ltb k.expense_date e.expense_date || (k.expense_date == e.expense_date && leb k.id e.id)
    then e ∷ k ∷ ks
    else k ∷ insert_expense e ks

-- A change of the object that `get_expense` returns.
unfoldable pub change_expense :
    ℕ → (GroupExpense → GroupExpense) → List GroupExpense → List GroupExpense
change_expense expense_id change [] = []
change_expense expense_id change (e ∷ es) =
    if e.id == expense_id && is_none e.deleted_at
    then change e ∷ es
    else e ∷ change_expense expense_id change es

-- `GroupExpenseRepository.soft_delete`; `updated_at` is not among the fields that are read.
abbrev pub soft_delete : ℕ → GroupExpense → GroupExpense
soft_delete deleted_at e = record e { deleted_at = some deleted_at }

unfoldable pub get_receipt : ℕ → ℕ → List CloudReceipt → Option CloudReceipt
get_receipt receipt_id user_id [] = none
get_receipt receipt_id user_id (r ∷ rs) =
    if r.id == receipt_id && r.user_id == user_id && is_none r.deleted_at
    then some r
    else get_receipt receipt_id user_id rs

-- Whether a row has the unique key of a new one; rows without a key never do.
unfoldable pub key_taken : GroupExpense → List GroupExpense → Bool
key_taken new [] = false
key_taken new (e ∷ es) =
    (elim new.idempotency_key [
      | none ↦ false
      | some k ↦
          e.group_id == new.group_id
          && e.created_by_id == new.created_by_id
          && has_key k e.idempotency_key
    ])
    || key_taken new es

abbrev pub users : List (ℕ × ℤ) → List ℕ
users [] = []
users ((u, v) ∷ ss) = u ∷ users ss

-- The primary key, the check and the BIGINT column of `expense_shares`.
unfoldable pub bad_shares : List (ℕ × ℤ) → Bool
bad_shares [] = false
bad_shares ((u, v) ∷ ss) =
    contains u (users ss) || ltb_ℤ v (pos 0) || ltb_ℤ max_bigint v || bad_shares ss

-- Whether the flush of the expense raises: for a key, a check or a number beyond BIGINT.
unfoldable pub violates : GroupExpense → List GroupExpense → Bool
unfolding key_taken bad_shares
violates e es =
    ltb_ℤ e.total_amount_in_minor (pos 0)
    || ltb_ℤ max_bigint e.total_amount_in_minor
    || bad_shares e.shares
    || key_taken e es

-- `_record_expense_activity` on the tables with the flushed expense.
abbrev pub record_expense : Database → ℕ → GroupExpense → Database
record_expense db actor_user_id e = record db {
  expenses = insert_expense e db.expenses;
  activities =
      record {
        group_id = e.group_id;
        actor_user_id = actor_user_id;
        payload =
            expense_created (actor_name (get_user actor_user_id db.users)) e.id e.title
              e.total_amount_in_minor e.currency e.payer_user_id e.shares;
      }
      ∷ db.activities;
}

-- `any(_as_utc(settlement_created_at) >= expense_created_at ...)` over the group's settlements.
unfoldable pub is_financially_locked : GroupExpense → List Settlement → Bool
is_financially_locked e [] = false
is_financially_locked e (s ∷ ss) =
    (s.group_id == e.group_id && leb e.created_at s.created_at) || is_financially_locked e ss
