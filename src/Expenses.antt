-- ===== src/Expenses.antt =====
-- backend/app/services/group_expense_service.py: adding an expense that is divided among members by
-- one of three rules (`create_fast_split`); Expenses.Itemized adds one by the lines of a receipt.
-- A raised exception rolls the transaction back. An idempotency key and a request hash are numbers,
-- and a key that is not empty. The shares of an expense stand in the order of the call.
mod Rows
pub mod Itemized
pub mod Totals
pub mod Reconcile
pub mod Correct
pub mod Effect
pub mod Receipt
mod Keeps
pub mod Serve
mod Tests
unfoldable pub use Rows.*
use ulutekproje.Common.Int.{ℤ}
use ulutekproje.Common.Result.{Result, ok, err, ◌>>=◌, ◌>>◌, raise_if}
use ulutekproje.Common.{
  ℕ, String, Option, none, some, Bool, true, false, not, ◌&&◌, List, [], ◌∷◌, contains, is_none,
  if◌then◌else◌,
}
use ulutekproje.Records.{
  Database, Group, GroupExpense, ExpenseSplitType, equal, percentage, fixed_amount, itemized,
  get_group,
}
use ulutekproje.Records.Members.{active_ids}
use ulutekproje.Settlements.Text.{upper, same_text}
use ulutekproje.Shares.{
  SplitError, idempotency_key_reused, group_not_found, group_forbidden, currency_mismatch,
  receipt_not_synced, member_not_found, invalid_split_type, Share, calculate_equal_shares,
  calculate_percentage_shares, validate_exact_shares,
}

-- A `FastSplitValidationError`, or what the flush raises for the rows: an `IntegrityError`, or the
-- error of a number beyond BIGINT.
pub data ExpenseError : Type 0 where
  refused : SplitError → ExpenseError
  integrity_error : ExpenseError

abbrev pub lift_split : {A : Type 0} → Result SplitError A → Result ExpenseError A
lift_split (ok a) = ok a
lift_split (err e) = err (refused e)

-- The keyword arguments of `create_fast_split`.
pub record CreateExpense : Type 0 where
  pub group_id : ℕ
  pub actor_user_id : ℕ
  pub payer_user_id : ℕ
  pub receipt_id : Option ℕ
  pub title : String
  pub expense_date : ℕ
  pub total_amount_in_minor : ℤ
  pub currency : List ℕ
  pub split_type : ExpenseSplitType
  pub participants : List (ℕ × Option ℤ)
  pub note : Option String
  pub idempotency_key : Option ℕ
  pub idempotency_request_hash : Option ℕ

unfoldable pub participant_ids : List (ℕ × Option ℤ) → List ℕ
participant_ids [] = []
participant_ids ((u, v) ∷ ps) = u ∷ participant_ids ps

-- `[(user_id, value) for user_id, value in participants if isinstance(value, int)]`
unfoldable pub given_values : List (ℕ × Option ℤ) → List Share
given_values [] = []
given_values ((u, none) ∷ ps) = given_values ps
given_values ((u, some v) ∷ ps) = (u, v) ∷ given_values ps

-- `not (required_ids - active)`
unfoldable pub all_active : List ℕ → List ℕ → Bool
all_active [] active = true
all_active (u ∷ us) active = contains u active && all_active us active

abbrev pub missing_receipt : Option ℕ → ℕ → List CloudReceipt → Bool
missing_receipt none actor_user_id receipts = false
missing_receipt (some receipt_id) actor_user_id receipts =
    is_none (get_receipt receipt_id actor_user_id receipts)

unfoldable pub calculate_shares :
    ExpenseSplitType → ℤ → List (ℕ × Option ℤ) → Result SplitError (List Share)
unfolding participant_ids given_values
calculate_shares equal total participants =
    calculate_equal_shares total (participant_ids participants)
calculate_shares percentage total participants =
    calculate_percentage_shares total (given_values participants)
calculate_shares fixed_amount total participants =
    validate_exact_shares total (given_values participants)
calculate_shares itemized total participants = err invalid_split_type

-- The guards of `create_fast_split` on the group that it finds, and the shares.
unfoldable pub check_fast_split :
    Group → List CloudReceipt → CreateExpense → Result SplitError (List Share)
unfolding participant_ids all_active calculate_shares get_receipt
check_fast_split g receipts r = do
  raise_if (not (is_none g.archived_at)) group_forbidden
  raise_if (not (same_text (upper r.currency) (upper g.currency))) currency_mismatch
  raise_if (missing_receipt r.receipt_id r.actor_user_id receipts) receipt_not_synced
  raise_if
      (not (
        all_active (r.actor_user_id ∷ r.payer_user_id ∷ participant_ids r.participants)
          (active_ids g.members)))
      member_not_found
  calculate_shares r.split_type r.total_amount_in_minor r.participants

-- The row that the repository adds.
abbrev pub new_expense : ℕ → ℕ → CreateExpense → List Share → GroupExpense
new_expense new_id now r shares = record {
  id = new_id;
  group_id = r.group_id;
  receipt_id = r.receipt_id;
  payer_user_id = r.payer_user_id;
  created_by_id = r.actor_user_id;
  title = r.title;
  note = r.note;
  expense_date = r.expense_date;
  total_amount_in_minor = r.total_amount_in_minor;
  currency = upper r.currency;
  split_type = r.split_type;
  shares = shares;
  idempotency_key = r.idempotency_key;
  idempotency_request_hash = r.idempotency_request_hash;
  created_at = now;
  deleted_at = none;
}

-- `create_fast_split` for a request that is not a repetition.
unfoldable pub create_new :
    ℕ → ℕ → Ledger → CreateExpense → Result ExpenseError ((GroupExpense × Bool) × Ledger)
unfolding check_fast_split violates insert_expense
create_new new_id now l r = elim (get_group r.group_id l.tables.groups) [
  | none ↦ err (refused group_not_found)
  | some g ↦ do
    shares ← lift_split (check_fast_split g l.receipts r)
    let e = new_expense new_id now r shares
    raise_if (violates e l.tables.expenses) integrity_error
    ok ((e, false), record l { tables = record_expense l.tables r.actor_user_id e })
]

-- The expense that an earlier request with the same key has created.
unfoldable pub find_existing : CreateExpense → List GroupExpense → Option GroupExpense
unfolding get_by_idempotency_key
find_existing r es = elim r.idempotency_key [
  | none ↦ none
  | some key ↦ get_by_idempotency_key r.group_id r.actor_user_id key es
]

unfoldable pub create_fast_split :
    ℕ → ℕ → Ledger → CreateExpense → Result ExpenseError ((GroupExpense × Bool) × Ledger)
unfolding find_existing create_new
create_fast_split new_id now l r = elim (find_existing r l.tables.expenses) [
  | some existing ↦
      if same_key existing.idempotency_request_hash r.idempotency_request_hash
      then ok ((existing, true), l)
      else err (refused idempotency_key_reused)
  | none ↦ create_new new_id now l r
]
