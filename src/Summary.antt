-- ===== src/Summary.antt =====
-- backend/app/services/debt_summary_service.py: the debt summary of a group, from its expenses and
-- settlements, and the aggregate queries that give one user's balance in many groups.
-- `str(user_id)` of the UUID `n` is the text number `suc n` of the debts module.
pub mod Ids
pub mod Net
pub mod Rows
pub mod Correct
pub mod Aggregate
pub mod Activity
mod Tests
use ulutekproje.Common.Int.{ℤ, pos, ◌-ℤ◌}
use ulutekproje.Common.Dict.{Dict, value, add_default}
use ulutekproje.Common.Result.{Result, ok, err, ◌>>=◌}
use ulutekproje.Common.{
  ℕ, suc, String, Option, none, some, List, [], ◌∷◌, ◌==◌, contains, leb, if◌then◌else◌,
}
use ulutekproje.Debts.{
  DebtError, DebtBalance, DebtTransfer, make_balance, make_transfer, apply_settlements, simplify,
}
use ulutekproje.Records.{
  Database, Group, GroupMember, GroupExpense, Settlement, get_group, list_expenses,
  list_settlements,
}
use ulutekproje.Records.Members.{display_name, active_ids}

pub data SummaryError : Type 0 where
  group_not_found : SummaryError
  debt : DebtError → SummaryError

abbrev pub lift_debt : {A : Type 0} → Result DebtError A → Result SummaryError A
lift_debt (ok a) = ok a
lift_debt (err e) = err (debt e)

-- `class DebtSummary` of backend/app/domain/debts.py
pub record DebtSummary : Type 0 where
  pub group_id : ℕ
  pub currency : List ℕ
  pub balances : List DebtBalance
  pub suggested_transfers : List DebtTransfer
  pub generated_at : ℕ

-- The inner loop over `expense.shares`, on the `expense_amounts`.
unfoldable pub book_shares : Dict → List (ℕ × ℤ) → Dict
book_shares amounts [] = amounts
book_shares amounts ((u, v) ∷ ss) = book_shares (add_default u (pos 0 -ℤ v) amounts) ss

unfoldable pub book_expenses : Dict → List GroupExpense → Dict
unfolding book_shares
book_expenses amounts [] = amounts
book_expenses amounts (e ∷ es) =
    book_expenses
      (book_shares (add_default e.payer_user_id e.total_amount_in_minor amounts) e.shares) es

-- `financial_user_ids.add(user_id)`
unfoldable pub add_id : ℕ → List ℕ → List ℕ
add_id u us = if contains u us then us else u ∷ us

unfoldable pub add_ids : List ℕ → List ℕ → List ℕ
unfolding add_id
add_ids [] us = us
add_ids (k ∷ ks) us = add_ids ks (add_id k us)

abbrev pub share_ids : List (ℕ × ℤ) → List ℕ
share_ids [] = []
share_ids ((u, v) ∷ ss) = u ∷ share_ids ss

-- The set `financial_user_ids` after the loop over the expenses, and after that over the settlements.
unfoldable pub add_expense_ids : List GroupExpense → List ℕ → List ℕ
unfolding add_ids
add_expense_ids [] us = us
add_expense_ids (e ∷ es) us =
    add_expense_ids es (add_ids (share_ids e.shares) (add_id e.payer_user_id us))

unfoldable pub add_settlement_ids : List Settlement → List ℕ → List ℕ
unfolding add_id
add_settlement_ids [] us = us
add_settlement_ids (s ∷ ss) us =
    add_settlement_ids ss (add_id s.to_user_id (add_id s.from_user_id us))

-- `sorted(financial_user_ids, key=str)`
unfoldable pub insert_id : ℕ → List ℕ → List ℕ
insert_id u [] = u ∷ []
insert_id u (k ∷ ks) = if leb u k then u ∷ k ∷ ks else k ∷ insert_id u ks

unfoldable pub sort_ids : List ℕ → List ℕ
unfolding insert_id
sort_ids [] = []
sort_ids (u ∷ us) = insert_id u (sort_ids us)

-- `display_names.get(user_id, default)`, for the comprehension over the members: the last one counts.
unfoldable pub name_of : ℕ → String → List GroupMember → String
unfolding display_name
name_of u default [] = default
name_of u default (m ∷ ms) = name_of u (if m.user_id == u then display_name m else default) ms

unfoldable pub expense_balances :
    List GroupMember → Dict → List ℕ → Result DebtError (List DebtBalance)
unfolding name_of
expense_balances members amounts [] = ok []
expense_balances members amounts (u ∷ us) = do
  b ← make_balance (suc u) (name_of u "Silinmiş kullanıcı" members) (value u amounts)
  bs ← expense_balances members amounts us
  ok (b ∷ bs)

-- The transfers of `reversed(settlements)`: `ts` are those of the settlements read so far.
unfoldable pub settlement_transfers :
    List Settlement → List DebtTransfer → Result DebtError (List DebtTransfer)
settlement_transfers [] ts = ok ts
settlement_transfers (s ∷ ss) ts = do
  t ← make_transfer (suc s.from_user_id) (suc s.to_user_id) s.amount_in_minor
  settlement_transfers ss (t ∷ ts)

-- The balances and the plan of a group with these members, expenses and settlements.
unfoldable pub summarize :
    List GroupMember
    → List GroupExpense
    → List Settlement
    → Result DebtError (List DebtBalance × List DebtTransfer)
unfolding book_expenses add_ids add_expense_ids add_settlement_ids sort_ids expense_balances
    settlement_transfers
summarize members es ss = do
  let ids = add_settlement_ids ss (add_expense_ids es (add_ids (active_ids members) []))
  balances ← expense_balances members (book_expenses [] es) (sort_ids ids)
  transfers ← settlement_transfers ss []
  settled ← apply_settlements balances transfers
  suggested ← simplify settled
  ok (settled, suggested)

-- `if group is None: group = ...`
abbrev pub or_else {ℓ} : {A : Type ℓ} → Option A → Option A → Option A
or_else none b = b
or_else (some a) b = some a

-- `get_for_group(group_id, group=group)` at the instant `now`.
unfoldable pub get_for_group : ℕ → Database → ℕ → Option Group → Result SummaryError DebtSummary
unfolding summarize
get_for_group now db group_id given = elim (or_else given (get_group group_id db.groups)) [
  | none ↦ err group_not_found
  | some g ↦ do
    parts ← lift_debt (
        summarize g.members (list_expenses group_id db.expenses)
          (list_settlements group_id db.settlements))
    ok (record {
      group_id = g.id;
      currency = g.currency;
      balances = parts.0;
      suggested_transfers = parts.1;
      generated_at = now;
    })
]
