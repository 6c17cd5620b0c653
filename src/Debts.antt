-- ===== src/Debts.antt =====
-- backend/app/domain/debts.py: balances, transfers and the greedy settlement plan.
-- A `user_id` text stands as a number: 0 is the empty text, and `suc n` the text of the UUID `n`,
-- whose fixed-width hexadecimal form sorts as `n` does. Amounts are integers, so the type tests of
-- `_require_minor_unit` pass, and so do the `isinstance` tests.
pub mod Heap
pub mod Validate
pub mod Queue
pub mod Matching
pub mod Booking
pub mod Plan
pub mod Settle
pub mod Correct
mod Tests
pub use Heap.*
use ulutekproje.Common.Int.{ℤ, pos, ◌+ℤ◌, ◌-ℤ◌, ltb_ℤ, leb_ℤ, eqb_ℤ, min_ℤ}
use ulutekproje.Common.Dict.{Dict, keys, value, add_at, from_entries, all_zero}
use ulutekproje.Common.Result.{Result, ok, err, ◌>>=◌, ◌>>◌, raise_if}
use ulutekproje.Common.{
  ℕ, zero, suc, ◌+◌, ⊤, String, Bool, not, ◌||◌, List, [], ◌∷◌, ◌==◌, contains, length,
  if◌then◌else◌,
}

-- The exceptions of the module. `out_of_rounds` is the model's: the fuel of the matching loop ran
-- out, which `Debts.Matching` shows impossible.
pub data DebtError : Type 0 where
  value_error invalid_debt_balance simplification_invariant out_of_rounds : DebtError

unfoldable pub require_user_id : ℕ → Result DebtError ⊤
require_user_id user_id = raise_if (user_id == 0) value_error

pub record DebtBalance : Type 0 where
  pub user_id : ℕ
  pub display_name : String
  pub net_amount_in_minor : ℤ

-- `DebtBalance(...)`: `__post_init__` checks the fields.
unfoldable pub make_balance : ℕ → String → ℤ → Result DebtError DebtBalance
unfolding require_user_id
make_balance user_id display_name net = do
  require_user_id user_id
  ok (record { user_id = user_id; display_name = display_name; net_amount_in_minor = net })

unfoldable pub from_totals : ℕ → String → ℤ → ℤ → Result DebtError DebtBalance
unfolding make_balance
from_totals user_id display_name total_paid share = do
  raise_if (ltb_ℤ total_paid (pos 0) || ltb_ℤ share (pos 0)) value_error
  make_balance user_id display_name (total_paid -ℤ share)

pub record DebtTransfer : Type 0 where
  pub from_user_id : ℕ
  pub to_user_id : ℕ
  pub amount_in_minor : ℤ

-- `DebtTransfer(...)`
unfoldable pub make_transfer : ℕ → ℕ → ℤ → Result DebtError DebtTransfer
unfolding require_user_id
make_transfer from_user to_user amount = do
  require_user_id from_user
  require_user_id to_user
  raise_if (from_user == to_user) value_error
  raise_if (leb_ℤ amount (pos 0)) value_error
  ok (record { from_user_id = from_user; to_user_id = to_user; amount_in_minor = amount })

-- The loop of `_validate`: the ids seen so far and the running total.
unfoldable pub validate_from : List ℕ → ℤ → List DebtBalance → Result DebtError ℤ
validate_from seen total [] = ok total
validate_from seen total (b ∷ bs) = do
  raise_if (contains b.user_id seen) invalid_debt_balance
  validate_from (b.user_id ∷ seen) (total +ℤ b.net_amount_in_minor) bs

unfoldable pub validate : List DebtBalance → Result DebtError ⊤
unfolding validate_from
validate bs = do
  total ← validate_from [] (pos 0) bs
  raise_if (not (eqb_ℤ total (pos 0))) invalid_debt_balance

-- The heap of the members who owe, before `heapify`, and of those who are owed.
unfoldable pub debtors : List DebtBalance → List Item
debtors [] = []
debtors (b ∷ bs) =
    if ltb_ℤ b.net_amount_in_minor (pos 0)
    then (b.net_amount_in_minor, b.user_id) ∷ debtors bs
    else debtors bs

unfoldable pub creditors : List DebtBalance → List Item
creditors [] = []
creditors (b ∷ bs) =
    if ltb_ℤ (pos 0) b.net_amount_in_minor
    then (pos 0 -ℤ b.net_amount_in_minor, b.user_id) ∷ creditors bs
    else creditors bs

-- `if remaining: heappush(heap, (-remaining, user_id))`
unfoldable pub push_open : ℤ → ℕ → List Item → List Item
push_open remaining user_id heap =
    if eqb_ℤ remaining (pos 0) then heap else heappush (pos 0 -ℤ remaining, user_id) heap

-- The `while debtors and creditors` loop: the transfers that it appends, in order.
unfoldable pub match_all : ℕ → List Item → List Item → Result DebtError (List DebtTransfer)
unfolding make_transfer push_open
match_all fuel [] creditors = ok []
match_all fuel (d ∷ ds) [] = ok []
match_all zero (d ∷ ds) (c ∷ cs) = err out_of_rounds
match_all (suc fuel) ((negative_debt, debtor) ∷ ds) ((negative_credit, creditor) ∷ cs) =
    let debt = pos 0 -ℤ negative_debt in
    let credit = pos 0 -ℤ negative_credit in
    let amount = min_ℤ debt credit in
    let rest =
      match_all fuel (push_open (debt -ℤ amount) debtor ds)
        (push_open (credit -ℤ amount) creditor cs) in
    do transfer ← make_transfer debtor creditor amount; transfers ← rest; ok (transfer ∷ transfers)

-- One payment booked in a dict of amounts; `e` is what the caller raises for a user outside it.
unfoldable pub book : DebtError → Dict → DebtTransfer → Result DebtError Dict
book e amounts t = do
  raise_if
      (not (contains t.from_user_id (keys amounts)) || not (contains t.to_user_id (keys amounts))) e
  ok (
      add_at t.to_user_id (pos 0 -ℤ t.amount_in_minor)
        (add_at t.from_user_id t.amount_in_minor amounts))

unfoldable pub book_all : DebtError → Dict → List DebtTransfer → Result DebtError Dict
unfolding book
book_all e amounts [] = ok amounts
book_all e amounts (t ∷ ts) = do amounts' ← book e amounts t; book_all e amounts' ts

-- The entries of the comprehension `{balance.user_id: balance.net_amount_in_minor ...}`.
abbrev pub entries : List DebtBalance → Dict
entries [] = []
entries (b ∷ bs) = (b.user_id, b.net_amount_in_minor) ∷ entries bs

unfoldable pub validate_result : List DebtBalance → List DebtTransfer → Result DebtError ⊤
unfolding book_all
validate_result bs ts = do
  remaining ← book_all simplification_invariant (from_entries [] (entries bs)) ts
  raise_if (not (all_zero remaining)) simplification_invariant

unfoldable pub simplify : List DebtBalance → Result DebtError (List DebtTransfer)
unfolding validate debtors creditors match_all validate_result
simplify bs = do
  validate bs
  let owing = heapify (debtors bs)
  let owed = heapify (creditors bs)
  result ← match_all (length owing + length owed) owing owed
  validate_result bs result
  ok result

-- The result of `apply_settlements`: the balances with the amounts of the dict.
unfoldable pub rebalance : Dict → List DebtBalance → Result DebtError (List DebtBalance)
unfolding make_balance
rebalance amounts [] = ok []
rebalance amounts (b ∷ bs) = do
  b' ← make_balance b.user_id b.display_name (value b.user_id amounts)
  bs' ← rebalance amounts bs
  ok (b' ∷ bs')

unfoldable pub apply_settlements :
    List DebtBalance → List DebtTransfer → Result DebtError (List DebtBalance)
unfolding validate book_all rebalance
apply_settlements bs settlements = do
  validate bs
  amounts ← book_all invalid_debt_balance (from_entries [] (entries bs)) settlements
  result ← rebalance amounts bs
  validate result
  ok result
