-- ===== src/Debts/Tests.antt =====
-- A flat of three: user 1 has paid for the others, who owe 200 and 400.
use ulutekproje.Common.Int.{ℤ, pos, negsuc, ◌+ℤ◌, ◌-ℤ◌}
use ulutekproje.Common.Dict.{value, from_entries, all_zero, add_at, insert}
use ulutekproje.Common.Result.{ok, err}
use ulutekproje.Common.{
  ℕ, ◌+◌, ◌-◌, ◌≤◌, ◌≡◌, refl, ◌↔◌, List, [], ◌∷◌, contains, length, All, true,
}
use ulutekproje.Debts.Heap.{heapify}
use ulutekproje.Debts.Matching.{sent, received}
use ulutekproje.Debts.Booking.{IsWithin}
use ulutekproje.Debts.Validate.{ids, IsClosed}
use ulutekproje.Debts.Plan.{net_of, debt_of, credit_of, IsMemberPayment}
use ulutekproje.Debts.Correct.{
  simplify_settles, simplify_transfers, simplify_raises, apply_settlements_moves,
  apply_settlements_raises,
}
use ulutekproje.Debts.{
  DebtBalance, DebtTransfer, value_error, invalid_debt_balance, debtors, creditors, simplify,
  apply_settlements, from_totals,
}

abbrev balance : ℕ → ℤ → DebtBalance
balance user_id net = record { user_id = user_id; display_name = "Ali"; net_amount_in_minor = net }

abbrev pay : ℕ → ℕ → ℤ → DebtTransfer
pay from_user to_user amount = record {
  from_user_id = from_user;
  to_user_id = to_user;
  amount_in_minor = amount;
}

abbrev flat : List DebtBalance
flat = balance 2 (negsuc 199) ∷ balance 1 (pos 600) ∷ balance 3 (negsuc 399) ∷ []

-- User 3 owes more, and so pays first.
abbrev plan : List DebtTransfer
plan = pay 3 1 (pos 400) ∷ pay 2 1 (pos 200) ∷ []

simplify-flat : simplify flat ≡ ok plan
unfolding simplify heapify value from_entries all_zero add_at insert ◌+ℤ◌ ◌-ℤ◌
simplify-flat = refl

from_totals_negative : from_totals 1 "Ali" (pos 5) (negsuc 0) ≡ err value_error
unfolding from_totals
from_totals_negative = refl

-- One member too few.
abbrev open_group : List DebtBalance
open_group = balance 2 (negsuc 199) ∷ balance 1 (pos 600) ∷ []

simplify-open_group : simplify open_group ≡ err invalid_debt_balance
unfolding simplify ◌+ℤ◌
simplify-open_group = refl

flat-IsClosed : IsClosed flat
unfolding ◌+ℤ◌
flat-IsClosed = ((refl, (refl, (refl, tt))), refl)

simplify_settles_example :
    (ts : List DebtTransfer) × (simplify flat ≡ ok ts)
    × ((u : ℕ) → sent u ts ≡ debt_of (net_of u flat))
    × ((u : ℕ) → received u ts ≡ credit_of (net_of u flat))
simplify_settles_example = simplify_settles flat flat-IsClosed refl

simplify_transfers_example :
    All (IsMemberPayment flat) plan
    × (length plan ≤ length (debtors flat) + length (creditors flat) - 1)
simplify_transfers_example = simplify_transfers flat plan refl simplify-flat

simplify_raises_example :
    (simplify open_group ≡ err invalid_debt_balance)
    ↔ ((invalid_debt_balance ≡ invalid_debt_balance) × (¬ IsClosed open_group))
simplify_raises_example = simplify_raises open_group invalid_debt_balance refl

apply_settlements_moves_example :
    (after : List DebtBalance) × (apply_settlements flat (pay 3 1 (pos 150) ∷ []) ≡ ok after)
    × (ids after ≡ ids flat)
    × IsClosed after
    × ((u : ℕ)
        → contains u (ids flat) ≡ true
        → net_of u after +ℤ received u (pay 3 1 (pos 150) ∷ [])
          ≡ net_of u flat +ℤ sent u (pay 3 1 (pos 150) ∷ []))
apply_settlements_moves_example =
    apply_settlements_moves flat (pay 3 1 (pos 150) ∷ []) refl flat-IsClosed ((refl, refl), tt)

apply_settlements_raises_example :
    (apply_settlements flat (pay 9 1 (pos 1) ∷ []) ≡ err invalid_debt_balance) ↔ (
      (invalid_debt_balance ≡ invalid_debt_balance)
      × (¬ (IsClosed flat × All (IsWithin (ids flat)) (pay 9 1 (pos 1) ∷ []))))
apply_settlements_raises_example =
    apply_settlements_raises flat (pay 9 1 (pos 1) ∷ []) invalid_debt_balance refl
