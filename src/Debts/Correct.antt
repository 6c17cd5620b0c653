-- ===== src/Debts/Correct.antt =====
-- The promises of `DebtSimplificationService` (backend/app/domain/debts.py), for its callers.
use ulutekproje.Common.Int.{◌+ℤ◌}
use ulutekproje.Common.Result.{Result, ok, err}
use ulutekproje.Common.{
  ℕ, ◌+◌, ◌-◌, ◌≤◌, ◌≡◌, sym, subst, ◌∙◌, ◌↔◌, ◌⊎◌, inl, inr, true, List, contains, length, All,
}
use ulutekproje.Debts.Matching.{sent, received}
use ulutekproje.Debts.Booking.{IsWithin}
use ulutekproje.Debts.Validate.{ids, IsClosed, validate_cases}
use ulutekproje.Debts.Plan.{
  net_of, debt_of, credit_of, IsNamed, IsPlan, IsMemberPayment, simplify-IsPlan,
}
use ulutekproje.Debts.Settle.{apply_settlements_cases}
use ulutekproje.Debts.{
  DebtBalance, DebtTransfer, DebtError, debtors, creditors, simplify, apply_settlements,
  invalid_debt_balance,
}

-- On the balances of a closed group (no user twice, a total of zero, no empty user id) `simplify`
-- returns a plan, under which every user pays exactly what the user owes and receives exactly what
-- the user is owed: the loop ends, and none of its checks raises.
pub simplify_settles :
    (bs : List DebtBalance)
    → IsClosed bs
    → IsNamed bs
    → (ts : List DebtTransfer) × (simplify bs ≡ ok ts)
      × ((u : ℕ) → sent u ts ≡ debt_of (net_of u bs))
      × ((u : ℕ) → received u ts ≡ credit_of (net_of u bs))
simplify_settles bs closed named =
    let (ts, e, plan) = simplify-IsPlan bs closed named in (ts, e, plan.pays, plan.gets)

-- A call of `simplify` ends in one of two ways.
simplify_cases :
    (bs : List DebtBalance)
    → IsNamed bs
    → IsClosed bs × ((ts : List DebtTransfer) × (simplify bs ≡ ok ts) × IsPlan bs ts)
      ⊎ (¬ IsClosed bs) × (simplify bs ≡ err invalid_debt_balance)
unfolding simplify
simplify_cases bs named = elim (validate_cases bs) [
  | inr (open_group, refused) ↦ inr (open_group, rw refused)
  | inl (closed, passed) ↦ inl (closed, simplify-IsPlan bs closed named)
]

ok-injective : {E A : Type 0} {a b : A} → ◌≡◌ {A = Result E A} (ok a) (ok b) → a ≡ b
ok-injective e = cc

returned-IsPlan :
    (bs : List DebtBalance) (ts : List DebtTransfer)
    → IsNamed bs
    → simplify bs ≡ ok ts
    → IsPlan bs ts
returned-IsPlan bs ts named e = elim (simplify_cases bs named) [
  | inr (_, refused) ↦ cc
  | inl (_, (ts', e', plan)) ↦ subst (IsPlan bs) (ok-injective (sym e' ∙ e)) plan
]

-- Every transfer of a returned plan is a positive amount from a member whose balance is negative to
-- a member whose balance is positive, and a plan has fewer transfers than there are debtors and
-- creditors (none if there are none).
pub simplify_transfers :
    (bs : List DebtBalance) (ts : List DebtTransfer)
    → IsNamed bs
    → simplify bs ≡ ok ts
    → All (IsMemberPayment bs) ts × (length ts ≤ length (debtors bs) + length (creditors bs) - 1)
simplify_transfers bs ts named e =
    let plan = returned-IsPlan bs ts named e in (plan.payments, plan.count)

-- On balances without an empty user id `simplify` raises exactly when they are no closed group, and
-- always the same exception: the checks of the transfers and of the plan never raise, and the loop
-- never runs out of rounds.
pub simplify_raises :
    (bs : List DebtBalance) (e : DebtError)
    → IsNamed bs
    → (simplify bs ≡ err e) ↔ ((e ≡ invalid_debt_balance) × (¬ IsClosed bs))
simplify_raises bs e named = elim (simplify_cases bs named) [
  | inr (open_group, refused) ↦ ((λ h. (cc, open_group)), (λ h. rw h.0 refused))
  | inl (closed, (ts, e', _)) ↦ ((λ h. cc), (λ h. absurd (h.1 closed)))
]

-- Payments recorded between the members of a closed group leave a closed group of the same users,
-- in which every member has gained what the member sent and lost what the member received.
pub apply_settlements_moves :
    (bs : List DebtBalance) (ts : List DebtTransfer)
    → IsNamed bs
    → IsClosed bs
    → All (IsWithin (ids bs)) ts
    → (after : List DebtBalance) × (apply_settlements bs ts ≡ ok after)
      × (ids after ≡ ids bs)
      × IsClosed after
      × ((u : ℕ)
          → contains u (ids bs) ≡ true
          → net_of u after +ℤ received u ts ≡ net_of u bs +ℤ sent u ts)
apply_settlements_moves bs ts named closed within = elim (apply_settlements_cases bs ts named) [
  | inr (refuses, _) ↦ absurd (refuses closed within)
  | inl (_, _, (after, e, s)) ↦ (after, e, s.same_ids, s.closed, s.moved)
]

-- Recorded payments are refused, always as an invalid debt balance, exactly when the balances are
-- no closed group or a payment names a user outside it.
pub apply_settlements_raises :
    (bs : List DebtBalance) (ts : List DebtTransfer) (e : DebtError)
    → IsNamed bs
    → (apply_settlements bs ts ≡ err e)
      ↔ ((e ≡ invalid_debt_balance) × (¬ (IsClosed bs × All (IsWithin (ids bs)) ts)))
apply_settlements_raises bs ts e named = elim (apply_settlements_cases bs ts named) [
  | inr (refuses, refused) ↦ ((λ h. (cc, λ c. refuses c.0 c.1)), (λ h. rw h.0 refused))
  | inl (closed, within, (after, e', _)) ↦ ((λ h. cc), (λ h. absurd (h.1 (closed, within))))
]
