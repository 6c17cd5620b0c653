-- ===== src/Debts/Plan.antt =====
-- `simplify` as a whole, on the balances of a closed group.
use ulutekproje.Common.Int.{ℤ, pos, ◌+ℤ◌, ◌-ℤ◌, ◌≤ℤ◌, ◌<ℤ◌, ltb_ℤ, int_laws, parts_of_eq}
use ulutekproje.Common.Dict.{
  keys, value, from_entries, value-absent, all_zero-of_value, contains-from_entries,
  from_entries-IsDistinct, value-from_entries,
}
use ulutekproje.Common.Result.{ok}
use ulutekproje.Common.{
  ℕ, ◌+◌, ◌-◌, ◌≤◌, ◌≡◌, refl, inl, inr, true, false, List, [], ◌∷◌, arith, contains, IsDistinct,
  length, All, Bool-cases, if◌then◌else◌,
}
use ulutekproje.Debts.Heap.{Item, heapify}
use ulutekproje.Debts.Queue.{
  open_at, open_total, users, IsNegative, open_at-heapify, open_total-heapify, contains-heapify,
  length-heapify, heapify-IsNegative,
}
use ulutekproje.Debts.Matching.{sent, received, IsMatchable, Clears, IsPayment, match_all-Clears}
use ulutekproje.Debts.Booking.{IsWithin, book_all-IsBooked}
use ulutekproje.Debts.Validate.{ids, net_total, IsClosed, validate-IsClosed}
use ulutekproje.Debts.{
  DebtBalance, DebtTransfer, debtors, creditors, entries, validate_result, simplify,
  simplification_invariant,
}

-- A member's net balance, zero for anyone else.
abbrev pub net_of : ℕ → List DebtBalance → ℤ
net_of u bs = value u (entries bs)

-- What a balance makes its user owe, and what it makes others owe to the user.
abbrev pub debt_of : ℤ → ℤ
debt_of net = if ltb_ℤ net (pos 0) then pos 0 -ℤ net else pos 0

abbrev pub credit_of : ℤ → ℤ
credit_of net = if ltb_ℤ (pos 0) net then net else pos 0

debtors-IsNegative : (bs : List DebtBalance) → All IsNegative (debtors bs)
unfolding debtors
debtors-IsNegative [] = tt
debtors-IsNegative (b ∷ bs) = elim (Bool-cases (ltb_ℤ b.net_amount_in_minor (pos 0))) [
  | inl owes ↦ rw owes (ground arith, debtors-IsNegative bs)
  | inr not_owing ↦ rw not_owing (debtors-IsNegative bs)
]

creditors-IsNegative : (bs : List DebtBalance) → All IsNegative (creditors bs)
unfolding creditors
creditors-IsNegative [] = tt
creditors-IsNegative (b ∷ bs) = elim (Bool-cases (ltb_ℤ (pos 0) b.net_amount_in_minor)) [
  | inl owed ↦ rw owed (grind int_laws, creditors-IsNegative bs)
  | inr not_owed ↦ rw not_owed (creditors-IsNegative bs)
]

debtors-total :
    (bs : List DebtBalance) → open_total (debtors bs) ≡ net_total bs +ℤ open_total (creditors bs)
unfolding open_total debtors creditors
debtors-total [] = omega int_laws
debtors-total (b ∷ bs) = grind (int_laws, parts_of_eq (debtors-total bs))

-- Who is in a heap has a balance of that sign.
debtor_net :
    (u : ℕ) (bs : List DebtBalance)
    → IsDistinct (ids bs)
    → contains u (users (debtors bs)) ≡ true
    → (contains u (ids bs) ≡ true) × (net_of u bs <ℤ pos 0)
unfolding value debtors
debtor_net u [] d h = cc
debtor_net u (b ∷ bs) d h = ground (arith, debtor_net u bs d.1)

creditor_net :
    (u : ℕ) (bs : List DebtBalance)
    → IsDistinct (ids bs)
    → contains u (users (creditors bs)) ≡ true
    → (contains u (ids bs) ≡ true) × (pos 0 <ℤ net_of u bs)
unfolding value creditors
creditor_net u [] d h = cc
creditor_net u (b ∷ bs) d h = ground (arith, creditor_net u bs d.1)

open_at-debtors :
    (u : ℕ) (bs : List DebtBalance)
    → IsDistinct (ids bs)
    → open_at u (debtors bs) +ℤ debt_of (net_of u bs) ≡ pos 0
unfolding value open_at debtors
open_at-debtors u [] d = omega int_laws
open_at-debtors u (b ∷ bs) d =
    grind (int_laws, open_at-debtors u bs d.1, value-absent u (entries bs))

open_at-creditors :
    (u : ℕ) (bs : List DebtBalance)
    → IsDistinct (ids bs)
    → open_at u (creditors bs) +ℤ credit_of (net_of u bs) ≡ pos 0
unfolding value open_at creditors
open_at-creditors u [] d = omega int_laws
open_at-creditors u (b ∷ bs) d =
    grind (int_laws, open_at-creditors u bs d.1, value-absent u (entries bs))

-- A transfer of a plan: a positive amount, from a member in debt to a member with a credit.
abbrev pub IsMemberPayment : List DebtBalance → DebtTransfer → Type 0
IsMemberPayment bs t =
    (net_of t.from_user_id bs <ℤ pos 0)
    × (pos 0 <ℤ net_of t.to_user_id bs)
    × (pos 1 ≤ℤ t.amount_in_minor)

net_parts : (z : ℤ) → z +ℤ debt_of z ≡ credit_of z
net_parts z = grind int_laws

-- The dict of a comprehension over the balances reads as they do.
pub start_value :
    (bs : List DebtBalance)
    → IsDistinct (ids bs)
    → (u : ℕ) → value u (from_entries [] (entries bs)) ≡ net_of u bs
start_value bs d u = ground (
  arith,
  value-from_entries u (entries bs) [] d,
  value-absent u (entries bs),
  value-absent u [] refl,
)

-- What `simplify` promises of its plan.
pub record IsPlan (bs : List DebtBalance) (ts : List DebtTransfer) : Type 0 where
  pub pays : (u : ℕ) → sent u ts ≡ debt_of (net_of u bs)
  pub gets : (u : ℕ) → received u ts ≡ credit_of (net_of u bs)
  pub count : length ts ≤ length (debtors bs) + length (creditors bs) - 1
  pub payments : All (IsMemberPayment bs) ts

-- Every balance has a user.
abbrev pub IsNamed : List DebtBalance → Type 0
IsNamed bs = contains 0 (ids bs) ≡ false

module _ (bs : List DebtBalance) (closed : IsClosed bs) (named : IsNamed bs) where
  abbrev owing : List Item
  owing = heapify (debtors bs)

  abbrev owed : List Item
  owed = heapify (creditors bs)

  in_owing :
      (u : ℕ)
      → contains u (users owing) ≡ true
      → (contains u (ids bs) ≡ true) × (net_of u bs <ℤ pos 0)
  in_owing u h = debtor_net u bs closed.0 (rw (contains-heapify u (debtors bs)) at h)

  in_owed :
      (u : ℕ)
      → contains u (users owed) ≡ true
      → (contains u (ids bs) ≡ true) × (pos 0 <ℤ net_of u bs)
  in_owed u h = creditor_net u bs closed.0 (rw (contains-heapify u (creditors bs)) at h)

  heaps_balanced : open_total owing ≡ open_total owed
  heaps_balanced =
      rw (open_total-heapify (debtors bs), open_total-heapify (creditors bs))
        (omega (int_laws, parts_of_eq (debtors-total bs), parts_of_eq closed.1))

  heaps-IsMatchable : IsMatchable owing owed
  heaps-IsMatchable = record {
    owing_open = heapify-IsNegative (debtors bs) (debtors-IsNegative bs);
    owed_open = heapify-IsNegative (creditors bs) (creditors-IsNegative bs);
    balanced = heaps_balanced;
    apart = λ u e. ground (arith, in_owing u e, in_owed u);
    owing_named = ground (arith, named, in_owing 0);
    owed_named = ground (arith, named, in_owed 0);
  }

  payments-IsMemberPayment :
      (ts : List DebtTransfer) → All (IsPayment owing owed) ts → All (IsMemberPayment bs) ts
  payments-IsMemberPayment [] h = tt
  payments-IsMemberPayment (t ∷ ts) h = (
    ((in_owing t.from_user_id h.0.0).1, (in_owed t.to_user_id h.0.1).1, h.0.2),
    payments-IsMemberPayment ts h.1,
  )

  Clears-IsPlan : (ts : List DebtTransfer) → Clears owing owed ts → IsPlan bs ts
  Clears-IsPlan ts c = record {
    pays = λ u. omega (
      int_laws,
      parts_of_eq (c.pays u),
      parts_of_eq (open_at-heapify u (debtors bs)),
      parts_of_eq (open_at-debtors u bs closed.0),
    );
    gets = λ u. omega (
      int_laws,
      parts_of_eq (c.gets u),
      parts_of_eq (open_at-heapify u (creditors bs)),
      parts_of_eq (open_at-creditors u bs closed.0),
    );
    count = omega (arith, c.count, length-heapify (debtors bs), length-heapify (creditors bs));
    payments = payments-IsMemberPayment ts c.payments;
  }

  payments-IsWithin :
      (ts : List DebtTransfer)
      → All (IsPayment owing owed) ts
      → All (IsWithin (keys (from_entries [] (entries bs)))) ts
  payments-IsWithin [] h = tt
  payments-IsWithin (t ∷ ts) h = (
    (known _ (in_owing t.from_user_id h.0.0).0, known _ (in_owed t.to_user_id h.0.1).0),
    payments-IsWithin ts h.1,
  )
    where
      known :
          (u : ℕ)
          → contains u (ids bs) ≡ true
          → contains u (keys (from_entries [] (entries bs))) ≡ true
      known u e = rw (contains-from_entries u (entries bs) [], e)

  -- The check of the plan always passes.
  validate_result-IsPlan :
      (ts : List DebtTransfer)
      → IsPlan bs ts
      → All (IsWithin (keys (from_entries [] (entries bs)))) ts
      → validate_result bs ts ≡ ok tt
  unfolding validate_result
  validate_result-IsPlan ts plan within =
      let start = from_entries [] (entries bs) in
      let (after, e, booked) = book_all-IsBooked simplification_invariant start ts within in
      let settled : (u : ℕ) → value u after ≡ pos 0 = λ u. omega (
        int_laws,
        parts_of_eq (booked.moved u),
        parts_of_eq (plan.pays u),
        parts_of_eq (plan.gets u),
        parts_of_eq (start_net u),
      ) in
      let distinct : IsDistinct (keys after) =
        rw booked.same_keys (from_entries-IsDistinct (entries bs) [] tt) in
      rw (e, all_zero-of_value after distinct settled)
    where
      start_net :
          (u : ℕ)
          → value u (from_entries [] (entries bs)) +ℤ debt_of (net_of u bs)
            ≡ credit_of (net_of u bs)
      start_net u = rw (start_value bs closed.0 u) (net_parts (net_of u bs))

  pub simplify-IsPlan : (ts : List DebtTransfer) × (simplify bs ≡ ok ts) × IsPlan bs ts
  unfolding simplify
  simplify-IsPlan =
      let (ts, e, c) =
        match_all-Clears (length owing + length owed) owing owed (omega arith) heaps-IsMatchable in
      let plan = Clears-IsPlan ts c in
      (
        ts,
        rw (
          validate-IsClosed bs closed,
          e,
          validate_result-IsPlan ts plan (payments-IsWithin ts c.payments),
        ),
        plan,
      )
