-- ===== src/Debts/Settle.antt =====
-- `apply_settlements`: what recorded payments move.
use ulutekproje.Common.Int.{ℤ, pos, ◌+ℤ◌, int_laws, parts_of_eq}
use ulutekproje.Common.Dict.{Dict, keys, value, from_entries, contains-from_entries}
use ulutekproje.Common.Sums.{sum_over, sum_over-add_eq, sum_over-at, sum_over-set_other}
use ulutekproje.Common.Result.{ok, err}
use ulutekproje.Common.{
  ℕ, ◌≡◌, refl, sym, ap, ◌∙◌, ◌⊎◌, inl, inr, true, List, [], ◌∷◌, arith, ◌==◌, contains, IsDistinct,
  All, if◌then◌else◌,
}
use ulutekproje.Debts.Matching.{sent, received}
use ulutekproje.Debts.Booking.{IsWithin, IsBooked, book_all-IsBooked, book_all_cases}
use ulutekproje.Debts.Validate.{ids, net_total, IsClosed, validate_cases, validate-IsClosed}
use ulutekproje.Debts.Plan.{net_of, IsNamed, start_value}
use ulutekproje.Debts.{
  DebtBalance, DebtTransfer, entries, make_balance, book_all, rebalance, apply_settlements,
  invalid_debt_balance,
}

-- The balances with the amounts of a dict.
abbrev rebalanced : Dict → List DebtBalance → List DebtBalance
rebalanced d [] = []
rebalanced d (b ∷ bs) =
    record {
      user_id = b.user_id;
      display_name = b.display_name;
      net_amount_in_minor = value b.user_id d;
    }
    ∷ rebalanced d bs

module _ (d : Dict) where
  rebalance-ok : (bs : List DebtBalance) → IsNamed bs → rebalance d bs ≡ ok (rebalanced d bs)
  unfolding rebalance make_balance
  rebalance-ok [] h = refl
  rebalance-ok (b ∷ bs) h = ground (arith, rebalance-ok bs)

  ids-rebalanced : (bs : List DebtBalance) → ids (rebalanced d bs) ≡ ids bs
  ids-rebalanced [] = refl
  ids-rebalanced (b ∷ bs) = rw (ids-rebalanced bs)

  net_of-rebalanced :
      (u : ℕ) (bs : List DebtBalance)
      → contains u (ids bs) ≡ true
      → net_of u (rebalanced d bs) ≡ value u d
  unfolding value
  net_of-rebalanced u [] h = cc
  net_of-rebalanced u (b ∷ bs) h = ground (arith, net_of-rebalanced u bs)

  net_total-rebalanced :
      (bs : List DebtBalance) → net_total (rebalanced d bs) ≡ sum_over (ids bs) (λ k. value k d)
  unfolding sum_over
  net_total-rebalanced [] = refl
  net_total-rebalanced (b ∷ bs) = rw (net_total-rebalanced bs)

-- Over the members, the payments that are sent are those that are received.
sent-eq-received :
    (ks : List ℕ) (ts : List DebtTransfer)
    → IsDistinct ks
    → All (IsWithin ks) ts
    → sum_over ks (λ k. sent k ts) ≡ sum_over ks (λ k. received k ts)
unfolding sent received
sent-eq-received ks [] d h = refl
sent-eq-received ks (t ∷ ts) d h =
    sum_over-at t.from_user_id t.amount_in_minor (λ k. sent k ts) ks d h.0.0
    ∙ ap (λ z. t.amount_in_minor +ℤ z) (sent-eq-received ks ts d h.1)
    ∙ sym (sum_over-at t.to_user_id t.amount_in_minor (λ k. received k ts) ks d h.0.1)

-- The keys of the dict that the balances begin with are their users.
module _ (bs : List DebtBalance) where
  abbrev start : Dict
  start = from_entries [] (entries bs)

  contains-start : (u : ℕ) → contains u (keys start) ≡ contains u (ids bs)
  contains-start u = ground (arith, contains-from_entries u (entries bs) [])

  IsWithin-start :
      (ts : List DebtTransfer) → All (IsWithin (ids bs)) ts → All (IsWithin (keys start)) ts
  IsWithin-start [] h = tt
  IsWithin-start (t ∷ ts) h = (
    (contains-start t.from_user_id ∙ h.0.0, contains-start t.to_user_id ∙ h.0.1),
    IsWithin-start ts h.1,
  )

  IsWithin-members :
      (ts : List DebtTransfer) → All (IsWithin (keys start)) ts → All (IsWithin (ids bs)) ts
  IsWithin-members [] h = tt
  IsWithin-members (t ∷ ts) h = (
    (sym (contains-start t.from_user_id) ∙ h.0.0, sym (contains-start t.to_user_id) ∙ h.0.1),
    IsWithin-members ts h.1,
  )

sum_over-net_of :
    (bs : List DebtBalance)
    → IsDistinct (ids bs)
    → sum_over (ids bs) (λ k. net_of k bs) ≡ net_total bs
unfolding sum_over value
sum_over-net_of [] d = refl
sum_over-net_of (b ∷ bs) d = omega (
  int_laws,
  parts_of_eq (head_value b.user_id b.net_amount_in_minor (net_of b.user_id bs)),
  parts_of_eq (sum_over-set_other b.user_id b.net_amount_in_minor (λ k. net_of k bs) (ids bs) d.0),
  parts_of_eq (sum_over-net_of bs d.1),
)
  where
    head_value : (k : ℕ) (v w : ℤ) → (if k == k then v else w) ≡ v
    head_value k v w = ground arith

-- What `apply_settlements` promises of the new balances.
pub record IsSettled (before after : List DebtBalance) (ts : List DebtTransfer) : Type 0 where
  pub same_ids : ids after ≡ ids before
  pub closed : IsClosed after
  pub moved :
      (u : ℕ)
      → contains u (ids before) ≡ true
      → net_of u after +ℤ received u ts ≡ net_of u before +ℤ sent u ts

module _ (bs : List DebtBalance) (ts : List DebtTransfer) (d : Dict) (closed : IsClosed bs)
    (within : All (IsWithin (ids bs)) ts) (booked : IsBooked (start bs) d ts) where
  moved_amount : (u : ℕ) → value u d +ℤ received u ts ≡ net_of u bs +ℤ sent u ts
  moved_amount u = booked.moved u ∙ ap (λ z. z +ℤ sent u ts) (start_value bs closed.0 u)

  total_before : sum_over (ids bs) (λ k. net_of k bs) ≡ pos 0
  total_before = rw (sum_over-net_of bs closed.0) closed.1

  rebalanced-IsSettled : IsSettled bs (rebalanced d bs) ts
  rebalanced-IsSettled = record {
    same_ids = ids-rebalanced d bs;
    closed = (
      rw (ids-rebalanced d bs) closed.0,
      net_total-rebalanced d bs
          ∙ omega (
            int_laws,
            parts_of_eq total_before,
            parts_of_eq (sent-eq-received (ids bs) ts closed.0 within),
            parts_of_eq (
                sum_over-add_eq (ids bs) (λ k. value k d) (λ k. received k ts) (λ k. net_of k bs)
                  (λ k. sent k ts) moved_amount),
          ),
    );
    moved = λ u h. rw (net_of-rebalanced d u bs h) (moved_amount u);
  }

-- A call that succeeds, and one that is refused, each with what it says of the arguments.
pub apply_settlements_cases :
    (bs : List DebtBalance) (ts : List DebtTransfer)
    → IsNamed bs
    → (IsClosed bs
        × All (IsWithin (ids bs)) ts
        × ((after : List DebtBalance) × (apply_settlements bs ts ≡ ok after)
            × IsSettled bs after ts))
      ⊎ ((IsClosed bs → ¬ All (IsWithin (ids bs)) ts)
          × (apply_settlements bs ts ≡ err invalid_debt_balance))
unfolding apply_settlements
apply_settlements_cases bs ts named = elim (validate_cases bs) [
  | inr (open_group, refused) ↦ inr ((λ c. absurd (open_group c)), rw refused)
  | inl (closed, passed) ↦ elim (book_all_cases invalid_debt_balance (start bs) ts) [
    | inr refused ↦ inr ((λ c within. booked_anyway within refused), rw (passed, refused))
    | inl h ↦
        let within = IsWithin-members bs ts h in
        let (d, e, booked) = book_all-IsBooked invalid_debt_balance (start bs) ts h in
        let settled = rebalanced-IsSettled bs ts d closed within booked in
        inl (
          closed,
          within,
          (
            rebalanced d bs,
            rw (
              passed,
              e,
              rebalance-ok d bs named,
              validate-IsClosed (rebalanced d bs) settled.closed,
            ),
            settled,
          ),
        )
  ]
]
  where
    booked_anyway :
        All (IsWithin (ids bs)) ts
        → book_all invalid_debt_balance (start bs) ts ≡ err invalid_debt_balance
        → ⊥
    booked_anyway within refused =
        let (d, e, _) =
          book_all-IsBooked invalid_debt_balance (start bs) ts (IsWithin-start bs ts within) in
        cc
