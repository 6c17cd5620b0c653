-- ===== src/Debts/Matching.antt =====
-- The matching loop of `simplify`: its end, and the users that its transfers clear.
use ulutekproje.Common.Int.{
  ℤ, pos, ◌+ℤ◌, ◌-ℤ◌, ◌≤ℤ◌, ◌<ℤ◌, min_ℤ, eqb_ℤ, eqb_ℤ_iff, int_laws, parts_of_eq, min_ℤ_cases,
}
use ulutekproje.Common.Result.{Result, ok}
use ulutekproje.Common.{
  ℕ, zero, suc, ◌+◌, ◌-◌, ◌≤◌, ◌≡◌, refl, sym, ◌≢◌, ◌⊎◌, inl, inr, true, false, ◌||◌, List, [], ◌∷◌,
  arith, ◌==◌, contains, length, All, Bool-cases, if◌then◌else◌,
}
use ulutekproje.Debts.Heap.{Item, heappush}
use ulutekproje.Debts.Queue.{
  open_at, open_total, users, IsNegative, open_at-heappush, open_total-heappush, contains-heappush,
  length-heappush, heappush-IsNegative,
}
use ulutekproje.Debts.{DebtError, DebtTransfer, make_transfer, push_open, match_all}

-- What a user pays, and gets, under a list of transfers.
unfoldable pub sent : ℕ → List DebtTransfer → ℤ
sent u [] = pos 0
sent u (t ∷ ts) = if u == t.from_user_id then t.amount_in_minor +ℤ sent u ts else sent u ts

unfoldable pub received : ℕ → List DebtTransfer → ℤ
received u [] = pos 0
received u (t ∷ ts) =
    if u == t.to_user_id then t.amount_in_minor +ℤ received u ts else received u ts

-- `push_open` puts back what remains.
module _ (r : ℤ) (i : ℕ) (h : List Item) where
  push_open_cases :
      (r ≡ pos 0) × (push_open r i h ≡ h)
      ⊎ (r ≢ pos 0) × (push_open r i h ≡ heappush (pos 0 -ℤ r, i) h)
  unfolding push_open
  push_open_cases = elim (Bool-cases (eqb_ℤ r (pos 0))) [
    | inl z ↦ inl ((eqb_ℤ_iff r (pos 0)).0 z, rw z)
    | inr nz ↦ inr ((λ e. cc ((eqb_ℤ_iff r (pos 0)).1 e)), rw nz)
  ]

  open_at-push_open :
      (u : ℕ) → open_at u (push_open r i h) ≡ (if u == i then open_at u h -ℤ r else open_at u h)
  open_at-push_open u = elim push_open_cases [
    | inl (z, e) ↦ rw (e, z) (grind int_laws)
    | inr (nz, e) ↦ rw (e, open_at-heappush (pos 0 -ℤ r) i u h) (grind int_laws)
  ]

  open_total-push_open : open_total (push_open r i h) ≡ open_total h -ℤ r
  open_total-push_open = elim push_open_cases [
    | inl (z, e) ↦ rw (e, z) (omega int_laws)
    | inr (nz, e) ↦ rw (e, open_total-heappush (pos 0 -ℤ r) i h) (omega int_laws)
  ]

  users-push_open :
      (u : ℕ)
      → contains u (users (push_open r i h)) ≡ true
      → (u == i || contains u (users h)) ≡ true
  users-push_open u m = elim push_open_cases [
    | inl (z, e) ↦ ground (arith, rw e at m)
    | inr (nz, e) ↦ ground (arith, rw e at m, contains-heappush (pos 0 -ℤ r) i u h)
  ]

  push_open-IsNegative : pos 0 ≤ℤ r → All IsNegative h → All IsNegative (push_open r i h)
  push_open-IsNegative nonneg n = elim push_open_cases [
    | inl (z, e) ↦ rw e n
    | inr (nz, e) ↦ rw e (heappush-IsNegative (pos 0 -ℤ r) i h (grind (int_laws, nz)) n)
  ]

  -- A settled user leaves the heap.
  length-push_open :
      length (push_open r i h) ≡ (if eqb_ℤ r (pos 0) then length h else suc (length h))
  unfolding push_open
  length-push_open = elim (Bool-cases (eqb_ℤ r (pos 0))) [
    | inl z ↦ rw z
    | inr nz ↦ rw nz (length-heappush (pos 0 -ℤ r) i h)
  ]

-- Two heaps that can be matched: only open debts, as much owed as owing, nobody on both sides.
pub record IsMatchable (owing owed : List Item) : Type 0 where
  pub owing_open : All IsNegative owing
  pub owed_open : All IsNegative owed
  pub balanced : open_total owing ≡ open_total owed
  pub apart : (u : ℕ) → contains u (users owing) ≡ true → contains u (users owed) ≡ false
  pub owing_named : contains 0 (users owing) ≡ false
  pub owed_named : contains 0 (users owed) ≡ false

-- A positive payment from a user of one heap to a user of the other.
abbrev pub IsPayment : List Item → List Item → DebtTransfer → Type 0
IsPayment owing owed t =
    (contains t.from_user_id (users owing) ≡ true)
    × (contains t.to_user_id (users owed) ≡ true)
    × (pos 1 ≤ℤ t.amount_in_minor)

-- What the loop promises of its transfers.
pub record Clears (owing owed : List Item) (ts : List DebtTransfer) : Type 0 where
  pub pays : (u : ℕ) → open_at u owing +ℤ sent u ts ≡ pos 0
  pub gets : (u : ℕ) → open_at u owed +ℤ received u ts ≡ pos 0
  pub count : length ts ≤ length owing + length owed - 1
  pub payments : All (IsPayment owing owed) ts

-- The amount of a round, from the heads' priorities.
record IsAmount (p q a : ℤ) : Type 0 where
  some_moved : pos 1 ≤ℤ a
  debt_left : pos 0 ≤ℤ pos 0 -ℤ p -ℤ a
  credit_left : pos 0 ≤ℤ pos 0 -ℤ q -ℤ a
  one_settled : (pos 0 -ℤ p -ℤ a ≡ pos 0) ⊎ (pos 0 -ℤ q -ℤ a ≡ pos 0)

min-IsAmount : (p q : ℤ) → p <ℤ pos 0 → q <ℤ pos 0 → IsAmount p q (min_ℤ (pos 0 -ℤ p) (pos 0 -ℤ q))
min-IsAmount p q hp hq = elim (min_ℤ_cases (pos 0 -ℤ p) (pos 0 -ℤ q)) [
  | inl (e, le) ↦ rw e (record {
    some_moved = omega int_laws;
    debt_left = omega int_laws;
    credit_left = omega int_laws;
    one_settled = inl (omega int_laws);
  })
  | inr (e, le) ↦ rw e (record {
    some_moved = omega int_laws;
    debt_left = omega int_laws;
    credit_left = omega int_laws;
    one_settled = inr (omega int_laws);
  })
]

-- One round: the heads are `(p, i)` and `(q, j)`.
module _ (p q a : ℤ) (i j : ℕ) (ds cs : List Item) where
  abbrev owing_next : List Item
  owing_next = push_open (pos 0 -ℤ p -ℤ a) i ds

  abbrev owed_next : List Item
  owed_next = push_open (pos 0 -ℤ q -ℤ a) j cs

  abbrev transfer : DebtTransfer
  transfer = record { from_user_id = i; to_user_id = j; amount_in_minor = a }

  module _ (m : IsMatchable ((p, i) ∷ ds) ((q, j) ∷ cs)) (amt : IsAmount p q a) where
    make_transfer-round : make_transfer i j a ≡ ok transfer
    unfolding make_transfer
    make_transfer-round = ground (arith, m.apart i, m.owing_named, m.owed_named, amt.some_moved)

    still_owing :
        (u : ℕ) → contains u (users owing_next) ≡ true → contains u (users ((p, i) ∷ ds)) ≡ true
    still_owing u e = users-push_open (pos 0 -ℤ p -ℤ a) i ds u e

    still_owed :
        (u : ℕ) → contains u (users owed_next) ≡ true → contains u (users ((q, j) ∷ cs)) ≡ true
    still_owed u e = users-push_open (pos 0 -ℤ q -ℤ a) j cs u e

    heads_balanced : p +ℤ open_total ds ≡ q +ℤ open_total cs
    unfolding open_total
    heads_balanced = m.balanced

    round-IsMatchable : IsMatchable owing_next owed_next
    round-IsMatchable = record {
      owing_open = push_open-IsNegative _ i ds amt.debt_left m.owing_open.1;
      owed_open = push_open-IsNegative _ j cs amt.credit_left m.owed_open.1;
      balanced =
          rw
            (
              open_total-push_open (pos 0 -ℤ p -ℤ a) i ds,
              open_total-push_open (pos 0 -ℤ q -ℤ a) j cs,
            )
            (omega (int_laws, parts_of_eq heads_balanced));
      apart = λ u e. ground (arith, m.apart u (still_owing u e), still_owed u);
      owing_named = ground (arith, m.owing_named, still_owing 0);
      owed_named = ground (arith, m.owed_named, still_owed 0);
    }

    length-round : suc (length owing_next + length owed_next) ≤ length ((p, i) ∷ ds) + length cs + 1
    length-round =
        rw (length-push_open (pos 0 -ℤ p -ℤ a) i ds, length-push_open (pos 0 -ℤ q -ℤ a) j cs)
          (ground (arith, amt.one_settled))

    payments_mono :
        (ts : List DebtTransfer)
        → All (IsPayment owing_next owed_next) ts
        → All (IsPayment ((p, i) ∷ ds) ((q, j) ∷ cs)) ts
    payments_mono [] h = tt
    payments_mono (t ∷ ts) h = (
      (still_owing t.from_user_id h.0.0, still_owed t.to_user_id h.0.1, h.0.2),
      payments_mono ts h.1,
    )

    Clears-round :
        (ts : List DebtTransfer)
        → Clears owing_next owed_next ts
        → Clears ((p, i) ∷ ds) ((q, j) ∷ cs) (transfer ∷ ts)
    Clears-round ts c = record {
      pays = λ u.
          unfold open_at sent in
          (grind (int_laws, c.pays u, open_at-push_open (pos 0 -ℤ p -ℤ a) i ds u));
      gets = λ u.
          unfold open_at received in
          (grind (int_laws, c.gets u, open_at-push_open (pos 0 -ℤ q -ℤ a) j cs u));
      count = omega (arith, c.count, length-round);
      payments = ((ground arith, ground arith, amt.some_moved), payments_mono ts c.payments);
    }

-- An open total of zero means that nothing is open.
total_nonpos : (h : List Item) → All IsNegative h → open_total h ≤ℤ pos 0
unfolding open_total
total_nonpos [] n = omega arith
total_nonpos ((p, i) ∷ h) n = omega (int_laws, n.0, total_nonpos h n.1)

nothing_open : (h : List Item) → All IsNegative h → open_total h ≡ pos 0 → h ≡ []
unfolding open_total
nothing_open [] n e = refl
nothing_open ((p, i) ∷ h) n e = absurd (omega (int_laws, n.0, total_nonpos h n.1, parts_of_eq e))

abbrev Returns : List Item → List Item → Result DebtError (List DebtTransfer) → Type 0
Returns owing owed r = (ts : List DebtTransfer) × (r ≡ ok ts) × Clears owing owed ts

Clears-nil : Clears [] [] []
unfolding open_at sent received
Clears-nil = record {
  pays = λ u. omega int_laws;
  gets = λ u. omega int_laws;
  count = omega arith;
  payments = tt;
}

-- With rounds for every item the loop ends, and its transfers clear both heaps.
pub match_all-Clears :
    (fuel : ℕ) (owing owed : List Item)
    → length owing + length owed ≤ fuel
    → IsMatchable owing owed
    → Returns owing owed (match_all fuel owing owed)
unfolding match_all open_total
match_all-Clears fuel [] owed h m =
    rw (nothing_open owed m.owed_open (sym m.balanced)) ([], refl, Clears-nil)
match_all-Clears fuel (d ∷ ds) [] h m =
    rw (nothing_open (d ∷ ds) m.owing_open m.balanced) ([], refl, Clears-nil)
match_all-Clears zero (d ∷ ds) (c ∷ cs) h m = absurd (omega arith)
match_all-Clears (suc fuel) ((p, i) ∷ ds) ((q, j) ∷ cs) h m =
    let a = min_ℤ (pos 0 -ℤ p) (pos 0 -ℤ q) in
    let amt = min-IsAmount p q m.owing_open.0 m.owed_open.0 in
    let (ts, e, c) =
      match_all-Clears fuel (owing_next p q a i j ds cs) (owed_next p q a i j ds cs)
        (omega (arith, length-round p q a i j ds cs m amt))
        (round-IsMatchable p q a i j ds cs m amt) in
    (
      transfer p q a i j ds cs ∷ ts,
      rw (make_transfer-round p q a i j ds cs m amt, e),
      Clears-round p q a i j ds cs m amt ts c,
    )
