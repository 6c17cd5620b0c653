-- ===== src/Shares/Percentage.antt =====
-- `calculate_percentage_shares`: the pennies that rounding down leaves, and who gets them.
use ulutekproje.Common.Int.{
  ℤ, pos, negsuc, pos_part, neg_part, ◌+ℤ◌, ◌-ℤ◌, ◌≤ℤ◌, eqb_ℤ, eqb_ℤ_iff, int_laws, parts_of_eq,
  +ℤ_parts, -ℤ_parts,
}
use ulutekproje.Common.Result.{ok, err}
use ulutekproje.Common.{
  ℕ, zero, suc, ◌+◌, ◌*◌, true, ltb, All, ◌≤◌, ◌<◌, ◌≡◌, refl, ap, ◌↔◌, ◌⊎◌, inl, inr, ◌≢◌, List,
  [], ◌∷◌, arith, length, leb-suc_zero, Bool-cases,
}
use ulutekproje.Shares.{
  Share, SplitError, invalid_amount, percentage_total_must_be_100, shares_total, portion, portions,
  add_pennies, range_length, rounded, decimal_limit, calculate_percentage_shares,
}

rounded-exact : (n : ℕ) → n < decimal_limit → rounded n ≡ n
unfolding rounded
rounded-exact n h = let small : ltb n decimal_limit ≡ true = ground (arith, h) in rw small refl

-- The product of the total and a percentage has at most 28 digits.
abbrev pub IsExact : ℕ → Share → Type 0
IsExact t p = t * (pos_part p.1 + neg_part p.1) < decimal_limit

-- Rounding down loses less than one.
portion_le :
    (t u : ℕ) (v : ℤ)
    → IsExact t (u, v)
    → 10_000 * pos_part (portion t v) + t * neg_part v
      ≤ t * pos_part v + 10_000 * neg_part (portion t v)
unfolding ◌-ℤ◌
portion_le t u (pos v) h = rw (rounded-exact (t * v) (omega (arith, h))) (omega arith)
portion_le t u (negsuc v) h = rw (rounded-exact (t * suc v) (omega (arith, h))) (ground arith)

portion_lt :
    (t u : ℕ) (v : ℤ)
    → IsExact t (u, v)
    → t * pos_part v + 10_000 * neg_part (portion t v)
      ≤ 10_000 * pos_part (portion t v) + t * neg_part v + 9_999
unfolding ◌-ℤ◌
portion_lt t u (pos v) h = rw (rounded-exact (t * v) (omega (arith, h))) (omega arith)
portion_lt t u (negsuc v) h = rw (rounded-exact (t * suc v) (omega (arith, h))) (ground arith)

module _ (t : ℕ) where
  length-portions : (ps : List Share) → length (portions t ps) ≡ length ps
  unfolding portions
  length-portions [] = refl
  length-portions ((u, v) ∷ ps) = rw (length-portions ps)

  portions_le :
      (ps : List Share)
      → All (IsExact t) ps
      → let sum = shares_total (portions t ps) in
        let given = shares_total ps in
        10_000 * pos_part sum + t * neg_part given ≤ t * pos_part given + 10_000 * neg_part sum
  unfolding portions shares_total
  portions_le [] exact = omega arith
  portions_le ((u, v) ∷ ps) exact =
      let given = shares_total ps in
      let sum = shares_total (portions t ps) in
      omega (
        arith,
        portion_le t u v exact.0,
        portions_le ps exact.1,
        +ℤ_parts (portion t v) sum,
        ap (λ (x : ℕ). t * x) (+ℤ_parts v given),
      )

  portions_lt :
      (ps : List Share)
      → All (IsExact t) ps
      → let sum = shares_total (portions t ps) in
        let given = shares_total ps in
        t * pos_part given + 10_000 * neg_part sum
        ≤ 10_000 * pos_part sum + t * neg_part given + 9_999 * length ps
  unfolding portions shares_total
  portions_lt [] exact = omega arith
  portions_lt ((u, v) ∷ ps) exact =
      let given = shares_total ps in
      let sum = shares_total (portions t ps) in
      omega (
        arith,
        portion_lt t u v exact.0,
        portions_lt ps exact.1,
        +ℤ_parts (portion t v) sum,
        ap (λ (x : ℕ). t * x) (+ℤ_parts v given),
      )

-- Each share is its portion rounded down, or a penny more, for the same user.
abbrev pub Rounds : ℕ → List Share → List Share → Type 0
Rounds t [] [] = Unit
Rounds t [] (s ∷ ss) = ⊥
Rounds t (p ∷ ps) [] = ⊥
Rounds t (p ∷ ps) (s ∷ ss) =
    (s.0 ≡ p.0) × ((s.1 ≡ portion t p.1) ⊎ (s.1 ≡ portion t p.1 +ℤ pos 1)) × Rounds t ps ss

module _ (t : ℕ) where
  pub portions-Rounds : (ps : List Share) → Rounds t ps (portions t ps)
  unfolding portions
  portions-Rounds [] = tt
  portions-Rounds ((u, v) ∷ ps) = (refl, inl refl, portions-Rounds ps)

  -- As many pennies as there are shares, or fewer, can be given.
  add_pennies_lem :
      (k : ℕ) (ps : List Share)
      → k ≤ length ps
      → (ss : List Share) × (add_pennies k (portions t ps) ≡ ok ss)
        × (shares_total ss ≡ shares_total (portions t ps) +ℤ pos k)
        × Rounds t ps ss
  unfolding add_pennies portions shares_total
  add_pennies_lem zero ps h = (portions t ps, refl, omega int_laws, portions-Rounds ps)
  add_pennies_lem (suc k) [] h = absurd (omega arith)
  add_pennies_lem (suc k) ((u, v) ∷ ps) h =
      let (ss, e, total, rounds) = add_pennies_lem k ps (omega arith) in
      (
        (u, portion t v +ℤ pos 1) ∷ ss,
        rw e,
        omega (int_laws, parts_of_eq total),
        (refl, inr refl, rounds),
      )

-- What the loop has to give back: at least nothing, and less than a penny a share.
remainder_bounds :
    (t : ℕ) (ps : List Share)
    → 0 < length ps
    → shares_total ps ≡ pos 10_000
    → All (IsExact t) ps
    → let rest = pos t -ℤ shares_total (portions t ps) in
      (rest ≡ pos (range_length rest)) × (range_length rest < length ps)
remainder_bounds t ps n whole small =
    nonneg_range (pos t -ℤ shares_total (portions t ps))
      (omega
        (arith, portions_le t ps small, given, -ℤ_parts (pos t) (shares_total (portions t ps))))
      (omega
        (arith, portions_lt t ps small, given, -ℤ_parts (pos t) (shares_total (portions t ps))))
  where
    given : t * pos_part (shares_total ps) ≡ t * neg_part (shares_total ps) + 10_000 * t
    given = omega (arith, ap (λ (x : ℕ). t * x) (parts_of_eq whole))

    nonneg_range :
        (z : ℤ)
        → pos 0 ≤ℤ z
        → pos_part z < length ps + neg_part z
        → (z ≡ pos (range_length z)) × (range_length z < length ps)
    nonneg_range (pos k) lo hi = (refl, omega arith)
    nonneg_range (negsuc k) lo hi = absurd (omega arith)

-- A positive total is split by percentages that add up to 10000 basis points, if no product of the
-- total and a percentage has more than 28 digits: every user gets the portion rounded down or a penny
-- more, and together they get the total. No index is out of range.
pub percentage_shares_lem :
    (total : ℕ) (ps : List Share)
    → 0 < total
    → 0 < length ps
    → shares_total ps ≡ pos 10_000
    → All (IsExact total) ps
    → (ss : List Share) × (calculate_percentage_shares (pos total) ps ≡ ok ss)
      × (shares_total ss ≡ pos total)
      × Rounds total ps ss
unfolding calculate_percentage_shares
percentage_shares_lem zero ps h n whole small = absurd (omega arith)
percentage_shares_lem (suc t) [] h n whole small = absurd (omega arith)
percentage_shares_lem (suc t) (p ∷ ps) h n whole small =
    let rest = pos (suc t) -ℤ shares_total (portions (suc t) (p ∷ ps)) in
    let (exact, few) = remainder_bounds (suc t) (p ∷ ps) n whole small in
    let (ss, e, total, rounds) =
      add_pennies_lem (suc t) (range_length rest) (p ∷ ps) (omega (arith, few)) in
    (
      ss,
      rw (leb-suc_zero t, (eqb_ℤ_iff (shares_total (p ∷ ps)) (pos 10_000)).1 whole) e,
      omega (int_laws, parts_of_eq total, parts_of_eq exact),
      rounds,
    )

-- If no product of the total and a percentage has more than 28 digits, then without a positive total
-- or without percentages the split is refused as an invalid amount, otherwise for percentages that do
-- not add up to 10000 basis points, and never for another reason.
pub percentage_shares_refuses :
    (total : ℤ) (ps : List Share) (e : SplitError)
    → All (IsExact (pos_part total)) ps
    → (calculate_percentage_shares total ps ≡ err e) ↔ (
        ((e ≡ invalid_amount) × ((total ≤ℤ pos 0) ⊎ (length ps ≡ 0)))
        ⊎ ((e ≡ percentage_total_must_be_100)
            × ((pos 1 ≤ℤ total) × (0 < length ps) × (shares_total ps ≢ pos 10_000))))
unfolding calculate_percentage_shares
percentage_shares_refuses (negsuc n) ps e small = (
  (λ h. inl (cc, inl (omega arith))),
  λ cases. elim cases [ inl (e', _) ↦ rw e' | inr (_, (h, _, _)) ↦ absurd (omega (arith, h)) ],
)
percentage_shares_refuses (pos zero) ps e small = (
  (λ h. inl (cc, inl (omega arith))),
  λ cases. elim cases [ inl (e', _) ↦ rw e' | inr (_, (h, _, _)) ↦ absurd (omega (arith, h)) ],
)
percentage_shares_refuses (pos (suc t)) [] e small = (
  (λ h. inl (cc (leb-suc_zero t, h), inr refl)),
  λ cases. elim cases [
    | inl (e', _) ↦ rw (leb-suc_zero t, e')
    | inr (_, (_, n, _)) ↦ absurd (omega (arith, n))
  ],
)
percentage_shares_refuses (pos (suc t)) (p ∷ ps) e small =
    elim (Bool-cases (eqb_ℤ (shares_total (p ∷ ps)) (pos 10_000))) [
      | inl h ↦
          let whole = (eqb_ℤ_iff (shares_total (p ∷ ps)) (pos 10_000)).0 h in
          let (ss, e', sum, rounds) =
            percentage_shares_lem (suc t) (p ∷ ps) (omega arith) (omega arith) whole small in
          (
            (λ h. cc),
            λ cases. elim cases [
              | inl (_, bad) ↦ absurd (omega arith)
              | inr (_, (_, _, off)) ↦ absurd (off whole)
            ],
          )
      | inr differs ↦ (
        (λ h. inr (
          cc (leb-suc_zero t, differs, h),
          (
            omega arith,
            omega arith,
            λ whole. cc (differs, (eqb_ℤ_iff (shares_total (p ∷ ps)) (pos 10_000)).1 whole),
          ),
        )),
        λ cases. elim cases [
          | inl (_, bad) ↦ absurd (omega arith)
          | inr (e', _) ↦ rw (leb-suc_zero t, differs, e')
        ],
      )
    ]
