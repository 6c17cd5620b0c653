-- ===== src/Shares/Decimal.antt =====
-- The shares of `calculate_percentage_shares` where the context of `Decimal` rounds, beside the BIGINT
-- columns that would hold them.
use ulutekproje.Common.Int.{
  ℤ, pos, negsuc, max_bigint, eqb_ℤ, ◌+ℤ◌, ◌-ℤ◌, ◌≤ℤ◌, int_laws, parts_of_eq,
}
use ulutekproje.Common.Result.{ok, Result-cases}
use ulutekproje.Common.{
  ℕ, zero, suc, ◌+◌, ◌*◌, ◌/◌, ◌%◌, ◌^◌, ◌≤◌, ◌<◌, ◌≡◌, refl, sym, ◌⊎◌, inl, inr, false, ◌&&◌, ◌||◌,
  List, [], ◌∷◌, arith, ◌==◌, leb, ltb, All, Bool-cases,
}
use ulutekproje.Shares.{
  Share, decimal_limit, excess_digits, half_even, rounded, portion, portions, add_pennies,
  range_length, shares_total, is_empty, calculate_percentage_shares,
}
use ulutekproje.Shares.Percentage.{IsExact, Rounds, portions-Rounds}

abbrev digits_27 : ℕ
digits_27 = 1_000_000_000_000_000_000_000_000_000

-- The unit of the last digit kept is small beside the number.
excess_digits_le : (fuel n : ℕ) → digits_27 ≤ n → 10 ^ excess_digits fuel n * digits_27 ≤ n
unfolding excess_digits
excess_digits_le zero n h = omega (arith, h)
excess_digits_le (suc fuel) n h = elim (Bool-cases (ltb n decimal_limit)) [
  | inl small ↦ rw (small, excess_digits) (omega (arith, h))
  | inr large ↦
      let big : decimal_limit ≤ n = ground (arith, large) in
      let rest = excess_digits_le fuel (n / 10) (omega (arith, big)) in
      rw (large, excess_digits) (omega (arith, rest))
]

one_le_power : (k : ℕ) → 1 ≤ 10 ^ k
one_le_power zero = omega arith
one_le_power (suc k) = omega (arith, one_le_power k)

half_even_ge : (unit n : ℕ) → 1 ≤ unit → n ≤ half_even unit n + unit
half_even_ge unit n h =
    elim (Bool-cases (ltb unit (2 * (n % unit)) || (unit == 2 * (n % unit) && n / unit % 2 == 1))) [
      | inl up ↦ rw up (omega (arith, h))
      | inr down ↦ rw down (omega (arith, h))
    ]

rounded_large : (n : ℕ) → decimal_limit ≤ n → 100_000_000_000_000_000_000_000 ≤ rounded n
unfolding rounded
rounded_large n h =
    let large : ltb n decimal_limit ≡ false = ground (arith, h) in
    let unit = 10 ^ excess_digits n n in
    let few = excess_digits_le n n (omega (arith, h)) in
    let some_unit : 1 ≤ unit = one_le_power (excess_digits n n) in
    rw large (omega (arith, h, few, some_unit, half_even_ge unit n some_unit))

-- A share that a BIGINT column with its check holds.
abbrev pub IsFit : Share → Type 0
IsFit s = (pos 0 ≤ℤ s.1) × (s.1 ≤ℤ max_bigint)

small_product : (n : ℕ) → rounded n < 100_000_000_000_000_000_000_000 → n < decimal_limit
small_product n h = elim (Bool-cases (ltb n decimal_limit)) [
  | inl small ↦ ground (arith, small)
  | inr large ↦ let big = rounded_large n (ground (arith, large)) in absurd (omega (arith, h, big))
]

IsFit-IsExact :
    (t u : ℕ) (v w : ℤ)
    → (w ≡ portion t v) ⊎ (w ≡ portion t v +ℤ pos 1)
    → IsFit (u, w)
    → IsExact t (u, v)
IsFit-IsExact t u (pos v) w (inl e) fit =
    let small = small_product (t * v) (omega (int_laws, fit.0, fit.1, parts_of_eq e)) in
    omega (arith, small)
IsFit-IsExact t u (pos v) w (inr e) fit =
    let small = small_product (t * v) (omega (int_laws, fit.0, fit.1, parts_of_eq e)) in
    omega (arith, small)
IsFit-IsExact t u (negsuc v) w (inl e) fit =
    let small = small_product (t * suc v) (omega (int_laws, fit.0, fit.1, parts_of_eq e)) in
    omega (arith, small)
IsFit-IsExact t u (negsuc v) w (inr e) fit =
    let small = small_product (t * suc v) (omega (int_laws, fit.0, fit.1, parts_of_eq e)) in
    omega (arith, small)

Rounds-IsExact : (t : ℕ) (ps ss : List Share) → Rounds t ps ss → All IsFit ss → All (IsExact t) ps
Rounds-IsExact t [] ss rounds fit = tt
Rounds-IsExact t (p ∷ ps) [] rounds fit = absurd rounds
Rounds-IsExact t ((u, v) ∷ ps) ((u', w) ∷ ss) rounds fit =
    (IsFit-IsExact t u v w rounds.1 fit.0, Rounds-IsExact t ps ss rounds.2 fit.1)

add_pennies-Rounds :
    (t k : ℕ) (ps ss : List Share) → add_pennies k (portions t ps) ≡ ok ss → Rounds t ps ss
unfolding add_pennies portions
add_pennies-Rounds t zero ps ss h =
    let same : portions t ps ≡ ss = cc h in rw (sym same) (portions-Rounds t ps)
add_pennies-Rounds t (suc k) [] ss h = absurd cc
add_pennies-Rounds t (suc k) ((u, v) ∷ ps) ss h =
    elim (Result-cases (add_pennies k (portions t ps))) [
      | inr (e, raised) ↦ absurd (cc (raised, h))
      | inl (rs, rest) ↦
          let same : (u, portion t v +ℤ pos 1) ∷ rs ≡ ss = cc (rest, h) in
          rw (sym same) (refl, inr refl, add_pennies-Rounds t k ps rs rest)
    ]

-- So no product was rounded where the shares are held.
pub calculated-IsExact :
    (t : ℕ) (ps ss : List Share)
    → calculate_percentage_shares (pos t) ps ≡ ok ss
    → All IsFit ss
    → All (IsExact t) ps
unfolding calculate_percentage_shares
calculated-IsExact t ps ss h fit = elim (Bool-cases (leb t 0 || is_empty ps)) [
  | inl bad ↦ absurd (cc (bad, h))
  | inr fine ↦ elim (Bool-cases (eqb_ℤ (shares_total ps) (pos 10_000))) [
    | inr differs ↦ absurd (cc (fine, differs, h))
    | inl hundred ↦
        let k = range_length (pos t -ℤ shares_total (portions t ps)) in
        let given : add_pennies k (portions t ps) ≡ ok ss = cc (fine, hundred, h) in
        Rounds-IsExact t ps ss (add_pennies-Rounds t k ps ss given) fit
  ]
]
