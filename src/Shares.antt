-- ===== src/Shares.antt =====
-- backend/app/services/group_expense_service.py, the split of an expense into shares: the functions
-- `calculate_equal_shares`, `calculate_percentage_shares` and `validate_exact_shares`.
-- A user is the number of its UUID, whose text sorts as the number does. Percentages are basis
-- points. A product of `Decimal` is rounded to the 28 digits of Python's default context.
pub mod Equal
pub mod Percentage
pub mod Decimal
pub mod Exact
mod Tests
use ulutekproje.Common.Int.{ℤ, pos, negsuc, ◌+ℤ◌, ◌-ℤ◌, ltb_ℤ, leb_ℤ, eqb_ℤ}
use ulutekproje.Common.Result.{Result, ok, err, ◌>>=◌, ◌>>◌, raise_if}
use ulutekproje.Common.{
  ℕ, zero, suc, ◌+◌, ◌*◌, ◌/◌, ◌%◌, ◌^◌, Bool, true, false, not, ◌&&◌, ◌||◌, List, [], ◌∷◌, ◌==◌,
  length, leb, ltb, if◌then◌else◌,
}

-- The codes of a `FastSplitValidationError`, and `index_error`: the `IndexError` of an
-- `amounts[index]` out of range in `calculate_percentage_shares`.
pub data SplitError : Type 0 where
  invalid_amount percentage_total_must_be_100 exact_total_must_match_expense : SplitError
  idempotency_key_reused group_not_found group_forbidden currency_mismatch : SplitError
  receipt_not_synced member_not_found invalid_split_type index_error : SplitError

-- `tuple[uuid.UUID, int]`
abbrev pub Share : Type 0
Share = ℕ × ℤ

abbrev pub is_empty {ℓ} : {A : Type ℓ} → List A → Bool
is_empty [] = true
is_empty (x ∷ xs) = false

-- `sum(value for _, value in shares)`
unfoldable pub shares_total : List Share → ℤ
shares_total [] = pos 0
shares_total ((u, v) ∷ ss) = v +ℤ shares_total ss

-- The comprehension of `calculate_equal_shares`, from `index` on.
unfoldable pub deal : ℕ → ℕ → ℕ → List ℕ → List Share
deal quotient remainder index [] = []
deal quotient remainder index (u ∷ us) =
    (u, pos (quotient + (if ltb index remainder then 1 else 0)))
    ∷ deal quotient remainder (suc index) us

-- Behind the guard the total is positive, and `divmod` is that of the natural numbers.
unfoldable pub calculate_equal_shares : ℤ → List ℕ → Result SplitError (List Share)
unfolding deal
calculate_equal_shares (negsuc n) participant_ids = err invalid_amount
calculate_equal_shares (pos total) participant_ids = do
  raise_if (leb total 0 || is_empty participant_ids) invalid_amount
  ok (deal (total / length participant_ids) (total % length participant_ids) 0 participant_ids)

-- The least number with more digits than the context of `Decimal` keeps.
abbrev pub decimal_limit : ℕ
decimal_limit = 10_000_000_000_000_000_000_000_000_000

-- How many digits of a number are beyond the first 28; its value is enough fuel.
unfoldable pub excess_digits : ℕ → ℕ → ℕ
excess_digits zero n = 0
excess_digits (suc fuel) n = elim (ltb n decimal_limit) [
  | true ↦ 0
  | false ↦ suc (excess_digits fuel (n / 10))
]

-- The multiple of `unit` that is closest to `n`, of two the even one: `ROUND_HALF_EVEN`.
abbrev pub half_even : ℕ → ℕ → ℕ
half_even unit n =
    let rest = n % unit in
    let quotient = n / unit in
    let up = ltb unit (2 * rest) || (unit == 2 * rest && quotient % 2 == 1) in
    unit * (if up then suc quotient else quotient)

-- A result of the context, which has 28 digits.
unfoldable pub rounded : ℕ → ℕ
unfolding excess_digits
rounded n = if ltb n decimal_limit then n else half_even (10 ^ excess_digits n n) n

-- `Decimal(total) * value / 10_000`, rounded down: `-(n + 1)` rounds down to `-(n / 10000 + 1)`. The
-- quotient has the digits of the product, so it is not rounded again.
abbrev pub portion : ℕ → ℤ → ℤ
portion total (pos value) = pos (rounded (total * value) / 10_000)
portion total (negsuc value) = pos 0 -ℤ pos ((rounded (total * suc value) + 9_999) / 10_000)

unfoldable pub portions : ℕ → List Share → List Share
unfolding rounded
portions total [] = []
portions total ((u, value) ∷ ps) = (u, portion total value) ∷ portions total ps

-- `for index in range(remainder): amounts[index] += 1`
unfoldable pub add_pennies : ℕ → List Share → Result SplitError (List Share)
add_pennies zero ss = ok ss
add_pennies (suc remainder) [] = err index_error
add_pennies (suc remainder) ((u, v) ∷ ss) = do
  rest ← add_pennies remainder ss
  ok ((u, v +ℤ pos 1) ∷ rest)

-- `range(n)` is empty for a negative `n`.
abbrev pub range_length : ℤ → ℕ
range_length (pos n) = n
range_length (negsuc n) = 0

unfoldable pub calculate_percentage_shares : ℤ → List Share → Result SplitError (List Share)
unfolding shares_total portions add_pennies
calculate_percentage_shares (negsuc n) percentages = err invalid_amount
calculate_percentage_shares (pos total) percentages = do
  raise_if (leb total 0 || is_empty percentages) invalid_amount
  raise_if (not (eqb_ℤ (shares_total percentages) (pos 10_000))) percentage_total_must_be_100
  let amounts = portions total percentages
  add_pennies (range_length (pos total -ℤ shares_total amounts)) amounts

-- `any(value < 0 for _, value in shares)`
abbrev pub any_negative : List Share → Bool
any_negative [] = false
any_negative ((u, v) ∷ ss) = ltb_ℤ v (pos 0) || any_negative ss

-- `sorted(shares, key=lambda item: str(item[0]))`, a stable sort.
unfoldable pub insert_share : Share → List Share → List Share
insert_share s [] = s ∷ []
insert_share s (t ∷ ts) = if leb s.0 t.0 then s ∷ t ∷ ts else t ∷ insert_share s ts

unfoldable pub sort_shares : List Share → List Share
unfolding insert_share
sort_shares [] = []
sort_shares (s ∷ ss) = insert_share s (sort_shares ss)

unfoldable pub validate_exact_shares : ℤ → List Share → Result SplitError (List Share)
unfolding shares_total sort_shares
validate_exact_shares total shares = do
  raise_if (leb_ℤ total (pos 0) || is_empty shares || any_negative shares) invalid_amount
  raise_if (not (eqb_ℤ (shares_total shares) total)) exact_total_must_match_expense
  ok (sort_shares shares)
