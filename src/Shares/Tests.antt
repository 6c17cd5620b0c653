-- ===== src/Shares/Tests.antt =====
-- Three participants share 100, by halves, by thirds of a percentage and by given amounts.
use mathlib.Core.List.{Perm}
use ulutekproje.Common.Int.{pos, ◌+ℤ◌, ◌-ℤ◌, ◌≤ℤ◌}
use ulutekproje.Common.Result.{ok, err}
use ulutekproje.Common.{◌<◌, ◌≡◌, ◌≢◌, refl, ◌↔◌, ◌⊎◌, List, [], ◌∷◌, arith, length, All}
use ulutekproje.Shares.Equal.{users, IsFair, equal_shares_lem}
use ulutekproje.Shares.Percentage.{
  IsExact, Rounds, percentage_shares_lem, percentage_shares_refuses,
}
use ulutekproje.Shares.Exact.{IsSorted, exact_shares_lem}
use ulutekproje.Shares.{
  portions, rounded, excess_digits, add_pennies, index_error, Share, invalid_amount,
  percentage_total_must_be_100, shares_total, calculate_equal_shares, calculate_percentage_shares,
  validate_exact_shares,
}

-- The penny that is left goes to the first.
calculate_equal_shares-three :
    calculate_equal_shares (pos 100) (5 ∷ 6 ∷ 7 ∷ [])
    ≡ ok ((5, pos 34) ∷ (6, pos 33) ∷ (7, pos 33) ∷ [])
unfolding calculate_equal_shares
calculate_equal_shares-three = refl

abbrev thirds : List Share
thirds = (7, pos 3_333) ∷ (5, pos 3_333) ∷ (6, pos 3_334) ∷ []

calculate_percentage_shares-three :
    calculate_percentage_shares (pos 100) thirds ≡ ok ((7, pos 34) ∷ (5, pos 33) ∷ (6, pos 33) ∷ [])
unfolding calculate_percentage_shares ◌+ℤ◌ ◌-ℤ◌
calculate_percentage_shares-three = refl

abbrev amounts : List Share
amounts = (7, pos 60) ∷ (5, pos 40) ∷ []

validate_exact_shares-two :
    validate_exact_shares (pos 100) amounts ≡ ok ((5, pos 40) ∷ (7, pos 60) ∷ [])
unfolding validate_exact_shares ◌+ℤ◌
validate_exact_shares-two = refl

equal_shares_lem_example :
    (ss : List Share) × (calculate_equal_shares (pos 100) (5 ∷ 6 ∷ 7 ∷ []) ≡ ok ss)
    × (shares_total ss ≡ pos 100)
    × (users ss ≡ 5 ∷ 6 ∷ 7 ∷ [])
    × All (IsFair 33) ss
equal_shares_lem_example = equal_shares_lem 100 (5 ∷ 6 ∷ 7 ∷ []) (omega arith) (omega arith)

thirds-IsExact : All (IsExact 100) thirds
thirds-IsExact = (omega arith, (omega arith, (omega arith, tt)))

amounts-IsExact : All (IsExact 100) amounts
amounts-IsExact = (omega arith, (omega arith, tt))

thirds_whole : shares_total thirds ≡ pos 10_000
unfolding shares_total ◌+ℤ◌
thirds_whole = refl

percentage_shares_lem_example :
    (ss : List Share) × (calculate_percentage_shares (pos 100) thirds ≡ ok ss)
    × (shares_total ss ≡ pos 100)
    × Rounds 100 thirds ss
percentage_shares_lem_example =
    percentage_shares_lem 100 thirds (omega arith) (omega arith) thirds_whole thirds-IsExact

amounts_total : shares_total amounts ≡ pos 100
unfolding shares_total ◌+ℤ◌
amounts_total = refl

percentage_shares_refuses_example :
    (calculate_percentage_shares (pos 100) amounts ≡ err percentage_total_must_be_100) ↔ (
      ((percentage_total_must_be_100 ≡ invalid_amount)
        × ((pos 100 ≤ℤ pos 0) ⊎ (length amounts ≡ 0)))
      ⊎ ((percentage_total_must_be_100 ≡ percentage_total_must_be_100)
          × ((pos 1 ≤ℤ pos 100) × (0 < length amounts) × (shares_total amounts ≢ pos 10_000))))
percentage_shares_refuses_example =
    percentage_shares_refuses (pos 100) amounts percentage_total_must_be_100 amounts-IsExact

exact_shares_lem_example :
    (rs : List Share) × (validate_exact_shares (pos 100) amounts ≡ ok rs)
    × Perm rs amounts
    × IsSorted rs
    × (shares_total rs ≡ pos 100)
exact_shares_lem_example = exact_shares_lem (pos 100) amounts (omega arith) amounts_total

-- Beyond 28 digits the rounding leaves more pennies than shares.
percentage_shares-wide :
    calculate_percentage_shares (pos 1_000_000_000_000_000_000_000_000_012_345) thirds
    ≡ err index_error
unfolding calculate_percentage_shares portions rounded excess_digits shares_total add_pennies ◌+ℤ◌
    ◌-ℤ◌
percentage_shares-wide = refl
