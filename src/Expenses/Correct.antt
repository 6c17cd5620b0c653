-- ===== src/Expenses/Correct.antt =====
-- What `create_fast_split` promises of the expense that it adds.
use ulutekproje.Common.Int.{ℤ, pos, negsuc, leb_ℤ, eqb_ℤ, eqb_ℤ_iff}
use ulutekproje.Common.Result.{ok, Result-cases}
use ulutekproje.Common.{
  ℕ, zero, suc, ◌≡◌, refl, sym, ◌∙◌, inl, inr, Option, none, some, false, ◌||◌, List, [], ◌∷◌,
  arith, All, Bool-cases, Option-cases,
}
use ulutekproje.Records.{
  Group, GroupExpense, ExpenseSplitType, equal, percentage, fixed_amount, itemized, get_group,
}
use ulutekproje.Shares.{
  Share, is_empty, shares_total, any_negative, sort_shares, calculate_equal_shares,
  calculate_percentage_shares, validate_exact_shares,
}
use ulutekproje.Shares.Equal.{equal_shares_lem}
use ulutekproje.Shares.Percentage.{percentage_shares_lem}
use ulutekproje.Shares.Decimal.{IsFit, calculated-IsExact}
use ulutekproje.Shares.Exact.{shares_total-sort_shares}
use ulutekproje.Expenses.{
  Ledger, CreateExpense, participant_ids, given_values, calculate_shares, check_fast_split,
  new_expense, create_new, find_existing, create_fast_split, same_key, violates, bad_shares,
  record_expense,
}

equal_shares-total :
    (total : ℤ) (us : List ℕ) (ss : List Share)
    → calculate_equal_shares total us ≡ ok ss
    → shares_total ss ≡ total
unfolding calculate_equal_shares
equal_shares-total (negsuc n) us ss h = absurd cc
equal_shares-total (pos zero) us ss h = absurd cc
equal_shares-total (pos (suc n)) [] ss h = absurd (ground arith)
equal_shares-total (pos (suc n)) (u ∷ us) ss h =
    let (ss', done, total, _, _) = equal_shares_lem (suc n) (u ∷ us) (omega arith) (omega arith) in
    let same : ss' ≡ ss = cc (sym done ∙ h) in rw (sym same) total

percentage_shares-total :
    (total : ℤ) (ps ss : List Share)
    → calculate_percentage_shares total ps ≡ ok ss
    → All IsFit ss
    → shares_total ss ≡ total
unfolding calculate_percentage_shares
percentage_shares-total (negsuc n) ps ss h fit = absurd cc
percentage_shares-total (pos zero) ps ss h fit = absurd cc
percentage_shares-total (pos (suc n)) [] ss h fit = absurd (ground arith)
percentage_shares-total (pos (suc n)) (p ∷ ps) ss h fit =
    elim (Bool-cases (eqb_ℤ (shares_total (p ∷ ps)) (pos 10_000))) [
      | inr differs ↦ absurd (ground (arith, differs, h))
      | inl hundred ↦
          let (ss', done, total, _) =
            percentage_shares_lem (suc n) (p ∷ ps) (omega arith) (omega arith)
              ((eqb_ℤ_iff (shares_total (p ∷ ps)) (pos 10_000)).0 hundred)
              (calculated-IsExact (suc n) (p ∷ ps) ss h fit) in
          let same : ss' ≡ ss = cc (sym done ∙ h) in rw (sym same) total
    ]

exact_shares-total :
    (total : ℤ) (ps ss : List Share)
    → validate_exact_shares total ps ≡ ok ss
    → shares_total ss ≡ total
unfolding validate_exact_shares
exact_shares-total total ps ss h =
    elim (Bool-cases (leb_ℤ total (pos 0) || is_empty ps || any_negative ps)) [
      | inl bad ↦ absurd (cc (bad, h))
      | inr fine ↦ elim (Bool-cases (eqb_ℤ (shares_total ps) total)) [
        | inr differs ↦ absurd (cc (fine, differs, h))
        | inl equals ↦
            let same : sort_shares ps ≡ ss = cc (fine, equals, h) in
            rw (sym same)
              (shares_total-sort_shares ps ∙ (eqb_ℤ_iff (shares_total ps) total).0 equals)
      ]
    ]

-- The flush refuses shares that are not fit for their column.
bad_shares-IsFit : (ss : List Share) → bad_shares ss ≡ false → All IsFit ss
unfolding bad_shares
bad_shares-IsFit [] fine = tt
bad_shares-IsFit ((u, v) ∷ ss) fine =
    ((ground (arith, fine), ground (arith, fine)), bad_shares-IsFit ss (ground (arith, fine)))

pub calculate_shares-total :
    (kind : ExpenseSplitType) (total : ℤ) (ps : List (ℕ × Option ℤ)) (ss : List Share)
    → calculate_shares kind total ps ≡ ok ss
    → bad_shares ss ≡ false
    → shares_total ss ≡ total
unfolding calculate_shares
calculate_shares-total equal total ps ss h fine = equal_shares-total total (participant_ids ps) ss h
calculate_shares-total percentage total ps ss h fine =
    percentage_shares-total total (given_values ps) ss h (bad_shares-IsFit ss fine)
calculate_shares-total fixed_amount total ps ss h fine =
    exact_shares-total total (given_values ps) ss h
calculate_shares-total itemized total ps ss h fine = absurd cc

-- What a `create_fast_split` that adds an expense has checked and done.
pub record Created (new_id now : ℕ) (l : Ledger) (r : CreateExpense) (e : GroupExpense)
    (l' : Ledger) : Type 0 where
  pub group : Group
  pub shares : List Share
  pub fresh : find_existing r l.tables.expenses ≡ none
  pub found : get_group r.group_id l.tables.groups ≡ some group
  pub checked : check_fast_split group l.receipts r ≡ ok shares
  pub fits : violates e l.tables.expenses ≡ false
  pub row : new_expense new_id now r shares ≡ e
  pub result : record l { tables = record_expense l.tables r.actor_user_id e } ≡ l'

pub create_fast_split-Created :
    (new_id now : ℕ) (l : Ledger) (r : CreateExpense) (e : GroupExpense) (l' : Ledger)
    → create_fast_split new_id now l r ≡ ok ((e, false), l')
    → Created new_id now l r e l'
unfolding create_fast_split create_new
create_fast_split-Created new_id now l r e l' h =
    elim (Option-cases (find_existing r l.tables.expenses)) [
      | inr (x, existing) ↦
          elim (Bool-cases (same_key x.idempotency_request_hash r.idempotency_request_hash)) [
            | inl same ↦ absurd (cc (existing, same, h))
            | inr reused ↦ absurd (cc (existing, reused, h))
          ]
      | inl fresh ↦ elim (Option-cases (get_group r.group_id l.tables.groups)) [
        | inl missing ↦ absurd (cc (fresh, missing, h))
        | inr (g, found) ↦ elim (Result-cases (check_fast_split g l.receipts r)) [
          | inr (x, raised) ↦ absurd (cc (fresh, found, raised, h))
          | inl (ss, checked) ↦
              let row = new_expense new_id now r ss in
              elim (Bool-cases (violates row l.tables.expenses)) [
                | inl bad ↦ absurd (cc (fresh, found, checked, bad, h))
                | inr fits ↦
                    let after : Ledger = record l {
                      tables = record_expense l.tables r.actor_user_id row;
                    } in
                    let done : create_fast_split new_id now l r ≡ ok ((row, false), after) =
                      rw (fresh, create_fast_split, create_new, found, checked, fits) refl in
                    let same : row ≡ e = cc (done, h) in
                    record {
                      group = g;
                      shares = ss;
                      fresh = fresh;
                      found = found;
                      checked = checked;
                      fits = rw (sym same) fits;
                      row = same;
                      result = rw (sym same) (cc (done, h));
                    }
              ]
        ]
      ]
    ]
