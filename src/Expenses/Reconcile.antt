-- ===== src/Expenses/Reconcile.antt =====
-- The shares of `itemize` beside the receipt.
use ulutekproje.Common.Int.{pos, ◌+ℤ◌, eqb_ℤ, eqb_ℤ_iff, int_laws, parts_of_eq}
use ulutekproje.Common.Result.{ok, Result-cases}
use ulutekproje.Common.Dict.{Dict, value}
use ulutekproje.Common.Sums.{sum_over, sum_over-zero}
use ulutekproje.Common.{ℕ, ◌≡◌, ◌∙◌, inl, inr, true, List, [], ◌∷◌, ◌++◌, IsDistinct, Bool-cases}
use ulutekproje.Shares.{Share, is_empty, shares_total, sort_shares}
use ulutekproje.Shares.Exact.{shares_total-sort_shares}
use ulutekproje.Common.{subst}
use ulutekproje.Summary.Net.{share_in}
use ulutekproje.Expenses.Rows.{CloudReceiptLineItem}
use ulutekproje.Expenses.Itemized.{
  ItemizedRequest, Tally, empty_tally, take_assignments, take_extra_amounts, line_ids, assigned_ids,
  assigned_users, extra_users, is_subset, unassigned, check_lines, itemize,
}
use ulutekproje.Expenses.Totals.{
  prices_total, extras_total, assigned_to, extra_to, take_assignments-Tallies,
  take_extra_amounts-Adds, check_lines-prices, share_in-sort_shares,
}

-- The shares of an accepted request: they add up to its total, which is that of the receipt's lines
-- and the extra amounts, and each user's is what was assigned to the user.
pub record Reconciled (lines : List CloudReceiptLineItem) (r : ItemizedRequest) (ss : List Share)
    : Type 0 where
  pub split : shares_total ss ≡ r.total_amount_in_minor
  pub receipt : r.total_amount_in_minor ≡ prices_total lines +ℤ extras_total r.extra_amounts
  pub of_user : (u : ℕ) → share_in u ss ≡ assigned_to u r.assignments +ℤ extra_to u r.extra_amounts

sorted-Reconciled :
    (lines : List CloudReceiptLineItem) (r : ItemizedRequest) (t : Tally) (by_user : Dict)
    → IsDistinct (line_ids lines)
    → is_subset (assigned_ids r.assignments) (line_ids lines) ≡ true
    → take_assignments empty_tally r.assignments ≡ ok t
    → take_extra_amounts t.amounts_by_user r.extra_amounts ≡ ok by_user
    → (u : Unit) → check_lines t lines ≡ ok u
    → shares_total by_user ≡ r.total_amount_in_minor
    → Reconciled lines r (sort_shares by_user)
unfolding shares_total share_in value
sorted-Reconciled lines r t by_user distinct sub taken added u checked total =
    let ids = line_ids lines in
    let tallies = take_assignments-Tallies ids empty_tally t r.assignments distinct sub taken in
    let extras = take_extra_amounts-Adds t.amounts_by_user by_user r.extra_amounts added in
    let none_yet : sum_over ids (λ k. value k []) ≡ pos 0 = sum_over-zero ids in
    record {
      split = shares_total-sort_shares by_user ∙ total;
      receipt = omega (
        int_laws,
        parts_of_eq total,
        parts_of_eq (tallies.by_user),
        parts_of_eq (extras.by_user),
        parts_of_eq (tallies.by_line),
        parts_of_eq (check_lines-prices t lines u checked),
        parts_of_eq none_yet,
      );
      of_user = λ k. omega (
        int_laws,
        parts_of_eq (share_in-sort_shares k by_user),
        parts_of_eq (tallies.of_user k),
        parts_of_eq (extras.of_user k),
      );
    }

pub itemize-Reconciled :
    (lines : List CloudReceiptLineItem) (active : List ℕ) (r : ItemizedRequest) (ss : List Share)
    → IsDistinct (line_ids lines)
    → is_subset (assigned_ids r.assignments) (line_ids lines) ≡ true
    → itemize lines active r ≡ ok ss
    → Reconciled lines r ss
unfolding itemize
itemize-Reconciled lines active r ss distinct sub h =
    elim (Result-cases (take_assignments empty_tally r.assignments)) [
      | inr (e, raised) ↦ absurd (cc (raised, h))
      | inl (t, taken) ↦
          elim (Result-cases (take_extra_amounts t.amounts_by_user r.extra_amounts)) [
            | inr (e, raised) ↦ absurd (cc (taken, raised, h))
            | inl (by_user, added) ↦
                let ids = line_ids lines in
                let given = assigned_ids r.assignments in
                let people =
                  r.payer_user_id ∷ assigned_users r.assignments ++ extra_users r.extra_amounts in
                elim (Bool-cases (is_subset people active)) [
                  | inr stranger ↦ absurd (cc (taken, added, stranger, h))
                  | inl members ↦ elim (Bool-cases (is_empty (unassigned ids given))) [
                    | inr open_lines ↦ absurd (cc (taken, added, members, open_lines, h))
                    | inl full ↦ elim (Result-cases (check_lines t lines)) [
                      | inr (e, raised) ↦ absurd (cc (taken, added, members, full, raised, h))
                      | inl (u, checked) ↦
                          elim (Bool-cases (eqb_ℤ (shares_total by_user) r.total_amount_in_minor)) [
                            | inr differs ↦
                                absurd (cc (taken, added, members, full, checked, differs, h))
                            | inl equals ↦
                                let same : sort_shares by_user ≡ ss =
                                  cc (taken, added, members, full, checked, equals, h) in
                                subst (Reconciled lines r) same (
                                  sorted-Reconciled lines r t by_user distinct sub taken added u
                                    checked
                                    ((eqb_ℤ_iff (shares_total by_user) r.total_amount_in_minor).0
                                      equals))
                          ]
                    ]
                  ]
                ]
          ]
    ]
