-- ===== src/Expenses/Totals.antt =====
-- The amounts that the loops of `create_itemized` add up.
use ulutekproje.Common.Int.{ℤ, pos, ◌+ℤ◌, ltb_ℤ, leb_ℤ, eqb_ℤ, eqb_ℤ_iff, int_laws, parts_of_eq}
use ulutekproje.Common.Result.{ok, Result-cases}
use ulutekproje.Common.Dict.{Dict, value, add_default, value-add_default}
use ulutekproje.Common.Sums.{sum_over, sum_over-at, sum_over-ext}
use ulutekproje.Common.{
  ℕ, ◌≡◌, refl, sym, ap, ◌∙◌, inl, inr, true, ◌&&◌, List, [], ◌∷◌, arith, ◌==◌, contains,
  IsDistinct, Bool-cases, is_none, if◌then◌else◌,
}
use ulutekproje.Shares.{Share, shares_total, insert_share, sort_shares}
use ulutekproje.Summary.Net.{share_in}
use ulutekproje.Expenses.Rows.{CloudReceiptLineItem}
use ulutekproje.Expenses.Itemized.{
  LineItemAssignmentInput, ExtraAmountInput, Tally, has_pair, not_positive, add_quantity,
  take_assignments, take_extra_shares, normalized_label, is_other, take_extra_amounts, line_ids,
  assigned_ids, is_subset, exceeds, check_lines,
}

-- The prices of a receipt's lines.
unfoldable pub prices_total : List CloudReceiptLineItem → ℤ
prices_total [] = pos 0
prices_total (l ∷ ls) = l.price_in_minor +ℤ prices_total ls

unfoldable pub extras_total : List ExtraAmountInput → ℤ
extras_total [] = pos 0
extras_total (x ∷ xs) = x.amount_in_minor +ℤ extras_total xs

unfoldable pub assigned_total : List LineItemAssignmentInput → ℤ
assigned_total [] = pos 0
assigned_total (a ∷ as_left) = a.amount_in_minor +ℤ assigned_total as_left

-- What the assignments, and the extra amounts, give to one user.
unfoldable pub assigned_to : ℕ → List LineItemAssignmentInput → ℤ
assigned_to u [] = pos 0
assigned_to u (a ∷ as_left) =
    if u == a.user_id then a.amount_in_minor +ℤ assigned_to u as_left else assigned_to u as_left

unfoldable pub extra_to : ℕ → List ExtraAmountInput → ℤ
unfolding share_in
extra_to u [] = pos 0
extra_to u (x ∷ xs) = share_in u x.shares +ℤ extra_to u xs

shares_total-add_default :
    (k : ℕ) (v : ℤ) (d : Dict) → shares_total (add_default k v d) ≡ shares_total d +ℤ v
unfolding shares_total add_default
shares_total-add_default k v [] = omega int_laws
shares_total-add_default k v ((j, w) ∷ d) = grind (int_laws, shares_total-add_default k v d)

share_in-add_default :
    (u k : ℕ) (v : ℤ) (d : Dict)
    → share_in u (add_default k v d) ≡ (if u == k then share_in u d +ℤ v else share_in u d)
unfolding share_in add_default
share_in-add_default u k v [] = grind int_laws
share_in-add_default u k v ((j, w) ∷ d) = grind (int_laws, share_in-add_default u k v d)

pub sum_over-add_default :
    (ks : List ℕ) (i : ℕ) (v : ℤ) (d : Dict)
    → IsDistinct ks
    → contains i ks ≡ true
    → sum_over ks (λ k. value k (add_default i v d)) ≡ v +ℤ sum_over ks (λ k. value k d)
sum_over-add_default ks i v d distinct there =
    sum_over-ext ks (λ k. value k (add_default i v d))
      (λ k. if k == i then v +ℤ value k d else value k d) pointwise
    ∙ sum_over-at i v (λ k. value k d) ks distinct there
  where
    pointwise :
        (k : ℕ) → value k (add_default i v d) ≡ (if k == i then v +ℤ value k d else value k d)
    pointwise k = grind (int_laws, value-add_default k i v d)

-- What the loop over the assignments adds.
pub record Tallies (ks : List ℕ) (t t' : Tally) (as_left : List LineItemAssignmentInput)
    : Type 0 where
  pub by_user :
      shares_total t'.amounts_by_user ≡ shares_total t.amounts_by_user +ℤ assigned_total as_left
  pub of_user :
      (u : ℕ)
      → share_in u t'.amounts_by_user ≡ share_in u t.amounts_by_user +ℤ assigned_to u as_left
  pub by_line :
      sum_over ks (λ k. value k t'.amounts_by_line_item)
      ≡ sum_over ks (λ k. value k t.amounts_by_line_item) +ℤ assigned_total as_left

pub take_assignments-Tallies :
    (ks : List ℕ) (t t' : Tally) (as_left : List LineItemAssignmentInput)
    → IsDistinct ks
    → is_subset (assigned_ids as_left) ks ≡ true
    → take_assignments t as_left ≡ ok t'
    → Tallies ks t t' as_left
unfolding take_assignments assigned_total assigned_to assigned_ids is_subset
take_assignments-Tallies ks t t' [] distinct sub h =
    let same : t ≡ t' = cc h in
    rw (sym same)
      (record { by_user = omega int_laws; of_user = λ u. omega int_laws; by_line = omega int_laws })
take_assignments-Tallies ks t t' (a ∷ as_left) distinct sub h =
    let i = a.receipt_line_item_id in
    let v = a.amount_in_minor in
    let next : Tally = record {
      assignment_keys = (i, a.user_id) ∷ t.assignment_keys;
      amounts_by_line_item = add_default i v t.amounts_by_line_item;
      quantities_by_line_item = add_quantity i a.quantity_share_milli t.quantities_by_line_item;
      amounts_by_user = add_default a.user_id v t.amounts_by_user;
    } in
    elim (Bool-cases (has_pair i a.user_id t.assignment_keys)) [
      | inl twice ↦ absurd (cc (twice, h))
      | inr new ↦ elim (Bool-cases (ltb_ℤ v (pos 0))) [
        | inl negative ↦ absurd (cc (new, negative, h))
        | inr amount ↦ elim (Bool-cases (not_positive a.quantity_share_milli)) [
          | inl empty ↦ absurd (cc (new, amount, empty, h))
          | inr quantity ↦
              let there : contains i ks ≡ true = ground (arith, sub) in
              let sub' : is_subset (assigned_ids as_left) ks ≡ true = ground (arith, sub) in
              let rest =
                take_assignments-Tallies ks next t' as_left distinct sub'
                  (cc (new, amount, quantity, h)) in
              record {
                by_user = omega (
                  int_laws,
                  parts_of_eq (rest.by_user),
                  parts_of_eq (shares_total-add_default a.user_id v t.amounts_by_user),
                );
                of_user = λ u.
                    user_step u a.user_id v t.amounts_by_user t'.amounts_by_user
                      (assigned_to u as_left) (rest.of_user u);
                by_line = omega (
                  int_laws,
                  parts_of_eq (rest.by_line),
                  parts_of_eq (sum_over-add_default ks i v t.amounts_by_line_item distinct there),
                );
              }
        ]
      ]
    ]
  where
    user_step :
        (u k : ℕ) (v : ℤ) (d d' : Dict) (rest : ℤ)
        → share_in u d' ≡ share_in u (add_default k v d) +ℤ rest
        → share_in u d' ≡ share_in u d +ℤ (if u == k then v +ℤ rest else rest)
    user_step u k v d d' rest e = grind (int_laws, e, share_in-add_default u k v d)

-- What the loop over the shares of an extra amount adds.
pub record Extras (total total' : ℤ) (d d' : Dict) (ss : List Share) : Type 0 where
  pub by_user : shares_total d' +ℤ total ≡ shares_total d +ℤ total'
  pub of_user : (u : ℕ) → share_in u d' ≡ share_in u d +ℤ share_in u ss

take_extra_shares-Extras :
    (seen : List ℕ) (total total' : ℤ) (d d' : Dict) (ss : List Share)
    → take_extra_shares seen total d ss ≡ ok (total', d')
    → Extras total total' d d' ss
unfolding take_extra_shares share_in
take_extra_shares-Extras seen total total' d d' [] h =
    let t : total ≡ total' = cc h in
    let same : d ≡ d' = cc h in
    rw (sym t, sym same) (record { by_user = refl; of_user = λ u. omega int_laws })
take_extra_shares-Extras seen total total' d d' ((k, v) ∷ ss) h =
    elim (Bool-cases (contains k seen)) [
      | inl twice ↦ absurd (cc (twice, h))
      | inr new ↦ elim (Bool-cases (ltb_ℤ v (pos 0))) [
        | inl negative ↦ absurd (cc (new, negative, h))
        | inr amount ↦
            let rest =
              take_extra_shares-Extras (k ∷ seen) (total +ℤ v) total' (add_default k v d) d' ss
                (cc (new, amount, h)) in
            record {
              by_user = omega (
                int_laws,
                parts_of_eq (rest.by_user),
                parts_of_eq (shares_total-add_default k v d),
              );
              of_user = λ u. user_step u k v d d' (share_in u ss) (rest.of_user u);
            }
      ]
    ]
  where
    user_step :
        (u k : ℕ) (v : ℤ) (d d' : Dict) (rest : ℤ)
        → share_in u d' ≡ share_in u (add_default k v d) +ℤ rest
        → share_in u d' ≡ share_in u d +ℤ (if u == k then v +ℤ rest else rest)
    user_step u k v d d' rest e = grind (int_laws, e, share_in-add_default u k v d)

-- What the loop over the extra amounts adds.
pub record Adds (d d' : Dict) (xs : List ExtraAmountInput) : Type 0 where
  pub by_user : shares_total d' ≡ shares_total d +ℤ extras_total xs
  pub of_user : (u : ℕ) → share_in u d' ≡ share_in u d +ℤ extra_to u xs

pub take_extra_amounts-Adds :
    (d d' : Dict) (xs : List ExtraAmountInput) → take_extra_amounts d xs ≡ ok d' → Adds d d' xs
unfolding take_extra_amounts extras_total extra_to
take_extra_amounts-Adds d d' [] h =
    let same : d ≡ d' = cc h in
    rw (sym same) (record { by_user = omega int_laws; of_user = λ u. omega int_laws })
take_extra_amounts-Adds d d' (x ∷ xs) h = elim (Bool-cases (leb_ℤ x.amount_in_minor (pos 0))) [
  | inl none_left ↦ absurd (cc (none_left, h))
  | inr amount ↦ elim (Bool-cases (is_other x.type && is_none (normalized_label x.label))) [
    | inl unlabelled ↦ absurd (cc (amount, unlabelled, h))
    | inr labelled ↦ elim (Result-cases (take_extra_shares [] (pos 0) d x.shares)) [
      | inr (e, raised) ↦ absurd (cc (amount, labelled, raised, h))
      | inl ((total, mid), taken) ↦ elim (Bool-cases (eqb_ℤ total x.amount_in_minor)) [
        | inr differs ↦ absurd (cc (amount, labelled, taken, differs, h))
        | inl same ↦
            let here = take_extra_shares-Extras [] (pos 0) total d mid x.shares taken in
            let rest = take_extra_amounts-Adds mid d' xs (cc (amount, labelled, taken, same, h)) in
            let sum = (eqb_ℤ_iff total x.amount_in_minor).0 same in
            record {
              by_user = omega (
                int_laws,
                parts_of_eq (rest.by_user),
                parts_of_eq (here.by_user),
                parts_of_eq sum,
              );
              of_user =
                  λ u. omega (int_laws, parts_of_eq (rest.of_user u), parts_of_eq (here.of_user u));
            }
      ]
    ]
  ]
]

-- The lines that pass the loop have their prices assigned.
pub check_lines-prices :
    (t : Tally) (ls : List CloudReceiptLineItem) (r : Unit)
    → check_lines t ls ≡ ok r
    → sum_over (line_ids ls) (λ k. value k t.amounts_by_line_item) ≡ prices_total ls
unfolding check_lines line_ids prices_total sum_over
check_lines-prices t [] r h = refl
check_lines-prices t (l ∷ ls) r h =
    elim (Bool-cases (eqb_ℤ (value l.id t.amounts_by_line_item) l.price_in_minor)) [
      | inr differs ↦ absurd (cc (differs, h))
      | inl same ↦ elim (Bool-cases (exceeds (value l.id t.quantities_by_line_item) l.quantity)) [
        | inl much ↦ absurd (cc (same, much, h))
        | inr quantity ↦
            let here = (eqb_ℤ_iff (value l.id t.amounts_by_line_item) l.price_in_minor).0 same in
            let rest = check_lines-prices t ls r (cc (same, quantity, h)) in cc (here, rest)
      ]
    ]

pub share_in-insert_share :
    (u : ℕ) (s : Share) (ss : List Share) → share_in u (insert_share s ss) ≡ share_in u (s ∷ ss)
unfolding insert_share share_in
share_in-insert_share u (k, v) [] = refl
share_in-insert_share u (k, v) ((j, w) ∷ ss) = grind (int_laws, share_in-insert_share u (k, v) ss)

pub share_in-sort_shares : (u : ℕ) (ss : List Share) → share_in u (sort_shares ss) ≡ share_in u ss
unfolding sort_shares share_in
share_in-sort_shares u [] = refl
share_in-sort_shares u ((k, v) ∷ ss) =
    share_in-insert_share u (k, v) (sort_shares ss)
    ∙ ap (λ x. if u == k then v +ℤ x else x) (share_in-sort_shares u ss)
