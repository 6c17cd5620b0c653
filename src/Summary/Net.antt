-- ===== src/Summary/Net.antt =====
-- What a user has paid, owes, has sent and has received: the net balance that the summary is to
-- show, by plain sums over the rows.
use ulutekproje.Common.Int.{ℤ, pos, ◌+ℤ◌, ◌-ℤ◌, ◌≤ℤ◌, int_laws, parts_of_eq}
use ulutekproje.Common.Dict.{Dict, value, add_default, value-add_default}
use ulutekproje.Common.Sums.{sum_over, sum_over-zero, sum_over-add_eq, sum_over-at}
use ulutekproje.Common.{
  ℕ, ◌≡◌, refl, sym, ap, ◌∙◌, ◌≢◌, Bool, true, false, List, [], ◌∷◌, ◌==◌, contains, IsDistinct,
  All, ne_of_contains, if◌then◌else◌,
}
use ulutekproje.Shares.{shares_total}
use ulutekproje.Records.{GroupExpense, Settlement}
use ulutekproje.Summary.{book_shares, book_expenses, share_ids}
use ulutekproje.Summary.Ids.{IsExpenseOf, IsSettlementOf}

-- What a list of shares asks of a user.
unfoldable pub share_in : ℕ → List (ℕ × ℤ) → ℤ
share_in u [] = pos 0
share_in u ((k, v) ∷ ss) = if u == k then v +ℤ share_in u ss else share_in u ss

unfoldable pub paid_by : ℕ → List GroupExpense → ℤ
paid_by u [] = pos 0
paid_by u (e ∷ es) =
    if u == e.payer_user_id then e.total_amount_in_minor +ℤ paid_by u es else paid_by u es

unfoldable pub owed_by : ℕ → List GroupExpense → ℤ
owed_by u [] = pos 0
owed_by u (e ∷ es) = share_in u e.shares +ℤ owed_by u es

unfoldable pub sent_by : ℕ → List Settlement → ℤ
sent_by u [] = pos 0
sent_by u (s ∷ ss) = if u == s.from_user_id then s.amount_in_minor +ℤ sent_by u ss else sent_by u ss

unfoldable pub received_by : ℕ → List Settlement → ℤ
received_by u [] = pos 0
received_by u (s ∷ ss) =
    if u == s.to_user_id then s.amount_in_minor +ℤ received_by u ss else received_by u ss

-- Paid less owed, and settlements applied.
abbrev pub group_net : ℕ → List GroupExpense → List Settlement → ℤ
group_net u es ss = paid_by u es -ℤ owed_by u es +ℤ sent_by u ss -ℤ received_by u ss

-- The shares of an expense add up to its total, as each split makes them.
abbrev pub IsSplit : GroupExpense → Type 0
IsSplit e = shares_total e.shares ≡ e.total_amount_in_minor

-- A positive payment between two users, as `SettlementService.create` records it.
abbrev pub IsPayable : Settlement → Type 0
IsPayable s = (s.from_user_id ≢ s.to_user_id) × (pos 1 ≤ℤ s.amount_in_minor)

value-book_shares :
    (u : ℕ) (ss : List (ℕ × ℤ)) (d : Dict) → value u (book_shares d ss) +ℤ share_in u ss ≡ value u d
unfolding book_shares share_in
value-book_shares u [] d = omega int_laws
value-book_shares u ((k, v) ∷ ss) d =
    let d' = add_default k (pos 0 -ℤ v) d in
    step (u == k) (value u d) (value u d') (value u (book_shares d' ss)) v (share_in u ss)
      (value-add_default u k (pos 0 -ℤ v) d) (value-book_shares u ss d')
  where
    step :
        (b : Bool) (x y z v s : ℤ)
        → y ≡ (if b then x +ℤ (pos 0 -ℤ v) else x)
        → z +ℤ s ≡ y
        → z +ℤ (if b then v +ℤ s else s) ≡ x
    step true x y z v s e h = omega (int_laws, parts_of_eq e, parts_of_eq h)
    step false x y z v s e h = omega (int_laws, parts_of_eq e, parts_of_eq h)

-- The dict `expense_amounts` holds what each user has paid less what the user owes.
pub value-book_expenses :
    (u : ℕ) (es : List GroupExpense) (d : Dict)
    → value u (book_expenses d es) +ℤ owed_by u es ≡ value u d +ℤ paid_by u es
unfolding book_expenses owed_by paid_by
value-book_expenses u [] d = refl
value-book_expenses u (e ∷ es) d =
    let d₁ = add_default e.payer_user_id e.total_amount_in_minor d in
    let d₂ = book_shares d₁ e.shares in
    step (u == e.payer_user_id) (value u d) (value u d₁) (value u d₂)
      (value u (book_expenses d₂ es)) e.total_amount_in_minor (share_in u e.shares) (owed_by u es)
      (paid_by u es) (value-add_default u e.payer_user_id e.total_amount_in_minor d)
      (value-book_shares u e.shares d₁) (value-book_expenses u es d₂)
  where
    step :
        (b : Bool) (x y w z t s o p : ℤ)
        → y ≡ (if b then x +ℤ t else x)
        → w +ℤ s ≡ y
        → z +ℤ o ≡ w +ℤ p
        → z +ℤ (s +ℤ o) ≡ x +ℤ (if b then t +ℤ p else p)
    step true x y w z t s o p e h g = omega (int_laws, parts_of_eq e, parts_of_eq h, parts_of_eq g)
    step false x y w z t s o p e h g = omega (int_laws, parts_of_eq e, parts_of_eq h, parts_of_eq g)

-- Over users that include all who take part, shares and payments add up to the expenses' totals.
sum_over-share_in :
    (ks : List ℕ) (ss : List (ℕ × ℤ))
    → IsDistinct ks
    → All (λ k. contains k ks ≡ true) (share_ids ss)
    → sum_over ks (λ k. share_in k ss) ≡ shares_total ss
unfolding share_in shares_total
sum_over-share_in ks [] d h = sum_over-zero ks
sum_over-share_in ks ((u, v) ∷ ss) d h =
    sum_over-at u v (λ k. share_in k ss) ks d h.0 ∙ ap (λ z. v +ℤ z) (sum_over-share_in ks ss d h.1)

sum_over-plus :
    (ks : List ℕ) (f g : ℕ → ℤ) → sum_over ks (λ k. f k +ℤ g k) ≡ sum_over ks f +ℤ sum_over ks g
sum_over-plus ks f g = omega (
  int_laws,
  parts_of_eq (sum_over-zero ks),
  parts_of_eq (sum_over-add_eq ks (λ k. f k +ℤ g k) (λ k. pos 0) f g (λ k. omega int_laws)),
)

pub paid-eq-owed :
    (ks : List ℕ) (es : List GroupExpense)
    → IsDistinct ks
    → All (IsExpenseOf ks) es
    → All IsSplit es
    → sum_over ks (λ k. paid_by k es) ≡ sum_over ks (λ k. owed_by k es)
unfolding paid_by owed_by
paid-eq-owed ks [] d c h = refl
paid-eq-owed ks (e ∷ es) d c h =
    sum_over-at e.payer_user_id e.total_amount_in_minor (λ k. paid_by k es) ks d c.0.0
    ∙ ap (λ z. e.total_amount_in_minor +ℤ z) (paid-eq-owed ks es d c.1 h.1)
    ∙ ap (λ z. z +ℤ sum_over ks (λ k. owed_by k es))
        (sym (sum_over-share_in ks e.shares d c.0.1 ∙ h.0))
    ∙ sym (sum_over-plus ks (λ k. share_in k e.shares) (λ k. owed_by k es))

-- Someone outside them has paid nothing, owes nothing, and has sent and received nothing.
module _ (u : ℕ) (ks : List ℕ) (out : contains u ks ≡ false) where
  share_in-outside :
      (ss : List (ℕ × ℤ)) → All (λ k. contains k ks ≡ true) (share_ids ss) → share_in u ss ≡ pos 0
  unfolding share_in
  share_in-outside [] h = refl
  share_in-outside ((k, v) ∷ ss) h = rw (ne_of_contains u k ks out h.0) (share_in-outside ss h.1)

  pub expenses-outside :
      (es : List GroupExpense)
      → All (IsExpenseOf ks) es
      → (paid_by u es ≡ pos 0) × (owed_by u es ≡ pos 0)
  unfolding paid_by owed_by
  expenses-outside [] c = (refl, refl)
  expenses-outside (e ∷ es) c =
      let (paid, owed) = expenses-outside es c.1 in
      (
        rw (ne_of_contains u e.payer_user_id ks out c.0.0) paid,
        rw (share_in-outside e.shares c.0.1, owed) (omega int_laws),
      )

  pub settlements-outside :
      (ss : List Settlement)
      → All (IsSettlementOf ks) ss
      → (sent_by u ss ≡ pos 0) × (received_by u ss ≡ pos 0)
  unfolding sent_by received_by
  settlements-outside [] c = (refl, refl)
  settlements-outside (s ∷ ss) c =
      let (sent, received) = settlements-outside ss c.1 in
      (
        rw (ne_of_contains u s.from_user_id ks out c.0.0) sent,
        rw (ne_of_contains u s.to_user_id ks out c.0.1) received,
      )
