-- ===== src/Shares/Equal.antt =====
-- `calculate_equal_shares`: the amounts and their order.
use ulutekproje.Common.Int.{ℤ, pos, negsuc, ◌≤ℤ◌, pos-add}
use ulutekproje.Common.Result.{ok, err}
use ulutekproje.Common.{
  ℕ, zero, suc, ◌+◌, ◌-◌, ◌*◌, ◌/◌, ◌%◌, ◌≤◌, ◌<◌, ◌≡◌, refl, ap, ◌⊎◌, inl, inr, List, [], ◌∷◌,
  arith, length, All, ltb, leb-suc_zero, ltb→lt, ltb→le, ◌∙◌, ◌↔◌, Bool-cases,
}
use ulutekproje.Shares.{
  Share, SplitError, invalid_amount, shares_total, deal, calculate_equal_shares,
}

-- The users of a list of shares, in its order.
abbrev pub users : List Share → List ℕ
users [] = []
users ((u, v) ∷ ss) = u ∷ users ss

-- A share is the quotient, or a penny more.
abbrev pub IsFair : ℕ → Share → Type 0
IsFair quotient s = (s.1 ≡ pos quotient) ⊎ (s.1 ≡ pos (quotient + 1))

module _ (q r : ℕ) where
  users-deal : (i : ℕ) (us : List ℕ) → users (deal q r i us) ≡ us
  unfolding deal
  users-deal i [] = refl
  users-deal i (u ∷ us) = rw (users-deal (suc i) us)

  deal-IsFair : (i : ℕ) (us : List ℕ) → All (IsFair q) (deal q r i us)
  unfolding deal
  deal-IsFair i [] = tt
  deal-IsFair i (u ∷ us) = elim (Bool-cases (ltb i r)) [
    | inl early ↦ (rw early (inr refl), deal-IsFair (suc i) us)
    | inr late ↦ (rw late (inl (ap pos (omega arith))), deal-IsFair (suc i) us)
  ]

  shares_total-deal :
      (i : ℕ) (us : List ℕ)
      → r - i ≤ length us
      → shares_total (deal q r i us) ≡ pos (q * length us + (r - i))
  unfolding deal shares_total
  shares_total-deal i [] h = ap pos (omega arith)
  shares_total-deal i (u ∷ us) h = elim (Bool-cases (ltb i r)) [
    | inl early ↦
        let lt = ltb→lt i r early in
        rw (early, shares_total-deal (suc i) us (omega arith))
          (pos-add (q + 1) (q * length us + (r - suc i)) ∙ ap pos (omega arith))
    | inr late ↦
        let le = ltb→le i r late in
        rw (late, shares_total-deal (suc i) us (omega arith))
          (pos-add (q + 0) (q * length us + (r - suc i)) ∙ ap pos (omega arith))
  ]

-- A positive total between at least one participant is dealt out whole, to the participants in
-- their order, in shares of the quotient or a penny more.
pub equal_shares_lem :
    (total : ℕ) (us : List ℕ)
    → 0 < total
    → 0 < length us
    → (ss : List Share) × (calculate_equal_shares (pos total) us ≡ ok ss)
      × (shares_total ss ≡ pos total)
      × (users ss ≡ us)
      × All (IsFair (total / length us)) ss
unfolding calculate_equal_shares
equal_shares_lem zero us h n = absurd (omega arith)
equal_shares_lem (suc t) [] h n = absurd (omega arith)
equal_shares_lem (suc t) (u ∷ us) h n =
    let q = suc t / length (u ∷ us) in
    let r = suc t % length (u ∷ us) in
    (
      deal q r 0 (u ∷ us),
      rw (leb-suc_zero t),
      shares_total-deal q r 0 (u ∷ us) (omega arith) ∙ ap pos (omega arith),
      users-deal q r 0 (u ∷ us),
      deal-IsFair q r 0 (u ∷ us),
    )

-- The split is refused exactly without a positive total or without participants, and always as an
-- invalid amount.
equal_shares_refuses :
    (total : ℤ) (us : List ℕ) (e : SplitError)
    → (calculate_equal_shares total us ≡ err e)
      ↔ ((e ≡ invalid_amount) × ((total ≤ℤ pos 0) ⊎ (length us ≡ 0)))
unfolding calculate_equal_shares
equal_shares_refuses (negsuc n) us e = ((λ h. (cc, inl (omega arith))), (λ h. rw h.0))
equal_shares_refuses (pos zero) us e = ((λ h. (cc, inl (omega arith))), (λ h. rw h.0))
equal_shares_refuses (pos (suc t)) [] e =
    ((λ h. (cc (leb-suc_zero t, h), inr refl)), (λ h. rw (leb-suc_zero t, h.0)))
equal_shares_refuses (pos (suc t)) (u ∷ us) e =
    ((λ h. cc (leb-suc_zero t, h)), (λ h. absurd (impossible h.1)))
  where
    impossible : (pos (suc t) ≤ℤ pos 0) ⊎ (length (u ∷ us) ≡ 0) → ⊥
    impossible bad = omega arith
