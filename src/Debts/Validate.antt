-- ===== src/Debts/Validate.antt =====
-- What `_validate` accepts: no user twice, and a total of zero.
use ulutekproje.Common.Int.{ℤ, pos, ◌+ℤ◌, eqb_ℤ, eqb_ℤ_iff, int_laws, parts_of_eq}
use ulutekproje.Common.Dict.{keys}
use ulutekproje.Common.Result.{Result, ok, err}
use ulutekproje.Common.{
  ℕ, ◌≡◌, refl, ◌↔◌, ◌⊎◌, inl, inr, true, false, List, [], ◌∷◌, arith, contains, IsDistinct,
  Bool-cases,
}
use ulutekproje.Debts.{
  DebtBalance, DebtError, invalid_debt_balance, validate_from, validate, entries,
}

abbrev pub ids : List DebtBalance → List ℕ
ids bs = keys (entries bs)

abbrev pub net_total : List DebtBalance → ℤ
net_total [] = pos 0
net_total (b ∷ bs) = b.net_amount_in_minor +ℤ net_total bs

-- The balances of a closed group: one for each user, adding up to zero.
abbrev pub IsClosed : List DebtBalance → Type 0
IsClosed bs = IsDistinct (ids bs) × (net_total bs ≡ pos 0)

-- The ids that the loop accepts when it has seen some already.
abbrev Fresh : List ℕ → List ℕ → Type 0
Fresh seen [] = Unit {0}
Fresh seen (k ∷ ks) = (contains k seen ≡ false) × Fresh (k ∷ seen) ks

Fresh-elim :
    (seen ks : List ℕ)
    → Fresh seen ks
    → IsDistinct ks × ((i : ℕ) → contains i ks ≡ true → contains i seen ≡ false)
Fresh-elim seen [] h = (tt, λ i e. cc)
Fresh-elim seen (k ∷ ks) h =
    let (distinct, apart) = Fresh-elim (k ∷ seen) ks h.1 in
    ((ground (arith, apart k), distinct), λ i e. ground (arith, h.0, apart i))

Fresh-intro :
    (seen ks : List ℕ)
    → IsDistinct ks
    → ((i : ℕ) → contains i ks ≡ true → contains i seen ≡ false)
    → Fresh seen ks
Fresh-intro seen [] d apart = tt
Fresh-intro seen (k ∷ ks) d apart =
    (ground (arith, apart k), Fresh-intro (k ∷ seen) ks d.1 (λ i e. ground (arith, apart i)))

validate_from-Fresh :
    (seen : List ℕ) (total : ℤ) (bs : List DebtBalance)
    → Fresh seen (ids bs)
    → validate_from seen total bs ≡ ok (total +ℤ net_total bs)
unfolding validate_from
validate_from-Fresh seen total [] h = ap_ok (omega int_laws)
  where
    ap_ok : {a b : ℤ} → a ≡ b → ◌≡◌ {A = Result DebtError ℤ} (ok a) (ok b)
    ap_ok e = cc
validate_from-Fresh seen total (b ∷ bs) h =
    rw (h.0, validate_from-Fresh (b.user_id ∷ seen) (total +ℤ b.net_amount_in_minor) bs h.1)
      (ap_ok (omega int_laws))
  where
    ap_ok : {a c : ℤ} → a ≡ c → ◌≡◌ {A = Result DebtError ℤ} (ok a) (ok c)
    ap_ok e = cc

validate_from-cases :
    (seen : List ℕ) (total : ℤ) (bs : List DebtBalance)
    → Fresh seen (ids bs) ⊎ (validate_from seen total bs ≡ err invalid_debt_balance)
unfolding validate_from
validate_from-cases seen total [] = inl tt
validate_from-cases seen total (b ∷ bs) = elim (Bool-cases (contains b.user_id seen)) [
  | inl twice ↦ inr (rw twice)
  | inr new ↦ elim (validate_from-cases (b.user_id ∷ seen) (total +ℤ b.net_amount_in_minor) bs) [
    | inl fresh ↦ inl (new, fresh)
    | inr e ↦ inr (rw (new, e))
  ]
]

total_zero : {z : ℤ} → z ≡ pos 0 → eqb_ℤ (pos 0 +ℤ z) (pos 0) ≡ true
total_zero {z} e = (eqb_ℤ_iff (pos 0 +ℤ z) (pos 0)).1 (omega (int_laws, parts_of_eq e))

zero_of_total : {z : ℤ} → eqb_ℤ (pos 0 +ℤ z) (pos 0) ≡ true → z ≡ pos 0
zero_of_total {z} e = omega (int_laws, parts_of_eq ((eqb_ℤ_iff (pos 0 +ℤ z) (pos 0)).0 e))

pub validate-IsClosed : (bs : List DebtBalance) → IsClosed bs → validate bs ≡ ok tt
unfolding validate
validate-IsClosed bs (distinct, balanced) =
    rw (validate_from-Fresh [] (pos 0) bs (Fresh-intro [] (ids bs) distinct (λ i e. refl)))
      (rw (total_zero balanced))

-- A pass or the refusal, each with what it says of the balances.
pub validate_cases :
    (bs : List DebtBalance)
    → IsClosed bs × (validate bs ≡ ok tt)
      ⊎ (¬ IsClosed bs) × (validate bs ≡ err invalid_debt_balance)
validate_cases bs = elim (validate_from-cases [] (pos 0) bs) [
  | inr e ↦ let refused = refuses_twice e in inr ((λ c. cc (validate-IsClosed bs c)), refused)
  | inl fresh ↦ elim (Bool-cases (eqb_ℤ (pos 0 +ℤ net_total bs) (pos 0))) [
    | inl z ↦
        let c : IsClosed bs = ((Fresh-elim [] (ids bs) fresh).0, zero_of_total z) in
        inl (c, validate-IsClosed bs c)
    | inr nz ↦ inr ((λ c. cc (total_zero c.1)), refuses_total fresh nz)
  ]
]
  where
    refuses_twice :
        validate_from [] (pos 0) bs ≡ err invalid_debt_balance
        → validate bs ≡ err invalid_debt_balance
    refuses_twice e = unfold validate in (rw e)

    refuses_total :
        Fresh [] (ids bs)
        → eqb_ℤ (pos 0 +ℤ net_total bs) (pos 0) ≡ false
        → validate bs ≡ err invalid_debt_balance
    refuses_total fresh nz =
        unfold validate in (rw (validate_from-Fresh [] (pos 0) bs fresh) (rw nz))

-- `_validate` passes exactly on the balances of a closed group.
pub validate_iff : (bs : List DebtBalance) → (validate bs ≡ ok tt) ↔ IsClosed bs
validate_iff bs = elim (validate_cases bs) [
  | inl (c, e) ↦ ((λ _. c), (λ _. e))
  | inr (n, e) ↦ ((λ e'. cc), (λ c. absurd (n c)))
]
