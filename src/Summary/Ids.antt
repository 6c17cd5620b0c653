-- ===== src/Summary/Ids.antt =====
-- The set `financial_user_ids` of `get_for_group`, and who is in it.
use ulutekproje.Common.{
  ℕ, ◌≡◌, refl, ◌∙◌, true, false, ◌||◌, List, [], ◌∷◌, arith, ◌==◌, contains, IsDistinct, All, leb,
  Bool-cases, inl, inr,
}
use ulutekproje.Records.{GroupExpense, Settlement}
use ulutekproje.Summary.{
  add_id, add_ids, share_ids, add_expense_ids, add_settlement_ids, insert_id, sort_ids,
}

pub contains-add_id : (u k : ℕ) (us : List ℕ) → contains u (add_id k us) ≡ (u == k || contains u us)
unfolding add_id
contains-add_id u k us = elim (Bool-cases (contains k us)) [
  | inl old ↦ rw old (known old)
  | inr new ↦ rw new
]
  where
    same : (v : ℕ) (vs : List ℕ) → v ≡ k → contains k vs ≡ true → contains v vs ≡ true
    same v vs e h = rw e h

    known : contains k us ≡ true → contains u us ≡ (u == k || contains u us)
    known old = ground (arith, same u us)

pub add_id-IsDistinct : (k : ℕ) (us : List ℕ) → IsDistinct us → IsDistinct (add_id k us)
unfolding add_id
add_id-IsDistinct k us d = elim (Bool-cases (contains k us)) [
  | inl old ↦ rw old d
  | inr new ↦ rw new (new, d)
]

pub add_ids-IsDistinct : (ks us : List ℕ) → IsDistinct us → IsDistinct (add_ids ks us)
unfolding add_ids
add_ids-IsDistinct [] us d = d
add_ids-IsDistinct (k ∷ ks) us d = add_ids-IsDistinct ks (add_id k us) (add_id-IsDistinct k us d)

contains-add_ids :
    (u : ℕ) (ks us : List ℕ) → contains u (add_ids ks us) ≡ (contains u ks || contains u us)
unfolding add_ids
contains-add_ids u [] us = refl
contains-add_ids u (k ∷ ks) us =
    ground (arith, contains-add_ids u ks (add_id k us), contains-add_id u k us)

pub add_expense_ids-IsDistinct :
    (es : List GroupExpense) (us : List ℕ) → IsDistinct us → IsDistinct (add_expense_ids es us)
unfolding add_expense_ids
add_expense_ids-IsDistinct [] us d = d
add_expense_ids-IsDistinct (e ∷ es) us d =
    add_expense_ids-IsDistinct es (add_ids (share_ids e.shares) (add_id e.payer_user_id us)) (
      add_ids-IsDistinct (share_ids e.shares) (add_id e.payer_user_id us)
        (add_id-IsDistinct e.payer_user_id us d))

pub add_settlement_ids-IsDistinct :
    (ss : List Settlement) (us : List ℕ) → IsDistinct us → IsDistinct (add_settlement_ids ss us)
unfolding add_settlement_ids
add_settlement_ids-IsDistinct [] us d = d
add_settlement_ids-IsDistinct (s ∷ ss) us d =
    add_settlement_ids-IsDistinct ss (add_id s.to_user_id (add_id s.from_user_id us)) (
      add_id-IsDistinct s.to_user_id (add_id s.from_user_id us)
        (add_id-IsDistinct s.from_user_id us d))

-- Nobody is dropped.
add_expense_ids_mono :
    (u : ℕ) (es : List GroupExpense) (us : List ℕ)
    → contains u us ≡ true
    → contains u (add_expense_ids es us) ≡ true
unfolding add_expense_ids
add_expense_ids_mono u [] us h = h
add_expense_ids_mono u (e ∷ es) us h =
    add_expense_ids_mono u es (add_ids (share_ids e.shares) (add_id e.payer_user_id us)) (
      ground (
        arith,
        contains-add_ids u (share_ids e.shares) (add_id e.payer_user_id us),
        contains-add_id u e.payer_user_id us,
      ))

pub add_settlement_ids_mono :
    (u : ℕ) (ss : List Settlement) (us : List ℕ)
    → contains u us ≡ true
    → contains u (add_settlement_ids ss us) ≡ true
unfolding add_settlement_ids
add_settlement_ids_mono u [] us h = h
add_settlement_ids_mono u (s ∷ ss) us h =
    add_settlement_ids_mono u ss (add_id s.to_user_id (add_id s.from_user_id us)) (
      ground (
        arith,
        contains-add_id u s.to_user_id (add_id s.from_user_id us),
        contains-add_id u s.from_user_id us,
      ))

-- The payer and the users of the shares are among `ks`.
abbrev pub IsExpenseOf : List ℕ → GroupExpense → Type 0
IsExpenseOf ks e =
    (contains e.payer_user_id ks ≡ true) × All (λ k. contains k ks ≡ true) (share_ids e.shares)

abbrev pub IsSettlementOf : List ℕ → Settlement → Type 0
IsSettlementOf ks s = (contains s.from_user_id ks ≡ true) × (contains s.to_user_id ks ≡ true)

module _ (final : List ℕ) where
  listed :
      (ks us : List ℕ)
      → ((u : ℕ) → contains u us ≡ true → contains u final ≡ true)
      → ((u : ℕ) → contains u ks ≡ true → contains u us ≡ true)
      → All (λ k. contains k final ≡ true) ks
  listed [] us up h = tt
  listed (k ∷ ks) us up h = (up k (h k (ground arith)), listed ks us up (λ u e. h u (ground arith)))

  pub expenses_covered :
      (es : List GroupExpense) (us : List ℕ)
      → ((u : ℕ) → contains u (add_expense_ids es us) ≡ true → contains u final ≡ true)
      → All (IsExpenseOf final) es
  unfolding add_expense_ids
  expenses_covered [] us up = tt
  expenses_covered (e ∷ es) us up =
      let paid = add_id e.payer_user_id us in
      let us' = add_ids (share_ids e.shares) paid in
      let up' = λ (u : ℕ) (h : contains u us' ≡ true). up u (add_expense_ids_mono u es us' h) in
      (
        (
          up' e.payer_user_id (
              ground (
                arith,
                contains-add_ids e.payer_user_id (share_ids e.shares) paid,
                contains-add_id e.payer_user_id e.payer_user_id us,
              )),
          listed (share_ids e.shares) us' up'
              (λ u h. ground (arith, contains-add_ids u (share_ids e.shares) paid)),
        ),
        expenses_covered es us' up,
      )

  pub settlements_covered :
      (ss : List Settlement) (us : List ℕ)
      → ((u : ℕ) → contains u (add_settlement_ids ss us) ≡ true → contains u final ≡ true)
      → All (IsSettlementOf final) ss
  unfolding add_settlement_ids
  settlements_covered [] us up = tt
  settlements_covered (s ∷ ss) us up =
      let sender = add_id s.from_user_id us in
      let us' = add_id s.to_user_id sender in
      let up' = λ (u : ℕ) (h : contains u us' ≡ true). up u (add_settlement_ids_mono u ss us' h) in
      (
        (
          up' s.from_user_id (
              ground (
                arith,
                contains-add_id s.from_user_id s.to_user_id sender,
                contains-add_id s.from_user_id s.from_user_id us,
              )),
          up' s.to_user_id (ground (arith, contains-add_id s.to_user_id s.to_user_id sender)),
        ),
        settlements_covered ss us' up,
      )

-- Sorting keeps the ids.
contains-insert_id :
    (u k : ℕ) (ks : List ℕ) → contains u (insert_id k ks) ≡ (u == k || contains u ks)
unfolding insert_id
contains-insert_id u k [] = refl
contains-insert_id u k (j ∷ js) = elim (Bool-cases (leb k j)) [
  | inl le ↦ rw le
  | inr gt ↦ rw gt (ground (arith, contains-insert_id u k js))
]

pub contains-sort_ids : (u : ℕ) (ks : List ℕ) → contains u (sort_ids ks) ≡ contains u ks
unfolding sort_ids
contains-sort_ids u [] = refl
contains-sort_ids u (k ∷ ks) =
    ground (arith, contains-insert_id u k (sort_ids ks), contains-sort_ids u ks)

insert_id-IsDistinct :
    (k : ℕ) (ks : List ℕ) → contains k ks ≡ false → IsDistinct ks → IsDistinct (insert_id k ks)
unfolding insert_id
insert_id-IsDistinct k [] h d = (refl, tt)
insert_id-IsDistinct k (j ∷ js) h d = elim (Bool-cases (leb k j)) [
  | inl le ↦ rw le (h, d)
  | inr gt ↦
      rw gt
        (ground (arith, contains-insert_id j k js), insert_id-IsDistinct k js (ground arith) d.1)
]

pub sort_ids-IsDistinct : (ks : List ℕ) → IsDistinct ks → IsDistinct (sort_ids ks)
unfolding sort_ids
sort_ids-IsDistinct [] d = tt
sort_ids-IsDistinct (k ∷ ks) d =
    insert_id-IsDistinct k (sort_ids ks) (contains-sort_ids k ks ∙ d.0) (sort_ids-IsDistinct ks d.1)
