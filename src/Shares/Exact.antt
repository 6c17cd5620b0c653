-- ===== src/Shares/Exact.antt =====
-- `validate_exact_shares`: the given shares, checked against the total and sorted by user.
use mathlib.Core.List.{Perm}
use mathlib.Core.List.Perm
use ulutekproje.Common.Int.{ℤ, pos, ◌+ℤ◌, ◌≤ℤ◌, eqb_ℤ, eqb_ℤ_iff, leb_ℤ, int_laws, parts_of_eq}
use ulutekproje.Common.Result.{ok, err}
use ulutekproje.Common.{
  ℕ, ◌≤◌, ◌<◌, ◌≢◌, Bool, ◌≡◌, refl, ◌↔◌, ◌⊎◌, inl, inr, false, ◌||◌, List, [], ◌∷◌, arith, length,
  All, leb, Bool-cases, leb→le, leb→lt,
}
use ulutekproje.Shares.{
  Share, SplitError, shares_total, any_negative, insert_share, sort_shares, validate_exact_shares,
  is_empty, invalid_amount, exact_total_must_match_expense,
}

-- The users ascend.
abbrev pub IsSorted : List Share → Type 0
IsSorted [] = Unit
IsSorted (s ∷ ss) = All (λ (t : Share). s.0 ≤ t.0) ss × IsSorted ss

abbrev pub IsNonneg : Share → Type 0
IsNonneg s = pos 0 ≤ℤ s.1

-- A positive total, and one share or more, none of them negative.
abbrev pub IsAcceptable : ℤ → List Share → Type 0
IsAcceptable total ss = (pos 1 ≤ℤ total) × (0 < length ss) × All IsNonneg ss

insert_share-perm : (s : Share) (ts : List Share) → Perm (insert_share s ts) (s ∷ ts)
unfolding insert_share
insert_share-perm s [] = Perm.rfl
insert_share-perm s (t ∷ ts) = elim (Bool-cases (leb s.0 t.0)) [
  | inl le ↦ rw le Perm.rfl
  | inr gt ↦ rw gt (Perm.trans (Perm.cons t (insert_share-perm s ts)) (Perm.swap s t ts))
]

sort_shares-perm : (ss : List Share) → Perm (sort_shares ss) ss
unfolding sort_shares
sort_shares-perm [] = Perm.rfl
sort_shares-perm (s ∷ ss) =
    Perm.trans (insert_share-perm s (sort_shares ss)) (Perm.cons s (sort_shares-perm ss))

insert_share-All :
    (P : Share → Type 0) (s : Share) (ts : List Share) → P s → All P ts → All P (insert_share s ts)
unfolding insert_share
insert_share-All P s [] p h = (p, tt)
insert_share-All P s (t ∷ ts) p h = elim (Bool-cases (leb s.0 t.0)) [
  | inl le ↦ rw le (p, h)
  | inr gt ↦ rw gt (h.0, insert_share-All P s ts p h.1)
]

All-le :
    (a b : ℕ) (ts : List Share)
    → a ≤ b
    → All (λ (t : Share). b ≤ t.0) ts
    → All (λ (t : Share). a ≤ t.0) ts
All-le a b [] le h = tt
All-le a b (t ∷ ts) le h = (omega (arith, h.0), All-le a b ts le h.1)

insert_share-IsSorted : (s : Share) (ts : List Share) → IsSorted ts → IsSorted (insert_share s ts)
unfolding insert_share
insert_share-IsSorted s [] h = (tt, tt)
insert_share-IsSorted s (t ∷ ts) h = elim (Bool-cases (leb s.0 t.0)) [
  | inl le ↦ let first = leb→le s.0 t.0 le in rw le ((first, All-le s.0 t.0 ts first h.0), h)
  | inr gt ↦
      let later = leb→lt s.0 t.0 gt in
      rw gt (
        insert_share-All (λ (u : Share). t.0 ≤ u.0) s ts (omega arith) h.0,
        insert_share-IsSorted s ts h.1,
      )
]

sort_shares-IsSorted : (ss : List Share) → IsSorted (sort_shares ss)
unfolding sort_shares
sort_shares-IsSorted [] = tt
sort_shares-IsSorted (s ∷ ss) = insert_share-IsSorted s (sort_shares ss) (sort_shares-IsSorted ss)

shares_total-insert_share :
    (s : Share) (ts : List Share) → shares_total (insert_share s ts) ≡ s.1 +ℤ shares_total ts
unfolding insert_share shares_total
shares_total-insert_share s [] = refl
shares_total-insert_share s (t ∷ ts) = elim (Bool-cases (leb s.0 t.0)) [
  | inl le ↦ rw le
  | inr gt ↦ rw gt (omega (int_laws, parts_of_eq (shares_total-insert_share s ts)))
]

pub shares_total-sort_shares : (ss : List Share) → shares_total (sort_shares ss) ≡ shares_total ss
unfolding sort_shares shares_total
shares_total-sort_shares [] = refl
shares_total-sort_shares (s ∷ ss) =
    rw (shares_total-insert_share s (sort_shares ss), shares_total-sort_shares ss)

any_negative_iff : (ss : List Share) → (any_negative ss ≡ false) ↔ All IsNonneg ss
any_negative_iff [] = ((λ _. tt), (λ _. refl))
any_negative_iff (s ∷ ss) =
    let ih = any_negative_iff ss in
    ((λ e. (ground arith, ih.0 (ground arith))), (λ h. ground (arith, ih.1 h.1)))

-- The first guard.
abbrev is_bad : ℤ → List Share → Bool
is_bad total ss = leb_ℤ total (pos 0) || is_empty ss || any_negative ss

is_bad_iff : (total : ℤ) (ss : List Share) → (is_bad total ss ≡ false) ↔ IsAcceptable total ss
is_bad_iff total [] = ((λ e. ground arith), (λ h. absurd (omega (arith, h.1))))
is_bad_iff total (s ∷ ss) =
    let each = any_negative_iff (s ∷ ss) in
    (
      (λ e. (ground arith, omega arith, each.0 (ground arith))),
      (λ h. ground (arith, h.0, each.1 h.2)),
    )

-- Acceptable shares that add up to the total are returned, sorted by user.
pub exact_shares_lem :
    (total : ℤ) (ss : List Share)
    → IsAcceptable total ss
    → shares_total ss ≡ total
    → (rs : List Share) × (validate_exact_shares total ss ≡ ok rs)
      × Perm rs ss
      × IsSorted rs
      × (shares_total rs ≡ total)
unfolding validate_exact_shares
exact_shares_lem total ss h sum = (
  sort_shares ss,
  rw ((is_bad_iff total ss).1 h, (eqb_ℤ_iff (shares_total ss) total).1 sum),
  sort_shares-perm ss,
  sort_shares-IsSorted ss,
  rw (shares_total-sort_shares ss) sum,
)

-- The split is refused as an invalid amount exactly when the shares are not acceptable, for their
-- sum exactly when they are acceptable and add up to another, and never otherwise.
exact_shares_refuses :
    (total : ℤ) (ss : List Share) (e : SplitError)
    → (validate_exact_shares total ss ≡ err e) ↔ (
        ((e ≡ invalid_amount) × (¬ IsAcceptable total ss))
        ⊎ ((e ≡ exact_total_must_match_expense)
            × (IsAcceptable total ss × (shares_total ss ≢ total))))
unfolding validate_exact_shares
exact_shares_refuses total ss e = elim (Bool-cases (is_bad total ss)) [
  | inl bad ↦
      let off : ¬ IsAcceptable total ss = λ h. cc (bad, (is_bad_iff total ss).1 h) in
      (
        (λ h. inl (cc (bad, h), off)),
        λ cases. elim cases [ inl (e', _) ↦ rw (bad, e') | inr (_, (h, _)) ↦ absurd (off h) ],
      )
  | inr fine ↦ elim (Bool-cases (eqb_ℤ (shares_total ss) total)) [
    | inl same ↦ (
      (λ h. cc (fine, same, h)),
      λ cases. elim cases [
        | inl (_, off) ↦ absurd (off ((is_bad_iff total ss).0 fine))
        | inr (_, (_, other)) ↦ absurd (other ((eqb_ℤ_iff (shares_total ss) total).0 same))
      ],
    )
    | inr differs ↦ (
      (λ h. inr (
        cc (fine, differs, h),
        (
          (is_bad_iff total ss).0 fine,
          λ sum. cc (differs, (eqb_ℤ_iff (shares_total ss) total).1 sum),
        ),
      )),
      λ cases. elim cases [
        | inl (_, off) ↦ absurd (off ((is_bad_iff total ss).0 fine))
        | inr (e', _) ↦ rw (fine, differs, e')
      ],
    )
  ]
]
