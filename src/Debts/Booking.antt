-- ===== src/Debts/Booking.antt =====
-- The dict loops of `apply_settlements` and `_validate_result`: payments booked on amounts.
use ulutekproje.Common.Int.{ℤ, pos, ◌+ℤ◌, ◌-ℤ◌, int_laws, parts_of_eq}
use ulutekproje.Common.Dict.{Dict, keys, value, add_at, keys-add_at, value-add_at}
use ulutekproje.Common.Result.{ok, err}
use ulutekproje.Common.{
  ℕ, ◌≡◌, refl, ◌∙◌, ◌⊎◌, inl, inr, Bool, true, false, List, [], ◌∷◌, arith, ◌==◌, contains, All,
  if◌then◌else◌,
}
use ulutekproje.Debts.{DebtError, DebtTransfer, book, book_all}
use ulutekproje.Debts.Matching.{sent, received}

-- Both users of the transfer have an amount.
abbrev pub IsWithin : List ℕ → DebtTransfer → Type 0
IsWithin members t =
    (contains t.from_user_id members ≡ true) × (contains t.to_user_id members ≡ true)

-- `after` is `before` with every payment moved.
pub record IsBooked (before after : Dict) (ts : List DebtTransfer) : Type 0 where
  pub same_keys : keys after ≡ keys before
  pub moved : (u : ℕ) → value u after +ℤ received u ts ≡ value u before +ℤ sent u ts

abbrev paid : Bool → Bool → ℤ → ℤ → ℤ
paid sends gets v amt =
    let left = if sends then v +ℤ amt else v in if gets then left +ℤ (pos 0 -ℤ amt) else left

-- One payment, on one user's amount.
moved_step :
    (sends gets : Bool) (v after amt s r mid : ℤ)
    → mid ≡ paid sends gets v amt
    → after +ℤ r ≡ mid +ℤ s
    → after +ℤ (if gets then amt +ℤ r else r) ≡ v +ℤ (if sends then amt +ℤ s else s)
moved_step true true v after amt s r mid e h = omega (int_laws, parts_of_eq e, parts_of_eq h)
moved_step true false v after amt s r mid e h = omega (int_laws, parts_of_eq e, parts_of_eq h)
moved_step false true v after amt s r mid e h = omega (int_laws, parts_of_eq e, parts_of_eq h)
moved_step false false v after amt s r mid e h = omega (int_laws, parts_of_eq e, parts_of_eq h)

module _ (e : DebtError) where
  book-within :
      (d : Dict) (t : DebtTransfer)
      → IsWithin (keys d) t
      → book e d t
        ≡ ok (
            add_at t.to_user_id
              (pos 0 -ℤ t.amount_in_minor)
              (add_at t.from_user_id t.amount_in_minor d))
  unfolding book
  book-within d t h = rw (h.0, h.1)

  keys-book :
      (d : Dict) (t : DebtTransfer)
      → keys (
          add_at t.to_user_id
            (pos 0 -ℤ t.amount_in_minor)
            (add_at t.from_user_id t.amount_in_minor d))
        ≡ keys d
  keys-book d t =
      keys-add_at t.to_user_id (pos 0 -ℤ t.amount_in_minor)
        (add_at t.from_user_id t.amount_in_minor d)
      ∙ keys-add_at t.from_user_id t.amount_in_minor d

  value-book :
      (d : Dict) (t : DebtTransfer) (u : ℕ)
      → IsWithin (keys d) t
      → value u (
          add_at t.to_user_id
            (pos 0 -ℤ t.amount_in_minor)
            (add_at t.from_user_id t.amount_in_minor d))
        ≡ paid (u == t.from_user_id) (u == t.to_user_id) (value u d) t.amount_in_minor
  value-book d t u h = rw (
    value-add_at u t.to_user_id (pos 0 -ℤ t.amount_in_minor)
        (add_at t.from_user_id t.amount_in_minor d)
        (rw (keys-add_at t.from_user_id t.amount_in_minor d) h.1),
    value-add_at u t.from_user_id t.amount_in_minor d h.0,
  )

  -- Between users of the dict every payment is booked.
  pub book_all-IsBooked :
      (d : Dict) (ts : List DebtTransfer)
      → All (IsWithin (keys d)) ts
      → (d' : Dict) × (book_all e d ts ≡ ok d') × IsBooked d d' ts
  unfolding book_all sent received
  book_all-IsBooked d [] h = (d, refl, record { same_keys = refl; moved = λ u. refl })
  book_all-IsBooked d (t ∷ ts) h =
      let d₁ =
        add_at t.to_user_id (pos 0 -ℤ t.amount_in_minor)
          (add_at t.from_user_id t.amount_in_minor d) in
      let same = keys-book d t in
      let (d', e', b) = book_all-IsBooked d₁ ts (rw same h.1) in
      (
        d',
        rw (book-within d t h.0) e',
        record {
          same_keys = b.same_keys ∙ same;
          moved = λ u.
              moved_step (u == t.from_user_id) (u == t.to_user_id) (value u d) (value u d')
                t.amount_in_minor (sent u ts) (received u ts) (value u d₁) (value-book d t u h.0)
                (b.moved u);
        },
      )

  book_cases : (d : Dict) (t : DebtTransfer) → IsWithin (keys d) t ⊎ (book e d t ≡ err e)
  unfolding book
  book_cases d t = ground arith

  -- A payment of, or to, a user outside the dict is refused.
  pub book_all_cases :
      (d : Dict) (ts : List DebtTransfer) → All (IsWithin (keys d)) ts ⊎ (book_all e d ts ≡ err e)
  unfolding book_all
  book_all_cases d [] = inl tt
  book_all_cases d (t ∷ ts) = elim (book_cases d t) [
    | inr refused ↦ inr (rw refused)
    | inl h ↦
        let d₁ =
          add_at t.to_user_id (pos 0 -ℤ t.amount_in_minor)
            (add_at t.from_user_id t.amount_in_minor d) in
        elim (book_all_cases d₁ ts) [
          | inl hs ↦ inl (h, rw (keys-book d t) at hs)
          | inr refused ↦ inr (rw (book-within d t h) refused)
        ]
  ]
