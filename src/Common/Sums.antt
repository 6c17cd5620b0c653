-- ===== src/Common/Sums.antt =====
-- Finite sums of integers over a list of keys.
use ulutekproje.Common.Int.{ℤ, pos, ◌+ℤ◌, int_laws, parts_of_eq}
use ulutekproje.Common.{
  ℕ, ◌≡◌, refl, true, false, List, [], ◌∷◌, arith, ◌==◌, contains, IsDistinct, if◌then◌else◌,
}

unfoldable pub sum_over : List ℕ → (ℕ → ℤ) → ℤ
sum_over [] f = pos 0
sum_over (k ∷ ks) f = f k +ℤ sum_over ks f

pub sum_over-zero : (ks : List ℕ) → sum_over ks (λ k. pos 0) ≡ pos 0
unfolding sum_over
sum_over-zero [] = refl
sum_over-zero (k ∷ ks) = omega (int_laws, parts_of_eq (sum_over-zero ks))

pub sum_over-ext :
    (ks : List ℕ) (f g : ℕ → ℤ) → ((k : ℕ) → f k ≡ g k) → sum_over ks f ≡ sum_over ks g
unfolding sum_over
sum_over-ext [] f g p = refl
sum_over-ext (k ∷ ks) f g p = cc (p k, sum_over-ext ks f g p)

-- Sums of equal sums.
pub sum_over-add_eq :
    (ks : List ℕ) (f g h e : ℕ → ℤ)
    → ((k : ℕ) → f k +ℤ g k ≡ h k +ℤ e k)
    → sum_over ks f +ℤ sum_over ks g ≡ sum_over ks h +ℤ sum_over ks e
unfolding sum_over
sum_over-add_eq [] f g h e p = refl
sum_over-add_eq (k ∷ ks) f g h e p =
    omega (int_laws, parts_of_eq (p k), parts_of_eq (sum_over-add_eq ks f g h e p))

module _ (i : ℕ) (a : ℤ) (f : ℕ → ℤ) where
  pub sum_over-other :
      (ks : List ℕ)
      → contains i ks ≡ false
      → sum_over ks (λ k. if k == i then a +ℤ f k else f k) ≡ sum_over ks f
  unfolding sum_over
  sum_over-other [] h = refl
  sum_over-other (k ∷ ks) h = ground (arith, sum_over-other ks)

  -- A summand that is added at one key of the list.
  pub sum_over-at :
      (ks : List ℕ)
      → IsDistinct ks
      → contains i ks ≡ true
      → sum_over ks (λ k. if k == i then a +ℤ f k else f k) ≡ a +ℤ sum_over ks f
  unfolding sum_over
  sum_over-at [] d h = cc
  sum_over-at (k ∷ ks) d h = grind (int_laws, sum_over-at ks d.1, sum_over-other ks)

  -- A value that is set at a key outside the list.
  pub sum_over-set_other :
      (ks : List ℕ)
      → contains i ks ≡ false
      → sum_over ks (λ k. if k == i then a else f k) ≡ sum_over ks f
  unfolding sum_over
  sum_over-set_other [] h = refl
  sum_over-set_other (k ∷ ks) h = ground (arith, sum_over-set_other ks)
