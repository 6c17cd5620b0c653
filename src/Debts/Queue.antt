-- ===== src/Debts/Queue.antt =====
-- What the heaps of `simplify` hold, and how a push changes it.
use ulutekproje.Common.Int.{ℤ, pos, ◌+ℤ◌, ◌<ℤ◌, int_laws, parts_of_eq}
use ulutekproje.Common.{
  ℕ, suc, ◌≡◌, refl, inl, inr, ◌||◌, List, [], ◌∷◌, arith, ◌==◌, contains, length, All, Bool-cases,
  if◌then◌else◌,
}
use ulutekproje.Debts.Heap.{Item, item_le, heappush, heapify}

-- What the items of one user add up to, and what all items do.
unfoldable pub open_at : ℕ → List Item → ℤ
open_at u [] = pos 0
open_at u ((a, i) ∷ h) = if u == i then a +ℤ open_at u h else open_at u h

unfoldable pub open_total : List Item → ℤ
open_total [] = pos 0
open_total ((a, i) ∷ h) = a +ℤ open_total h

abbrev pub users : List Item → List ℕ
users [] = []
users ((a, i) ∷ h) = i ∷ users h

abbrev pub IsNegative : Item → Type 0
IsNegative (a, i) = a <ℤ pos 0

module _ (a : ℤ) (i : ℕ) where
  pub open_at-heappush :
      (u : ℕ) (h : List Item)
      → open_at u (heappush (a, i) h) ≡ (if u == i then a +ℤ open_at u h else open_at u h)
  unfolding open_at heappush
  open_at-heappush u [] = refl
  open_at-heappush u ((b, j) ∷ h) = elim (Bool-cases (item_le (a, i) (b, j))) [
    | inl first ↦ rw first
    | inr later ↦ rw later (grind (int_laws, open_at-heappush u h))
  ]

  pub open_total-heappush : (h : List Item) → open_total (heappush (a, i) h) ≡ a +ℤ open_total h
  unfolding open_total heappush
  open_total-heappush [] = refl
  open_total-heappush ((b, j) ∷ h) = elim (Bool-cases (item_le (a, i) (b, j))) [
    | inl first ↦ rw first
    | inr later ↦ rw later (omega (int_laws, parts_of_eq (open_total-heappush h)))
  ]

  pub contains-heappush :
      (u : ℕ) (h : List Item)
      → contains u (users (heappush (a, i) h)) ≡ (u == i || contains u (users h))
  unfolding heappush
  contains-heappush u [] = refl
  contains-heappush u ((b, j) ∷ h) = elim (Bool-cases (item_le (a, i) (b, j))) [
    | inl first ↦ rw first
    | inr later ↦ rw later (ground (arith, contains-heappush u h))
  ]

  pub length-heappush : (h : List Item) → length (heappush (a, i) h) ≡ suc (length h)
  unfolding heappush
  length-heappush [] = refl
  length-heappush ((b, j) ∷ h) = elim (Bool-cases (item_le (a, i) (b, j))) [
    | inl first ↦ rw first
    | inr later ↦ rw later (omega (arith, length-heappush h))
  ]

  pub heappush-IsNegative :
      (h : List Item) → a <ℤ pos 0 → All IsNegative h → All IsNegative (heappush (a, i) h)
  unfolding heappush
  heappush-IsNegative [] n hs = (n, tt)
  heappush-IsNegative ((b, j) ∷ h) n hs = elim (Bool-cases (item_le (a, i) (b, j))) [
    | inl first ↦ rw first (n, hs)
    | inr later ↦ rw later (hs.0, heappush-IsNegative h n hs.1)
  ]

-- `heapify` keeps the items.
pub open_at-heapify : (u : ℕ) (h : List Item) → open_at u (heapify h) ≡ open_at u h
unfolding open_at heapify
open_at-heapify u [] = refl
open_at-heapify u ((a, i) ∷ h) = rw (open_at-heappush a i u (heapify h), open_at-heapify u h)

pub open_total-heapify : (h : List Item) → open_total (heapify h) ≡ open_total h
unfolding open_total heapify
open_total-heapify [] = refl
open_total-heapify ((a, i) ∷ h) = rw (open_total-heappush a i (heapify h), open_total-heapify h)

pub contains-heapify :
    (u : ℕ) (h : List Item) → contains u (users (heapify h)) ≡ contains u (users h)
unfolding heapify
contains-heapify u [] = refl
contains-heapify u ((a, i) ∷ h) = rw (contains-heappush a i u (heapify h), contains-heapify u h)

pub length-heapify : (h : List Item) → length (heapify h) ≡ length h
unfolding heapify
length-heapify [] = refl
length-heapify ((a, i) ∷ h) = rw (length-heappush a i (heapify h), length-heapify h)

pub heapify-IsNegative : (h : List Item) → All IsNegative h → All IsNegative (heapify h)
unfolding heapify
heapify-IsNegative [] n = tt
heapify-IsNegative ((a, i) ∷ h) n =
    heappush-IsNegative a i (heapify h) n.0 (heapify-IsNegative h n.1)
