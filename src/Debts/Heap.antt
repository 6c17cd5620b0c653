-- ===== src/Debts/Heap.antt =====
-- The priority queues of `simplify`: Python's `heapq` on pairs `(negative amount, user_id)`, which
-- compares pairs from the left. A heap is kept as its items in the order in which `heappop` gives
-- them, so `heappop` takes the head.
use ulutekproje.Common.Int.{ℤ, ltb_ℤ}
use ulutekproje.Common.{ℕ, Bool, true, false, List, [], ◌∷◌, leb, if◌then◌else◌}

abbrev pub Item : Type 0
Item = ℤ × ℕ

-- `a <= b` on pairs.
abbrev pub item_le : Item → Item → Bool
item_le (a, i) (b, j) = if ltb_ℤ a b then true else if ltb_ℤ b a then false else leb i j

unfoldable pub heappush : Item → List Item → List Item
heappush x [] = x ∷ []
heappush x (y ∷ h) = if item_le x y then x ∷ y ∷ h else y ∷ heappush x h

unfoldable pub heapify : List Item → List Item
unfolding heappush
heapify [] = []
heapify (x ∷ xs) = heappush x (heapify xs)
