-- ===== src/Sync/Paging.antt =====
-- The order of the rows behind a cursor.
use mathlib.Core.List.{Perm}
use mathlib.Core.List.Perm
use ulutekproje.Common.{
  ℕ, zero, suc, ◌≤◌, ◌≡◌, refl, ap, ◌∙◌, inl, inr, some, true, false, ◌||◌, List, [], ◌∷◌, ◌++◌,
  arith, ◌==◌, ltb, length, All, contains, IsDistinct, Bool-cases,
}
use ulutekproje.Sync.Pull.{
  Change, before, is_after, insert_change, sort_changes, after_cursor, take,
}

module _ {A : Type 0} where
  -- In the order of the statement, without a tie.
  abbrev pub IsIncreasing : List (Change A) → Type 0
  IsIncreasing [] = Unit
  IsIncreasing (x ∷ xs) = All (λ y. before x y ≡ true) xs × IsIncreasing xs

  abbrev pub ids : List (Change A) → List ℕ
  ids [] = []
  ids (x ∷ xs) = x.id ∷ ids xs

  contains-insert_change :
      (k : ℕ) (x : Change A) (ys : List (Change A))
      → contains k (ids (insert_change x ys)) ≡ (k == x.id || contains k (ids ys))
  unfolding insert_change
  contains-insert_change k x [] = refl
  contains-insert_change k x (y ∷ ys) = ground (arith, contains-insert_change k x ys)

  contains-sort_changes :
      (k : ℕ) (xs : List (Change A)) → contains k (ids (sort_changes xs)) ≡ contains k (ids xs)
  unfolding sort_changes
  contains-sort_changes k [] = refl
  contains-sort_changes k (x ∷ xs) =
      contains-insert_change k x (sort_changes xs)
      ∙ ap (λ b. k == x.id || b) (contains-sort_changes k xs)

  before_trans : (x y z : Change A) → before x y ≡ true → before y z ≡ true → before x z ≡ true
  before_trans x y z h k = ground arith

  before-All :
      (x y : Change A) (zs : List (Change A))
      → before x y ≡ true
      → All (λ z. before y z ≡ true) zs
      → All (λ z. before x z ≡ true) zs
  before-All x y [] h ps = tt
  before-All x y (z ∷ zs) h ps = (before_trans x y z h ps.0, before-All x y zs h ps.1)

  before_insert :
      (y x : Change A) (zs : List (Change A))
      → before y x ≡ true
      → All (λ z. before y z ≡ true) zs
      → All (λ z. before y z ≡ true) (insert_change x zs)
  unfolding insert_change
  before_insert y x [] h ps = (h, tt)
  before_insert y x (z ∷ zs) h ps = elim (Bool-cases (before x z)) [
    | inl e ↦ rw e (h, ps)
    | inr e ↦ rw e (ps.0, before_insert y x zs h ps.1)
  ]

  insert_change-IsIncreasing :
      (x : Change A) (ys : List (Change A))
      → contains x.id (ids ys) ≡ false
      → IsIncreasing ys
      → IsIncreasing (insert_change x ys)
  unfolding insert_change
  insert_change-IsIncreasing x [] new ps = (tt, tt)
  insert_change-IsIncreasing x (y ∷ ys) new ps = elim (Bool-cases (before x y)) [
    | inl e ↦ rw e ((e, before-All x y ys e ps.0), ps)
    | inr e ↦
        let back : before y x ≡ true = ground (arith, e, new) in
        rw e (
          before_insert y x ys back ps.0,
          insert_change-IsIncreasing x ys (ground (arith, new)) ps.1,
        )
  ]

  pub sort_changes-IsIncreasing :
      (xs : List (Change A)) → IsDistinct (ids xs) → IsIncreasing (sort_changes xs)
  unfolding sort_changes
  sort_changes-IsIncreasing [] d = tt
  sort_changes-IsIncreasing (x ∷ xs) d =
      insert_change-IsIncreasing x (sort_changes xs) (contains-sort_changes x.id xs ∙ d.0)
        (sort_changes-IsIncreasing xs d.1)

  insert_change-perm : (x : Change A) (ys : List (Change A)) → Perm (insert_change x ys) (x ∷ ys)
  unfolding insert_change
  insert_change-perm x [] = Perm.rfl
  insert_change-perm x (y ∷ ys) = elim (Bool-cases (before x y)) [
    | inl e ↦ rw e Perm.rfl
    | inr e ↦ rw e (Perm.trans (Perm.cons y (insert_change-perm x ys)) (Perm.swap x y ys))
  ]

  pub sort_changes-perm : (xs : List (Change A)) → Perm (sort_changes xs) xs
  unfolding sort_changes
  sort_changes-perm [] = Perm.rfl
  sort_changes-perm (x ∷ xs) =
      Perm.trans (insert_change-perm x (sort_changes xs)) (Perm.cons x (sort_changes-perm xs))

  after_cursor-later :
      (x : Change A) (ys : List (Change A))
      → All (λ y. before x y ≡ true) ys
      → after_cursor (some (x.updated_at, x.id)) ys ≡ ys
  unfolding after_cursor
  after_cursor-later x [] ps = refl
  after_cursor-later x (y ∷ ys) ps =
      let here : is_after (some (x.updated_at, x.id)) y ≡ true = ground (arith, ps.0) in
      rw here (ap (λ zs. y ∷ zs) (after_cursor-later x ys ps.1))

  append-All : (P : Change A → Type 0) (xs ys : List (Change A)) → All P (xs ++ ys) → All P ys
  append-All P [] ys ps = ps
  append-All P (x ∷ xs) ys ps = append-All P xs ys ps.1

  -- The rows after the cursor of one row are those that follow it.
  pub after_cursor-append :
      (done : List (Change A)) (x : Change A) (rest : List (Change A))
      → IsIncreasing (done ++ (x ∷ rest))
      → after_cursor (some (x.updated_at, x.id)) (done ++ (x ∷ rest)) ≡ rest
  unfolding after_cursor
  after_cursor-append [] x rest ps =
      let here : is_after (some (x.updated_at, x.id)) x ≡ false = ground arith in
      rw here (after_cursor-later x rest ps.0)
  after_cursor-append (d ∷ done) x rest ps =
      let first = append-All (λ y. before d y ≡ true) done (x ∷ rest) ps.0 in
      let here : is_after (some (x.updated_at, x.id)) d ≡ false = ground (arith, first.0) in
      rw here (after_cursor-append done x rest ps.1)

  unfoldable pub drop : ℕ → List (Change A) → List (Change A)
  drop zero xs = xs
  drop (suc n) [] = []
  drop (suc n) (x ∷ xs) = drop n xs

  pub take-drop : (n : ℕ) (xs : List (Change A)) → take n xs ++ drop n xs ≡ xs
  unfolding take drop
  take-drop zero xs = refl
  take-drop (suc n) [] = refl
  take-drop (suc n) (x ∷ xs) = ap (λ ys. x ∷ ys) (take-drop n xs)

  pub length-drop : (n : ℕ) (xs : List (Change A)) → length (drop n xs) ≤ length xs
  unfolding drop
  length-drop zero xs = omega arith
  length-drop (suc n) [] = omega arith
  length-drop (suc n) (x ∷ xs) = omega (arith, length-drop n xs)

  pub take-take : (n : ℕ) (xs : List (Change A)) → take n (take (suc n) xs) ≡ take n xs
  unfolding take
  take-take zero xs = refl
  take-take (suc n) [] = refl
  take-take (suc n) (x ∷ xs) = ap (λ ys. x ∷ ys) (take-take n xs)

  pub length-take :
      (n : ℕ) (xs : List (Change A)) → ltb n (length (take (suc n) xs)) ≡ ltb n (length xs)
  unfolding take
  length-take zero [] = refl
  length-take zero (x ∷ xs) = ground arith
  length-take (suc n) [] = refl
  length-take (suc n) (x ∷ xs) = ground (arith, length-take n xs)

  pub take-all : (n : ℕ) (xs : List (Change A)) → ltb n (length xs) ≡ false → take n xs ≡ xs
  unfolding take
  take-all zero [] h = refl
  take-all zero (x ∷ xs) h = absurd (ground (arith, h))
  take-all (suc n) [] h = refl
  take-all (suc n) (x ∷ xs) h = ap (λ ys. x ∷ ys) (take-all n xs (ground (arith, h)))
