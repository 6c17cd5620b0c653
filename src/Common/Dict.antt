-- ===== src/Common/Dict.antt =====
-- A Python dict keyed by numbers, in insertion order, with integer values.
use ulutekproje.Common.Int.{ℤ, pos, ◌+ℤ◌, eqb_ℤ, eqb_ℤ_iff, int_laws}
use ulutekproje.Common.{
  ℕ, ◌≡◌, refl, Bool, true, false, ◌&&◌, ◌||◌, List, [], ◌∷◌, arith, ◌==◌, contains, IsDistinct,
  if◌then◌else◌,
}

abbrev pub Dict : Type 0
Dict = List (ℕ × ℤ)

abbrev pub keys : Dict → List ℕ
keys [] = []
keys ((j, v) ∷ d) = j ∷ keys d

-- `d.get(k, 0)`, which is also what a `defaultdict(int)` reads.
unfoldable pub value : ℕ → Dict → ℤ
value k [] = pos 0
value k ((j, v) ∷ d) = if k == j then v else value k d

-- `d[k] = v`
unfoldable pub insert : ℕ → ℤ → Dict → Dict
insert k v [] = (k, v) ∷ []
insert k v ((j, w) ∷ d) = if k == j then (j, v) ∷ d else (j, w) ∷ insert k v d

-- `d[k] += v` for a key of the dict; without the key (a KeyError) nothing changes.
unfoldable pub add_at : ℕ → ℤ → Dict → Dict
add_at k v [] = []
add_at k v ((j, w) ∷ d) = if k == j then (j, w +ℤ v) ∷ d else (j, w) ∷ add_at k v d

-- `d[k] += v` for a `defaultdict(int)`, which adds a missing key.
unfoldable pub add_default : ℕ → ℤ → Dict → Dict
add_default k v [] = (k, pos 0 +ℤ v) ∷ []
add_default k v ((j, w) ∷ d) = if k == j then (j, w +ℤ v) ∷ d else (j, w) ∷ add_default k v d

-- The dict comprehension `{k: v for k, v in entries}`, which begins with an empty dict.
unfoldable pub from_entries : Dict → List (ℕ × ℤ) → Dict
from_entries d [] = d
from_entries d ((k, v) ∷ es) = from_entries (insert k v d) es

-- Whether no value is other than zero.
unfoldable pub all_zero : Dict → Bool
all_zero [] = true
all_zero ((j, v) ∷ d) = eqb_ℤ v (pos 0) && all_zero d

-- The sum of the values of an entry list at one key.
unfoldable pub sum_at : ℕ → Dict → ℤ
sum_at k [] = pos 0
sum_at k ((j, v) ∷ d) = if k == j then v +ℤ sum_at k d else sum_at k d

pub keys-add_at : (k : ℕ) (v : ℤ) (d : Dict) → keys (add_at k v d) ≡ keys d
unfolding add_at
keys-add_at k v [] = refl
keys-add_at k v ((j, w) ∷ d) = ground (arith, keys-add_at k v d)

pub value-add_at :
    (i k : ℕ) (v : ℤ) (d : Dict)
    → contains k (keys d) ≡ true
    → value i (add_at k v d) ≡ (if i == k then value i d +ℤ v else value i d)
unfolding value add_at
value-add_at i k v [] h = ground arith
value-add_at i k v ((j, w) ∷ d) h = ground (arith, value-add_at i k v d)

pub value-add_default :
    (i k : ℕ) (v : ℤ) (d : Dict)
    → value i (add_default k v d) ≡ (if i == k then value i d +ℤ v else value i d)
unfolding value add_default
value-add_default i k v [] = ground arith
value-add_default i k v ((j, w) ∷ d) = ground (arith, value-add_default i k v d)

-- A key that does not occur has the sum zero.
pub sum_at-absent : (k : ℕ) (d : Dict) → contains k (keys d) ≡ false → sum_at k d ≡ pos 0
unfolding sum_at
sum_at-absent k [] h = refl
sum_at-absent k ((j, v) ∷ d) h = ground (arith, sum_at-absent k d)

pub value-eq-sum_at : (k : ℕ) (d : Dict) → IsDistinct (keys d) → value k d ≡ sum_at k d
unfolding value sum_at
value-eq-sum_at k [] h = refl
value-eq-sum_at k ((j, v) ∷ d) h = grind (int_laws, value-eq-sum_at k d h.1, sum_at-absent k d)

pub value-absent : (k : ℕ) (d : Dict) → contains k (keys d) ≡ false → value k d ≡ pos 0
unfolding value
value-absent k [] h = refl
value-absent k ((j, v) ∷ d) h = ground (arith, value-absent k d)

-- A dict whose every read gives zero holds nothing but zeros.
pub all_zero-of_value :
    (d : Dict) → IsDistinct (keys d) → ((k : ℕ) → value k d ≡ pos 0) → all_zero d ≡ true
unfolding value all_zero
all_zero-of_value [] h z = refl
all_zero-of_value ((j, v) ∷ d) h z =
    rw ((eqb_ℤ_iff v (pos 0)).1 (head_zero (z j)), all_zero-of_value d h.1 tail_zero)
  where
    head_zero : (if j == j then v else value j d) ≡ pos 0 → v ≡ pos 0
    head_zero e = ground arith

    tail_zero : (k : ℕ) → value k d ≡ pos 0
    tail_zero k = ground (arith, z k, value-absent j d h.0)

pub contains-insert :
    (i k : ℕ) (v : ℤ) (d : Dict)
    → contains i (keys (insert k v d)) ≡ (if i == k then true else contains i (keys d))
unfolding insert
contains-insert i k v [] = ground arith
contains-insert i k v ((j, w) ∷ d) = ground (arith, contains-insert i k v d)

pub insert-IsDistinct :
    (k : ℕ) (v : ℤ) (d : Dict) → IsDistinct (keys d) → IsDistinct (keys (insert k v d))
unfolding insert
insert-IsDistinct k v [] h = (refl, tt)
insert-IsDistinct k v ((j, w) ∷ d) h =
    ground (arith, insert-IsDistinct k v d h.1, contains-insert j k v d)

pub value-insert :
    (i k : ℕ) (v : ℤ) (d : Dict) → value i (insert k v d) ≡ (if i == k then v else value i d)
unfolding value insert
value-insert i k v [] = ground arith
value-insert i k v ((j, w) ∷ d) = ground (arith, value-insert i k v d)

pub contains-from_entries :
    (i : ℕ) (es d : Dict)
    → contains i (keys (from_entries d es)) ≡ (contains i (keys es) || contains i (keys d))
unfolding from_entries
contains-from_entries i [] d = refl
contains-from_entries i ((k, v) ∷ es) d =
    ground (arith, contains-from_entries i es (insert k v d), contains-insert i k v d)

pub from_entries-IsDistinct :
    (es d : Dict) → IsDistinct (keys d) → IsDistinct (keys (from_entries d es))
unfolding from_entries
from_entries-IsDistinct [] d h = h
from_entries-IsDistinct ((k, v) ∷ es) d h =
    from_entries-IsDistinct es (insert k v d) (insert-IsDistinct k v d h)

-- Reading a comprehension over entries with distinct keys reads the entries.
pub value-from_entries :
    (i : ℕ) (es d : Dict)
    → IsDistinct (keys es)
    → value i (from_entries d es) ≡ (if contains i (keys es) then value i es else value i d)
unfolding value from_entries
value-from_entries i [] d h = refl
value-from_entries i ((k, v) ∷ es) d h =
    ground (arith, value-from_entries i es (insert k v d) h.1, value-insert i k v d)

pub contains-add_default :
    (i k : ℕ) (v : ℤ) (d : Dict)
    → contains i (keys (add_default k v d)) ≡ (i == k || contains i (keys d))
unfolding add_default
contains-add_default i k v [] = refl
contains-add_default i k v ((j, w) ∷ d) = ground (arith, contains-add_default i k v d)

pub add_default-IsDistinct :
    (k : ℕ) (v : ℤ) (d : Dict) → IsDistinct (keys d) → IsDistinct (keys (add_default k v d))
unfolding add_default
add_default-IsDistinct k v [] h = (refl, tt)
add_default-IsDistinct k v ((j, w) ∷ d) h =
    ground (arith, add_default-IsDistinct k v d h.1, contains-add_default j k v d)
