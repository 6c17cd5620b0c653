-- ===== src/Common/Result.antt =====
-- A call that returns a value or raises an exception.
use ulutekproje.Common.{⊤, ◌≡◌, refl, ◌⊎◌, inl, inr, Bool, true, false}

pub data Result (E A : Type 0) : Type 0 where
  ok : A → Result E A
  err : E → Result E A

module _ {E : Type 0} where
  infixl 5 ◌>>=◌ ◌>>◌
  abbrev pub ◌>>=◌ : {A B : Type 0} → Result E A → (A → Result E B) → Result E B
  ok a >>= f = f a
  err e >>= f = err e

  abbrev pub ◌>>◌ : {B : Type 0} → Result E ⊤ → Result E B → Result E B
  ok a >> k = k
  err e >> k = err e

  -- `if c: raise e`
  abbrev pub raise_if : Bool → E → Result E ⊤
  raise_if true e = err e
  raise_if false e = ok tt

pub Result-cases :
    {E A : Type 0} (m : Result E A) → ((a : A) × (m ≡ ok a)) ⊎ ((e : E) × (m ≡ err e))
Result-cases (ok a) = inl (a, refl)
Result-cases (err e) = inr (e, refl)
