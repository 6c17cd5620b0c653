-- ===== src/Settlements/Text.antt =====
-- The methods `strip` and `upper` of an ASCII text, and its equality. A text is its code points.
use ulutekproje.Common.{
  ℕ, ◌-◌, ◌≡◌, refl, ◌↔◌, Bool, true, false, ◌&&◌, ◌||◌, List, [], ◌∷◌, arith, ◌==◌, leb, ==_iff,
  if◌then◌else◌,
}

-- Tab to carriage return, the separators 28 to 31, and the space.
unfoldable pub is_space : ℕ → Bool
is_space c = leb 9 c && leb c 13 || leb 28 c && leb c 32

unfoldable pub strip_left : List ℕ → List ℕ
unfolding is_space
strip_left [] = []
strip_left (c ∷ cs) = if is_space c then strip_left cs else c ∷ cs

unfoldable pub strip_right : List ℕ → List ℕ
unfolding is_space
strip_right [] = []
strip_right (c ∷ cs) =
    let rest = strip_right cs in
    elim rest [ [] ↦ (if is_space c then [] else c ∷ []) | r ∷ rs ↦ c ∷ r ∷ rs ]

unfoldable pub strip : List ℕ → List ℕ
unfolding strip_left strip_right
strip cs = strip_right (strip_left cs)

unfoldable pub upper : List ℕ → List ℕ
upper [] = []
upper (c ∷ cs) = (if leb 97 c && leb c 122 then c - 32 else c) ∷ upper cs

unfoldable pub same_text : List ℕ → List ℕ → Bool
same_text [] [] = true
same_text [] (d ∷ ds) = false
same_text (c ∷ cs) [] = false
same_text (c ∷ cs) (d ∷ ds) = c == d && same_text cs ds

pub same_text_iff : (cs ds : List ℕ) → (same_text cs ds ≡ true) ↔ (cs ≡ ds)
unfolding same_text
same_text_iff [] [] = ((λ _. refl), (λ _. refl))
same_text_iff [] (d ∷ ds) = ((λ h. cc), (λ h. cc))
same_text_iff (c ∷ cs) [] = ((λ h. cc), (λ h. cc))
same_text_iff (c ∷ cs) (d ∷ ds) =
    let (to, from) = same_text_iff cs ds in
    ((λ h. grind (arith, to, ==_iff c d)), (λ h. grind (arith, from, ==_iff c d)))
