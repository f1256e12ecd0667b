-- ===== src/GoText/Order.antt =====
-- Go's `<` on strings, as a strict linear order.
use Prim.Native.Char.{Char, code}
use Prim.Native.String.{compare}
use mathlib.Core.Path.{ap₂}
use text.Mathlib.Text.{is_lt}
use text.Mathlib.TextEquality.{Char-path}
use golang_assignment.Prelude.{
  ℕ, String, ◌≡◌, ◌⊎◌, inl, inr, refl, ap, ◌∙◌, Bool, true, false, arith, ltb, nat_eq,
  if◌then◌else◌,
}
use Prim.Native.String.compare as cmp

-- a < b
abbrev pub text_lt : String → String → Bool
text_lt a b = is_lt (compare a b)

lt-nil : (s : String) → text_lt s "" ≡ false
lt-nil String.[] = ap is_lt (cmp.nil-nil)
lt-nil (String.◌∷◌ c s) = ap is_lt (cmp.cons-nil c s)

lt-cons :
    (c d : Char) (s t : String)
    → text_lt (String.◌∷◌ c s) (String.◌∷◌ d t) ≡ (
        if ltb (code c) (code d)
        then true
        else if nat_eq (code c) (code d)
        then text_lt s t
        else false)
lt-cons c d s t = ap is_lt (cmp.cons-cons c d s t) ∙ ground arith

nil_lt : (d : Char) (t : String) → text_lt "" (String.◌∷◌ d t) ≡ true
nil_lt d t = ap is_lt (cmp.nil-cons d t)

pub text_lt_trans : (a b c : String) → text_lt a b ≡ true → text_lt b c ≡ true → text_lt a c ≡ true
text_lt_trans a b String.[] p q = ground (arith, lt-nil b)
text_lt_trans String.[] b (String.◌∷◌ z u) p q = nil_lt z u
text_lt_trans (String.◌∷◌ x s) String.[] (String.◌∷◌ z u) p q =
    ground (arith, lt-nil (String.◌∷◌ x s))
text_lt_trans (String.◌∷◌ x s) (String.◌∷◌ y t) (String.◌∷◌ z u) p q =
    ground (arith, lt-cons x y s t, lt-cons y z t u, lt-cons x z s u, text_lt_trans s t u)

ltb_total : (m n : ℕ) → (ltb m n ≡ true) ⊎ (m ≡ n) ⊎ (ltb n m ≡ true)
ltb_total m n = grind arith

pub text_lt_total : (a b : String) → (text_lt a b ≡ true) ⊎ (a ≡ b) ⊎ (text_lt b a ≡ true)
text_lt_total String.[] String.[] = inr (inl refl)
text_lt_total String.[] (String.◌∷◌ d t) = inl (nil_lt d t)
text_lt_total (String.◌∷◌ c s) String.[] = inr (inr (nil_lt c s))
text_lt_total (String.◌∷◌ c s) (String.◌∷◌ d t) = elim (ltb_total (code c) (code d)) [
  | inl less ↦ inl (ground (arith, lt-cons c d s t))
  | inr (inr more) ↦ inr (inr (ground (arith, lt-cons d c t s)))
  | inr (inl same) ↦ elim (text_lt_total s t) [
    | inl less ↦ inl (ground (arith, lt-cons c d s t))
    | inr (inl equal) ↦ inr (inl (ap₂ String.◌∷◌ (Char-path c d same) equal))
    | inr (inr more) ↦ inr (inr (ground (arith, lt-cons d c t s)))
  ]
]
