-- ===== src/GoText/Blank.antt =====
-- When `TrimSpace` leaves nothing.
use Prim.Native.Char.{code}
use mathlib.Core.Bool.{and-eq-true_iff}
use text.Mathlib.TextLemmas.{cons≢nil}
use golang_assignment.Prelude.{
  String, ◌≡◌, ◌↔◌, refl, true, arith, ◌&&◌, ◌==◌, eq_iff, Bool-cases, inl, inr,
}
use golang_assignment.Prelude.Int.{negsuc}
use golang_assignment.GoText.{
  is_space, trim_left, trim_right, trim_space, quote, decimal, to_base, concat,
}

-- Every character is white space.
abbrev pub IsBlank : String → Type 0
IsBlank String.[] = Unit
IsBlank (String.◌∷◌ c s) = (is_space (code c) ≡ true) × IsBlank s

trim_left_of_IsBlank : (s : String) → IsBlank s → trim_left s ≡ ""
unfolding trim_left
trim_left_of_IsBlank String.[] h = refl
trim_left_of_IsBlank (String.◌∷◌ c s) (h, k) = ground (arith, trim_left_of_IsBlank s k)

trim_right-IsBlank : (s : String) → trim_right s ≡ "" → IsBlank s
unfolding trim_right
trim_right-IsBlank String.[] h = tt
trim_right-IsBlank (String.◌∷◌ c s) h =
    elim (Bool-cases (is_space (code c) && (trim_right s == ""))) [
      | inl both ↦
          let (blank, none_left) = (and-eq-true_iff _ _).0 both in
          (blank, trim_right-IsBlank s ((eq_iff _ _).0 none_left))
      | inr kept ↦ absurd (cons≢nil (rw kept at h))
    ]

trim_left-IsBlank : (s : String) → IsBlank (trim_left s) → IsBlank s
unfolding trim_left
trim_left-IsBlank String.[] h = tt
trim_left-IsBlank (String.◌∷◌ c s) h = elim (Bool-cases (is_space (code c))) [
  | inl blank ↦ (blank, trim_left-IsBlank s (rw blank at h))
  | inr other ↦ rw other at h
]

-- `TrimSpace` gives the empty text exactly for a text of white space.
pub trim_space-eq-empty_iff : (s : String) → (trim_space s ≡ "") ↔ IsBlank s
unfolding trim_space
trim_space-eq-empty_iff s = (
  λ h. trim_left-IsBlank s (trim_right-IsBlank (trim_left s) h),
  λ h. rw (trim_left_of_IsBlank s h),
)

trims : (trim_space " \t a b\n" ≡ "a b") × (trim_space "  " ≡ "")
unfolding trim_space
trims = (refl, refl)

prints :
    (quote "a\"b\n" ≡ "\"a\\\"b\\n\"") × (decimal (negsuc 41) ≡ "-42") × (to_base 8 420 ≡ "644")
unfolding quote decimal to_base concat
prints = (refl, refl, refl)
