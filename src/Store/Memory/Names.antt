-- ===== src/Store/Memory/Names.antt =====
-- Lists of IDs: membership as a test, and lists without repetition.
use golang_assignment.Prelude.{
  String, ◌≡◌, refl, Bool, false, ◌||◌, List, [], ◌∷◌, ◌++◌, arith, ◌==◌, eq_iff,
}

abbrev pub contains : List String → String → Bool
contains [] k = false
contains (x ∷ xs) k = x == k || contains xs k

abbrev pub IsDistinct : List String → Type 0
IsDistinct [] = Unit
IsDistinct (x ∷ xs) = (contains xs x ≡ false) × IsDistinct xs

pub contains-append :
    (xs ys : List String) (k : String) → contains (xs ++ ys) k ≡ contains xs k || contains ys k
contains-append [] ys k = refl
contains-append (x ∷ xs) ys k = ground (arith, contains-append xs ys k)

pub append-IsDistinct :
    (xs : List String) (y : String)
    → IsDistinct xs
    → contains xs y ≡ false
    → IsDistinct (xs ++ y ∷ [])
append-IsDistinct [] y h k = (refl, tt)
append-IsDistinct (x ∷ xs) y (fresh, h) k =
    ground (arith, contains-append xs (y ∷ []) x, append-IsDistinct xs y h, eq_iff x y, eq_iff y x)

-- In a list without repetition an element stands at one place.
pub split-IsDistinct :
    (xs : List String) (y : String) (zs : List String)
    → IsDistinct (xs ++ y ∷ zs)
    → (contains xs y ≡ false) × (contains zs y ≡ false)
split-IsDistinct [] y zs (fresh, h) = (refl, fresh)
split-IsDistinct (x ∷ xs) y zs (fresh, h) =
    let (left, right) = split-IsDistinct xs y zs h in
    (ground (arith, contains-append xs (y ∷ zs) x, eq_iff x y, eq_iff y x), right)
