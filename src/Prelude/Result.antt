-- ===== src/Prelude/Result.antt =====
-- Go's `(A, error)`: a value, or the text of the error.
use mathlib.Core.Path.{◌≡◌, refl, subst}
use mathlib.Core.Logic.{◌⊎◌, inl, inr}
use Prim.Native.String.{String}

pub data Result {ℓ} (A : Type ℓ) : Type ℓ where
  ok : A → Result A
  err : String → Result A

-- a function of the value
abbrev pub map_ok {ℓ κ} : {A : Type ℓ} {B : Type κ} → (A → B) → Result A → Result B
map_ok f (ok a) = ok (f a)
map_ok f (err e) = err e

-- `if err != nil { return err }`, and what follows
abbrev pub and_then {ℓ κ} : {A : Type ℓ} {B : Type κ} → Result A → (A → Result B) → Result B
and_then (ok a) f = f a
and_then (err e) f = err e

pub Result-cases {ℓ} :
    {A : Type ℓ} (r : Result A) → ((a : A) × (r ≡ ok a)) ⊎ ((e : String) × (r ≡ err e))
Result-cases (ok a) = inl (a, refl)
Result-cases (err e) = inr (e, refl)

-- what holds of the value, if there is one
abbrev pub Ensures : {A : Type 0} → (A → Type 0) → Result A → Type 0
Ensures P (ok a) = P a
Ensures P (err e) = Unit

module _ {A B : Type 0} {P : A → Type 0} (Q : B → Type 0) where
  pub map_ok-Ensures :
      (f : A → B) (r : Result A) → ((a : A) → P a → Q (f a)) → Ensures P r → Ensures Q (map_ok f r)
  map_ok-Ensures f (ok a) k h = k a h
  map_ok-Ensures f (err e) k h = tt

  pub and_then-Ensures :
      (f : A → Result B) (r : Result A)
      → ((a : A) → P a → Ensures Q (f a))
      → Ensures P r
      → Ensures Q (and_then r f)
  and_then-Ensures f (ok a) k h = k a h
  and_then-Ensures f (err e) k h = tt

pub trivial-Ensures : {A : Type 0} (r : Result A) → Ensures (λ a. Unit {0}) r
trivial-Ensures (ok a) = tt
trivial-Ensures (err e) = tt

pub Ensures-ok : {A : Type 0} (P : A → Type 0) (r : Result A) (a : A) → Ensures P r → r ≡ ok a → P a
Ensures-ok P r a h e = subst (Ensures P) e h
