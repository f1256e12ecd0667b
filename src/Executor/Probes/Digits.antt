-- ===== src/Executor/Probes/Digits.antt =====
-- strconv.Atoi on the digits of `%d`: the fuel of the digits is enough.
use Prim.Native.Char.{Char, code}
use Prim.Native.Nat.{Ordering}
use Prim.Native.String.compare.{cons-nil}
use text.Mathlib.TextLemmas.{cons-append, nil-append}
use golang_assignment.Prelude.{
  sym, ℕ, zero, suc, ◌+◌, ◌*◌, ◌/◌, ◌%◌, ◌≤◌, ◌<◌, String, ◌≡◌, refl, ap, ◌∙◌, true, false, some,
  arith, ltb, Bool-cases, inl, inr,
}
use golang_assignment.Prelude.Int.{neg_part, pos_part, ℤ, pos, negsuc, max_int}
use golang_assignment.GoText.{hex_digit, base_digits, to_base, decimal}
use golang_assignment.Executor.Probes.{
  Value, digits_from, digits, in_range, minus, signed, atoi, expected_status,
}
use Prim.Native.String

single : (c : Char) (after : String) → String.◌++◌ (String.◌∷◌ c "") after ≡ String.◌∷◌ c after
single c after = cons-append c "" after ∙ ap (λ t. String.◌∷◌ c t) (nil-append after)

digit_shape :
    (d : ℕ) (after : String)
    → d < 10
    → (c : Char) × (String.◌++◌ (hex_digit d) after ≡ String.◌∷◌ c after) × (code c ≡ 48 + d)
unfolding hex_digit
digit_shape zero after h = ("0", single "0" after, refl)
digit_shape (suc zero) after h = ("1", single "1" after, refl)
digit_shape (suc (suc zero)) after h = ("2", single "2" after, refl)
digit_shape (suc (suc (suc zero))) after h = ("3", single "3" after, refl)
digit_shape (suc (suc (suc (suc zero)))) after h = ("4", single "4" after, refl)
digit_shape (suc (suc (suc (suc (suc zero))))) after h = ("5", single "5" after, refl)
digit_shape (suc (suc (suc (suc (suc (suc zero)))))) after h = ("6", single "6" after, refl)
digit_shape (suc (suc (suc (suc (suc (suc (suc zero))))))) after h = ("7", single "7" after, refl)
digit_shape (suc (suc (suc (suc (suc (suc (suc (suc zero)))))))) after h =
    ("8", single "8" after, refl)
digit_shape (suc (suc (suc (suc (suc (suc (suc (suc (suc zero))))))))) after h =
    ("9", single "9" after, refl)
digit_shape (suc (suc (suc (suc (suc (suc (suc (suc (suc (suc d)))))))))) after h = ground arith

read_digit :
    (acc d : ℕ) (after : String)
    → d < 10
    → digits_from acc (String.◌++◌ (hex_digit d) after) ≡ digits_from (acc * 10 + d) after
unfolding digits_from
read_digit acc d after small =
    let (c, shape, value) = digit_shape d after small in
    ap (digits_from acc) shape ∙ ground (arith, value)

-- The digits of a number, read, are the number.
read_digits :
    (fuel n : ℕ) (after : String)
    → n < fuel
    → digits_from 0 (base_digits 10 fuel n after) ≡ digits_from n after
unfolding base_digits
read_digits zero n after h = ground arith
read_digits (suc fuel) n after h = elim (Bool-cases (ltb n 10)) [
  | inl small ↦
      rw small
        (read_digit 0 (n % 10) after (omega arith) ∙ ap (λ m. digits_from m after) (ground arith))
  | inr large ↦ rw large (
      read_digits fuel (n / 10) (String.◌++◌ (hex_digit (n % 10)) after) (ground arith)
      ∙ read_digit (n / 10) (n % 10) after (omega arith)
      ∙ ap (λ m. digits_from m after) (omega arith))
]

first_digit :
    (fuel n : ℕ) (after : String)
    → n < fuel
    → (c : Char) × (rest : String) × (base_digits 10 fuel n after ≡ String.◌∷◌ c rest)
      × (48 ≤ code c)
unfolding base_digits
first_digit zero n after h = ground arith
first_digit (suc fuel) n after h =
    let (c, shape, value) = digit_shape (n % 10) after (omega arith) in
    elim (Bool-cases (ltb n 10)) [
      | inl small ↦ (c, after, rw small shape, omega arith)
      | inr large ↦
          let (first, rest, begins, low) =
            first_digit fuel (n / 10) (String.◌++◌ (hex_digit (n % 10)) after) (ground arith) in
          (first, rest, rw large begins, low)
    ]

to_base_shape :
    (n : ℕ) → (c : Char) × (rest : String) × (to_base 10 n ≡ String.◌∷◌ c rest) × (48 ≤ code c)
unfolding to_base
to_base_shape n = first_digit (suc n) n "" (omega arith)

read_to_base : (n : ℕ) → digits_from 0 (to_base 10 n) ≡ some n
unfolding to_base digits_from
read_to_base n = read_digits (suc n) n "" (omega arith)

digits-cons :
    (c : Char) (rest : String) → digits (String.◌∷◌ c rest) ≡ digits_from 0 (String.◌∷◌ c rest)
unfolding digits
digits-cons c rest =
    let full : String.compare (String.◌∷◌ c rest) "" ≡ Ordering.gt = λ i. cons-nil c rest i in
    ground (arith, full)

digits-to_base : (n : ℕ) → digits (to_base 10 n) ≡ some n
digits-to_base n =
    let (c, rest, shape, low) = to_base_shape n in
    ap digits shape ∙ digits-cons c rest ∙ ap (digits_from 0) (sym shape) ∙ read_to_base n

unsigned :
    (c : Char) (rest : String)
    → 48 ≤ code c
    → atoi (String.◌∷◌ c rest) ≡ signed false (digits (String.◌∷◌ c rest))
unfolding atoi
unsigned c rest low = ground arith

negated : (rest : String) → atoi (String.◌∷◌ "-" rest) ≡ signed true (digits rest)
unfolding atoi
negated rest = refl

in_range-pos : (n : ℕ) → n ≤ max_int → signed false (some n) ≡ some (pos n)
unfolding signed in_range
in_range-pos n small = ground arith

in_range-negsuc : (n : ℕ) → n ≤ max_int → signed true (some (suc n)) ≡ some (negsuc n)
unfolding signed in_range minus
in_range-negsuc n small = ground arith

-- An `int` that is printed with `%d` is read by `Atoi`.
atoi-decimal :
    (i : ℤ) → (pos_part i ≤ max_int) → (neg_part i ≤ max_int + 1) → atoi (decimal i) ≡ some i
unfolding decimal
atoi-decimal (pos n) high low =
    let (c, rest, shape, first) = to_base_shape n in
    ap atoi shape
    ∙ unsigned c rest first
    ∙ ap (λ t. signed false (digits t)) (sym shape)
    ∙ ap (signed false) (digits-to_base n)
    ∙ in_range-pos n high
atoi-decimal (negsuc n) high low =
    ap atoi (single "-" (to_base 10 (suc n)))
    ∙ negated (to_base 10 (suc n))
    ∙ ap (signed true) (digits-to_base (suc n))
    ∙ in_range-negsuc n (omega arith)

-- A status that a job's payload gives as the text of an `int` is the status that the executor expects:
-- the fuel of `%d` is enough for every digit, and `Atoi` reads them all.
pub expected_status-decimal :
    (i : ℤ)
    → pos_part i ≤ max_int
    → neg_part i ≤ max_int + 1
    → expected_status (some (Value.str (decimal i))) ≡ i
unfolding expected_status
expected_status-decimal i high low = ground (arith, atoi-decimal i high low)
