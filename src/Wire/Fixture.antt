-- ===== src/Wire/Fixture.antt =====
-- A notation for the tests: a `float64` is printed by its parts, a time in strokes.

use golang_assignment.Prelude.{
  ℕ, zero, suc, ◌*◌, String, Bool, ◌≡◌, refl, ap, true, false, Option, some,
}
use golang_assignment.Prelude.Int.{ℤ, pos, negsuc}
use golang_assignment.Prelude.Result.{err}
use golang_assignment.Model.Value.{Float64}
use golang_assignment.Wire.{Literal, Json, Members, Notation, IsLossless, FitsInt, literal_of}
use golang_assignment.Wire.Body.{Body, value, finished}

abbrev pub strokes : ℕ → String
strokes zero = ""
strokes (suc n) = String.◌∷◌ "i" (strokes n)

abbrev pub count_runes : String → ℕ
count_runes String.[] = 0
count_runes (String.◌∷◌ c rest) = suc (count_runes rest)

count_runes-strokes : (n : ℕ) → count_runes (strokes n) ≡ n
count_runes-strokes zero = refl
count_runes-strokes (suc n) = ap suc (count_runes-strokes n)

abbrev pub whole : Bool → ℕ → Float64
whole negative n = record { negative = negative; mantissa = n; exponent = pos 0 }

abbrev pub nearest_whole : ℤ → Float64
nearest_whole (pos n) = whole false n
nearest_whole (negsuc n) = whole true (suc n)

abbrev pub parse_parts : Literal → Option Float64
parse_parts (Literal.integer negative n) = some (whole negative n)
parse_parts (Literal.real negative m x) =
    some (record { negative = negative; mantissa = m; exponent = x })

-- the members of an object take so many bytes each
abbrev pub count_members : Members → ℕ
count_members Members.end = 0
count_members (Members.member key j rest) = suc (count_members rest)

abbrev pub size_by : ℕ → Json → ℕ
size_by each (Json.obj members) = count_members members * each
size_by each j = each

abbrev pub notation_of : ℕ → Notation
notation_of each = record {
  unescape = λ s. err "invalid URL escape";
  print_float = λ f. Literal.real f.negative f.mantissa f.exponent;
  parse_float = parse_parts;
  nearest = nearest_whole;
  print_time = strokes;
  parse_time = λ s. some (count_runes s);
  mismatch = λ key j. key;
  size = size_by each;
}

integers-read : (i : ℤ) → FitsInt i → parse_parts (literal_of i) ≡ some (nearest_whole i)
integers-read (pos n) fits = refl
integers-read (negsuc n) fits = refl

pub notation_of-IsLossless : (each : ℕ) → IsLossless (notation_of each)
notation_of-IsLossless each = record {
  floats = λ f. refl;
  integers = integers-read;
  times = λ t. ap some (count_runes-strokes t);
}

abbrev pub notation : Notation
notation = notation_of 8

-- a job that waits
abbrev pub create_body : Body
create_body = record {
  size = 9;
  gap = 0;
  text =
      value
        (Json.obj (
          Members.member "name" (Json.str "n") (
            Members.member "type" (Json.str "wait") (
              Members.member "payload"
                (Json.obj (Members.member "duration_seconds" (Json.str "1") Members.end))
                (Members.member "max_retries" (Json.number (Literal.integer false 3))
                  Members.end)))))
        finished;
}
