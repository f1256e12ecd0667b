-- ===== src/GoText.antt =====
-- What the program uses of Go's `fmt`, `strings`, `strconv` and `unicode`: concatenation, `%q`, `%d`
-- and `TrimSpace`. `quote` takes every rune from 128 on for printable.
pub mod Blank
pub mod Order
use Prim.Native.Char.{Char, code}
use Prim.Native.String
use Prim.Native.Nat.{digits}
use golang_assignment.Prelude.{
  not, ℕ, zero, suc, ◌+◌, ◌/◌, ◌%◌, String, Bool, ◌&&◌, ◌||◌, List, [], ◌∷◌, ◌==◌, if◌then◌else◌,
  leb, ltb, nat_eq,
}
use golang_assignment.Prelude.Int.{ℤ, pos, negsuc}

-- The pieces of a text, one after the other.
unfoldable pub concat : List String → String
concat [] = ""
concat (s ∷ ss) = String.◌++◌ s (concat ss)

-- unicode.IsSpace
unfoldable pub is_space : ℕ → Bool
is_space c =
    (leb 9 c && leb c 13)
    || nat_eq c 32
    || nat_eq c 0x85
    || nat_eq c 0xa0
    || nat_eq c 0x1680
    || (leb 0x2000 c && leb c 0x200a)
    || nat_eq c 0x2028
    || nat_eq c 0x2029
    || nat_eq c 0x202f
    || nat_eq c 0x205f
    || nat_eq c 0x3000

trim_left : String → String
trim_left String.[] = String.[]
trim_left (String.◌∷◌ c s) =
    let rest = trim_left s in if is_space (code c) then rest else String.◌∷◌ c s

trim_right : String → String
trim_right String.[] = String.[]
trim_right (String.◌∷◌ c s) =
    let rest = trim_right s in if is_space (code c) && rest == "" then "" else String.◌∷◌ c rest

-- strings.TrimSpace
unfoldable pub trim_space : String → String
unfolding trim_left trim_right is_space
trim_space s = trim_right (trim_left s)

unfoldable pub hex_digit : ℕ → String
hex_digit d =
    if nat_eq d 0
    then "0"
    else if nat_eq d 1
    then "1"
    else if nat_eq d 2
    then "2"
    else if nat_eq d 3
    then "3"
    else if nat_eq d 4
    then "4"
    else if nat_eq d 5
    then "5"
    else if nat_eq d 6
    then "6"
    else if nat_eq d 7
    then "7"
    else if nat_eq d 8
    then "8"
    else if nat_eq d 9
    then "9"
    else if nat_eq d 10
    then "a"
    else if nat_eq d 11
    then "b"
    else if nat_eq d 12
    then "c"
    else if nat_eq d 13
    then "d"
    else if nat_eq d 14
    then "e"
    else "f"

-- The digits of `n` in a base, the last one first in the making; fuel `n` is enough for a base above 1.
unfoldable pub base_digits : ℕ → ℕ → ℕ → String → String
base_digits base zero n after = after
base_digits base (suc fuel) n after =
    let after' = String.◌++◌ (hex_digit (n % base)) after in
    let more = base_digits base fuel (n / base) after' in if ltb n base then after' else more

-- `%d` of a natural number, `%x` and `%o`
unfoldable pub to_base : ℕ → ℕ → String
unfolding base_digits hex_digit
to_base base n = base_digits base (suc n) n ""

-- `%d` of an `int`
unfoldable pub decimal : ℤ → String
unfolding to_base
decimal (pos n) = to_base 10 n
decimal (negsuc n) = String.◌++◌ "-" (to_base 10 (suc n))

-- the escape of a rune in a quoted text
quote_rune : Char → String
unfolding hex_digit
quote_rune c =
    let r = code c in
    if nat_eq r 34
    then "\\\""
    else if nat_eq r 92
    then "\\\\"
    else if leb 32 r && not (nat_eq r 127)
    then String.◌∷◌ c ""
    else if nat_eq r 7
    then "\\a"
    else if nat_eq r 8
    then "\\b"
    else if nat_eq r 12
    then "\\f"
    else if nat_eq r 10
    then "\\n"
    else if nat_eq r 13
    then "\\r"
    else if nat_eq r 9
    then "\\t"
    else if nat_eq r 11
    then "\\v"
    else concat ("\\x" ∷ hex_digit (r / 16) ∷ hex_digit (r % 16) ∷ [])

quote_from : String → String
unfolding quote_rune concat
quote_from String.[] = "\""
quote_from (String.◌∷◌ c s) = String.◌++◌ (quote_rune c) (quote_from s)

-- `%q`
unfoldable pub quote : String → String
unfolding quote_from
quote s = String.◌++◌ "\"" (quote_from s)
