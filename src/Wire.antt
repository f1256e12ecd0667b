-- ===== src/Wire.antt =====
-- What encoding/json makes of the structs of internal/model by their tags, in both directions: JSON as a
-- tree, its numbers as literals, and how a member of an object is decoded onto a field of a struct.
-- `Marshal` sorts the keys of a map, here they keep their order, which no reader of the program sees; a
-- nil list is written as the empty one, which readers take alike.
pub mod Values
pub mod Payloads
pub mod Requests
pub mod RequestTrips
pub mod Entities
pub mod EntityTrips
pub mod AgentTrips
pub mod Body
pub mod Accepted
pub mod Plain
pub mod PlainRequests
pub mod Decoded
pub mod Stored
pub mod Portable
pub mod Rounds
pub mod Polled
pub mod Drained
pub mod Oversized
pub mod Registration
pub mod Fixture
mod Tests
mod DrainTests
use Prim.Native.Char.{code}
use golang_assignment.Prelude.{
  arith, ◌≡◌, refl, ◌≤◌, ℕ, zero, suc, ◌+◌, ◌-◌, String, Bool, true, false, ◌&&◌, Option, none,
  some, List, [], ◌∷◌, if◌then◌else◌, leb, nat_eq,
}
use golang_assignment.Prelude.Int.{ℤ, pos, negsuc, max_int, pos_part, neg_part}
use golang_assignment.Prelude.Result.{Result, ok, err, map_ok, and_then}
use golang_assignment.GoText.{concat, quote}
use golang_assignment.Model.Entity.{Time}
use golang_assignment.Model.Value.{Float64}
use Prim.Native.String

-- A number as it is written: an integer with its sign, or one with a fraction or an exponent.
pub data Literal : Type 0 where
  integer : Bool → ℕ → Literal
  real : Bool → ℕ → ℤ → Literal

mutual
  pub data Json : Type 0 where
    null : Json
    bool : Bool → Json
    number : Literal → Json
    str : String → Json
    arr : Items → Json
    obj : Members → Json

  pub data Items : Type 0 where
    nil : Items
    cons : Json → Items → Items

  pub data Members : Type 0 where
    end : Members
    member : String → Json → Members → Members

-- what Go writes and reads of `float64` and `time.Time`, the error of a value that does not fit its
-- field, how many bytes a value takes, and how the percent sequences of a URL are decoded
pub record Notation : Type 0 where
  pub unescape : String → Result String
  pub print_float : Float64 → Literal
  pub parse_float : Literal → Option Float64
  -- float64(i)
  pub nearest : ℤ → Float64
  pub print_time : Time → String
  pub parse_time : String → Option Time
  pub mismatch : String → Json → String
  pub size : Json → ℕ

-- the literal of an `int`
abbrev pub literal_of : ℤ → Literal
literal_of (pos n) = integer false n
literal_of (negsuc n) = integer true (suc n)

-- an `int` of 64 bits
abbrev pub FitsInt : ℤ → Type 0
FitsInt i = (pos_part i ≤ max_int) × (neg_part i ≤ max_int + 1)

-- What is documented of strconv and time: a `float64` and a time are read as they were printed, and an
-- `int` is read as the `float64` nearest to it.
pub record IsLossless (n : Notation) : Type 0 where
  pub floats : (f : Float64) → n.parse_float (n.print_float f) ≡ some f
  pub integers : (i : ℤ) → FitsInt i → n.parse_float (literal_of i) ≡ some (n.nearest i)
  pub times : (t : Time) → n.parse_time (n.print_time t) ≡ some t

-- strconv.ParseInt on a literal, with 64 bits
unfoldable pub int_of : Literal → Option ℤ
int_of (integer false n) = if leb n max_int then some (pos n) else none
int_of (integer true zero) = some (pos 0)
int_of (integer true (suc n)) = if leb n max_int then some (negsuc n) else none
int_of (real _ _ _) = none

-- The simple folding of a rune, as far as it meets ASCII: lower case, the Kelvin sign and the long s.
unfoldable pub fold_rune : ℕ → ℕ
fold_rune c =
    if leb 97 c && leb c 122
    then c - 32
    else if nat_eq c 0x212a
    then 75
    else if nat_eq c 0x17f
    then 83
    else c

-- Two keys are one to the decoder if they are equal up to folding.
unfoldable pub same_key : String → String → Bool
unfolding fold_rune
same_key String.[] String.[] = true
same_key (String.◌∷◌ c s) (String.◌∷◌ d t) =
    nat_eq (fold_rune (code c)) (fold_rune (code d)) && same_key s t
same_key _ _ = false

-- the value of a field of a basic type, decoded onto the old one; `null` leaves that
unfoldable pub decode_string : Notation → String → Json → String → Result String
decode_string n key null old = ok old
decode_string n key (str s) old = ok s
decode_string n key j old = err (n.mismatch key j)

-- an optional result, or an error
abbrev pub or_error {ℓ} : {A : Type ℓ} → String → Option A → Result A
or_error e none = err e
or_error e (some a) = ok a

unfoldable pub decode_int : Notation → String → Json → ℤ → Result ℤ
unfolding int_of
decode_int n key null old = ok old
decode_int n key (number l) old = or_error (n.mismatch key (number l)) (int_of l)
decode_int n key j old = err (n.mismatch key j)

unfoldable pub decode_time : Notation → String → Json → Time → Result Time
decode_time n key null old = ok old
decode_time n key (str s) old = or_error (n.mismatch key (str s)) (n.parse_time s)
decode_time n key j old = err (n.mismatch key j)

-- *time.Time: `null` is nil
unfoldable pub decode_time_pointer : Notation → String → Json → Result (Option Time)
decode_time_pointer n key null = ok none
decode_time_pointer n key (str s) = map_ok some (or_error (n.mismatch key (str s)) (n.parse_time s))
decode_time_pointer n key j = err (n.mismatch key j)

abbrev head_or_empty : List String → String
head_or_empty [] = ""
head_or_empty (s ∷ ss) = s

abbrev tail : List String → List String
tail [] = []
tail (s ∷ ss) = ss

-- the elements of a []string, each onto the old one at its place
unfoldable pub decode_items : Notation → String → Items → List String → Result (List String)
unfolding decode_string
decode_items n key nil old = ok []
decode_items n key (cons j rest) old =
    and_then (decode_string n key j (head_or_empty old))
      (λ s. map_ok (λ ss. s ∷ ss) (decode_items n key rest (tail old)))

unfoldable pub decode_strings : Notation → String → Json → List String → Result (List String)
unfolding decode_items
decode_strings n key null old = ok []
decode_strings n key (arr items) old = decode_items n key items old
decode_strings n key j old = err (n.mismatch key j)

-- the members of an object in their order, each set on the struct
unfoldable pub decode_members {ℓ} :
    {A : Type ℓ} → (String → Json → A → Result A) → Members → A → Result A
decode_members set end a = ok a
decode_members set (member key j rest) a = and_then (set key j a) (λ b. decode_members set rest b)

-- a struct with given setters; `null` leaves it
unfoldable pub decode_struct {ℓ} :
    {A : Type ℓ} → Notation → (String → Json → A → Result A) → Json → A → Result A
unfolding decode_members
decode_struct n set null a = ok a
decode_struct n set (obj members) a = decode_members set members a
decode_struct n set j a = err (n.mismatch "" j)

-- `DisallowUnknownFields`, or not
abbrev pub disallow_unknown {ℓ} : {A : Type ℓ} → String → A → Result A
disallow_unknown key a = err (concat ("json: unknown field " ∷ quote key ∷ []))

abbrev pub ignore_unknown {ℓ} : {A : Type ℓ} → String → A → Result A
ignore_unknown key a = ok a

-- []string, and a member that `omitempty` leaves out
unfoldable pub encode_strings : List String → Items
encode_strings [] = nil
encode_strings (s ∷ ss) = cons (str s) (encode_strings ss)

abbrev pub omit_if : Bool → String → Json → Members → Members
omit_if empty key j rest = if empty then rest else member key j rest

module _ (n : Notation) where
  -- A list of strings is read as it was written.
  pub decode_items-encode_strings :
      (key : String) (l old : List String) → decode_items n key (encode_strings l) old ≡ ok l
  unfolding decode_items encode_strings decode_string
  decode_items-encode_strings key [] old = refl
  decode_items-encode_strings key (s ∷ ss) old =
      rw (decode_items-encode_strings key ss (tail old)) refl

  pub decode_strings-encode_strings :
      (key : String) (l old : List String)
      → decode_strings n key (arr (encode_strings l)) old ≡ ok l
  unfolding decode_strings
  decode_strings-encode_strings = decode_items-encode_strings

  -- So is an `int`.
  pub decode_int-literal_of :
      (key : String) (i old : ℤ) → FitsInt i → decode_int n key (number (literal_of i)) old ≡ ok i
  unfolding decode_int int_of
  decode_int-literal_of key (pos i) old fits = ground arith
  decode_int-literal_of key (negsuc i) old fits = ground arith
