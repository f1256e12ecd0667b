-- ===== src/Model/Value.antt =====
-- The values of a Go `map[string]any`: what `encoding/json` decodes into it, and what the executors
-- put there.
use golang_assignment.Prelude.{ℕ, String, Bool, Option, some}
use golang_assignment.Prelude.Int.{ℤ}
use golang_assignment.GoMap.{GoMap}

-- A finite `float64`: ± mantissa * 2 ^ exponent.
pub record Float64 : Type 0 where
  pub negative : Bool
  pub mantissa : ℕ
  pub exponent : ℤ

mutual
  pub data Value : Type 0 where
    null : Value
    bool : Bool → Value
    number : Float64 → Value
    int : ℤ → Value
    str : String → Value
    arr : Values → Value
    obj : Fields → Value

  pub data Values : Type 0 where
    nil : Values
    cons : Value → Values → Values

  pub data Fields : Type 0 where
    end : Fields
    field : String → Value → Fields → Fields

-- `map[string]any`
abbrev pub Payload : Type 0
Payload = GoMap Value

-- v.(string), "" if `v` is no string or missing
abbrev pub string_or_empty : Option Value → String
string_or_empty (some (str s)) = s
string_or_empty _ = ""
