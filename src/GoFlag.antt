-- ===== src/GoFlag.antt =====
-- What cmd/server and cmd/agent use of Go's package flag: `Parse` on the arguments of the process, for
-- flags that set a value of a type of settings.
use Prim.Native.Char.{code}
use golang_assignment.Prelude.{
  String, Bool, true, false, ◌||◌, Option, none, some, List, [], ◌∷◌, ◌==◌, if◌then◌else◌, nat_eq,
}
use golang_assignment.Prelude.Result.{Result, ok, err}
use golang_assignment.GoText.{concat, quote}

-- a flag: its name, whether it is Boolean, and `Set`
pub record Flag (Settings : Type 0) : Type 0 where
  pub name : String
  pub is_bool : Bool
  pub set : String → Settings → Result Settings

-- The settings and the arguments that are no flags; or the help that was asked for; or an error. The
-- process ends with 0 for the help and with 2 for an error.
pub data Parsed (Settings : Type 0) : Type 0 where
  parsed : Settings → List String → Parsed Settings
  help : Parsed Settings
  failed : String → Parsed Settings

-- an argument as `parseOne` sees it: no flag, `--`, a flag with a bad name, or a name that may have a value
pub data Argument : Type 0 where
  no_flag terminator malformed : Argument
  named : String → Option String → Argument

-- a name up to its first `=`, and the value after that
unfoldable pub split_value : String → String × Option String
split_value String.[] = ("", none)
split_value (String.◌∷◌ c rest) =
    let (name, value) = split_value rest in
    if nat_eq (code c) 61 then ("", some rest) else (String.◌∷◌ c name, value)

-- what follows the dashes
unfoldable pub name_of : String → Argument
unfolding split_value
name_of String.[] = malformed
name_of (String.◌∷◌ c rest) =
    let (name, value) = split_value (String.◌∷◌ c rest) in
    if nat_eq (code c) 45 || nat_eq (code c) 61 then malformed else named name value

unfoldable pub after_dash : String → Argument
unfolding name_of
after_dash String.[] = no_flag
after_dash (String.◌∷◌ c rest) =
    if nat_eq (code c) 45
    then (if rest == "" then terminator else name_of rest)
    else name_of (String.◌∷◌ c rest)

unfoldable pub argument : String → Argument
unfolding after_dash
argument String.[] = no_flag
argument (String.◌∷◌ c rest) = if nat_eq (code c) 45 then after_dash rest else no_flag

-- strconv.ParseBool
unfoldable pub parse_bool : String → Option Bool
parse_bool s =
    if s == "1" || s == "t" || s == "T" || s == "true" || s == "TRUE" || s == "True"
    then some true
    else if s == "0" || s == "f" || s == "F" || s == "false" || s == "FALSE" || s == "False"
    then some false
    else none

module _ {S : Type 0} where
  unfoldable pub find_flag : String → List (Flag S) → Option (Flag S)
  find_flag name [] = none
  find_flag name (f ∷ flags) =
      let later = find_flag name flags in if f.name == name then some f else later

  unfoldable pub invalid : Flag S → String → String → String
  invalid f value e =
      if f.is_bool
      then concat ("invalid boolean value " ∷ quote value ∷ " for -" ∷ f.name ∷ ": " ∷ e ∷ [])
      else concat ("invalid value " ∷ quote value ∷ " for flag -" ∷ f.name ∷ ": " ∷ e ∷ [])

  -- a name that is no flag
  unfoldable pub undefined : String → Parsed S
  undefined name =
      if name == "help" || name == "h"
      then help
      else failed (concat ("flag provided but not defined: -" ∷ name ∷ []))

  -- `Parse`; a flag may wait for the argument that is its value
  unfoldable pub parse : List (Flag S) → List String → Option (Flag S) → S → Parsed S
  unfolding undefined invalid find_flag argument
  parse flags [] none s = parsed s []
  parse flags [] (some f) s = failed (concat ("flag needs an argument: -" ∷ f.name ∷ []))
  parse flags (value ∷ rest) (some f) s = elim (f.set value s) [
    | err e ↦ failed (invalid f value e)
    | ok s' ↦ parse flags rest none s'
  ]
  parse flags (a ∷ rest) none s = elim (argument a) [
    | no_flag ↦ parsed s (a ∷ rest)
    | terminator ↦ parsed s rest
    | malformed ↦ failed (concat ("bad flag syntax: " ∷ a ∷ []))
    | named name value ↦ elim (find_flag name flags) [
      | none ↦ undefined name
      | some f ↦ elim value [
        | some v ↦ elim (f.set v s) [
          | err e ↦ failed (invalid f v e)
          | ok s' ↦ parse flags rest none s'
        ]
        | none ↦ elim f.is_bool [
          | true ↦ elim (f.set "true" s) [
            | err e ↦ failed (concat ("invalid boolean flag " ∷ f.name ∷ ": " ∷ e ∷ []))
            | ok s' ↦ parse flags rest none s'
          ]
          | false ↦ parse flags rest (some f) s
        ]
      ]
    ]
  ]
