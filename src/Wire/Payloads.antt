-- ===== src/Wire/Payloads.antt =====
-- The fields of type `map[string]any`, in both directions.
use golang_assignment.Prelude.{String, Bool, true, false, ◌≡◌, refl, Option, none, some, [], ◌∷◌}
use golang_assignment.Prelude.Result.{Result, ok, err, map_ok}
use golang_assignment.GoMap.{insert}
use golang_assignment.Model.Value.{Fields, Payload}
use golang_assignment.Wire.{Json, Notation, IsLossless}
use golang_assignment.Wire.Values.{
  decode_fields, encode_fields, received_fields, HasWritableFields, decode_fields-encode_fields,
}

abbrev pub fields_of : Payload → Fields
fields_of [] = Fields.end
fields_of ((key, v) ∷ rest) = Fields.field key v (fields_of rest)

abbrev pub entries : Fields → Payload
entries Fields.end = []
entries (Fields.field key v rest) = (key, v) ∷ entries rest

-- the entries of an object, written into the map that the field already has
abbrev pub overlay : Payload → Payload → Payload
overlay old [] = old
overlay old ((key, v) ∷ rest) = overlay (insert key v old) rest

abbrev pub onto : Option Payload → Payload → Payload
onto none new = new
onto (some old) new = overlay old new

unfoldable pub decode_payload : Notation → String → Json → Option Payload → Result (Option Payload)
decode_payload n key Json.null old = ok none
decode_payload n key (Json.obj members) old =
    map_ok (λ fields. some (onto old (entries fields))) (decode_fields n members)
decode_payload n key j old = err (n.mismatch key j)

unfoldable pub encode_payload : Notation → Option Payload → Json
encode_payload n none = Json.null
encode_payload n (some p) = Json.obj (encode_fields n (fields_of p))

-- what `omitempty` leaves out
abbrev pub is_empty : Option Payload → Bool
is_empty (some (entry ∷ rest)) = false
is_empty _ = true

-- what a reader gets of a map that is written, and of one that is left out if it is empty
unfoldable pub received_payload : Notation → Option Payload → Option Payload
received_payload n none = none
received_payload n (some p) = some (entries (received_fields n (fields_of p)))

unfoldable pub received_if_any : Notation → Option Payload → Option Payload
unfolding received_payload
received_if_any n (some (entry ∷ rest)) = received_payload n (some (entry ∷ rest))
received_if_any n _ = none

abbrev pub IsWritablePayload : Option Payload → Type 0
IsWritablePayload none = Unit
IsWritablePayload (some p) = HasWritableFields (fields_of p)

module _ (n : Notation) (lossless : IsLossless n) where
  pub decode_payload-encode_payload :
      (key : String) (p : Option Payload)
      → IsWritablePayload p
      → decode_payload n key (encode_payload n p) none ≡ ok (received_payload n p)
  unfolding decode_payload encode_payload received_payload
  decode_payload-encode_payload key none h = refl
  decode_payload-encode_payload key (some p) h =
      rw (decode_fields-encode_fields n lossless (fields_of p) h) refl
