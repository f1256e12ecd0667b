-- ===== src/Wire/PlainRequests.antt =====
-- What the server's decoder makes of the requests: plain maps, numbers of 64 bits, and types that are the
-- constants of their texts.
use golang_assignment.Prelude.{
  ◌≡◌, refl, ap, String, true, false, Option, none, some, [], ◌∷◌, ◌==◌, ◌||◌, arith, eq_iff,
  Bool-cases, inl, inr, zero, suc,
}
use golang_assignment.Prelude.Int.{ℤ}
use golang_assignment.Prelude.Result.{Ensures, map_ok-Ensures}
use golang_assignment.GoMap.{insert}
use golang_assignment.Model.Value.{Value, Fields, Payload}
use golang_assignment.Wire.{Json, Literal, Notation, FitsInt, decode_int, int_of, or_error}
use golang_assignment.Wire.Payloads.{fields_of, entries, overlay, onto, decode_payload}
use golang_assignment.Wire.Plain.{IsPlain, HasPlainFields, decode_fields-plain}
use golang_assignment.Wire.Values.{has_field, decode_fields}

abbrev pub IsPlainPayload : Option Payload → Type 0
IsPlainPayload none = Unit
IsPlainPayload (some p) = HasPlainFields (fields_of p)

fields_of-entries : (fields : Fields) → fields_of (entries fields) ≡ fields
fields_of-entries Fields.end = refl
fields_of-entries (Fields.field key v rest) = ap (Fields.field key v) (fields_of-entries rest)

has_field-insert :
    (k key : String) (v : Value) (p : Payload)
    → has_field k (fields_of (insert key v p)) ≡ (key == k || has_field k (fields_of p))
unfolding insert
has_field-insert k key v [] = refl
has_field-insert k key v ((x, old) ∷ p) =
    ground (arith, has_field-insert k key v p, eq_iff x key, eq_iff x k, eq_iff key k)

insert-plain :
    (key : String) (v : Value) (p : Payload)
    → IsPlain v
    → HasPlainFields (fields_of p)
    → HasPlainFields (fields_of (insert key v p))
unfolding insert HasPlainFields
insert-plain key v [] h plain = (refl, h, tt)
insert-plain key v ((x, old) ∷ p) h (fresh, first, rest) = elim (Bool-cases (x == key)) [
  | inl same ↦ rw same (fresh, h, rest)
  | inr differs ↦ rw differs (
    ground (arith, has_field-insert x key v p, differs, fresh, eq_iff x key, eq_iff key x),
    first,
    insert-plain key v p h rest,
  )
]

overlay-plain :
    (old new : Payload)
    → HasPlainFields (fields_of old)
    → HasPlainFields (fields_of new)
    → HasPlainFields (fields_of (overlay old new))
unfolding HasPlainFields
overlay-plain old [] h k = h
overlay-plain old ((key, v) ∷ new) h (fresh, first, rest) =
    overlay-plain (insert key v old) new (insert-plain key v old first h) rest

onto-plain :
    (old : Option Payload) (fields : Fields)
    → IsPlainPayload old
    → HasPlainFields fields
    → IsPlainPayload (some (onto old (entries fields)))
onto-plain none fields h k = rw (fields_of-entries fields) k
onto-plain (some old) fields h k =
    overlay-plain old (entries fields) h (rw (fields_of-entries fields) k)

int_of-FitsInt : (l : Literal) (e : String) → Ensures FitsInt (or_error e (int_of l))
unfolding int_of
int_of-FitsInt (Literal.integer false i) e = ground arith
int_of-FitsInt (Literal.integer true zero) e = ground arith
int_of-FitsInt (Literal.integer true (suc i)) e = ground arith
int_of-FitsInt (Literal.real s m x) e = tt

module _ (n : Notation) where
  pub decode_int-FitsInt :
      (key : String) (j : Json) (old : ℤ) → FitsInt old → Ensures FitsInt (decode_int n key j old)
  unfolding decode_int
  decode_int-FitsInt key Json.null old h = h
  decode_int-FitsInt key (Json.number l) old h = int_of-FitsInt l (n.mismatch key (Json.number l))
  decode_int-FitsInt key (Json.bool b) old h = tt
  decode_int-FitsInt key (Json.str s) old h = tt
  decode_int-FitsInt key (Json.arr a) old h = tt
  decode_int-FitsInt key (Json.obj m) old h = tt

  pub decode_payload-IsPlainPayload :
      (key : String) (j : Json) (old : Option Payload)
      → IsPlainPayload old
      → Ensures IsPlainPayload (decode_payload n key j old)
  unfolding decode_payload
  decode_payload-IsPlainPayload key Json.null old h = tt
  decode_payload-IsPlainPayload key (Json.obj m) old h =
      map_ok-Ensures IsPlainPayload (λ fields. some (onto old (entries fields))) (decode_fields n m)
        (λ fields plain. onto-plain old fields h plain) (decode_fields-plain n m)
  decode_payload-IsPlainPayload key (Json.bool b) old h = tt
  decode_payload-IsPlainPayload key (Json.number l) old h = tt
  decode_payload-IsPlainPayload key (Json.str s) old h = tt
  decode_payload-IsPlainPayload key (Json.arr a) old h = tt
