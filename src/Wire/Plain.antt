-- ===== src/Wire/Plain.antt =====
-- The values that come out of a decoder: no `int`, and no object with a key twice.
use golang_assignment.Prelude.{Option-cases, ◌≡◌, refl, String, false, Bool-cases, inl, inr}
use golang_assignment.Prelude.Result.{and_then-Ensures, map_ok-Ensures, Ensures, map_ok}
use golang_assignment.Model.Value.{Value, Values, Fields}
use golang_assignment.Wire.{Json, Items, Members, Notation, Literal}
use golang_assignment.Wire.Values.{
  decode_number, join_field, has_field, decode_value, decode_values, decode_fields, received,
  received_values, received_fields, IsWritable, HasWritableValues, HasWritableFields,
}

unfoldable mutual
  pub IsPlain : Value → Type 0
  IsPlain (Value.int i) = ⊥
  IsPlain (Value.arr values) = HasPlainValues values
  IsPlain (Value.obj fields) = HasPlainFields fields
  IsPlain _ = Unit

  pub HasPlainValues : Values → Type 0
  HasPlainValues Values.nil = Unit
  HasPlainValues (Values.cons v rest) = IsPlain v × HasPlainValues rest

  pub HasPlainFields : Fields → Type 0
  HasPlainFields Fields.end = Unit
  HasPlainFields (Fields.field key v rest) =
      (has_field key rest ≡ false) × IsPlain v × HasPlainFields rest

mutual
  unfolding IsPlain HasPlainValues HasPlainFields IsWritable HasWritableValues HasWritableFields

  pub plain-IsWritable : (v : Value) → IsPlain v → IsWritable v
  plain-IsWritable Value.null h = tt
  plain-IsWritable (Value.bool b) h = tt
  plain-IsWritable (Value.number f) h = tt
  plain-IsWritable (Value.int i) h = elim h [ ]
  plain-IsWritable (Value.str s) h = tt
  plain-IsWritable (Value.arr values) h = plain-HasWritableValues values h
  plain-IsWritable (Value.obj fields) h = plain-HasWritableFields fields h

  pub plain-HasWritableValues : (values : Values) → HasPlainValues values → HasWritableValues values
  plain-HasWritableValues Values.nil h = tt
  plain-HasWritableValues (Values.cons v rest) (h, later) =
      (plain-IsWritable v h, plain-HasWritableValues rest later)

  pub plain-HasWritableFields : (fields : Fields) → HasPlainFields fields → HasWritableFields fields
  plain-HasWritableFields Fields.end h = tt
  plain-HasWritableFields (Fields.field key v rest) (fresh, h, later) =
      (fresh, plain-IsWritable v h, plain-HasWritableFields rest later)

module _ (n : Notation) where
  mutual
    unfolding IsPlain HasPlainValues HasPlainFields received received_values received_fields

    pub received-plain : (v : Value) → IsPlain v → received n v ≡ v
    received-plain Value.null h = refl
    received-plain (Value.bool b) h = refl
    received-plain (Value.number f) h = refl
    received-plain (Value.int i) h = elim h [ ]
    received-plain (Value.str s) h = refl
    received-plain (Value.arr values) h = rw (received_values-plain values h) refl
    received-plain (Value.obj fields) h = rw (received_fields-plain fields h) refl

    pub received_values-plain :
        (values : Values) → HasPlainValues values → received_values n values ≡ values
    received_values-plain Values.nil h = refl
    received_values-plain (Values.cons v rest) (h, later) =
        rw (received-plain v h, received_values-plain rest later) refl

    pub received_fields-plain :
        (fields : Fields) → HasPlainFields fields → received_fields n fields ≡ fields
    received_fields-plain Fields.end h = refl
    received_fields-plain (Fields.field key v rest) (fresh, h, later) =
        rw (received-plain v h, received_fields-plain rest later) refl

module _ (n : Notation) where
  decode_number-IsPlain : (l : Literal) → Ensures IsPlain (decode_number n l)
  unfolding IsPlain
  decode_number-IsPlain l = elim (Option-cases (n.parse_float l)) [
    | inl e ↦ rw e tt
    | inr (f, e) ↦ rw e tt
  ]

  join_field-plain :
      (key : String) (v : Value) (rest : Fields)
      → IsPlain v
      → HasPlainFields rest
      → HasPlainFields (join_field key v rest)
  unfolding HasPlainFields
  join_field-plain key v rest h later = elim (Bool-cases (has_field key rest)) [
    | inl known ↦ rw known later
    | inr fresh ↦ rw fresh (fresh, h, later)
  ]

  mutual
    unfolding decode_value decode_values decode_fields IsPlain HasPlainValues HasPlainFields

    pub decode_value-IsPlain : (j : Json) → Ensures IsPlain (decode_value n j)
    decode_value-IsPlain Json.null = tt
    decode_value-IsPlain (Json.bool b) = tt
    decode_value-IsPlain (Json.number l) = decode_number-IsPlain l
    decode_value-IsPlain (Json.str s) = tt
    decode_value-IsPlain (Json.arr items) =
        map_ok-Ensures IsPlain Value.arr (decode_values n items) (λ values h. h)
          (decode_values-plain items)
    decode_value-IsPlain (Json.obj members) =
        map_ok-Ensures IsPlain Value.obj (decode_fields n members) (λ fields h. h)
          (decode_fields-plain members)

    pub decode_values-plain : (items : Items) → Ensures HasPlainValues (decode_values n items)
    decode_values-plain Items.nil = tt
    decode_values-plain (Items.cons j rest) =
        and_then-Ensures HasPlainValues (λ v. map_ok (Values.cons v) (decode_values n rest))
          (decode_value n j)
          (λ v h.
            map_ok-Ensures HasPlainValues (Values.cons v) (decode_values n rest)
              (λ values later. (h, later)) (decode_values-plain rest))
          (decode_value-IsPlain j)

    pub decode_fields-plain : (members : Members) → Ensures HasPlainFields (decode_fields n members)
    decode_fields-plain Members.end = tt
    decode_fields-plain (Members.member key j rest) =
        and_then-Ensures HasPlainFields (λ v. map_ok (join_field key v) (decode_fields n rest))
          (decode_value n j)
          (λ v h.
            map_ok-Ensures HasPlainFields (join_field key v) (decode_fields n rest)
              (λ fields later. join_field-plain key v fields h later) (decode_fields-plain rest))
          (decode_value-IsPlain j)
