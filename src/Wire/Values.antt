-- ===== src/Wire/Values.antt =====
-- The values of a `map[string]any` in JSON, in both directions.
use golang_assignment.Prelude.{String, Bool, false, ◌≡◌, refl, ◌==◌, if◌then◌else◌, ◌||◌, ap}
use golang_assignment.Prelude.Result.{Result, ok, map_ok, and_then}
use golang_assignment.Model.Value.{Value, Values, Fields}
use golang_assignment.Wire.{
  FitsInt, IsLossless, Literal, literal_of, Json, Items, Members, Notation, or_error,
}

abbrev pub has_field : String → Fields → Bool
has_field key Fields.end = false
has_field key (Fields.field k v rest) = k == key || has_field key rest

-- m[key] = v, where `rest` are the later writes
abbrev pub join_field : String → Value → Fields → Fields
join_field key v rest = if has_field key rest then rest else Fields.field key v rest

abbrev pub decode_number : Notation → Literal → Result Value
decode_number n l = map_ok Value.number (or_error (n.mismatch "" (Json.number l)) (n.parse_float l))

unfoldable mutual
  pub decode_value : Notation → Json → Result Value
  decode_value n Json.null = ok Value.null
  decode_value n (Json.bool b) = ok (Value.bool b)
  decode_value n (Json.number l) = decode_number n l
  decode_value n (Json.str s) = ok (Value.str s)
  decode_value n (Json.arr items) = map_ok Value.arr (decode_values n items)
  decode_value n (Json.obj members) = map_ok Value.obj (decode_fields n members)

  pub decode_values : Notation → Items → Result Values
  decode_values n Items.nil = ok Values.nil
  decode_values n (Items.cons j rest) =
      and_then (decode_value n j) (λ v. map_ok (Values.cons v) (decode_values n rest))

  pub decode_fields : Notation → Members → Result Fields
  decode_fields n Members.end = ok Fields.end
  decode_fields n (Members.member key j rest) =
      and_then (decode_value n j) (λ v. map_ok (join_field key v) (decode_fields n rest))

unfoldable mutual
  pub encode_value : Notation → Value → Json
  encode_value n Value.null = Json.null
  encode_value n (Value.bool b) = Json.bool b
  encode_value n (Value.number f) = Json.number (n.print_float f)
  encode_value n (Value.int i) = Json.number (literal_of i)
  encode_value n (Value.str s) = Json.str s
  encode_value n (Value.arr values) = Json.arr (encode_values n values)
  encode_value n (Value.obj fields) = Json.obj (encode_fields n fields)

  pub encode_values : Notation → Values → Items
  encode_values n Values.nil = Items.nil
  encode_values n (Values.cons v rest) = Items.cons (encode_value n v) (encode_values n rest)

  pub encode_fields : Notation → Fields → Members
  encode_fields n Fields.end = Members.end
  encode_fields n (Fields.field key v rest) =
      Members.member key (encode_value n v) (encode_fields n rest)

-- What a reader gets of a value: an `int` comes back as the nearest `float64`.
unfoldable mutual
  pub received : Notation → Value → Value
  received n (Value.int i) = Value.number (n.nearest i)
  received n (Value.arr values) = Value.arr (received_values n values)
  received n (Value.obj fields) = Value.obj (received_fields n fields)
  received n v = v

  pub received_values : Notation → Values → Values
  received_values n Values.nil = Values.nil
  received_values n (Values.cons v rest) = Values.cons (received n v) (received_values n rest)

  pub received_fields : Notation → Fields → Fields
  received_fields n Fields.end = Fields.end
  received_fields n (Fields.field key v rest) =
      Fields.field key (received n v) (received_fields n rest)

-- The values that JSON can carry: the keys of each object are distinct, and each `int` fits 64 bits.
unfoldable mutual
  pub IsWritable : Value → Type 0
  IsWritable (Value.int i) = FitsInt i
  IsWritable (Value.arr values) = HasWritableValues values
  IsWritable (Value.obj fields) = HasWritableFields fields
  IsWritable _ = Unit

  pub HasWritableValues : Values → Type 0
  HasWritableValues Values.nil = Unit
  HasWritableValues (Values.cons v rest) = IsWritable v × HasWritableValues rest

  pub HasWritableFields : Fields → Type 0
  HasWritableFields Fields.end = Unit
  HasWritableFields (Fields.field key v rest) =
      (has_field key rest ≡ false) × IsWritable v × HasWritableFields rest

module _ (n : Notation) (lossless : IsLossless n) where
  has_field-received_fields :
      (key : String) (fields : Fields)
      → has_field key (received_fields n fields) ≡ has_field key fields
  unfolding received_fields
  has_field-received_fields key Fields.end = refl
  has_field-received_fields key (Fields.field k v rest) =
      ap (λ b. k == key || b) (has_field-received_fields key rest)

  mutual
    unfolding decode_value decode_values decode_fields encode_value encode_values encode_fields
        received received_values received_fields IsWritable HasWritableValues HasWritableFields

    pub decode_value-encode_value :
        (v : Value) → IsWritable v → decode_value n (encode_value n v) ≡ ok (received n v)
    decode_value-encode_value Value.null h = refl
    decode_value-encode_value (Value.bool b) h = refl
    decode_value-encode_value (Value.number f) h = rw (lossless.floats f) refl
    decode_value-encode_value (Value.int i) h = rw (lossless.integers i h) refl
    decode_value-encode_value (Value.str s) h = refl
    decode_value-encode_value (Value.arr values) h = rw (decode_values-encode_values values h) refl
    decode_value-encode_value (Value.obj fields) h = rw (decode_fields-encode_fields fields h) refl

    pub decode_values-encode_values :
        (values : Values)
        → HasWritableValues values
        → decode_values n (encode_values n values) ≡ ok (received_values n values)
    decode_values-encode_values Values.nil h = refl
    decode_values-encode_values (Values.cons v rest) (h, later) =
        rw (decode_value-encode_value v h, decode_values-encode_values rest later) refl

    pub decode_fields-encode_fields :
        (fields : Fields)
        → HasWritableFields fields
        → decode_fields n (encode_fields n fields) ≡ ok (received_fields n fields)
    decode_fields-encode_fields Fields.end h = refl
    decode_fields-encode_fields (Fields.field key v rest) (fresh, h, later) =
        rw
          (
            decode_value-encode_value v h,
            decode_fields-encode_fields rest later,
            has_field-received_fields key rest,
            fresh,
          )
          refl
