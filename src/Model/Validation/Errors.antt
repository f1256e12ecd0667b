-- ===== src/Model/Validation/Errors.antt =====
-- When the checks of a request have found an error.

use golang_assignment.Prelude.{
  Option, String, ◌≡◌, ◌↔◌, refl, Bool, true, false, not, ◌||◌, none, some, List, [], ◌∷◌, arith,
  is_some, All, Bool-cases, inl, inr,
}
use golang_assignment.GoMap.{lookup, length-insert_pos}
use golang_assignment.Model.Status.{
  JobType, http_check, tcp_check, file_exists, checksum, copy_file, write_file, wait, is_known_type,
  type_text,
}
use golang_assignment.Model.Validation.{
  no_errors, validate_optional_payload, ValidationError, has_errors, set_field, set_field_if,
  validate_payload_key, validate_payload, validate_type,
}
use golang_assignment.Model.Value.{Payload}

has_errors-set_field :
    (key msg : String) (ve : ValidationError) → has_errors (set_field key msg ve) ≡ true
unfolding has_errors
has_errors-set_field key msg ve = ground (arith, length-insert_pos key msg ve.fields)

pub has_errors-set_field_if :
    (b : Bool) (key msg : String) (ve : ValidationError)
    → has_errors (set_field_if b key msg ve) ≡ b || has_errors ve
has_errors-set_field_if true key msg ve = has_errors-set_field key msg ve
has_errors-set_field_if false key msg ve = refl

has_errors-validate_payload_key :
    (ve : ValidationError) (p : Payload) (key : String)
    → has_errors (validate_payload_key ve p key) ≡ not (is_some (lookup key p)) || has_errors ve
unfolding validate_payload_key
has_errors-validate_payload_key ve p key = elim (Bool-cases (is_some (lookup key p))) [
  | inl there ↦ rw there refl
  | inr missing ↦ rw missing (has_errors-set_field _ _ ve)
]

-- The keys that a payload of each type must have.
abbrev pub required_keys : JobType → List String
required_keys http_check = "url" ∷ []
required_keys tcp_check = "address" ∷ []
required_keys file_exists = "path" ∷ []
required_keys checksum = "path" ∷ []
required_keys copy_file = "source" ∷ "destination" ∷ []
required_keys write_file = "path" ∷ "content" ∷ []
required_keys wait = "duration_seconds" ∷ []
required_keys (JobType.other s) = []

abbrev pub IsSupported : JobType → Type 0
IsSupported (JobType.other s) = ⊥
IsSupported _ = Unit

abbrev pub HasKeys : Payload → List String → Type 0
HasKeys p keys = All (λ key. is_some (lookup key p) ≡ true) keys

pub has_errors-validate_payload :
    (t : JobType) (p : Payload) (ve : ValidationError)
    → (has_errors (validate_payload t p ve) ≡ false)
      ↔ ((has_errors ve ≡ false) × HasKeys p (required_keys t))
unfolding validate_payload
has_errors-validate_payload copy_file p ve =
    rw (has_errors-validate_payload_key, has_errors-validate_payload_key) (ground arith)
has_errors-validate_payload write_file p ve =
    rw (has_errors-validate_payload_key, has_errors-validate_payload_key) (ground arith)
has_errors-validate_payload (JobType.other s) p ve = ground arith
has_errors-validate_payload t p ve = rw has_errors-validate_payload_key (ground arith)

pub has_errors-validate_type :
    (t : JobType) (ve : ValidationError)
    → (has_errors (validate_type t ve) ≡ false) ↔ ((has_errors ve ≡ false) × IsSupported t)
unfolding validate_type is_known_type type_text
has_errors-validate_type (JobType.other s) ve = grind (arith, has_errors-set_field)
has_errors-validate_type http_check ve = ground arith
has_errors-validate_type t ve = ground arith

pub has_errors-no_errors : has_errors no_errors ≡ false
unfolding has_errors
has_errors-no_errors = refl

-- The payload's checks take no error back.
pub clean_before :
    (t : JobType) (p : Option Payload) (ve : ValidationError)
    → has_errors (validate_optional_payload t p ve) ≡ false
    → has_errors ve ≡ false
unfolding validate_optional_payload
clean_before t none ve h = h
clean_before t (some p) ve h = ((has_errors-validate_payload t p ve).0 h).0
