-- ===== src/Api/Server/Ids.antt =====
-- The IDs that the server generates are plain, so they stand in paths.

use golang_assignment.Prelude.{
  All, if_keeps, ◌%◌, ◌/◌, ℕ, refl, List, [], ◌∷◌, inl, inr, Option-cases, nat_eq, String,
}
use golang_assignment.GoText.{concat, hex_digit}
use golang_assignment.GoUrl.Plain.{IsPlainId, AllRunes-append, is_plain}
use golang_assignment.Api.Http.{Env}
use golang_assignment.Api.Jobs.{hex, generate_id}

concat-IsPlainId : (l : List String) → All IsPlainId l → IsPlainId (concat l)
unfolding concat
concat-IsPlainId [] h = tt
concat-IsPlainId (a ∷ l) (first, rest) =
    AllRunes-append is_plain a (concat l) first (concat-IsPlainId l rest)

hex_digit-IsPlainId : (d : ℕ) → IsPlainId (hex_digit d)
unfolding hex_digit
hex_digit-IsPlainId d =
    if_keeps IsPlainId (nat_eq d 0) (refl, tt)
      (if_keeps IsPlainId (nat_eq d 1) (refl, tt)
        (if_keeps IsPlainId (nat_eq d 2) (refl, tt)
          (if_keeps IsPlainId (nat_eq d 3) (refl, tt)
            (if_keeps IsPlainId (nat_eq d 4) (refl, tt)
              (if_keeps IsPlainId (nat_eq d 5) (refl, tt)
                (if_keeps IsPlainId (nat_eq d 6) (refl, tt)
                  (if_keeps IsPlainId (nat_eq d 7) (refl, tt)
                    (if_keeps IsPlainId (nat_eq d 8) (refl, tt)
                      (if_keeps IsPlainId (nat_eq d 9) (refl, tt)
                        (if_keeps IsPlainId (nat_eq d 10) (refl, tt)
                          (if_keeps IsPlainId (nat_eq d 11) (refl, tt)
                            (if_keeps IsPlainId (nat_eq d 12) (refl, tt)
                              (if_keeps IsPlainId (nat_eq d 13) (refl, tt)
                                (if_keeps IsPlainId (nat_eq d 14) (refl, tt)
                                  (refl, tt)))))))))))))))

hex-IsPlainId : (bytes : List ℕ) → IsPlainId (hex bytes)
unfolding hex
hex-IsPlainId [] = tt
hex-IsPlainId (b ∷ bytes) =
    concat-IsPlainId (hex_digit (b / 16) ∷ hex_digit (b % 16) ∷ hex bytes ∷ [])
      (hex_digit-IsPlainId (b / 16), (hex_digit-IsPlainId (b % 16), (hex-IsPlainId bytes, tt)))

-- What `time.Format` gives for the stamp is plain: digits.
abbrev pub HasPlainStamp : Env → Type 0
HasPlainStamp env = IsPlainId env.stamp

job_prefix : (rest : String) → IsPlainId rest → IsPlainId (concat ("job" ∷ "-" ∷ rest ∷ []))
job_prefix rest h =
    concat-IsPlainId ("job" ∷ "-" ∷ rest ∷ []) ((refl, (refl, (refl, tt))), ((refl, tt), (h, tt)))

pub generate_id-IsPlainId : (env : Env) → HasPlainStamp env → IsPlainId (generate_id "job" env)
unfolding generate_id
generate_id-IsPlainId env plain = elim (Option-cases env.random) [
  | inl failed ↦ rw (generate_id, failed) (job_prefix env.stamp plain)
  | inr (bytes, given) ↦ rw (generate_id, given) (job_prefix (hex bytes) (hex-IsPlainId bytes))
]
