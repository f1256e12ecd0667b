-- ===== src/GoUrl.antt =====
-- What `http.NewRequest` and `http.Client` make of the text of a URL: net/url's `Parse` for http and https,
-- and the value of a header. Of an authority only its text is kept, which the network looks up; the texts
-- of errors are short.
pub mod Plain
mod Tests
use Prim.Native.Char.{code}
use golang_assignment.Prelude.{
  ℕ, ◌+◌, String, Bool, true, false, ◌&&◌, ◌||◌, not, Option, none, some, List, [], ◌∷◌, ◌==◌,
  if◌then◌else◌, leb, ltb, nat_eq,
}
use golang_assignment.Prelude.Result.{Result, ok, err, map_ok, and_then}
use golang_assignment.GoText.{concat, quote}
use Prim.Native.String

pub record Url : Type 0 where
  pub authority : String
  pub path : String

unfoldable pub any_rune : (ℕ → Bool) → String → Bool
any_rune test String.[] = false
any_rune test (String.◌∷◌ c rest) = test (code c) || any_rune test rest

-- strings.Cut at a rune
unfoldable pub cut : ℕ → String → String × Option String
cut separator String.[] = ("", none)
cut separator (String.◌∷◌ c rest) =
    let (before, after) = cut separator rest in
    if nat_eq (code c) separator then ("", some rest) else (String.◌∷◌ c before, after)

-- the text up to the first slash, and that from there
unfoldable pub split_path : String → String × String
split_path String.[] = ("", "")
split_path (String.◌∷◌ c rest) =
    let (before, after) = split_path rest in
    if nat_eq (code c) 47 then ("", String.◌∷◌ c rest) else (String.◌∷◌ c before, after)

abbrev pub to_lower : ℕ → ℕ
to_lower c = if leb 65 c && leb c 90 then c + 32 else c

-- the text after a prefix in lower case, be its letters of either case
unfoldable pub after_prefix : String → String → Option String
after_prefix String.[] s = some s
after_prefix (String.◌∷◌ c prefix) String.[] = none
after_prefix (String.◌∷◌ c prefix) (String.◌∷◌ d s) =
    let later = after_prefix prefix s in if nat_eq (to_lower (code d)) (code c) then later else none

abbrev or_else : Option String → Option String → Option String
or_else (some s) other = some s
or_else none other = other

unfoldable pub after_scheme : String → Option String
after_scheme s = or_else (after_prefix "http://" s) (after_prefix "https://" s)

abbrev pub is_control : ℕ → Bool
is_control c = ltb c 32 || nat_eq c 127

abbrev pub is_percent : ℕ → Bool
is_percent c = nat_eq c 37

-- `unescape` is for texts that have a percent sign
abbrev pub unescaped : (String → Result String) → String → Result String
unescaped unescape s = if any_rune is_percent s then unescape s else ok s

abbrev pub checked_fragment : (String → Result String) → Option String → Result String
checked_fragment unescape none = ok ""
checked_fragment unescape (some fragment) = unescaped unescape fragment

-- the URL of a text without its fragment, from its authority on: the query is not part of the path
abbrev pub url_of : (String → Result String) → String → Result Url
url_of unescape s =
    let parts = split_path (cut 63 s).0 in
    if parts.0 == ""
    then err "http: no Host in request URL"
    else map_ok (λ p. record { authority = parts.0; path = p }) (unescaped unescape parts.1)

abbrev pub scheme_parsed : (String → Result String) → Option String → Option String → Result Url
scheme_parsed unescape fragment none = err "unsupported protocol scheme"
scheme_parsed unescape fragment (some rest) =
    and_then (checked_fragment unescape fragment) (λ f. url_of unescape rest)

unfoldable pub parse_url : (String → Result String) → String → Result Url
parse_url unescape s =
    let parts = cut 35 s in
    if any_rune is_control parts.0
    then err "net/url: invalid control character in URL"
    else scheme_parsed unescape parts.1 (after_scheme parts.0)

-- a rune that no value of a header has
abbrev pub is_bad_header : ℕ → Bool
is_bad_header c = is_control c && not (nat_eq c 9)

-- the value of a header as a server reads it: without the spaces and tabs at its end
unfoldable pub trim_header : String → String
trim_header String.[] = ""
trim_header (String.◌∷◌ c rest) =
    let trimmed = trim_header rest in
    if (nat_eq (code c) 32 || nat_eq (code c) 9) && trimmed == "" then "" else String.◌∷◌ c trimmed
