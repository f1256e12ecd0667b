-- ===== src/GoUrl/Tests.antt =====
-- URLs that the agent builds.
use golang_assignment.Prelude.{◌≡◌, refl, String}
use golang_assignment.Prelude.Result.{Result, ok, err}
use golang_assignment.GoUrl.{
  parse_url, cut, split_path, after_prefix, after_scheme, any_rune, trim_header,
}

abbrev no_escapes : String → Result String
no_escapes s = err "invalid URL escape"

unfoldable url_code : Unit {0}
unfolding parse_url cut split_path after_prefix after_scheme any_rune trim_header
url_code = tt

plain_id :
    parse_url no_escapes "http://localhost:8080/agents/a-1/next-job"
    ≡ ok (record { authority = "localhost:8080"; path = "/agents/a-1/next-job" })
unfolding url_code
plain_id = refl

-- An ID with a "#" is cut off there, and so is the action.
cut_id :
    parse_url no_escapes "http://localhost:8080/agents/worker#1/next-job"
    ≡ ok (record { authority = "localhost:8080"; path = "/agents/worker" })
unfolding url_code
cut_id = refl

queried_id :
    parse_url no_escapes "HTTP://localhost:8080/agents/a?b/next-job"
    ≡ ok (record { authority = "localhost:8080"; path = "/agents/a" })
unfolding url_code
queried_id = refl

bad_escape :
    parse_url no_escapes "http://localhost:8080/agents/100%/next-job" ≡ err "invalid URL escape"
unfolding url_code
bad_escape = refl

no_scheme :
    parse_url no_escapes "localhost:8080/agents/register" ≡ err "unsupported protocol scheme"
unfolding url_code
no_scheme = refl

trailing_slash :
    parse_url no_escapes "http://localhost:8080//agents/register"
    ≡ ok (record { authority = "localhost:8080"; path = "//agents/register" })
unfolding url_code
trailing_slash = refl

trimmed_token : trim_header "Bearer a b \t" ≡ "Bearer a b"
unfolding url_code
trimmed_token = refl
