-- ===== src/Api/Middleware.antt =====
-- internal/api/middleware.go: `statusWriter`, `LoggingMiddleware` and `RecoveryMiddleware`. A handler
-- is what it does: its calls of the `ResponseWriter` in their order, and whether it panics after them.
pub mod Statuses
mod Tests
use golang_assignment.Prelude.{
  ℕ, String, Bool, true, false, not, ◌&&◌, List, [], ◌∷◌, ◌++◌, if◌then◌else◌, nat_eq, leb,
}
use golang_assignment.Model.Dto.{ErrorResponse}
use golang_assignment.Api.Http.{Response, ResponseBody, write_error}

-- a call of a `http.ResponseWriter`
pub data Write : Type 0 where
  write_header : ℕ → Write
  write : ResponseBody → Write

-- the calls that `writeJSON`, or `WriteHeader` alone, makes for a response
abbrev pub response_writes : Response → List Write
response_writes r = elim r.body [
  | ResponseBody.empty ↦ write_header r.status ∷ []
  | body ↦ write_header r.status ∷ write body ∷ []
]

pub record StatusWriter : Type 0 where
  pub status : ℕ
  pub wrote_header : Bool
  -- the calls that the wrapped writer has seen
  pub passed_on : List Write

abbrev pub new_status_writer : StatusWriter
new_status_writer = record { status = 200; wrote_header = false; passed_on = [] }

-- the methods `WriteHeader` and `Write`
unfoldable pub status_write : Write → StatusWriter → StatusWriter
status_write (write_header code) sw =
    let noted =
      if not sw.wrote_header then record sw { status = code; wrote_header = true } else sw in
    record noted { passed_on = noted.passed_on ++ write_header code ∷ [] }
status_write (write b) sw =
    let noted = if not sw.wrote_header then record sw { wrote_header = true } else sw in
    record noted { passed_on = noted.passed_on ++ write b ∷ [] }

unfoldable pub status_writes : List Write → StatusWriter → StatusWriter
unfolding status_write
status_writes [] sw = sw
status_writes (w ∷ ws) sw = status_writes ws (status_write w sw)

-- a line of the log: "http request" with its status, or "panic recovered"
pub data LogEntry : Type 0 where
  http_request : ℕ → LogEntry
  panic_recovered : LogEntry

pub record Outcome : Type 0 where
  pub writes : List Write
  pub panicked : Bool
  pub log : List LogEntry

-- a panic leaves `ServeHTTP` before the line is logged
unfoldable pub logging_middleware : Outcome → Outcome
unfolding status_writes
logging_middleware next =
    let sw = status_writes next.writes new_status_writer in
    if next.panicked
    then record next { writes = sw.passed_on }
    else record next { writes = sw.passed_on; log = next.log ++ http_request sw.status ∷ [] }

unfoldable pub recovery_middleware : Outcome → Outcome
recovery_middleware next =
    if next.panicked
    then record {
      writes = next.writes ++ response_writes (write_error 500 "internal server error" "");
      panicked = false;
      log = next.log ++ panic_recovered ∷ [];
    }
    else next

-- the middleware of `Handler` around the handler that checks the token
unfoldable pub observed : Outcome → Outcome
unfolding logging_middleware recovery_middleware
observed next = recovery_middleware (logging_middleware next)

-- what net/http makes of the calls: the first header that is final counts, and 200 if there is none
abbrev pub is_informational : ℕ → Bool
is_informational code = leb 100 code && leb code 199 && not (nat_eq code 101)

unfoldable pub is_sent : List Write → Bool
is_sent [] = false
is_sent (write_header code ∷ ws) =
    let rest = is_sent ws in if is_informational code then rest else true
is_sent (write b ∷ ws) = true

unfoldable pub sent_status : List Write → ℕ
sent_status [] = 200
sent_status (write_header code ∷ ws) =
    let rest = sent_status ws in if is_informational code then rest else code
sent_status (write b ∷ ws) = 200
