-- ===== src/Executor/Probes.antt =====
-- internal/executor/http_check.go, tcp_check.go and wait.go: what `Execute` does with a job, given the
-- network that the agent sees and the clock.
pub mod Digits
use Prim.Native.Char.{code}
use golang_assignment.Prelude.{
  zero, suc, ℕ, ◌+◌, ◌-◌, ◌*◌, String, Bool, true, false, not, ◌&&◌, ◌||◌, Option, none, some, List,
  [], ◌∷◌, ◌++◌, ◌==◌, if◌then◌else◌, nat_eq, leb,
}
use golang_assignment.Prelude.Int.{ℤ, pos, negsuc, max_int}
use golang_assignment.Prelude.Result.{Result, ok, err}
use golang_assignment.GoText.{concat, decimal}
use golang_assignment.Model.Entity.{Job}
use golang_assignment.Model.Value.{Value, Float64, bool, number, int, str}
use golang_assignment.Executor.{ExecutionResult}
use golang_assignment.Executor.Files.{
  payload_value, payload_string, failure, failure_with, completed, truncated,
}

-- How a wait ends: the context is done, with its error, or the time is over. The text and the number
-- are the time that has passed.
pub data Waited : Type 0 where
  interrupted : String → String → Float64 → Waited
  elapsed : String → Float64 → Waited

pub record Surroundings : Type 0 where
  -- an error of `net.Dialer.DialContext`
  pub dial : String → Option String
  -- an error of `http.NewRequestWithContext`, and the status that `Do` gets
  pub bad_url : String → Option String
  pub fetch : String → Result ℕ
  -- the duration of so many seconds as `%s` prints it, and the `select` on it
  pub duration : Float64 → String
  pub wait_for : Float64 → Waited

-- the digits of strconv.Atoi, after those read so far
digits_from : ℕ → String → Option ℕ
digits_from n String.[] = some n
digits_from n (String.◌∷◌ c rest) =
    let more = digits_from (n * 10 + (code c - 48)) rest in
    if leb 48 (code c) && leb (code c) 57 then more else none

digits : String → Option ℕ
unfolding digits_from
digits s = if s == "" then none else digits_from 0 s

in_range : ℤ → Option ℤ
in_range (pos n) = if leb n max_int then some (pos n) else none
in_range (negsuc n) = if leb n max_int then some (negsuc n) else none

minus : ℕ → ℤ
minus zero = pos 0
minus (suc n) = negsuc n

signed : Bool → Option ℕ → Option ℤ
unfolding in_range minus
signed negative none = none
signed negative (some n) = in_range (if negative then minus n else pos n)

-- strconv.Atoi
unfoldable pub atoi : String → Option ℤ
unfolding signed digits
atoi String.[] = none
atoi (String.◌∷◌ c rest) =
    if nat_eq (code c) 45
    then signed true (digits rest)
    else if nat_eq (code c) 43
    then signed false (digits rest)
    else signed false (digits (String.◌∷◌ c rest))

-- 200, or what the payload says. Go leaves open what a `float64` beyond an `int` becomes; here it keeps its
-- whole part, which no status is, either.
unfoldable pub expected_status : Option Value → ℤ
unfolding minus
expected_status (some (number v)) = if v.negative then minus (truncated v) else pos (truncated v)
expected_status (some (int n)) = n
expected_status (some (str s)) = elim (atoi s) [ none ↦ pos 200 | some n ↦ n ]
expected_status _ = pos 200

unfoldable pub is_status : ℤ → ℕ → Bool
is_status (pos n) status = nat_eq n status
is_status (negsuc n) status = false

unfoldable pub fetched : List String → ℤ → Result ℕ → ExecutionResult
unfolding is_status
fetched logs expected (err e) = failure (logs ++ concat ("request failed: " ∷ e ∷ []) ∷ []) e
fetched logs expected (ok status) =
    let received = logs ++ concat ("received status: " ∷ decimal (pos status) ∷ []) ∷ [] in
    let actual = ("actual_status", int (pos status)) ∷ [] in
    if not (is_status expected status)
    then failure_with received
        (concat ("expected status " ∷ decimal expected ∷ ", got " ∷ decimal (pos status) ∷ []))
        actual
    else completed (received ++ "http check passed" ∷ []) actual

unfoldable pub execute_http_check : Job → Surroundings → ExecutionResult
unfolding fetched expected_status
execute_http_check job around =
    let url = payload_string "url" job in
    let expected = expected_status (payload_value "expected_status" job) in
    let logs = concat ("checking " ∷ url ∷ " (expected: " ∷ decimal expected ∷ ")" ∷ []) ∷ [] in
    if url == ""
    then failure ("payload.url is required" ∷ []) "missing url in payload"
    else elim (around.bad_url url) [
      | some e ↦ failure (logs ++ concat ("failed to create request: " ∷ e ∷ []) ∷ []) e
      | none ↦ fetched logs expected (around.fetch url)
    ]

unfoldable pub execute_tcp_check : Job → Surroundings → ExecutionResult
execute_tcp_check job around =
    let address = payload_string "address" job in
    let logs = concat ("checking TCP connectivity to " ∷ address ∷ []) ∷ [] in
    if address == ""
    then failure ("payload.address is required" ∷ []) "missing address in payload"
    else elim (around.dial address) [
      | some e ↦
          failure_with (logs ++ concat ("connection failed: " ∷ e ∷ []) ∷ []) e
            (("reachable", bool false) ∷ [])
      | none ↦
          completed (logs ++ "tcp check passed — connection successful" ∷ [])
            (("reachable", bool true) ∷ [])
    ]

-- 0.0 without a number
unfoldable pub duration_seconds : Option Value → Float64
duration_seconds (some (number v)) = v
duration_seconds _ = record { negative = false; mantissa = 0; exponent = pos 0 }

unfoldable pub waited : List String → Waited → ExecutionResult
waited logs (interrupted e passed secs) =
    failure_with (logs ++ concat ("canceled after " ∷ passed ∷ []) ∷ []) e
      (("elapsed_seconds", number secs) ∷ [])
waited logs (elapsed passed secs) =
    completed (logs ++ concat ("wait completed after " ∷ passed ∷ []) ∷ [])
      (("elapsed_seconds", number secs) ∷ [])

unfoldable pub execute_wait : Job → Surroundings → ExecutionResult
unfolding duration_seconds waited
execute_wait job around =
    let secs = duration_seconds (payload_value "duration_seconds" job) in
    if secs.negative || nat_eq secs.mantissa 0
    then failure ("payload.duration_seconds must be > 0" ∷ []) "invalid duration"
    else waited (concat ("waiting for " ∷ around.duration secs ∷ []) ∷ []) (around.wait_for secs)
