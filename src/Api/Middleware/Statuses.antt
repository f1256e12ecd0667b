-- ===== src/Api/Middleware/Statuses.antt =====
-- The status that is sent and the one that is logged.
use mathlib.Core.List.{append_assoc, append-nil}
use golang_assignment.Prelude.{
  ◌≡◌, sym, refl, ap, ◌∙◌, true, false, not, ◌&&◌, List, [], ◌∷◌, ◌++◌, if◌then◌else◌, arith, All,
}
use golang_assignment.Api.Http.{write_error}
use golang_assignment.Api.Middleware.{
  Write, write_header, write, response_writes, StatusWriter, new_status_writer, status_write,
  status_writes, http_request, panic_recovered, Outcome, logging_middleware, recovery_middleware,
  observed, is_informational, is_sent, sent_status,
}

status_write-passed_on :
    (w : Write) (sw : StatusWriter) → (status_write w sw).passed_on ≡ sw.passed_on ++ (w ∷ [])
unfolding status_write
status_write-passed_on (write_header code) sw = ground arith
status_write-passed_on (write b) sw = ground arith

-- The wrapped writer sees the same calls.
status_writes-passed_on :
    (ws : List Write) (sw : StatusWriter) → (status_writes ws sw).passed_on ≡ sw.passed_on ++ ws
unfolding status_writes
status_writes-passed_on [] sw = sym (append-nil sw.passed_on)
status_writes-passed_on (w ∷ ws) sw =
    status_writes-passed_on ws (status_write w sw)
    ∙ ap (λ (l : List Write). l ++ ws) (status_write-passed_on w sw)
    ∙ append_assoc sw.passed_on (w ∷ []) ws

-- Not informational: a header that the client sees as the answer.
abbrev pub IsFinal : Write → Type 0
IsFinal (write_header code) = is_informational code ≡ false
IsFinal (write b) = Unit

-- After the first call the status stays.
status_writes-kept :
    (ws : List Write) (sw : StatusWriter)
    → sw.wrote_header ≡ true
    → (status_writes ws sw).status ≡ sw.status
unfolding status_writes status_write
status_writes-kept [] sw h = refl
status_writes-kept (write_header code ∷ ws) sw h =
    ground (arith, status_writes-kept ws (status_write (write_header code) sw))
status_writes-kept (write b ∷ ws) sw h =
    ground (arith, status_writes-kept ws (status_write (write b) sw))

status_writes-first :
    (ws : List Write)
    → All IsFinal ws
    → (status_writes ws new_status_writer).status ≡ sent_status ws
unfolding status_writes status_write sent_status
status_writes-first [] h = refl
status_writes-first (write_header code ∷ ws) (final, h) =
    ground (arith, status_writes-kept ws (status_write (write_header code) new_status_writer))
status_writes-first (write b ∷ ws) h =
    ground (arith, status_writes-kept ws (status_write (write b) new_status_writer))

sent_status-append :
    (ws vs : List Write)
    → sent_status (ws ++ vs) ≡ (if is_sent ws then sent_status ws else sent_status vs)
unfolding sent_status is_sent
sent_status-append [] vs = refl
sent_status-append (write_header code ∷ ws) vs = ground (arith, sent_status-append ws vs)
sent_status-append (write b ∷ ws) vs = refl

not-sent : (ws : List Write) → is_sent ws ≡ false → sent_status ws ≡ 200
unfolding sent_status is_sent
not-sent [] h = refl
not-sent (write_header code ∷ ws) h = ground (arith, not-sent ws)
not-sent (write b ∷ ws) h = refl

observed-writes :
    (next : Outcome)
    → (observed next).writes ≡ (
        if next.panicked
        then next.writes ++ response_writes (write_error 500 "internal server error" "")
        else next.writes)
unfolding observed logging_middleware recovery_middleware
observed-writes next = ground (arith, status_writes-passed_on next.writes new_status_writer)

-- However the handler ends, no panic gets past the middleware. The status that is sent is the one
-- that the handler has sent; if it has panicked before sending one, it is 500.
pub observed_status :
    (next : Outcome)
    → ((observed next).panicked ≡ false)
      × (sent_status (observed next).writes
          ≡ (if next.panicked && not (is_sent next.writes) then 500 else sent_status next.writes))
unfolding observed logging_middleware recovery_middleware
observed_status next =
    let error = write_error 500 "internal server error" "" in
    (
      ground arith,
      unfold sent_status in
          ground (
            arith,
            status_writes-passed_on next.writes new_status_writer,
            sent_status-append next.writes (response_writes error),
          ),
    )

-- A handler that writes no informational header adds one line to the log: if it returns, the line of
-- the request, with the status that is sent; if it panics, only the line of the panic.
pub logged_status :
    (next : Outcome)
    → All IsFinal next.writes
    → (observed next).log
      ≡ next.log
        ++ ((if next.panicked
              then panic_recovered
              else http_request (sent_status (observed next).writes))
            ∷ [])
unfolding observed logging_middleware recovery_middleware
logged_status next final = ground (
  arith,
  status_writes-first next.writes final,
  status_writes-passed_on next.writes new_status_writer,
)
