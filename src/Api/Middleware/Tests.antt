-- ===== src/Api/Middleware/Tests.antt =====
-- Handlers that return, and that panic early and late.
use golang_assignment.Prelude.{◌≡◌, refl, true, false, not, ◌&&◌, [], ◌∷◌, ◌++◌, if◌then◌else◌}
use golang_assignment.Api.Http.{ResponseBody}
use golang_assignment.Api.Middleware.{
  write_header, write, http_request, panic_recovered, Outcome, observed, is_sent, sent_status,
}
use golang_assignment.Api.Middleware.Statuses.{observed_status, logged_status}

abbrev late_panic : Outcome
late_panic = record { writes = write_header 404 ∷ []; panicked = true; log = [] }

abbrev early_panic : Outcome
early_panic = record { writes = write_header 103 ∷ []; panicked = true; log = [] }

observed_status_example :
    ((observed early_panic).panicked ≡ false)
    × (sent_status (observed early_panic).writes ≡ (
        if true && not (is_sent early_panic.writes) then 500 else sent_status early_panic.writes))
observed_status_example = observed_status early_panic

early_panic-sent :
    (sent_status (observed early_panic).writes ≡ 500)
    × (sent_status (observed late_panic).writes ≡ 404)
unfolding observed sent_status
early_panic-sent = (refl, refl)

abbrev answered : Outcome
answered = record {
  writes = write_header 201 ∷ write ResponseBody.empty ∷ [];
  panicked = false;
  log = [];
}

logged_status_example :
    (observed answered).log
    ≡ []
      ++ ((if false then panic_recovered else http_request (sent_status (observed answered).writes))
          ∷ [])
logged_status_example = logged_status answered (refl, (tt, tt))
