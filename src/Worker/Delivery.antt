-- ===== src/Worker/Delivery.antt =====
-- The requests of a client at the server, through a network that leads every host to the server and
-- delivers every request. A client that is redirected, as for a path that is not clean, sends a GET then,
-- which changes nothing; here it takes the redirect for the answer, and an error in its place.
use text.Mathlib.TextLemmas.{append-nil}
use golang_assignment.Prelude.{
  ℕ, ◌+◌, String, ◌≡◌, refl, ap, ◌∙◌, false, [], ◌∷◌, ◌==◌, eq_refl, arith, if◌then◌else◌, if_keeps,
  sym, Bool-cases, inl, inr,
}
use golang_assignment.Prelude.Result.{Result, ok}
use golang_assignment.GoText.{concat}
use golang_assignment.GoUrl.{Url, parse_url, any_rune, is_bad_header, trim_header}
use golang_assignment.GoUrl.Plain.{
  AllRunes, IsServerUrl, IsUrlPath, is_visible, is_url_rune, bearer-good, bearer-kept,
  parse_url-plain,
}
use golang_assignment.Model.Entity.{Job, Agent}
use golang_assignment.Store.Memory.{MemoryStore, memory_store}
use golang_assignment.Api.Http.{Env, Reader, ResponseBody, write_error}
use golang_assignment.Api.Server.{Request, route, dispatch, serve}
use golang_assignment.Api.Server.Auth.{is_refused, serve_cases}
use golang_assignment.Worker.Requests.{
  Client, ClientBody, ClientRequest, Network, request_of, do_request, authorization_of, send_to,
}
use Prim.Native.String

-- the server, and how many requests it has served
pub record Deployment : Type 0 where
  pub store : MemoryStore
  pub served : ℕ

abbrev pub deployment : MemoryStore → ℕ → Deployment
deployment store served = record { store = store; served = served }

-- A client whose requests reach a server with this token, through a network that leads every host to it:
-- its URL needs no escape, and its token is the server's, and has no space or control character.
pub record IsClientOf (token : String) (c : Client) : Type 0 where
  pub same : c.auth_token ≡ token
  pub visible : AllRunes is_visible c.auth_token
  pub server : IsServerUrl c.server_url

pub next_job_runes : AllRunes is_url_rune "agents/" × AllRunes is_url_rune "/next-job"
next_job_runes = (ground arith, ground arith)

pub result_runes : AllRunes is_url_rune "jobs/" × AllRunes is_url_rune "/result"
result_runes = (ground arith, ground arith)

module _ (reader : Reader) (token : String) (env : ℕ → Env) (encode : ClientBody → reader.Body)
    (decode_agent : ResponseBody → Result Agent) (decode_job : ResponseBody → Result Job)
    (unescape : String → Result String) where
  -- the request as the server sees it
  abbrev pub delivered : ClientRequest → Request reader
  delivered r = record {
    method = r.method;
    path = r.url.path;
    authorization = trim_header r.authorization;
    body = encode r.body;
  }

  abbrev pub direct : Network
  direct = record {
    World = Deployment;
    unescape = unescape;
    Answer = ResponseBody;
    send = λ r w.
        let answer = serve memory_store reader token (env w.served) (delivered r) w.store in
        (ok (answer.0.status, answer.0.body), record { store = answer.1; served = w.served + 1 });
    decode_agent = decode_agent;
    decode_job = decode_job;
  }

  -- The client's header is good, and its token is taken.
  header-good :
      (c : Client) → IsClientOf token c → any_rune is_bad_header (authorization_of c) ≡ false
  unfolding any_rune
  header-good c h =
      if_keeps (λ s. any_rune is_bad_header s ≡ false) (c.auth_token == "") refl
        (bearer-good c.auth_token h.visible)

  not-refused :
      (c : Client) (path : String)
      → IsClientOf token c
      → is_refused token path (trim_header (authorization_of c)) ≡ false
  unfolding trim_header
  not-refused c path h = elim (Bool-cases (c.auth_token == "")) [
    | inl unset ↦ rw (← h.same, unset) refl
    | inr given ↦
        rw (given, bearer-kept c.auth_token h.visible given, h.same)
          (ground (arith, eq_refl (concat ("Bearer " ∷ token ∷ []))))
  ]

  -- the request at the server
  arrived :
      (c : Client) (url : Url) (body : ClientBody) (e : Env) (s : MemoryStore)
      → IsClientOf token c
      → serve memory_store reader token e (delivered (request_of c "POST" url body)) s
        ≡ dispatch memory_store reader e (route "POST" url.path) (encode body) s
  unfolding request_of
  arrived c url body e s h =
      serve_cases memory_store reader token e (delivered (request_of c "POST" url body)) s
      ∙ ap
          (λ b.
            if b
            then (write_error 401 "unauthorized" "invalid or missing Authorization header", s)
            else dispatch memory_store reader e (route "POST" url.path) (encode body) s)
          (not-refused c url.path h)

  parsed :
      (c : Client) (path : String)
      → (h : IsClientOf token c) → IsUrlPath path
      → parse_url unescape (concat (c.server_url ∷ path ∷ []))
        ≡ ok (record { authority = h.server.host; path = path })
  unfolding concat
  parsed c path h p =
      ap (λ t. parse_url unescape (String.◌++◌ c.server_url t)) (append-nil path ∙ p.text)
      ∙ parse_url-plain unescape c.server_url p.rest h.server p.runes
      ∙ ap (λ t. ok (record { authority = h.server.host; path = t })) (sym p.text)

  -- A request to a path that needs no escape reaches the handler of the path.
  pub admitted :
      (c : Client) (path : String) (body : ClientBody) (w : Deployment)
      → IsClientOf token c
      → IsUrlPath path
      → do_request direct c "POST" path body w ≡ (
        ok (
          (dispatch memory_store reader
              (env w.served)
              (route "POST" path)
              (encode body)
              w.store).0.status,
          (dispatch memory_store reader
              (env w.served)
              (route "POST" path)
              (encode body)
              w.store).0.body,
        ),
        deployment
            (dispatch memory_store reader
              (env w.served)
              (route "POST" path)
              (encode body)
              w.store).1
            (w.served + 1),
      )
  unfolding do_request send_to
  admitted c path body w h p =
      let url : Url = record { authority = h.server.host; path = path } in
      rw (parsed c path h p, header-good c h, arrived c url body (env w.served) w.store h) refl
