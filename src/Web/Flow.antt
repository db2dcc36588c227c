-- ===== src/Web/Flow.antt =====
-- lib/pheidippides-web/src/flow_controller.rs: a handler either goes on with a value or has its
-- response already. `S` is the state that the handler works on.
use pheidippides.Prelude.{Option, none, some, Result, ok, err, Exec}
use pheidippides.Http.Response.{Response, bad_request, internal_server_error}

pub data HttpResponseFlowController (Stream T : Type 0) : Type 0 where
  value : T → HttpResponseFlowController Stream T
  http_response : Response Stream → HttpResponseFlowController Stream T

-- `HttpResponseContext::check`, for a `Result`. For an `Option` it is the identity.
abbrev pub check : {E T : Type 0} → Result E T → Option T
check (ok v) = some v
check (err _) = none

module _ {Stream T : Type 0} where
  unfoldable pub or_bad_request : Option T → HttpResponseFlowController Stream T
  or_bad_request (some v) = value v
  or_bad_request none = http_response bad_request

  unfoldable pub or_server_error : Option T → HttpResponseFlowController Stream T
  or_server_error (some v) = value v
  or_server_error none = http_response internal_server_error

-- A part of a handler.
abbrev pub Handling : Type 0 → Type 0 → Type 0 → Type 0
Handling S Stream T = S → HttpResponseFlowController Stream T × S

module _ {S Stream T : Type 0} where
  abbrev pub respond : Response Stream → Handling S Stream T
  respond response s = (http_response response, s)

  abbrev pub lift : HttpResponseFlowController Stream T → Handling S Stream T
  lift flow s = (flow, s)

  -- A call that may fail, under `.or_server_error()`, `.or_bad_request()`.
  abbrev pub server_error : {E : Type 0} → Exec S E T → Handling S Stream T
  server_error call s = let (res, t) = call s in (or_server_error (check res), t)

  abbrev pub bad_request_error : {E : Type 0} → Exec S E T → Handling S Stream T
  bad_request_error call s = let (res, t) = call s in (or_bad_request (check res), t)

module _ {S Stream A B : Type 0} where
  abbrev go_on :
      HttpResponseFlowController Stream A → (A → Handling S Stream B) → Handling S Stream B
  go_on (value a) f s = f a s
  go_on (http_response response) f s = (http_response response, s)

  -- The operator `?`.
  infixl 5 ◌>>=◌ ◌>>◌
  abbrev pub ◌>>=◌ : Handling S Stream A → (A → Handling S Stream B) → Handling S Stream B
  ◌>>=◌ m f s = let (flow, t) = m s in go_on flow f t

  abbrev pub ◌>>◌ : Handling S Stream A → Handling S Stream B → Handling S Stream B
  m >> n = m >>= λ _. n

abbrev response_of :
    {Stream : Type 0} → HttpResponseFlowController Stream (Response Stream) → Response Stream
response_of (value response) = response
response_of (http_response response) = response

-- A whole handler: whatever was reached is the response.
abbrev pub answer :
    {S Stream : Type 0} → Handling S Stream (Response Stream) → S → Response Stream × S
answer handler s = let (flow, t) = handler s in (response_of flow, t)
