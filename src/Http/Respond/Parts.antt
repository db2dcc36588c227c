-- ===== src/Http/Respond/Parts.antt =====
-- lib/http-server/src/request.rs: the body, the status and the headers of the answer to a
-- request.
use pheidippides.Prelude.{
  Text, codes, List, [], ◌∷◌, Option, none, some, All, ◌≡◌, refl, arith, eq_text, to_lowercase,
  ◌==◌, if◌then◌else◌, Bool, true, false,
}
use pheidippides.Prelude.Strings.{ascii_lower, trim_end, is_whitespace}
use pheidippides.Prelude.Maps
use pheidippides.Prelude.Maps.{get-insert}
use pheidippides.Cookies as Names
use pheidippides.Cookies.{Header, Headers}
use pheidippides.Http.Headers.{IsHeader}
use pheidippides.Http.Request.{content}
use pheidippides.Http.Response.{
  Response, html, text, json, redirect, event_source, bad_request, internal_server_error,
  no_content,
}
use pheidippides.Http.Status
use pheidippides.Http.Status.{HttpStatusCode, status_text}
use pheidippides.Http.Builder.{HttpResponseBuilder, header}
use pheidippides.Http.Builder.Laws.{IsLower, or_else}
use pheidippides.Http.Builder.Reading.{IsReadable, insert-IsReadable}
use pheidippides.Http.Respond.{add_headers}

module _ {Stream : Type 0} where
  -- The body of a response, if it has one, and the headers that the handler gave it, with the
  -- place that a redirection leads to.
  abbrev pub body_of : Response Stream → Option Text
  body_of (html content headers) = some content
  body_of (text content headers) = some content
  body_of (json content headers) = some content
  body_of (redirect location headers) = none
  body_of (event_source retry stream) = none
  body_of bad_request = some (codes "Bad request")
  body_of internal_server_error = some (codes "Internal Server Error")
  body_of no_content = none

  abbrev pub headers_of : Response Stream → List Header
  headers_of (html content headers) = headers
  headers_of (text content headers) = headers
  headers_of (json content headers) = headers
  headers_of (redirect location headers) = (codes "location", location) ∷ headers
  headers_of (event_source retry stream) = []
  headers_of bad_request = []
  headers_of internal_server_error = []
  headers_of no_content = []

  -- The Content-Type that the server sets.
  abbrev pub type_of : Response Stream → Option Text
  type_of (html content headers) = some (codes "text/html; charset=utf-8")
  type_of (text content headers) = some (codes "text/plain; charset=utf-8")
  type_of (json content headers) = some (codes "application/json; charset=utf-8")
  type_of (redirect location headers) = none
  type_of (event_source retry stream) = some (codes "text/event-stream; charset=utf-8")
  type_of bad_request = none
  type_of internal_server_error = none
  type_of no_content = none

  abbrev pub status_of : Response Stream → HttpStatusCode
  status_of (html content headers) = Status.ok
  status_of (text content headers) = Status.ok
  status_of (json content headers) = Status.ok
  status_of (redirect location headers) = Status.see_other
  status_of (event_source retry stream) = Status.ok
  status_of bad_request = Status.bad_request
  status_of internal_server_error = Status.internal_server_error
  status_of no_content = Status.ok

-- The last of the headers with this key.
abbrev pub last_value : List Header → Text → Option Text
last_value [] key = none
last_value ((k, value) ∷ headers) key =
    or_else (last_value headers key) (if k == key then some value else none)

or_else-test :
    (o : Option Text) (found : Bool) (value : Text) (rest : Option Text)
    → or_else o (if found then some value else rest)
      ≡ or_else (or_else o (if found then some value else none)) rest
or_else-test none true value rest = refl
or_else-test none false value rest = refl
or_else-test (some v) found value rest = refl

module _ (unicode : Text → Text) where
  pub add_headers-IsReadable :
      (hs : List Header) (b : HttpResponseBuilder)
      → All IsHeader hs
      → All (IsLower unicode) hs
      → IsReadable unicode b.headers
      → IsReadable unicode (add_headers hs b).headers
  unfolding add_headers header
  add_headers-IsReadable [] b h l r = r
  add_headers-IsReadable ((key, value) ∷ hs) b (h, more) (l, lower) r =
      add_headers-IsReadable hs (header (key, value) b) more lower
        (insert-IsReadable unicode b.headers key value h l r)

  pub add_headers-body :
      (hs : List Header) (b : HttpResponseBuilder) → (add_headers hs b).body ≡ b.body
  unfolding add_headers header
  add_headers-body [] b = refl
  add_headers-body ((key, value) ∷ hs) b = add_headers-body hs (header (key, value) b)

  pub add_headers-status :
      (hs : List Header) (b : HttpResponseBuilder) → (add_headers hs b).status ≡ b.status
  unfolding add_headers header
  add_headers-status [] b = refl
  add_headers-status ((key, value) ∷ hs) b = add_headers-status hs (header (key, value) b)

  pub get-add_headers :
      (hs : List Header) (b : HttpResponseBuilder) (key : Text)
      → Maps.get (add_headers hs b).headers key
        ≡ or_else (last_value hs key) (Maps.get b.headers key)
  unfolding add_headers header
  get-add_headers [] b key = refl
  get-add_headers ((k, value) ∷ hs) b key =
      rw (get-add_headers hs (header (k, value) b) key, get-insert b.headers k key value)
        (or_else-test (last_value hs key) (k == key) value (Maps.get b.headers key))

  pub new-IsReadable : IsReadable unicode []
  new-IsReadable = record { keys = tt; readable = tt; lower = tt }

  pub content_type-eq : Names.from_str unicode (codes "Content-Type") ≡ codes "content-type"
  unfolding Names.from_str to_lowercase ascii_lower
  content_type-eq = refl

  pub location-eq : Names.from_str unicode (codes "Location") ≡ codes "location"
  unfolding Names.from_str to_lowercase ascii_lower
  location-eq = refl

  content_type-lower : Names.from_str unicode (codes "content-type") ≡ codes "content-type"
  unfolding Names.from_str to_lowercase ascii_lower
  content_type-lower = refl

  pub typed-IsReadable :
      (value : Text)
      → IsHeader (codes "content-type", value)
      → IsReadable unicode (Maps.insert [] (Names.from_str unicode (codes "Content-Type")) value)
  typed-IsReadable value h = rw content_type-eq (
      insert-IsReadable unicode [] (codes "content-type") value h content_type-lower new-IsReadable)

  pub plain-IsHeader : IsHeader (codes "content-type", codes "text/plain; charset=utf-8")
  unfolding trim_end is_whitespace
  plain-IsHeader = (ground arith, ground arith, ground arith, refl)

  pub html-IsHeader : IsHeader (codes "content-type", codes "text/html; charset=utf-8")
  unfolding trim_end is_whitespace
  html-IsHeader = (ground arith, ground arith, ground arith, refl)

  pub json-IsHeader : IsHeader (codes "content-type", codes "application/json; charset=utf-8")
  unfolding trim_end is_whitespace
  json-IsHeader = (ground arith, ground arith, ground arith, refl)
