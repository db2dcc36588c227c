-- ===== src/Http/Builder.antt =====
-- lib/http-server/src/http_response.rs: building the bytes of a response. The order in which a
-- `HashMap` is iterated is the parameter `Order`.
pub mod Laws
pub mod Reading
use pheidippides.Prelude.{
  ℕ, Text, codes, List, [], ◌∷◌, ◌++◌, Option, none, some, ◌≡◌, eq_text, to_lowercase,
}
use pheidippides.Prelude.Strings.{into_bytes, byte_len}
use pheidippides.Prelude.Maps
use pheidippides.Prelude.Maps.{HasDistinctKeys}
use pheidippides.Cookies.{Header, Headers, from_str}
use pheidippides.Http.Number.{to_string}
use pheidippides.Http.Status
use pheidippides.Http.Status.{HttpStatusCode, HttpVersion, http11, status_text, version_text}

-- Each entry of the map is visited once.
pub record Order : Type 0 where
  pub iter : Headers → List Header
  pub iter_keys : (m : Headers) → HasDistinctKeys m → HasDistinctKeys (iter m)
  pub get-iter :
      (m : Headers) → HasDistinctKeys m → (key : Text) → Maps.get (iter m) key ≡ Maps.get m key

pub record HttpResponseBuilder : Type 0 where
  pub version : HttpVersion
  pub status : HttpStatusCode
  pub headers : Headers
  pub body : Option Text

abbrev pub new : HttpResponseBuilder
new = record { version = http11; status = Status.ok; headers = []; body = none }

abbrev pub status : HttpStatusCode → HttpResponseBuilder → HttpResponseBuilder
status code builder = record builder { status = code }

unfoldable pub header : Header → HttpResponseBuilder → HttpResponseBuilder
header (key, value) builder = record builder { headers = Maps.insert builder.headers key value }

abbrev pub body : Text → HttpResponseBuilder → HttpResponseBuilder
body text builder = record builder { body = some text }

-- The loop over the header lines.
unfoldable pub header_bytes : List Header → List ℕ
header_bytes [] = []
header_bytes ((key, value) ∷ hs) =
    into_bytes (key ++ (codes ": " ++ (value ++ codes "\r\n"))) ++ header_bytes hs

unfoldable pub body_bytes : Option Text → List ℕ
body_bytes none = []
body_bytes (some text) = into_bytes text

module _ (unicode : Text → Text) where
  abbrev content_type : Text → HttpResponseBuilder → HttpResponseBuilder
  content_type value builder = record builder {
    headers = Maps.insert builder.headers (from_str unicode (codes "Content-Type")) value;
  }

  abbrev pub content_text : HttpResponseBuilder → HttpResponseBuilder
  content_text = content_type (codes "text/plain; charset=utf-8")

  abbrev pub content_html : HttpResponseBuilder → HttpResponseBuilder
  content_html = content_type (codes "text/html; charset=utf-8")

  abbrev pub content_json : HttpResponseBuilder → HttpResponseBuilder
  content_json = content_type (codes "application/json; charset=utf-8")

  abbrev pub content_event_stream : HttpResponseBuilder → HttpResponseBuilder
  content_event_stream = content_type (codes "text/event-stream; charset=utf-8")

  -- The headers with the length of the body, which `String::len` counts in bytes.
  unfoldable pub sized : Option Text → Headers → Headers
  sized none headers = headers
  sized (some text) headers =
      Maps.insert headers (from_str unicode (codes "Content-Length")) (to_string (byte_len text))

  unfoldable pub build : Order → HttpResponseBuilder → List ℕ
  unfolding sized header_bytes body_bytes
  build order builder =
      into_bytes (
        version_text builder.version ++ (codes " " ++ (status_text builder.status ++ codes "\r\n")))
      ++ (header_bytes (order.iter (sized builder.body builder.headers))
          ++ (into_bytes (codes "\r\n") ++ body_bytes builder.body))
