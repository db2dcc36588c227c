-- ===== src/Tests/Http.antt =====
-- Bytes at concrete inputs: a connection that keeps what is written, and a map that is visited in
-- the order of its entries.
use pheidippides.Prelude.{
  ℕ, suc, Text, codes, List, [], ◌∷◌, ◌++◌, length, none, some, ok, true, false, All, ◌≡◌, ◌≢◌,
  refl, sym, ap, arith, to_lowercase, text_eq, eq_text, ◌==◌, if◌then◌else◌, Result,
}
use pheidippides.Prelude.Strings.{into_bytes, is_whitespace, ascii_lower, trim_end}
use pheidippides.Prelude.Strings.Laws.{IsWord}
use pheidippides.Prelude.Maps
use pheidippides.Cookies as Names
use pheidippides.Cookies.{Header, Headers}
use pheidippides.Http.Method.{post}
use pheidippides.Http.Headers.{IsHeader}
use pheidippides.Http.Request.{Request, try_from_stream, read_line, read_headers, content}
use pheidippides.Http.Request.Printing.{request_bytes, request_of, try_from_stream-request_bytes}
use pheidippides.Http.Response.{Response, EventSourceEvent, pos, html}
use pheidippides.Http.Status.{status_text}
use pheidippides.Http.Builder.{Order, new, body, content_html, content_event_stream, build}
use pheidippides.Http.Builder.Laws.{IsLower, or_else}
use pheidippides.Http.Writer.{Writer}
use pheidippides.Http.Respond.{respond, finished, add_headers}
use pheidippides.Http.Respond.Parts.{status_of, type_of, last_value}
use pheidippides.Http.Respond.Reading.{respond-read}
use pheidippides.Http.EventSource.{
  Wake, interval, client_line, next_event, handle_event_stream, signed, event_text, keep_alive,
  send_event_to_event_source_stream,
}
use pheidippides.Http.EventSource.Client.{IsSendable, events_of}
use pheidippides.Http.EventSource.Delivery.{connection, handle_event_stream-events_of}
use pheidippides.Http.Server.{RequestHandler, answered, serve}
use pheidippides.Http.Server.Serving.{serve-read}
use pheidippides.Prelude.{take, drop, ◌≤◌, ◌+◌}
use pheidippides.Http.Number.{parse, usize_max}
use pheidippides.Http.Utf8.{from_utf8}
use pheidippides.Http.Request.Bounds.{content_takes}
use pheidippides.Tests.Base.{same_text}

pub written-write :
    (c c' bytes : List ℕ)
    → ◌≡◌ {A = Result (Unit {0}) (List ℕ)} (ok (c ++ bytes)) (ok c')
    → c' ≡ c ++ bytes
written-write c c' bytes h = ground arith

pub same_written : (c c' : List ℕ) → ◌≡◌ {A = Result (Unit {0}) (List ℕ)} (ok c) (ok c') → c' ≡ c
same_written c c' h = ground arith

abbrev pub buffer : Writer (List ℕ) (Unit {0})
buffer = record {
  write_all = λ c bytes. ok (c ++ bytes);
  flush = λ c. ok c;
  shutdown = λ c. ok c;
  written = λ c. c;
  written-write_all = written-write;
  written-flush = same_written;
  written-shutdown = same_written;
}

abbrev pub in_order : Order
in_order = record { iter = λ m. m; iter_keys = λ m d. d; get-iter = λ m d key. refl }

abbrev two_headers : List Header
two_headers = (codes "Host", codes "a") ∷ (codes "Content-Length", codes "2") ∷ []

post_IsWord : IsWord (codes "Post")
unfolding is_whitespace
post_IsWord = (λ p. ground (arith, p), ground arith)

url_IsWord : IsWord (codes "/message/3")
unfolding is_whitespace
url_IsWord = (λ p. ground (arith, p), ground arith)

two_headers-IsHeader : All IsHeader two_headers
unfolding trim_end is_whitespace
two_headers-IsHeader = (
  (ground arith, ground arith, ground arith, refl),
  ((ground arith, ground arith, ground arith, refl), tt),
)

try_from_stream-request_bytes_example :
    (try_from_stream same_text (
        request_bytes
          (codes "Post")
          (codes "/message/3")
          two_headers
          (into_bytes (codes "hi") ++ codes "more"))
      ≡ ok (
          request_of same_text post
            (codes "/message/3")
            two_headers
            (into_bytes (codes "hi") ++ codes "more")))
    × (content same_text (
          request_of same_text post
            (codes "/message/3")
            two_headers
            (into_bytes (codes "hi") ++ codes "more"))
        ≡ ok
            (codes "hi", request_of same_text post (codes "/message/3") two_headers (codes "more")))
unfolding to_lowercase ascii_lower Maps.get Maps.insert text_eq Names.from_str
    pheidippides.Http.Number.to_string pheidippides.Prelude.Strings.byte_len
try_from_stream-request_bytes_example =
    try_from_stream-request_bytes same_text (codes "Post") (codes "/message/3") two_headers
      (codes "hi") (codes "more") post refl post_IsWord (ground arith) url_IsWord (ground arith)
      two_headers-IsHeader (ground arith) (omega arith) refl

abbrev cookie : List Header
cookie = (codes "set-cookie", codes "a=b") ∷ []

abbrev page : Response (Unit {0})
page = html (codes "hi") cookie

abbrev page_bytes : List ℕ
page_bytes =
    build same_text in_order (add_headers cookie (content_html same_text (body (codes "hi") new)))

page_written : respond buffer same_text in_order page [] ≡ finished (ok page_bytes)
unfolding respond
page_written = refl

cookie-IsHeader : All IsHeader cookie
unfolding trim_end is_whitespace
cookie-IsHeader = ((ground arith, ground arith, ground arith, refl), tt)

cookie-IsLower : All (IsLower same_text) cookie
unfolding to_lowercase ascii_lower Names.from_str
cookie-IsLower = (refl, tt)

abbrev nothing_read : Request
nothing_read = record { reader = []; method = post; url = []; headers = [] }

respond-read_example :
    (bytes : List ℕ) × (headers : Headers) × (rest : List ℕ) × (page_bytes ≡ [] ++ bytes)
    × (read_line bytes
        ≡ ok (codes "HTTP/1.1 " ++ (status_text (status_of page) ++ codes "\r\n"), rest))
    × (read_headers same_text (suc (length rest)) [] rest ≡ ok (headers, into_bytes (codes "hi")))
    × (Maps.get headers (codes "set-cookie")
        ≡ or_else
            (last_value cookie (codes "set-cookie"))
            (if codes "content-type" == codes "set-cookie" then type_of page else none))
    × (content same_text
          (record nothing_read { headers = headers; reader = into_bytes (codes "hi") })
        ≡ ok (codes "hi", record nothing_read { headers = headers; reader = [] }))
unfolding pheidippides.Prelude.Strings.byte_len
respond-read_example =
    respond-read same_text buffer in_order page (codes "hi") [] page_bytes nothing_read refl
      cookie-IsHeader cookie-IsLower (ground arith) (omega arith) page_written (codes "set-cookie")
      (λ p. ground (arith, p))

abbrev counting : RequestHandler ℕ (Unit {0}) (Unit {0})
counting request n = (ok page, suc n)

serve-read_example :
    (bytes : List ℕ) × (headers : Headers) × (rest : List ℕ) × (serve buffer same_text in_order
        counting
        (request_bytes (codes "Post") (codes "/message/3") two_headers (codes "hi"))
        []
        4
      ≡ (answered (finished (ok page_bytes)), 5))
    × (page_bytes ≡ [] ++ bytes)
    × (read_line bytes
        ≡ ok (codes "HTTP/1.1 " ++ (status_text (status_of page) ++ codes "\r\n"), rest))
    × (read_headers same_text (suc (length rest)) [] rest ≡ ok (headers, into_bytes (codes "hi")))
    × (Maps.get headers (codes "set-cookie")
        ≡ or_else
            (last_value cookie (codes "set-cookie"))
            (if codes "content-type" == codes "set-cookie" then type_of page else none))
    × (content same_text
          (record nothing_read { headers = headers; reader = into_bytes (codes "hi") })
        ≡ ok (codes "hi", record nothing_read { headers = headers; reader = [] }))
unfolding to_lowercase ascii_lower pheidippides.Prelude.Strings.byte_len
serve-read_example =
    serve-read buffer same_text in_order counting (codes "Post") (codes "/message/3") two_headers
      (codes "hi") post [] page_bytes 4 5 page (codes "hi") nothing_read refl post_IsWord
      (ground arith) url_IsWord (ground arith) two_headers-IsHeader refl refl cookie-IsHeader
      cookie-IsLower (ground arith) (omega arith) page_written (codes "set-cookie")
      (λ p. ground (arith, p))

abbrev first_event : EventSourceEvent
first_event = record { payload = codes "{}\n[]"; id = codes "7"; event = some (codes "new") }

abbrev second_event : EventSourceEvent
second_event = record { payload = codes "x"; id = codes "8"; event = none }

first_event-IsSendable : IsSendable first_event
first_event-IsSendable = record {
  first = codes "{}";
  more = codes "[]" ∷ [];
  payload = refl;
  payload_lines = (ground arith, (ground arith, tt));
  filled = λ p. ground (arith, p);
  id_line = ground arith;
  type_line = ground arith;
}

second_event-IsSendable : IsSendable second_event
second_event-IsSendable = record {
  first = codes "x";
  more = [];
  payload = refl;
  payload_lines = (ground arith, tt);
  filled = λ p. ground (arith, p);
  id_line = ground arith;
  type_line = tt;
}

-- Two events with an idle hour between them; then the client closes the connection.
abbrev turns : List Wake
turns =
    next_event (some first_event)
    ∷ interval
    ∷ next_event (some second_event)
    ∷ client_line
    ∷ next_event (some first_event)
    ∷ []

abbrev head_bytes : List ℕ
head_bytes = build same_text in_order (content_event_stream same_text new)

abbrev stream_bytes : List ℕ
stream_bytes =
    (((head_bytes ++ into_bytes (codes "retry: " ++ (signed (pos 5) ++ codes "\n")))
        ++ into_bytes (event_text first_event))
      ++ into_bytes (codes ": keep-alive\n"))
    ++ into_bytes (event_text second_event)

stream_written :
    connection (handle_event_stream buffer same_text in_order (some (pos 5)) turns [])
    ≡ some stream_bytes
unfolding handle_event_stream send_event_to_event_source_stream keep_alive
stream_written = refl

handle_event_stream-events_of_example :
    (text : Text) × (stream_bytes ≡ ([] ++ head_bytes) ++ into_bytes text)
    × (events_of text ≡ first_event ∷ second_event ∷ [])
handle_event_stream-events_of_example =
    handle_event_stream-events_of buffer same_text in_order (some (pos 5)) turns [] stream_bytes
      (first_event-IsSendable, (second_event-IsSendable, tt)) stream_written

abbrev greeting : Request
greeting = record {
  reader = codes "hi, more";
  method = post;
  url = codes "/";
  headers = (codes "content-length", codes "2") ∷ [];
}

two_taken :
    content same_text greeting ≡ ok (codes "hi", record greeting { reader = codes ", more" })
unfolding content Maps.get text_eq Names.from_str pheidippides.Http.Number.parse
    pheidippides.Http.Utf8.from_utf8
two_taken = refl

content_takes_example :
    (value : Text) × (n : ℕ) × (Maps.get greeting.headers
        (Names.from_str same_text (codes "content-length"))
      ≡ some value)
    × (parse value ≡ some n)
    × (n ≤ usize_max)
    × (8 ≡ n + 6)
    × (from_utf8 (take n greeting.reader) ≡ some (codes "hi"))
    × (record greeting { reader = codes ", more" }
        ≡ record greeting { reader = drop n greeting.reader })
content_takes_example =
    content_takes same_text greeting (record greeting { reader = codes ", more" }) (codes "hi")
      two_taken
