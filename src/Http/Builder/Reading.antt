-- ===== src/Http/Builder/Reading.antt =====
-- lib/http-server/src/http_response.rs and request.rs: a response that is built is read back, with
-- the length of its body.
use mathlib.Core.List.{append_assoc, append-nil, reverse-reverse}
use pheidippides.Prelude.{
  ℕ, suc, ◌≤◌, Text, codes, List, [], ◌∷◌, ◌++◌, length, Option, none, some, ok, false, All,
  All-map, ◌≡◌, ◌≢◌, refl, sym, ap, ◌∙◌, arith, eq_text, skip_while, reverse, to_lowercase,
}
use pheidippides.Prelude.Strings.{into_bytes, byte_len, is_whitespace, trim_end, ascii_lower}
use pheidippides.Prelude.Rows.{All-reverse}
use pheidippides.Prelude.Maps
use pheidippides.Prelude.Maps.{HasDistinctKeys, get-insert_self, insert-HasDistinctKeys}
use pheidippides.Cookies as Names
use pheidippides.Cookies.{Header, Headers}
use pheidippides.Http.Headers.{
  IsHeader, lines, received, into_bytes-append, read_headers-lines, read_line-line,
}
use pheidippides.Http.Number.{usize_max, to_string}
use pheidippides.Http.Number.Laws.{IsDigit, to_string-IsDigit}
use pheidippides.Http.Utf8.Laws.{IsChar}
use pheidippides.Http.Request.{Request, read_line, read_headers, content}
use pheidippides.Http.Request.Printing.{enough, content-text}
use pheidippides.Http.Status.{HttpStatusCode, HttpVersion, http11, status_text, version_text}
use pheidippides.Http.Builder.{Order, HttpResponseBuilder, body, body_bytes, sized, build}
use pheidippides.Http.Builder.Laws.{
  IsLower, header_bytes-lines, get-received_new, All-get, get-All, All-insert,
}

skip_while-none : (s : Text) → All (λ c. is_whitespace c ≡ false) s → skip_while is_whitespace s ≡ s
skip_while-none [] a = refl
skip_while-none (c ∷ s) (n, a) = rw n refl

pub trim_end-kept : (s : Text) → All (λ c. is_whitespace c ≡ false) s → trim_end s ≡ s
unfolding trim_end
trim_end-kept s a = rw (skip_while-none (reverse s) (All-reverse _ s a)) (reverse-reverse s)

digit_dark : (c : ℕ) → IsDigit c → is_whitespace c ≡ false
unfolding is_whitespace
digit_dark c (h, k) = ground arith

digit_in_line : (c : ℕ) → IsDigit c → IsChar c × (c ≢ 10)
digit_in_line c (h, k) = ground arith

abbrev pub length_key : Text
length_key = codes "content-length"

content_length-IsHeader : (n : ℕ) → IsHeader (length_key, to_string n)
content_length-IsHeader n = (
  ground arith,
  ground arith,
  All-map IsDigit _ (to_string n) digit_in_line (to_string-IsDigit n),
  trim_end-kept (to_string n) (All-map IsDigit _ (to_string n) digit_dark (to_string-IsDigit n)),
)

abbrev pub status_line : HttpResponseBuilder → Text
status_line b = version_text b.version ++ (codes " " ++ (status_text b.status ++ codes "\r\n"))

read_line-status :
    (v : HttpVersion) (s : HttpStatusCode) (rest : List ℕ)
    → read_line
        (into_bytes (version_text v ++ (codes " " ++ (status_text s ++ codes "\r\n"))) ++ rest)
      ≡ ok (version_text v ++ (codes " " ++ (status_text s ++ codes "\r\n")), rest)
unfolding version_text status_text
read_line-status http11 HttpStatusCode.ok rest =
    read_line-line (codes "HTTP/1.1 200 OK\r") rest (ground arith)
read_line-status http11 HttpStatusCode.bad_request rest =
    read_line-line (codes "HTTP/1.1 400 Bad Request\r") rest (ground arith)
read_line-status http11 HttpStatusCode.see_other rest =
    read_line-line (codes "HTTP/1.1 303 See Other\r") rest (ground arith)
read_line-status http11 HttpStatusCode.internal_server_error rest =
    read_line-line (codes "HTTP/1.1 500 Internal Server Error\r") rest (ground arith)

module _ (unicode : Text → Text) where
  -- One line for each key, in lower case, that can be read.
  pub record IsReadable (headers : Headers) : Type 0 where
    pub keys : HasDistinctKeys headers
    pub readable : All IsHeader headers
    pub lower : All (IsLower unicode) headers

  pub insert-IsReadable :
      (headers : Headers) (key value : Text)
      → IsHeader (key, value)
      → IsLower unicode (key, value)
      → IsReadable headers
      → IsReadable (Maps.insert headers key value)
  insert-IsReadable headers key value h l r = record {
    keys = insert-HasDistinctKeys headers key value r.keys;
    readable = All-insert IsHeader headers key value h r.readable;
    lower = All-insert (IsLower unicode) headers key value l r.lower;
  }

  pub length_key-eq : Names.from_str unicode (codes "Content-Length") ≡ length_key
  unfolding Names.from_str to_lowercase ascii_lower
  length_key-eq = refl

  length_key-lower : Names.from_str unicode length_key ≡ length_key
  unfolding Names.from_str to_lowercase ascii_lower
  length_key-lower = refl

  sized-IsReadable :
      (o : Option Text) (headers : Headers)
      → IsReadable headers
      → IsReadable (sized unicode o headers)
  unfolding sized
  sized-IsReadable none headers r = r
  sized-IsReadable (some text) headers r = rw length_key-eq (
      insert-IsReadable headers length_key (to_string (byte_len text))
        (content_length-IsHeader (byte_len text)) length_key-lower r)

  module _ (order : Order) where
    iter-IsReadable : (headers : Headers) → IsReadable headers → IsReadable (order.iter headers)
    iter-IsReadable headers r = record {
      keys = order.iter_keys headers r.keys;
      readable = visited IsHeader r.readable;
      lower = visited (IsLower unicode) r.lower;
    }
      where
        visited : (P : Header → Type 0) → All P headers → All P (order.iter headers)
        visited P a =
            All-get P (order.iter headers) (order.iter_keys headers r.keys) (λ key value e.
              get-All P headers key value a (sym (order.get-iter headers r.keys key) ∙ e))

    abbrev pub sent : HttpResponseBuilder → List Header
    sent b = order.iter (sized unicode b.body b.headers)

    build-eq :
        (b : HttpResponseBuilder)
        → build unicode order b
          ≡ into_bytes (status_line b)
            ++ (into_bytes (lines (sent b) ++ codes "\r\n") ++ body_bytes b.body)
    unfolding build
    build-eq b =
        ap (λ x. into_bytes (status_line b) ++ x)
          (ap (λ x. x ++ (into_bytes (codes "\r\n") ++ body_bytes b.body))
              (header_bytes-lines (sent b))
            ∙ sym (
                append_assoc (into_bytes (lines (sent b))) (into_bytes (codes "\r\n"))
                  (body_bytes b.body))
            ∙ ap (λ x. x ++ body_bytes b.body)
                (sym (into_bytes-append (lines (sent b)) (codes "\r\n"))))

    pub get-sent :
        (b : HttpResponseBuilder)
        → IsReadable b.headers
        → (key : Text)
        → Maps.get (received unicode [] (sent b)) key
          ≡ Maps.get (sized unicode b.body b.headers) key
    get-sent b r key =
        let headers = sized unicode b.body b.headers in
        let valid = sized-IsReadable b.body b.headers r in
        let visited = iter-IsReadable headers valid in
        get-received_new unicode (sent b) key visited.keys visited.lower
        ∙ order.get-iter headers valid.keys key

    -- The status line and the headers, of any response.
    pub build-head :
        (b : HttpResponseBuilder)
        → IsReadable b.headers
        → (rest : List ℕ) × (read_line (build unicode order b) ≡ ok (status_line b, rest))
          × (read_headers unicode (suc (length rest)) [] rest
              ≡ ok (received unicode [] (sent b), body_bytes b.body))
    build-head b r = (
      into_bytes (lines (sent b) ++ codes "\r\n") ++ body_bytes b.body,
      rw (build-eq b) (
          read_line-status b.version b.status
            (into_bytes (lines (sent b) ++ codes "\r\n") ++ body_bytes b.body)),
      read_headers-lines unicode
          (suc (length (into_bytes (lines (sent b) ++ codes "\r\n") ++ body_bytes b.body))) []
          (sent b) (body_bytes b.body) (enough (sent b) (body_bytes b.body))
          (iter-IsReadable (sized unicode b.body b.headers)
            (sized-IsReadable b.body b.headers r)).readable,
    )

    sized-length :
        (text : Text) (headers : Headers)
        → Maps.get
            (sized unicode (some text) headers)
            (Names.from_str unicode (codes "content-length"))
          ≡ some (to_string (byte_len text))
    unfolding sized
    sized-length text headers =
        rw (length_key-eq, length_key-lower)
          (get-insert_self headers length_key (to_string (byte_len text)))

    -- A response whose header names are in lower case and without a colon, whose header values have
    -- no white space at their end, and where neither has a line feed, is read back with the code
    -- that reads requests: its status line, under every key the value that was set, and its body,
    -- which is as long as Content-Length says, where it is shorter than 2^64 bytes.
    pub build-read :
        (b : HttpResponseBuilder) (text : Text) (request : Request)
        → IsReadable b.headers
        → All IsChar text
        → byte_len text ≤ usize_max
        → (headers : Headers) × (rest : List ℕ) × (read_line (build unicode order (body text b))
            ≡ ok (status_line b, rest))
          × (read_headers unicode (suc (length rest)) [] rest ≡ ok (headers, into_bytes text))
          × ((key : Text)
              → Maps.get headers key ≡ Maps.get (sized unicode (some text) b.headers) key)
          × (content unicode (record request { headers = headers; reader = into_bytes text })
              ≡ ok (text, record request { headers = headers; reader = [] }))
    unfolding body_bytes
    build-read b text request r a n =
        let (rest, line, fields) = build-head (body text b) r in
        (
          received unicode [] (sent (body text b)),
          rest,
          line,
          fields,
          get-sent (body text b) r,
          content-text unicode
              (record request {
                headers = received unicode [] (sent (body text b));
                reader = into_bytes text;
              })
              text [] a n
              (get-sent (body text b) r (Names.from_str unicode (codes "content-length"))
                ∙ sized-length text b.headers)
              (sym (append-nil (into_bytes text))),
        )
