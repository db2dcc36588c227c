-- ===== src/Http/Respond/Reading.antt =====
-- lib/http-server/src/request.rs: what a client reads from the answer to a request.
use pheidippides.Prelude.{
  ℕ, suc, ◌≤◌, Text, codes, List, [], ◌++◌, length, none, some, ok, Result-cases, All, ◌≡◌, inl,
  inr, refl, sym, ap, ◌∙◌, arith, eq_text, ◌==◌, if◌then◌else◌, ◌≢◌,
}
use pheidippides.Prelude.Strings.{into_bytes, byte_len}
use pheidippides.Prelude.Maps
use pheidippides.Prelude.Maps.{get-insert}
use pheidippides.Cookies as Names
use pheidippides.Cookies.{Headers}
use pheidippides.Http.Number.{usize_max}
use pheidippides.Http.Utf8.Laws.{IsChar}
use pheidippides.Http.Headers.{IsHeader, received}
use pheidippides.Http.Request.{Request, read_line, read_headers, content}
use pheidippides.Http.Response.{
  Response, html, text, json, redirect, event_source, bad_request, internal_server_error,
  no_content,
}
use pheidippides.Http.Status
use pheidippides.Http.Status.{HttpStatusCode, status_text, HttpVersion, version_text, http11}
use pheidippides.Http.Builder.{
  Order, HttpResponseBuilder, new, status, header, body, body_bytes, content_text, content_html,
  content_json, build,
}
use pheidippides.Http.Builder.Laws.{IsLower, or_else}
use pheidippides.Http.Builder.Reading.{build-read, build-head, sent, get-sent}
use pheidippides.Http.Writer.{Writer}
use pheidippides.Http.Respond.Parts.{
  body_of, headers_of, status_of, type_of, last_value, location-eq, plain-IsHeader, html-IsHeader,
  json-IsHeader,
}
use pheidippides.Http.Respond.Answers.{
  IsAnswer, typed-IsAnswer, plain_answer, listed_answer, get-sized_any, get-sized, status_line-eq,
  with_body,
}
use pheidippides.Http.Respond.{finished, add_headers, send, respond}

module _ (unicode : Text → Text) where
  module _ {C E Stream : Type 0} (writer : Writer C E) (order : Order) where
    answered :
        (response : Response Stream) (c c' : C)
        → respond writer unicode order response c ≡ finished (ok c')
        → All IsHeader (headers_of response)
        → All (IsLower unicode) (headers_of response)
        → (b : HttpResponseBuilder) × ((c : C)
            → respond writer unicode order response c ≡ send writer unicode order b c)
          × IsAnswer unicode response b
    unfolding respond add_headers
    answered (html content headers) c c' e h l = (
      add_headers headers (content_html unicode (body content new)),
      λ c. refl,
      typed-IsAnswer unicode (html content headers) (codes "text/html; charset=utf-8") content refl
          refl refl (html-IsHeader unicode) h l,
    )
    answered (text content headers) c c' e h l = (
      add_headers headers (content_text unicode (body content new)),
      λ c. refl,
      typed-IsAnswer unicode (text content headers) (codes "text/plain; charset=utf-8") content refl
          refl refl (plain-IsHeader unicode) h l,
    )
    answered (json content headers) c c' e h l = (
      add_headers headers (content_json unicode (body content new)),
      λ c. refl,
      typed-IsAnswer unicode (json content headers) (codes "application/json; charset=utf-8")
          content refl refl refl (json-IsHeader unicode) h l,
    )
    answered (redirect location headers) c c' e h l = (
      add_headers headers (
          header (Names.from_str unicode (codes "Location"), location)
            (status Status.see_other new)),
      λ c. refl,
      rw (location-eq unicode) (
          listed_answer unicode (redirect location headers) (status Status.see_other new) refl refl
            refl refl h l),
    )
    answered (event_source retry stream) c c' e h l = absurd (ground arith)
    answered no_content c c' e h l =
        (new, λ c. refl, plain_answer unicode no_content new refl refl refl refl refl)
    answered bad_request c c' e h l = (
      body (codes "Bad request") (status Status.bad_request new),
      λ c. refl,
      plain_answer unicode bad_request (body (codes "Bad request") (status Status.bad_request new))
          refl refl refl refl refl,
    )
    answered internal_server_error c c' e h l = (
      body (codes "Internal Server Error") (status Status.internal_server_error new),
      λ c. refl,
      plain_answer unicode internal_server_error
          (body (codes "Internal Server Error") (status Status.internal_server_error new)) refl refl
          refl refl refl,
    )

    written-send :
        (b : HttpResponseBuilder) (c c' : C)
        → send {Stream = Stream} writer unicode order b c ≡ finished (ok c')
        → writer.written c' ≡ writer.written c ++ build unicode order b
    written-send b c c' h = elim (Result-cases (writer.write_all c (build unicode order b))) [
      | inr (x, e) ↦ absurd (ground arith)
      | inl (d, e) ↦
          writer.written-shutdown d c' (ground (arith, e, h))
          ∙ writer.written-write_all c d (build unicode order b) e
    ]

    -- The status line and the headers of an answer, with or without a body, once it is written.
    pub respond-head :
        (response : Response Stream) (c c' : C)
        → All IsHeader (headers_of response)
        → All (IsLower unicode) (headers_of response)
        → respond writer unicode order response c ≡ finished (ok c')
        → (bytes : List ℕ) × (headers : Headers) × (rest : List ℕ) × (writer.written c'
            ≡ writer.written c ++ bytes)
          × (read_line bytes
              ≡ ok (codes "HTTP/1.1 " ++ (status_text (status_of response) ++ codes "\r\n"), rest))
          × (read_headers unicode (suc (length rest)) [] rest
              ≡ ok (headers, body_bytes (body_of response)))
          × ((key : Text)
              → key ≢ codes "content-length"
              → Maps.get headers key
                ≡ or_else
                    (last_value (headers_of response) key)
                    (if codes "content-type" == key then type_of response else none))
    respond-head response c c' h l done =
        let (b, sends, answer) = answered response c c' done h l in
        let (rest, line, fields) = build-head unicode order b answer.answer_headers in
        (
          build unicode order b,
          received unicode [] (sent unicode order b),
          rest,
          written-send b c c' (sym (sends c) ∙ done),
          line
              ∙ ap (λ x. ok (x, rest))
                  (status_line-eq unicode b (status_of response) answer.answer_status),
          fields
              ∙ ap (λ o. ok (received unicode [] (sent unicode order b), body_bytes o))
                  answer.answer_body,
          λ key other.
              get-sent unicode order b answer.answer_headers key
              ∙ get-sized_any unicode b.body b.headers key other
              ∙ answer.answer_get key,
        )

    -- The answer with a body, once it is written, is read back with the code that reads requests:
    -- the status line says what kind of response it is, each key but Content-Length has the value
    -- that the handler gave it last, or else the media type where the key is Content-Type, and the
    -- content is the body, under a Content-Length that is its number of bytes. The handler's header
    -- names are in lower case and without a colon, the values have no white space at their end,
    -- neither has a line feed, and the body is shorter than 2^64 bytes.
    pub respond-read :
        (response : Response Stream) (sent : Text) (c c' : C) (request : Request)
        → body_of response ≡ some sent
        → All IsHeader (headers_of response)
        → All (IsLower unicode) (headers_of response)
        → All IsChar sent
        → byte_len sent ≤ usize_max
        → respond writer unicode order response c ≡ finished (ok c')
        → (key : Text) → key ≢ codes "content-length"
        → (bytes : List ℕ) × (headers : Headers) × (rest : List ℕ) × (writer.written c'
            ≡ writer.written c ++ bytes)
          × (read_line bytes
              ≡ ok (codes "HTTP/1.1 " ++ (status_text (status_of response) ++ codes "\r\n"), rest))
          × (read_headers unicode (suc (length rest)) [] rest ≡ ok (headers, into_bytes sent))
          × (Maps.get headers key
              ≡ or_else
                  (last_value (headers_of response) key)
                  (if codes "content-type" == key then type_of response else none))
          × (content unicode (record request { headers = headers; reader = into_bytes sent })
              ≡ ok (sent, record request { headers = headers; reader = [] }))
    respond-read response sent c c' request e h l a n done key other =
        let (b, sends, answer) = answered response c c' done h l in
        let same : body sent b ≡ b = with_body unicode b (some sent) (answer.answer_body ∙ e) in
        let (headers, rest, line, fields, get_key, text_read) =
          build-read unicode order b sent request answer.answer_headers a n in
        (
          build unicode order b,
          headers,
          rest,
          written-send b c c' (sym (sends c) ∙ done),
          ap (λ x. read_line (build unicode order x)) (sym same)
              ∙ line
              ∙ ap (λ x. ok (x, rest))
                  (status_line-eq unicode b (status_of response) answer.answer_status),
          fields,
          get_key key ∙ get-sized unicode sent b.headers key other ∙ answer.answer_get key,
          text_read,
        )
