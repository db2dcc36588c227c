-- ===== src/Http/Server/Serving.antt =====
-- lib/http-server/src/server.rs: from the bytes of a request to what the client reads.
use pheidippides.Prelude.{
  ℕ, suc, ◌≤◌, Text, codes, List, [], ◌++◌, length, some, none, ok, All, ◌≡◌, ◌≢◌, ◌∙◌, ap, arith,
  to_lowercase, ◌==◌, eq_text, if◌then◌else◌,
}
use pheidippides.Prelude.Strings.{into_bytes, byte_len}
use pheidippides.Prelude.Strings.Laws.{IsWord}
use pheidippides.Prelude.Maps
use pheidippides.Cookies.{Header, Headers}
use pheidippides.Http.Method.{Method, method_name}
use pheidippides.Http.Number.{usize_max}
use pheidippides.Http.Utf8.Laws.{IsChar}
use pheidippides.Http.Headers.{IsHeader, IsInLine}
use pheidippides.Http.Request.{Request, try_from_stream, read_line, read_headers, content}
use pheidippides.Http.Request.Printing.{request_bytes, request_of, try_from_stream-request}
use pheidippides.Http.Response.{Response}
use pheidippides.Http.Status.{status_text}
use pheidippides.Http.Builder.{Order}
use pheidippides.Http.Builder.Laws.{IsLower, or_else}
use pheidippides.Http.Writer.{Writer}
use pheidippides.Http.Respond.{finished, respond}
use pheidippides.Http.Respond.Parts.{body_of, headers_of, status_of, type_of, last_value}
use pheidippides.Http.Respond.Reading.{respond-read}
use pheidippides.Http.Server.{RequestHandler, answered, serve}

module _ {C E Stream S F : Type 0} (writer : Writer C E) (unicode : Text → Text) (order : Order)
    (handle : RequestHandler S Stream F) where
  pub serve_done :
      (stream : List ℕ) (request : Request) (c : C) (s t : S) (response : Response Stream)
      → try_from_stream unicode stream ≡ ok request
      → handle request s ≡ (ok response, t)
      → serve writer unicode order handle stream c s
        ≡ (answered (respond writer unicode order response c), t)
  unfolding serve
  serve_done stream request c s t response e done = ground (arith, e, done)

  -- From end to end: for the bytes of a request, the handler gets the request with the method, the
  -- URL, the headers and the body that were written, the state becomes what the handler made of it,
  -- and, once the answer is written, the client reads from the connection the status, the headers
  -- and the body of the response that the handler gave. The words of the request have no white
  -- space, header names no colon, header values no white space at their end, and none of them a line
  -- feed; the handler's header names are in lower case, and the response has a body of less than
  -- 2^64 bytes.
  pub serve-read :
      (word url : Text) (hs : List Header) (body : List ℕ) (method : Method) (c c' : C) (s t : S)
      (response : Response Stream) (sent : Text) (request : Request)
      → to_lowercase unicode word ≡ method_name method
      → IsWord word
      → IsInLine word
      → IsWord url
      → IsInLine url
      → All IsHeader hs
      → handle (request_of unicode method url hs body) s ≡ (ok response, t)
      → body_of response ≡ some sent
      → All IsHeader (headers_of response)
      → All (IsLower unicode) (headers_of response)
      → All IsChar sent
      → byte_len sent ≤ usize_max
      → respond writer unicode order response c ≡ finished (ok c')
      → (key : Text) → key ≢ codes "content-length"
      → (bytes : List ℕ) × (headers : Headers) × (rest : List ℕ) × (serve writer unicode order
            handle
            (request_bytes word url hs body)
            c
            s
          ≡ (answered (finished (ok c')), t))
        × (writer.written c' ≡ writer.written c ++ bytes)
        × (read_line bytes
            ≡ ok (codes "HTTP/1.1 " ++ (status_text (status_of response) ++ codes "\r\n"), rest))
        × (read_headers unicode (suc (length rest)) [] rest ≡ ok (headers, into_bytes sent))
        × (Maps.get headers key
            ≡ or_else
                (last_value (headers_of response) key)
                (if codes "content-type" == key then type_of response else none))
        × (content unicode (record request { headers = headers; reader = into_bytes sent })
            ≡ ok (sent, record request { headers = headers; reader = [] }))
  serve-read word url hs body method c c' s t response sent request e w v u x h done b k l a n
        written key other =
      let (bytes, headers, rest, sent_bytes, line, fields, found, text_read) =
        respond-read unicode writer order response sent c c' request b k l a n written key other in
      (
        bytes,
        headers,
        rest,
        serve_done (request_bytes word url hs body) (request_of unicode method url hs body) c s t
              response (try_from_stream-request unicode word url hs body method e w v u x h) done
            ∙ ap (λ r. (answered r, t)) written,
        sent_bytes,
        line,
        fields,
        found,
        text_read,
      )
