-- ===== src/Http/Request/Printing.antt =====
-- lib/http-server/src/request.rs: a request that a client writes is read back, with its body.
use mathlib.Core.List.{append_assoc}
use pheidippides.Prelude.{
  ℕ, suc, ◌≤◌, ◌<◌, leb, Text, codes, List, [], ◌∷◌, ◌++◌, length, length-append, take, drop, some,
  true, ok, All, All-append, ◌≡◌, ◌≢◌, inl, refl, ap, arith, to_lowercase, eq_text,
}
use pheidippides.Prelude.Strings.{into_bytes, byte_len, split_whitespace, is_whitespace}
use pheidippides.Prelude.Strings.Laws.{
  IsWord, split_whitespace-word, length-into_bytes, length-le-into_bytes,
}
use pheidippides.Prelude.Maps
use pheidippides.Cookies as Names
use pheidippides.Cookies.{Header, Headers}
use pheidippides.Http.Method.{Method, method_name, from_str_iff}
use pheidippides.Http.Number.{usize_max, to_string}
use pheidippides.Http.Number.Laws.{parse-to_string}
use pheidippides.Http.Utf8.Laws.{IsChar, from_utf8-into_bytes}
use pheidippides.Http.Headers.{
  IsInLine, IsHeader, header_line, lines, received, read_line-line, read_headers-lines,
}
use pheidippides.Http.Request.{Request, first_line, try_from_stream, content}

-- The first line, without its line feed.
abbrev start_text : Text → Text → Text
start_text word url = word ++ b' ' ∷ (url ++ b' ' ∷ codes "HTTP/1.1\r")

abbrev pub request_bytes : Text → Text → List Header → List ℕ → List ℕ
request_bytes word url hs body =
    into_bytes (start_text word url ++ 10 ∷ []) ++ (into_bytes (lines hs ++ codes "\r\n") ++ body)

abbrev Allowed : ℕ → Type 0
Allowed c = IsChar c × (c ≢ 10)

Allowed-of : (c : ℕ) → 10 < c → c < 0xd800 → Allowed c
Allowed-of c h k = ((omega (arith, k), inl k), λ p. omega (arith, p, h))

IsInLine-start_text :
    (word url : Text) → IsInLine word → IsInLine url → IsInLine (start_text word url)
IsInLine-start_text word url w u = All-append _ word (b' ' ∷ (url ++ b' ' ∷ codes "HTTP/1.1\r")) w (
  Allowed-of b' ' (omega arith) (omega arith),
  All-append _ url (b' ' ∷ codes "HTTP/1.1\r") u (ground arith),
)

words-start_text :
    (word url : Text)
    → IsWord word
    → IsWord url
    → split_whitespace (start_text word url ++ 10 ∷ []) ≡ word ∷ url ∷ codes "HTTP/1.1" ∷ []
unfolding is_whitespace
words-start_text word url w u =
    rw
      (
        append_assoc word (b' ' ∷ (url ++ b' ' ∷ codes "HTTP/1.1\r")) (10 ∷ []),
        append_assoc url (b' ' ∷ codes "HTTP/1.1\r") (10 ∷ []),
        split_whitespace-word word b' ' (url ++ b' ' ∷ codes "HTTP/1.1\r\n") w refl,
        split_whitespace-word url b' ' (codes "HTTP/1.1\r\n") u refl,
      )
      (unfold split_whitespace in refl)

length-lines : (hs : List Header) → length hs ≤ length (lines hs)
length-lines [] = omega arith
length-lines ((key, value) ∷ hs) = omega (
  arith,
  length-append (header_line (key, value)) (lines hs),
  length-append key (codes ": " ++ (value ++ codes "\r\n")),
  length-lines hs,
)

pub enough :
    (hs : List Header) (body : List ℕ)
    → length hs < suc (length (into_bytes (lines hs ++ codes "\r\n") ++ body))
enough hs body = omega (
  arith,
  length-append (into_bytes (lines hs ++ codes "\r\n")) body,
  length-le-into_bytes (lines hs ++ codes "\r\n"),
  length-append (lines hs) (codes "\r\n"),
  length-lines hs,
)

take-append {ℓ} : {A : Type ℓ} (xs ys : List A) → take (length xs) (xs ++ ys) ≡ xs
take-append [] [] = refl
take-append [] (y ∷ ys) = refl
take-append (x ∷ xs) ys = ap (λ w. x ∷ w) (take-append xs ys)

drop-append {ℓ} : {A : Type ℓ} (xs ys : List A) → drop (length xs) (xs ++ ys) ≡ ys
drop-append [] [] = refl
drop-append [] (y ∷ ys) = refl
drop-append (x ∷ xs) ys = drop-append xs ys

module _ (unicode : Text → Text) where
  abbrev pub request_of : Method → Text → List Header → List ℕ → Request
  request_of method url hs body = record {
    reader = body;
    method = method;
    url = url;
    headers = received unicode [] hs;
  }

  first_line_read :
      (line word url : Text) (rest : List Text) (method : Method)
      → to_lowercase unicode word ≡ method_name method
      → first_line unicode line (word ∷ url ∷ rest) ≡ ok (method, url)
  unfolding first_line
  first_line_read line word url rest method e =
      ground (arith, (from_str_iff unicode word method).1 e)

  pub try_from_stream-request :
      (word url : Text) (hs : List Header) (body : List ℕ) (method : Method)
      → to_lowercase unicode word ≡ method_name method
      → IsWord word
      → IsInLine word
      → IsWord url
      → IsInLine url
      → All IsHeader hs
      → try_from_stream unicode (request_bytes word url hs body)
        ≡ ok (request_of method url hs body)
  unfolding try_from_stream
  try_from_stream-request word url hs body method e w v u x h =
      rw
        (
          read_line-line (start_text word url) (into_bytes (lines hs ++ codes "\r\n") ++ body)
              (IsInLine-start_text word url v x),
          words-start_text word url w u,
          first_line_read (start_text word url ++ 10 ∷ []) word url (codes "HTTP/1.1" ∷ []) method
              e,
          read_headers-lines unicode (suc (length (into_bytes (lines hs ++ codes "\r\n") ++ body)))
              [] hs body (enough hs body) h,
        )
        refl

  pub content-text :
      (request : Request) (text : Text) (more : List ℕ)
      → All IsChar text
      → byte_len text ≤ usize_max
      → Maps.get request.headers (Names.from_str unicode (codes "content-length"))
        ≡ some (to_string (byte_len text))
      → request.reader ≡ into_bytes text ++ more
      → content unicode request ≡ ok (text, record request { reader = more })
  unfolding content
  content-text request text more a n found body =
      rw
        (
          found,
          parse-to_string (byte_len text) n,
          body,
          ← length-into_bytes text,
          fits,
          take-append (into_bytes text) more,
          from_utf8-into_bytes text a,
          drop-append (into_bytes text) more,
        )
        refl
    where
      fits : leb (length (into_bytes text)) (length (into_bytes text ++ more)) ≡ true
      fits = ground (arith, length-append (into_bytes text) more)

  -- A request with a method in any case, a URL, header lines and a body is read back from its bytes
  -- with that method, URL and headers, and its content is the text of the body, where the
  -- Content-Length among the headers is the number of the text's bytes and below 2^64. The word of
  -- the method and the URL have no white space, keys no colon, values no white space at their end,
  -- and neither has a line feed; what follows the body on the connection is left for later.
  pub try_from_stream-request_bytes :
      (word url : Text) (hs : List Header) (text : Text) (more : List ℕ) (method : Method)
      → to_lowercase unicode word ≡ method_name method
      → IsWord word
      → IsInLine word
      → IsWord url
      → IsInLine url
      → All IsHeader hs
      → All IsChar text
      → byte_len text ≤ usize_max
      → Maps.get (received unicode [] hs) (Names.from_str unicode (codes "content-length"))
        ≡ some (to_string (byte_len text))
      → (try_from_stream unicode (request_bytes word url hs (into_bytes text ++ more))
          ≡ ok (request_of method url hs (into_bytes text ++ more)))
        × (content unicode (request_of method url hs (into_bytes text ++ more))
            ≡ ok (text, request_of method url hs more))
  try_from_stream-request_bytes word url hs text more method e w v u x h a n found = (
    try_from_stream-request word url hs (into_bytes text ++ more) method e w v u x h,
    content-text (request_of method url hs (into_bytes text ++ more)) text more a n found refl,
  )
