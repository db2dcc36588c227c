-- ===== src/Http/Request.antt =====
-- lib/http-server/src/request.rs: reading a request from the bytes of a connection.
pub mod Reading
pub mod Printing
pub mod Bounds
use pheidippides.Prelude.{
  ℕ, zero, suc, leb, Text, codes, List, [], ◌∷◌, length, take, drop, Option, none, some, true,
  false, Result, ok, err, if◌then◌else◌, ◌==◌, eq_nat, eq_text, split_once,
}
use pheidippides.Prelude.Strings.{split_whitespace, trim_end}
use pheidippides.Prelude.Maps
use pheidippides.Prelude.Results.{◌>>=◌, ok_or}
use pheidippides.Cookies as Names
use pheidippides.Cookies.{Headers}
use pheidippides.Http.Method
use pheidippides.Http.Method.{Method}
use pheidippides.Http.Number
use pheidippides.Http.Utf8.{from_utf8}

-- `reader` is what is left of the connection.
pub record Request : Type 0 where
  pub reader : List ℕ
  pub method : Method
  pub url : Text
  pub headers : Headers

pub data Error : Type 0 where
  could_not_read_line : Error
  could_not_parse_first_line : Text → Error
  incorrect_method : Error
  incorrect_header : Text → Error
  content_length_missing : Error
  content_length_not_a_number : Error
  unexpected_end : Error
  not_utf8 : Error
  out_of_fuel : Error

abbrev consume : ℕ → List ℕ × List ℕ → List ℕ × List ℕ
consume b (line, rest) = (b ∷ line, rest)

-- The bytes up to the first line feed, which is included, and the rest.
unfoldable pub line_bytes : List ℕ → List ℕ × List ℕ
line_bytes [] = ([], [])
line_bytes (b ∷ bytes) =
    let longer = consume b (line_bytes bytes) in if b == 10 then (b ∷ [], bytes) else longer

abbrev in_line : Option Text → List ℕ → Result Error (Text × List ℕ)
in_line none rest = err could_not_read_line
in_line (some line) rest = ok (line, rest)

-- `read_line`: an empty line means that the connection was closed.
unfoldable pub read_line : List ℕ → Result Error (Text × List ℕ)
unfolding line_bytes from_utf8
read_line bytes = let (line, rest) = line_bytes bytes in in_line (from_utf8 line) rest

abbrev parse_method : (Text → Text) → Text → Result Error Method
parse_method unicode word = elim (Method.from_str unicode word) [
  | ok method ↦ ok method
  | err _ ↦ err incorrect_method
]

-- The first line: the method and the URL.
unfoldable pub first_line : (Text → Text) → Text → List Text → Result Error (Method × Text)
first_line unicode line [] = err (could_not_parse_first_line line)
first_line unicode line (word ∷ []) = do
  method ← parse_method unicode word
  err (could_not_parse_first_line line)
first_line unicode line (word ∷ url ∷ _) = do method ← parse_method unicode word; ok (method, url)

-- The loop over the header lines: a line takes at least one byte, so the bytes left are enough fuel.
unfoldable pub read_headers : (Text → Text) → ℕ → Headers → List ℕ → Result Error (Headers × List ℕ)
read_headers unicode zero headers bytes = err out_of_fuel
read_headers unicode (suc fuel) headers bytes = elim (read_line bytes) [
  | err e ↦ err e
  | ok (next_line, rest) ↦ elim (next_line == codes "\r\n") [
    | true ↦ ok (headers, rest)
    | false ↦ elim (split_once (codes ": ") next_line) [
      | none ↦ err (incorrect_header next_line)
      | some (key, value) ↦
          read_headers unicode fuel
            (Maps.insert headers (Names.from_str unicode key) (trim_end value)) rest
    ]
  ]
]

unfoldable pub try_from_stream : (Text → Text) → List ℕ → Result Error Request
unfolding read_line read_headers first_line
try_from_stream unicode stream = do
  (line, after_line) ← read_line stream
  (method, url) ← first_line unicode line (split_whitespace line)
  (headers, reader) ← read_headers unicode (suc (length after_line)) [] after_line
  ok (record { reader = reader; method = method; url = url; headers = headers })

-- `content`: the body, and the request whose reader stands behind it. The buffer is taken to be
-- allocated, however long it is: `vec!` panics above 2^63 - 1 bytes, or for want of memory.
unfoldable pub content : (Text → Text) → Request → Result Error (Text × Request)
content unicode request = do
  value ←
      ok_or (Maps.get request.headers (Names.from_str unicode (codes "content-length")))
        content_length_missing
  content_length ← ok_or (Number.parse value) content_length_not_a_number
  buf ←
      (if leb content_length (length request.reader)
        then ok (take content_length request.reader)
        else err unexpected_end)
  res ← ok_or (from_utf8 buf) not_utf8
  ok (res, record request { reader = drop content_length request.reader })
