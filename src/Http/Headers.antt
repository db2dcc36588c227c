-- ===== src/Http/Headers.antt =====
-- lib/http-server/src/request.rs: the header lines of a message are read back as its headers.
use mathlib.Core.List.{reverse-append, append_assoc}
use pheidippides.Prelude.{
  ℕ, zero, suc, ◌<◌, Text, codes, List, [], ◌∷◌, ◌++◌, length, some, ok, All, All-append, Lacks,
  eq_text, ◌≡◌, ◌≢◌, inl, refl, ap, ◌∙◌, sym, arith, eq_nat, text_eq, ==_ne,
}
use pheidippides.Prelude.Strings.{split_once, into_bytes, encode_char, trim_end}
use pheidippides.Prelude.Strings.Laws.{split_once-append}
use pheidippides.Prelude.Maps
use pheidippides.Cookies as Names
use pheidippides.Cookies.{Header, Headers}
use pheidippides.Http.Utf8.Laws.{IsChar, from_utf8-into_bytes}
use pheidippides.Http.Request.{line_bytes, read_line, read_headers}

abbrev pub header_line : Header → Text
header_line (key, value) = key ++ (codes ": " ++ (value ++ codes "\r\n"))

-- Characters that can stand in a line: no line feed among them.
abbrev pub IsInLine : Text → Type 0
IsInLine s = All (λ c. IsChar c × (c ≢ 10)) s

-- A key has no colon, and a value has no white space at its end.
abbrev pub IsHeader : Header → Type 0
IsHeader (key, value) = IsInLine key × Lacks b':' key × IsInLine value × (trim_end value ≡ value)

pub into_bytes-append : (s t : Text) → into_bytes (s ++ t) ≡ into_bytes s ++ into_bytes t
unfolding into_bytes
into_bytes-append [] t = refl
into_bytes-append (c ∷ s) t =
    ap (λ x. encode_char c ++ x) (into_bytes-append s t)
    ∙ sym (append_assoc (encode_char c) (into_bytes s) (into_bytes t))

encode_char-Lacks : (c : ℕ) → c ≢ 10 → Lacks 10 (encode_char c)
unfolding encode_char
encode_char-Lacks c n = ground arith

into_bytes-Lacks : (s : Text) → IsInLine s → Lacks 10 (into_bytes s)
unfolding into_bytes
into_bytes-Lacks [] a = tt
into_bytes-Lacks (c ∷ s) ((_, n), more) =
    All-append _ (encode_char c) (into_bytes s) (encode_char-Lacks c n) (into_bytes-Lacks s more)

line_bytes-append :
    (bytes rest : List ℕ)
    → Lacks 10 bytes
    → line_bytes (bytes ++ 10 ∷ rest) ≡ (bytes ++ 10 ∷ [], rest)
unfolding line_bytes
line_bytes-append [] rest a = refl
line_bytes-append (b ∷ bytes) rest (n, more) = ground (arith, line_bytes-append bytes rest more)

IsChar-line : (s : Text) → IsInLine s → All IsChar (s ++ 10 ∷ [])
IsChar-line [] a = ((omega arith, inl (omega arith)), tt)
IsChar-line (c ∷ s) ((v, _), more) = (v, IsChar-line s more)

into_bytes-newline : (s : Text) → into_bytes (s ++ 10 ∷ []) ≡ into_bytes s ++ 10 ∷ []
unfolding into_bytes
into_bytes-newline s = into_bytes-append s (10 ∷ [])

line_bytes-line :
    (s : Text) (rest : List ℕ)
    → IsInLine s
    → line_bytes (into_bytes (s ++ 10 ∷ []) ++ rest) ≡ (into_bytes (s ++ 10 ∷ []), rest)
line_bytes-line s rest a =
    rw (into_bytes-newline s, append_assoc (into_bytes s) (10 ∷ []) rest)
      (line_bytes-append (into_bytes s) rest (into_bytes-Lacks s a))

-- A line that ends with a line feed is read as it stands.
pub read_line-line :
    (s : Text) (rest : List ℕ)
    → IsInLine s
    → read_line (into_bytes (s ++ 10 ∷ []) ++ rest) ≡ ok (s ++ 10 ∷ [], rest)
unfolding read_line
read_line-line s rest a =
    rw (read_line, line_bytes-line s rest a, from_utf8-into_bytes (s ++ 10 ∷ []) (IsChar-line s a))
      refl

-- A header line without its line feed.
abbrev header_text : Header → Text
header_text (key, value) = key ++ (codes ": " ++ (value ++ codes "\r"))

header_line-eq : (h : Header) → header_line h ≡ header_text h ++ 10 ∷ []
header_line-eq (key, value) =
    ap (λ x. key ++ (codes ": " ++ x)) (sym (append_assoc value (codes "\r") (codes "\n")))
    ∙ ap (λ x. key ++ x) (sym (append_assoc (codes ": ") (value ++ codes "\r") (codes "\n")))
    ∙ sym (append_assoc key (codes ": " ++ (value ++ codes "\r")) (codes "\n"))

IsInLine-header_text : (h : Header) → IsHeader h → IsInLine (header_text h)
IsInLine-header_text (key, value) (k, _, v, _) =
    All-append _ key (codes ": " ++ (value ++ codes "\r")) k (
      ((omega arith, inl (omega arith)), λ p. omega (arith, p)),
      (
        ((omega arith, inl (omega arith)), λ p. omega (arith, p)),
        All-append _ value (codes "\r") v
            (((omega arith, inl (omega arith)), λ p. omega (arith, p)), tt),
      ),
    )

header_line-split :
    (key value : Text)
    → Lacks b':' key
    → split_once (codes ": ") (header_line (key, value)) ≡ some (key, value ++ codes "\r\n")
header_line-split key value l = split_once-append b':' (codes " ") key (value ++ codes "\r\n") l

header_line_filled : (key value : Text) → Lacks b':' key → header_line (key, value) ≢ codes "\r\n"
unfolding split_once
header_line_filled key value l h =
    cc (header_line-split key value l, ap (split_once (codes ": ")) h)

trim_end-line : (s : Text) → trim_end (s ++ codes "\r\n") ≡ trim_end s
unfolding trim_end
trim_end-line s = rw (reverse-append s (codes "\r\n")) refl

abbrev pub lines : List Header → Text
lines [] = []
lines (h ∷ hs) = header_line h ++ lines hs

module _ (unicode : Text → Text) where
  -- The map that the lines make up: a key in any case, and a later line replaces an earlier one.
  abbrev pub received : Headers → List Header → Headers
  received headers [] = headers
  received headers ((key, value) ∷ hs) =
      received (Maps.insert headers (Names.from_str unicode key) value) hs

  read_headers-end :
      (fuel : ℕ) (headers : Headers) (rest : List ℕ)
      → read_headers unicode (suc fuel) headers (into_bytes (codes "\r\n") ++ rest)
        ≡ ok (headers, rest)
  unfolding read_headers text_eq
  read_headers-end fuel headers rest =
      rw
        (
          read_headers,
          read_line-line (codes "\r") rest
              (((omega arith, inl (omega arith)), λ p. omega (arith, p)), tt),
        )
        refl

  read_headers-line :
      (fuel : ℕ) (headers : Headers) (h : Header) (rest : List ℕ)
      → IsHeader h
      → read_headers unicode (suc fuel) headers (into_bytes (header_line h) ++ rest)
        ≡ read_headers unicode fuel (Maps.insert headers (Names.from_str unicode h.0) h.1) rest
  unfolding read_headers
  read_headers-line fuel headers (key, value) rest (k, l, v, t) =
      rw
        (
          read_headers,
          header_bytes,
          ==_ne (header_line_filled key value l),
          header_line-split key value l,
          trim_end-line value,
          t,
        )
        refl
    where
      header_bytes :
          read_line (into_bytes (header_line (key, value)) ++ rest)
          ≡ ok (header_line (key, value), rest)
      header_bytes = rw (header_line-eq (key, value)) (
          read_line-line (header_text (key, value)) rest
            (IsInLine-header_text (key, value) (k, l, v, t)))

  -- The lines of a list of headers, and the empty line, are read back as those headers.
  pub read_headers-lines :
      (fuel : ℕ) (headers : Headers) (hs : List Header) (rest : List ℕ)
      → length hs < fuel
      → All IsHeader hs
      → read_headers unicode fuel headers (into_bytes (lines hs ++ codes "\r\n") ++ rest)
        ≡ ok (received headers hs, rest)
  read_headers-lines zero headers hs rest h a = absurd (omega (arith, h))
  read_headers-lines (suc fuel) headers [] rest h a = read_headers-end fuel headers rest
  read_headers-lines (suc fuel) headers (x ∷ hs) rest h (a, more) =
      rw
        (
          append_assoc (header_line x) (lines hs) (codes "\r\n"),
          into_bytes-append (header_line x) (lines hs ++ codes "\r\n"),
          append_assoc (into_bytes (header_line x)) (into_bytes (lines hs ++ codes "\r\n")) rest,
        )
        (read_headers-line fuel headers x (into_bytes (lines hs ++ codes "\r\n") ++ rest) a
          ∙ read_headers-lines fuel (Maps.insert headers (Names.from_str unicode x.0) x.1) hs rest
              (omega (arith, h)) more)
