-- ===== src/Http/Request/Reading.antt =====
-- lib/http-server/src/request.rs: the loop over the header lines ends on every connection.
use pheidippides.Prelude.{
  text_eq, ℕ, zero, suc, ◌<◌, ◌≤◌, Text, codes, List, [], ◌∷◌, length, ok, err, Option-cases,
  Result-cases, inl, inr, eq_nat, eq_text, split_once, ◌≡◌, ◌≢◌, refl, arith,
}
use pheidippides.Prelude.Strings.{split_whitespace, trim_end}
use pheidippides.Prelude.Maps
use pheidippides.Cookies as Names
use pheidippides.Cookies.{Headers}
use pheidippides.Http.Utf8.{from_utf8}
use pheidippides.Http.Request.{
  Error, incorrect_header, out_of_fuel, line_bytes, read_line, first_line, read_headers,
  try_from_stream,
}

-- A line takes at least one byte, and never more than there are.
length-line_bytes : (b : ℕ) (bytes : List ℕ) → length (line_bytes (b ∷ bytes)).1 ≤ length bytes
unfolding line_bytes
length-line_bytes b [] = ground arith
length-line_bytes b (c ∷ bytes) = ground (arith, length-line_bytes c bytes)

read_line-rest :
    (bytes : List ℕ) (line : Text) (rest : List ℕ)
    → read_line bytes ≡ ok (line, rest)
    → rest ≡ (line_bytes bytes).1
unfolding read_line
read_line-rest bytes line rest h = elim (Option-cases (from_utf8 (line_bytes bytes).0)) [
  | inl e ↦ ground arith
  | inr (s, e) ↦ ground arith
]

read_line_fails : (bytes : List ℕ) (e : Error) → read_line bytes ≡ err e → e ≢ out_of_fuel
unfolding read_line
read_line_fails bytes e h p = elim (Option-cases (from_utf8 (line_bytes bytes).0)) [
  | inl f ↦ ground arith
  | inr (s, f) ↦ ground arith
]

module _ (unicode : Text → Text) where
  -- At the end of the connection the next line is empty.
  read_headers_closed :
      (fuel : ℕ) (headers : Headers)
      → read_headers unicode (suc fuel) headers [] ≡ err (incorrect_header [])
  unfolding read_headers read_line text_eq split_once
  read_headers_closed fuel headers = refl

  read_headers-fuel :
      (fuel : ℕ) (headers : Headers) (bytes : List ℕ)
      → length bytes < fuel
      → read_headers unicode fuel headers bytes ≢ err out_of_fuel
  unfolding read_headers
  read_headers-fuel zero headers bytes h p = absurd (omega (arith, h))
  read_headers-fuel (suc fuel) headers [] h p = cc (read_headers_closed fuel headers, p)
  read_headers-fuel (suc fuel) headers (b ∷ bytes) h p =
      elim (Result-cases (read_line (b ∷ bytes))) [
        | inr (e, f) ↦ read_line_fails (b ∷ bytes) e f (ground arith)
        | inl ((line, rest), f) ↦ elim (Option-cases (split_once (codes ": ") line)) [
          | inl g ↦ ground arith
          | inr ((key, value), g) ↦ ground (
            arith,
            read_headers-fuel fuel
                (Maps.insert headers (Names.from_str unicode key) (trim_end value)) rest,
            read_line-rest (b ∷ bytes) line rest f,
            length-line_bytes b bytes,
          )
        ]
      ]

  first_line_fails :
      (line : Text) (words : List Text) → first_line unicode line words ≢ err out_of_fuel
  unfolding first_line
  first_line_fails line [] p = ground arith
  first_line_fails line (word ∷ []) p = ground arith
  first_line_fails line (word ∷ url ∷ rest) p = ground arith

  -- Reading a request ends with a request or with one of the code's errors, and never for want of
  -- fuel, whatever the connection sends.
  pub try_from_stream_ends : (stream : List ℕ) → try_from_stream unicode stream ≢ err out_of_fuel
  unfolding try_from_stream
  try_from_stream_ends stream p = elim (Result-cases (read_line stream)) [
    | inr (e, f) ↦ read_line_fails stream e f (ground arith)
    | inl ((line, rest), f) ↦
        elim (Result-cases (first_line unicode line (split_whitespace line))) [
          | inr (e, g) ↦ first_line_fails line (split_whitespace line) (ground arith)
          | inl ((method, url), g) ↦
              elim (Result-cases (read_headers unicode (suc (length rest)) [] rest)) [
                | inl x ↦ ground arith
                | inr (e, x) ↦
                    read_headers-fuel (suc (length rest)) [] rest (omega arith) (ground arith)
              ]
        ]
  ]
