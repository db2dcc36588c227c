-- ===== src/Http/Request/Bounds.antt =====
-- lib/http-server/src/request.rs: how much of a connection `content` takes.
use pheidippides.Prelude.{
  ℕ, zero, suc, ◌+◌, ◌≤◌, leb, Text, codes, List, [], ◌∷◌, length, take, drop, some, ok,
  Option-cases, Bool-cases, inl, inr, ◌≡◌, ap, arith, eq_text,
}
use pheidippides.Prelude.Maps
use pheidippides.Cookies as Names
use pheidippides.Http.Number.{usize_max, parse}
use pheidippides.Http.Number.Laws.{parse_le}
use pheidippides.Http.Utf8.{from_utf8}
use pheidippides.Http.Request.{Request, content}

length-drop {ℓ} :
    {A : Type ℓ} (n : ℕ) (xs : List A) → n ≤ length xs → length xs ≡ n + length (drop n xs)
length-drop zero xs h = omega arith
length-drop (suc n) [] h = absurd (omega (arith, h))
length-drop (suc n) (x ∷ xs) h = omega (arith, length-drop n xs (omega (arith, h)))

module _ (unicode : Text → Text) where
  -- What `content` returns comes from exactly as many bytes of the connection as the Content-Length
  -- says, a number below 2^64 that is at most the number of bytes there are; the rest is left, and
  -- nothing else of the request changes.
  pub content_takes :
      (request after : Request) (text : Text)
      → content unicode request ≡ ok (text, after)
      → (value : Text) × (n : ℕ) × (Maps.get request.headers
            (Names.from_str unicode (codes "content-length"))
          ≡ some value)
        × (parse value ≡ some n)
        × (n ≤ usize_max)
        × (length request.reader ≡ n + length after.reader)
        × (from_utf8 (take n request.reader) ≡ some text)
        × (after ≡ record request { reader = drop n request.reader })
  unfolding content
  content_takes request after text h =
      elim (Option-cases
        (Maps.get request.headers (Names.from_str unicode (codes "content-length")))) [
          | inl e ↦ absurd (ground arith)
          | inr (value, e) ↦ elim (Option-cases (parse value)) [
            | inl f ↦ absurd (ground arith)
            | inr (n, f) ↦ elim (Bool-cases (leb n (length request.reader))) [
              | inr g ↦ absurd (ground arith)
              | inl g ↦ elim (Option-cases (from_utf8 (take n request.reader))) [
                | inl k ↦ absurd (ground arith)
                | inr (s, k) ↦
                    let rest : after ≡ record request { reader = drop n request.reader } =
                      ground (arith, e, f, g, k, h) in
                    let left : length after.reader ≡ length (drop n request.reader) =
                      ap (λ (r : Request). length r.reader) rest in
                    (
                      value,
                      n,
                      e,
                      f,
                      parse_le value n f,
                      omega (arith, length-drop n request.reader (ground (arith, g)), left),
                      ground (arith, e, f, g, k, h),
                      rest,
                    )
              ]
            ]
          ]
        ]
