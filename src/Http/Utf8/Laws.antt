-- ===== src/Http/Utf8/Laws.antt =====
-- The bytes of a text are read back as that text.
use mathlib.Core.Option
use pheidippides.Prelude.{
  ℕ, suc, ◌+◌, ◌-◌, ◌*◌, ◌/◌, ◌%◌, ◌<◌, ◌≤◌, ltb, leb, if◌then◌else◌, ◌&&◌, Text, List, [], ◌∷◌,
  ◌++◌, Option, some, true, Bool-cases, ◌⊎◌, inl, inr, ◌≡◌, refl, ap, ◌∙◌, arith, All,
}
use pheidippides.Prelude.Strings.{into_bytes, encode_char}
use pheidippides.Http.Utf8.{lead, finish, decode_from, from_utf8}

-- A `char`: a scalar value of Unicode.
abbrev pub IsChar : ℕ → Type 0
IsChar c = (c < 0x110000) × ((c < 0xd800) ⊎ (0xdfff < c))

abbrev put : ℕ → Option Text → Option Text
put c o = Option.map (λ s. c ∷ s) o

done :
    (bits lowest highest : ℕ) (bytes : List ℕ)
    → decode_from 0 bits lowest highest bytes ≡ decode_from 0 0 0 0 bytes
unfolding decode_from
done bits lowest highest [] = refl
done bits lowest highest (b ∷ bytes) = refl

leb_of_le : (a b : ℕ) → a ≤ b → leb a b ≡ true
leb_of_le a b h = ground arith

continue :
    (follow bits low high r : ℕ) (bytes : List ℕ)
    → low ≤ 0x80 + r
    → 0x80 + r ≤ high
    → decode_from (suc follow) bits low high ((0x80 + r) ∷ bytes)
      ≡ finish follow (bits * 64 + r) (decode_from follow (bits * 64 + r) 0x80 0xbf bytes)
unfolding decode_from
continue follow bits low high r bytes h k =
    let same : 0x80 + r - 0x80 ≡ r = omega arith in
    rw (leb_of_le low (0x80 + r) h, leb_of_le (0x80 + r) high k, same) refl

start :
    (b follow bits low high : ℕ) (bytes : List ℕ)
    → 0x80 ≤ b
    → lead b ≡ some (record { follow = follow; bits = bits; lowest = low; highest = high })
    → decode_from 0 0 0 0 (b ∷ bytes) ≡ decode_from follow bits low high bytes
unfolding decode_from
start b follow bits low high bytes h e = ground arith

two :
    (a r : ℕ) (bytes : List ℕ)
    → 2 ≤ a
    → a < 32
    → r < 64
    → decode_from 0 0 0 0 ((0xc0 + a) ∷ (0x80 + r) ∷ bytes)
      ≡ put (a * 64 + r) (decode_from 0 0 0 0 bytes)
two a r bytes h k l =
    start (0xc0 + a) 1 a 0x80 0xbf ((0x80 + r) ∷ bytes) (omega arith) (unfold lead in ground arith)
    ∙ continue 0 a 0x80 0xbf r bytes (omega arith) (omega arith)
    ∙ (unfold finish in ap (put (a * 64 + r)) (done (a * 64 + r) 0x80 0xbf bytes))

abbrev low_three : ℕ → ℕ
low_three a = if leb a 0 then 0xa0 else 0x80

abbrev high_three : ℕ → ℕ
high_three a = if leb 13 a && leb a 13 then 0x9f else 0xbf

lead_three :
    (a : ℕ)
    → a < 16
    → lead (0xe0 + a)
      ≡ some (record { follow = 2; bits = a; lowest = low_three a; highest = high_three a })
unfolding lead
lead_three a h = ground arith

three :
    (a r q : ℕ) (bytes : List ℕ)
    → a < 16
    → r < 64
    → q < 64
    → low_three a ≤ 0x80 + r
    → 0x80 + r ≤ high_three a
    → decode_from 0 0 0 0 ((0xe0 + a) ∷ (0x80 + r) ∷ (0x80 + q) ∷ bytes)
      ≡ put ((a * 64 + r) * 64 + q) (decode_from 0 0 0 0 bytes)
unfolding finish
three a r q bytes h k l low high =
    start (0xe0 + a) 2 a (low_three a) (high_three a) ((0x80 + r) ∷ (0x80 + q) ∷ bytes)
      (omega arith) (lead_three a h)
    ∙ continue 1 a (low_three a) (high_three a) r ((0x80 + q) ∷ bytes) low high
    ∙ (continue 0 (a * 64 + r) 0x80 0xbf q bytes (omega arith) (omega arith))
    ∙ (ap (put ((a * 64 + r) * 64 + q)) (done ((a * 64 + r) * 64 + q) 0x80 0xbf bytes))

abbrev low_four : ℕ → ℕ
low_four a = if leb a 0 then 0x90 else 0x80

abbrev high_four : ℕ → ℕ
high_four a = if leb 4 a then 0x8f else 0xbf

lead_four :
    (a : ℕ)
    → a < 5
    → lead (0xf0 + a)
      ≡ some (record { follow = 3; bits = a; lowest = low_four a; highest = high_four a })
unfolding lead
lead_four a h = ground arith

four :
    (a r q p : ℕ) (bytes : List ℕ)
    → a < 5
    → q < 64
    → p < 64
    → low_four a ≤ 0x80 + r
    → 0x80 + r ≤ high_four a
    → decode_from 0 0 0 0 ((0xf0 + a) ∷ (0x80 + r) ∷ (0x80 + q) ∷ (0x80 + p) ∷ bytes)
      ≡ put (((a * 64 + r) * 64 + q) * 64 + p) (decode_from 0 0 0 0 bytes)
unfolding finish
four a r q p bytes h k l low high =
    start (0xf0 + a) 3 a (low_four a) (high_four a) ((0x80 + r) ∷ (0x80 + q) ∷ (0x80 + p) ∷ bytes)
      (omega arith) (lead_four a h)
    ∙ continue 2 a (low_four a) (high_four a) r ((0x80 + q) ∷ (0x80 + p) ∷ bytes) low high
    ∙ (continue 1 (a * 64 + r) 0x80 0xbf q ((0x80 + p) ∷ bytes) (omega arith) (omega arith))
    ∙ (continue 0 ((a * 64 + r) * 64 + q) 0x80 0xbf p bytes (omega arith) (omega arith))
    ∙ (ap (put (((a * 64 + r) * 64 + q) * 64 + p))
        (done (((a * 64 + r) * 64 + q) * 64 + p) 0x80 0xbf bytes))

one :
    (c : ℕ) (bytes : List ℕ)
    → c < 0x80
    → decode_from 0 0 0 0 (c ∷ bytes) ≡ put c (decode_from 0 0 0 0 bytes)
unfolding decode_from
one c bytes h = ground arith

char_read :
    (c : ℕ) (bytes : List ℕ)
    → IsChar c
    → decode_from 0 0 0 0 (encode_char c ++ bytes) ≡ put c (decode_from 0 0 0 0 bytes)
unfolding encode_char
char_read c bytes (h, v) = elim (Bool-cases (ltb c 0x80)) [
  | inl e ↦ rw e (one c bytes (ground (arith, e)))
  | inr e ↦ elim (Bool-cases (ltb c 0x800)) [
    | inl f ↦
        let same : c / 64 * 64 + c % 64 ≡ c = omega arith in
        rw (e, f)
          (two (c / 64) (c % 64) bytes (ground (arith, e)) (ground (arith, f)) (omega arith)
            ∙ ap (λ x. put x (decode_from 0 0 0 0 bytes)) same)
    | inr f ↦ elim (Bool-cases (ltb c 0x10000)) [
      | inl g ↦
          let same : (c / 4096 * 64 + c / 64 % 64) * 64 + c % 64 ≡ c = omega arith in
          rw (e, f, g)
            (three (c / 4096) (c / 64 % 64) (c % 64) bytes (ground (arith, g)) (omega arith)
                (omega arith) (ground (arith, f)) (ground (arith, v))
              ∙ ap (λ x. put x (decode_from 0 0 0 0 bytes)) same)
      | inr g ↦
          let same : ((c / 262144 * 64 + c / 4096 % 64) * 64 + c / 64 % 64) * 64 + c % 64 ≡ c =
            omega arith in
          rw (e, f, g)
            (four (c / 262144) (c / 4096 % 64) (c / 64 % 64) (c % 64) bytes (omega (arith, h))
                (omega arith) (omega arith) (ground (arith, g)) (ground (arith, h))
              ∙ ap (λ x. put x (decode_from 0 0 0 0 bytes)) same)
    ]
  ]
]

pub from_utf8-into_bytes : (s : Text) → All IsChar s → from_utf8 (into_bytes s) ≡ some s
unfolding from_utf8 into_bytes
from_utf8-into_bytes [] a = unfold decode_from in refl
from_utf8-into_bytes (c ∷ s) (a, more) =
    char_read c (into_bytes s) a ∙ ap (put c) (from_utf8-into_bytes s more)
