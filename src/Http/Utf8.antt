-- ===== src/Http/Utf8.antt =====
-- `String::from_utf8`: bytes are text if they are the encoding of scalar values, in the shortest form.
pub mod Laws
use mathlib.Core.Option
use pheidippides.Prelude.{
  ℕ, zero, suc, ◌+◌, ◌-◌, ◌*◌, leb, ltb, Text, List, [], ◌∷◌, Option, none, some, ◌&&◌,
  if◌then◌else◌,
}

-- What a first byte announces: how many bytes follow, its part of the scalar value, and the range
-- of the next byte.
record Lead : Type 0 where
  follow : ℕ
  bits : ℕ
  lowest : ℕ
  highest : ℕ

lead : ℕ → Option Lead
lead b =
    if leb 0xc2 b && leb b 0xdf
    then some (record { follow = 1; bits = b - 0xc0; lowest = 0x80; highest = 0xbf })
    else if leb 0xe0 b && leb b 0xef
    then some (record {
      follow = 2;
      bits = b - 0xe0;
      lowest = if leb b 0xe0 then 0xa0 else 0x80;
      highest = if leb 0xed b && leb b 0xed then 0x9f else 0xbf;
    })
    else if leb 0xf0 b && leb b 0xf4
    then some (record {
      follow = 3;
      bits = b - 0xf0;
      lowest = if leb b 0xf0 then 0x90 else 0x80;
      highest = if leb 0xf4 b then 0x8f else 0xbf;
    })
    else none

finish : ℕ → ℕ → Option Text → Option Text
finish zero scalar rest = Option.map (λ s. scalar ∷ s) rest
finish (suc n) scalar rest = rest

-- `follow` bytes of the current character are still to come.
decode_from : ℕ → ℕ → ℕ → ℕ → List ℕ → Option Text
decode_from zero bits lowest highest [] = some []
decode_from (suc follow) bits lowest highest [] = none
decode_from zero bits lowest highest (b ∷ bytes) =
    let ascii = Option.map (λ s. b ∷ s) (decode_from 0 0 0 0 bytes) in
    if ltb b 0x80 then ascii else elim (lead b) [
      | none ↦ none
      | some l ↦ decode_from l.follow l.bits l.lowest l.highest bytes
    ]
decode_from (suc follow) bits lowest highest (b ∷ bytes) =
    let scalar = bits * 64 + (b - 0x80) in
    let rest = finish follow scalar (decode_from follow scalar 0x80 0xbf bytes) in
    if leb lowest b && leb b highest then rest else none

unfoldable pub from_utf8 : List ℕ → Option Text
unfolding decode_from finish lead
from_utf8 bytes = decode_from 0 0 0 0 bytes
