-- ===== src/Prelude/Strings.antt =====
-- The operations of `str` and `String` that the source calls, on lists of code points.
pub mod Laws
pub mod Lines
use mathlib.Core.Option
use mathlib.Core.Path.{◌≡◌, refl}
use mathlib.Core.Logic.{◌≢◌, ◌↔◌}
use mathlib.Core.Bool.{Bool, true, false, ◌||◌, ◌&&◌, not}
use mathlib.Core.Option.{Option, none, some}
use mathlib.Core.List.{List, [], ◌∷◌, ◌++◌, reverse, map}
use Prim.Native.Nat.{ℕ, zero, suc, ◌+◌, ◌/◌, ◌%◌, ◌≤◌, ◌<◌}
use native.Mathlib.Omega.{arith}
use pheidippides.Prelude.Tests.{ltb, leb, nat_eq, if◌then◌else◌}
use pheidippides.Prelude.Lists.{All, length, skip_while, keep}
use pheidippides.Prelude.Equality.{Text, codes}

-- No character of the text is `c`.
abbrev pub Lacks : ℕ → Text → Type 0
Lacks c s = All (λ x. x ≢ c) s

unfoldable pub strip_prefix : Text → Text → Option Text
strip_prefix [] s = some s
strip_prefix (p ∷ ps) [] = none
strip_prefix (p ∷ ps) (c ∷ s) = if nat_eq p c then strip_prefix ps s else none

abbrev prepend : ℕ → Text × Text → Text × Text
prepend c (a, b) = (c ∷ a, b)

-- `split_once`: around the first occurrence of the pattern.
unfoldable pub split_once : Text → Text → Option (Text × Text)
unfolding strip_prefix
split_once pat [] = Option.map (λ rest. ([], rest)) (strip_prefix pat [])
split_once pat (c ∷ s) = elim (strip_prefix pat (c ∷ s)) [
  | some rest ↦ some ([], rest)
  | none ↦ Option.map (prepend c) (split_once pat s)
]

-- `split`, with one round of fuel for each piece.
unfoldable pub split_fuel : ℕ → Text → Text → List Text
split_fuel zero pat s = s ∷ []
split_fuel (suc n) pat s = elim (split_once pat s) [
  | none ↦ s ∷ []
  | some (a, b) ↦ a ∷ split_fuel n pat b
]

-- Each piece but the last ends with a separator, so there are at most `length s + 1` pieces.
unfoldable pub split : Text → Text → List Text
unfolding split_fuel split_once
split pat s = split_fuel (length s) pat s

-- `contains`.
unfoldable pub contains_text : Text → Text → Bool
unfolding split_once
contains_text s pat = elim (split_once pat s) [ none ↦ false | some _ ↦ true ]

-- `replace`, of one character by a text.
unfoldable pub replace : ℕ → Text → Text → Text
replace c by [] = []
replace c by (x ∷ s) = if nat_eq x c then by ++ replace c by s else x ∷ replace c by s

-- `char::is_whitespace`.
unfoldable pub is_whitespace : ℕ → Bool
is_whitespace c =
    (leb 9 c && leb c 13)
    || nat_eq c 32
    || nat_eq c 0x85
    || nat_eq c 0xa0
    || nat_eq c 0x1680
    || (leb 0x2000 c && leb c 0x200a)
    || nat_eq c 0x2028
    || nat_eq c 0x2029
    || nat_eq c 0x202f
    || nat_eq c 0x205f
    || nat_eq c 0x3000

-- `trim_end`.
unfoldable pub trim_end : Text → Text
unfolding is_whitespace
trim_end s = reverse (skip_while is_whitespace (reverse s))

-- `split_whitespace`: `word` is the piece under construction.
pub emit : Text → List Text → List Text
emit [] pieces = pieces
emit (c ∷ word) pieces = (c ∷ word) ∷ pieces

split_whitespace_from : Text → Text → List Text
split_whitespace_from word [] = emit word []
split_whitespace_from word (c ∷ s) =
    let ended = emit word (split_whitespace_from [] s) in
    let longer = split_whitespace_from (word ++ c ∷ []) s in
    if is_whitespace c then ended else longer

unfoldable pub split_whitespace : Text → List Text
unfolding split_whitespace_from emit is_whitespace
split_whitespace s = split_whitespace_from [] s

-- `lines`: a line feed ends a line, with the carriage return before it.
strip_return : Text → Text
strip_return [] = []
strip_return (c ∷ []) = if nat_eq c 13 then [] else c ∷ []
strip_return (c ∷ d ∷ s) = c ∷ strip_return (d ∷ s)

text_lines_from : Text → Text → List Text
unfolding emit strip_return
text_lines_from line [] = emit line []
text_lines_from line (c ∷ s) =
    let ended = strip_return line ∷ text_lines_from [] s in
    let longer = text_lines_from (line ++ c ∷ []) s in if nat_eq c 10 then ended else longer

unfoldable pub text_lines : Text → List Text
unfolding text_lines_from
text_lines s = text_lines_from [] s

abbrev is_ascii : Text → Bool
is_ascii [] = true
is_ascii (c ∷ s) = ltb c 128 && is_ascii s

unfoldable pub ascii_lower : ℕ → ℕ
ascii_lower c = if leb b'A' c && leb c b'Z' then c + 32 else c

-- `to_lowercase`: the tables of Unicode are a parameter, for texts that are not ASCII.
unfoldable pub to_lowercase : (Text → Text) → Text → Text
unfolding ascii_lower
to_lowercase unicode s = if is_ascii s then map ascii_lower s else unicode s

-- The number of bytes of a character in UTF-8.
unfoldable pub char_len : ℕ → ℕ
char_len c = if ltb c 0x80 then 1 else if ltb c 0x800 then 2 else if ltb c 0x10000 then 3 else 4

-- `char::encode_utf8`.
unfoldable pub encode_char : ℕ → List ℕ
encode_char c =
    if ltb c 0x80
    then c ∷ []
    else if ltb c 0x800
    then (0xc0 + c / 64) ∷ (0x80 + c % 64) ∷ []
    else if ltb c 0x10000
    then (0xe0 + c / 4096) ∷ (0x80 + c / 64 % 64) ∷ (0x80 + c % 64) ∷ []
    else (0xf0 + c / 262144) ∷ (0x80 + c / 4096 % 64) ∷ (0x80 + c / 64 % 64) ∷ (0x80 + c % 64) ∷ []

-- `into_bytes`, `as_bytes`.
unfoldable pub into_bytes : Text → List ℕ
unfolding encode_char
into_bytes [] = []
into_bytes (c ∷ s) = encode_char c ++ into_bytes s

-- `len`.
unfoldable pub byte_len : Text → ℕ
unfolding char_len
byte_len [] = 0
byte_len (c ∷ s) = char_len c + byte_len s
