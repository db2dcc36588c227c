-- ===== src/Http/Number.antt =====
-- Decimal numbers, as `format!("{}", n)` writes a `usize` and `parse` reads one.
pub mod Laws
use pheidippides.Prelude.{
  ℕ, zero, suc, ◌+◌, ◌-◌, ◌*◌, ◌/◌, ◌%◌, ltb, leb, nat_eq, Text, [], ◌∷◌, ◌++◌, Option, none, some,
  Bool, ◌&&◌, if◌then◌else◌,
}

abbrev pub usize_max : ℕ
usize_max = 18446744073709551615

digits : ℕ → ℕ → Text
digits zero n = []
digits (suc fuel) n =
    let more = digits fuel (n / 10) in
    if ltb n 10 then (b'0' + n) ∷ [] else more ++ (b'0' + n % 10) ∷ []

-- A number has no more digits than units.
unfoldable pub to_string : ℕ → Text
unfolding digits
to_string n = digits (suc n) n

is_digit : ℕ → Bool
is_digit c = leb b'0' c && leb c b'9'

parse_from : ℕ → Text → Option ℕ
unfolding is_digit
parse_from n [] = some n
parse_from n (c ∷ s) =
    let next = n * 10 + (c - b'0') in
    let rest = parse_from next s in if is_digit c && leb next usize_max then rest else none

-- `parse::<usize>`: at least one digit, after at most one sign `+`.
unfoldable pub parse : Text → Option ℕ
unfolding parse_from
parse [] = none
parse (c ∷ []) = parse_from 0 (c ∷ [])
parse (c ∷ d ∷ s) = if nat_eq c b'+' then parse_from 0 (d ∷ s) else parse_from 0 (c ∷ d ∷ s)
