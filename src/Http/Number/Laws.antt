-- ===== src/Http/Number/Laws.antt =====
-- A number that `format!` writes is the number that `parse` reads.
use pheidippides.Prelude.{
  ℕ, zero, suc, ◌+◌, ◌-◌, ◌*◌, ◌/◌, ◌%◌, ◌<◌, ◌≤◌, ltb, Text, [], ◌∷◌, ◌++◌, Option, none, some,
  Bool-cases, inl, inr, ◌≡◌, ◌≢◌, refl, arith, All, All-append,
}
use pheidippides.Http.Number.{usize_max, digits, is_digit, parse_from, to_string, parse}

abbrev pub IsDigit : ℕ → Type 0
IsDigit c = (b'0' ≤ c) × (c ≤ b'9')

digits-IsDigit : (fuel n : ℕ) → All IsDigit (digits fuel n)
unfolding digits
digits-IsDigit zero n = tt
digits-IsDigit (suc fuel) n = elim (Bool-cases (ltb n 10)) [
  | inl e ↦ rw e ((omega arith, ground (arith, e)), tt)
  | inr e ↦ rw e (
      All-append IsDigit (digits fuel (n / 10)) ((b'0' + n % 10) ∷ [])
        (digits-IsDigit fuel (n / 10)) ((omega arith, omega arith), tt))
]

pub to_string-IsDigit : (n : ℕ) → All IsDigit (to_string n)
unfolding to_string
to_string-IsDigit n = digits-IsDigit (suc n) n

append_filled : (s : Text) (c : ℕ) → s ++ c ∷ [] ≢ []
append_filled [] c h = cc
append_filled (x ∷ s) c h = cc

abbrev then_from : Option ℕ → Text → Option ℕ
then_from none s = none
then_from (some n) s = parse_from n s

parse_from-append : (n : ℕ) (s t : Text) → parse_from n (s ++ t) ≡ then_from (parse_from n s) t
unfolding parse_from
parse_from-append n [] t = refl
parse_from-append n (c ∷ s) t = ground (arith, parse_from-append (n * 10 + (c - b'0')) s t)

parse_from-digit :
    (n d r : ℕ) → d < 10 → r ≡ n * 10 + d → r ≤ usize_max → parse_from n ((b'0' + d) ∷ []) ≡ some r
unfolding parse_from is_digit
parse_from-digit n d r h e k = ground arith

parse_from-digits : (fuel n : ℕ) → n < fuel → n ≤ usize_max → parse_from 0 (digits fuel n) ≡ some n
unfolding digits
parse_from-digits zero n h k = absurd (omega (arith, h))
parse_from-digits (suc fuel) n h k = elim (Bool-cases (ltb n 10)) [
  | inl e ↦ rw e (parse_from-digit 0 n n (ground (arith, e)) (omega arith) k)
  | inr e ↦
      let shorter : n / 10 < fuel = ground (arith, e, h) in
      rw
        (
          e,
          parse_from-append 0 (digits fuel (n / 10)) ((b'0' + n % 10) ∷ []),
          parse_from-digits fuel (n / 10) shorter (omega (arith, k)),
        )
        (parse_from-digit (n / 10) (n % 10) n (omega arith) (omega arith) k)
]

-- The digits of a number start with no sign.
parse-digits :
    (s : Text) (n : ℕ) → All IsDigit s → parse_from 0 s ≡ some n → s ≢ [] → parse s ≡ some n
unfolding parse
parse-digits [] n a h e = absurd (e refl)
parse-digits (c ∷ []) n a h e = h
parse-digits (c ∷ d ∷ s) n ((low, high), _) h e = ground (arith, low)

digits-filled : (fuel n : ℕ) → digits (suc fuel) n ≢ []
unfolding digits
digits-filled fuel n h = elim (Bool-cases (ltb n 10)) [
  | inl e ↦ ground (arith, e)
  | inr e ↦ append_filled (digits fuel (n / 10)) (b'0' + n % 10) (ground (arith, e))
]

pub parse-to_string : (n : ℕ) → n ≤ usize_max → parse (to_string n) ≡ some n
unfolding to_string
parse-to_string n h =
    parse-digits (digits (suc n) n) n (digits-IsDigit (suc n) n)
      (parse_from-digits (suc n) n (omega arith) h) (digits-filled n n)

parse_from_le : (n : ℕ) (s : Text) (r : ℕ) → n ≤ usize_max → parse_from n s ≡ some r → r ≤ usize_max
unfolding parse_from
parse_from_le n [] r h e = ground arith
parse_from_le n (c ∷ s) r h e = ground (arith, parse_from_le (n * 10 + (c - b'0')) s r)

-- A number that is read fits in a `usize`.
pub parse_le : (s : Text) (n : ℕ) → parse s ≡ some n → n ≤ usize_max
unfolding parse
parse_le [] n e = cc
parse_le (c ∷ []) n e = parse_from_le 0 (c ∷ []) n (omega arith) e
parse_le (c ∷ d ∷ s) n e =
    ground
      (arith, parse_from_le 0 (d ∷ s) n (omega arith), parse_from_le 0 (c ∷ d ∷ s) n (omega arith))
