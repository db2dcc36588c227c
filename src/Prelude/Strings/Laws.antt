-- ===== src/Prelude/Strings/Laws.antt =====
-- The laws of the text operations.
use mathlib.Core.Option
use mathlib.Core.Path.{◌≡◌, refl, ap, ◌∙◌}
use mathlib.Core.Logic.{◌≢◌, inl, inr}
use mathlib.Core.Bool.{true, false}
use mathlib.Core.Option.{Option, none, some}
use mathlib.Core.List.{List, [], ◌∷◌, ◌++◌, append-nil, append_assoc}
use Prim.Native.Nat.{ℕ, ◌+◌, ◌≤◌}
use native.Mathlib.Omega.{arith}
use pheidippides.Prelude.Tests.{Option-cases}
use pheidippides.Prelude.Lists.{length, length-append, All}
use pheidippides.Prelude.Equality.{Text}
use pheidippides.Prelude.Strings.{
  Lacks, strip_prefix, split_once, char_len, encode_char, into_bytes, byte_len, is_whitespace, emit,
  split_whitespace_from, split_whitespace,
}

pub strip_prefix-append : (pat s : Text) → strip_prefix pat (pat ++ s) ≡ some s
unfolding strip_prefix
strip_prefix-append [] s = refl
strip_prefix-append (p ∷ ps) s = ground (arith, strip_prefix-append ps s)

-- A separator whose first character is not in `key` ends `key`.
pub split_once-append :
    (p : ℕ) (ps key rest : Text)
    → Lacks p key
    → split_once (p ∷ ps) (key ++ ((p ∷ ps) ++ rest)) ≡ some (key, rest)
unfolding split_once strip_prefix
split_once-append p ps [] rest h = ground (arith, strip_prefix-append ps rest)
split_once-append p ps (c ∷ key) rest (n, h) = ground (arith, split_once-append p ps key rest h)

pub split_once-eq-none : (p : ℕ) (ps s : Text) → Lacks p s → split_once (p ∷ ps) s ≡ none
unfolding split_once strip_prefix
split_once-eq-none p ps [] h = refl
split_once-eq-none p ps (c ∷ s) (n, h) = ground (arith, split_once-eq-none p ps s h)

strip_prefix_sound : (pat s rest : Text) → strip_prefix pat s ≡ some rest → s ≡ pat ++ rest
unfolding strip_prefix
strip_prefix_sound [] s rest h = ground arith
strip_prefix_sound (p ∷ ps) [] rest h = ground arith
strip_prefix_sound (p ∷ ps) (c ∷ s) rest h = ground (arith, strip_prefix_sound ps s rest)

-- The two parts and the separator make up the text.
pub split_once_sound : (pat s a b : Text) → split_once pat s ≡ some (a, b) → s ≡ a ++ (pat ++ b)
unfolding split_once
split_once_sound pat [] a b h = ground (arith, strip_prefix_sound pat [] b)
split_once_sound pat (c ∷ s) a b h = elim (Option-cases (strip_prefix pat (c ∷ s))) [
  | inl missed ↦
      let ((a', b'), found, same) = (Option.map-eq-some_iff _ _).0 (rw (missed, split_once) at h) in
      ground (arith, split_once_sound pat s a' b')
  | inr (rest, hit) ↦ ground (arith, strip_prefix_sound pat (c ∷ s) rest)
]

pub length-encode_char : (c : ℕ) → length (encode_char c) ≡ char_len c
unfolding encode_char char_len
length-encode_char c = ground arith

-- `len` counts the bytes that are sent.
pub length-into_bytes : (s : Text) → length (into_bytes s) ≡ byte_len s
unfolding into_bytes byte_len
length-into_bytes [] = refl
length-into_bytes (c ∷ s) =
    omega (
      arith,
      length-append (encode_char c) (into_bytes s),
      length-encode_char c,
      length-into_bytes s,
    )

pub byte_len-append : (s t : Text) → byte_len (s ++ t) ≡ byte_len s + byte_len t
unfolding byte_len
byte_len-append [] t = omega arith
byte_len-append (c ∷ s) t = omega (arith, byte_len-append s t)

-- A word: not empty, and with no white space in it.
abbrev pub IsWord : Text → Type 0
IsWord s = (s ≢ []) × All (λ c. is_whitespace c ≡ false) s

pub emit-filled : (word : Text) (pieces : List Text) → word ≢ [] → emit word pieces ≡ word ∷ pieces
unfolding emit
emit-filled [] pieces n = absurd (n refl)
emit-filled (c ∷ word) pieces n = refl

split_whitespace_from-word :
    (start word : Text) (c : ℕ) (s : Text)
    → All (λ x. is_whitespace x ≡ false) word
    → is_whitespace c ≡ true
    → split_whitespace_from start (word ++ c ∷ s)
      ≡ emit (start ++ word) (split_whitespace_from [] s)
unfolding split_whitespace_from
split_whitespace_from-word start [] c s a e = rw (e, append-nil start) refl
split_whitespace_from-word start (x ∷ word) c s (n, a) e =
    rw n (split_whitespace_from-word (start ++ x ∷ []) word c s a e)
    ∙ ap (λ w. emit w (split_whitespace_from [] s)) (append_assoc start (x ∷ []) word)

pub split_whitespace-word :
    (word : Text) (c : ℕ) (s : Text)
    → IsWord word
    → is_whitespace c ≡ true
    → split_whitespace (word ++ c ∷ s) ≡ word ∷ split_whitespace s
unfolding split_whitespace
split_whitespace-word word c s (n, a) e =
    split_whitespace_from-word [] word c s a e ∙ emit-filled word (split_whitespace_from [] s) n

char_len_pos : (c : ℕ) → 1 ≤ char_len c
unfolding char_len
char_len_pos c = ground arith

pub length-le-into_bytes : (s : Text) → length s ≤ length (into_bytes s)
unfolding into_bytes
length-le-into_bytes [] = omega arith
length-le-into_bytes (c ∷ s) = omega (
  arith,
  length-append (encode_char c) (into_bytes s),
  length-encode_char c,
  char_len_pos c,
  length-le-into_bytes s,
)
