-- ===== src/Postgres/Like.antt =====
-- The operator `like` of Postgres, which lib/postgres-db/src/lib.rs searches names with.
use pheidippides.Prelude.{
  ℕ, Text, codes, [], ◌∷◌, ◌++◌, Option, none, some, Bool, true, false, ◌||◌, ◌&&◌, ◌==◌, eq_nat,
  All, if◌then◌else◌, contains_text, split_once, ◌≡◌, ◌≢◌, refl, ◌∙◌, arith, ==_ne, nat_eq_iff,
}
use pheidippides.Prelude.Strings.{strip_prefix}

abbrev is_empty : Text → Bool
is_empty [] = true
is_empty (_ ∷ _) = false

abbrev some_suffix : (Text → Bool) → Text → Bool
some_suffix p [] = p []
some_suffix p (c ∷ s) = p (c ∷ s) || some_suffix p s

abbrev one_char : (Text → Bool) → Text → Bool
one_char p [] = false
one_char p (_ ∷ s) = p s

abbrev this_char : ℕ → (Text → Bool) → Text → Bool
this_char c p [] = false
this_char c p (x ∷ s) = x == c && p s

-- `s like pattern`, with the pattern first: `%` stands for any text, `_` for any character, and a
-- backslash makes the next character stand for itself.
unfoldable pub like : Text → Text → Bool
like [] = is_empty
like (c ∷ []) =
    if c == b'%' then (λ _. true) else if c == b'_' then one_char is_empty else this_char c is_empty
like (c ∷ d ∷ pattern) =
    let rest = like (d ∷ pattern) in
    let after = like pattern in
    if c == b'%'
    then some_suffix rest
    else if c == b'_'
    then one_char rest
    else if c == b'\\'
    then this_char d after
    else this_char c rest

-- No character of the text has a meaning in a pattern.
abbrev pub IsPlain : Text → Type 0
IsPlain s = All (λ c. (c ≢ b'%') × (c ≢ b'_') × (c ≢ b'\\')) s

abbrev is_some : {A : Type 0} → Option A → Bool
is_some none = false
is_some (some _) = true

like-char :
    (c d : ℕ) (pattern : Text)
    → (c ≢ b'%') × (c ≢ b'_') × (c ≢ b'\\')
    → like (c ∷ d ∷ pattern) ≡ this_char c (like (d ∷ pattern))
unfolding like
like-char c d pattern (p, u, b) = rw (==_ne p, ==_ne u, ==_ne b) refl

like-any : (s : Text) → like (codes "%") s ≡ true
unfolding like
like-any s = refl

-- A plain text and `%` match the texts that start with it.
like-prefix :
    (query s : Text) → IsPlain query → like (query ++ codes "%") s ≡ is_some (strip_prefix query s)
unfolding strip_prefix
like-prefix [] s plain = like-any s
like-prefix (c ∷ []) [] (plain, _) = rw (like-char c b'%' [] plain) refl
like-prefix (c ∷ []) (x ∷ s) (plain, _) =
    rw (like-char c b'%' [] plain) (ground (arith, like-any s))
like-prefix (c ∷ d ∷ query) [] (plain, more) = rw (like-char c d (query ++ codes "%") plain) refl
like-prefix (c ∷ d ∷ query) (x ∷ s) (plain, more) =
    rw (like-char c d (query ++ codes "%") plain)
      (ground (arith, like-prefix (d ∷ query) s more, nat_eq_iff x c))

some_suffix-contains :
    (query : Text) (p : Text → Bool)
    → ((s : Text) → p s ≡ is_some (strip_prefix query s))
    → (s : Text) → some_suffix p s ≡ contains_text s query
unfolding contains_text split_once
some_suffix-contains query p h [] = ground (arith, h [])
some_suffix-contains query p h (c ∷ s) = ground (arith, h (c ∷ s), some_suffix-contains query p h s)

like-anywhere :
    (d : ℕ) (pattern s : Text) → like (b'%' ∷ d ∷ pattern) s ≡ some_suffix (like (d ∷ pattern)) s
unfolding like
like-anywhere d pattern s = refl

-- `%`, a text with no character that has a meaning, and `%` match exactly what contains the text.
pub like-contains :
    (query s : Text)
    → IsPlain query
    → like (codes "%" ++ (query ++ codes "%")) s ≡ contains_text s query
like-contains [] s plain =
    like-anywhere b'%' [] s
    ∙ some_suffix-contains [] (like (codes "%")) (λ t. like-prefix [] t plain) s
like-contains (c ∷ query) s plain =
    like-anywhere c (query ++ codes "%") s
    ∙ some_suffix-contains (c ∷ query) (like (c ∷ query ++ codes "%"))
        (λ t. like-prefix (c ∷ query) t plain) s
