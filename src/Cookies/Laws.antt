-- ===== src/Cookies/Laws.antt =====
-- lib/pheidippides-utils/src/http.rs: a `Cookie` header is read back as the cookies it was made of.
use pheidippides.Prelude.{
  ℕ, zero, suc, ◌≤◌, Text, codes, List, [], ◌∷◌, ◌++◌, map, length, length-append, some, ok, err,
  HashMap, eq_text, All, Lacks, ◌≡◌, refl, ap, arith,
}
use pheidippides.Prelude.Strings.{split, split_fuel}
use pheidippides.Prelude.Strings.Laws.{split_once-append, split_once-eq-none}
use pheidippides.Prelude.Maps
use pheidippides.Prelude.Lists.{All-append}
use pheidippides.Cookies.{Headers, incorrect_header, insert_cookies, get_cookies_hashmap}

-- What a browser sends for a cookie, and for a list of cookies.
abbrev pub cookie_pair : Text × Text → Text
cookie_pair (key, value) = key ++ (codes "=" ++ value)

abbrev pub cookie_list : Text × Text → List (Text × Text) → Text
cookie_list c [] = cookie_pair c
cookie_list c (d ∷ cs) = cookie_pair c ++ (codes "; " ++ cookie_list d cs)

-- A key has no `=` and no `;`, and a value has no `;`.
abbrev pub IsCookie : Text × Text → Type 0
IsCookie (key, value) = Lacks b'=' key × Lacks b';' key × Lacks b';' value

-- The map that the cookies make up: a later cookie replaces an earlier one of its key.
abbrev pub jar : HashMap Text Text → List (Text × Text) → HashMap Text Text
jar res [] = res
jar res ((key, value) ∷ cs) = jar (Maps.insert res key value) cs

pair-Lacks : (c : Text × Text) → IsCookie c → Lacks b';' (cookie_pair c)
pair-Lacks (key, value) (e, k, v) =
    All-append _ key (codes "=" ++ value) k ((λ p. omega (arith, p)), v)

split-cookie_list :
    (n : ℕ) (c : Text × Text) (cs : List (Text × Text))
    → length cs ≤ n
    → All IsCookie (c ∷ cs)
    → split_fuel n (codes "; ") (cookie_list c cs) ≡ map cookie_pair (c ∷ cs)
unfolding split_fuel
split-cookie_list zero c [] h a = refl
split-cookie_list zero c (d ∷ cs) h a = absurd (omega arith)
split-cookie_list (suc n) c [] h (a, _) =
    rw (split_fuel, split_once-eq-none b';' (codes " ") (cookie_pair c) (pair-Lacks c a))
split-cookie_list (suc n) c (d ∷ cs) h (a, rest_ok) =
    rw
      (
        split_fuel,
        split_once-append b';' (codes " ") (cookie_pair c) (cookie_list d cs) (pair-Lacks c a),
      )
      (ap (λ l. cookie_pair c ∷ l) (split-cookie_list n d cs (omega arith) rest_ok))

insert_cookies-pairs :
    (res : HashMap Text Text) (cs : List (Text × Text))
    → All IsCookie cs
    → insert_cookies res (map cookie_pair cs) ≡ ok (jar res cs)
unfolding insert_cookies
insert_cookies-pairs res [] a = refl
insert_cookies-pairs res ((key, value) ∷ cs) ((e, _, _), rest_ok) =
    rw (insert_cookies, split_once-append b'=' [] key value e)
      (insert_cookies-pairs (Maps.insert res key value) cs rest_ok)

length-cookie_list-le :
    (c : Text × Text) (cs : List (Text × Text)) → length cs ≤ length (cookie_list c cs)
length-cookie_list-le c [] = omega arith
length-cookie_list-le c (d ∷ cs) = omega (
  arith,
  length-append (cookie_pair c) (codes "; " ++ cookie_list d cs),
  length-cookie_list-le d cs,
)

-- If no key has a `=` or a `;` and no value has a `;`, the server finds in the header exactly the
-- cookies that the browser put there, however many they are.
pub get_cookies-cookie_list :
    (unicode : Text → Text) (headers : Headers) (c : Text × Text) (cs : List (Text × Text))
    → All IsCookie (c ∷ cs)
    → Maps.get headers (codes "cookie") ≡ some (cookie_list c cs)
    → get_cookies_hashmap unicode headers ≡ ok (jar [] (c ∷ cs))
unfolding get_cookies_hashmap split
get_cookies-cookie_list unicode headers c cs a h =
    rw (get_cookies_hashmap, h, split_cookies) (insert_cookies-pairs [] (c ∷ cs) a)
  where
    split_cookies :
        split_fuel (length (cookie_list c cs)) (codes "; ") (cookie_list c cs)
        ≡ map cookie_pair (c ∷ cs)
    split_cookies =
        split-cookie_list (length (cookie_list c cs)) c cs (length-cookie_list-le c cs) a

-- After cookies that can be read, one with no `=` makes the whole header incorrect, whatever follows.
pub insert_cookies-err :
    (res : HashMap Text Text) (cs : List (Text × Text)) (bad : Text) (rest : List Text)
    → All IsCookie cs
    → Lacks b'=' bad
    → insert_cookies res (map cookie_pair cs ++ bad ∷ rest) ≡ err incorrect_header
unfolding insert_cookies
insert_cookies-err res [] bad rest a b = rw (insert_cookies, split_once-eq-none b'=' [] bad b)
insert_cookies-err res ((key, value) ∷ cs) bad rest ((e, _, _), rest_ok) b =
    rw (insert_cookies, split_once-append b'=' [] key value e)
      (insert_cookies-err (Maps.insert res key value) cs bad rest rest_ok b)
