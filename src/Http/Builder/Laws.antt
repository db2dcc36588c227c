-- ===== src/Http/Builder/Laws.antt =====
-- lib/http-server/src/http_response.rs and request.rs: a response is read back with the code that
-- reads requests.
use pheidippides.Prelude.{
  Text, List, [], ◌∷◌, ◌++◌, Option, none, some, true, text_eq_iff, All, ◌≡◌, inl, inr, refl, sym,
  ap, ◌∙◌, subst, arith, ◌==◌, eq_text, ==_refl, Bool-cases,
}
use pheidippides.Prelude.Strings.{into_bytes}
use pheidippides.Prelude.Maps
use pheidippides.Prelude.Maps.{
  HasDistinctKeys, IsAbsent, get-insert, get_absent, insert-HasDistinctKeys,
}
use pheidippides.Cookies as Names
use pheidippides.Cookies.{Header, Headers}
use pheidippides.Http.Headers.{header_line, lines, received, into_bytes-append}
use pheidippides.Http.Builder.{header_bytes}

pub header_bytes-lines : (hs : List Header) → header_bytes hs ≡ into_bytes (lines hs)
unfolding header_bytes into_bytes
header_bytes-lines [] = refl
header_bytes-lines ((key, value) ∷ hs) =
    ap (λ x. into_bytes (header_line (key, value)) ++ x) (header_bytes-lines hs)
    ∙ sym (into_bytes-append (header_line (key, value)) (lines hs))

abbrev pub or_else : Option Text → Option Text → Option Text
or_else none o = o
or_else (some v) o = some v

eq_of : (a b : Text) → (a == b) ≡ true → a ≡ b
eq_of a b h = (text_eq_iff a b).0 h

-- A key that is in lower case already.
abbrev pub IsLower : (Text → Text) → Header → Type 0
IsLower unicode h = Names.from_str unicode h.0 ≡ h.0

get-received :
    (unicode : Text → Text) (headers : Headers) (hs : List Header) (key : Text)
    → HasDistinctKeys hs
    → All (IsLower unicode) hs
    → Maps.get (received unicode headers hs) key ≡ or_else (Maps.get hs key) (Maps.get headers key)
unfolding Maps.get
get-received unicode headers [] key d a = refl
get-received unicode headers ((k, v) ∷ hs) key (n, d) (low, a) =
    rw
      (
        get-received unicode (Maps.insert headers (Names.from_str unicode k) v) hs key d a,
        low,
        get-insert headers k key v,
      )
      (elim (Bool-cases (k == key)) [
        | inl same ↦
            rw (same, get_absent hs key (subst (λ j. IsAbsent j hs) (eq_of k key same) n)) refl
        | inr other ↦ rw other refl
      ])

-- What holds of each entry that a map has holds of all that are visited.
pub All-get :
    (P : Header → Type 0) (hs : List Header)
    → HasDistinctKeys hs
    → ((key value : Text) → Maps.get hs key ≡ some value → P (key, value))
    → All P hs
unfolding Maps.get
All-get P [] d h = tt
All-get P ((k, v) ∷ hs) (n, d) h = (
  h k v (rw (==_refl k) refl),
  All-get P hs d (λ key value e. h key value (elim (Bool-cases (k == key)) [
    | inl same ↦
        let missed = get_absent hs key (subst (λ j. IsAbsent j hs) (eq_of k key same) n) in
        cc (missed, e)
    | inr other ↦ rw other e
  ])),
)

pub get-All :
    (P : Header → Type 0) (hs : Headers) (key value : Text)
    → All P hs
    → Maps.get hs key ≡ some value
    → P (key, value)
unfolding Maps.get
get-All P [] key value a h = cc
get-All P ((k, v) ∷ hs) key value (x, a) h = elim (Bool-cases (k == key)) [
  | inl same ↦ let pair : (k, v) ≡ (key, value) = ground (arith, eq_of k key same) in subst P pair x
  | inr other ↦ get-All P hs key value a (rw other at h)
]

pub All-insert :
    (P : Header → Type 0) (m : Headers) (key value : Text)
    → P (key, value)
    → All P m
    → All P (Maps.insert m key value)
unfolding Maps.insert
All-insert P [] key value p a = (p, tt)
All-insert P ((k, v) ∷ m) key value p (x, a) = elim (Bool-cases (k == key)) [
  | inl same ↦ rw same (p, a)
  | inr other ↦ rw other (x, All-insert P m key value p a)
]

or_else-none : (o : Option Text) → or_else o none ≡ o
or_else-none none = refl
or_else-none (some v) = refl

pub get-received_new :
    (unicode : Text → Text) (hs : List Header) (key : Text)
    → HasDistinctKeys hs
    → All (IsLower unicode) hs
    → Maps.get (received unicode [] hs) key ≡ Maps.get hs key
get-received_new unicode hs key d a =
    get-received unicode [] hs key d a ∙ (unfold Maps.get in or_else-none (Maps.get hs key))
