-- ===== src/Postgres/Partners.antt =====
-- lib/postgres-db/src/lib.rs and lib/mock-db/src/lib.rs: the partners of a user with the time of the last
-- message, as rows, and the list that the store in memory makes of them.
use pheidippides.Prelude.{
  List, [], ◌∷◌, Option, none, some, Bool, not, ◌==◌, eq_nat, keep, filter_map, ◌≡◌, refl, arith,
  Bool-cases, inl, inr, if◌then◌else◌, nat_eq_iff,
}
use pheidippides.Prelude.Maps
use pheidippides.Prelude.Maps.{HasDistinctKeys, IsAbsent}
use pheidippides.Types.{UserId, Message, Timestamp, eq_user}
use pheidippides.Postgres.Queries.{received_from, sent_to, latest}
use pheidippides.Postgres.Groups.{Row, top, max_of}

-- The other side of a message of `u`, and when it was sent.
abbrev pub pair_of : UserId → Message → Option Row
pair_of u m =
    if m.from == u
    then some (m.to, m.timestamp)
    else if m.to == u
    then some (m.from, m.timestamp)
    else none

abbrev pub pairs : UserId → List Message → List Row
pairs u ms = filter_map (pair_of u) ms

-- The first row of each id.
abbrev pub nub : List Row → List Row
nub [] = []
nub (r ∷ rows) = r ∷ keep (λ (x : Row). not (x.0 == r.0)) (nub rows)

max_of-nil : (a : Option Timestamp) → max_of a none ≡ a
max_of-nil none = refl
max_of-nil (some a) = refl

max_both :
    (t : Timestamp) (a b : Option Timestamp)
    → some (latest (max_of a b) t) ≡ max_of (some (latest a t)) (some (latest b t))
max_both t none none = ground arith
max_both t none (some b) = ground arith
max_both t (some a) none = ground arith
max_both t (some a) (some b) = ground arith

max_left :
    (t : Timestamp) (a b : Option Timestamp)
    → some (latest (max_of a b) t) ≡ max_of (some (latest a t)) b
max_left t none none = ground arith
max_left t none (some b) = ground arith
max_left t (some a) none = ground arith
max_left t (some a) (some b) = ground arith

max_right :
    (t : Timestamp) (a b : Option Timestamp)
    → some (latest (max_of a b) t) ≡ max_of a (some (latest b t))
max_right t none none = ground arith
max_right t none (some b) = ground arith
max_right t (some a) none = ground arith
max_right t (some a) (some b) = ground arith

pub top-pairs :
    (k u : UserId) (ms : List Message)
    → top k (pairs u ms) ≡ max_of (top k (received_from u ms)) (top k (sent_to u ms))
unfolding received_from sent_to
top-pairs k u [] = refl
top-pairs k u (m ∷ ms) =
    let a = top k (received_from u ms) in
    let b = top k (sent_to u ms) in
    ground (
      arith,
      top-pairs k u ms,
      max_both m.timestamp a b,
      max_left m.timestamp a b,
      max_right m.timestamp a b,
      nat_eq_iff m.from u,
      nat_eq_iff m.to u,
      nat_eq_iff m.from k,
      nat_eq_iff m.to k,
    )

get-keep :
    (k j : UserId) (rows : List Row)
    → Maps.get (keep (λ (x : Row). not (x.0 == j)) rows) k
      ≡ (if j == k then none else Maps.get rows k)
unfolding Maps.get
get-keep k j [] = ground arith
get-keep k j ((i, t) ∷ rows) =
    ground (arith, get-keep k j rows, nat_eq_iff i j, nat_eq_iff i k, nat_eq_iff j k)

pub get-nub : (k : UserId) (rows : List Row) → Maps.get (nub rows) k ≡ Maps.get rows k
unfolding Maps.get
get-nub k [] = refl
get-nub k ((i, t) ∷ rows) = ground (arith, get-keep k i (nub rows), get-nub k rows)

keep-IsAbsent :
    (j : UserId) (rows : List Row) → IsAbsent j (keep (λ (x : Row). not (x.0 == j)) rows)
keep-IsAbsent j [] = tt
keep-IsAbsent j ((i, t) ∷ rows) = elim (Bool-cases (i == j)) [
  | inl same ↦ rw same (keep-IsAbsent j rows)
  | inr other ↦ rw other (λ p. ground (arith, (nat_eq_iff i j).1 p), keep-IsAbsent j rows)
]

kept-IsAbsent :
    (j : UserId) (q : Row → Bool) (rows : List Row) → IsAbsent j rows → IsAbsent j (keep q rows)
kept-IsAbsent j q [] a = tt
kept-IsAbsent j q (r ∷ rows) (n, a) = elim (Bool-cases (q r)) [
  | inl e ↦ rw e (n, kept-IsAbsent j q rows a)
  | inr e ↦ rw e (kept-IsAbsent j q rows a)
]

keep-HasDistinctKeys :
    (q : Row → Bool) (rows : List Row) → HasDistinctKeys rows → HasDistinctKeys (keep q rows)
keep-HasDistinctKeys q [] d = tt
keep-HasDistinctKeys q ((i, t) ∷ rows) (n, d) = elim (Bool-cases (q (i, t))) [
  | inl e ↦ rw e (kept-IsAbsent i q rows n, keep-HasDistinctKeys q rows d)
  | inr e ↦ rw e (keep-HasDistinctKeys q rows d)
]

pub nub-HasDistinctKeys : (rows : List Row) → HasDistinctKeys (nub rows)
nub-HasDistinctKeys [] = tt
nub-HasDistinctKeys ((i, t) ∷ rows) =
    (keep-IsAbsent i (nub rows), keep-HasDistinctKeys _ (nub rows) (nub-HasDistinctKeys rows))
