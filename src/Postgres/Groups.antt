-- ===== src/Postgres/Groups.antt =====
-- lib/postgres-db/src/lib.rs: what `group by` with MAX and `union` make of rows of ids and
-- timestamps, for one id.
use pheidippides.Prelude.{
  ◌≤◌, ◌<◌, ltb, List, [], ◌∷◌, Option, none, some, Bool, true, ◌==◌, eq_nat, any, All, ◌≡◌, refl,
  sym, ap, ◌∙◌, arith, Bool-cases, Option-cases, inl, inr, if◌then◌else◌, nat_eq_iff,
}
use pheidippides.Prelude.Rows.{count, SameRows, IsOrdered}
use pheidippides.Prelude.Maps
use pheidippides.Prelude.Maps.{get-insert, HasDistinctKeys, IsAbsent, insert-HasDistinctKeys}
use pheidippides.Types.{UserId, Timestamp}
use pheidippides.Postgres.Queries.{latest, group_max, same_row, union}

abbrev pub Row : Type 0
Row = UserId × Timestamp

-- The greatest timestamp of the rows of one id.
abbrev pub top : UserId → List Row → Option Timestamp
top k [] = none
top k ((id, t) ∷ rows) = if id == k then some (latest (top k rows) t) else top k rows

abbrev or_zero : Option Timestamp → Timestamp
or_zero none = 0
or_zero (some t) = t

abbrev pub max_of : Option Timestamp → Option Timestamp → Option Timestamp
max_of none b = b
max_of (some a) none = some a
max_of (some a) (some b) = some (latest (some b) a)

pub get-group_max : (k : UserId) (rows : List Row) → Maps.get (group_max rows) k ≡ top k rows
unfolding group_max
get-group_max k [] = unfold Maps.get in refl
get-group_max k ((id, t) ∷ rows) = elim (Bool-cases (id == k)) [
  | inl same ↦ ground (
    arith,
    get-insert (group_max rows) id k (latest (Maps.get (group_max rows) id) t),
    get-group_max k rows,
    (nat_eq_iff id k).0 same,
    ap (λ i. Maps.get (group_max rows) i) ((nat_eq_iff id k).0 same),
  )
  | inr other ↦ ground (
    arith,
    get-insert (group_max rows) id k (latest (Maps.get (group_max rows) id) t),
    get-group_max k rows,
  )
]

pub group_max-HasDistinctKeys : (rows : List Row) → HasDistinctKeys (group_max rows)
unfolding group_max
group_max-HasDistinctKeys [] = tt
group_max-HasDistinctKeys ((id, t) ∷ rows) =
    insert-HasDistinctKeys (group_max rows) id _ (group_max-HasDistinctKeys rows)

top-IsAbsent : (k : UserId) (rows : List Row) → IsAbsent k rows → top k rows ≡ none
top-IsAbsent k [] a = refl
top-IsAbsent k ((id, t) ∷ rows) (n, a) = ground (arith, top-IsAbsent k rows a)

-- Where each id has one row, that row is the greatest.
pub top-get : (k : UserId) (rows : List Row) → HasDistinctKeys rows → top k rows ≡ Maps.get rows k
unfolding Maps.get
top-get k [] d = refl
top-get k ((id, t) ∷ rows) (a, d) = elim (Bool-cases (id == k)) [
  | inl same ↦
      ground (arith, top-IsAbsent id rows a, ap (λ i. top i rows) ((nat_eq_iff id k).0 same))
  | inr other ↦ ground (arith, top-get k rows d)
]

latest_bound : (o : Option Timestamp) (t : Timestamp) → t ≤ latest o t
latest_bound none t = omega arith
latest_bound (some u) t = ground arith

latest_keeps : (u t : Timestamp) → u ≤ latest (some u) t
latest_keeps u t = ground arith

-- A row is not above the greatest one.
pub top_bound :
    (k : UserId) (t : Timestamp) (rows : List Row)
    → any (same_row (k, t)) rows ≡ true
    → (u : Timestamp) × (top k rows ≡ some u) × (t ≤ u)
top_bound k t [] h = cc
top_bound k t ((id, v) ∷ rows) h = elim (Bool-cases (same_row (k, t) (id, v))) [
  | inl here ↦ (
    latest (top k rows) v,
    ground (arith, nat_eq_iff k id, nat_eq_iff id k),
    ground (arith, nat_eq_iff t v, latest_bound (top k rows) v),
  )
  | inr there ↦
      let (u, e, l) = top_bound k t rows (ground arith) in
      elim (Bool-cases (id == k)) [
        | inl same ↦ (latest (top k rows) v, ground arith, ground (arith, latest_keeps u v))
        | inr other ↦ (u, ground arith, l)
      ]
]

-- The greatest timestamp is that of a row.
pub top_row :
    (k : UserId) (u : Timestamp) (rows : List Row)
    → top k rows ≡ some u
    → any (same_row (k, u)) rows ≡ true
top_row k u [] h = cc
top_row k u ((id, v) ∷ rows) h = elim (Bool-cases (id == k)) [
  | inr other ↦ ground (arith, top_row k u rows (ground arith), nat_eq_iff id k, nat_eq_iff k id)
  | inl same ↦ elim (Option-cases (top k rows)) [
    | inl e ↦ ground (arith, nat_eq_iff id k, nat_eq_iff k id)
    | inr (w, e) ↦ ground (arith, top_row k w rows e, nat_eq_iff id k, nat_eq_iff k id)
  ]
]

max_of_new :
    (t : Timestamp) (a b : Option Timestamp)
    → some (latest (max_of a b) t) ≡ max_of (some (latest a t)) b
max_of_new t none none = refl
max_of_new t none (some b) = refl
max_of_new t (some a) none = refl
max_of_new t (some a) (some b) = ground arith

max_of_old :
    (t u : Timestamp) (a b : Option Timestamp)
    → max_of a b ≡ some u
    → t ≤ u
    → max_of a b ≡ max_of (some (latest a t)) b
max_of_old t u none none h l = cc
max_of_old t u none (some b) h l = ground arith
max_of_old t u (some a) none h l = ground arith
max_of_old t u (some a) (some b) h l = ground arith

pub top-union : (k : UserId) (a b : List Row) → top k (union a b) ≡ max_of (top k a) (top k b)
unfolding union
top-union k [] b = refl
top-union k ((id, t) ∷ a) b = elim (Bool-cases (any (same_row (id, t)) (union a b))) [
  | inl old ↦ elim (Bool-cases (id == k)) [
    | inl same ↦
        let (u, e, l) = top_bound id t (union a b) old in
        let greatest : top k (union a b) ≡ some u =
          ap (λ i. top i (union a b)) (sym ((nat_eq_iff id k).0 same)) ∙ e in
        rw (old, same)
          (top-union k a b
            ∙ max_of_old t u (top k a) (top k b) (sym (top-union k a b) ∙ greatest) l)
    | inr other ↦ rw (old, other) (top-union k a b)
  ]
  | inr new ↦ elim (Bool-cases (id == k)) [
    | inl same ↦ rw (new, same, top-union k a b) (max_of_new t (top k a) (top k b))
    | inr other ↦ rw (new, other) (top-union k a b)
  ]
]

any-count {ℓ} : {A : Type ℓ} (p : A → Bool) (xs : List A) → any p xs ≡ ltb 0 (count p xs)
any-count p [] = refl
any-count p (x ∷ xs) = ground (arith, any-count p xs)

any-SameRows {ℓ} :
    {A : Type ℓ} (p : A → Bool) (xs ys : List A) → SameRows xs ys → any p xs ≡ any p ys
any-SameRows p xs ys same = any-count p xs ∙ ap (ltb 0) (same p) ∙ sym (any-count p ys)

top-le :
    (k : UserId) (xs ys : List Row) (u : Timestamp)
    → SameRows xs ys
    → top k xs ≡ some u
    → (v : Timestamp) × (top k ys ≡ some v) × (u ≤ v)
top-le k xs ys u same e =
    top_bound k u ys (sym (any-SameRows (same_row (k, u)) xs ys same) ∙ top_row k u xs e)

-- The greatest timestamp does not depend on the order of the rows.
pub top-SameRows : (k : UserId) (xs ys : List Row) → SameRows xs ys → top k xs ≡ top k ys
top-SameRows k xs ys same =
    let back : SameRows ys xs = λ p. sym (same p) in
    elim (Option-cases (top k xs)) [
      | inr (u, e) ↦
          let (v, f, l) = top-le k xs ys u same e in
          let (w, g, m) = top-le k ys xs v back f in
          e ∙ ap some (omega (arith, ap (λ o. or_zero o) (sym e ∙ g))) ∙ sym f
      | inl e ↦ elim (Option-cases (top k ys)) [
        | inl f ↦ e ∙ sym f
        | inr (v, f) ↦ let (w, g, m) = top-le k ys xs v back f in cc (e, g)
      ]
    ]

-- In rows from the latest to the earliest, the first row of an id is its greatest.
pub get-top :
    (k : UserId) (rows : List Row)
    → IsOrdered (λ a b. b.1 < a.1) rows
    → Maps.get rows k ≡ top k rows
unfolding Maps.get
get-top k [] o = refl
get-top k ((id, t) ∷ rows) (a, o) = elim (Bool-cases (id == k)) [
  | inr other ↦ ground (arith, get-top k rows o)
  | inl same ↦ elim (Option-cases (top k rows)) [
    | inl e ↦ ground arith
    | inr (u, e) ↦ ground (arith, below t k u rows a (top_row k u rows e))
  ]
]
  where
    below :
        (t : Timestamp) (k : UserId) (u : Timestamp) (rows : List Row)
        → All (λ (r : Row). r.1 < t) rows
        → any (same_row (k, u)) rows ≡ true
        → u < t
    below t k u [] a h = cc
    below t k u ((id, v) ∷ rows) (l, a) h = elim (Bool-cases (same_row (k, u) (id, v))) [
      | inl here ↦ ground (arith, nat_eq_iff u v)
      | inr there ↦ below t k u rows a (ground arith)
    ]
