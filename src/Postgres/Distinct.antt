-- ===== src/Postgres/Distinct.antt =====
-- lib/postgres-db/src/lib.rs: two tables with one row for each id that hold the same.
use pheidippides.Prelude.{
  ◌+◌, subst, List, [], ◌∷◌, some, Bool, ◌==◌, eq_nat, ==_refl, ==_ne, ◌≡◌, refl, sym, ◌∙◌, arith,
  Bool-cases, inl, inr, if◌then◌else◌, nat_eq_iff, ap,
}
use pheidippides.Prelude.Rows.{count, SameRows}
use pheidippides.Prelude.Maps
use pheidippides.Prelude.Maps.{get_absent, get-remove, HasDistinctKeys, IsAbsent}
use pheidippides.Types.{UserId, Timestamp}
use pheidippides.Postgres.Groups.{Row}

IsAbsent-remove :
    (j k : UserId) (rows : List Row) → IsAbsent j rows → IsAbsent j (Maps.remove rows k)
unfolding Maps.remove
IsAbsent-remove j k [] a = tt
IsAbsent-remove j k ((i, t) ∷ rows) (n, a) = ground (arith, IsAbsent-remove j k rows a)

remove-HasDistinctKeys :
    (k : UserId) (rows : List Row) → HasDistinctKeys rows → HasDistinctKeys (Maps.remove rows k)
unfolding Maps.remove
remove-HasDistinctKeys k [] d = tt
remove-HasDistinctKeys k ((i, t) ∷ rows) (n, d) =
    ground (arith, IsAbsent-remove i k rows n, remove-HasDistinctKeys k rows d)

remove-IsAbsent : (k : UserId) (rows : List Row) → IsAbsent k rows → Maps.remove rows k ≡ rows
unfolding Maps.remove
remove-IsAbsent k [] a = refl
remove-IsAbsent k ((i, t) ∷ rows) (n, a) =
    rw (==_ne n) (ap (λ l. (i, t) ∷ l) (remove-IsAbsent k rows a))

count-remove :
    (p : Row → Bool) (k : UserId) (t : Timestamp) (rows : List Row)
    → HasDistinctKeys rows
    → Maps.get rows k ≡ some t
    → count p rows ≡ (if p (k, t) then 1 else 0) + count p (Maps.remove rows k)
unfolding Maps.get Maps.remove
count-remove p k t [] d h = cc
count-remove p k t ((i, v) ∷ rows) (n, d) h = elim (Bool-cases (i == k)) [
  | inl same ↦
      let here : IsAbsent k rows = subst (λ j. IsAbsent j rows) ((nat_eq_iff i k).0 same) n in
      ground (
        arith,
        ap (count p) (remove-IsAbsent k rows here),
        ap (λ j. p (j, v)) ((nat_eq_iff i k).0 same),
      )
  | inr other ↦ ground (arith, count-remove p k t rows d)
]

-- Tables with distinct ids that answer each search alike hold the same rows.
pub get-SameRows :
    (xs ys : List Row)
    → HasDistinctKeys xs
    → HasDistinctKeys ys
    → ((k : UserId) → Maps.get xs k ≡ Maps.get ys k)
    → SameRows xs ys
unfolding Maps.get
get-SameRows [] [] d e same p = refl
get-SameRows [] ((k, t) ∷ ys) d e same p = ground (arith, same k, ==_refl k)
get-SameRows ((k, t) ∷ xs) ys (n, d) e same p =
    let found : Maps.get ys k ≡ some t = ground (arith, same k, ==_refl k) in
    let rest : count p xs ≡ count p (Maps.remove ys k) =
      get-SameRows xs (Maps.remove ys k) d (remove-HasDistinctKeys k ys e)
        (λ j. elim (Bool-cases (k == j)) [
          | inl own ↦
              ap (Maps.get xs) (sym ((nat_eq_iff k j).0 own))
              ∙ get_absent xs k n
              ∙ sym (get-remove ys k j ∙ rw own refl)
          | inr other ↦ ground (arith, same j, get-remove ys k j)
        ])
        p in
    omega (arith, rest, count-remove p k t ys e found)
