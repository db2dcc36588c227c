-- ===== src/Prelude/Maps.antt =====
-- `std::collections::HashMap`, as an association list with one entry for each key.
use mathlib.Core.Bool.{Bool}
use mathlib.Core.Path.{◌≡◌, refl, subst}
use mathlib.Core.Logic.{◌≢◌, inl, inr}
use mathlib.Core.Option.{Option, none, some}
use mathlib.Core.List.{List, [], ◌∷◌}
use native.Mathlib.Omega.{arith}
use pheidippides.Prelude.Tests.{Bool-cases, if◌then◌else◌}
use pheidippides.Prelude.Lists.{All}
use pheidippides.Prelude.Equality.{PartialEq, ◌==◌, ==_refl}

abbrev pub HashMap {ℓ} : Type ℓ → Type ℓ → Type ℓ
HashMap K V = List (K × V)

-- `Option::filter`.
abbrev pub only_if {ℓ} : {V : Type ℓ} → (V → Bool) → Option V → Option V
only_if p none = none
only_if p (some v) = if p v then some v else none

module _ {ℓ} {K V : Type ℓ} ⦃e : PartialEq K⦄ where
  unfoldable pub get : HashMap K V → K → Option V
  get [] k = none
  get ((j, v) ∷ m) k = if j == k then some v else get m k

  unfoldable pub insert : HashMap K V → K → V → HashMap K V
  insert [] k v = (k, v) ∷ []
  insert ((j, w) ∷ m) k v = if j == k then (k, v) ∷ m else (j, w) ∷ insert m k v

  unfoldable pub remove : HashMap K V → K → HashMap K V
  remove [] k = []
  remove ((j, w) ∷ m) k = let rest = remove m k in if j == k then rest else (j, w) ∷ rest

  -- `retain`.
  unfoldable pub retain : (K → V → Bool) → HashMap K V → HashMap K V
  retain p [] = []
  retain p ((j, w) ∷ m) = let rest = retain p m in if p j w then (j, w) ∷ rest else rest

  pub get-insert :
      (m : HashMap K V) (k j : K) (v : V)
      → get (insert m k v) j ≡ (if k == j then some v else get m j)
  unfolding get insert
  get-insert [] k j v = refl
  get-insert ((i, w) ∷ m) k j v =
      ground (arith, e.eq_iff k j, e.eq_iff i k, e.eq_iff i j, get-insert m k j v)

  pub get-remove :
      (m : HashMap K V) (k j : K) → get (remove m k) j ≡ (if k == j then none else get m j)
  unfolding get remove
  get-remove [] k j = ground arith
  get-remove ((i, w) ∷ m) k j =
      ground (arith, e.eq_iff k j, e.eq_iff i k, e.eq_iff i j, get-remove m k j)

  pub get-insert_self : (m : HashMap K V) (k : K) (v : V) → get (insert m k v) k ≡ some v
  get-insert_self m k v = simp (get-insert, ==_refl)

  pub get-remove_self : (m : HashMap K V) (k : K) → get (remove m k) k ≡ none
  get-remove_self m k = simp (get-remove, ==_refl)

  -- The key stands in no entry.
  abbrev pub IsAbsent : K → HashMap K V → Type ℓ
  IsAbsent k m = All (λ (x : K × V). x.0 ≢ k) m

  -- Each key stands in one entry.
  abbrev pub HasDistinctKeys : HashMap K V → Type ℓ
  HasDistinctKeys [] = Unit
  HasDistinctKeys ((k, _) ∷ m) = IsAbsent k m × HasDistinctKeys m

  IsAbsent-insert :
      (m : HashMap K V) (k j : K) (v : V) → j ≢ k → IsAbsent j m → IsAbsent j (insert m k v)
  unfolding insert
  IsAbsent-insert [] k j v n h = (λ p. n (ground arith), tt)
  IsAbsent-insert ((i, w) ∷ m) k j v n (p, h) =
      ground (arith, IsAbsent-insert m k j v n h, e.eq_iff i k)

  pub insert-HasDistinctKeys :
      (m : HashMap K V) (k : K) (v : V) → HasDistinctKeys m → HasDistinctKeys (insert m k v)
  unfolding insert
  insert-HasDistinctKeys [] k v h = (tt, tt)
  insert-HasDistinctKeys ((j, w) ∷ m) k v (a, h) = elim (Bool-cases (j == k)) [
    | inl same ↦ rw same (subst (λ i. IsAbsent i m) ((e.eq_iff j k).0 same) a, h)
    | inr other ↦ rw other (
      IsAbsent-insert m k j v (λ p. cc (other, (e.eq_iff j k).1 p)) a,
      insert-HasDistinctKeys m k v h,
    )
  ]

  pub get_absent : (m : HashMap K V) (k : K) → IsAbsent k m → get m k ≡ none
  unfolding get
  get_absent [] k h = refl
  get_absent ((j, w) ∷ m) k (n, h) = ground (arith, get_absent m k h, e.eq_iff j k)

  pub get-retain :
      (p : V → Bool) (m : HashMap K V) (k : K)
      → HasDistinctKeys m
      → get (retain (λ _ v. p v) m) k ≡ only_if p (get m k)
  unfolding get retain
  get-retain p [] k d = refl
  get-retain p ((j, w) ∷ m) k (a, d) =
      ground (arith, get-retain p m k d, get_absent m j a, e.eq_iff j k)
