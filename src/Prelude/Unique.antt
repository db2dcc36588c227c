-- ===== src/Prelude/Unique.antt =====
-- Lists whose elements have distinct keys, and what follows an element that its key names.
use mathlib.Core.Path.{◌≡◌, sym, refl}
use mathlib.Core.Logic.{◌≢◌, inl, inr}
use mathlib.Core.Bool.{Bool, false, not}
use mathlib.Core.Option.{Option, some}
use mathlib.Core.List.{List, [], ◌∷◌, ◌++◌, reverse, reverse-cons}
use Prim.Native.Nat.{ℕ}
use native.Mathlib.Omega.{arith}
use pheidippides.Prelude.Tests.{Bool-cases, Option-cases, nat_eq}
use pheidippides.Prelude.Lists.{
  All, keep, All-append, All-middle, any, drop, skip_while, filter_map,
}
use pheidippides.Prelude.Equality.{PartialEq, ◌==◌, ==_ne, eq_nat}

module _ {ℓ κ} {A : Type ℓ} {K : Type κ} (key : A → K) where
  abbrev pub IsNew : K → List A → Type κ
  IsNew k xs = All (λ x. key x ≢ k) xs

  abbrev pub IsUnique : List A → Type κ
  IsUnique [] = Unit
  IsUnique (x ∷ xs) = IsNew (key x) xs × IsUnique xs

  pub IsUnique-append :
      (xs : List A) (x : A) → IsUnique xs → IsNew (key x) xs → IsUnique (xs ++ x ∷ [])
  IsUnique-append [] x u n = (tt, tt)
  IsUnique-append (y ∷ xs) x (a, u) (n, ns) = (
    All-append (λ z. key z ≢ key y) xs (x ∷ []) a (λ p. n (sym p), tt),
    IsUnique-append xs x u ns,
  )

  IsNew-reverse : (k : K) (xs : List A) → IsNew k xs → IsNew k (reverse xs)
  IsNew-reverse k [] n = tt
  IsNew-reverse k (x ∷ xs) (n, ns) =
      rw (reverse-cons x xs)
        (All-append (λ z. key z ≢ k) (reverse xs) (x ∷ []) (IsNew-reverse k xs ns) (n, tt))

  pub IsUnique-reverse : (xs : List A) → IsUnique xs → IsUnique (reverse xs)
  IsUnique-reverse [] u = tt
  IsUnique-reverse (x ∷ xs) (a, u) =
      rw (reverse-cons x xs)
        (IsUnique-append (reverse xs) x (IsUnique-reverse xs u) (IsNew-reverse (key x) xs a))

  pub IsNew-of_any :
      ⦃e : PartialEq K⦄ (k : K) (xs : List A) → any (λ x. key x == k) xs ≡ false → IsNew k xs
  IsNew-of_any k [] h = tt
  IsNew-of_any ⦃e⦄ k (x ∷ xs) h =
      (ground (arith, e.eq_iff (key x) k), IsNew-of_any k xs (ground arith))

module _ {ℓ κ} {A : Type ℓ} {B : Type κ} (f : A → Option B) (key : A → ℕ) (key' : B → ℕ)
    (same_key : (a : A) (b : B) → f a ≡ some b → key' b ≡ key a) where
  key-ne :
      (k : ℕ) (l : List A) (xs ys : List B) (m : B)
      → IsNew key k l
      → filter_map f l ≡ xs ++ m ∷ ys
      → key' m ≢ k
  key-ne k [] [] ys m n h = cc
  key-ne k [] (x ∷ xs) ys m n h = cc
  key-ne k (a ∷ l) [] ys m (n, ns) h = elim (Option-cases (f a)) [
    | inl e ↦ key-ne k l [] ys m ns (rw (e, filter_map) at h)
    | inr (b, e) ↦ ground (arith, same_key a b e)
  ]
  key-ne k (a ∷ l) (x ∷ xs) ys m (n, ns) h = elim (Option-cases (f a)) [
    | inl e ↦ key-ne k l (x ∷ xs) ys m ns (rw (e, filter_map) at h)
    | inr (b, e) ↦ key-ne k l xs ys m ns (ground (arith, same_key a b e))
  ]

  -- What `skip_while` and one more `skip` leave is what stands behind `m`, if keys are distinct.
  pub filter_map-skip :
      (l : List A) (xs ys : List B) (m : B)
      → IsUnique key l
      → filter_map f l ≡ xs ++ m ∷ ys
      → filter_map f (drop 1 (skip_while (λ a. not (nat_eq (key a) (key' m))) l)) ≡ ys
  filter_map-skip [] [] ys m u h = cc
  filter_map-skip [] (x ∷ xs) ys m u h = cc
  filter_map-skip (a ∷ l) [] ys m (n, u) h = elim (Option-cases (f a)) [
    | inl e ↦
        let other = key-ne (key a) l [] ys m n (rw (e, filter_map) at h) in
        rw (==_ne (λ p. other (sym p))) (filter_map-skip l [] ys m u (rw (e, filter_map) at h))
    | inr (b, e) ↦ ground (arith, same_key a b e)
  ]
  filter_map-skip (a ∷ l) (x ∷ xs) ys m (n, u) h = elim (Option-cases (f a)) [
    | inl e ↦
        let other = key-ne (key a) l (x ∷ xs) ys m n (rw (e, filter_map) at h) in
        ground (arith, filter_map-skip l (x ∷ xs) ys m u (rw (e, filter_map) at h))
    | inr (b, e) ↦
        let rest : filter_map f l ≡ xs ++ m ∷ ys = ground (arith, same_key a b e) in
        let other = key-ne (key a) l xs ys m n rest in
        ground (arith, filter_map-skip l xs ys m u rest)
  ]

module _ {ℓ κ} {A : Type ℓ} {K : Type κ} (key : A → K) where
  pub All-keep {μ} : (P : A → Type μ) (p : A → Bool) (xs : List A) → All P xs → All P (keep p xs)
  All-keep P p [] h = tt
  All-keep P p (x ∷ xs) (h, hs) = elim (Bool-cases (p x)) [
    | inl e ↦ rw e (h, All-keep P p xs hs)
    | inr e ↦ rw e (All-keep P p xs hs)
  ]

  pub IsUnique-keep : (p : A → Bool) (xs : List A) → IsUnique key xs → IsUnique key (keep p xs)
  IsUnique-keep p [] u = tt
  IsUnique-keep p (x ∷ xs) (n, u) = elim (Bool-cases (p x)) [
    | inl e ↦ rw e (All-keep (λ y. key y ≢ key x) p xs n, IsUnique-keep p xs u)
    | inr e ↦ rw e (IsUnique-keep p xs u)
  ]

  IsNew-join : (k : K) (xs ys : List A) → IsNew key k xs → IsNew key k ys → IsNew key k (xs ++ ys)
  IsNew-join k xs ys n m = All-append (λ z. key z ≢ k) xs ys n m

  IsNew-of_All :
      (x : A) (xs ys : List A) → All (λ y. IsNew key (key y) (x ∷ xs)) ys → IsNew key (key x) ys
  IsNew-of_All x xs [] h = tt
  IsNew-of_All x xs (y ∷ ys) ((n, _), hs) = (λ p. n (sym p), IsNew-of_All x xs ys hs)

  tail_of_All :
      (x : A) (xs ys : List A)
      → All (λ y. IsNew key (key y) (x ∷ xs)) ys
      → All (λ y. IsNew key (key y) xs) ys
  tail_of_All x xs [] h = tt
  tail_of_All x xs (y ∷ ys) ((_, n), hs) = (n, tail_of_All x xs ys hs)

  pub IsUnique-join :
      (xs ys : List A)
      → IsUnique key xs
      → IsUnique key ys
      → All (λ y. IsNew key (key y) xs) ys
      → IsUnique key (xs ++ ys)
  IsUnique-join [] ys u v n = v
  IsUnique-join (x ∷ xs) ys (a, u) v n = (
    IsNew-join (key x) xs ys a (IsNew-of_All x xs ys n),
    IsUnique-join xs ys u v (tail_of_All x xs ys n),
  )

  -- Without one of its elements.
  pub IsUnique-middle :
      (xs : List A) (x : A) (ys : List A)
      → IsUnique key (xs ++ x ∷ ys)
      → IsUnique key (xs ++ ys) × IsNew key (key x) (xs ++ ys)
  IsUnique-middle [] x ys (n, u) = (u, n)
  IsUnique-middle (z ∷ xs) x ys (n, u) =
      let (v, m) = IsUnique-middle xs x ys u in
      let (here, rest) = All-middle (λ y. key y ≢ key z) xs x ys n in
      ((rest, v), (λ p. here (sym p), m))

  pub any-IsNew :
      ⦃e : PartialEq K⦄ (k : K) (xs : List A) → IsNew key k xs → any (λ x. key x == k) xs ≡ false
  any-IsNew k [] n = refl
  any-IsNew k (x ∷ xs) (n, ns) = rw (==_ne n) (any-IsNew k xs ns)
