-- ===== src/Prelude/Rows.antt =====
-- Tables whose rows have no order: two lists with the same rows, ordered lists, and why a list has
-- one strictly ordered arrangement.
use Prim.Native.Nat.{ℕ, ◌+◌, ◌≤◌}
use mathlib.Core.Path.{◌≡◌, refl, sym, subst, ap, ◌∙◌}
use mathlib.Core.Logic.{◌≢◌, inl, inr}
use mathlib.Core.Bool.{Bool, true, ◌&&◌}
use mathlib.Core.List.{List, [], ◌∷◌, ◌++◌, reverse, reverse-cons}
use native.Mathlib.Omega.{arith}
use pheidippides.Prelude.Tests.{if◌then◌else◌, Bool-cases}
use pheidippides.Prelude.Lists.{All, All-append, keep, first}
use pheidippides.Prelude.Equality.{PartialEq, ◌==◌, ==_refl}

module _ {ℓ} {A : Type ℓ} where
  abbrev pub count : (A → Bool) → List A → ℕ
  count p [] = 0
  count p (x ∷ xs) = (if p x then 1 else 0) + count p xs

  -- Every test holds of as many rows of one list as of the other.
  abbrev pub SameRows : List A → List A → Type ℓ
  SameRows xs ys = (p : A → Bool) → count p xs ≡ count p ys

  count-append : (p : A → Bool) (xs ys : List A) → count p (xs ++ ys) ≡ count p xs + count p ys
  count-append p [] ys = omega arith
  count-append p (x ∷ xs) ys = ground (arith, count-append p xs ys)

  pub SameRows-reverse : (xs : List A) → SameRows (reverse xs) xs
  SameRows-reverse [] p = refl
  SameRows-reverse (x ∷ xs) p =
      rw (reverse-cons x xs)
        (omega (arith, count-append p (reverse xs) (x ∷ []), SameRows-reverse xs p))

  count-keep : (p q : A → Bool) (xs : List A) → count p (keep q xs) ≡ count (λ x. q x && p x) xs
  count-keep p q [] = refl
  count-keep p q (x ∷ xs) = ground (arith, count-keep p q xs)

  count-keep_all : (p : A → Bool) (xs : List A) → count (λ _. true) (keep p xs) ≡ count p xs
  count-keep_all p [] = refl
  count-keep_all p (x ∷ xs) = ground (arith, count-keep_all p xs)

  pub SameRows-keep :
      (q : A → Bool) (xs ys : List A) → SameRows xs ys → SameRows (keep q xs) (keep q ys)
  SameRows-keep q xs ys h p = count-keep p q xs ∙ h (λ x. q x && p x) ∙ sym (count-keep p q ys)

  pub All-reverse {κ} : (P : A → Type κ) (xs : List A) → All P xs → All P (reverse xs)
  All-reverse P [] a = tt
  All-reverse P (x ∷ xs) (a, more) =
      rw (reverse-cons x xs) (All-append P (reverse xs) (x ∷ []) (All-reverse P xs more) (a, tt))

module _ {ℓ κ} {A : Type ℓ} (R : A → A → Type κ) where
  -- Each element stands in the relation to all that follow it.
  abbrev pub IsOrdered : List A → Type κ
  IsOrdered [] = Unit
  IsOrdered (x ∷ xs) = All (R x) xs × IsOrdered xs

  pub All-keep : (P : A → Type κ) (q : A → Bool) (xs : List A) → All P xs → All P (keep q xs)
  All-keep P q [] a = tt
  All-keep P q (x ∷ xs) (a, more) = elim (Bool-cases (q x)) [
    | inl e ↦ rw e (a, All-keep P q xs more)
    | inr e ↦ rw e (All-keep P q xs more)
  ]

  pub IsOrdered-keep : (q : A → Bool) (xs : List A) → IsOrdered xs → IsOrdered (keep q xs)
  IsOrdered-keep q [] o = tt
  IsOrdered-keep q (x ∷ xs) (a, o) = elim (Bool-cases (q x)) [
    | inl e ↦ rw e (All-keep (R x) q xs a, IsOrdered-keep q xs o)
    | inr e ↦ rw e (IsOrdered-keep q xs o)
  ]

module _ {ℓ κ} {A : Type ℓ} (R : A → A → Type κ) where
  abbrev Flipped : A → A → Type κ
  Flipped x y = R y x

  IsOrdered-append :
      (xs : List A) (x : A) → IsOrdered R xs → All (λ y. R y x) xs → IsOrdered R (xs ++ x ∷ [])
  IsOrdered-append [] x o a = (tt, tt)
  IsOrdered-append (y ∷ xs) x (b, o) (a, more) =
      (All-append (R y) xs (x ∷ []) b (a, tt), IsOrdered-append xs x o more)

  pub IsOrdered-reverse : (xs : List A) → IsOrdered (λ x y. R y x) xs → IsOrdered R (reverse xs)
  IsOrdered-reverse [] o = tt
  IsOrdered-reverse (x ∷ xs) (a, o) =
      rw (reverse-cons x xs)
        (IsOrdered-append (reverse xs) x (IsOrdered-reverse xs o) (All-reverse (λ y. R y x) xs a))

module _ {ℓ} {A : Type ℓ} ⦃e : PartialEq A⦄ where
  All-counted {κ} :
      (P : A → Type κ) (y : A) (xs : List A) → All P xs → count (λ x. x == y) xs ≢ 0 → P y
  All-counted P y [] a n = absurd (n refl)
  All-counted P y (x ∷ xs) (a, more) n = elim (Bool-cases (x == y)) [
    | inl same ↦ subst P ((e.eq_iff x y).0 same) a
    | inr other ↦ All-counted P y xs more (λ z. n (ground arith))
  ]

  counted_head : (x : A) (xs : List A) → count (λ z. z == x) (x ∷ xs) ≢ 0
  counted_head x xs h = ground (arith, ==_refl x)

  -- The head of either list stands at the head of the other.
  heads-eq :
      (R S : A → A → Type ℓ)
      → ((x y : A) → S x y → ¬ R y x)
      → (x y : A) (xs ys : List A) → IsOrdered S (x ∷ xs)
      → IsOrdered R (y ∷ ys)
      → SameRows (y ∷ ys) (x ∷ xs)
      → y ≡ x
  heads-eq R S clash x y xs ys (a, _) (b, _) same = elim (Bool-cases (y == x)) [
    | inl k ↦ (e.eq_iff y x).0 k
    | inr k ↦ absurd (
        clash x y
          (All-counted (S x) y xs a (λ z.
            counted_head y ys (ground (arith, same (λ w. w == y), e.eq_iff x y, e.eq_iff y x))))
          (All-counted (R y) x ys b (λ z.
            counted_head x xs (ground (arith, same (λ w. w == x), e.eq_iff x y, e.eq_iff y x)))))
  ]

  -- A list in a strict order is the only arrangement of its rows that is in order, if the order
  -- of the arrangement allows no two rows to stand the other way round.
  pub IsOrdered-eq :
      (R S : A → A → Type ℓ)
      → ((x y : A) → S x y → ¬ R y x)
      → (xs ys : List A) → IsOrdered S xs
      → IsOrdered R ys
      → SameRows ys xs
      → ys ≡ xs
  IsOrdered-eq R S clash [] [] o r same = refl
  IsOrdered-eq R S clash [] (y ∷ ys) o r same = absurd (omega (arith, same (λ _. true)))
  IsOrdered-eq R S clash (x ∷ xs) [] o r same = absurd (omega (arith, same (λ _. true)))
  IsOrdered-eq R S clash (x ∷ xs) (y ∷ ys) (a, o) (b, r) same =
      let head = heads-eq R S clash x y xs ys (a, o) (b, r) same in
      let tail = IsOrdered-eq R S clash xs ys o r (λ p. ground (arith, same p, ap p head)) in
      cc (head, tail)

  short-eq : (xs ys : List A) → SameRows xs ys → count (λ _. true) ys ≤ 1 → first xs ≡ first ys
  short-eq [] [] same one = refl
  short-eq [] (y ∷ ys) same one = absurd (omega (arith, same (λ _. true)))
  short-eq (x ∷ xs) [] same one = absurd (omega (arith, same (λ _. true)))
  short-eq (x ∷ xs) (y ∷ []) same one =
      ground (arith, same (λ w. w == x), e.eq_iff y x, counted_head x xs)
  short-eq (x ∷ xs) (y ∷ z ∷ ys) same one = absurd (omega (arith, one))

  -- Where a test holds of one row at most, a search for it finds the same row in any arrangement.
  pub first-keep-SameRows :
      (p : A → Bool) (xs ys : List A)
      → SameRows xs ys
      → count p ys ≤ 1
      → first (keep p xs) ≡ first (keep p ys)
  first-keep-SameRows p xs ys same one =
      short-eq (keep p xs) (keep p ys) (SameRows-keep p xs ys same)
        (omega (arith, count-keep_all p ys, one))
