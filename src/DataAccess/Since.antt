-- ===== src/DataAccess/Since.antt =====
-- lib/pheidippides-messenger/src/data_access.rs: the messages that a user has missed, for a log that
-- grows.
use pheidippides.Prelude.{
  ℕ, zero, suc, Bool, List, [], ◌∷◌, ◌++◌, ◌==◌, eq_nat, keep, drop, skip_while, All, All-keep,
  IsUnique, IsUnique-keep, Bool-cases, inl, inr,
}
use pheidippides.Types.{UserId, MessageId, Message}
use pheidippides.DataAccess.Laws.{concerns, since}

module _ {ℓ} (P : Message → Type ℓ) where
  All-drop : (n : ℕ) (xs : List Message) → All P xs → All P (drop n xs)
  All-drop zero xs a = a
  All-drop (suc n) [] a = tt
  All-drop (suc n) (x ∷ xs) (_, a) = All-drop n xs a

  All-skip_while : (p : Message → Bool) (xs : List Message) → All P xs → All P (skip_while p xs)
  All-skip_while p [] a = tt
  All-skip_while p (x ∷ xs) (h, a) = elim (Bool-cases (p x)) [
    | inl e ↦ rw e (All-skip_while p xs a)
    | inr e ↦ rw e (h, a)
  ]

  pub All-since :
      (u : UserId) (start : MessageId) (log : List Message) → All P log → All P (since u start log)
  All-since u start log a =
      All-keep (λ (m : Message). m.id) P (concerns u) _ (All-drop 1 _ (All-skip_while _ log a))

  keep_tail :
      (u : UserId) (x : Message) (xs : List Message)
      → All P (keep (concerns u) (x ∷ xs))
      → All P (keep (concerns u) xs)
  keep_tail u x xs a = elim (Bool-cases (concerns u x)) [
    | inl e ↦ (rw e at a).1
    | inr e ↦ rw e at a
  ]

  since-kept :
      (u : UserId) (start : MessageId) (log : List Message)
      → All P (keep (concerns u) log)
      → All P (since u start log)
  since-kept u start [] a = tt
  since-kept u start (x ∷ log) a = elim (Bool-cases (x.id == start)) [
    | inl found ↦ rw found (keep_tail u x log a)
    | inr other ↦ rw other (since-kept u start log (keep_tail u x log a))
  ]

  keep_both :
      (p : Message → Bool) (xs ys : List Message)
      → All P (keep p xs)
      → All P (keep p ys)
      → All P (keep p (xs ++ ys))
  keep_both p [] ys a b = b
  keep_both p (x ∷ xs) ys a b = elim (Bool-cases (p x)) [
    | inl e ↦ rw e ((rw e at a).0, keep_both p xs ys (rw e at a).1 b)
    | inr e ↦ rw e (keep_both p xs ys (rw e at a) b)
  ]

  -- What is stored later adds to what a user has missed at most the later messages of the user.
  pub since-later :
      (u : UserId) (start : MessageId) (old new : List Message)
      → All P (since u start old)
      → All P (keep (concerns u) new)
      → All P (since u start (old ++ new))
  since-later u start [] [] a b = tt
  since-later u start [] (x ∷ new) a b = since-kept u start (x ∷ new) b
  since-later u start (x ∷ old) new a b = elim (Bool-cases (x.id == start)) [
    | inl found ↦ rw found (keep_both (concerns u) old new (rw found at a) b)
    | inr other ↦ rw other (since-later u start old new (rw other at a) b)
  ]

module _ {K : Type 0} (key : Message → K) where
  IsUnique-drop : (n : ℕ) (xs : List Message) → IsUnique key xs → IsUnique key (drop n xs)
  IsUnique-drop zero xs a = a
  IsUnique-drop (suc n) [] a = tt
  IsUnique-drop (suc n) (x ∷ xs) (_, a) = IsUnique-drop n xs a

  IsUnique-skip_while :
      (p : Message → Bool) (xs : List Message) → IsUnique key xs → IsUnique key (skip_while p xs)
  IsUnique-skip_while p [] a = tt
  IsUnique-skip_while p (x ∷ xs) (h, a) = elim (Bool-cases (p x)) [
    | inl e ↦ rw e (IsUnique-skip_while p xs a)
    | inr e ↦ rw e (h, a)
  ]

  pub IsUnique-since :
      (u : UserId) (start : MessageId) (log : List Message)
      → IsUnique key log
      → IsUnique key (since u start log)
  IsUnique-since u start log a =
      IsUnique-keep key (concerns u) _ (IsUnique-drop 1 _ (IsUnique-skip_while _ log a))
