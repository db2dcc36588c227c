-- ===== src/Postgres/Log.antt =====
-- lib/postgres-db/src/lib.rs and lib/mock-db/src/lib.rs: the log of messages, oldest first, as the view
-- that both stores represent, and what follows a message in it.
use mathlib.Core.List.{reverse-cons}
use pheidippides.Prelude.{
  ◌≤◌, ◌<◌, List, [], ◌∷◌, ◌++◌, none, some, Bool, true, false, not, ◌&&◌, ◌==◌, eq_nat, ◌≡◌, refl,
  sym, ap, subst, ◌∙◌, arith, All, All-map, any, map, reverse, filter_map, keep, skip_while, drop,
  first, Bool-cases, inl, inr,
}
use pheidippides.Prelude.Rows.{count, SameRows, IsOrdered}
use pheidippides.Types.{UserId, MessageId, Message, eq_message}
use pheidippides.MockDb
use pheidippides.MockDb.{to_record, is_not, in_chat, involving}
use pheidippides.Postgres.Tables.{Db}
use pheidippides.Postgres.Queries.{between, touches}

abbrev pub Older : Message → Message → Type 0
Older a b = a.timestamp < b.timestamp

-- The log starts with the oldest message and has no two at one instant, which neither store enforces.
abbrev pub IsChronological : List Message → Type 0
IsChronological log = IsOrdered (λ a b. Older a b) log

-- The tables of one store and of the other hold the messages of the log, no id twice, and the
-- one in memory is not poisoned.
pub record Represents (db : Db) (log : List Message) (mock : MockDb.Db) : Type 0 where
  pub rows : SameRows db.messages log
  pub ids : (id : MessageId) → count (λ (m : Message). m.id == id) log ≤ 1
  pub mock_rows : mock.messages.inner ≡ map to_record log
  pub mock_up : mock.messages.poisoned ≡ false

keep_passing {ℓ} :
    {A : Type ℓ} (q : A → Bool) (xs : List A) → All (λ x. q x ≡ true) xs → keep q xs ≡ xs
keep_passing q [] a = refl
keep_passing q (x ∷ xs) (a, more) = rw (a, keep_passing q xs more) refl

pub keep-keep {ℓ} :
    {A : Type ℓ} (p q : A → Bool) (xs : List A) → keep p (keep q xs) ≡ keep (λ x. p x && q x) xs
keep-keep p q [] = refl
keep-keep p q (x ∷ xs) = ground (arith, keep-keep p q xs)

pub All-first {ℓ κ} :
    {A : Type ℓ} (P : A → Type κ) (p : A → Bool) (xs : List A) (m : A)
    → All P xs
    → first (keep p xs) ≡ some m
    → P m
All-first P p [] m a h = cc
All-first P p (x ∷ xs) m (a, more) h = elim (Bool-cases (p x)) [
  | inl e ↦ subst P (ground arith) a
  | inr e ↦ All-first P p xs m more (ground arith)
]

-- What a search finds passes the test, and it finds nothing exactly where nothing passes.
pub first-keep {ℓ} :
    {A : Type ℓ} (p : A → Bool) (xs : List A) (m : A) → first (keep p xs) ≡ some m → p m ≡ true
first-keep p [] m h = cc
first-keep p (x ∷ xs) m h = ground (arith, first-keep p xs m)

pub any-first {ℓ} :
    {A : Type ℓ} (p : A → Bool) (xs : List A) → first (keep p xs) ≡ none → any p xs ≡ false
any-first p [] h = refl
any-first p (x ∷ xs) h = ground (arith, any-first p xs)

map-append {ℓ κ} :
    {A : Type ℓ} {B : Type κ} (f : A → B) (xs ys : List A) → map f (xs ++ ys) ≡ map f xs ++ map f ys
map-append f [] ys = refl
map-append f (x ∷ xs) ys = rw (map-append f xs ys) refl

pub reverse-map {ℓ κ} :
    {A : Type ℓ} {B : Type κ} (f : A → B) (xs : List A) → reverse (map f xs) ≡ map f (reverse xs)
reverse-map f [] = refl
reverse-map f (x ∷ xs) =
    rw
      (
        reverse-cons (f x) (map f xs),
        reverse-cons x xs,
        map-append f (reverse xs) (x ∷ []),
        reverse-map f xs,
      )
      refl

-- What follows a row of an ordered list is what stands behind it in the order.
module _ (S : Message → Message → Type 0) (q : Message → Message → Bool)
    (behind : (m x : Message) → S m x → q m x ≡ true)
    (ahead : (m x : Message) → S x m → q m x ≡ false) (itself : (m : Message) → q m m ≡ false) where
  pub skip-keep :
      (id : MessageId) (m : Message) (xs : List Message)
      → IsOrdered S xs
      → first (keep (λ (x : Message). x.id == id) xs) ≡ some m
      → drop 1 (skip_while (λ (x : Message). not (x.id == id)) xs) ≡ keep (q m) xs
  skip-keep id m [] o h = cc
  skip-keep id m (x ∷ xs) (a, o) h = elim (Bool-cases (x.id == id)) [
    | inl here ↦
        let same : m ≡ x = ground arith in
        let kept : keep (q x) (x ∷ xs) ≡ xs =
          rw (itself x) (keep_passing (q x) xs (All-map (S x) _ xs (behind x) a)) in
        rw here (sym kept ∙ ap (λ w. keep (q w) (x ∷ xs)) (sym same))
    | inr other ↦
        let later : first (keep (λ (x : Message). x.id == id) xs) ≡ some m = ground arith in
        rw (other, ahead m x (All-first (S x) _ xs m a later)) (skip-keep id m xs o later)
  ]

pub skip-none :
    (id : MessageId) (xs : List Message)
    → first (keep (λ (x : Message). x.id == id) xs) ≡ none
    → drop 1 (skip_while (λ (x : Message). not (x.id == id)) xs) ≡ []
skip-none id [] h = refl
skip-none id (x ∷ xs) h = ground (arith, skip-none id xs)

-- The rows of the store in memory, read as messages.
pub skip-map :
    (id : MessageId) (xs : List Message)
    → drop 1 (skip_while (is_not id) (map to_record xs))
      ≡ map to_record (drop 1 (skip_while (λ (x : Message). not (x.id == id)) xs))
skip-map id [] = refl
skip-map id (x ∷ xs) = ground (arith, skip-map id xs)

pub filter_map-in_chat :
    (u v : UserId) (xs : List Message)
    → filter_map (in_chat u v) (map to_record xs) ≡ keep (between u v) xs
unfolding in_chat between
filter_map-in_chat u v [] = refl
filter_map-in_chat u v (x ∷ xs) = ground (arith, filter_map-in_chat u v xs)

pub filter_map-involving :
    (u : UserId) (xs : List Message)
    → filter_map (involving u) (map to_record xs) ≡ keep (touches u) xs
unfolding involving touches
filter_map-involving u [] = refl
filter_map-involving u (x ∷ xs) = ground (arith, filter_map-involving u xs)
