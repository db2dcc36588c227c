-- ===== src/Tests/Tables.antt =====
-- The tables of a store in Postgres, and a server that sorts rows by insertion.
use pheidippides.Prelude.{
  ◌≤◌, ◌*◌, ◌/◌, leb, codes, List, [], ◌∷◌, Bool, true, false, All, if◌then◌else◌, Bool-cases, inl,
  inr, ◌≡◌, refl, arith, ◌==◌, eq_nat, to_lowercase,
}
use pheidippides.Prelude.Rows.{count, SameRows, IsOrdered}
use pheidippides.Types.{UserId, MessageId, Timestamp, Message}
use pheidippides.Postgres.Tables.{Db, Server, NotOlder, NotLater}
use pheidippides.Postgres.Log.{IsChronological, Represents}
use pheidippides.Tests.Base.{same_text, note, store}

-- Rows with a time, latest first or earliest first.
module _ {A : Type 0} (R : A → A → Type 0) (ahead : A → A → Bool)
    (is_ahead : (a b : A) → ahead a b ≡ true → R a b)
    (not_ahead : (a b : A) → ahead a b ≡ false → R b a)
    (further : (a b c : A) → R a b → R b c → R a c) where
  abbrev pub put : A → List A → List A
  put x [] = x ∷ []
  put x (y ∷ ys) = let rest = put x ys in if ahead x y then x ∷ y ∷ ys else y ∷ rest

  abbrev pub sort : List A → List A
  sort [] = []
  sort (x ∷ xs) = put x (sort xs)

  pub count-put : (p : A → Bool) (x : A) (ys : List A) → count p (put x ys) ≡ count p (x ∷ ys)
  count-put p x [] = refl
  count-put p x (y ∷ ys) = ground (arith, count-put p x ys)

  pub sort-SameRows : (xs : List A) → SameRows (sort xs) xs
  sort-SameRows [] p = refl
  sort-SameRows (x ∷ xs) p = omega (arith, count-put p x (sort xs), sort-SameRows xs p)

  pub All-further : (x y : A) (ys : List A) → R x y → All (R y) ys → All (R x) ys
  All-further x y [] h a = tt
  All-further x y (z ∷ ys) h (a, more) = (further x y z h a, All-further x y ys h more)

  pub All-put : (y x : A) (ys : List A) → R y x → All (R y) ys → All (R y) (put x ys)
  All-put y x [] h a = (h, tt)
  All-put y x (z ∷ ys) h (a, more) = elim (Bool-cases (ahead x z)) [
    | inl e ↦ rw e (h, (a, more))
    | inr e ↦ rw e (a, All-put y x ys h more)
  ]

  pub put-IsOrdered : (x : A) (ys : List A) → IsOrdered R ys → IsOrdered R (put x ys)
  put-IsOrdered x [] o = (tt, tt)
  put-IsOrdered x (y ∷ ys) (a, o) = elim (Bool-cases (ahead x y)) [
    | inl e ↦ rw e ((is_ahead x y e, All-further x y ys (is_ahead x y e) a), (a, o))
    | inr e ↦ rw e (All-put y x ys (not_ahead x y e) a, put-IsOrdered x ys o)
  ]

  pub sort-IsOrdered : (xs : List A) → IsOrdered R (sort xs)
  sort-IsOrdered [] = tt
  sort-IsOrdered (x ∷ xs) = put-IsOrdered x (sort xs) (sort-IsOrdered xs)

abbrev pub newer_than : Message → Message → Bool
newer_than a b = leb b.timestamp a.timestamp

abbrev pub later_than : UserId × Timestamp → UserId × Timestamp → Bool
later_than a b = leb b.1 a.1

abbrev pub Earlier : Message → Message → Type 0
Earlier a b = NotOlder b a

abbrev pub older_than : Message → Message → Bool
older_than a b = leb a.timestamp b.timestamp

pub newer_than_is : (a b : Message) → newer_than a b ≡ true → NotOlder a b
newer_than_is a b h = ground arith

pub newer_than_not : (a b : Message) → newer_than a b ≡ false → NotOlder b a
newer_than_not a b h = ground arith

pub NotOlder-trans : (a b c : Message) → NotOlder a b → NotOlder b c → NotOlder a c
NotOlder-trans a b c h k = omega (arith, h, k)

pub older_than_is : (a b : Message) → older_than a b ≡ true → Earlier a b
older_than_is a b h = ground arith

pub older_than_not : (a b : Message) → older_than a b ≡ false → Earlier b a
older_than_not a b h = ground arith

pub Earlier-trans : (a b c : Message) → Earlier a b → Earlier b c → Earlier a c
Earlier-trans a b c h k = omega (arith, h, k)

pub later_than_is : (a b : UserId × Timestamp) → later_than a b ≡ true → NotLater a b
later_than_is a b h = ground arith

pub later_than_not : (a b : UserId × Timestamp) → later_than a b ≡ false → NotLater b a
later_than_not a b h = ground arith

pub NotLater-trans : (a b c : UserId × Timestamp) → NotLater a b → NotLater b c → NotLater a c
NotLater-trans a b c h k = omega (arith, h, k)

abbrev pub server : Server
server = record {
  lower = to_lowercase same_text;
  timestamptz = λ t. t / 1000 * 1000;
  newest_first = sort NotOlder newer_than newer_than_is newer_than_not NotOlder-trans;
  oldest_first = sort Earlier older_than older_than_is older_than_not Earlier-trans;
  latest_first = sort NotLater later_than later_than_is later_than_not NotLater-trans;
  newest_rows = sort-SameRows NotOlder newer_than newer_than_is newer_than_not NotOlder-trans;
  newest_order = sort-IsOrdered NotOlder newer_than newer_than_is newer_than_not NotOlder-trans;
  oldest_rows = sort-SameRows Earlier older_than older_than_is older_than_not Earlier-trans;
  oldest_order = sort-IsOrdered Earlier older_than older_than_is older_than_not Earlier-trans;
  latest_rows = sort-SameRows NotLater later_than later_than_is later_than_not NotLater-trans;
  latest_order = sort-IsOrdered NotLater later_than later_than_is later_than_not NotLater-trans;
}

-- The messages of the log in no order.
abbrev pub tables : Db
tables = record {
  users = (2, codes "ann") ∷ (3, codes "bob") ∷ (4, codes "cat") ∷ [];
  messages = note 13 2 3 ∷ note 10 2 3 ∷ note 14 3 2 ∷ note 11 3 2 ∷ note 12 4 2 ∷ [];
  auth = (2, codes "$a") ∷ [];
}

abbrev pub log : List Message
log = note 10 2 3 ∷ note 11 3 2 ∷ note 12 4 2 ∷ note 13 2 3 ∷ note 14 3 2 ∷ []

pub log-rows : SameRows tables.messages log
log-rows p = omega arith

pub log_ids : (id : MessageId) → count (λ (m : Message). m.id == id) log ≤ 1
log_ids id = ground arith

pub log-IsChronological : IsChronological log
log-IsChronological = ground arith

pub tables-Represents : Represents tables log store
tables-Represents = record { rows = log-rows; ids = log_ids; mock_rows = refl; mock_up = refl }
