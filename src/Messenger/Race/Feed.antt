-- ===== src/Messenger/Race/Feed.antt =====
-- lib/pheidippides-messenger/src/messenger.rs and subscriptions_handler.rs: what a receiver has
-- heard while senders are at work, as lists: what it heard, what waits to be announced, what is
-- stored, and what was stored since some point.
use mathlib.Core.List.{append-nil}
use pheidippides.Prelude.{
  List, [], ◌∷◌, ◌++◌, true, false, not, ◌||◌, ◌==◌, if◌then◌else◌, eq_nat, any, any-append, All,
  All-append, All-map, IsUnique, IsNew, IsUnique-append, ◌≡◌, subst, arith, Bool-cases, inl, inr,
  ==_refl,
}
use pheidippides.Types.{UserId, Message, eq_message}
use pheidippides.DataAccess.Laws.{concerns}
use pheidippides.Messenger.Race.Apart.{
  IsStored, AreApart, stored_later, IsNew-of_stored, apart_cons, apart_middle,
}

-- The message waits to be announced, is none of the user's, or was heard.
abbrev pub IsCovered : UserId → List Message → List Message → Message → Type 0
IsCovered u heard pending x =
    (any (λ p. p == x) pending || (not (concerns u x) || any (λ y. y == x) heard)) ≡ true

pub record Hears (u : UserId) (heard pending log new : List Message) : Type 0 where
  pub once : IsUnique {A = Message} (λ x. x.id) heard
  pub apart : AreApart heard pending
  pub stored : All (IsStored log) heard
  pub theirs : All (λ m. concerns u m ≡ true) heard
  pub covered : All (IsCovered u heard pending) new

pub Hears-nil : (u : UserId) (pending log : List Message) → Hears u [] pending log []
Hears-nil u pending log = record { once = tt; apart = tt; stored = tt; theirs = tt; covered = tt }

-- What was covered before no longer counts.
pub Hears-again :
    {u : UserId} {heard pending log new : List Message}
    → Hears u heard pending log new
    → Hears u heard pending log []
Hears-again h = record {
  once = h.once;
  apart = h.apart;
  stored = h.stored;
  theirs = h.theirs;
  covered = tt;
}

IsCovered-last :
    (u : UserId) (heard pending : List Message) (m : Message) → IsCovered u heard (m ∷ pending) m
IsCovered-last u heard pending m = ground (arith, ==_refl m)

pub Hears-stores :
    {u : UserId} {heard pending log new : List Message} (m : Message)
    → IsNew {A = Message} (λ x. x.id) m.id log
    → Hears u heard pending log new
    → Hears u heard (m ∷ pending) (log ++ m ∷ []) (new ++ m ∷ [])
Hears-stores {u} {heard} {pending} {log} {new} m fresh h = record {
  once = h.once;
  apart = apart_cons m heard pending (IsNew-of_stored m.id log heard fresh h.stored) h.apart;
  stored = All-map _ _ heard (λ x s. stored_later log m x s) h.stored;
  theirs = h.theirs;
  covered =
      All-append (IsCovered u heard (m ∷ pending)) new (m ∷ [])
        (All-map _ _ new (λ x c. ground (arith)) h.covered) (IsCovered-last u heard pending m, tt);
}

IsCovered-heard :
    (u : UserId) (heard before : List Message) (m : Message) (after : List Message) (x : Message)
    → IsCovered u heard (before ++ m ∷ after) x
    → IsCovered u (heard ++ m ∷ []) (before ++ after) x
IsCovered-heard u heard before m after x c = ground (
  arith,
  any-append (λ p. p == x) before (m ∷ after),
  any-append (λ p. p == x) before after,
  any-append (λ p. p == x) heard (m ∷ []),
)

IsCovered-other :
    (u : UserId) (heard before : List Message) (m : Message) (after : List Message) (x : Message)
    → concerns u m ≡ false
    → IsCovered u heard (before ++ m ∷ after) x
    → IsCovered u heard (before ++ after) x
IsCovered-other u heard before m after x other c = elim (Bool-cases (m == x)) [
  | inl same ↦
      let theirs : concerns u x ≡ false =
        subst (λ y. concerns u y ≡ false) ((eq_message.eq_iff m x).0 same) other in
      ground arith
  | inr differs ↦
      ground
        (arith, any-append (λ p. p == x) before (m ∷ after), any-append (λ p. p == x) before after)
]

pub Hears-announces :
    {u : UserId} {heard log new : List Message} (before : List Message) (m : Message)
    (after : List Message)
    → IsStored log m
    → IsNew {A = Message} (λ x. x.id) m.id (before ++ after)
    → Hears u heard (before ++ m ∷ after) log new
    → Hears u (heard ++ (if m.from == u || m.to == u then m ∷ [] else [])) (before ++ after) log new
Hears-announces {u} {heard} {log} {new} before m after there fresh_here h =
    let (fresh, rest) = apart_middle heard before m after h.apart in
    elim (Bool-cases (concerns u m)) [
      | inl concerned ↦ rw concerned (record {
        once = IsUnique-append _ heard m h.once fresh;
        apart = All-append _ heard (m ∷ []) rest (fresh_here, tt);
        stored = All-append _ heard (m ∷ []) h.stored (there, tt);
        theirs = All-append _ heard (m ∷ []) h.theirs (concerned, tt);
        covered = All-map _ _ new (λ x c. IsCovered-heard u heard before m after x c) h.covered;
      })
      | inr other ↦
          rw (other, append-nil heard)
            (record {
              once = h.once;
              apart = rest;
              stored = h.stored;
              theirs = h.theirs;
              covered =
                  All-map _ _ new (λ x c. IsCovered-other u heard before m after x other c)
                    h.covered;
            })
    ]
