-- ===== src/Messenger/Race/Delivery.antt =====
-- lib/pheidippides-messenger/src/messenger.rs and subscriptions_handler.rs: what arrives at a
-- subscription while senders are at work.
use pheidippides.Prelude.{
  Bool, List, [], ◌∷◌, ◌++◌, some, true, ◌==◌, eq_nat, map, any, any-append, keep, All, All-append,
  All-map, All-keep, IsUnique, ok, err, Result, Result-cases, ◌≡◌, refl, sym, ap, ◌∙◌, subst, arith,
  Bool-cases, inl, inr, ==_refl,
}
use pheidippides.Prelude.Maps
use pheidippides.Types.{UserId, MessageId, Message, eq_message}
use pheidippides.DataAccess.{DataAccess}
use pheidippides.DataAccess.Since.{All-since, since-later, IsUnique-since}
use pheidippides.DataAccess.Laws.{LawfulLog, concerns, since}
use pheidippides.AsyncUtils.{received, RecvError, Turn}
use pheidippides.AsyncUtils.Laws.{arrived}
use pheidippides.Subscriptions.{
  Broadcast, Handler, Subscription, open_subscription, begin, delivered,
}
use pheidippides.Subscriptions.Feed.{
  resumed, delivered-IsUnique, any-delivered, delivered-resumed, unsent,
}
use pheidippides.Messenger.Race.{Progress, Run, here, next, others}
use pheidippides.Messenger.Race.Apart.{IsStored}
use pheidippides.Messenger.Race.Invariant.{Sound}
use pheidippides.Messenger.Race.Feed.{IsCovered, Hears}
use pheidippides.Messenger.Race.Follows.{Follows-again, Run-Follows, open_subscription-Follows}

-- What a user gets names no message twice, leaves out nothing that the log has for the user after
-- the starting point, and is of the log and of the user.
pub record IsComplete (u : UserId) (start : MessageId) (log out : List Message) : Type 0 where
  pub once : IsUnique {A = Message} (λ m. m.id) out
  pub complete : All (λ x. any (λ (y : Message). y.id == x.id) out ≡ true) (since u start log)
  pub theirs : All (λ x. concerns u x ≡ true) out
  pub stored : All (IsStored log) out

all_found :
    (ms : List Message) → All (λ (x : Message). any (λ (y : Message). y.id == x.id) ms ≡ true) ms
all_found [] = tt
all_found (m ∷ ms) = (rw (==_refl m.id) refl, All-map _ _ ms (λ x h. ground (arith)) (all_found ms))

stored_before : (old new : List Message) → All (IsStored (old ++ new)) old
stored_before old new =
    All-map _ _ old (λ x h. ground (arith, any-append (λ (y : Message). y.id == x.id) old new))
      (all_found old)

kept : (p : Message → Bool) (xs : List Message) → All (λ x. p x ≡ true) (keep p xs)
kept p [] = tt
kept p (x ∷ xs) = elim (Bool-cases (p x)) [ inl e ↦ rw e (e, kept p xs) | inr e ↦ rw e (kept p xs) ]

same_id :
    (x : Message) (ms : List Message)
    → any (λ y. y == x) ms ≡ true
    → any (λ (y : Message). y.id == x.id) ms ≡ true
same_id x [] h = cc
same_id x (m ∷ ms) h = elim (Bool-cases (m == x)) [
  | inl e ↦ rw (ap (λ (y : Message). y.id) ((eq_message.eq_iff m x).0 e), ==_refl x.id) refl
  | inr e ↦ ground (arith, same_id x ms)
]

-- With nothing left to announce, what concerns the user was heard.
IsCovered-found :
    (u : UserId) (heard new : List Message)
    → All (IsCovered u heard []) new
    → All (λ x. any (λ (y : Message). y.id == x.id) heard ≡ true) (keep (concerns u) new)
IsCovered-found u heard [] a = tt
IsCovered-found u heard (x ∷ new) (c, a) = elim (Bool-cases (concerns u x)) [
  | inl theirs ↦ rw theirs (same_id x heard (rw theirs at c), IsCovered-found u heard new a)
  | inr other ↦ rw other (IsCovered-found u heard new a)
]

theirs_since :
    (u : UserId) (start : MessageId) (log : List Message)
    → All (λ x. concerns u x ≡ true) (since u start log)
theirs_since u start log = kept (concerns u) _

module _ {B D Sender Receiver : Type 0} (broadcast : Broadcast Sender Receiver) (d : DataAccess B D)
    (lawful : LawfulLog B D d) (u : UserId) (start : MessageId) (r : Receiver) where
  -- What the fetch of `subscribe_new_messages` makes of the receiver, where it succeeds.
  begin_ok :
      (h h' : Handler B Sender) (sub : Subscription Receiver)
      → begin broadcast d u (some start) r h ≡ (ok sub, h')
      → (b : B) × (h' ≡ record h { backend = b })
        × (lawful.log b ≡ lawful.log h.backend)
        × (sub ≡ record {
          subscription = r;
          previous_messages = since u start (lawful.log h.backend);
          sent_messages = some (map (λ (m : Message). m.id) (since u start (lawful.log h.backend)));
        })
  begin_ok h h' sub done =
      let fetch = d.fetch_users_messages_since u start h.backend in
      elim (Result-cases fetch.0) [
        | inl (ms, fetched) ↦
            let (there, same) =
              lawful.since-log u start h.backend fetch.1 ms (ap (λ x. (x, fetch.1)) fetched) in
            let whole = rw fetched at done in
            (
              fetch.1,
              ap (λ (x : Handler B Sender). x) (sym (ap (λ x. x.1) whole)),
              same,
              subst
                  (λ l. sub ≡ record {
                    subscription = r;
                    previous_messages = l;
                    sent_messages = some (map (λ (m : Message). m.id) l);
                  })
                  there (ground arith),
            )
        | inr (e, failed) ↦ ground arith
      ]

  -- What arrives at a receiver that resumes from a log, which then grows by `new`.
  arrives :
      (old new live : List Message) (e : RecvError) (rest : List (Turn (Result RecvError Message)))
      → IsUnique {A = Message} (λ m. m.id) old
      → Hears u live [] (old ++ new) new
      → let out =
          delivered
            (resumed r (since u start old) live rest e)
            (arrived live ++ received (err e) ∷ rest) in
        IsComplete u start (old ++ new) out
  arrives old new live e rest distinct h =
      let previous = since u start old in
      let found = any-delivered r previous live rest e in
      record {
        once =
            delivered-IsUnique r previous live rest e
              (IsUnique-since (λ m. m.id) u start old distinct) h.once;
        complete =
            since-later _ u start old new
              (All-map _ _ previous (λ x p. found x.id ∙ (ground (arith))) (all_found previous))
              (All-map _ _ (keep (concerns u) new) (λ x p. found x.id ∙ (ground (arith)))
                (IsCovered-found u live new h.covered));
        theirs = rw (delivered-resumed r previous live rest e) (
            All-append _ previous (unsent previous live) (theirs_since u start old)
              (All-keep (λ (m : Message). m.id) _ _ live h.theirs));
        stored = rw (delivered-resumed r previous live rest e) (
            All-append _ previous (unsent previous live)
              (All-since _ u start old (stored_before old new))
              (All-keep (λ (m : Message). m.id) _ _ live h.stored));
      }

  -- Between the opening of a subscription and its fetch, and again from the fetch until every
  -- stored message is announced, senders store messages with new ids and announce them, other
  -- receivers are opened, or dropped while their user keeps one, and the cleanup job runs, in any
  -- order, and the store keeps its messages in order. If at the opening every entry has a
  -- receiver and no user has two entries, the lock is not poisoned, ids are distinct and what
  -- waits to be announced is stored, then what arrives at the subscription, for all that its
  -- channel received up to a first failure, names no message twice, has each message of the user
  -- that the store holds after the starting point in the end, and has only stored messages that
  -- the user sent or is sent.
  pub delivered-Run :
      (h opened fetched : Handler B Sender) (pending : List Message) (s t : Progress B Sender)
      (sub : Subscription Receiver) (e : RecvError) (rest : List (Turn (Result RecvError Message)))
      → Sound broadcast d lawful (record { handler = h; pending = pending })
      → open_subscription broadcast {B = B} {D = D} u h ≡ (ok r, opened)
      → Run broadcast d lawful r (record { handler = opened; pending = pending }) s
      → begin broadcast d u (some start) r s.handler ≡ (ok sub, fetched)
      → Run broadcast d lawful r (record { handler = fetched; pending = s.pending }) t
      → t.pending ≡ []
      → (sender : Sender) × (Maps.get t.handler.new_messages.inner u ≡ some sender)
        × (let out = delivered sub (arrived (broadcast.log sender r) ++ received (err e) ∷ rest) in
            IsComplete u start (lawful.log t.handler.backend) out)
  delivered-Run h opened fetched pending s t sub e rest i first before answer after done =
      let old = lawful.log s.handler.backend in
      let out = λ (sender : Sender) (x : Subscription Receiver).
        delivered x (arrived (broadcast.log sender r) ++ received (err e) ∷ rest) in
      let (i1, f1) = open_subscription-Follows broadcast d lawful u r h opened pending i first in
      let (i2, f2) = Run-Follows broadcast d lawful u r (lawful.log h.backend) before i1 f1 in
      let (b, moved, same, known) = begin_ok s.handler fetched sub answer in
      let (i3, f3) =
        Run-Follows broadcast d lawful u r old (next here (others b same)) i2
          (Follows-again broadcast d lawful u r f2) in
      let (i4, f4) =
        Run-Follows broadcast d lawful u r old
          (subst (λ x. Run broadcast d lawful r (record { handler = x; pending = s.pending }) t)
            moved after)
          i3 f3 in
      (
        f4.sender,
        f4.entry,
        subst (λ l. IsComplete u start l (out f4.sender sub)) (sym f4.log)
            (subst (λ x. IsComplete u start (old ++ f4.new) (out f4.sender x)) (sym known)
              (arrives old f4.new (broadcast.log f4.sender r) e rest i2.ids (
                subst (λ p. Hears u (broadcast.log f4.sender r) p (old ++ f4.new) f4.new) done
                  (subst (λ l. Hears u (broadcast.log f4.sender r) t.pending l f4.new) f4.log
                    f4.hears)))),
      )
