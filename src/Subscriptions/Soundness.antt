-- ===== src/Subscriptions/Soundness.antt =====
-- lib/pheidippides-messenger/src/subscriptions_handler.rs: each operation keeps one entry for each
-- user, and the lock as it was.
use pheidippides.Prelude.{
  List, [], ◌∷◌, Option, none, some, Bool, false, ◌==◌, eq_nat, Bool-cases, Option-cases,
  Result-cases, inl, inr, ◌⊎◌, Result, ok, err, ◌≡◌, refl, arith, subst, sym,
}
use pheidippides.Prelude.Maps
use pheidippides.Prelude.Maps.{HasDistinctKeys, IsAbsent, insert-HasDistinctKeys, only_if}
use pheidippides.Types.{UserId, MessageId, Message}
use pheidippides.DataAccess.{DataAccess}
use pheidippides.Subscriptions.{
  Broadcast, Subscribers, Handler, send_to, send_to_both, handle_new_message, cleanup,
  open_subscription, drop_subscription, dropped, start, begin, subscribe_new_messages,
}

module _ {Sender Receiver : Type 0} (broadcast : Broadcast Sender Receiver) where
  -- The lock is not poisoned, and no user has two entries.
  pub record IsSound {B : Type 0} (h : Handler B Sender) : Type 0 where
    pub up : h.new_messages.poisoned ≡ false
    pub keys : HasDistinctKeys h.new_messages.inner

  send_to_changes :
      (D : Type 0) (u : UserId) (m : Message) (subscribers : Subscribers Sender)
      → ((send_to broadcast {D = D} u m subscribers).1 ≡ subscribers)
        ⊎ ((t : Sender) × ((send_to broadcast {D = D} u m subscribers).1
              ≡ Maps.insert subscribers u t))
  unfolding send_to
  send_to_changes D u m subscribers = elim (Option-cases (Maps.get subscribers u)) [
    | inl e ↦ inl (ground arith)
    | inr (s, e) ↦ elim (Option-cases (broadcast.send s m)) [
      | inl f ↦ inl (ground arith)
      | inr (t, f) ↦ inr (t, ground arith)
    ]
  ]

  send_to-HasDistinctKeys :
      (D : Type 0) (u : UserId) (m : Message) (subscribers : Subscribers Sender)
      → HasDistinctKeys subscribers
      → HasDistinctKeys (send_to broadcast {D = D} u m subscribers).1
  send_to-HasDistinctKeys D u m subscribers k = elim (send_to_changes D u m subscribers) [
    | inl same ↦ subst (λ x. HasDistinctKeys x) (sym same) k
    | inr (t, same) ↦
        subst (λ x. HasDistinctKeys x) (sym same) (insert-HasDistinctKeys subscribers u t k)
  ]

  send_to_both_changes :
      (D : Type 0) (m : Message) (subscribers : Subscribers Sender)
      → let mid = (send_to broadcast {D = D} m.from m subscribers).1 in
        ((send_to_both broadcast {D = D} m subscribers).1 ≡ mid)
        ⊎ ((send_to_both broadcast {D = D} m subscribers).1
            ≡ (send_to broadcast {D = D} m.to m mid).1)
  unfolding send_to_both
  send_to_both_changes D m subscribers =
      elim (Result-cases (send_to broadcast {D = D} m.from m subscribers).0) [
        | inr (e, f) ↦ inl (ground arith)
        | inl (done, f) ↦ elim (Bool-cases (m.from == m.to)) [
          | inl self ↦ inl (ground arith)
          | inr other ↦ inr (ground arith)
        ]
      ]

  send_to_both-HasDistinctKeys :
      (D : Type 0) (m : Message) (subscribers : Subscribers Sender)
      → HasDistinctKeys subscribers
      → HasDistinctKeys (send_to_both broadcast {D = D} m subscribers).1
  send_to_both-HasDistinctKeys D m subscribers k =
      let first = send_to-HasDistinctKeys D m.from m subscribers k in
      elim (send_to_both_changes D m subscribers) [
        | inl same ↦ subst (λ x. HasDistinctKeys x) (sym same) first
        | inr same ↦
            subst (λ x. HasDistinctKeys x) (sym same) (send_to-HasDistinctKeys D m.to m _ first)
      ]

  IsAbsent-retain :
      (p : UserId → Sender → Bool) (j : UserId) (m : Subscribers Sender)
      → IsAbsent j m
      → IsAbsent j (Maps.retain p m)
  unfolding Maps.retain
  IsAbsent-retain p j [] a = tt
  IsAbsent-retain p j ((k, s) ∷ m) (n, a) = elim (Bool-cases (p k s)) [
    | inl e ↦ rw e (n, IsAbsent-retain p j m a)
    | inr e ↦ rw e (IsAbsent-retain p j m a)
  ]

  retain-HasDistinctKeys :
      (p : UserId → Sender → Bool) (m : Subscribers Sender)
      → HasDistinctKeys m
      → HasDistinctKeys (Maps.retain p m)
  unfolding Maps.retain
  retain-HasDistinctKeys p [] k = tt
  retain-HasDistinctKeys p ((j, s) ∷ m) (n, k) = elim (Bool-cases (p j s)) [
    | inl e ↦ rw e (IsAbsent-retain p j m n, retain-HasDistinctKeys p m k)
    | inr e ↦ rw e (retain-HasDistinctKeys p m k)
  ]

  pub handle_new_message-IsSound :
      {B : Type 0} (D : Type 0) (m : Message) (h : Handler B Sender)
      → IsSound h
      → IsSound (handle_new_message broadcast {B = B} {D = D} m h).1
  unfolding handle_new_message
  handle_new_message-IsSound D m h s =
      rw s.up
        (record { up = refl; keys = send_to_both-HasDistinctKeys D m h.new_messages.inner s.keys })

  pub open_subscription-IsSound :
      {B : Type 0} (D : Type 0) (u : UserId) (h : Handler B Sender)
      → IsSound h
      → IsSound (open_subscription broadcast {B = B} {D = D} u h).1
  unfolding open_subscription
  open_subscription-IsSound D u h s =
      rw s.up (record { up = refl; keys = insert-HasDistinctKeys h.new_messages.inner u _ s.keys })

  pub drop_subscription-IsSound :
      {B : Type 0} (u : UserId) (r : Receiver) (h : Handler B Sender)
      → IsSound h
      → IsSound (drop_subscription broadcast u r h)
  unfolding drop_subscription
  drop_subscription-IsSound u r h s = record {
    up = s.up;
    keys = dropped-HasDistinctKeys (Maps.get h.new_messages.inner u);
  }
    where
      dropped-HasDistinctKeys :
          (o : Option Sender) → HasDistinctKeys (dropped broadcast r o u h.new_messages.inner)
      dropped-HasDistinctKeys none = s.keys
      dropped-HasDistinctKeys (some x) =
          insert-HasDistinctKeys h.new_messages.inner u (broadcast.drop_receiver x r) s.keys

  start-IsSound :
      {B D : Type 0} (u : UserId) (r : Receiver) (res : Result D (List Message))
      (d : DataAccess B D) (h : Handler B Sender)
      → IsSound h
      → IsSound (start broadcast d u r res h).1
  start-IsSound u r (err e) d h s = drop_subscription-IsSound u r h s
  start-IsSound u r (ok messages) d h s = s

  begin-IsSound :
      {B D : Type 0} (d : DataAccess B D) (u : UserId) (from : Option MessageId) (r : Receiver)
      (h : Handler B Sender)
      → IsSound h
      → IsSound (begin broadcast d u from r h).1
  begin-IsSound d u none r h s = s
  begin-IsSound d u (some id) r h s =
      let (res, backend) = d.fetch_users_messages_since u id h.backend in
      start-IsSound u r res d (record h { backend = backend }) (record { up = s.up; keys = s.keys })

  pub subscribe-IsSound :
      {B D : Type 0} (d : DataAccess B D) (u : UserId) (from : Option MessageId)
      (h : Handler B Sender)
      → IsSound h
      → IsSound (subscribe_new_messages broadcast d u from h).1
  unfolding subscribe_new_messages
  subscribe-IsSound {B} {D} d u from h s =
      let opened = open_subscription-IsSound D u h s in
      elim (Result-cases (open_subscription broadcast {B = B} {D = D} u h).0) [
        | inl (r, e) ↦
            let same : (subscribe_new_messages broadcast d u from h).1
                ≡ (begin broadcast d u from r
                    (open_subscription broadcast {B = B} {D = D} u h).1).1 =
              ground (arith, e) in
            subst (λ (x : Handler B Sender). IsSound x) (sym same)
              (begin-IsSound d u from r _ opened)
        | inr (x, e) ↦
            let same : (subscribe_new_messages broadcast d u from h).1
                ≡ (open_subscription broadcast {B = B} {D = D} u h).1 =
              ground (arith, e) in
            subst (λ (x : Handler B Sender). IsSound x) (sym same) opened
      ]

  abbrev pub clean : {B : Type 0} → Handler B Sender → Handler B Sender
  clean h = record h { new_messages = cleanup broadcast h.new_messages }

  pub clean-IsSound : {B : Type 0} (h : Handler B Sender) → IsSound h → IsSound (clean h)
  unfolding cleanup
  clean-IsSound h s =
      rw s.up (record { up = refl; keys = retain-HasDistinctKeys _ h.new_messages.inner s.keys })
