-- ===== src/Subscriptions/Delivery.antt =====
-- lib/pheidippides-messenger/src/subscriptions_handler.rs: who hears of a new message.
use mathlib.Core.List.{append-nil, append_assoc}
use pheidippides.Prelude.{
  ◌<◌, ltb, List, [], ◌∷◌, ◌++◌, Option, none, some, true, false, ◌||◌, if◌then◌else◌, ◌==◌, eq_nat,
  nat_eq_iff, Bool-cases, Option-cases, inl, inr, arith, Lock, refl, sym, ◌∙◌, ap, subst, ◌≡◌, ok,
  err,
}
use pheidippides.Prelude.Maps
use pheidippides.Prelude.Maps.{get-insert, HasDistinctKeys, only_if, get-retain}
use pheidippides.Types.{UserId, Message}
use pheidippides.Subscriptions.{
  Broadcast, could_not_send, Subscribers, Handler, send_to, send_to_both, handle_new_message,
  cleanup,
}

module _ {Sender Receiver : Type 0} (broadcast : Broadcast Sender Receiver) where
  -- Every entry of the map has a receiver.
  pub record IsLive (subscribers : Subscribers Sender) : Type 0 where
    pub heard :
        (w : UserId) (s : Sender) → Maps.get subscribers w ≡ some s → 0 < broadcast.receiver_count s

  -- An entry keeps its receivers, and each of them got `added`; no entry comes or goes.
  abbrev pub Gets : List Message → Option Sender → Option Sender → Type 0
  Gets added none after = after ≡ none
  Gets added (some s) after =
      (t : Sender) × (after ≡ some t)
      × (broadcast.receiver_count t ≡ broadcast.receiver_count s)
      × ((r : Receiver) → broadcast.log t r ≡ broadcast.log s r ++ added)

  abbrev pub only : UserId → Message → UserId → List Message
  only u m w = if u == w then m ∷ [] else []

  Gets-nil : (o : Option Sender) → Gets [] o o
  Gets-nil none = refl
  Gets-nil (some s) = (s, refl, refl, λ r. sym (append-nil _))

  Gets-append :
      (a b : List Message) (x y z : Option Sender) → Gets a x y → Gets b y z → Gets (a ++ b) x z
  Gets-append a b none none z g h = h
  Gets-append a b none (some t) z g h = cc
  Gets-append a b (some s) none z (t, e, c, l) h = cc
  Gets-append a b (some s) (some t') z (t, e, c, l) (v, e', c', l') =
      let same : t' ≡ t = cc in
      (
        v,
        e',
        c' ∙ ap broadcast.receiver_count same ∙ c,
        λ r.
            l' r
            ∙ ap (λ x. broadcast.log x r ++ b) same
            ∙ ap (λ x. x ++ b) (l r)
            ∙ append_assoc (broadcast.log s r) a b,
      )

  pub Gets-IsLive :
      (add : UserId → List Message) (before after : Subscribers Sender)
      → IsLive before
      → ((w : UserId) → Gets (add w) (Maps.get before w) (Maps.get after w))
      → IsLive after
  Gets-IsLive add before after live g = record {
    heard = λ w s found. elim (Option-cases (Maps.get before w)) [
      | inl absent ↦ let gone = subst (λ o. Gets (add w) o (Maps.get after w)) absent (g w) in cc
      | inr (s', there) ↦
          let (t, e, c, _) = subst (λ o. Gets (add w) o (Maps.get after w)) there (g w) in
          let same : s ≡ t = cc in rw (same, c) (live.heard w s' there)
    ];
  }

  send_to-heard :
      (u : UserId) (m : Message) (subscribers : Subscribers Sender) (s t : Sender) (w : UserId)
      → Maps.get subscribers u ≡ some s
      → broadcast.send s m ≡ some t
      → Gets (only u m w) (Maps.get subscribers w) (Maps.get (Maps.insert subscribers u t) w)
  send_to-heard u m subscribers s t w found sent =
      rw (get-insert subscribers u w t) (elim (Bool-cases (u == w)) [
        | inl same ↦
            let there : Maps.get subscribers w ≡ some s =
              subst (λ k. Maps.get subscribers k ≡ some s) ((nat_eq_iff u w).0 same) found in
            rw (same, there)
              (t, refl, broadcast.count-send s t m sent, λ r. broadcast.log-send s t m r sent)
        | inr other ↦ rw other (Gets-nil (Maps.get subscribers w))
      ])

  send_to-unheard :
      (u : UserId) (m : Message) (subscribers : Subscribers Sender) (w : UserId)
      → Maps.get subscribers u ≡ none
      → Gets (only u m w) (Maps.get subscribers w) (Maps.get subscribers w)
  send_to-unheard u m subscribers w absent = elim (Bool-cases (u == w)) [
    | inl same ↦
        let there : Maps.get subscribers w ≡ none =
          subst (λ k. Maps.get subscribers k ≡ none) ((nat_eq_iff u w).0 same) absent in
        rw (same, there) refl
    | inr other ↦ rw other (Gets-nil (Maps.get subscribers w))
  ]

  send_to-none :
      {D : Type 0} (u : UserId) (m : Message) (subscribers : Subscribers Sender)
      → Maps.get subscribers u ≡ none
      → send_to broadcast {D = D} u m subscribers ≡ (ok tt, subscribers)
  unfolding send_to
  send_to-none u m subscribers e = ground arith

  send_to-some :
      {D : Type 0} (u : UserId) (m : Message) (subscribers : Subscribers Sender) (s t : Sender)
      → Maps.get subscribers u ≡ some s
      → broadcast.send s m ≡ some t
      → send_to broadcast {D = D} u m subscribers ≡ (ok tt, Maps.insert subscribers u t)
  unfolding send_to
  send_to-some u m subscribers s t e f = ground arith

  -- With a live map, every receiver of `u` gets the message, and no other receiver does.
  send_to_lem :
      {D : Type 0} (u : UserId) (m : Message) (subscribers : Subscribers Sender)
      → IsLive subscribers
      → (after : Subscribers Sender) × (send_to broadcast {D = D} u m subscribers ≡ (ok tt, after))
        × ((w : UserId) → Gets (only u m w) (Maps.get subscribers w) (Maps.get after w))
  send_to_lem u m subscribers live = elim (Option-cases (Maps.get subscribers u)) [
    | inl absent ↦ (
      subscribers,
      send_to-none u m subscribers absent,
      λ w. send_to-unheard u m subscribers w absent,
    )
    | inr (s, found) ↦
        let (t, sent) = broadcast.send_heard s m (live.heard u s found) in
        (
          Maps.insert subscribers u t,
          send_to-some u m subscribers s t found sent,
          λ w. send_to-heard u m subscribers s t w found sent,
        )
  ]

  -- The sender and the receiver of a message hear of it, each once.
  abbrev pub copies : Message → UserId → List Message
  copies m w = if m.from == w || m.to == w then m ∷ [] else []

  only-only :
      (m : Message) (w : UserId)
      → (m.from == m.to) ≡ false
      → only m.from m w ++ only m.to m w ≡ copies m w
  only-only m w h = ground arith

  only_self : (m : Message) (w : UserId) → (m.from == m.to) ≡ true → only m.from m w ≡ copies m w
  only_self m w h = ground arith

  send_to_both_lem :
      {D : Type 0} (m : Message) (subscribers : Subscribers Sender)
      → IsLive subscribers
      → (after : Subscribers Sender) × (send_to_both broadcast {D = D} m subscribers
          ≡ (ok tt, after))
        × ((w : UserId) → Gets (copies m w) (Maps.get subscribers w) (Maps.get after w))
  unfolding send_to_both
  send_to_both_lem {D} m subscribers live =
      let (mid, sent, heard) = send_to_lem {D = D} m.from m subscribers live in
      elim (Bool-cases (m.from == m.to)) [
        | inl self ↦ (mid, ground arith, λ w. rw (← only_self m w self) (heard w))
        | inr other ↦
            let (after, sent', heard') =
              send_to_lem {D = D} m.to m mid
                (Gets-IsLive (only m.from m) subscribers mid live heard) in
            (
              after,
              ground arith,
              λ w. rw (← only-only m w other) (
                  Gets-append (only m.from m w) (only m.to m w) _ (Maps.get mid w) _ (heard w)
                    (heard' w)),
            )
      ]

  -- If the lock is not poisoned and every entry of the map has a receiver, a new message is announced
  -- without an error, each receiver of the message's sender and of its addressee gets it
  -- exactly once, those of all other users get nothing, no entry comes or goes, and the store
  -- is as it was.
  pub handle_new_message-heard :
      {B D : Type 0} (m : Message) (h : Handler B Sender)
      → h.new_messages.poisoned ≡ false
      → IsLive h.new_messages.inner
      → (h' : Handler B Sender) × (handle_new_message broadcast {B = B} {D = D} m h ≡ (ok tt, h'))
        × (h'.backend ≡ h.backend)
        × ((w : UserId)
            → Gets
                (copies m w)
                (Maps.get h.new_messages.inner w)
                (Maps.get h'.new_messages.inner w))
  unfolding handle_new_message
  handle_new_message-heard {D} m h up live =
      let (after, sent, heard) = send_to_both_lem {D = D} m h.new_messages.inner live in
      (
        record h { new_messages = record h.new_messages { inner = after } },
        ground arith,
        refl,
        heard,
      )

  -- If the lock is not poisoned and the message's sender has an entry with no receiver, the
  -- announcement fails and changes nothing: the addressee's receivers get nothing either.
  pub handle_new_message_stale :
      {B D : Type 0} (m : Message) (h : Handler B Sender) (s : Sender)
      → h.new_messages.poisoned ≡ false
      → Maps.get h.new_messages.inner m.from ≡ some s
      → broadcast.receiver_count s ≡ 0
      → handle_new_message broadcast {B = B} {D = D} m h ≡ (err (could_not_send m.from), h)
  unfolding handle_new_message send_to_both send_to
  handle_new_message_stale m h s up found none_left =
      ground (arith, broadcast.send_unheard s m none_left)

  only_if-heard :
      (o : Option Sender) (s : Sender)
      → only_if (λ s'. ltb 0 (broadcast.receiver_count s')) o ≡ some s
      → 0 < broadcast.receiver_count s
  only_if-heard none s h = cc
  only_if-heard (some s') s h = ground arith

  -- If the lock is not poisoned and no user has two entries, one round of the cleanup job keeps
  -- each entry that has a receiver, drops each other one, and leaves a map in which
  -- every entry has a receiver.
  pub cleanup_lem :
      (lock : Lock (Subscribers Sender))
      → lock.poisoned ≡ false
      → HasDistinctKeys lock.inner
      → ((w : UserId)
          → Maps.get (cleanup broadcast lock).inner w
            ≡ only_if (λ s. ltb 0 (broadcast.receiver_count s)) (Maps.get lock.inner w))
        × IsLive (cleanup broadcast lock).inner
  unfolding cleanup
  cleanup_lem lock up d =
      let kept : (w : UserId)
          → Maps.get (cleanup broadcast lock).inner w
            ≡ only_if (λ s. ltb 0 (broadcast.receiver_count s)) (Maps.get lock.inner w) =
        λ w. rw up (get-retain (λ s. ltb 0 (broadcast.receiver_count s)) lock.inner w d) in
      (
        kept,
        record {
          heard = λ w s found. only_if-heard (Maps.get lock.inner w) s (sym (kept w) ∙ found);
        },
      )
