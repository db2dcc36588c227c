-- ===== src/Subscriptions/Feed.antt =====
-- lib/pheidippides-messenger/src/subscriptions_handler.rs: what a new subscription is, and what
-- arrives at its receiver.
use pheidippides.Prelude.{
  ◌<◌, List, [], ◌∷◌, ◌++◌, map, Option, none, some, false, not, ◌||◌, ◌&&◌, any-append,
  IsNew-of_any, IsUnique-keep, IsUnique-join, ◌==◌, eq_nat, nat_eq_iff, ==_ne, any, keep,
  filter_map, All, IsUnique, IsNew, Bool-cases, Result-cases, inl, inr, arith, refl, ◌∙◌, ap, ◌≡◌,
  ◌≢◌, ok, err, Result,
}
use pheidippides.Prelude.Maps
use pheidippides.Prelude.Maps.{get-insert, get-insert_self}
use pheidippides.Types.{UserId, MessageId, Message}
use pheidippides.DataAccess.{DataAccess}
use pheidippides.AsyncUtils.{received, RecvError, Turn, redirect_unbounded_channel}
use pheidippides.AsyncUtils.Laws.{arrived, queued, pipe_broadcast-err}
use pheidippides.Subscriptions.{
  Broadcast, Handler, Subscription, entry_or_channel, subscribe_new_messages, unless_sent,
  delivered,
}

abbrev ids : List Message → List MessageId
ids ms = map (λ (m : Message). m.id) ms

-- The messages that are not among those already sent.
abbrev pub unsent : List Message → List Message → List Message
unsent sent ms = keep (λ m. not (any (λ (s : Message). s.id == m.id) sent)) ms

any-ids :
    (sent : List Message) (i : MessageId)
    → any (λ id. id == i) (ids sent) ≡ any (λ (s : Message). s.id == i) sent
any-ids [] i = refl
any-ids (s ∷ sent) i = ground (arith, any-ids sent i)

filter_map-unsent :
    (sent ms : List Message) → filter_map (unless_sent (ids sent)) ms ≡ unsent sent ms
unfolding unless_sent
filter_map-unsent sent [] = refl
filter_map-unsent sent (m ∷ ms) = ground (arith, filter_map-unsent sent ms, any-ids sent m.id)

redirect-queued : {T : Type 0} (ms : List T) → redirect_unbounded_channel (queued ms) ≡ ms
unfolding redirect_unbounded_channel
redirect-queued [] = refl
redirect-queued (m ∷ ms) = ground (arith, redirect-queued ms)

module _ {Receiver : Type 0} (r : Receiver) (previous live : List Message)
    (rest : List (Turn (Result RecvError Message))) (e : RecvError) where
  abbrev pub resumed : Subscription Receiver
  resumed = record {
    subscription = r;
    previous_messages = previous;
    sent_messages = some (ids previous);
  }

  -- A feed that resumes from a message delivers what the store holds since then, and after that
  -- each live message that was not among those, in order, until the channel fails.
  pub delivered-resumed :
      delivered resumed (arrived live ++ received (err e) ∷ rest) ≡ previous ++ unsent previous live
  unfolding delivered
  delivered-resumed = rw (pipe_broadcast-err (unless_sent (ids previous)) live e rest) (
      ap (λ l. previous ++ l)
        (redirect-queued (filter_map (unless_sent (ids previous)) live)
          ∙ filter_map-unsent previous live))

any-unsent :
    (sent ms : List Message) (i : MessageId)
    → any (λ (m : Message). m.id == i) (unsent sent ms)
      ≡ (not (any (λ (s : Message). s.id == i) sent) && any (λ (m : Message). m.id == i) ms)
any-unsent sent [] i = ground arith
any-unsent sent (m ∷ ms) i = elim (Bool-cases (m.id == i)) [
  | inl same ↦ ground (
    arith,
    any-unsent sent ms i,
    ap (λ k. any (λ (s : Message). s.id == k) sent) ((nat_eq_iff m.id i).0 same),
  )
  | inr other ↦ ground (arith, any-unsent sent ms i)
]

unsent-IsNew :
    (sent ms : List Message)
    → All (λ (m : Message). IsNew {A = Message} (λ s. s.id) m.id sent) (unsent sent ms)
unsent-IsNew sent [] = tt
unsent-IsNew sent (m ∷ ms) = elim (Bool-cases (any (λ (s : Message). s.id == m.id) sent)) [
  | inl old ↦ rw old (unsent-IsNew sent ms)
  | inr new ↦ rw new (IsNew-of_any {A = Message} (λ s. s.id) m.id sent new, unsent-IsNew sent ms)
]

module _ (previous live : List Message) where
  previous-unsent-IsUnique :
      IsUnique {A = Message} (λ m. m.id) previous
      → IsUnique {A = Message} (λ m. m.id) live
      → IsUnique {A = Message} (λ m. m.id) (previous ++ unsent previous live)
  previous-unsent-IsUnique u v =
      IsUnique-join _ previous (unsent previous live) u (IsUnique-keep _ _ live v)
        (unsent-IsNew previous live)

  any-previous-unsent :
      (i : MessageId)
      → any (λ (m : Message). m.id == i) (previous ++ unsent previous live)
        ≡ (any (λ (m : Message). m.id == i) previous || any (λ (m : Message). m.id == i) live)
  any-previous-unsent i = ground (
    arith,
    any-append (λ (m : Message). m.id == i) previous (unsent previous live),
    any-unsent previous live i,
  )

module _ {Receiver : Type 0} (r : Receiver) (previous live : List Message)
    (rest : List (Turn (Result RecvError Message))) (e : RecvError) where
  -- If the store and the channel each name a message once, a feed that resumes from a message
  -- delivers no message twice, up to the first failure of the channel.
  pub delivered-IsUnique :
      IsUnique {A = Message} (λ m. m.id) previous
      → IsUnique {A = Message} (λ m. m.id) live
      → IsUnique {A = Message}
          (λ m. m.id)
          (delivered (resumed r previous live rest e) (arrived live ++ received (err e) ∷ rest))
  delivered-IsUnique u v =
      rw (delivered-resumed r previous live rest e) (previous-unsent-IsUnique previous live u v)

  -- A feed that resumes from a message delivers exactly the ids of the messages that the store
  -- holds or that arrive live before the first failure of the channel: none is lost.
  pub any-delivered :
      (i : MessageId)
      → any
          (λ (m : Message). m.id == i)
          (delivered (resumed r previous live rest e) (arrived live ++ received (err e) ∷ rest))
        ≡ (any (λ (m : Message). m.id == i) previous || any (λ (m : Message). m.id == i) live)
  any-delivered i =
      rw (delivered-resumed r previous live rest e) (any-previous-unsent previous live i)

module _ {Sender Receiver B D : Type 0} (broadcast : Broadcast Sender Receiver)
    (d : DataAccess B D) where
  abbrev opened : UserId → Handler B Sender → Sender × Receiver
  opened user_id h =
      broadcast.subscribe (entry_or_channel broadcast (Maps.get h.new_messages.inner user_id))

  -- If the lock is not poisoned and the store answers, a subscription that names a starting point
  -- succeeds, and it delivers the messages that the store has since then, followed by
  -- the live ones that were not among them, in order, up to the first failure of the channel.
  pub subscribe-delivered :
      (user_id : UserId) (starting_point : MessageId) (h : Handler B Sender)
      (messages : List Message) (b : B)
      → h.new_messages.poisoned ≡ false
      → d.fetch_users_messages_since user_id starting_point h.backend ≡ (ok messages, b)
      → (s : Subscription Receiver) × (h' : Handler B Sender) × (subscribe_new_messages broadcast d
            user_id
            (some starting_point)
            h
          ≡ (ok s, h'))
        × ((live : List Message) (e : RecvError) (rest : List (Turn (Result RecvError Message)))
            → delivered s (arrived live ++ received (err e) ∷ rest)
              ≡ messages ++ unsent messages live)
  unfolding subscribe_new_messages
  subscribe-delivered user_id starting_point h messages b up fetched =
      let (sender, receiver) = opened user_id h in
      (
        record {
          subscription = receiver;
          previous_messages = messages;
          sent_messages = some (ids messages);
        },
        record h {
          backend = b;
          new_messages = record h.new_messages {
            inner = Maps.insert h.new_messages.inner user_id sender;
          };
        },
        ground arith,
        λ live e rest. delivered-resumed receiver messages live rest e,
      )

  subscribe-inner :
      (user_id : UserId) (starting_point : Option MessageId) (h h' : Handler B Sender)
      (s : Subscription Receiver)
      → subscribe_new_messages broadcast d user_id starting_point h ≡ (ok s, h')
      → h'.new_messages.inner ≡ Maps.insert h.new_messages.inner user_id (opened user_id h).0
  unfolding subscribe_new_messages
  subscribe-inner user_id none h h' s done = ground arith
  subscribe-inner user_id (some starting_point) h h' s done =
      elim (Result-cases (d.fetch_users_messages_since user_id starting_point h.backend).0) [
        | inl (ms, fetched) ↦ ground arith
        | inr (e, failed) ↦ ground arith
      ]

  -- After a subscription that succeeded the user's channel has a receiver, and the entry of
  -- every other user is as it was.
  pub subscribe-IsLive :
      (user_id other : UserId) (starting_point : Option MessageId) (h h' : Handler B Sender)
      (s : Subscription Receiver)
      → subscribe_new_messages broadcast d user_id starting_point h ≡ (ok s, h')
      → user_id ≢ other
      → ((t : Sender) × (Maps.get h'.new_messages.inner user_id ≡ some t)
          × (0 < broadcast.receiver_count t))
        × (Maps.get h'.new_messages.inner other ≡ Maps.get h.new_messages.inner other)
  subscribe-IsLive user_id other starting_point h h' s done n =
      let (sender, receiver) = opened user_id h in
      rw (subscribe-inner user_id starting_point h h' s done) (
        (
          sender,
          get-insert_self h.new_messages.inner user_id sender,
          omega (
            arith,
            broadcast.count-subscribe
                (entry_or_channel broadcast (Maps.get h.new_messages.inner user_id)),
          ),
        ),
        rw (get-insert h.new_messages.inner user_id other sender, ==_ne n),
      )
