-- ===== src/Messenger/Race/Invariant.antt =====
-- lib/pheidippides-messenger/src/messenger.rs and subscriptions_handler.rs: what holds at every
-- point of an interleaving of senders, for a receiver that was there from its start.
use pheidippides.Prelude.{
  Option, none, some, ◌<◌, ltb, refl, [], ◌∷◌, ◌++◌, some, false, ◌==◌, eq_nat, All, All-map,
  All-middle, IsUnique, IsUnique-append, IsUnique-middle, ok, ◌≡◌, refl, sym, ap, ◌∙◌, subst, arith,
  Bool-cases, inl, inr,
}
use pheidippides.Prelude.Maps
use pheidippides.Prelude.Maps.{get-insert, only_if}
use pheidippides.Types.{UserId, Message}
use pheidippides.DataAccess.{DataAccess}
use pheidippides.DataAccess.Laws.{LawfulLog}
use pheidippides.Subscriptions.{
  Broadcast, Handler, Subscribers, entry_or_channel, open_subscription, drop_subscription,
  handle_new_message,
}
use pheidippides.Subscriptions.Delivery.{
  IsLive, Gets, Gets-IsLive, copies, handle_new_message-heard, cleanup_lem,
}
use pheidippides.Subscriptions.Soundness.{
  IsSound, handle_new_message-IsSound, open_subscription-IsSound, drop_subscription-IsSound, clean,
  clean-IsSound,
}
use pheidippides.Messenger.Race.Apart.{IsStored, stored_later, stored_last, IsNew-of_stored}
use pheidippides.Messenger.Race.{Progress, Step, stores, announces, joins, leaves, cleans, others}

module _ {B D Sender Receiver : Type 0} (broadcast : Broadcast Sender Receiver) (d : DataAccess B D)
    (lawful : LawfulLog B D d) where
  -- Announcements succeed, ids are distinct, and what waits to be announced is stored.
  pub record Sound (s : Progress B Sender) : Type 0 where
    pub sound : IsSound broadcast s.handler
    pub live : IsLive broadcast s.handler.new_messages.inner
    pub ids : IsUnique {A = Message} (λ x. x.id) (lawful.log s.handler.backend)
    pub waiting : IsUnique {A = Message} (λ x. x.id) s.pending
    pub stored : All (IsStored (lawful.log s.handler.backend)) s.pending

  -- What an announcement leaves, in terms of the state before it.
  pub announced :
      (m : Message) (h : Handler B Sender)
      → h.new_messages.poisoned ≡ false
      → IsLive broadcast h.new_messages.inner
      → let after = (handle_new_message broadcast {B = B} {D = D} m h).1 in
        (after.backend ≡ h.backend)
        × ((w : UserId)
            → Gets broadcast
                (copies broadcast m w)
                (Maps.get h.new_messages.inner w)
                (Maps.get after.new_messages.inner w))
  announced m h up live =
      let (h', told, same, heard) =
        handle_new_message-heard broadcast {B = B} {D = D} m h up live in
      let state : (handle_new_message broadcast {B = B} {D = D} m h).1 ≡ h' = ap (λ x. x.1) told in
      (
        ap (λ (x : Handler B Sender). x.backend) state ∙ same,
        λ w.
            subst
              (λ (x : Handler B Sender).
                Gets broadcast (copies broadcast m w) (Maps.get h.new_messages.inner w)
                  (Maps.get x.new_messages.inner w))
              (sym state) (heard w),
      )

  -- What `open_subscription` leaves.
  pub open_subscription_lem :
      (u : UserId) (r : Receiver) (h h' : Handler B Sender)
      → open_subscription broadcast {B = B} {D = D} u h ≡ (ok r, h')
      → let last = entry_or_channel broadcast (Maps.get h.new_messages.inner u) in
        (h'.backend ≡ h.backend)
        × (h'.new_messages.inner ≡ Maps.insert h.new_messages.inner u (broadcast.subscribe last).0)
        × ((broadcast.subscribe last).1 ≡ r)
  unfolding open_subscription
  open_subscription_lem u r h h' done = elim (Bool-cases h.new_messages.poisoned) [
    | inl e ↦ ground arith
    | inr e ↦ ground arith
  ]

  insert-IsLive :
      (u : UserId) (subscribers : Subscribers Sender)
      → IsLive broadcast subscribers
      → let last = entry_or_channel broadcast (Maps.get subscribers u) in
        IsLive broadcast (Maps.insert subscribers u (broadcast.subscribe last).0)
  insert-IsLive u subscribers live =
      let last = entry_or_channel broadcast (Maps.get subscribers u) in
      record {
        heard = λ w s found. elim (Bool-cases (u == w)) [
          | inl same ↦ ground (
            arith,
            get-insert subscribers u w (broadcast.subscribe last).0,
            broadcast.count-subscribe last,
          )
          | inr other ↦
              ground
                (arith, get-insert subscribers u w (broadcast.subscribe last).0, live.heard w s)
        ];
      }

  pub open_subscription-Sound :
      (u : UserId) (r : Receiver) (s : Progress B Sender) (h : Handler B Sender)
      → open_subscription broadcast {B = B} {D = D} u s.handler ≡ (ok r, h)
      → Sound s
      → Sound (record s { handler = h })
  open_subscription-Sound u r s h done i =
      let (backend, inner, _) = open_subscription_lem u r s.handler h done in
      record {
        sound =
            subst (λ x. IsSound broadcast x) (ap (λ x. x.1) done)
              (open_subscription-IsSound broadcast D u s.handler i.sound);
        live =
            subst (IsLive broadcast) (sym inner)
              (insert-IsLive u s.handler.new_messages.inner i.live);
        ids = subst (λ b. IsUnique {A = Message} (λ x. x.id) (lawful.log b)) (sym backend) i.ids;
        waiting = i.waiting;
        stored = subst (λ b. All (IsStored (lawful.log b)) s.pending) (sym backend) i.stored;
      }

  pub drop_subscription_lem :
      (w : UserId) (r : Receiver) (h : Handler B Sender) (t : Sender)
      → Maps.get h.new_messages.inner w ≡ some t
      → ((drop_subscription broadcast w r h).backend ≡ h.backend)
        × ((drop_subscription broadcast w r h).new_messages.inner
            ≡ Maps.insert h.new_messages.inner w (broadcast.drop_receiver t r))
  unfolding drop_subscription
  drop_subscription_lem w r h t found = (refl, rw found refl)

  drop_subscription-IsLive :
      (w : UserId) (r : Receiver) (h : Handler B Sender) (t : Sender)
      → Maps.get h.new_messages.inner w ≡ some t
      → 1 < broadcast.receiver_count t
      → IsLive broadcast h.new_messages.inner
      → IsLive broadcast (drop_subscription broadcast w r h).new_messages.inner
  drop_subscription-IsLive w r h t found more live =
      let after = broadcast.drop_receiver t r in
      rw (drop_subscription_lem w r h t found).1 (record {
        heard = λ v s there. elim (Bool-cases (w == v)) [
          | inl same ↦
              ground (arith, get-insert h.new_messages.inner w v after, broadcast.count-drop t r)
          | inr other ↦ ground (arith, get-insert h.new_messages.inner w v after, live.heard v s)
        ];
      })

  -- The cleanup job finds nothing to drop.
  kept :
      (live : Option Sender)
      → ((s : Sender) → live ≡ some s → 0 < broadcast.receiver_count s)
      → only_if (λ s. ltb 0 (broadcast.receiver_count s)) live ≡ live
  kept none h = refl
  kept (some s) h = ground (arith, h s refl)

  pub get-clean :
      (s : Progress B Sender) (w : UserId)
      → Sound s
      → Maps.get (clean broadcast s.handler).new_messages.inner w
        ≡ Maps.get s.handler.new_messages.inner w
  get-clean s w i =
      (cleanup_lem broadcast s.handler.new_messages i.sound.up i.sound.keys).0 w
      ∙ kept _ (i.live.heard w)

  pub Step-Sound :
      (followed : Receiver) {s t : Progress B Sender}
      → Step broadcast d lawful followed s t
      → Sound s
      → Sound t
  Step-Sound followed {s} (stores m b done new) i =
      let log : lawful.log b ≡ lawful.log s.handler.backend ++ m ∷ [] =
        lawful.log-create_message m s.handler.backend b done in
      record {
        sound = record { up = i.sound.up; keys = i.sound.keys };
        live = i.live;
        ids =
            subst (IsUnique {A = Message} (λ x. x.id)) (sym log) (IsUnique-append _ _ m i.ids new);
        waiting = (IsNew-of_stored m.id _ s.pending new i.stored, i.waiting);
        stored =
            subst (λ l. All (IsStored l) (m ∷ s.pending)) (sym log)
              (
                stored_last (lawful.log s.handler.backend) m,
                All-map _ _ s.pending (λ x h. stored_later (lawful.log s.handler.backend) m x h)
                    i.stored,
              );
      }
  Step-Sound followed {s} (announces before m after e) i =
      let (backend, heard) = announced m s.handler i.sound.up i.live in
      record {
        sound = handle_new_message-IsSound broadcast D m s.handler i.sound;
        live = Gets-IsLive broadcast (copies broadcast m) _ _ i.live heard;
        ids = subst (λ b. IsUnique {A = Message} (λ x. x.id) (lawful.log b)) (sym backend) i.ids;
        waiting =
            (IsUnique-middle {A = Message} (λ x. x.id) before m after
              (subst (IsUnique {A = Message} (λ x. x.id)) e i.waiting)).0;
        stored =
            subst (λ b. All (IsStored (lawful.log b)) (before ++ after)) (sym backend)
              (All-middle _ before m after
                (subst (All (IsStored (lawful.log s.handler.backend))) e i.stored)).1;
      }
  Step-Sound followed {s} (joins w r h done n) i = open_subscription-Sound w r s h done i
  Step-Sound followed {s} (leaves w r t found more n) i =
      let backend = (drop_subscription_lem w r s.handler t found).0 in
      record {
        sound = drop_subscription-IsSound broadcast w r s.handler i.sound;
        live = drop_subscription-IsLive w r s.handler t found more i.live;
        ids = subst (λ b. IsUnique {A = Message} (λ x. x.id) (lawful.log b)) (sym backend) i.ids;
        waiting = i.waiting;
        stored = subst (λ b. All (IsStored (lawful.log b)) s.pending) (sym backend) i.stored;
      }
  Step-Sound followed {s} cleans i = record {
    sound = clean-IsSound broadcast s.handler i.sound;
    live = record { heard = λ w x found. i.live.heard w x (sym (get-clean s w i) ∙ found) };
    ids = i.ids;
    waiting = i.waiting;
    stored = i.stored;
  }
  Step-Sound followed {s} (others b log) i = record {
    sound = record { up = i.sound.up; keys = i.sound.keys };
    live = i.live;
    ids = subst (IsUnique {A = Message} (λ x. x.id)) (sym log) i.ids;
    waiting = i.waiting;
    stored = subst (λ l. All (IsStored l) s.pending) (sym log) i.stored;
  }
