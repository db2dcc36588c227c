-- ===== src/Messenger/Race.antt =====
-- lib/pheidippides-messenger/src/messenger.rs and subscriptions_handler.rs: senders that run at the
-- same time as a subscription. A task can be interrupted where it awaits: `send_message` between
-- storing the message and announcing it, `subscribe_new_messages` between opening the channel and
-- fetching what was stored before.
pub mod Apart
pub mod Invariant
pub mod Feed
pub mod Follows
pub mod Delivery
use pheidippides.Prelude.{
  some, ◌<◌, eq_nat, Text, List, [], ◌∷◌, ◌++◌, ok, IsNew, ◌≡◌, refl, arith, subst, ◌≢◌,
}
use pheidippides.Types.{UserId, MessageId, Timestamp, Message}
use pheidippides.DataAccess.{DataAccess}
use pheidippides.DataAccess.Laws.{LawfulLog}
use pheidippides.Auth.{AuthService}
use pheidippides.Subscriptions.{
  Broadcast, Handler, handle_new_message, open_subscription, drop_subscription,
}
use pheidippides.Prelude.Maps
use pheidippides.Subscriptions.Soundness.{clean}
use pheidippides.Messenger.{send_message}

-- The messages in `pending` are stored, and their senders have not announced them yet.
pub record Progress (B Sender : Type 0) : Type 0 where
  pub handler : Handler B Sender
  pub pending : List Message

module _ {B D Sender Receiver : Type 0} (broadcast : Broadcast Sender Receiver) (d : DataAccess B D)
    (lawful : LawfulLog B D d) (followed : Receiver) where
  -- While the receiver `followed` listens, a sender stores a message with a new id, a sender
  -- announces a message that it stored, a user opens another channel or another receiver of one,
  -- drops such a receiver and keeps one, the cleanup job runs, or the store changes in some other
  -- way.
  pub data Step (s : Progress B Sender) : Progress B Sender → Type 0 where
    stores :
        (m : Message) (b : B)
        → d.create_message m s.handler.backend ≡ (ok tt, b)
        → IsNew {A = Message} (λ x. x.id) m.id (lawful.log s.handler.backend)
        → Step s (record { handler = record s.handler { backend = b }; pending = m ∷ s.pending })
    announces :
        (before : List Message) (m : Message) (after : List Message)
        → s.pending ≡ before ++ m ∷ after
        → Step s (record {
          handler = (handle_new_message broadcast {B = B} {D = D} m s.handler).1;
          pending = before ++ after;
        })
    joins :
        (w : UserId) (r : Receiver) (h : Handler B Sender)
        → open_subscription broadcast {B = B} {D = D} w s.handler ≡ (ok r, h)
        → followed ≢ r
        → Step s (record s { handler = h })
    leaves :
        (w : UserId) (r : Receiver) (t : Sender)
        → Maps.get s.handler.new_messages.inner w ≡ some t
        → 1 < broadcast.receiver_count t
        → followed ≢ r
        → Step s (record s { handler = drop_subscription broadcast w r s.handler })
    cleans : Step s (record s { handler = clean broadcast s.handler })
    others :
        (b : B)
        → lawful.log b ≡ lawful.log s.handler.backend
        → Step s (record s { handler = record s.handler { backend = b } })

  pub data Run (s : Progress B Sender) : Progress B Sender → Type 0 where
    here : Run s s
    next : {t u : Progress B Sender} → Run s t → Step t u → Run s u

  -- A sender that is not interrupted takes the two steps one after the other.
  pub send_message-Run :
      {A Salt : Type 0} (auth : AuthService B A Salt) (m : Message) (s : Progress B Sender) (b : B)
      → d.create_message m s.handler.backend ≡ (ok tt, b)
      → IsNew {A = Message} (λ x. x.id) m.id (lawful.log s.handler.backend)
      → Run s (record s {
        handler =
            (send_message broadcast d auth m.id m.timestamp m.message m.from m.to s.handler).1;
      })
  unfolding send_message
  send_message-Run auth m s b stored new =
      let told =
        (handle_new_message broadcast {B = B} {D = D} m (record s.handler { backend = b })).1 in
      let same : told
          ≡ (send_message broadcast d auth m.id m.timestamp m.message m.from m.to s.handler).1 =
        ground arith in
      subst (λ h. Run s (record s { handler = h })) same
        (next (next here (stores m b stored new)) (announces [] m s.pending refl))
