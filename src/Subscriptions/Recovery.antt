-- ===== src/Subscriptions/Recovery.antt =====
-- lib/pheidippides-messenger/src/subscriptions_handler.rs: what the cleanup job repairs, in every
-- state that the handler can get into.
use pheidippides.Prelude.{[], Option, false, eq_nat, ltb, ok, ◌≡◌, refl, subst}
use pheidippides.Prelude.Maps
use pheidippides.Prelude.Maps.{HasDistinctKeys, IsAbsent, insert-HasDistinctKeys, only_if}
use pheidippides.Types.{UserId, MessageId, Message}
use pheidippides.DataAccess.{DataAccess}
use pheidippides.Subscriptions.{
  Broadcast, Handler, handle_new_message, drop_subscription, subscribe_new_messages,
}
use pheidippides.Subscriptions.Soundness.{
  IsSound, handle_new_message-IsSound, drop_subscription-IsSound, subscribe-IsSound, clean,
  clean-IsSound,
}
use pheidippides.Subscriptions.Delivery.{Gets, copies, cleanup_lem, handle_new_message-heard}

module _ {Sender Receiver : Type 0} (broadcast : Broadcast Sender Receiver) where
  abbrev pub new_handler : {B : Type 0} → B → Handler B Sender
  new_handler backend = record {
    backend = backend;
    new_messages = record { inner = []; poisoned = false };
  }

  module _ {B D : Type 0} (d : DataAccess B D) where
    -- A message is announced, a browser subscribes, a browser goes away, a round of the cleanup job
    -- runs, and the store changes.
    pub data Step (h : Handler B Sender) : Handler B Sender → Type 0 where
      announces : (m : Message) → Step h (handle_new_message broadcast {B = B} {D = D} m h).1
      subscribes :
          (u : UserId) (from : Option MessageId)
          → Step h (subscribe_new_messages broadcast d u from h).1
      leaves : (u : UserId) (r : Receiver) → Step h (drop_subscription broadcast u r h)
      cleans : Step h (clean broadcast h)
      stores : (backend : B) → Step h (record h { backend = backend })

    -- The states of a handler, from the one that `SubscriptionsHandler::new` makes.
    pub data Reach : Handler B Sender → Type 0 where
      new : (backend : B) → Reach (new_handler backend)
      next : {h k : Handler B Sender} → Reach h → Step h k → Reach k

    Step-IsSound : {h k : Handler B Sender} → Step h k → IsSound broadcast h → IsSound broadcast k
    Step-IsSound {h} (announces m) s = handle_new_message-IsSound broadcast D m h s
    Step-IsSound {h} (subscribes u from) s = subscribe-IsSound broadcast d u from h s
    Step-IsSound {h} (leaves u r) s = drop_subscription-IsSound broadcast u r h s
    Step-IsSound {h} cleans s = clean-IsSound broadcast h s
    Step-IsSound (stores backend) s = record { up = s.up; keys = s.keys }

    Reach-IsSound : {h : Handler B Sender} → Reach h → IsSound broadcast h
    Reach-IsSound (new backend) = record { up = refl; keys = tt }
    Reach-IsSound (next r st) = Step-IsSound st (Reach-IsSound r)

    -- Whatever announcements, subscriptions and departures there were since the start, after one
    -- round of the cleanup job the next message is announced without an error, and each receiver of
    -- its sender and of its addressee gets it exactly once, and no receiver of anybody else.
    pub clean-announced :
        (h : Handler B Sender)
        → Reach h
        → (m : Message)
        → (h' : Handler B Sender) × (handle_new_message broadcast {B = B} {D = D} m
              (clean broadcast h)
            ≡ (ok tt, h'))
          × ((w : UserId)
              → Gets broadcast
                  (copies broadcast m w)
                  (only_if
                    (λ s. ltb 0 (broadcast.receiver_count s))
                    (Maps.get h.new_messages.inner w))
                  (Maps.get h'.new_messages.inner w))
    clean-announced h r m =
        let s = Reach-IsSound r in
        let (kept, live) = cleanup_lem broadcast h.new_messages s.up s.keys in
        let (h', sent, _, heard) =
          handle_new_message-heard broadcast {B = B} {D = D} m (clean broadcast h)
            (clean-IsSound broadcast h s).up live in
        (
          h',
          sent,
          λ w.
              subst
                (λ o. Gets broadcast (copies broadcast m w) o (Maps.get h'.new_messages.inner w))
                (kept w) (heard w),
        )
