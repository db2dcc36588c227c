-- ===== src/Tests/Feeds.antt =====
-- Feeds and channels at concrete inputs.
use pheidippides.Prelude.{
  ℕ, List, [], ◌∷◌, ◌++◌, none, some, ok, err, refl, ◌≡◌, arith, eq_nat, Result,
}
use pheidippides.Prelude.Maps
use pheidippides.Types.{UserId, Message}
use pheidippides.AsyncUtils.{Turn, received, RecvError, lagged, pipe_broadcast}
use pheidippides.AsyncUtils.Laws.{arrived, pipe_broadcast-err}
use pheidippides.MockDb
use pheidippides.MockDb.{Db, data_access}
use pheidippides.Subscriptions.{
  Handler, Subscription, handle_new_message, subscribe_new_messages, delivered, could_not_send,
}
use pheidippides.Subscriptions.Delivery.{
  IsLive, Gets, copies, handle_new_message-heard, handle_new_message_stale,
}
use pheidippides.Subscriptions.Feed.{unsent, subscribe-delivered}
use pheidippides.Subscriptions.Soundness.{clean}
use pheidippides.Subscriptions.Recovery
use pheidippides.Subscriptions.Recovery.{clean-announced, new, next, subscribes, leaves}
use pheidippides.Prelude.{ltb}
use pheidippides.Prelude.Maps.{only_if}
use pheidippides.Subscriptions.{drop_subscription, subscribe_new_messages}
use pheidippides.MockDb.{data_access}
use pheidippides.Tests.Base.{
  same_text, Channel, new_channel, live_channel, channels, note, store, app, app_with,
}

-- Users 2 and 3 each have a receiver.
abbrev both_listening : Handler Db Channel
both_listening = app_with ((2, live_channel) ∷ (3, live_channel) ∷ [])

both_listening-IsLive : IsLive channels both_listening.new_messages.inner
unfolding Maps.get
both_listening-IsLive = record { heard = λ w s found. ground arith }

handle_new_message-heard_example :
    (h : Handler Db Channel) × (handle_new_message channels {B = Db} {D = MockDb.Error}
        (note 15 2 3)
        both_listening
      ≡ (ok tt, h))
    × (h.backend ≡ store)
    × ((w : UserId)
        → Gets channels
            (copies channels (note 15 2 3) w)
            (Maps.get both_listening.new_messages.inner w)
            (Maps.get h.new_messages.inner w))
handle_new_message-heard_example =
    handle_new_message-heard channels (note 15 2 3) both_listening refl both_listening-IsLive

-- The receiver of user 2 is gone and the cleanup did not run yet; user 3 waits for messages.
abbrev stale : Handler Db Channel
stale = app_with ((2, new_channel) ∷ (3, live_channel) ∷ [])

handle_new_message_stale_example :
    handle_new_message channels {B = Db} {D = MockDb.Error} (note 15 2 3) stale
    ≡ (err (could_not_send 2), stale)
unfolding Maps.get
handle_new_message_stale_example =
    handle_new_message_stale channels (note 15 2 3) stale new_channel refl refl refl

since_12 :
    MockDb.fetch_users_messages_since 2 12 store ≡ (ok (note 13 2 3 ∷ note 14 3 2 ∷ []), store)
unfolding MockDb.fetch_users_messages_since MockDb.involving
since_12 = refl

-- User 2 comes back after message 12, and message 14 also arrives live.
subscribe-delivered_example :
    (s : Subscription ℕ) × (h : Handler Db Channel) × (subscribe_new_messages channels
        (data_access same_text)
        2
        (some 12)
        app
      ≡ (ok s, h))
    × ((live : List Message) (e : RecvError) (rest : List (Turn (Result RecvError Message)))
        → delivered s (arrived live ++ received (err e) ∷ rest)
          ≡ note 13 2 3 ∷ note 14 3 2 ∷ [] ++ unsent (note 13 2 3 ∷ note 14 3 2 ∷ []) live)
subscribe-delivered_example =
    subscribe-delivered channels (data_access same_text) 2 12 app (note 13 2 3 ∷ note 14 3 2 ∷ [])
      store refl since_12

abbrev previous : List Message
previous = note 13 2 3 ∷ note 14 3 2 ∷ []

abbrev live : List Message
live = note 14 3 2 ∷ note 15 2 3 ∷ []

pipe_broadcast-err_example :
    pipe_broadcast {O = Message} some
      (arrived live ++ received (err lagged) ∷ received (ok (note 16 2 3)) ∷ [])
    ≡ live
pipe_broadcast-err_example = pipe_broadcast-err some live lagged (received (ok (note 16 2 3)) ∷ [])

-- User 2 subscribed and went away, and the entry is still there.
abbrev left : Handler Db Channel
left =
    drop_subscription channels 2 0
      (subscribe_new_messages channels (data_access same_text) 2 none
        (Recovery.new_handler channels store)).1

clean-announced_example :
    (h : Handler Db Channel) × (handle_new_message channels {B = Db} {D = MockDb.Error}
        (note 15 2 3)
        (clean channels left)
      ≡ (ok tt, h))
    × ((w : UserId)
        → Gets channels
            (copies channels (note 15 2 3) w)
            (only_if (λ s. ltb 0 (channels.receiver_count s)) (Maps.get left.new_messages.inner w))
            (Maps.get h.new_messages.inner w))
clean-announced_example =
    clean-announced channels (data_access same_text) left
      (next (next (new store) (subscribes 2 none)) (leaves 2 0)) (note 15 2 3)
