-- ===== src/Tests/Races.antt =====
-- A subscription whose fetch falls between the storing and the announcing of a message.
use pheidippides.Prelude.{ℕ, [], ◌∷◌, ◌++◌, some, ok, err, refl, ◌≡◌, arith, eq_nat}
use pheidippides.Prelude.Maps
use pheidippides.DataAccess.Laws.{LawfulLog}
use pheidippides.AsyncUtils.{received, lagged}
use pheidippides.AsyncUtils.Laws.{arrived}
use pheidippides.MockDb
use pheidippides.MockDb.{Db, data_access}
use pheidippides.MockDb.Messages.{mock-LawfulLog, mock_log}
use pheidippides.Subscriptions.{
  Handler, Subscription, handle_new_message, open_subscription, begin, delivered,
}
use pheidippides.Messenger.Race.{Progress, here, next, stores, announces}
use pheidippides.Messenger.Race.Invariant.{Sound}
use pheidippides.Messenger.Race.Delivery.{IsComplete, delivered-Run}
use pheidippides.Tests.Base.{same_text, Channel, live_channel, channels, note, store, app, app_with}

abbrev lawful : LawfulLog Db MockDb.Error (data_access same_text)
lawful = mock-LawfulLog same_text

app-Sound : Sound channels (data_access same_text) lawful (record { handler = app; pending = [] })
unfolding Maps.get
app-Sound = record {
  sound = record { up = refl; keys = tt };
  live = record { heard = λ w s found. ground arith };
  ids = rw (mock_log same_text store) (omega arith);
  waiting = tt;
  stored = tt;
}

-- User 2 opens a subscription.
abbrev opened : Handler Db Channel
opened = app_with ((2, live_channel) ∷ [])

opened_ok : open_subscription channels {B = Db} {D = MockDb.Error} 2 app ≡ (ok 0, opened)
unfolding open_subscription Maps.get Maps.insert
opened_ok = refl

abbrev stored : Db
stored = (MockDb.create_message (note 15 2 3) store).1

stored_ok : MockDb.create_message (note 15 2 3) store ≡ (ok tt, stored)
unfolding MockDb.create_message
stored_ok = refl

-- Message 15 is stored before the fetch, and announced after it.
abbrev halfway : Progress Db Channel
halfway = record { handler = record opened { backend = stored }; pending = note 15 2 3 ∷ [] }

abbrev resumed_at_12 : Subscription ℕ
resumed_at_12 = record {
  subscription = 0;
  previous_messages = note 13 2 3 ∷ note 14 3 2 ∷ note 15 2 3 ∷ [];
  sent_messages = some (13 ∷ 14 ∷ 15 ∷ []);
}

fetched_ok :
    begin channels (data_access same_text) 2 (some 12) 0 halfway.handler
    ≡ (ok resumed_at_12, halfway.handler)
unfolding MockDb.fetch_users_messages_since MockDb.involving MockDb.create_message
fetched_ok = refl

abbrev told : Progress Db Channel
told = record {
  handler =
      (handle_new_message channels {B = Db} {D = MockDb.Error} (note 15 2 3) halfway.handler).1;
  pending = [];
}

delivered-Run_example :
    (sender : Channel) × (Maps.get told.handler.new_messages.inner 2 ≡ some sender)
    × IsComplete 2 12
        (lawful.log told.handler.backend)
        (delivered resumed_at_12 (arrived (channels.log sender 0) ++ received (err lagged) ∷ []))
delivered-Run_example =
    delivered-Run channels (data_access same_text) lawful 2 12 0 app opened halfway.handler []
      halfway told resumed_at_12 lagged [] app-Sound opened_ok
      (next here
        (stores (note 15 2 3) stored stored_ok (rw (mock_log same_text store) (omega arith))))
      fetched_ok (next here (announces [] (note 15 2 3) [] refl)) refl
