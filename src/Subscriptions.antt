-- ===== src/Subscriptions.antt =====
-- lib/pheidippides-messenger/src/subscriptions_handler.rs: the live feeds of new messages. The
-- broadcast channel of tokio is the parameter `Broadcast`; a sender is shared, so an operation on
-- it writes the new sender back to the map.
pub mod Delivery
pub mod Feed
pub mod Soundness
pub mod Recovery
use pheidippides.Prelude.{
  ℕ, suc, ◌+◌, ◌-◌, ◌<◌, ltb, List, [], ◌∷◌, ◌++◌, Option, none, some, Bool, true, false, not,
  if◌then◌else◌, ◌==◌, eq_nat, any, map, HashMap, Exec, pure, raise, Lock, Result, ok, err, ◌≡◌,
  ◌≢◌,
}
use pheidippides.Prelude.Maps
use pheidippides.Prelude.Effects.{◌>>=◌, ◌>>◌}
use pheidippides.Types.{UserId, MessageId, Message}
use pheidippides.DataAccess.{DataAccess}
use pheidippides.AsyncUtils.{Turn, received, RecvError, pipe_broadcast, redirect_unbounded_channel}

-- `tokio::sync::broadcast`, as its documentation describes it. `log` is what was sent since a
-- receiver subscribed.
pub record Broadcast (Sender Receiver : Type 0) : Type 0 where
  pub channel : ℕ → Sender
  pub subscribe : Sender → Sender × Receiver
  pub drop_receiver : Sender → Receiver → Sender
  pub send : Sender → Message → Option Sender
  pub receiver_count : Sender → ℕ
  pub log : Sender → Receiver → List Message
  -- The code drops the first receiver at once.
  pub count-channel : (capacity : ℕ) → receiver_count (channel capacity) ≡ 0
  pub count-subscribe : (s : Sender) → receiver_count (subscribe s).0 ≡ suc (receiver_count s)
  -- A new receiver has received nothing.
  pub log-subscribe : (s : Sender) → log (subscribe s).0 (subscribe s).1 ≡ []
  -- Nor does it take from another receiver what that one has received.
  pub log-subscribe_other :
      (s : Sender) (r : Receiver) → r ≢ (subscribe s).1 → log (subscribe s).0 r ≡ log s r
  pub count-drop :
      (s : Sender) (r : Receiver) → receiver_count (drop_receiver s r) ≡ receiver_count s - 1
  pub log-drop_other :
      (s : Sender) (r r' : Receiver) → r ≢ r' → log (drop_receiver s r') r ≡ log s r
  pub count-send :
      (s t : Sender) (m : Message) → send s m ≡ some t → receiver_count t ≡ receiver_count s
  pub send_unheard : (s : Sender) (m : Message) → receiver_count s ≡ 0 → send s m ≡ none
  pub send_heard :
      (s : Sender) (m : Message) → 0 < receiver_count s → (t : Sender) × (send s m ≡ some t)
  pub log-send :
      (s t : Sender) (m : Message) (r : Receiver) → send s m ≡ some t → log t r ≡ log s r ++ m ∷ []

pub data Error (D : Type 0) : Type 0 where
  lock_poisoned : Error D
  could_not_send : UserId → Error D
  data_access : D → Error D

abbrev pub Subscribers : Type 0 → Type 0
Subscribers Sender = HashMap UserId Sender

-- The state of a handler: its store and the shared map.
pub record Handler (B Sender : Type 0) : Type 0 where
  pub backend : B
  pub new_messages : Lock (Subscribers Sender)

-- What the receiver that `subscribe_new_messages` returns reads from.
pub record Subscription (Receiver : Type 0) : Type 0 where
  pub subscription : Receiver
  pub previous_messages : List Message
  pub sent_messages : Option (List MessageId)

abbrev pub broadcast_capacity : ℕ
broadcast_capacity = 100

module _ {Sender Receiver : Type 0} (broadcast : Broadcast Sender Receiver) where
  -- `get` and `send_event_to_subscribers`, for one side of a message.
  unfoldable pub send_to :
      {D : Type 0} → UserId → Message → Exec (Subscribers Sender) (Error D) (Unit {0})
  send_to user_id message subscribers = elim (Maps.get subscribers user_id) [
    | none ↦ (ok tt, subscribers)
    | some sender ↦ elim (broadcast.send sender message) [
      | none ↦ (err (could_not_send user_id), subscribers)
      | some sent ↦ (ok tt, Maps.insert subscribers user_id sent)
    ]
  ]

  unfoldable pub send_to_both :
      {D : Type 0} → Message → Exec (Subscribers Sender) (Error D) (Unit {0})
  send_to_both message = do
    send_to message.from message
    if not (message.from == message.to) then send_to message.to message else pure tt

  unfoldable pub handle_new_message :
      {B D : Type 0} → Message → Exec (Handler B Sender) (Error D) (Unit {0})
  handle_new_message message h =
      if h.new_messages.poisoned
      then (err lock_poisoned, h)
      else let (res, subscribers) = send_to_both message h.new_messages.inner in
        (res, record h { new_messages = record h.new_messages { inner = subscribers } })

  -- One round of the cleanup job; a poisoned lock is logged and left.
  unfoldable pub cleanup : Lock (Subscribers Sender) → Lock (Subscribers Sender)
  cleanup lock = if lock.poisoned then lock else record lock {
    inner = Maps.retain (λ _ sender. ltb 0 (broadcast.receiver_count sender)) lock.inner;
  }

  abbrev pub entry_or_channel : Option Sender → Sender
  entry_or_channel none = broadcast.channel broadcast_capacity
  entry_or_channel (some sender) = sender

  -- `entry(user_id).or_insert(channel).subscribe()` under the write lock.
  unfoldable pub open_subscription :
      {B D : Type 0} → UserId → Exec (Handler B Sender) (Error D) Receiver
  open_subscription user_id h =
      if h.new_messages.poisoned
      then (err lock_poisoned, h)
      else let (sender, receiver) =
          broadcast.subscribe (entry_or_channel (Maps.get h.new_messages.inner user_id)) in
        (
          ok receiver,
          record h {
            new_messages = record h.new_messages {
              inner = Maps.insert h.new_messages.inner user_id sender;
            };
          },
        )

  abbrev dropped : Receiver → Option Sender → UserId → Subscribers Sender → Subscribers Sender
  dropped receiver none user_id subscribers = subscribers
  dropped receiver (some sender) user_id subscribers =
      Maps.insert subscribers user_id (broadcast.drop_receiver sender receiver)

  -- A `?` after the subscription drops its receiver.
  unfoldable pub drop_subscription :
      {B : Type 0} → UserId → Receiver → Handler B Sender → Handler B Sender
  drop_subscription user_id receiver h =
      let subscribers = h.new_messages.inner in
      record h {
        new_messages = record h.new_messages {
          inner = dropped receiver (Maps.get subscribers user_id) user_id subscribers;
        };
      }

  module _ {B D : Type 0} (d : DataAccess B D) where
    abbrev pub start :
        UserId
        → Receiver
        → Result D (List Message)
        → Exec (Handler B Sender) (Error D) (Subscription Receiver)
    start user_id receiver (err e) h = (err (data_access e), drop_subscription user_id receiver h)
    start user_id receiver (ok messages) h = (
      ok (record {
        subscription = receiver;
        previous_messages = messages;
        sent_messages = some (map (λ (m : Message). m.id) messages);
      }),
      h,
    )

    abbrev pub begin :
        UserId
        → Option MessageId
        → Receiver
        → Exec (Handler B Sender) (Error D) (Subscription Receiver)
    begin user_id none receiver h =
        (ok (record { subscription = receiver; previous_messages = []; sent_messages = none }), h)
    begin user_id (some starting_point) receiver h =
        let (res, backend) = d.fetch_users_messages_since user_id starting_point h.backend in
        start user_id receiver res (record h { backend = backend })

    unfoldable pub subscribe_new_messages :
        UserId → Option MessageId → Exec (Handler B Sender) (Error D) (Subscription Receiver)
    unfolding open_subscription drop_subscription
    subscribe_new_messages user_id starting_point = do
      receiver ← open_subscription user_id
      begin user_id starting_point receiver

-- The closure of `pipe_broadcast`.
unfoldable pub unless_sent : List MessageId → Message → Option Message
unless_sent sent_messages message =
    if any (λ id. id == message.id) sent_messages then none else some message

-- All that arrives at the receiver which `subscribe_new_messages` returned, for the turns of the
-- pipe: the messages fetched first, then what the pipe passes on.
unfoldable pub delivered :
    {Receiver : Type 0}
    → Subscription Receiver
    → List (Turn (Result RecvError Message))
    → List Message
unfolding unless_sent
delivered s turns = elim s.sent_messages [
  | none ↦ pipe_broadcast some turns
  | some sent ↦
      s.previous_messages
      ++ redirect_unbounded_channel
          (map (λ m. received (some m)) (pipe_broadcast (unless_sent sent) turns))
]
