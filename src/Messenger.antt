-- ===== src/Messenger.antt =====
-- lib/pheidippides-messenger/src/messenger.rs: the application between the web server and the
-- store. Its state is the handler of subscriptions, which holds the store. An error that is only
-- logged leaves no trace in the state. What the code draws (`Uuid::new_v4`, `Utc::now`, the salt
-- of a hash) is an argument.
pub mod Accounts
pub mod Sending
pub mod Race
use pheidippides.Prelude.{
  ℕ, Text, List, Option, none, some, Bool, true, false, Exec, pure, raise, map_err, Result, ok, err,
  if◌then◌else◌,
}
use pheidippides.Prelude.Effects.{◌>>=◌, ◌>>◌, replace_err}
use pheidippides.Types.{UserId, MessageId, Timestamp, User, Message}
use pheidippides.DataAccess.{DataAccess}
use pheidippides.Auth.{AuthService}
use pheidippides.Subscriptions as Subs
use pheidippides.Subscriptions.Recovery.{new_handler}
use pheidippides.Subscriptions.{
  Broadcast, Handler, Subscription, handle_new_message, subscribe_new_messages,
}

-- The texts of `with_context`, with what they show.
pub data Context : Type 0 where
  fetch_user_with_id : UserId → Context
  fetch_user_id_for_username : Text → Context
  fetch_chats_for_user : UserId → Context
  search_by_substring : Text → Context
  create_message_from_to : UserId → UserId → Context
  fetch_last_messages_of : UserId → UserId → Option MessageId → Context
  verify_user_with_id : UserId → Context
  create_user_with_login : Text → Context

-- `anyhow::Error`, as the messenger builds it.
pub data Error (D A : Type 0) : Type 0 where
  data_access : Context → D → Error D A
  authorization : Context → A → Error D A
  subscription : Subs.Error D → Error D A

-- `Messenger::new`: the handler of subscriptions holds a clone of the store.
abbrev pub new : {B Sender Receiver : Type 0} → Broadcast Sender Receiver → B → Handler B Sender
new broadcast store = new_handler broadcast store

module _ {B D A Salt Sender Receiver : Type 0} (broadcast : Broadcast Sender Receiver)
    (data_access_layer : DataAccess B D) (authorization_service : AuthService B A Salt) where
  abbrev App : Type 0 → Type 0
  App R = Exec (Handler B Sender) (Error D A) R

  -- A call of the store or of the authorization service.
  abbrev on_backend : {E R : Type 0} → (E → Error D A) → Exec B E R → App R
  on_backend wrap call h =
      let (res, backend) = call h.backend in (replace_err wrap res, record h { backend = backend })

  unfoldable pub fetch_user : UserId → App (Option User)
  fetch_user user_id =
      on_backend (data_access (fetch_user_with_id user_id)) (data_access_layer.fetch_user user_id)

  unfoldable pub find_user_by_username : Text → App (Option UserId)
  find_user_by_username username =
      on_backend (data_access (fetch_user_id_for_username username))
        (data_access_layer.find_user_by_username username)

  unfoldable pub fetch_users_chats : UserId → App (List User)
  fetch_users_chats user_id =
      on_backend (data_access (fetch_chats_for_user user_id))
        (data_access_layer.find_users_chats user_id)

  unfoldable pub find_users_by_substring : Text → App (List User)
  find_users_by_substring substring =
      on_backend (data_access (search_by_substring substring))
        (data_access_layer.find_users_by_substring substring)

  -- `if let Err(e) = … { log_internal_error(e) }`.
  abbrev announce : Message → App (Unit {0})
  announce message h = (ok tt, (handle_new_message broadcast {B = B} {D = D} message h).1)

  unfoldable pub send_message : MessageId → Timestamp → Text → UserId → UserId → App MessageId
  send_message id timestamp message_text from to = do
    let message : Message = record {
      id = id;
      from = from;
      to = to;
      message = message_text;
      timestamp = timestamp;
    }
    on_backend (data_access (create_message_from_to from to))
        (data_access_layer.create_message message)
    announce message
    pure id

  unfoldable pub fetch_last_messages : UserId → UserId → Option MessageId → App (List Message)
  fetch_last_messages current_user other_user starting_point =
      on_backend (data_access (fetch_last_messages_of current_user other_user starting_point))
        (data_access_layer.fetch_last_messages_in_chat current_user other_user starting_point)

  unfoldable pub subscribe_to_new_messages : UserId → Option MessageId → App (Subscription Receiver)
  subscribe_to_new_messages user_id starting_point =
      map_err subscription
        (subscribe_new_messages broadcast data_access_layer user_id starting_point)

  abbrev check_password : Text → Option UserId → App (Option UserId)
  check_password password none = pure none
  check_password password (some user_id) = do
    res ←
        on_backend (authorization (verify_user_with_id user_id))
          (authorization_service.verify_user user_id password)
    pure (if res then some user_id else none)

  unfoldable pub verify_user : Text → Text → App (Option UserId)
  unfolding find_user_by_username
  verify_user username password = do
    found ← find_user_by_username username
    check_password password found

  abbrev store_password : Salt → Text → Text → Option UserId → App (Option UserId)
  store_password salt login password none = pure none
  store_password salt login password (some user_id) = do
    on_backend (authorization (create_user_with_login login))
        (authorization_service.create_user salt user_id password)
    pure (some user_id)

  unfoldable pub create_user : UserId → Salt → Text → Text → App (Option UserId)
  create_user fresh salt login password = do
    created ←
        on_backend (data_access (create_user_with_login login))
          (data_access_layer.create_user fresh login)
    store_password salt login password created
