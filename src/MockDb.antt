-- ===== src/MockDb.antt =====
-- lib/mock-db/src/lib.rs: the store in memory. Each table is a vector behind a mutex, the newest
-- row last. A method holds the mutex of its table until it returns, so it is one step.
pub mod Users
pub mod Messages
pub mod Chats
pub mod Auth
pub mod Accounts
pub mod Reach
pub mod Fixture
use pheidippides.Prelude.{
  ℕ, Text, List, [], ◌∷◌, ◌++◌, reverse, Option, none, some, Bool, false, ◌||◌, ◌&&◌, not,
  if◌then◌else◌, ◌==◌, eq_nat, eq_text, any, filter_map, skip_while, drop, take, first,
  to_lowercase, codes, HashMap, Exec, pure, Lock, Result, ok, err,
}
use pheidippides.Prelude.Maps
use pheidippides.Prelude.Effects.{◌>>=◌, ◌>>◌}
use pheidippides.Types.{Uuid, UserId, MessageId, Timestamp, User, Message, eq_user}
use pheidippides.DataAccess.{DataAccess, message_load_buf_size}
use pheidippides.DataAccess.Defaults
use pheidippides.Auth.{AuthenticationInfo, AuthStorage}
use mathlib.Core.Option

pub record MessageRecord : Type 0 where
  pub id : MessageId
  pub from : UserId
  pub to : UserId
  pub message : Text
  pub timestamp : Timestamp

pub data Error : Type 0 where
  thread_poison_error : Error

-- A PHC string is text.
pub record AuthRecord : Type 0 where
  pub user_id : UserId
  pub phc_string : Text

pub record Db : Type 0 where
  pub users : Lock (List (UserId × Text))
  pub messages : Lock (List MessageRecord)
  pub auth : Lock (List AuthRecord)

abbrev pub new_mutex : {A : Type 0} → A → Lock A
new_mutex a = record { inner = a; poisoned = false }

abbrev pub empty : Db
empty = record { users = new_mutex []; messages = new_mutex []; auth = new_mutex [] }

-- `lock()?`
abbrev pub lock : {A : Type 0} → (Db → Lock A) → Exec Db Error A
lock table db =
    if (table db).poisoned then (err thread_poison_error, db) else (ok (table db).inner, db)

abbrev put_users : List (UserId × Text) → Exec Db Error (Unit {0})
put_users rows db = (ok tt, record db { users = record db.users { inner = rows } })

abbrev put_messages : List MessageRecord → Exec Db Error (Unit {0})
put_messages rows db = (ok tt, record db { messages = record db.messages { inner = rows } })

abbrev put_auth : List AuthRecord → Exec Db Error (Unit {0})
put_auth rows db = (ok tt, record db { auth = record db.auth { inner = rows } })

unfoldable pub fetch_users : Exec Db Error (List (UserId × Text))
fetch_users = lock (λ db. db.users)

unfoldable pub same_name : (Text → Text) → Text → UserId × Text → Bool
same_name unicode username row = to_lowercase unicode row.1 == to_lowercase unicode username

-- `fresh` is the value of `Uuid::new_v4()`.
unfoldable pub create_user : (Text → Text) → UserId → Text → Exec Db Error (Option UserId)
create_user unicode fresh username = do
  table ← lock (λ db. db.users)
  if any (same_name unicode username) table
      then pure none
      else do put_users (table ++ (fresh, username) ∷ []); pure (some fresh)

-- The map from ids to names that `find_users_chats` builds.
unfoldable pub names_by_id : HashMap UserId Text → List (UserId × Text) → HashMap UserId Text
names_by_id res [] = res
names_by_id res ((user_id, username) ∷ rows) = names_by_id (Maps.insert res user_id username) rows

abbrev unwrap_or {ℓ} : {A : Type ℓ} → Option A → A → A
unwrap_or none a = a
unwrap_or (some b) a = b

unfoldable pub named : HashMap UserId Text → UserId → User
named users id = record {
  username = unwrap_or (Maps.get users id) (codes "<unknown user id>");
  id = id;
}

-- The other side of a message that `user_id` sent or received.
unfoldable pub chat_of : HashMap UserId Text → UserId → MessageRecord → Option User
chat_of users user_id msg_record =
    if msg_record.from == user_id
    then some (named users msg_record.to)
    else if msg_record.to == user_id
    then some (named users msg_record.from)
    else none

-- The `fold` that drops what was seen before.
unfoldable pub collect_new : List User → List User → List User
collect_new state [] = state
collect_new state (chat_info ∷ rest) =
    collect_new (if any (λ seen. seen == chat_info) state then state else state ++ chat_info ∷ [])
      rest

unfoldable pub find_users_chats : UserId → Exec Db Error (List User)
unfolding fetch_users
find_users_chats user_id = do
  users ← fetch_users
  let names = names_by_id [] users
  messages ← lock (λ db. db.messages)
  pure (collect_new [] (filter_map (chat_of names user_id) (reverse messages)))

abbrev pub to_message : MessageRecord → Message
to_message r = record {
  id = r.id;
  from = r.from;
  to = r.to;
  message = r.message;
  timestamp = r.timestamp;
}

unfoldable pub in_chat : UserId → UserId → MessageRecord → Option Message
in_chat user_id_1 user_id_2 r =
    if (r.from == user_id_1 && r.to == user_id_2) || (r.from == user_id_2 && r.to == user_id_1)
    then some (to_message r)
    else none

-- The test of the two `skip_while`s.
abbrev pub is_not : MessageId → MessageRecord → Bool
is_not starting_id r = not (r.id == starting_id)

abbrev pub skip_start : Option MessageId → List MessageRecord → List MessageRecord
skip_start none rows = drop 0 (skip_while (λ _. false) rows)
skip_start (some starting_id) rows = drop 1 (skip_while (is_not starting_id) rows)

unfoldable pub fetch_last_messages_in_chat :
    UserId → UserId → Option MessageId → Exec Db Error (List Message)
fetch_last_messages_in_chat user_id_1 user_id_2 starting_point = do
  messages ← lock (λ db. db.messages)
  pure (
      take message_load_buf_size
        (filter_map (in_chat user_id_1 user_id_2) (skip_start starting_point (reverse messages))))

unfoldable pub involving : UserId → MessageRecord → Option Message
involving user_id r = if r.from == user_id || r.to == user_id then some (to_message r) else none

unfoldable pub fetch_users_messages_since : UserId → MessageId → Exec Db Error (List Message)
fetch_users_messages_since user_id starting_point = do
  messages ← lock (λ db. db.messages)
  pure (filter_map (involving user_id) (drop 1 (skip_while (is_not starting_point) messages)))

abbrev pub to_record : Message → MessageRecord
to_record m = record {
  id = m.id;
  from = m.from;
  to = m.to;
  message = m.message;
  timestamp = m.timestamp;
}

unfoldable pub create_message : Message → Exec Db Error (Unit {0})
create_message message = do
  messages ← lock (λ db. db.messages)
  put_messages (messages ++ to_record message ∷ [])

-- The store as an implementation of the trait, with the default methods that it does not override.
abbrev pub data_access : (Text → Text) → DataAccess Db Error
data_access unicode = record {
  fetch_users = fetch_users;
  fetch_user = Defaults.fetch_user fetch_users;
  find_user_by_username = Defaults.find_user_by_username fetch_users unicode;
  find_users_by_substring = Defaults.find_users_by_substring fetch_users unicode;
  create_user = create_user unicode;
  find_users_chats = find_users_chats;
  fetch_last_messages_in_chat = fetch_last_messages_in_chat;
  fetch_users_messages_since = fetch_users_messages_since;
  create_message = create_message;
}

unfoldable pub auth_of : UserId → AuthRecord → Option AuthenticationInfo
auth_of user_id r =
    if r.user_id == user_id then some (record { phc_string = r.phc_string }) else none

unfoldable pub fetch_authentication : UserId → Exec Db Error (Option AuthenticationInfo)
fetch_authentication user_id = do
  auth ← lock (λ db. db.auth)
  pure (first (filter_map (auth_of user_id) auth))

abbrev after_row : AuthRecord → Text × List AuthRecord → Text × List AuthRecord
after_row r (old, rows) = (old, r ∷ rows)

-- The loop over `iter_mut`: the first record of the user is overwritten and its hash returned.
unfoldable pub overwrite : UserId → Text → List AuthRecord → Option (Text × List AuthRecord)
overwrite user_id phc_string [] = none
overwrite user_id phc_string (r ∷ rows) =
    if r.user_id == user_id
    then some (r.phc_string, record r { phc_string = phc_string } ∷ rows)
    else Option.map (after_row r) (overwrite user_id phc_string rows)

abbrev store_auth :
    UserId
    → Text
    → List AuthRecord
    → Option (Text × List AuthRecord)
    → Exec Db Error (Option AuthenticationInfo)
store_auth user_id phc_string rows (some (old_auth, rows')) = do
  put_auth rows'
  pure (some (record { phc_string = old_auth }))
store_auth user_id phc_string rows none = do
  put_auth (rows ++ record { user_id = user_id; phc_string = phc_string } ∷ [])
  pure none

unfoldable pub update_authentication :
    UserId → AuthenticationInfo → Exec Db Error (Option AuthenticationInfo)
unfolding overwrite
update_authentication user_id auth_info = do
  rows ← lock (λ db. db.auth)
  store_auth user_id auth_info.phc_string rows (overwrite user_id auth_info.phc_string rows)

abbrev pub auth_storage : AuthStorage Db Error
auth_storage = record {
  fetch_authentication = fetch_authentication;
  update_authentication = update_authentication;
}
