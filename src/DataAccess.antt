-- ===== src/DataAccess.antt =====
-- lib/pheidippides-messenger/src/data_access.rs: the trait through which the messenger reads and
-- writes stored data. `B` is the state of the store and `E` the associated error type. A value
-- that an implementation draws (`Uuid::new_v4`) is an argument.
pub mod Defaults
pub mod Laws
pub mod Since
use pheidippides.Prelude.{ℕ, Text, List, Option, Exec}
use pheidippides.Types.{UserId, MessageId, User, Message}

abbrev pub message_load_buf_size : ℕ
message_load_buf_size = 50

pub record DataAccess (B E : Type 0) : Type 0 where
  pub fetch_users : Exec B E (List (UserId × Text))
  pub fetch_user : UserId → Exec B E (Option User)
  pub find_user_by_username : Text → Exec B E (Option UserId)
  pub find_users_by_substring : Text → Exec B E (List User)
  pub create_user : UserId → Text → Exec B E (Option UserId)
  pub find_users_chats : UserId → Exec B E (List User)
  pub fetch_last_messages_in_chat : UserId → UserId → Option MessageId → Exec B E (List Message)
  pub fetch_users_messages_since : UserId → MessageId → Exec B E (List Message)
  pub create_message : Message → Exec B E (Unit {0})
