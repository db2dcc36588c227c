-- ===== src/MockDb/Fixture.antt =====
-- lib/mock-db/src/lib.rs: the store that the server starts with when it is asked for the mock, with
-- sample users, messages and passwords. What `Uuid::new_v4` and `Utc::now` return is an argument:
-- the values in the order in which they are drawn. `none` stands for a panic.
pub mod Drafts
pub mod Laws
use pheidippides.Prelude.{
  ℕ, zero, suc, ◌+◌, ◌-◌, Text, codes, List, [], ◌∷◌, ◌++◌, drop, Option, none, some, HashMap,
  eq_text, Result, ok, err, ◌≡◌, refl, arith,
}
use pheidippides.Prelude.Maps
use pheidippides.Types.{Uuid, UserId, Timestamp}
use pheidippides.Http.Number.{to_string}
use pheidippides.Auth.{Argon2, AuthServiceError, create_user}
use pheidippides.MockDb.{Db, Error, MessageRecord, auth_storage, new_mutex}

-- `MessageRecord::new`.
abbrev pub new_record : Uuid → Timestamp → UserId → UserId → Text → MessageRecord
new_record id timestamp from to message = record {
  id = id;
  from = from;
  to = to;
  message = message;
  timestamp = timestamp;
}

module _ (uuid : ℕ → Uuid) where
  -- `for i in first..`, for `count` values of `i`; the value for `i` is draw number `i - 1`.
  unfoldable pub numbered_users : ℕ → ℕ → List (UserId × Text)
  numbered_users zero i = []
  numbered_users (suc count) i =
      (uuid (i - 1), codes "User " ++ to_string i) ∷ numbered_users count (suc i)

  unfoldable pub users_vec : List (UserId × Text)
  users_vec =
      (uuid 0, codes "User1")
      ∷ (uuid 1, codes "User2")
      ∷ (uuid 2, codes "User3")
      ∷ (uuid 3, codes "Пользователь1")
      ∷ numbered_users 95 5

unfoldable pub username_id_map : HashMap Text UserId → List (UserId × Text) → HashMap Text UserId
username_id_map res [] = res
username_id_map res ((id, username) ∷ users) = username_id_map (Maps.insert res username id) users

-- Who sends a sample message, who gets it, and its text.
abbrev pub Draft : Type 0
Draft = UserId × UserId × Text

abbrev pub sample_texts : List (Text × Text × Text)
sample_texts =
    (codes "User1", codes "User1", codes "Hello myself 1")
    ∷ (codes "User1", codes "User1", codes "Hello myself 2")
    ∷ (codes "User2", codes "User1", codes "Hello 1")
    ∷ (codes "User1", codes "User2", codes "Hello 2")
    ∷ (codes "User2", codes "User1", codes "Hello 3")
    ∷ (codes "User1", codes "User2", codes "Hello 4 😊")
    ∷ (codes "User1", codes "User3", codes "Hello 5")
    ∷ (codes "User3", codes "User1", codes "Hello 6")
    ∷ []

abbrev draft : Option UserId → Option UserId → Text → Option Draft
draft none to message = none
draft (some from) none message = none
draft (some from) (some to) message = some (from, to, message)

abbrev push : Option Draft → Option (List Draft) → Option (List Draft)
push none rest = none
push (some d) none = none
push (some d) (some rest) = some (d ∷ rest)

-- The loop over the texts; an index that is missing panics.
unfoldable pub sample_messages :
    HashMap Text UserId → List (Text × Text × Text) → Option (List Draft)
sample_messages ids [] = some []
sample_messages ids ((from, to, message) ∷ texts) =
    push (draft (Maps.get ids from) (Maps.get ids to) message) (sample_messages ids texts)

-- `for i in first..`, for `count` values of `i`.
unfoldable pub greetings : HashMap Text UserId → ℕ → ℕ → Option (List Draft)
greetings ids zero i = some []
greetings ids (suc count) i =
    push
      (draft (Maps.get ids (codes "Пользователь1")) (Maps.get ids (codes "User1"))
        (codes "Привет! (" ++ (to_string i ++ codes ")")))
      (greetings ids count (suc i))

-- The loop over the users that the code skips to.
unfoldable pub users_greetings : HashMap Text UserId → List (UserId × Text) → Option (List Draft)
users_greetings ids [] = some []
users_greetings ids ((user_id, _) ∷ users) =
    push (draft (some user_id) (Maps.get ids (codes "User1")) (codes "Привет"))
      (users_greetings ids users)

abbrev join : Option (List Draft) → Option (List Draft) → Option (List Draft)
join none rest = none
join (some drafts) none = none
join (some drafts) (some rest) = some (drafts ++ rest)

module _ (uuid : ℕ → Uuid) (now : ℕ → Timestamp) where
  -- The records, with the draws from number `k` on.
  unfoldable pub messages_vec : ℕ → List Draft → List MessageRecord
  messages_vec k [] = []
  messages_vec k ((from, to, message) ∷ drafts) =
      new_record (uuid k) (now k) from to message ∷ messages_vec (suc k) drafts

  abbrev pub all_drafts : List (UserId × Text) → HashMap Text UserId → Option (List Draft)
  all_drafts users ids =
      join (sample_messages ids sample_texts)
        (join (greetings ids 100 0) (users_greetings ids (drop 4 users)))

  module _ {Salt : Type 0} (argon2 : Argon2 Salt) where
    -- `expect` on the result of `create_user`.
    abbrev expected : Result (AuthServiceError Error) (Unit {0}) × Db → (Db → Option Db) → Option Db
    expected (err _, db) next = none
    expected (ok tt, db) next = next db

    -- The loop over the credentials.
    unfoldable pub create_credentials : List (Option UserId × Salt × Text) → Db → Option Db
    create_credentials [] db = some db
    create_credentials ((none, _, _) ∷ credentials) db = none
    create_credentials ((some user_id, salt, password) ∷ credentials) db =
        expected (create_user argon2 auth_storage salt user_id password db)
          (create_credentials credentials)

    abbrev filled : List (UserId × Text) → Option (List Draft) → Option Db
    filled users none = none
    filled users (some drafts) = some (record {
      users = new_mutex users;
      messages = new_mutex (messages_vec 99 drafts);
      auth = new_mutex [];
    })

    abbrev with_credentials : Option Db → List (Option UserId × Salt × Text) → Option Db
    with_credentials none credentials = none
    with_credentials (some db) credentials = create_credentials credentials db

    -- `Db::new`.
    unfoldable pub new : Salt → Salt → Option Db
    unfolding users_vec username_id_map
    new salt salt' =
        let users = users_vec uuid in
        let ids = username_id_map [] users in
        with_credentials (filled users (all_drafts users ids)) (
          (Maps.get ids (codes "User1"), salt, codes "User1")
          ∷ (Maps.get ids (codes "User2"), salt', codes "User2")
          ∷ [])
