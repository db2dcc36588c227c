-- ===== src/DataAccess/Laws.antt =====
-- What the messenger relies on in a store: the contract of `create_user` and of
-- `find_user_by_username`, and that of the messages, as interfaces
-- that an implementation fills.
use pheidippides.Prelude.{
  Text, List, [], ◌∷◌, ◌++◌, none, some, Bool, ◌||◌, not, ◌==◌, eq_nat, keep, drop, skip_while, ok,
  to_lowercase, ◌≡◌,
}
use pheidippides.Types.{UserId, MessageId, Message}
use pheidippides.DataAccess.{DataAccess}

pub record LawfulUsers (B E : Type 0) (unicode : Text → Text) (d : DataAccess B E) : Type 0 where
  -- A user who was created is found under the name, in any case.
  pub find-create_user :
      (fresh id : UserId) (name name' : Text) (b b' : B)
      → d.create_user fresh name b ≡ (ok (some id), b')
      → to_lowercase unicode name ≡ to_lowercase unicode name'
      → d.find_user_by_username name' b' ≡ (ok (some id), b')
  -- A name that is found cannot be taken again.
  pub create_user_taken :
      (fresh id : UserId) (name name' : Text) (b b' : B)
      → d.find_user_by_username name b ≡ (ok (some id), b')
      → to_lowercase unicode name ≡ to_lowercase unicode name'
      → d.create_user fresh name' b ≡ (ok none, b)
  -- Looking up a name changes nothing.
  pub find_keeps : (name : Text) (b : B) → (d.find_user_by_username name b).1 ≡ b

-- The user sent or received the message.
abbrev pub concerns : UserId → Message → Bool
concerns user_id m = m.from == user_id || m.to == user_id

-- The messages of a user that follow a message in a log, which starts with the oldest one.
abbrev pub since : UserId → MessageId → List Message → List Message
since user_id starting_point log =
    keep (concerns user_id)
      (drop 1 (skip_while (λ (m : Message). not (m.id == starting_point)) log))

-- A store that holds its messages in the order in which they came.
pub record LawfulLog (B E : Type 0) (d : DataAccess B E) : Type 0 where
  pub log : B → List Message
  pub log-create_message :
      (m : Message) (b b' : B) → d.create_message m b ≡ (ok tt, b') → log b' ≡ log b ++ m ∷ []
  pub since-log :
      (user_id : UserId) (starting_point : MessageId) (b b' : B) (ms : List Message)
      → d.fetch_users_messages_since user_id starting_point b ≡ (ok ms, b')
      → (ms ≡ since user_id starting_point (log b)) × (log b' ≡ log b)
