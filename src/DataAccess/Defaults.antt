-- ===== src/DataAccess/Defaults.antt =====
-- lib/pheidippides-messenger/src/data_access.rs: the methods that the trait provides, in terms of
-- `fetch_users`.
use pheidippides.Prelude.{
  Text, List, Option, none, some, Exec, pure, first, filter_map, if◌then◌else◌, ◌==◌, eq_nat,
  eq_text, to_lowercase, contains_text,
}
use pheidippides.Prelude.Effects.{◌>>=◌}
use pheidippides.Types.{UserId, User}

unfoldable pub with_id : UserId → UserId × Text → Option User
with_id user_id (id, username) =
    if id == user_id then some (record { username = username; id = id }) else none

module _ (unicode : Text → Text) where
  unfoldable pub with_username : Text → UserId × Text → Option UserId
  with_username requested_username (id, username) =
      if to_lowercase unicode username == to_lowercase unicode requested_username
      then some id
      else none

  -- `search_query` is in lower case.
  unfoldable pub with_substring : Text → UserId × Text → Option User
  with_substring search_query (user_id, username) =
      if contains_text (to_lowercase unicode username) search_query
      then some (record { username = username; id = user_id })
      else none

module _ {B E : Type 0} (fetch_users : Exec B E (List (UserId × Text))) where
  unfoldable pub fetch_user : UserId → Exec B E (Option User)
  fetch_user user_id = do users ← fetch_users; pure (first (filter_map (with_id user_id) users))

  unfoldable pub find_user_by_username : (Text → Text) → Text → Exec B E (Option UserId)
  find_user_by_username unicode requested_username = do
    users ← fetch_users
    pure (first (filter_map (with_username unicode requested_username) users))

  unfoldable pub find_users_by_substring : (Text → Text) → Text → Exec B E (List User)
  find_users_by_substring unicode substring = do
    let search_query = to_lowercase unicode substring
    users ← fetch_users
    pure (filter_map (with_substring unicode search_query) users)
