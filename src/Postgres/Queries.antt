-- ===== src/Postgres/Queries.antt =====
-- lib/postgres-db/src/lib.rs: the queries and statements of the store. `fate n` is what becomes of
-- the n-th step of a method: the connection or `begin`, then each statement, then `commit`.
use pheidippides.Prelude.{
  ℕ, leb, ltb, Text, codes, List, [], ◌∷◌, ◌++◌, Option, none, some, Bool, true, ◌||◌, ◌&&◌, ◌==◌,
  eq_nat, eq_text, any, keep, take, first, map, if◌then◌else◌, Exec, pure, Result, ok, err,
  to_lowercase,
}
use pheidippides.Prelude.Strings.{replace}
use pheidippides.Prelude.Maps
use pheidippides.Prelude.Effects.{◌>>=◌, ◌>>◌}
use pheidippides.Types.{UserId, MessageId, Timestamp, User, Message}
use pheidippides.DataAccess.{message_load_buf_size}
use pheidippides.Auth.{AuthenticationInfo}
use pheidippides.Postgres.Like.{like}
use pheidippides.Postgres.Tables.{
  Db, Error, auth_info_parsing_error, unexpected_null, Fate, Ending, run, reach, select, commit,
  rollback, transaction, Server, insert_user, insert_message, insert_auth, update_auth,
}
use mathlib.Core.Option

-- An identifier between quotes, each quote in it doubled.
unfoldable pub pg_id : Text → Text
pg_id input = b'"' ∷ (replace b'"' (codes "\"\"") input ++ codes "\"")

unfoldable pub temp_table_name : Text → Text → Text
unfolding pg_id
temp_table_name name uuid = pg_id (codes "temp_" ++ (name ++ (codes "_" ++ uuid)))

-- The conditions of the `where` clauses.
unfoldable pub between : UserId → UserId → Message → Bool
between user_id_1 user_id_2 m =
    (m.to == user_id_1 && m.from == user_id_2) || (m.to == user_id_2 && m.from == user_id_1)

unfoldable pub touches : UserId → Message → Bool
touches user_id m = m.to == user_id || m.from == user_id

-- `(timestamp, id) < ($1, $2)`, and with `>`.
unfoldable pub before : Timestamp → MessageId → Message → Bool
before t id m = ltb m.timestamp t || (m.timestamp == t && ltb m.id id)

unfoldable pub after : Timestamp → MessageId → Message → Bool
after t id m = ltb t m.timestamp || (m.timestamp == t && ltb id m.id)

-- `select timestamp from messages where id = $1`
unfoldable pub timestamp_of : MessageId → List Message → Option Timestamp
timestamp_of id rows =
    Option.map (λ (m : Message). m.timestamp) (first (keep (λ m. m.id == id) rows))

abbrev page_before : Option Timestamp → MessageId → Message → Bool
page_before none id m = true
page_before (some t) id m = before t id m

-- `group by` with the maximum of the timestamps.
abbrev pub latest : Option Timestamp → Timestamp → Timestamp
latest none t = t
latest (some u) t = if leb t u then u else t

unfoldable pub group_max : List (UserId × Timestamp) → List (UserId × Timestamp)
group_max [] = []
group_max ((id, t) ∷ rows) =
    let groups = group_max rows in Maps.insert groups id (latest (Maps.get groups id) t)

-- `union` keeps one of equal rows.
abbrev pub same_row : UserId × Timestamp → UserId × Timestamp → Bool
same_row a b = a.0 == b.0 && a.1 == b.1

unfoldable pub union :
    List (UserId × Timestamp) → List (UserId × Timestamp) → List (UserId × Timestamp)
union [] rows = rows
union (r ∷ more) rows =
    let rest = union more rows in if any (same_row r) rest then rest else r ∷ rest

unfoldable pub received_from : UserId → List Message → List (UserId × Timestamp)
received_from user_id rows =
    map (λ (m : Message). (m.from, m.timestamp)) (keep (λ m. m.to == user_id) rows)

unfoldable pub sent_to : UserId → List Message → List (UserId × Timestamp)
sent_to user_id rows =
    map (λ (m : Message). (m.to, m.timestamp)) (keep (λ m. m.from == user_id) rows)

-- The table `chat_ids_grouped`.
unfoldable pub chat_ids_grouped : UserId → List Message → List (UserId × Timestamp)
unfolding union group_max received_from sent_to
chat_ids_grouped user_id rows =
    group_max (union (group_max (received_from user_id rows)) (group_max (sent_to user_id rows)))

-- `left join users`, and the row as a `User`.
abbrev joined : UserId → Option Text → Result Error (List User) → Result Error (List User)
joined id none rest = err unexpected_null
joined id (some username) (err e) = err e
joined id (some username) (ok listed) = ok (record { username = username; id = id } ∷ listed)

unfoldable pub left_join :
    List (UserId × Text) → List (UserId × Timestamp) → Result Error (List User)
left_join users [] = ok []
left_join users ((id, _) ∷ rows) = joined id (Maps.get users id) (left_join users rows)

abbrev pub as_user : UserId × Text → User
as_user row = record { username = row.1; id = row.0 }

module _ (server : Server) (unicode : Text → Text) where
  -- The transaction of `create_user`, up to `commit`.
  unfoldable pub sign_up :
      Fate → Fate → Fate → UserId → Text → Exec Db Error (Ending (Option UserId))
  sign_up lock exists insert user_id username = do
    reach lock
    username_exists ← select exists (λ db.
        any (λ (row : UserId × Text). server.lower row.1 == to_lowercase unicode username) db.users)
    if username_exists
        then pure (rollback none)
        else do run insert (insert_user user_id username); pure (commit (some user_id))

module _ (server : Server) (unicode : Text → Text) (fate : ℕ → Fate) where
  unfoldable pub fetch_users : Exec Db Error (List (UserId × Text))
  fetch_users = do reach (fate 0); select (fate 1) (λ db. db.users)

  unfoldable pub fetch_user : UserId → Exec Db Error (Option User)
  fetch_user user_id = do
    reach (fate 0)
    row ← select (fate 1) (λ db. first (keep (λ (row : UserId × Text). row.0 == user_id) db.users))
    pure (Option.map (λ (row : UserId × Text). record { username = row.1; id = user_id }) row)

  unfoldable pub find_user_by_username : Text → Exec Db Error (Option UserId)
  find_user_by_username requested_username = do
    reach (fate 0)
    row ← select (fate 1) (λ db. first (
        keep
          (λ (row : UserId × Text). server.lower row.1 == to_lowercase unicode requested_username)
          db.users))
    pure (Option.map (λ (row : UserId × Text). row.0) row)

  unfoldable pub find_users_by_substring : Text → Exec Db Error (List User)
  find_users_by_substring search_query = do
    let pattern = codes "%" ++ (to_lowercase unicode search_query ++ codes "%")
    reach (fate 0)
    rows ←
        select (fate 1)
          (λ db. keep (λ (row : UserId × Text). like pattern (server.lower row.1)) db.users)
    pure (map as_user rows)

  unfoldable pub create_user : UserId → Text → Exec Db Error (Option UserId)
  unfolding sign_up
  create_user user_id username = do
    reach (fate 0)
    transaction (fate 4) (sign_up server unicode (fate 1) (fate 2) (fate 3) user_id username)

  unfoldable pub find_users_chats : UserId → Exec Db Error (List User)
  find_users_chats user_id = do
    reach (fate 0)
    grouped ← select (fate 1) (λ db. chat_ids_grouped user_id db.messages)
    reach (fate 2)
    reach (fate 3)
    rows ← select (fate 4) (λ db. left_join db.users (server.latest_first grouped))
    listed ← (λ db. (rows, db))
    reach (fate 5)
    pure listed

  abbrev page_start : Option MessageId → Exec Db Error (Message → Bool)
  page_start none = pure (λ _. true)
  page_start (some starting_point) = do
    msg_timestamp ← select (fate 1) (λ db. timestamp_of starting_point db.messages)
    pure (page_before msg_timestamp starting_point)

  unfoldable pub fetch_last_messages_in_chat :
      UserId → UserId → Option MessageId → Exec Db Error (List Message)
  fetch_last_messages_in_chat user_id_1 user_id_2 starting_point = do
    reach (fate 0)
    from_start ← page_start starting_point
    select (fate 2) (λ db. take message_load_buf_size (
        server.newest_first
          (keep (λ m. between user_id_1 user_id_2 m && from_start m) db.messages)))

  abbrev since : UserId → MessageId → Option Timestamp → Exec Db Error (List Message)
  since user_id starting_point none = pure []
  since user_id starting_point (some msg_timestamp) = select (fate 2) (λ db.
      server.oldest_first
        (keep (λ m. touches user_id m && after msg_timestamp starting_point m) db.messages))

  unfoldable pub fetch_users_messages_since : UserId → MessageId → Exec Db Error (List Message)
  fetch_users_messages_since user_id starting_point = do
    reach (fate 0)
    msg_timestamp ← select (fate 1) (λ db. timestamp_of starting_point db.messages)
    since user_id starting_point msg_timestamp

  unfoldable pub create_message : Message → Exec Db Error (Unit {0})
  create_message message = do
    reach (fate 0)
    run (fate 1) (insert_message server.timestamptz message)

abbrev phc_of : UserId → Db → Option (UserId × Text)
phc_of user_id db = first (keep (λ (row : UserId × Text). row.0 == user_id) db.auth)

-- `phc_string.parse()?`, over the parser of the crate `password_hash`.
abbrev parsed : Option Text → Text → Result Error AuthenticationInfo
parsed none phc_string = err (auth_info_parsing_error phc_string)
parsed (some valid) phc_string = ok (record { phc_string = valid })

module _ (parse_phc : Text → Option Text) where
  abbrev found_auth : Option (UserId × Text) → Exec Db Error (Option AuthenticationInfo)
  found_auth none = pure none
  found_auth (some (_, phc_string)) = do
    auth_info ← (λ db. (parsed (parse_phc phc_string) phc_string, db))
    pure (some auth_info)

  abbrev write_auth : UserId → Text → Option (UserId × Text) → Exec Db Error (Unit {0})
  write_auth user_id phc_string none = insert_auth user_id phc_string
  write_auth user_id phc_string (some _) = update_auth user_id phc_string

  -- The transaction of `update_authentication`, up to `commit`.
  unfoldable pub replace_auth :
      Fate → Fate → Fate → UserId → Text → Exec Db Error (Ending (Option AuthenticationInfo))
  replace_auth lock read write user_id phc_string = do
    reach lock
    row ← select read (phc_of user_id)
    old_auth ← found_auth row
    run write (write_auth user_id phc_string row)
    pure (commit old_auth)

module _ (parse_phc : Text → Option Text) (fate : ℕ → Fate) where
  unfoldable pub fetch_authentication : UserId → Exec Db Error (Option AuthenticationInfo)
  fetch_authentication user_id = do
    reach (fate 0)
    res ← select (fate 1) (phc_of user_id)
    found_auth parse_phc res

  unfoldable pub update_authentication :
      UserId → AuthenticationInfo → Exec Db Error (Option AuthenticationInfo)
  unfolding replace_auth
  update_authentication user_id auth_info = do
    reach (fate 0)
    transaction (fate 4)
        (replace_auth parse_phc (fate 1) (fate 2) (fate 3) user_id auth_info.phc_string)
