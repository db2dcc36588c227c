-- ===== src/Tests/Chats.antt =====
-- The chats of user 2, in both stores.
use pheidippides.Prelude.{eq_nat, List, [], ok, ◌≡◌, refl, arith}
use pheidippides.Prelude.Maps
use pheidippides.Types.{UserId, User}
use pheidippides.MockDb
use pheidippides.MockDb.{names_by_id}
use pheidippides.Postgres.Tables.{answered}
use pheidippides.Postgres.Queries.{find_users_chats}
use pheidippides.Postgres.Chats.{find_users_chats-refines}
use pheidippides.Tests.Base.{same_text, store}
use pheidippides.Tests.Tables.{server, tables, log, tables-Represents, log-IsChronological}

same_names :
    (id : UserId) → Maps.get (names_by_id [] store.users.inner) id ≡ Maps.get tables.users id
unfolding names_by_id Maps.insert
same_names id = refl

find_users_chats-refines_example :
    (listed : List User) × (find_users_chats server same_text (λ _. answered) 2 tables
      ≡ (ok listed, tables))
    × (MockDb.find_users_chats 2 store ≡ (ok listed, store))
find_users_chats-refines_example =
    find_users_chats-refines server tables log store tables-Represents log-IsChronological same_text
      2 refl same_names (ground arith)
