-- ===== src/Postgres/Search.antt =====
-- lib/postgres-db/src/lib.rs and lib/pheidippides-messenger/src/data_access.rs: searching users by
-- a part of their name, in SQL and as the trait provides it.
use pheidippides.Prelude.{
  Text, codes, List, [], ◌∷◌, ◌++◌, ◌≡◌, refl, ap, arith, map, keep, filter_map, to_lowercase, ok,
}
use pheidippides.Types.{UserId}
use pheidippides.DataAccess.Defaults
use pheidippides.DataAccess.Defaults.{with_substring}
use pheidippides.Postgres.Tables.{Db, Server, answered}
use pheidippides.Postgres.Like.{like, IsPlain, like-contains}
use pheidippides.Postgres.Queries.{as_user, fetch_users, find_users_by_substring}

module _ (server : Server) (unicode : Text → Text)
    (same_lower : (name : Text) → server.lower name ≡ to_lowercase unicode name) where
  rows-eq :
      (query : Text) (rows : List (UserId × Text))
      → IsPlain query
      → map as_user (
          keep
            (λ (row : UserId × Text). like (codes "%" ++ (query ++ codes "%")) (server.lower row.1))
            rows)
        ≡ filter_map (with_substring unicode query) rows
  unfolding with_substring
  rows-eq query [] plain = refl
  rows-eq query ((id, name) ∷ rows) plain =
      rw (like-contains query (server.lower name) plain, same_lower name)
        (ground (arith, rows-eq query rows plain))

  -- Where `lower` of the database agrees with `to_lowercase`, the server answers each statement and
  -- the search text has no `%`, no `_` and no backslash, the search with `like` answers what
  -- the search that the trait provides answers on the same table.
  pub search-eq :
      (query : Text) (db : Db)
      → IsPlain (to_lowercase unicode query)
      → find_users_by_substring server unicode (λ _. answered) query db
        ≡ Defaults.find_users_by_substring
            (fetch_users server unicode (λ _. answered))
            unicode
            query
            db
  unfolding find_users_by_substring Defaults.find_users_by_substring fetch_users
  search-eq query db plain =
      ap (λ listed. (ok listed, db)) (rows-eq (to_lowercase unicode query) db.users plain)
