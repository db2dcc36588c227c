-- ===== src/MockDb/Users.antt =====
-- lib/mock-db/src/lib.rs: the table of users holds each name once, whatever its case.
use pheidippides.Prelude.{
  Text, List, [], ◌∷◌, ◌++◌, some, true, false, ◌≡◌, arith, eq_nat, eq_text, any, filter_map, first,
  to_lowercase, IsUnique, IsNew, IsUnique-append, IsNew-of_any, text_eq_iff,
}
use pheidippides.Types.{UserId}
use pheidippides.DataAccess.Laws.{LawfulUsers}
use pheidippides.DataAccess.Defaults.{find_user_by_username, with_username}
use pheidippides.MockDb.{Db, Error, same_name, fetch_users, create_user, data_access}

module _ (unicode : Text → Text) where
  abbrev pub lower_name : UserId × Text → Text
  lower_name row = to_lowercase unicode row.1

  -- Names are distinct up to case, and ids are distinct.
  pub record HasDistinctUsers (db : Db) : Type 0 where
    pub names : IsUnique lower_name db.users.inner
    pub ids : IsUnique {A = UserId × Text} (λ row. row.0) db.users.inner

  -- If names are distinct up to case and ids are distinct, they are so after `create_user` with an
  -- id that is not in use, on every branch.
  pub create_user-HasDistinctUsers :
      (fresh : UserId) (username : Text) (db : Db)
      → HasDistinctUsers db
      → IsNew {A = UserId × Text} (λ row. row.0) fresh db.users.inner
      → HasDistinctUsers (create_user unicode fresh username db).1
  unfolding create_user same_name
  create_user-HasDistinctUsers fresh username db v n = ground (
    arith,
    IsNew-of_any lower_name (to_lowercase unicode username) db.users.inner,
    IsUnique-append lower_name db.users.inner (fresh, username) v.names,
    IsUnique-append {A = UserId × Text} (λ row. row.0) db.users.inner (fresh, username) v.ids n,
  )

  first-append :
      (name name' : Text) (fresh : UserId) (rows : List (UserId × Text))
      → any (same_name unicode name) rows ≡ false
      → to_lowercase unicode name ≡ to_lowercase unicode name'
      → first (filter_map (with_username unicode name') (rows ++ (fresh, name) ∷ [])) ≡ some fresh
  unfolding same_name with_username
  first-append name name' fresh [] h p =
      ground (arith, text_eq_iff (to_lowercase unicode name) (to_lowercase unicode name'))
  first-append name name' fresh (row ∷ rows) h p =
      ground (arith, first-append name name' fresh rows)

  any-of-first :
      (name name' : Text) (id : UserId) (rows : List (UserId × Text))
      → first (filter_map (with_username unicode name) rows) ≡ some id
      → to_lowercase unicode name ≡ to_lowercase unicode name'
      → any (same_name unicode name') rows ≡ true
  unfolding same_name with_username
  any-of-first name name' id [] h p = cc
  any-of-first name name' id ((i, n) ∷ rows) h p = ground (arith, any-of-first name name' id rows)

  pub mock-LawfulUsers : LawfulUsers Db Error unicode (data_access unicode)
  unfolding create_user find_user_by_username fetch_users
  mock-LawfulUsers = record {
    find-create_user =
        λ fresh id name name' b b' h p. ground (arith, first-append name name' fresh b.users.inner);
    create_user_taken =
        λ fresh id name name' b b' h p. ground (arith, any-of-first name name' id b.users.inner);
    find_keeps = λ name b. ground arith;
  }
