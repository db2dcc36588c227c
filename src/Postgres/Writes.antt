-- ===== src/Postgres/Writes.antt =====
-- lib/postgres-db/src/lib.rs: what a method that writes leaves behind, whatever becomes of its steps.
use pheidippides.Prelude.{
  ℕ, Text, [], ◌∷◌, ◌++◌, Option, some, false, ◌==◌, eq_nat, eq_text, any, ok, Exec, ◌⊎◌, inl, inr,
  ◌≡◌, ◌≢◌, refl, arith, to_lowercase, Bool-cases, Option-cases, Result-cases, subst, sym,
}
use pheidippides.Types.{UserId}
use pheidippides.Postgres.Tables.{
  Db, Error, Fate, Ending, commit, rollback, transaction, transaction_atomic, reach, answered,
  refused, unanswered, Server, varying, has_key, insert_user,
}
use pheidippides.Postgres.Queries.{sign_up, create_user}
use pheidippides.Prelude.Effects.{◌>>◌}

module _ (server : Server) (unicode : Text → Text) where
  -- The row that a sign-up may add: no user has its id or the name as it is stored, and the server's
  -- `lower` gives for no stored name the one that was asked for, in lower case and not cut.
  pub record Added (id : UserId) (username : Text) (db db' : Db) : Type 0 where
    pub name : Text
    pub cut : varying 150 username ≡ some name
    pub new_id : has_key id db.users ≡ false
    pub new_name :
        any (λ (row : UserId × Text). server.lower row.1 == to_lowercase unicode username) db.users
        ≡ false
    pub new_row : any (λ (row : UserId × Text). row.1 == name) db.users ≡ false
    pub after : db' ≡ record db { users = db.users ++ (id, name) ∷ [] }

  insert_user-Added :
      (id : UserId) (username : Text) (db db' : Db)
      → any (λ (row : UserId × Text). server.lower row.1 == to_lowercase unicode username) db.users
        ≡ false
      → insert_user id username db ≡ (ok tt, db')
      → Added id username db db'
  unfolding insert_user
  insert_user-Added id username db db' new h = elim (Option-cases (varying 150 username)) [
    | inl e ↦ absurd (ground arith)
    | inr (name, e) ↦ record {
      name = name;
      cut = e;
      new_id = ground arith;
      new_name = new;
      new_row = ground arith;
      after = ground arith;
    }
  ]

  sign_up-Added :
      (f g h : Fate) (id : UserId) (username : Text) (db : Db) (a : Option UserId)
      → sign_up server unicode f g h id username db
        ≡ (ok (commit a), (sign_up server unicode f g h id username db).1)
      → Added id username db (sign_up server unicode f g h id username db).1
  unfolding sign_up
  sign_up-Added answered answered answered id username db a done =
      elim (Bool-cases (
        any (λ (row : UserId × Text). server.lower row.1 == to_lowercase unicode username)
          db.users)) [
            | inl taken ↦ absurd (ground arith)
            | inr new ↦ elim (Result-cases (insert_user id username db).0) [
              | inl (tt, e) ↦
                  let same : (insert_user id username db).1
                      ≡ (sign_up server unicode answered answered answered id username db).1 =
                    ground arith in
                  subst (Added id username db) same (
                    insert_user-Added id username db (insert_user id username db).1 new
                      (ground (arith, e)))
              | inr (x, e) ↦ absurd (ground arith)
            ]
          ]
  sign_up-Added answered answered refused id username db a done = absurd (ground arith)
  sign_up-Added answered answered unanswered id username db a done = absurd (ground arith)
  sign_up-Added answered refused h id username db a done = absurd (ground arith)
  sign_up-Added answered unanswered h id username db a done = absurd (ground arith)
  sign_up-Added refused g h id username db a done = absurd (ground arith)
  sign_up-Added unanswered g h id username db a done = absurd (ground arith)

  sign_up_rollback :
      (f g h : Fate) (id i : UserId) (username : Text) (db : Db)
      → (sign_up server unicode f g h id username db).0 ≢ ok (rollback (some i))
  unfolding sign_up
  sign_up_rollback f g h id i username db done = ground arith

  -- Whatever becomes of each step of a sign-up, the tables are as they were and the answer is not a
  -- new user, or exactly one row is added: the new id with the name, cut to its column, where no
  -- user had the id, none the name as it is cut, and the server's `lower` gave for no stored name
  -- the lower case of the name that was asked for.
  pub create_user_atomic :
      (fate : ℕ → Fate) (id : UserId) (username : Text) (db : Db)
      → (((create_user server unicode fate id username db).1 ≡ db)
          × ((i : UserId) → (create_user server unicode fate id username db).0 ≢ ok (some i)))
        ⊎ Added id username db (create_user server unicode fate id username db).1
  unfolding create_user
  create_user_atomic fate id username db = reached (fate 0)
    where
      body : Exec Db Error (Ending (Option UserId))
      body = sign_up server unicode (fate 1) (fate 2) (fate 3) id username

      settled :
          (((transaction (fate 4) body db).1 ≡ db)
            × ((i : UserId) → (transaction (fate 4) body db).0 ≢ ok (some i)))
          ⊎ Added id username db (transaction (fate 4) body db).1
      settled = elim (transaction_atomic (fate 4) body db) [
        | inl (same, back) ↦ inl (
          same,
          λ i done.
              sign_up_rollback (fate 1) (fate 2) (fate 3) id i username db (back (some i) done),
        )
        | inr (a, done, same) ↦ inr (
            subst (Added id username db) (sym same)
              (sign_up-Added (fate 1) (fate 2) (fate 3) id username db a done))
      ]

      reached :
          (f : Fate)
          → (((reach f >> transaction (fate 4) body) db).1 ≡ db
              × ((i : UserId) → ((reach f >> transaction (fate 4) body) db).0 ≢ ok (some i)))
            ⊎ Added id username db ((reach f >> transaction (fate 4) body) db).1
      reached answered = settled
      reached refused = inl (refl, λ i h. cc)
      reached unanswered = inl (refl, λ i h. cc)
