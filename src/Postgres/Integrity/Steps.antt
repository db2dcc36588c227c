-- ===== src/Postgres/Integrity/Steps.antt =====
-- lib/postgres-db/src/lib.rs: the tables keep their integrity over every sequence of calls.
use pheidippides.Prelude.{ℕ, Text, Option, ◌⊎◌, inl, inr, ◌≡◌, refl, subst, sym, arith, Exec}
use pheidippides.Prelude.Effects.{◌>>◌}
use pheidippides.Types.{UserId, Message}
use pheidippides.Auth.{AuthenticationInfo}
use pheidippides.Postgres.Tables.{
  Db, Error, Fate, answered, refused, unanswered, Server, insert_message, insert_auth, update_auth,
  Ending, transaction, transaction_atomic, reach, run,
}
use pheidippides.Postgres.Queries.{create_user, create_message, replace_auth, update_authentication}
use pheidippides.Postgres.Writes.{create_user_atomic}
use pheidippides.Postgres.Integrity.{
  HasIntegrity, Added-HasIntegrity, insert_message-HasIntegrity, insert_auth-HasIntegrity,
  update_auth-HasIntegrity,
}

reach-keeps :
    {A : Type 0} (f : Fate) (call : Exec Db Error A) (db : Db)
    → HasIntegrity db
    → HasIntegrity (call db).1
    → HasIntegrity ((reach f >> call) db).1
reach-keeps answered call db h k = k
reach-keeps refused call db h k = h
reach-keeps unanswered call db h k = h

run-keeps :
    {A : Type 0} (f : Fate) (call : Exec Db Error A) (db : Db)
    → HasIntegrity db
    → HasIntegrity (call db).1
    → HasIntegrity (run f call db).1
run-keeps answered call db h k = k
run-keeps refused call db h k = h
run-keeps unanswered call db h k = k

transaction-keeps :
    {A : Type 0} (f : Fate) (body : Exec Db Error (Ending A)) (db : Db)
    → HasIntegrity db
    → HasIntegrity (body db).1
    → HasIntegrity (transaction f body db).1
transaction-keeps f body db h k = elim (transaction_atomic f body db) [
  | inl (same, _) ↦ subst HasIntegrity (sym same) h
  | inr (a, _, same) ↦ subst HasIntegrity (sym same) k
]

module _ (server : Server) (unicode : Text → Text) (parse_phc : Text → Option Text) where
  replace_auth_writes :
      (f g h : Fate) (id : UserId) (phc : Text) (db : Db)
      → let after = (replace_auth parse_phc f g h id phc db).1 in
        (after ≡ db) ⊎ ((after ≡ (insert_auth id phc db).1) ⊎ (after ≡ (update_auth id phc db).1))
  unfolding replace_auth
  replace_auth_writes answered answered answered id phc db = ground arith
  replace_auth_writes answered answered refused id phc db = ground arith
  replace_auth_writes answered answered unanswered id phc db = ground arith
  replace_auth_writes answered refused h id phc db = inl refl
  replace_auth_writes answered unanswered h id phc db = inl refl
  replace_auth_writes refused g h id phc db = inl refl
  replace_auth_writes unanswered g h id phc db = inl refl

  replace_auth-HasIntegrity :
      (f g h : Fate) (id : UserId) (phc : Text) (db : Db)
      → HasIntegrity db
      → HasIntegrity (replace_auth parse_phc f g h id phc db).1
  replace_auth-HasIntegrity f g h id phc db k = elim (replace_auth_writes f g h id phc db) [
    | inl same ↦ subst HasIntegrity (sym same) k
    | inr (inl same) ↦ subst HasIntegrity (sym same) (insert_auth-HasIntegrity id phc db k)
    | inr (inr same) ↦ subst HasIntegrity (sym same) (update_auth-HasIntegrity id phc db k)
  ]

  -- The calls that write, each with what becomes of its steps.
  pub data Step (db : Db) : Db → Type 0 where
    signs_up :
        (fate : ℕ → Fate) (id : UserId) (username : Text)
        → Step db (create_user server unicode fate id username db).1
    sends : (fate : ℕ → Fate) (m : Message) → Step db (create_message server unicode fate m db).1
    sets_password :
        (fate : ℕ → Fate) (id : UserId) (info : AuthenticationInfo)
        → Step db (update_authentication parse_phc fate id info db).1

  pub data Reach (db : Db) : Db → Type 0 where
    here : Reach db db
    next : {t u : Db} → Reach db t → Step t u → Reach db u

  Step-HasIntegrity : {t u : Db} → Step t u → HasIntegrity t → HasIntegrity u
  unfolding create_message update_authentication
  Step-HasIntegrity {t} (signs_up fate id username) h =
      elim (create_user_atomic server unicode fate id username t) [
        | inl (same, _) ↦ subst HasIntegrity (sym same) h
        | inr added ↦ Added-HasIntegrity server unicode id username t _ added h
      ]
  Step-HasIntegrity {t} (sends fate m) h =
      reach-keeps (fate 0) (run (fate 1) (insert_message server.timestamptz m)) t h (
        run-keeps (fate 1) (insert_message server.timestamptz m) t h
          (insert_message-HasIntegrity server.timestamptz m t h))
  Step-HasIntegrity {t} (sets_password fate id info) h = reach-keeps (fate 0) _ t h (
      transaction-keeps (fate 4)
        (replace_auth parse_phc (fate 1) (fate 2) (fate 3) id info.phc_string) t h
        (replace_auth-HasIntegrity (fate 1) (fate 2) (fate 3) id info.phc_string t h))

  -- After any sequence of sign-ups, messages and changes of passwords, whatever became of their
  -- steps, ids are distinct in each table, every message is between two users, and every
  -- password belongs to a user, if this was so before.
  pub Reach-HasIntegrity : {t u : Db} → HasIntegrity t → Reach t u → HasIntegrity u
  Reach-HasIntegrity h here = h
  Reach-HasIntegrity h (next r st) = Step-HasIntegrity st (Reach-HasIntegrity h r)
