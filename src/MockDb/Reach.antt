-- ===== src/MockDb/Reach.antt =====
-- lib/mock-db/src/lib.rs: what holds of the tables after any methods, from the empty store on.
use pheidippides.Prelude.{
  Text, List, [], ◌∷◌, ◌++◌, none, some, false, eq_nat, ◌≡◌, refl, arith, Option-cases, inl, inr,
  IsUnique, IsNew, IsUnique-append, nat_eq_iff, sym, subst,
}
use pheidippides.Types.{UserId, Message}
use pheidippides.Auth.{AuthenticationInfo}
use pheidippides.MockDb.{
  Db, MessageRecord, AuthRecord, empty, create_user, create_message, update_authentication,
  overwrite,
}
use pheidippides.MockDb.Users.{HasDistinctUsers, create_user-HasDistinctUsers}
use pheidippides.MockDb.Messages.{HasDistinctMessages, create_message-HasDistinctMessages}

overwrite-IsNew :
    (k id : UserId) (phc old : Text) (rows rows' : List AuthRecord)
    → overwrite id phc rows ≡ some (old, rows')
    → IsNew {A = AuthRecord} (λ r. r.user_id) k rows
    → IsNew {A = AuthRecord} (λ r. r.user_id) k rows'
unfolding overwrite
overwrite-IsNew k id phc old [] rows' h n = cc
overwrite-IsNew k id phc old (r ∷ rows) rows' h (n, ns) =
    elim (Option-cases (overwrite id phc rows)) [
      | inl e ↦ ground arith
      | inr ((old', later), e) ↦ ground (arith, overwrite-IsNew k id phc old' rows later e ns)
    ]

overwrite-IsUnique :
    (id : UserId) (phc old : Text) (rows rows' : List AuthRecord)
    → overwrite id phc rows ≡ some (old, rows')
    → IsUnique {A = AuthRecord} (λ r. r.user_id) rows
    → IsUnique {A = AuthRecord} (λ r. r.user_id) rows'
unfolding overwrite
overwrite-IsUnique id phc old [] rows' h u = cc
overwrite-IsUnique id phc old (r ∷ rows) rows' h (n, u) =
    elim (Option-cases (overwrite id phc rows)) [
      | inl e ↦ ground arith
      | inr ((old', later), e) ↦ ground (
        arith,
        overwrite-IsUnique id phc old' rows later e u,
        overwrite-IsNew r.user_id id phc old' rows later e n,
      )
    ]

overwrite-none :
    (id : UserId) (phc : Text) (rows : List AuthRecord)
    → overwrite id phc rows ≡ none
    → IsNew {A = AuthRecord} (λ r. r.user_id) id rows
unfolding overwrite
overwrite-none id phc [] h = tt
overwrite-none id phc (r ∷ rows) h = elim (Option-cases (overwrite id phc rows)) [
  | inl e ↦ (λ p. ground (arith, (nat_eq_iff r.user_id id).1 p), overwrite-none id phc rows e)
  | inr ((old', later), e) ↦ absurd (ground arith)
]

module _ (unicode : Text → Text) where
  -- Each table has its keys once, and no mutex is poisoned.
  pub record IsSound (db : Db) : Type 0 where
    pub users_up : db.users.poisoned ≡ false
    pub messages_up : db.messages.poisoned ≡ false
    pub auth_up : db.auth.poisoned ≡ false
    pub users : HasDistinctUsers unicode db
    pub messages : HasDistinctMessages db
    pub hashes : IsUnique {A = AuthRecord} (λ r. r.user_id) db.auth.inner

  -- A user is created and a message stored with an id that is not in use, or a password is set.
  pub data Reach : Db → Type 0 where
    start : Reach empty
    signs_up :
        {db : Db} (fresh : UserId) (name : Text)
        → IsNew {A = UserId × Text} (λ row. row.0) fresh db.users.inner
        → Reach db
        → Reach (create_user unicode fresh name db).1
    stores :
        {db : Db} (m : Message)
        → IsNew {A = MessageRecord} (λ r. r.id) m.id db.messages.inner
        → Reach db
        → Reach (create_message m db).1
    sets_password :
        {db : Db} (id : UserId) (info : AuthenticationInfo)
        → Reach db
        → Reach (update_authentication id info db).1

  create_user-IsSound :
      (fresh : UserId) (name : Text) (db : Db)
      → IsNew {A = UserId × Text} (λ row. row.0) fresh db.users.inner
      → IsSound db
      → IsSound (create_user unicode fresh name db).1
  unfolding create_user
  create_user-IsSound fresh name db n i =
      let users = create_user-HasDistinctUsers unicode fresh name db i.users n in
      record {
        users_up = ground (arith, i.users_up);
        messages_up = ground (arith, i.messages_up);
        auth_up = ground (arith, i.auth_up);
        users = users;
        messages = record { ids = ground (arith, i.messages.ids) };
        hashes = ground (arith, i.hashes);
      }

  create_message-IsSound :
      (m : Message) (db : Db)
      → IsNew {A = MessageRecord} (λ r. r.id) m.id db.messages.inner
      → IsSound db
      → IsSound (create_message m db).1
  unfolding create_message
  create_message-IsSound m db n i =
      let messages = create_message-HasDistinctMessages m db i.messages_up i.messages n in
      record {
        users_up = ground (arith, i.users_up);
        messages_up = ground (arith, i.messages_up);
        auth_up = ground (arith, i.auth_up);
        users = record { names = ground (arith, i.users.names); ids = ground (arith, i.users.ids) };
        messages = messages;
        hashes = ground (arith, i.hashes);
      }

  update_authentication-IsSound :
      (id : UserId) (info : AuthenticationInfo) (db : Db)
      → IsSound db
      → IsSound (update_authentication id info db).1
  unfolding update_authentication
  update_authentication-IsSound id info db i =
      elim (Option-cases (overwrite id info.phc_string db.auth.inner)) [
        | inl e ↦
            let rows =
              db.auth.inner ++ record { user_id = id; phc_string = info.phc_string } ∷ [] in
            let same : (update_authentication id info db).1
                ≡ record db { auth = record db.auth { inner = rows } } =
              ground (arith, i.auth_up) in
            subst (λ x. IsSound x) (sym same)
              (keeps rows (
                IsUnique-append _ db.auth.inner _ i.hashes
                  (overwrite-none id info.phc_string db.auth.inner e)))
        | inr ((old, rows), e) ↦
            let same : (update_authentication id info db).1
                ≡ record db { auth = record db.auth { inner = rows } } =
              ground (arith, i.auth_up) in
            subst (λ x. IsSound x) (sym same)
              (keeps rows (overwrite-IsUnique id info.phc_string old db.auth.inner rows e i.hashes))
      ]
    where
      keeps :
          (rows : List AuthRecord)
          → IsUnique {A = AuthRecord} (λ r. r.user_id) rows
          → IsSound (record db { auth = record db.auth { inner = rows } })
      keeps rows u = record {
        users_up = i.users_up;
        messages_up = i.messages_up;
        auth_up = i.auth_up;
        users = record { names = i.users.names; ids = i.users.ids };
        messages = record { ids = i.messages.ids };
        hashes = u;
      }

  -- In every state that the methods lead to from the empty store, where ids are drawn that are not in
  -- use, no mutex is poisoned, names are distinct up to case, ids of users and of messages are
  -- distinct, and no user has two password hashes.
  pub Reach-IsSound : {db : Db} → Reach db → IsSound db
  Reach-IsSound start = record {
    users_up = refl;
    messages_up = refl;
    auth_up = refl;
    users = record { names = tt; ids = tt };
    messages = record { ids = tt };
    hashes = tt;
  }
  Reach-IsSound (signs_up {db} fresh name n r) =
      create_user-IsSound fresh name db n (Reach-IsSound r)
  Reach-IsSound (stores {db} m n r) = create_message-IsSound m db n (Reach-IsSound r)
  Reach-IsSound (sets_password {db} id info r) =
      update_authentication-IsSound id info db (Reach-IsSound r)
