-- ===== src/MockDb/Fixture/Laws.antt =====
-- lib/mock-db/src/lib.rs: the sample store is sound, and its passwords are the names.
use pheidippides.Prelude.{
  ℕ, Text, codes, [], ◌∷◌, ◌++◌, none, some, true, ◌==◌, eq_nat, ==_ne, false, any, All, IsUnique,
  eq_text, ok, ◌≡◌, ◌≢◌, refl, arith, ap, ◌∙◌, sym,
}
use pheidippides.Types.{Uuid, UserId, Timestamp}
use pheidippides.Auth.{Argon2, create_user, verify_user}
use pheidippides.MockDb.{
  Db, MessageRecord, auth_storage, new_mutex, overwrite, update_authentication,
}
use pheidippides.Auth.Verification.{verify-create_user, verify-create_user_ne}
use pheidippides.MockDb.Auth.{mock-LawfulStorage}
use pheidippides.MockDb.Messages.{HasDistinctMessages}
use pheidippides.MockDb.Fixture.{users_vec, messages_vec, create_credentials, new}
use pheidippides.MockDb.Fixture.Drafts.{
  users_vec-IsDrawn, messages_vec-IsDrawn, IsDrawn-IsUnique, user1, user2, all_drafts-Drafts,
  messages_vec-sides,
}

-- The first password of a user is added at the end.
create_user-append :
    {Salt : Type 0} (argon2 : Argon2 Salt) (salt : Salt) (id : UserId) (password hash : Text)
    (db : Db)
    → db.auth.poisoned ≡ false
    → argon2.hash_password password salt ≡ some hash
    → overwrite id hash db.auth.inner ≡ none
    → create_user argon2 auth_storage salt id password db ≡ (
      ok tt,
      record db {
        auth = record db.auth {
          inner = db.auth.inner ++ record { user_id = id; phc_string = hash } ∷ [];
        };
      },
    )
unfolding create_user update_authentication
create_user-append argon2 salt id password hash db up h o = ground arith

no_row :
    (id other : UserId) (hash phc : Text)
    → other ≢ id
    → overwrite id hash (record { user_id = other; phc_string = phc } ∷ []) ≡ none
unfolding overwrite
no_row id other hash phc n = rw (==_ne n) refl

module _ {Salt : Type 0} (uuid : ℕ → Uuid) (distinct : (i j : ℕ) → uuid i ≡ uuid j → i ≡ j)
    (now : ℕ → Timestamp) (argon2 : Argon2 Salt) where
  -- If no id is drawn twice and the passwords are not refused, the sample store is built, it has the
  -- sample users, their ids and the ids of its messages are distinct, both sides of each message
  -- are users, and the ids of `User1` and `User2` verify with their names as passwords.
  pub new-users :
      (salt salt' : Salt) (hash hash' : Text)
      → argon2.hash_password (codes "User1") salt ≡ some hash
      → argon2.hash_password (codes "User2") salt' ≡ some hash'
      → (db : Db) × (new uuid now argon2 salt salt' ≡ some db)
        × (db.users ≡ new_mutex (users_vec uuid))
        × IsUnique {A = UserId × Text} (λ row. row.0) db.users.inner
        × HasDistinctMessages db
        × All
            (λ (r : MessageRecord).
              (any (λ (row : UserId × Text). row.0 == r.from) db.users.inner ≡ true)
              × (any (λ (row : UserId × Text). row.0 == r.to) db.users.inner ≡ true))
            db.messages.inner
        × ((verify_user argon2 auth_storage (uuid 0) (codes "User1") db).0 ≡ ok true)
        × ((verify_user argon2 auth_storage (uuid 1) (codes "User2") db).0 ≡ ok true)
  unfolding new create_credentials
  new-users salt salt' hash hash' h h' =
      let (drafts, e, a) = all_drafts-Drafts uuid now in
      let db0 : Db = record {
        users = new_mutex (users_vec uuid);
        messages = new_mutex (messages_vec uuid now 99 drafts);
        auth = new_mutex [];
      } in
      let db1 : Db = record db0 {
        auth = new_mutex (record { user_id = uuid 0; phc_string = hash } ∷ []);
      } in
      let db2 : Db = record db0 {
        auth = new_mutex (
            record { user_id = uuid 0; phc_string = hash }
            ∷ record { user_id = uuid 1; phc_string = hash' }
            ∷ []);
      } in
      let apart : uuid 0 ≢ uuid 1 = λ p. omega (arith, distinct 0 1 p) in
      let one : create_user argon2 auth_storage salt (uuid 0) (codes "User1") db0 ≡ (ok tt, db1) =
        create_user-append argon2 salt (uuid 0) (codes "User1") hash db0 refl h
          (unfold overwrite in refl) in
      let two : create_user argon2 auth_storage salt' (uuid 1) (codes "User2") db1 ≡ (ok tt, db2) =
        create_user-append argon2 salt' (uuid 1) (codes "User2") hash' db1 refl h'
          (no_row (uuid 1) (uuid 0) hash' hash apart) in
      (
        db2,
        rw (e, user1 uuid, user2 uuid, one, two) refl,
        refl,
        IsDrawn-IsUnique uuid distinct _ 0 (users_vec uuid) (users_vec-IsDrawn uuid),
        record {
          ids =
              IsDrawn-IsUnique uuid distinct _ 99 (messages_vec uuid now 99 drafts)
                (messages_vec-IsDrawn uuid now 99 drafts);
        },
        messages_vec-sides uuid now 99 drafts a,
        verify-create_user_ne argon2 auth_storage mock-LawfulStorage salt' (uuid 1) (uuid 0)
              (codes "User2") (codes "User1") db1 db2 (λ p. apart (sym p)) two
            ∙ ap (λ x. x.0)
                (verify-create_user argon2 auth_storage mock-LawfulStorage salt (uuid 0)
                  (codes "User1") db0 db1 one),
        ap (λ x. x.0)
            (verify-create_user argon2 auth_storage mock-LawfulStorage salt' (uuid 1)
              (codes "User2") db1 db2 two),
      )
