-- ===== src/MockDb/Accounts.antt =====
-- lib/mock-db/src/lib.rs with lib/pheidippides-auth/src/lib.rs: the store in memory and the password
-- service on it keep the contract that signing up and logging in rely on.
use pheidippides.Prelude.{Text, arith, Option-cases, inl, inr}
use pheidippides.Auth.{Argon2, AuthServiceError, auth_service, create_user}
use pheidippides.Auth.Verification.{verify-create_user}
use pheidippides.DataAccess.Defaults.{find_user_by_username}
use pheidippides.Messenger.Accounts.{LawfulAuth}
use pheidippides.MockDb.{
  Db, Error, fetch_users, overwrite, update_authentication, data_access, auth_storage,
}
use pheidippides.MockDb.Auth.{mock-LawfulStorage}

module _ {Salt : Type 0} (argon2 : Argon2 Salt) (unicode : Text → Text) where
  pub mock-LawfulAuth :
      LawfulAuth Db Error
        (AuthServiceError Error)
        Salt
        (data_access unicode)
        (auth_service argon2 auth_storage)
  unfolding create_user update_authentication find_user_by_username fetch_users
  mock-LawfulAuth = record {
    verify-create_user = verify-create_user argon2 auth_storage mock-LawfulStorage;
    find-create_user = λ salt id password name found b h.
        elim (Option-cases (argon2.hash_password password salt)) [
          | inl e ↦ ground arith
          | inr (hash, e) ↦ elim (Option-cases (overwrite id hash b.auth.inner)) [
            | inl f ↦ ground arith
            | inr (old, f) ↦ ground arith
          ]
        ];
  }
