-- ===== src/Auth.antt =====
-- lib/pheidippides-messenger/src/authorization.rs and lib/pheidippides-auth/src/lib.rs: password
-- authentication. Argon2 and the task that runs it are the parameter `Argon2`; the salt, which
-- the code draws at random, is an argument.
pub mod Verification
use pheidippides.Prelude.{
  Text, Option, none, some, Bool, true, false, Exec, pure, raise, map_err, if◌then◌else◌, ◌≡◌,
}
use pheidippides.Prelude.Effects.{◌>>=◌, ◌>>◌}
use pheidippides.Types.{UserId}

-- The trait `AuthService`.
pub record AuthService (B E Salt : Type 0) : Type 0 where
  pub verify_user : UserId → Text → Exec B E Bool
  pub create_user : Salt → UserId → Text → Exec B E (Unit {0})

pub record AuthenticationInfo : Type 0 where
  pub phc_string : Text

-- The trait `AuthStorage`.
pub record AuthStorage (B E : Type 0) : Type 0 where
  pub fetch_authentication : UserId → Exec B E (Option AuthenticationInfo)
  pub update_authentication : UserId → AuthenticationInfo → Exec B E (Option AuthenticationInfo)

-- `Argon2::default()`: hashing may refuse a password, and a hash that it made verifies the
-- password that it was made from.
pub record Argon2 (Salt : Type 0) : Type 0 where
  pub hash_password : Text → Salt → Option Text
  pub verify_password : Text → Text → Bool
  pub verify-hash :
      (password : Text) (salt : Salt) (hash : Text)
      → hash_password password salt ≡ some hash
      → verify_password password hash ≡ true

pub data AuthServiceError (E : Type 0) : Type 0 where
  could_not_fetch : UserId → E → AuthServiceError E
  could_not_hash : AuthServiceError E
  could_not_update : UserId → E → AuthServiceError E

module _ {B E Salt : Type 0} (argon2 : Argon2 Salt) (storage : AuthStorage B E) where
  abbrev check_password : Text → Option AuthenticationInfo → Exec B (AuthServiceError E) Bool
  check_password password none = pure false
  check_password password (some auth_info) =
      pure (argon2.verify_password password auth_info.phc_string)

  unfoldable pub verify_user : UserId → Text → Exec B (AuthServiceError E) Bool
  verify_user user_id password = do
    found ← map_err (could_not_fetch user_id) (storage.fetch_authentication user_id)
    check_password password found

  abbrev store_hash : UserId → Option Text → Exec B (AuthServiceError E) (Unit {0})
  store_hash user_id none = raise could_not_hash
  store_hash user_id (some password_hash) = do
    map_err (could_not_update user_id)
        (storage.update_authentication user_id (record { phc_string = password_hash }))
    pure tt

  unfoldable pub create_user : Salt → UserId → Text → Exec B (AuthServiceError E) (Unit {0})
  create_user salt user_id password = store_hash user_id (argon2.hash_password password salt)

  abbrev pub auth_service : AuthService B (AuthServiceError E) Salt
  auth_service = record { verify_user = verify_user; create_user = create_user }
