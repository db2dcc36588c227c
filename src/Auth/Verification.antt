-- ===== src/Auth/Verification.antt =====
-- lib/pheidippides-auth/src/lib.rs: what `verify_user` answers after `create_user`.
use pheidippides.Prelude.{
  Text, Option, some, true, ok, ◌≡◌, ◌≢◌, arith, Option-cases, Result-cases, inl, inr,
}
use pheidippides.Types.{UserId}
use pheidippides.Auth.{AuthenticationInfo, AuthStorage, Argon2, verify_user, create_user}

-- The contract of a table of hashes: a map from users to their last hash.
pub record LawfulStorage (B E : Type 0) (storage : AuthStorage B E) : Type 0 where
  pub fetch-update_self :
      (id : UserId) (info : AuthenticationInfo) (old : Option AuthenticationInfo) (b b' : B)
      → storage.update_authentication id info b ≡ (ok old, b')
      → storage.fetch_authentication id b' ≡ (ok (some info), b')
  pub fetch-update_ne :
      (id j : UserId) (info : AuthenticationInfo) (old : Option AuthenticationInfo) (b b' : B)
      → id ≢ j
      → storage.update_authentication id info b ≡ (ok old, b')
      → (storage.fetch_authentication j b').0 ≡ (storage.fetch_authentication j b).0

module _ {B E Salt : Type 0} (argon2 : Argon2 Salt) (storage : AuthStorage B E)
    (laws : LawfulStorage B E storage) where
  -- Over a table of hashes that keeps its contract, the password of a `create_user` that succeeded
  -- verifies, with no change of the state.
  pub verify-create_user :
      (salt : Salt) (id : UserId) (password : Text) (b b' : B)
      → create_user argon2 storage salt id password b ≡ (ok tt, b')
      → verify_user argon2 storage id password b' ≡ (ok true, b')
  unfolding create_user verify_user
  verify-create_user salt id password b b' h =
      elim (Option-cases (argon2.hash_password password salt)) [
        | inl e ↦ ground arith
        | inr (hash, e) ↦
            let info : AuthenticationInfo = record { phc_string = hash } in
            elim (Result-cases (storage.update_authentication id info b).0) [
              | inl (old, u) ↦ ground (
                arith,
                laws.fetch-update_self id info old b b',
                argon2.verify-hash password salt hash,
              )
              | inr (d, u) ↦ ground arith
            ]
      ]

  -- Over a table of hashes that keeps its contract, a `create_user` that succeeded for one user does
  -- not change what any password of another user verifies as.
  pub verify-create_user_ne :
      (salt : Salt) (id j : UserId) (password password' : Text) (b b' : B)
      → id ≢ j
      → create_user argon2 storage salt id password b ≡ (ok tt, b')
      → (verify_user argon2 storage j password' b').0 ≡ (verify_user argon2 storage j password' b).0
  unfolding create_user verify_user
  verify-create_user_ne salt id j password password' b b' n h =
      elim (Option-cases (argon2.hash_password password salt)) [
        | inl e ↦ ground arith
        | inr (hash, e) ↦
            let info : AuthenticationInfo = record { phc_string = hash } in
            elim (Result-cases (storage.update_authentication id info b).0) [
              | inl (old, u) ↦ ground (arith, laws.fetch-update_ne id j info old b b')
              | inr (d, u) ↦ ground arith
            ]
      ]
