-- ===== src/Messenger/Accounts.antt =====
-- lib/pheidippides-messenger/src/messenger.rs: signing up and logging in, over any store and
-- authorization service that keep their contracts.
use pheidippides.Prelude.{
  Text, Option, none, some, true, ok, err, Result-cases, inl, inr, ◌≡◌, ◌↔◌, arith, to_lowercase,
}
use pheidippides.Types.{UserId}
use pheidippides.DataAccess.{DataAccess}
use pheidippides.DataAccess.Laws.{LawfulUsers}
use pheidippides.Auth.{AuthService}
use pheidippides.Subscriptions.{Broadcast, Handler}
use pheidippides.Messenger.{create_user, verify_user, authorization, create_user_with_login}

-- The contract of an authorization service beside a store.
pub record LawfulAuth (B D A Salt : Type 0) (d : DataAccess B D) (auth : AuthService B A Salt)
    : Type 0 where
  pub verify-create_user :
      (salt : Salt) (id : UserId) (password : Text) (b b' : B)
      → auth.create_user salt id password b ≡ (ok tt, b')
      → auth.verify_user id password b' ≡ (ok true, b')
  -- It does not touch the names, whether it succeeds or not.
  pub find-create_user :
      (salt : Salt) (id : UserId) (password name : Text) (found : Option UserId) (b : B)
      → d.find_user_by_username name b ≡ (ok found, b)
      → d.find_user_by_username name (auth.create_user salt id password b).1
        ≡ (ok found, (auth.create_user salt id password b).1)

module _ {B D A Salt Sender Receiver : Type 0} (broadcast : Broadcast Sender Receiver)
    (d : DataAccess B D) (auth : AuthService B A Salt) (unicode : Text → Text)
    (users : LawfulUsers B D unicode d) (passwords : LawfulAuth B D A Salt d auth) where
  -- Over a store and a password service that keep their contracts, whoever signed up
  -- successfully can log in with the same password, under the name in any case, and gets the id
  -- that the sign-up returned, with no change of the state.
  pub verify_user-create_user :
      (fresh id : UserId) (salt : Salt) (login login' password : Text) (h h' : Handler B Sender)
      → create_user broadcast d auth fresh salt login password h ≡ (ok (some id), h')
      → to_lowercase unicode login ≡ to_lowercase unicode login'
      → verify_user broadcast d auth login' password h' ≡ (ok (some id), h')
  unfolding create_user verify_user
  verify_user-create_user fresh id salt login login' password h h' done same =
      elim (Result-cases (d.create_user fresh login h.backend).0) [
        | inl (some new, made) ↦
            elim (Result-cases
              (auth.create_user salt new password (d.create_user fresh login h.backend).1).0) [
                | inl (tt, stored) ↦ ground (
                  arith,
                  users.find-create_user fresh new login login' h.backend
                      (d.create_user fresh login h.backend).1,
                  passwords.find-create_user salt new password login' (some new)
                      (d.create_user fresh login h.backend).1,
                  passwords.verify-create_user salt new password
                      (d.create_user fresh login h.backend).1 h'.backend,
                )
                | inr (e, failed) ↦ ground arith
              ]
        | inl (none, made) ↦ ground arith
        | inr (e, failed) ↦ ground arith
      ]

  -- Over a store and a password service that keep their contracts, if the store created the user
  -- and the service then failed, the sign-up fails with that error but the user stays: signing
  -- up again under the name, in any case, answers that it is taken.
  pub create_user_incomplete :
      (fresh id again : UserId) (salt salt' : Salt) (login login' password password' : Text)
      (h : Handler B Sender) (b b' : B) (e : A)
      → d.create_user fresh login h.backend ≡ (ok (some id), b)
      → auth.create_user salt id password b ≡ (err e, b')
      → to_lowercase unicode login ≡ to_lowercase unicode login'
      → (create_user broadcast d auth fresh salt login password h
          ≡ (err (authorization (create_user_with_login login) e), record h { backend = b' }))
        × (create_user broadcast d auth again salt' login' password' (record h { backend = b' })
            ≡ (ok none, record h { backend = b' }))
  unfolding create_user
  create_user_incomplete fresh id again salt salt' login login' password password' h b b' e c f
        same =
      ground (
        arith,
        users.find-create_user fresh id login login' h.backend b,
        passwords.find-create_user salt id password login' (some id) b,
        users.create_user_taken again id login' login' b' b',
      )

module _ {B D A Salt Sender Receiver : Type 0} (broadcast : Broadcast Sender Receiver)
    (d : DataAccess B D) (auth : AuthService B A Salt) (unicode : Text → Text)
    (users : LawfulUsers B D unicode d) where
  -- Over a store that keeps its contract and any password service, a log-in answers with a user
  -- exactly if the store finds that user under the name and the service verifies the password
  -- for that user.
  pub verify_user_iff :
      (login password : Text) (id : UserId) (h : Handler B Sender)
      → ((verify_user broadcast d auth login password h).0 ≡ ok (some id)) ↔ (
          ((d.find_user_by_username login h.backend).0 ≡ ok (some id))
          × ((auth.verify_user id password h.backend).0 ≡ ok true))
  unfolding verify_user
  verify_user_iff login password id h = (
    λ done. ground (arith, done, users.find_keeps login h.backend),
    λ (found, verified). ground (arith, found, verified, users.find_keeps login h.backend),
  )
