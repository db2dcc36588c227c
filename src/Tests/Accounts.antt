-- ===== src/Tests/Accounts.antt =====
-- Accounts at concrete inputs, over the store in memory.
use pheidippides.Prelude.{
  to_lowercase, text_eq, ℕ, codes, [], none, some, ok, err, refl, ◌≡◌, ◌↔◌, true, arith,
}
use pheidippides.Auth
use pheidippides.Auth.{AuthServiceError, could_not_hash, auth_service}
use pheidippides.DataAccess.Defaults.{find_user_by_username}
use pheidippides.MockDb
use pheidippides.MockDb.{Db, data_access, auth_storage}
use pheidippides.MockDb.Users.{mock-LawfulUsers, HasDistinctUsers}
use pheidippides.MockDb.Accounts.{mock-LawfulAuth}
use pheidippides.Messenger
use pheidippides.Messenger.{authorization, create_user_with_login}
use pheidippides.Messenger.Accounts.{
  verify_user-create_user, create_user_incomplete, verify_user_iff,
}
use pheidippides.Subscriptions.{Handler}
use pheidippides.Tests.Base.{same_text, Channel, channels, plain, store, app}

abbrev service : Auth.AuthService Db (AuthServiceError MockDb.Error) ℕ
service = auth_service plain auth_storage

abbrev joined : Handler Db Channel
joined =
    (Messenger.create_user channels (data_access same_text) service 5 0 (codes "Dan") (codes "pw")
      app).1

joined_ok :
    Messenger.create_user channels
      (data_access same_text)
      service
      5
      0
      (codes "Dan")
      (codes "pw")
      app
    ≡ (ok (some 5), joined)
unfolding Messenger.create_user MockDb.create_user Auth.create_user MockDb.update_authentication
    MockDb.same_name text_eq to_lowercase
joined_ok = refl

verify_user-create_user_example :
    Messenger.verify_user channels (data_access same_text) service (codes "dan") (codes "pw") joined
    ≡ (ok (some 5), joined)
unfolding to_lowercase
verify_user-create_user_example =
    verify_user-create_user channels (data_access same_text) service same_text
      (mock-LawfulUsers same_text) (mock-LawfulAuth plain same_text) 5 5 0 (codes "Dan")
      (codes "dan") (codes "pw") app joined joined_ok refl

-- Hashing refuses the empty password, but the user stays.
abbrev left_over : Handler Db Channel
left_over =
    (Messenger.create_user channels (data_access same_text) service 5 0 (codes "Dan") [] app).1

left_over_made :
    MockDb.create_user same_text 5 (codes "Dan") store ≡ (ok (some 5), left_over.backend)
unfolding Messenger.create_user MockDb.create_user Auth.create_user MockDb.same_name text_eq
    to_lowercase
left_over_made = refl

left_over_failed :
    Auth.create_user plain auth_storage 0 5 [] left_over.backend
    ≡ (err could_not_hash, left_over.backend)
unfolding Messenger.create_user MockDb.create_user Auth.create_user
left_over_failed = refl

create_user_incomplete_example :
    (Messenger.create_user channels (data_access same_text) service 5 0 (codes "Dan") [] app
      ≡ (err (authorization (create_user_with_login (codes "Dan")) could_not_hash), left_over))
    × (Messenger.create_user channels
          (data_access same_text)
          service
          6
          0
          (codes "dan")
          (codes "pw")
          left_over
        ≡ (ok none, left_over))
unfolding to_lowercase Messenger.create_user MockDb.create_user MockDb.same_name text_eq
    Auth.create_user
create_user_incomplete_example =
    create_user_incomplete channels (data_access same_text) service same_text
      (mock-LawfulUsers same_text) (mock-LawfulAuth plain same_text) 5 5 6 0 0 (codes "Dan")
      (codes "dan") [] (codes "pw") app left_over.backend left_over.backend could_not_hash
      left_over_made left_over_failed refl

verify_user_iff_example :
    ((Messenger.verify_user channels
        (data_access same_text)
        service
        (codes "DAN")
        (codes "pw")
        joined).0
      ≡ ok (some 5))
    ↔ (((find_user_by_username MockDb.fetch_users same_text (codes "DAN") joined.backend).0
          ≡ ok (some 5))
        × ((service.verify_user 5 (codes "pw") joined.backend).0 ≡ ok true))
verify_user_iff_example =
    verify_user_iff channels (data_access same_text) service same_text (mock-LawfulUsers same_text)
      (codes "DAN") (codes "pw") 5 joined

-- The password table after user 2 chose a password.
abbrev stored : Db
stored = (Auth.create_user plain auth_storage 0 2 (codes "pw") store).1

stored_ok : Auth.create_user plain auth_storage 0 2 (codes "pw") store ≡ (ok tt, stored)
unfolding Auth.create_user MockDb.update_authentication
stored_ok = refl

distinct : HasDistinctUsers same_text store
unfolding to_lowercase
distinct = record {
  names = ((λ p. ground arith, (λ p. ground arith, tt)), ((λ p. ground arith, tt), (tt, tt)));
  ids = ((λ p. ground arith, (λ p. ground arith, tt)), ((λ p. ground arith, tt), (tt, tt)));
}
