-- ===== src/Tests/Store.antt =====
-- The store in memory at concrete inputs.
use pheidippides.Prelude.{Text, any, All, true, codes, ok, IsUnique, ◌==◌, eq_nat, some, refl}
use pheidippides.Types.{UserId}
use pheidippides.Auth.{verify_user}
use pheidippides.MockDb.{new_mutex, MessageRecord, auth_storage, empty}
use pheidippides.MockDb.Messages.{HasDistinctMessages}
use pheidippides.MockDb.Fixture
use pheidippides.MockDb.Fixture.Laws.{new-users}
use pheidippides.MockDb.Reach.{IsSound, Reach-IsSound, start, signs_up, sets_password}
use pheidippides.Tests.Base.{plain}
use pheidippides.Prelude.{
  text_eq, ℕ, codes, List, [], ◌∷◌, ◌++◌, none, some, true, ok, refl, ◌≡◌, ◌≢◌, ◌↔◌, ◌==◌, eq_nat,
  arith, any, keep, take, IsUnique,
}
use pheidippides.Types.{UserId, User, Message}
use pheidippides.MockDb.{
  Db, create_message, fetch_last_messages_in_chat, fetch_users_messages_since, find_users_chats,
  named, names_by_id, in_chat,
}
use pheidippides.MockDb.Messages.{history, timeline, HasDistinctMessages, next_page, since-timeline}
use pheidippides.MockDb.Chats.{is_other, find_users_chats_iff, find_users_chats-create_message}
use pheidippides.MockDb
use pheidippides.Tests.Base.{note, store, same_text}

store-HasDistinctMessages : HasDistinctMessages store
store-HasDistinctMessages = record {
  ids = (
    (
      λ p. omega (arith, p),
      (λ p. omega (arith, p), (λ p. omega (arith, p), (λ p. omega (arith, p), tt))),
    ),
    (
      (λ p. omega (arith, p), (λ p. omega (arith, p), (λ p. omega (arith, p), tt))),
      (
        (λ p. omega (arith, p), (λ p. omega (arith, p), tt)),
        ((λ p. omega (arith, p), tt), (tt, tt)),
      ),
    ),
  );
}

chat_2_3 : history 2 3 store ≡ note 14 3 2 ∷ [] ++ note 13 2 3 ∷ note 11 3 2 ∷ note 10 2 3 ∷ []
unfolding in_chat
chat_2_3 = refl

next_page_example :
    fetch_last_messages_in_chat 2 3 (some 13) store ≡ (ok (note 11 3 2 ∷ note 10 2 3 ∷ []), store)
next_page_example =
    next_page 2 3 store refl (note 14 3 2 ∷ []) (note 11 3 2 ∷ note 10 2 3 ∷ []) (note 13 2 3)
      store-HasDistinctMessages chat_2_3

timeline_2 :
    timeline 2 store
    ≡ (note 10 2 3 ∷ note 11 3 2 ∷ []) ++ note 12 4 2 ∷ note 13 2 3 ∷ note 14 3 2 ∷ []
unfolding pheidippides.MockDb.involving
timeline_2 = refl

since-timeline_example :
    fetch_users_messages_since 2 12 store ≡ (ok (note 13 2 3 ∷ note 14 3 2 ∷ []), store)
since-timeline_example =
    since-timeline 2 0 store refl (note 10 2 3 ∷ note 11 3 2 ∷ []) (note 13 2 3 ∷ note 14 3 2 ∷ [])
      (note 12 4 2) store-HasDistinctMessages timeline_2

abbrev chats_of_2 : List User
chats_of_2 =
    record { username = codes "bob"; id = 3 } ∷ record { username = codes "cat"; id = 4 } ∷ []

chats_of_2_ok : find_users_chats 2 store ≡ (ok chats_of_2, store)
unfolding find_users_chats pheidippides.MockDb.collect_new pheidippides.MockDb.chat_of
    pheidippides.Types.user_eq text_eq named pheidippides.Prelude.Maps.get names_by_id
    pheidippides.Prelude.Maps.insert
chats_of_2_ok = refl

find_users_chats_iff_example :
    (any (λ (x : User). x.id == 4) chats_of_2 ≡ true) ↔ (history 2 4 store ≢ [])
find_users_chats_iff_example = find_users_chats_iff 2 store store chats_of_2 chats_of_2_ok 4

find_users_chats-create_message_example :
    (find_users_chats 2 (create_message (note 15 2 4) store).1).0
    ≡ ok (
        named (names_by_id [] store.users.inner) 4
        ∷ keep (is_other (named (names_by_id [] store.users.inner) 4)) chats_of_2)
find_users_chats-create_message_example =
    find_users_chats-create_message (note 15 2 4) store store chats_of_2 chats_of_2_ok

new-users_example :
    (db : Db) × (Fixture.new (λ i. i) (λ i. i) plain 0 0 ≡ some db)
    × (db.users ≡ new_mutex (Fixture.users_vec (λ i. i)))
    × IsUnique {A = UserId × Text} (λ row. row.0) db.users.inner
    × HasDistinctMessages db
    × All
        (λ (r : MessageRecord).
          (any (λ (row : UserId × Text). row.0 == r.from) db.users.inner ≡ true)
          × (any (λ (row : UserId × Text). row.0 == r.to) db.users.inner ≡ true))
        db.messages.inner
    × ((verify_user plain auth_storage 0 (codes "User1") db).0 ≡ ok true)
    × ((verify_user plain auth_storage 1 (codes "User2") db).0 ≡ ok true)
new-users_example =
    new-users (λ i. i) (λ i j p. p) (λ i. i) plain 0 0 (codes "User1") (codes "User2") refl refl

Reach-IsSound_example :
    IsSound same_text
      (MockDb.update_authentication 7
        (record { phc_string = codes "x" })
        (MockDb.create_user same_text 7 (codes "Dan") empty).1).1
Reach-IsSound_example =
    Reach-IsSound same_text
      (sets_password 7 (record { phc_string = codes "x" }) (signs_up 7 (codes "Dan") tt start))
