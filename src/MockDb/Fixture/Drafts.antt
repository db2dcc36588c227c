-- ===== src/MockDb/Fixture/Drafts.antt =====
-- lib/mock-db/src/lib.rs: the rows of the sample store.
use pheidippides.Prelude.{
  ℕ, zero, suc, ◌<◌, Text, codes, List, [], ◌∷◌, ◌++◌, drop, Option, some, true, ◌==◌, eq_nat,
  ==_refl, any, All, All-append, All-map, IsUnique, IsNew, HashMap, eq_text, ◌≡◌, refl, arith, ap,
  ◌∙◌, sym, text_eq,
}
use pheidippides.Prelude.Maps
use pheidippides.Types.{Uuid, UserId, Timestamp}
use pheidippides.Http.Number.{to_string}
use pheidippides.MockDb.{MessageRecord}
use pheidippides.MockDb.Fixture.{
  Draft, numbered_users, users_vec, username_id_map, sample_messages, sample_texts, greetings,
  users_greetings, messages_vec, all_drafts,
}

module _ (uuid : ℕ → Uuid) where
  -- The rows have the ids that are drawn from number `k` on.
  abbrev pub IsDrawn : {A : Type 0} → (A → Uuid) → ℕ → List A → Type 0
  IsDrawn key k [] = Unit
  IsDrawn key k (x ∷ xs) = (key x ≡ uuid k) × IsDrawn key (suc k) xs

  numbered_users-IsDrawn :
      (count k : ℕ)
      → IsDrawn {A = UserId × Text} (λ row. row.0) k (numbered_users uuid count (suc k))
  unfolding numbered_users
  numbered_users-IsDrawn zero k = tt
  numbered_users-IsDrawn (suc count) k =
      (ap uuid (omega arith), numbered_users-IsDrawn count (suc k))

  pub users_vec-IsDrawn : IsDrawn {A = UserId × Text} (λ row. row.0) 0 (users_vec uuid)
  unfolding users_vec
  users_vec-IsDrawn = (refl, (refl, (refl, (refl, numbered_users-IsDrawn 95 4))))

  pub messages_vec-IsDrawn :
      (now : ℕ → Timestamp) (k : ℕ) (drafts : List Draft)
      → IsDrawn {A = MessageRecord} (λ r. r.id) k (messages_vec uuid now k drafts)
  unfolding messages_vec
  messages_vec-IsDrawn now k [] = tt
  messages_vec-IsDrawn now k ((from, to, message) ∷ drafts) =
      (refl, messages_vec-IsDrawn now (suc k) drafts)

  module _ (distinct : (i j : ℕ) → uuid i ≡ uuid j → i ≡ j) where
    IsDrawn-IsNew :
        {A : Type 0} (key : A → Uuid) (i k : ℕ) (xs : List A)
        → i < k
        → IsDrawn key k xs
        → IsNew {A = A} key (uuid i) xs
    IsDrawn-IsNew key i k [] l h = tt
    IsDrawn-IsNew key i k (x ∷ xs) l (e, h) = (
      λ p. omega (arith, distinct k i (sym e ∙ p), l),
      IsDrawn-IsNew key i (suc k) xs (omega (arith, l)) h,
    )

    pub IsDrawn-IsUnique :
        {A : Type 0} (key : A → Uuid) (k : ℕ) (xs : List A)
        → IsDrawn key k xs
        → IsUnique {A = A} key xs
    IsDrawn-IsUnique key k [] h = tt
    IsDrawn-IsUnique key k (x ∷ xs) (e, h) =
        (rw e (IsDrawn-IsNew key k (suc k) xs (omega arith) h), IsDrawn-IsUnique key (suc k) xs h)

  abbrev pub ids : HashMap Text UserId
  ids = username_id_map [] (users_vec uuid)

  pub user1 : Maps.get ids (codes "User1") ≡ some (uuid 0)
  unfolding username_id_map users_vec numbered_users Maps.get Maps.insert to_string text_eq
  user1 = refl

  pub user2 : Maps.get ids (codes "User2") ≡ some (uuid 1)
  unfolding username_id_map users_vec numbered_users Maps.get Maps.insert to_string text_eq
  user2 = refl

  user3 : Maps.get ids (codes "User3") ≡ some (uuid 2)
  unfolding username_id_map users_vec numbered_users Maps.get Maps.insert to_string text_eq
  user3 = refl

  user4 : Maps.get ids (codes "Пользователь1") ≡ some (uuid 3)
  unfolding username_id_map users_vec numbered_users Maps.get Maps.insert to_string text_eq
  user4 = refl

  -- The id of a sample user.
  abbrev pub IsUser : UserId → Type 0
  IsUser id = any (λ (row : UserId × Text). row.0 == id) (users_vec uuid) ≡ true

  user1-IsUser : IsUser (uuid 0)
  unfolding users_vec
  user1-IsUser = ground (arith, ==_refl (uuid 0))

  user2-IsUser : IsUser (uuid 1)
  unfolding users_vec
  user2-IsUser = ground (arith, ==_refl (uuid 1))

  user3-IsUser : IsUser (uuid 2)
  unfolding users_vec
  user3-IsUser = ground (arith, ==_refl (uuid 2))

  user4-IsUser : IsUser (uuid 3)
  unfolding users_vec
  user4-IsUser = ground (arith, ==_refl (uuid 3))

  all_rows :
      (rows : List (UserId × Text))
      → All (λ row. any (λ (x : UserId × Text). x.0 == row.0) rows ≡ true) rows
  all_rows [] = tt
  all_rows (row ∷ rows) =
      (rw (==_refl row.0) refl, All-map _ _ rows (λ x h. ground (arith)) (all_rows rows))

  rest-IsUser : All (λ (row : UserId × Text). IsUser row.0) (drop 4 (users_vec uuid))
  unfolding users_vec
  rest-IsUser =
      All-map _ _ (numbered_users uuid 95 5) (λ row h. ground (arith))
        (all_rows (numbered_users uuid 95 5))

  -- Both sides of a message are sample users.
  abbrev pub IsBetween : Draft → Type 0
  IsBetween (from, to, message) = IsUser from × IsUser to

  abbrev pub Drafts : Option (List Draft) → Type 0
  Drafts o = (drafts : List Draft) × (o ≡ some drafts) × All IsBetween drafts

  sample_messages-Drafts : Drafts (sample_messages ids sample_texts)
  unfolding sample_messages
  sample_messages-Drafts =
      rw (user1, user2, user3)
        (
          _,
          refl,
          (
            (user1-IsUser, user1-IsUser),
            (
              (user1-IsUser, user1-IsUser),
              (
                (user2-IsUser, user1-IsUser),
                (
                  (user1-IsUser, user2-IsUser),
                  (
                    (user2-IsUser, user1-IsUser),
                    (
                      (user1-IsUser, user2-IsUser),
                      ((user1-IsUser, user3-IsUser), ((user3-IsUser, user1-IsUser), tt)),
                    ),
                  ),
                ),
              ),
            ),
          ),
        )

  greetings-Drafts : (count i : ℕ) → Drafts (greetings ids count i)
  unfolding greetings
  greetings-Drafts zero i = ([], refl, tt)
  greetings-Drafts (suc count) i =
      let (drafts, e, a) = greetings-Drafts count (suc i) in
      rw (user1, user4, e) (_, refl, ((user4-IsUser, user1-IsUser), a))

  users_greetings-Drafts :
      (rows : List (UserId × Text))
      → All (λ row. IsUser row.0) rows
      → Drafts (users_greetings ids rows)
  unfolding users_greetings
  users_greetings-Drafts [] a = ([], refl, tt)
  users_greetings-Drafts ((id, name) ∷ rows) (u, more) =
      let (drafts, e, a) = users_greetings-Drafts rows more in
      rw (user1, e) (_, refl, ((u, user1-IsUser), a))

  pub all_drafts-Drafts : (now : ℕ → Timestamp) → Drafts (all_drafts uuid now (users_vec uuid) ids)
  all_drafts-Drafts now =
      let (first, e, a) = sample_messages-Drafts in
      let (second, f, b) = greetings-Drafts 100 0 in
      let (third, g, c) = users_greetings-Drafts (drop 4 (users_vec uuid)) rest-IsUser in
      rw (e, f, g)
        (
          first ++ (second ++ third),
          refl,
          All-append IsBetween first (second ++ third) a (All-append IsBetween second third b c),
        )

  pub messages_vec-sides :
      (now : ℕ → Timestamp) (k : ℕ) (drafts : List Draft)
      → All IsBetween drafts
      → All (λ (r : MessageRecord). IsUser r.from × IsUser r.to) (messages_vec uuid now k drafts)
  unfolding messages_vec
  messages_vec-sides now k [] a = tt
  messages_vec-sides now k ((from, to, message) ∷ drafts) (b, a) =
      (b, messages_vec-sides now (suc k) drafts a)
