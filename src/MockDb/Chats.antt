-- ===== src/MockDb/Chats.antt =====
-- lib/mock-db/src/lib.rs: `find_users_chats` lists each partner of the user once, the latest first.
use mathlib.Core.List.{reverse-append, append-nil}
use pheidippides.Prelude.{
  Text, List, [], ◌∷◌, ◌++◌, some, Bool, true, false, not, ◌||◌, ok, ◌≡◌, ◌≢◌, ◌↔◌, refl, arith,
  ◌==◌, ap, ==_refl, eq_nat, any, any-append, keep, keep-append, filter_map, Bool-cases,
  Option-cases, inl, inr, All, All-append, IsUnique, IsNew, IsUnique-append, reverse, HashMap,
}
use pheidippides.Types.{UserId, User, Message, eq_user, user_eq, user_eq_iff}
use pheidippides.MockDb.{
  Db, MessageRecord, to_record, in_chat, names_by_id, named, chat_of, collect_new, find_users_chats,
  create_message,
}
use pheidippides.MockDb.Messages.{history}

-- The list that `find_users_chats` returns.
abbrev pub chats : UserId → Db → List User
chats u db =
    collect_new []
      (filter_map (chat_of (names_by_id [] db.users.inner) u) (reverse db.messages.inner))

unfoldable pub is_other : User → User → Bool
is_other x y = not (y == x)

any-keep :
    (x y : User) (state : List User)
    → user_eq x y ≡ false
    → any (λ seen. seen == y) (keep (is_other x) state) ≡ any (λ seen. seen == y) state
unfolding is_other
any-keep x y [] n = refl
any-keep x y (z ∷ state) n =
    ground (arith, any-keep x y state n, user_eq_iff z x, user_eq_iff z y, user_eq_iff x y)

any_of_mem :
    (p : User → Bool) (y : User) (state : List User)
    → any (λ seen. seen == y) state ≡ true
    → p y ≡ true
    → any p state ≡ true
any_of_mem p y [] h k = cc
any_of_mem p y (z ∷ state) h k = ground (arith, user_eq_iff z y, any_of_mem p y state)

-- Seen from a list that starts with `x`, later occurrences of `x` are dropped.
pub collect_new-cons :
    (x : User) (state rest : List User)
    → collect_new (x ∷ keep (is_other x) state) rest
      ≡ x ∷ keep (is_other x) (collect_new state rest)
unfolding collect_new is_other
collect_new-cons x state [] = refl
collect_new-cons x state (y ∷ rest) = ground (
  arith,
  collect_new-cons x state rest,
  collect_new-cons x (state ++ y ∷ []) rest,
  keep-append (is_other x) state (y ∷ []),
  any-keep x y state,
  append-nil (keep (is_other x) state),
  user_eq_iff x y,
  user_eq_iff y x,
)

any-collect_new :
    (p : User → Bool) (state rest : List User)
    → any p (collect_new state rest) ≡ (any p state || any p rest)
unfolding collect_new
any-collect_new p state [] = ground arith
any-collect_new p state (y ∷ rest) = ground (
  arith,
  any-collect_new p state rest,
  any-collect_new p (state ++ y ∷ []) rest,
  any-append p state (y ∷ []),
  any_of_mem p y state,
)

module _ (names : HashMap UserId Text) where
  abbrev IsNamed : User → Type 0
  IsNamed x = x ≡ named names x.id

  IsNew-of_named :
      (x : User) (state : List User)
      → IsNamed x
      → All IsNamed state
      → any (λ seen. seen == x) state ≡ false
      → IsNew {A = User} (λ y. y.id) x.id state
  IsNew-of_named x [] n ns h = tt
  IsNew-of_named x (y ∷ state) n (k, ks) h = (
    λ p. ground (arith, user_eq_iff y x, ap (named names) p),
    IsNew-of_named x state n ks (ground arith),
  )

  chat_of-IsNamed :
      (u : UserId) (r : MessageRecord) (x : User) → chat_of names u r ≡ some x → IsNamed x
  unfolding chat_of named
  chat_of-IsNamed u r x h = ground arith

  filter_map-IsNamed :
      (u : UserId) (rows : List MessageRecord) → All IsNamed (filter_map (chat_of names u) rows)
  filter_map-IsNamed u [] = tt
  filter_map-IsNamed u (r ∷ rows) = elim (Option-cases (chat_of names u r)) [
    | inl e ↦ rw (e, filter_map) (filter_map-IsNamed u rows)
    | inr (x, e) ↦ rw (e, filter_map) (chat_of-IsNamed u r x e, filter_map-IsNamed u rows)
  ]

  collect_new-IsUnique :
      (state rest : List User)
      → All IsNamed state
      → All IsNamed rest
      → IsUnique {A = User} (λ y. y.id) state
      → IsUnique {A = User} (λ y. y.id) (collect_new state rest)
  unfolding collect_new
  collect_new-IsUnique state [] n m u = u
  collect_new-IsUnique state (x ∷ rest) n (m, ms) u =
      elim (Bool-cases (any (λ seen. seen == x) state)) [
        | inl old ↦ rw old (collect_new-IsUnique state rest n ms u)
        | inr new ↦ rw new (
            collect_new-IsUnique (state ++ x ∷ []) rest
              (All-append IsNamed state (x ∷ []) n (m, tt)) ms
              (IsUnique-append _ state x u (IsNew-of_named x state m n new)))
      ]

  -- A row names `w` exactly when it belongs to the chat with `w`.
  any-chat_of :
      (u w : UserId) (rows : List MessageRecord)
      → (any (λ (x : User). x.id == w) (filter_map (chat_of names u) rows) ≡ true)
        ↔ (filter_map (in_chat u w) rows ≢ [])
  unfolding chat_of in_chat named
  any-chat_of u w [] = ground arith
  any-chat_of u w (r ∷ rows) = ground (arith, any-chat_of u w rows)

find_users_chats-eq :
    (u : UserId) (db db' : Db) (listed : List User)
    → find_users_chats u db ≡ (ok listed, db')
    → listed ≡ chats u db
unfolding find_users_chats
find_users_chats-eq u db db' listed h = ground arith

chats-IsUnique : (u : UserId) (db : Db) → IsUnique {A = User} (λ x. x.id) (chats u db)
chats-IsUnique u db =
    let names = names_by_id [] db.users.inner in
    collect_new-IsUnique names [] _ tt (filter_map-IsNamed names u (reverse db.messages.inner)) tt

chats_iff :
    (u w : UserId) (db : Db)
    → (any (λ (x : User). x.id == w) (chats u db) ≡ true) ↔ (history u w db ≢ [])
chats_iff u w db =
    rw (any-collect_new _ _ _)
      (any-chat_of (names_by_id [] db.users.inner) u w (reverse db.messages.inner))

module _ (u : UserId) (db db' : Db) (listed : List User)
    (found : find_users_chats u db ≡ (ok listed, db')) where
  -- If the listing of a user's chats succeeds, no user is listed twice.
  pub find_users_chats-IsUnique : IsUnique {A = User} (λ x. x.id) listed
  find_users_chats-IsUnique = rw (find_users_chats-eq u db db' listed found) (chats-IsUnique u db)

  -- If the listing of the chats of `u` succeeds, a user `w` is listed exactly when the chat of `u`
  -- and `w` has a message.
  pub find_users_chats_iff :
      (w : UserId) → (any (λ (x : User). x.id == w) listed ≡ true) ↔ (history u w db ≢ [])
  find_users_chats_iff w = rw (find_users_chats-eq u db db' listed found) (chats_iff u w db)

chat_of_sent :
    (names : HashMap UserId Text) (m : Message)
    → chat_of names m.from (to_record m) ≡ some (named names m.to)
unfolding chat_of
chat_of_sent names m = ground (arith, ==_refl m.from)

chats-append :
    (names : HashMap UserId Text) (m : Message) (rows : List MessageRecord)
    → collect_new [] (filter_map (chat_of names m.from) (reverse (rows ++ to_record m ∷ [])))
      ≡ named names m.to
        ∷ keep
            (is_other (named names m.to))
            (collect_new [] (filter_map (chat_of names m.from) (reverse rows)))
unfolding collect_new
chats-append names m rows =
    rw (reverse-append rows (to_record m ∷ []), filter_map, chat_of_sent names m)
      (collect_new-cons (named names m.to) [] (filter_map (chat_of names m.from) (reverse rows)))

-- If the listing of the sender's chats succeeds, then after a message its addressee stands first
-- among them, and the other chats keep their order.
pub find_users_chats-create_message :
    (m : Message) (db db' : Db) (listed : List User)
    → find_users_chats m.from db ≡ (ok listed, db')
    → (find_users_chats m.from (create_message m db).1).0
      ≡ ok (
          named (names_by_id [] db.users.inner) m.to
          ∷ keep (is_other (named (names_by_id [] db.users.inner) m.to)) listed)
unfolding find_users_chats create_message
find_users_chats-create_message m db db' listed h =
    ground (arith, chats-append (names_by_id [] db.users.inner) m db.messages.inner)
