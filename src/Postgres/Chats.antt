-- ===== src/Postgres/Chats.antt =====
-- lib/postgres-db/src/lib.rs and lib/mock-db/src/lib.rs: both stores list the same chats.
use pheidippides.Prelude.{
  PartialEq, Text, List, [], ◌∷◌, Option, none, some, Bool, true, false, ◌&&◌, ◌==◌, eq_nat, map,
  keep, reverse, filter_map, All, ok, ◌≡◌, ◌↔◌, refl, sym, ap, ◌∙◌, arith, Bool-cases, Option-cases,
  inl, inr, nat_eq_iff, ◌<◌,
}
use pheidippides.Prelude.Rows.{
  count, SameRows, SameRows-reverse, IsOrdered, IsOrdered-keep, IsOrdered-reverse, IsOrdered-eq,
  All-reverse,
}
use pheidippides.Prelude.Maps
use pheidippides.Prelude.Maps.{HasDistinctKeys}
use pheidippides.Types.{UserId, User, Message, eq_user}
use pheidippides.MockDb
use pheidippides.MockDb.{to_record, named, names_by_id, chat_of, collect_new}
use pheidippides.Postgres.Tables.{Db, Server, answered, NotLater}
use pheidippides.Postgres.Queries.{
  chat_ids_grouped, group_max, left_join, find_users_chats, received_from, sent_to,
}
use pheidippides.Postgres.Integrity.{HasEnds}
use pheidippides.Postgres.Log.{Older, IsChronological, Represents, reverse-map}
use pheidippides.Postgres.Groups.{
  Row, top, max_of, get-group_max, group_max-HasDistinctKeys, top-get, top-union, top-SameRows,
  get-top,
}
use pheidippides.Postgres.Listed.{
  user_of, collect_new-nub, filter_map-chat_of, All-named, left_join-named,
}
use pheidippides.Postgres.Distinct.{get-SameRows}
use pheidippides.Postgres.Partners.{pair_of, pairs, nub, top-pairs, get-nub, nub-HasDistinctKeys}

row_eq : Row → Row → Bool
row_eq a b = a.0 == b.0 && a.1 == b.1

row_eq_iff : (a b : Row) → (row_eq a b ≡ true) ↔ (a ≡ b)
unfolding row_eq
row_eq_iff (i, t) (j, u) = (
  λ h. ground (arith, nat_eq_iff i j, nat_eq_iff t u),
  λ p.
      ground
        (arith, nat_eq_iff i j, nat_eq_iff t u, ap (λ (r : Row). r.0) p, ap (λ (r : Row). r.1) p),
)

instance eq_row : PartialEq Row
eq_row = record { eq = row_eq; eq_iff = row_eq_iff }

accepts : (Message → Option Row) → (Row → Bool) → Message → Bool
accepts f p m = elim (f m) [ none ↦ false | some r ↦ p r ]

count-filter_map :
    (f : Message → Option Row) (p : Row → Bool) (ms : List Message)
    → count p (filter_map f ms) ≡ count (accepts f p) ms
unfolding accepts
count-filter_map f p [] = refl
count-filter_map f p (m ∷ ms) = elim (Option-cases (f m)) [
  | inl e ↦ ground (arith, count-filter_map f p ms)
  | inr (r, e) ↦ ground (arith, count-filter_map f p ms)
]

pairs-SameRows :
    (u : UserId) (xs ys : List Message) → SameRows xs ys → SameRows (pairs u xs) (pairs u ys)
pairs-SameRows u xs ys same p =
    count-filter_map (pair_of u) p xs
    ∙ same (accepts (pair_of u) p)
    ∙ sym (count-filter_map (pair_of u) p ys)

-- The greatest timestamps of the groups are those of the pairs.
get-chat_ids_grouped :
    (k u : UserId) (rows : List Message)
    → Maps.get (chat_ids_grouped u rows) k ≡ top k (pairs u rows)
unfolding chat_ids_grouped
get-chat_ids_grouped k u rows =
    let a = received_from u rows in
    let b = sent_to u rows in
    get-group_max k _
    ∙ top-union k (group_max a) (group_max b)
    ∙ ap (λ o. max_of o (top k (group_max b)))
        (top-get k (group_max a) (group_max-HasDistinctKeys a) ∙ get-group_max k a)
    ∙ ap (max_of (top k a))
        (top-get k (group_max b) (group_max-HasDistinctKeys b) ∙ get-group_max k b)
    ∙ sym (top-pairs k u rows)

grouped-HasDistinctKeys :
    (u : UserId) (rows : List Message) → HasDistinctKeys (chat_ids_grouped u rows)
unfolding chat_ids_grouped
grouped-HasDistinctKeys u rows = group_max-HasDistinctKeys _

abbrev Later : Row → Row → Type 0
Later a b = b.1 < a.1

pair_of-time : (u : UserId) (m : Message) (r : Row) → pair_of u m ≡ some r → r.1 ≡ m.timestamp
pair_of-time u m r h = ground arith

All-pairs :
    (u : UserId) (m : Message) (r : Row) (ms : List Message)
    → r.1 ≡ m.timestamp
    → All (λ x. Older x m) ms
    → All (Later r) (pairs u ms)
All-pairs u m r [] e a = tt
All-pairs u m r (x ∷ ms) e (l, a) = elim (Option-cases (pair_of u x)) [
  | inl f ↦ rw (f, filter_map) (All-pairs u m r ms e a)
  | inr (q, f) ↦ rw (f, filter_map) (ground (arith, pair_of-time u x q f), All-pairs u m r ms e a)
]

pairs-IsOrdered :
    (u : UserId) (ms : List Message)
    → IsOrdered (λ a b. Older b a) ms
    → IsOrdered Later (pairs u ms)
pairs-IsOrdered u [] o = tt
pairs-IsOrdered u (m ∷ ms) (a, o) = elim (Option-cases (pair_of u m)) [
  | inl f ↦ rw (f, filter_map) (pairs-IsOrdered u ms o)
  | inr (r, f) ↦
      rw (f, filter_map) (All-pairs u m r ms (pair_of-time u m r f) a, pairs-IsOrdered u ms o)
]

module _ {κ} (P : Row → Type κ) where
  keep-All : (q : Row → Bool) (rows : List Row) → All P rows → All P (keep q rows)
  keep-All q [] a = tt
  keep-All q (r ∷ rows) (h, a) = elim (Bool-cases (q r)) [
    | inl e ↦ rw e (h, keep-All q rows a)
    | inr e ↦ rw e (keep-All q rows a)
  ]

  nub-All : (rows : List Row) → All P rows → All P (nub rows)
  nub-All [] a = tt
  nub-All (r ∷ rows) (h, a) = (h, keep-All _ (nub rows) (nub-All rows a))

nub-IsOrdered : (rows : List Row) → IsOrdered Later rows → IsOrdered Later (nub rows)
nub-IsOrdered [] o = tt
nub-IsOrdered (r ∷ rows) (a, o) = (
  keep-All _ _ (nub rows) (nub-All _ rows a),
  IsOrdered-keep Later _ (nub rows) (nub-IsOrdered rows o),
)

module _ (server : Server) (db : Db) (log : List Message) (mock : MockDb.Db)
    (r : Represents db log mock) (order : IsChronological log) where
  latest-eq :
      (u : UserId)
      → server.latest_first (chat_ids_grouped u db.messages) ≡ nub (pairs u (reverse log))
  latest-eq u =
      let newest =
        pairs-IsOrdered u (reverse log) (IsOrdered-reverse (λ a b. Older b a) log order) in
      let rows : SameRows (pairs u db.messages) (pairs u (reverse log)) =
        pairs-SameRows u db.messages (reverse log) (λ p. r.rows p ∙ sym (SameRows-reverse log p)) in
      let same : SameRows (chat_ids_grouped u db.messages) (nub (pairs u (reverse log))) =
        get-SameRows (chat_ids_grouped u db.messages) (nub (pairs u (reverse log)))
          (grouped-HasDistinctKeys u db.messages) (nub-HasDistinctKeys (pairs u (reverse log)))
          (λ k.
            get-chat_ids_grouped k u db.messages
            ∙ top-SameRows k (pairs u db.messages) (pairs u (reverse log)) rows
            ∙ sym (get-top k (pairs u (reverse log)) newest)
            ∙ sym (get-nub k (pairs u (reverse log)))) in
      IsOrdered-eq NotLater Later (λ a b p n. omega (arith, p, n)) (nub (pairs u (reverse log)))
        (server.latest_first (chat_ids_grouped u db.messages))
        (nub-IsOrdered (pairs u (reverse log)) newest)
        (server.latest_order (chat_ids_grouped u db.messages))
        (λ p. server.latest_rows (chat_ids_grouped u db.messages) p ∙ same p)

  -- Where the tables of both stores hold the messages of one log, which starts with the oldest
  -- message, has no two messages at one instant and none with the same id, both stores give each
  -- id the same name and have both sides of each message among their users, the tables in memory
  -- are not poisoned, and the server answers each statement, the chats of a user are the same
  -- list in both, the one with the latest message first.
  pub find_users_chats-refines :
      (unicode : Text → Text) (u : UserId)
      → mock.users.poisoned ≡ false
      → ((id : UserId) → Maps.get (names_by_id [] mock.users.inner) id ≡ Maps.get db.users id)
      → All (HasEnds db.users) log
      → (listed : List User) × (find_users_chats server unicode (λ _. answered) u db
          ≡ (ok listed, db))
        × (MockDb.find_users_chats u mock ≡ (ok listed, mock))
  unfolding find_users_chats MockDb.find_users_chats
  find_users_chats-refines unicode u up names ends =
      let mock_names = names_by_id [] mock.users.inner in
      let rows = nub (pairs u (reverse log)) in
      let joined : left_join db.users rows ≡ ok (map (user_of mock_names) rows) =
        left_join-named db.users mock_names rows names (
          nub-All _ (pairs u (reverse log))
            (All-named db.users u (reverse log) (All-reverse (HasEnds db.users) log ends))) in
      (
        map (user_of mock_names) rows,
        rw (latest-eq u, joined) refl,
        rw
            (
              up,
              r.mock_up,
              r.mock_rows,
              reverse-map to_record log,
              filter_map-chat_of mock_names u (reverse log),
              collect_new-nub mock_names (pairs u (reverse log)),
            )
            refl,
      )
