-- ===== src/Postgres/Pages.antt =====
-- lib/postgres-db/src/lib.rs and lib/mock-db/src/lib.rs: both stores answer the same pages and the
-- same messages since a given one.
use pheidippides.Prelude.{
  List, [], Option, none, some, Bool, true, ◌&&◌, ◌==◌, eq_nat, ok, ◌≡◌, refl, sym, ap, ◌∙◌, arith,
  reverse, filter_map, keep, take, drop, skip_while, not, any, first, Option-cases, inl, inr,
  fun_ext, nat_eq_iff, Text,
}
use pheidippides.Prelude.Rows.{
  SameRows-keep, SameRows-reverse, IsOrdered-keep, IsOrdered-reverse, IsOrdered-eq,
  first-keep-SameRows,
}
use pheidippides.Types.{UserId, MessageId, Message, eq_message}
use pheidippides.DataAccess.{message_load_buf_size}
use pheidippides.MockDb
use pheidippides.MockDb.Messages.{history, first_page}
use pheidippides.MockDb.{to_record, in_chat, involving}
use pheidippides.Postgres.Tables.{Db, Server, answered, NotOlder}
use pheidippides.Postgres.Queries.{
  between, touches, before, after, timestamp_of, fetch_last_messages_in_chat,
  fetch_users_messages_since,
}
use pheidippides.Postgres.Log.{
  Older, IsChronological, Represents, first-keep, any-first, keep-keep, skip-keep, skip-none,
  skip-map, filter_map-in_chat, filter_map-involving, reverse-map,
}

-- No starting point, or one that the log has.
abbrev pub IsLogged : Option MessageId → List Message → Type 0
IsLogged none log = Unit {0}
IsLogged (some id) log = any (λ (m : Message). m.id == id) log ≡ true

and_true : (b : Bool) → (b && true) ≡ b
and_true b = ground arith

module _ (server : Server) (db : Db) (log : List Message) (mock : MockDb.Db)
    (r : Represents db log mock) (order : IsChronological log) where
  newest-eq : (q : Message → Bool) → server.newest_first (keep q db.messages) ≡ keep q (reverse log)
  newest-eq q =
      IsOrdered-eq NotOlder (λ a b. Older b a) (λ a b p n. omega (arith, p, n))
        (keep q (reverse log)) (server.newest_first (keep q db.messages))
        (IsOrdered-keep _ q (reverse log) (IsOrdered-reverse (λ a b. Older b a) log order))
        (server.newest_order (keep q db.messages))
        (λ p.
          server.newest_rows (keep q db.messages) p
          ∙ SameRows-keep q db.messages (reverse log)
              (λ p'. r.rows p' ∙ sym (SameRows-reverse log p')) p)

  oldest-eq : (q : Message → Bool) → server.oldest_first (keep q db.messages) ≡ keep q log
  oldest-eq q =
      IsOrdered-eq (λ a b. NotOlder b a) Older (λ a b p n. omega (arith, p, n)) (keep q log)
        (server.oldest_first (keep q db.messages)) (IsOrdered-keep _ q log order)
        (server.oldest_order (keep q db.messages))
        (λ p. server.oldest_rows (keep q db.messages) p ∙ SameRows-keep q db.messages log r.rows p)

  found-eq :
      (id : MessageId)
      → first (keep (λ (m : Message). m.id == id) db.messages)
        ≡ first (keep (λ (m : Message). m.id == id) log)
  found-eq id = first-keep-SameRows _ db.messages log r.rows (r.ids id)

  newest_found-eq :
      (id : MessageId)
      → first (keep (λ (m : Message). m.id == id) (reverse log))
        ≡ first (keep (λ (m : Message). m.id == id) log)
  newest_found-eq id = first-keep-SameRows _ (reverse log) log (SameRows-reverse log) (r.ids id)

  since-eq :
      (id : MessageId) (m : Message)
      → first (keep (λ (x : Message). x.id == id) log) ≡ some m
      → drop 1 (skip_while (λ (x : Message). not (x.id == id)) log)
        ≡ keep (after m.timestamp m.id) log
  unfolding after
  since-eq id m found =
      skip-keep Older (λ m x. after m.timestamp m.id x) (λ m x p. ground (arith, p))
        (λ m x p. ground (arith, p)) (λ m. ground arith) id m log order found

  before-eq :
      (id : MessageId) (m : Message)
      → first (keep (λ (x : Message). x.id == id) log) ≡ some m
      → drop 1 (skip_while (λ (x : Message). not (x.id == id)) (reverse log))
        ≡ keep (before m.timestamp m.id) (reverse log)
  unfolding before
  before-eq id m found =
      skip-keep (λ a b. Older b a) (λ m x. before m.timestamp m.id x) (λ m x p. ground (arith, p))
        (λ m x p. ground (arith, p)) (λ m. ground arith) id m (reverse log)
        (IsOrdered-reverse (λ a b. Older b a) log order) (newest_found-eq id ∙ found)

  timestamp_of-log :
      (id : MessageId) (m : Message)
      → first (keep (λ (x : Message). x.id == id) log) ≡ some m
      → timestamp_of id db.messages ≡ some m.timestamp
  unfolding timestamp_of
  timestamp_of-log id m found = rw (found-eq id, found) refl

  found-id :
      (id : MessageId) (m : Message)
      → first (keep (λ (x : Message). x.id == id) log) ≡ some m
      → m.id ≡ id
  found-id id m found =
      (nat_eq_iff m.id id).0 (first-keep (λ (x : Message). x.id == id) log m found)

  mock_newest :
      (u v : UserId)
      → filter_map (in_chat u v) (reverse mock.messages.inner) ≡ keep (between u v) (reverse log)
  mock_newest u v =
      rw (r.mock_rows, reverse-map to_record log) (filter_map-in_chat u v (reverse log))

  -- The page before a message of the log, in both stores.
  abbrev page_after : UserId → UserId → Message → List Message
  page_after u v m =
      take message_load_buf_size
        (keep (λ x. between u v x && before m.timestamp m.id x) (reverse log))

  mock_page :
      (u v : UserId) (id : MessageId) (m : Message)
      → first (keep (λ (x : Message). x.id == id) log) ≡ some m
      → MockDb.fetch_last_messages_in_chat u v (some id) mock ≡ (ok (page_after u v m), mock)
  unfolding MockDb.fetch_last_messages_in_chat
  mock_page u v id m found =
      rw
        (
          r.mock_up,
          r.mock_rows,
          reverse-map to_record log,
          skip-map id (reverse log),
          before-eq id m found,
          filter_map-in_chat u v (keep (before m.timestamp m.id) (reverse log)),
          keep-keep (between u v) (before m.timestamp m.id) (reverse log),
        )
        refl

  pg_page :
      (unicode : Text → Text) (u v : UserId) (id : MessageId) (m : Message)
      → first (keep (λ (x : Message). x.id == id) log) ≡ some m
      → fetch_last_messages_in_chat server unicode (λ _. answered) u v (some id) db
        ≡ (ok (page_after u v m), db)
  unfolding fetch_last_messages_in_chat
  pg_page unicode u v id m found =
      rw (timestamp_of-log id m found, ← found-id id m found, newest-eq) refl

  -- Where the tables of both stores hold the messages of one log, which starts with the oldest
  -- message, has no two messages at one instant and none with the same id, the table in memory is
  -- not poisoned, and the server answers each statement, a page of a chat is the same list of
  -- messages in both, from no starting point and from any that is in the log.
  pub fetch_last-refines :
      (unicode : Text → Text) (u v : UserId) (start : Option MessageId)
      → IsLogged start log
      → (page : List Message) × (fetch_last_messages_in_chat server unicode
            (λ _. answered)
            u
            v
            start
            db
          ≡ (ok page, db))
        × (MockDb.fetch_last_messages_in_chat u v start mock ≡ (ok page, mock))
  unfolding fetch_last_messages_in_chat MockDb.fetch_last_messages_in_chat
  fetch_last-refines unicode u v none stored = (
    take message_load_buf_size (history u v mock),
    rw newest-eq (
        ap (λ rows. (ok (take message_load_buf_size rows), db))
          (ap (λ p. keep p (reverse log)) (fun_ext (λ m. and_true (between u v m)))
            ∙ sym (mock_newest u v))),
    first_page u v mock r.mock_up,
  )
  fetch_last-refines unicode u v (some id) stored =
      elim (Option-cases (first (keep (λ (x : Message). x.id == id) log))) [
        | inl e ↦ cc (any-first (λ (x : Message). x.id == id) log e, stored)
        | inr (m, e) ↦ (page_after u v m, pg_page unicode u v id m e, mock_page u v id m e)
      ]

  -- Where the tables of both stores hold the messages of one log, which starts with the oldest
  -- message, has no two messages at one instant and none with the same id, the table in memory is
  -- not poisoned, and the server answers each statement, the messages of a user since a given one
  -- are the same list in both, also where the log does not have that one.
  pub since-refines :
      (unicode : Text → Text) (u : UserId) (start : MessageId)
      → (messages : List Message) × (fetch_users_messages_since server unicode
            (λ _. answered)
            u
            start
            db
          ≡ (ok messages, db))
        × (MockDb.fetch_users_messages_since u start mock ≡ (ok messages, mock))
  unfolding fetch_users_messages_since MockDb.fetch_users_messages_since timestamp_of
  since-refines unicode u start =
      elim (Option-cases (first (keep (λ (x : Message). x.id == start) log))) [
        | inl e ↦ (
          [],
          rw (found-eq start, e) refl,
          rw (r.mock_up, r.mock_rows, skip-map start log, skip-none start log e) refl,
        )
        | inr (m, e) ↦ (
          keep (λ x. touches u x && after m.timestamp m.id x) log,
          rw (found-eq start, e, ← found-id start m e, oldest-eq) refl,
          rw
              (
                r.mock_up,
                r.mock_rows,
                skip-map start log,
                since-eq start m e,
                filter_map-involving u (keep (after m.timestamp m.id) log),
                keep-keep (touches u) (after m.timestamp m.id) log,
              )
              refl,
        )
      ]
