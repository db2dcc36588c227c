-- ===== src/MockDb/Messages.antt =====
-- lib/mock-db/src/lib.rs: the pages of a chat, and the messages since a given one.
use pheidippides.Prelude.{
  List, [], ◌∷◌, ◌++◌, Option, none, some, false, ok, ◌≡◌, refl, ap, ◌∙◌, arith, fun_ext, ==_refl,
  eq_nat, filter_map, filter_map-skip, IsUnique, IsNew, IsUnique-append, IsUnique-reverse, take,
  reverse, skip_while, map, keep, drop, not, ◌==◌, Bool-cases, inl, inr, Text,
}
use mathlib.Core.List.{reverse-append}
use pheidippides.Types.{UserId, MessageId, Message}
use pheidippides.DataAccess.{message_load_buf_size}
use pheidippides.DataAccess.Laws.{concerns, LawfulLog}
use pheidippides.MockDb.{
  Db, Error, to_message, is_not, data_access, MessageRecord, to_record, in_chat, involving,
  fetch_last_messages_in_chat, fetch_users_messages_since, create_message,
}

-- The messages of a chat, newest first: what the pages are pages of.
abbrev pub history : UserId → UserId → Db → List Message
history u v db = filter_map (in_chat u v) (reverse db.messages.inner)

-- The messages that a user sent or received, oldest first.
abbrev pub timeline : UserId → Db → List Message
timeline u db = filter_map (involving u) db.messages.inner

pub record HasDistinctMessages (db : Db) : Type 0 where
  pub ids : IsUnique {A = MessageRecord} (λ r. r.id) db.messages.inner

in_chat-id : (u v : UserId) (r : MessageRecord) (m : Message) → in_chat u v r ≡ some m → m.id ≡ r.id
unfolding in_chat
in_chat-id u v r m h = ground arith

involving-id : (u : UserId) (r : MessageRecord) (m : Message) → involving u r ≡ some m → m.id ≡ r.id
unfolding involving
involving-id u r m h = ground arith

skip_while_never {ℓ} : {A : Type ℓ} (xs : List A) → skip_while (λ _. false) xs ≡ xs
skip_while_never [] = refl
skip_while_never (x ∷ xs) = refl

module _ (u v : UserId) (db : Db) (up : db.messages.poisoned ≡ false) where
  -- With no starting point the page holds the newest messages of the chat.
  pub first_page :
      fetch_last_messages_in_chat u v none db
      ≡ (ok (take message_load_buf_size (history u v db)), db)
  unfolding fetch_last_messages_in_chat
  first_page = rw (up, skip_while_never)

  -- If the table is not poisoned and names each message once, the page that starts at a message of
  -- the chat holds the messages that were sent right before it, newest first, as many as a page
  -- takes, and not the message itself.
  pub next_page :
      (newer older : List Message) (m : Message)
      → HasDistinctMessages db
      → history u v db ≡ newer ++ m ∷ older
      → fetch_last_messages_in_chat u v (some m.id) db ≡ (ok (take message_load_buf_size older), db)
  unfolding fetch_last_messages_in_chat
  next_page newer older m d h =
      let skipped =
        filter_map-skip (in_chat u v) (λ r. r.id) (λ r. r.id) (in_chat-id u v)
          (reverse db.messages.inner) newer older m (IsUnique-reverse _ db.messages.inner d.ids)
          h in
      ground arith

  -- If the table is not poisoned and names each message once, the messages since a message that the
  -- user sent or received are exactly those that came after it, oldest first.
  pub since-timeline :
      (before after : List Message) (m : Message)
      → HasDistinctMessages db
      → timeline u db ≡ before ++ m ∷ after
      → fetch_users_messages_since u m.id db ≡ (ok after, db)
  unfolding fetch_users_messages_since
  since-timeline before after m d h =
      let skipped =
        filter_map-skip (involving u) (λ r. r.id) (λ r. r.id) (involving-id u) db.messages.inner
          before after m d.ids h in
      ground arith

in_chat_symm : (u v : UserId) (r : MessageRecord) → in_chat u v r ≡ in_chat v u r
unfolding in_chat
in_chat_symm u v r = ground arith

-- Both users of a chat see the same page, from any starting point.
pub fetch_last_symm :
    (u v : UserId) (start : Option MessageId) (db : Db)
    → fetch_last_messages_in_chat u v start db ≡ fetch_last_messages_in_chat v u start db
unfolding fetch_last_messages_in_chat
fetch_last_symm u v start db = rw (fun_ext (in_chat_symm u v))

module _ (m : Message) (db : Db) (up : db.messages.poisoned ≡ false) where
  pub create_message-HasDistinctMessages :
      HasDistinctMessages db
      → IsNew {A = MessageRecord} (λ r. r.id) m.id db.messages.inner
      → HasDistinctMessages (create_message m db).1
  unfolding create_message
  create_message-HasDistinctMessages d n = ground (
    arith,
    IsUnique-append {A = MessageRecord} (λ r. r.id) db.messages.inner (to_record m) d.ids n,
  )

  history-create_message :
      (u v : UserId)
      → history u v (create_message m db).1
        ≡ filter_map (in_chat u v) (to_record m ∷ reverse db.messages.inner)
  unfolding create_message
  history-create_message u v = rw (up, reverse-append db.messages.inner (to_record m ∷ []))

  -- A new message heads the chat of its sender and receiver.
  pub history-create_message_self :
      history m.from m.to (create_message m db).1 ≡ m ∷ history m.from m.to db
  history-create_message_self =
      rw (history-create_message m.from m.to)
        (unfold in_chat in ground (arith, ==_refl m.from, ==_refl m.to))

  -- If the table is not poisoned, the newest page of its chat starts with the message that was
  -- just created, followed by the messages that were the chat's newest before.
  pub fetch_last-create_message :
      fetch_last_messages_in_chat m.from m.to none (create_message m db).1
      ≡ (ok (take message_load_buf_size (m ∷ history m.from m.to db)), (create_message m db).1)
  fetch_last-create_message =
      first_page m.from m.to (create_message m db).1 (unfold create_message in rw up)
      ∙ ap (λ newest. (ok (take message_load_buf_size newest), (create_message m db).1))
          history-create_message_self

  -- If the table is not poisoned, a new message leaves the history of every chat as it was that
  -- the message does not belong to.
  pub history-create_message_other :
      (u v : UserId)
      → in_chat u v (to_record m) ≡ none
      → history u v (create_message m db).1 ≡ history u v db
  history-create_message_other u v n = rw (history-create_message u v, n, filter_map)

map-to_message :
    (rows : List MessageRecord) (m : Message)
    → map to_message (rows ++ to_record m ∷ []) ≡ map to_message rows ++ m ∷ []
map-to_message [] m = refl
map-to_message (r ∷ rows) m = ap (λ ms. to_message r ∷ ms) (map-to_message rows m)

filter_map-concerns :
    (u : UserId) (rows : List MessageRecord)
    → filter_map (involving u) rows ≡ keep (concerns u) (map to_message rows)
unfolding involving
filter_map-concerns u [] = refl
filter_map-concerns u (r ∷ rows) = ground (arith, filter_map-concerns u rows)

skip-to_message :
    (start : MessageId) (rows : List MessageRecord)
    → map to_message (drop 1 (skip_while (is_not start) rows))
      ≡ drop 1 (skip_while (λ (m : Message). not (m.id == start)) (map to_message rows))
skip-to_message start [] = refl
skip-to_message start (r ∷ rows) = ground (arith, skip-to_message start rows)

rows-create_message :
    (m : Message) (b b' : Db)
    → create_message m b ≡ (ok tt, b')
    → b'.messages.inner ≡ b.messages.inner ++ to_record m ∷ []
unfolding create_message
rows-create_message m b b' h = elim (Bool-cases b.messages.poisoned) [
  | inl e ↦ absurd (ground arith)
  | inr e ↦ ground arith
]

rows-since :
    (u : UserId) (start : MessageId) (b b' : Db) (ms : List Message)
    → fetch_users_messages_since u start b ≡ (ok ms, b')
    → (ms ≡ filter_map (involving u) (drop 1 (skip_while (is_not start) b.messages.inner)))
      × (b' ≡ b)
unfolding fetch_users_messages_since
rows-since u start b b' ms h = elim (Bool-cases b.messages.poisoned) [
  | inl e ↦ absurd (ground arith)
  | inr e ↦ ground arith
]

-- The store in memory holds its messages in the order in which they came.
pub mock-LawfulLog : (unicode : Text → Text) → LawfulLog Db Error (data_access unicode)
mock-LawfulLog unicode = record {
  log = λ db. map to_message db.messages.inner;
  log-create_message = λ m b b' h.
      ap (map to_message) (rows-create_message m b b' h) ∙ map-to_message b.messages.inner m;
  since-log = λ u start b b' ms h.
      let (rows, same) = rows-since u start b b' ms h in
      (
        rows
            ∙ filter_map-concerns u (drop 1 (skip_while (is_not start) b.messages.inner))
            ∙ ap (keep (concerns u)) (skip-to_message start b.messages.inner),
        ap (λ (db : Db). map to_message db.messages.inner) same,
      );
}

pub mock_log :
    (unicode : Text → Text) (db : Db)
    → (mock-LawfulLog unicode).log db ≡ map to_message db.messages.inner
unfolding mock-LawfulLog
mock_log unicode db = refl
