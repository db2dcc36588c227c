-- ===== src/Tests/Base.antt =====
-- Test data: a channel that counts its receivers, a hash that is the password itself, and a store
-- with three users.
use pheidippides.Prelude.{
  ℕ, suc, ◌-◌, ltb, Text, codes, List, [], ◌∷◌, ◌++◌, Option, none, some, true, false, text_eq,
  text_eq_iff, if◌then◌else◌, ap, ◌≡◌, ◌≢◌, ==_ne, ◌<◌, refl, arith, ◌==◌, eq_nat, Lock, ==_refl,
}
use pheidippides.Types.{UserId, Message}
use pheidippides.Auth.{Argon2}
use pheidippides.MockDb.{Db, to_record}
use pheidippides.Subscriptions.{Broadcast, Handler}

abbrev pub same_text : Text → Text
same_text s = s

-- The number of receivers, the next receiver, and what each receiver got.
pub record Channel : Type 0 where
  pub count : ℕ
  pub next : ℕ
  pub got : ℕ → List Message

abbrev pub new_channel : Channel
new_channel = record { count = 0; next = 0; got = λ _. [] }

abbrev pub with_receiver : Channel → Channel
with_receiver s = record {
  count = suc s.count;
  next = suc s.next;
  got = λ r. if r == s.next then [] else s.got r;
}

abbrev pub send_all : Channel → Message → Option Channel
send_all s m = if ltb 0 s.count then some (record s { got = λ r. s.got r ++ m ∷ [] }) else none

pub all_got :
    (s t : Channel) (m : Message)
    → send_all s m ≡ some t
    → t ≡ record s { got = λ r. s.got r ++ m ∷ [] }
all_got s t m h = ground arith

pub unheard : (s : Channel) (m : Message) → s.count ≡ 0 → send_all s m ≡ none
unheard s m h = ground arith

pub heard : (s : Channel) (m : Message) → 0 < s.count → (t : Channel) × (send_all s m ≡ some t)
heard s m h = (record s { got = λ r. s.got r ++ m ∷ [] }, ground arith)

pub new_receiver_empty : (s : Channel) → (with_receiver s).got s.next ≡ []
new_receiver_empty s = ground (arith, ==_refl s.next)

pub other_receiver : (s : Channel) (r : ℕ) → r ≢ s.next → (with_receiver s).got r ≡ s.got r
other_receiver s r n = rw (==_ne n) refl

abbrev pub channels : Broadcast Channel ℕ
channels = record {
  channel = λ _. new_channel;
  subscribe = λ s. (with_receiver s, s.next);
  drop_receiver = λ s r. record s { count = s.count - 1 };
  send = send_all;
  receiver_count = λ s. s.count;
  log = λ s r. s.got r;
  count-channel = λ _. refl;
  count-subscribe = λ s. refl;
  log-subscribe = new_receiver_empty;
  log-subscribe_other = other_receiver;
  count-drop = λ s r. refl;
  log-drop_other = λ s r r' n. refl;
  count-send = λ s t m h. ap (λ (x : Channel). x.count) (all_got s t m h);
  send_unheard = unheard;
  send_heard = heard;
  log-send = λ s t m r h. ap (λ (x : Channel). x.got r) (all_got s t m h);
}

-- A password is refused if it is empty, and is its own hash otherwise.
abbrev pub plain_hash : Text → ℕ → Option Text
plain_hash [] salt = none
plain_hash (c ∷ s) salt = some (c ∷ s)

pub plain-verify :
    (password : Text) (salt : ℕ) (hash : Text)
    → plain_hash password salt ≡ some hash
    → text_eq password hash ≡ true
plain-verify [] salt hash h = cc
plain-verify (c ∷ s) salt hash h = ground (arith, text_eq_iff (c ∷ s) hash)

abbrev pub plain : Argon2 ℕ
plain = record { hash_password = plain_hash; verify_password = text_eq; verify-hash = plain-verify }

abbrev table : {A : Type 0} → A → Lock A
table a = record { inner = a; poisoned = false }

abbrev pub note : ℕ → UserId → UserId → Message
note n from to = record { id = n; from = from; to = to; message = codes "hi"; timestamp = n }

-- Five messages: 2 and 3 write to each other, and 4 writes to 2.
abbrev pub store : Db
store = record {
  users = table ((2, codes "ann") ∷ (3, codes "bob") ∷ (4, codes "cat") ∷ []);
  messages = table (
      to_record (note 10 2 3)
      ∷ to_record (note 11 3 2)
      ∷ to_record (note 12 4 2)
      ∷ to_record (note 13 2 3)
      ∷ to_record (note 14 3 2)
      ∷ []);
  auth = table [];
}

abbrev pub app : Handler Db Channel
app = record { backend = store; new_messages = table [] }

-- User 2 has a receiver, and user 3 had one.
abbrev pub live_channel : Channel
live_channel = with_receiver new_channel

abbrev pub app_with : List (UserId × Channel) → Handler Db Channel
app_with entries = record { backend = store; new_messages = table entries }
