-- ===== src/Tests/Site.antt =====
-- A site for tests: an id is written as one digit, each template is a fixed text, and Dan has signed
-- up.
use pheidippides.Prelude.{
  to_lowercase, split_once, text_eq, ℕ, ◌+◌, ◌-◌, Text, codes, List, [], ◌∷◌, ◌++◌, Option, none,
  some, true, false, ok, err, eq_text, refl, Lock, ◌≡◌, ◌≢◌, err, arith, All,
}
use pheidippides.Types.{Uuid}
use pheidippides.MockDb
use pheidippides.MockDb.{Db, data_access, auth_storage}
use pheidippides.Auth
use pheidippides.Auth.{auth_service, AuthService, AuthServiceError}
use pheidippides.Messenger
use pheidippides.FormData
use pheidippides.FormData.{Visit, next_key, next_value, a_string, done}
use pheidippides.Subscriptions.{Handler}
use pheidippides.Web.World.{External, Drawn, World}
use pheidippides.Tests.Base.{same_text, Channel, channels, plain, app}

abbrev pub read_id : Text → Option Uuid
read_id (c ∷ []) = some (c - b'0')
read_id _ = none

abbrev pub two_fields : {V : Type 0} → (Text → Text → V) → Visit V
two_fields f =
    next_key
      (λ _. next_value a_string (λ a. next_key (λ _. next_value a_string (λ b. done (f a b)))))

abbrev pub one_field : {V : Type 0} → (Text → V) → Visit V
one_field f = next_key (λ _. next_value a_string (λ a. done (f a)))

abbrev pub outside : External
outside = record {
  unicode = same_text;
  percent_decode = same_text;
  parse_uuid = read_id;
  uuid_to_string = λ n. (b'0' + n) ∷ [];
  authorization_params = two_fields (λ a b. record { login = a; password = b });
  subscribe_params = one_field (λ a. record { last_message_id = some a });
  chat_search_params = one_field (λ a. record { query = a });
  messages_url_params = one_field (λ a. record { from = some a });
  signup_params = λ s. some (record { login = s; password = s });
  send_message_params = λ s. some (record { message = s });
  signup_json = λ _. codes "{}";
  message_json = λ _. codes "{}";
  messages_json = λ _. codes "[]";
  render_chat = λ _. some (codes "chat");
  render_chats = λ _. some (codes "chats");
  render_login = some (codes "login");
  render_signup = some (codes "signup");
  render_login_fail = some (codes "again");
  render_event_source = some (codes "events");
}

abbrev pub service : AuthService Db (AuthServiceError MockDb.Error) ℕ
service = auth_service plain auth_storage

abbrev pub draws : Drawn ℕ
draws = record { session_id = 7; message_id = 20; user_id = 5; now = 20; salt = 0 }

-- Dan signed up, and the session 1 is open for user 2.
abbrev pub joined : Handler Db Channel
joined =
    (Messenger.create_user channels (data_access same_text) service 5 0 (codes "Dan") (codes "pw")
      app).1

abbrev pub site : World Db Channel
site = record {
  app = joined;
  sessions = record { inner = (codes "1", record { user_id = 2 }) ∷ []; poisoned = false };
}

pub log_in_params :
    FormData.from_str same_text outside.authorization_params (codes "login=Dan&password=pw")
    ≡ ok (record { login = codes "Dan"; password = codes "pw" })
unfolding FormData.from_str split_once pheidippides.Prelude.Strings.replace
log_in_params = refl

pub log_in_verified :
    Messenger.verify_user channels (data_access same_text) service (codes "Dan") (codes "pw") joined
    ≡ (ok (some 5), joined)
unfolding Messenger.verify_user pheidippides.DataAccess.Defaults.find_user_by_username
    MockDb.fetch_users Messenger.create_user MockDb.create_user MockDb.same_name text_eq
    to_lowercase Auth.create_user MockDb.update_authentication
    pheidippides.DataAccess.Defaults.with_username Auth.verify_user MockDb.fetch_authentication
    MockDb.auth_of
log_in_verified = refl
