-- ===== src/Web/World.antt =====
-- lib/pheidippides-web/src: what the handlers work on and what they call. The state is that of the
-- application and the global sessions. What is not in the repository is the record `External`:
-- Unicode tables, the crates `uuid`, `url_escape`, `serde_json`, `chrono` and `askama`, and the
-- `Deserialize` implementations that serde derives.
use pheidippides.Prelude.{Text, List, Option, none, some, Bool, Exec, Result, ok, err, eq_text}
use pheidippides.Prelude.Maps
use pheidippides.Types.{Uuid, UserId, MessageId, Timestamp, User}
use pheidippides.Cookies.{Headers, get_cookies_hashmap}
use pheidippides.FormData.{Visit}
use pheidippides.Subscriptions.{Handler}
use pheidippides.Web.Sessions as Sess
use pheidippides.Web.Sessions.{Sessions, SessionInfo, session_id_cookie, get_session_info}

pub record AuthorizationParams : Type 0 where
  pub login : Text
  pub password : Text

pub record SignupParams : Type 0 where
  pub login : Text
  pub password : Text

pub record SendMessageParams : Type 0 where
  pub message : Text

pub record SubscribeNewMessagesParams : Type 0 where
  pub last_message_id : Option Text

pub record ChatSearchParams : Type 0 where
  pub query : Text

pub record MessagesUrlParams : Type 0 where
  pub from : Option Text

pub data SignupError : Type 0 where
  username_taken : SignupError

pub record SignupResponse : Type 0 where
  pub success : Bool
  pub errors : List SignupError

pub record MessageJson : Type 0 where
  pub id : MessageId
  pub from : UserId
  pub to : UserId
  pub message : Text
  pub timestamp : Timestamp

pub data MessageResponseError : Type 0 where
  unauthorized : MessageResponseError

pub record MessagesResponse : Type 0 where
  pub success : Bool
  pub messages : List MessageJson
  pub error : Option MessageResponseError

pub record ChatPage : Type 0 where
  pub username : Text
  pub user_id : UserId
  pub chats : List User

pub record External : Type 0 where
  pub unicode : Text → Text
  pub percent_decode : Text → Text
  pub parse_uuid : Text → Option Uuid
  pub uuid_to_string : Uuid → Text
  pub authorization_params : Visit AuthorizationParams
  pub subscribe_params : Visit SubscribeNewMessagesParams
  pub chat_search_params : Visit ChatSearchParams
  pub messages_url_params : Visit MessagesUrlParams
  pub signup_params : Text → Option SignupParams
  pub send_message_params : Text → Option SendMessageParams
  pub signup_json : SignupResponse → Text
  pub message_json : MessageJson → Text
  pub messages_json : MessagesResponse → Text
  pub render_chat : ChatPage → Option Text
  pub render_chats : List User → Option Text
  pub render_login : Option Text
  pub render_signup : Option Text
  pub render_login_fail : Option Text
  pub render_event_source : Option Text

-- What the code draws while it handles one request: `Uuid::new_v4()`, `Utc::now()` and a salt.
pub record Drawn (Salt : Type 0) : Type 0 where
  pub session_id : Uuid
  pub message_id : Uuid
  pub user_id : Uuid
  pub now : Timestamp
  pub salt : Salt

pub record World (B Sender : Type 0) : Type 0 where
  pub app : Handler B Sender
  pub sessions : Sessions

module _ {B Sender : Type 0} where
  -- A call of the messenger, and one of the sessions.
  abbrev pub of_app : {E A : Type 0} → Exec (Handler B Sender) E A → Exec (World B Sender) E A
  of_app call w = let (res, app) = call w.app in (res, record w { app = app })

  abbrev pub of_sessions : {E A : Type 0} → Exec Sessions E A → Exec (World B Sender) E A
  of_sessions call w =
      let (res, sessions) = call w.sessions in (res, record w { sessions = sessions })

abbrev user_of : Result Sess.Error (Option SessionInfo) → Result Sess.Error (Option UserId)
user_of (err e) = err e
user_of (ok none) = ok none
user_of (ok (some v)) = ok (some v.user_id)

abbrev session_of : Option Text → Exec Sessions Sess.Error (Option UserId)
session_of none s = (ok none, s)
session_of (some session_id) s = let (res, t) = get_session_info session_id s in (user_of res, t)

-- `get_authorization` of routing.rs. An incorrect cookie header counts as no authorization.
unfoldable pub get_authorization :
    (Text → Text) → Headers → Exec Sessions Sess.Error (Option UserId)
get_authorization unicode headers s = elim (get_cookies_hashmap unicode headers) [
  | err _ ↦ (ok none, s)
  | ok cookies ↦ session_of (Maps.get cookies session_id_cookie) s
]
