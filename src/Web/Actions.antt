-- ===== src/Web/Actions.antt =====
-- lib/pheidippides-web/src/routing/actions.rs: logging in and out, signing up, sending, subscribing.
use pheidippides.Prelude.{Text, codes, List, [], ◌∷◌, Option, none, some, true, false, eq_text}
use pheidippides.Prelude.Maps
use pheidippides.Types.{UserId, MessageId, Message}
use pheidippides.DataAccess.{DataAccess}
use pheidippides.Auth.{AuthService}
use pheidippides.Subscriptions.{Broadcast, Subscription}
use pheidippides.Messenger
use pheidippides.Cookies as Names
use pheidippides.Cookies.{Headers, get_cookies_hashmap, header_set_cookie}
use pheidippides.FormData
use pheidippides.Http.Request.{Request, content}
use pheidippides.Http.Response.{Response, EventSourceEvent, html, json, redirect, event_source}
use pheidippides.Web.Flow.{
  Handling, value, or_bad_request, or_server_error, check, respond, lift, server_error, answer,
  ◌>>=◌, ◌>>◌,
}
use pheidippides.Web.Sessions.{session_id_cookie, update_session_info, remove_session_info}
use pheidippides.Web.World.{
  External, Drawn, World, username_taken, MessageJson, of_app, of_sessions, get_authorization,
}

-- The channel that a response carries: its source and the function of its pipe.
pub record Pipe (Receiver : Type 0) : Type 0 where
  pub source : Subscription Receiver
  pub function : Message → Option EventSourceEvent

abbrev pub unauthorized_redirect : {Stream : Type 0} → Response Stream
unauthorized_redirect = redirect (codes "/login") []

-- `MessageJson::from`.
abbrev pub to_json : Message → MessageJson
to_json message = record {
  id = message.id;
  from = message.from;
  to = message.to;
  message = message.message;
  timestamp = message.timestamp;
}

module _ {B D A Salt Sender Receiver : Type 0} (broadcast : Broadcast Sender Receiver)
    (d : DataAccess B D) (auth : AuthService B A Salt) (external : External) where
  abbrev Handler : Type 0 → Type 0
  Handler T = Handling (World B Sender) (Pipe Receiver) T

  abbrev pub Reply : Type 0
  Reply = World B Sender → Response (Pipe Receiver) × World B Sender

  -- `get_authorization(headers).or_server_error()?`
  abbrev pub authorization : Headers → Handler (Option UserId)
  authorization headers = server_error (of_sessions (get_authorization external.unicode headers))

  -- `request.content().await.or_server_error()?`
  abbrev pub body : Request → Handler Text
  body request = do
    (text, _) ← lift (or_server_error (check (content external.unicode request)))
    lift (value text)

  abbrev end_session : Option Text → Handler (Response (Pipe Receiver))
  end_session none = respond unauthorized_redirect
  end_session (some session_id) = do
    server_error (of_sessions (remove_session_info session_id))
    respond unauthorized_redirect

  unfoldable pub logout : Request → Reply
  logout request = answer (do
    cookies ← lift (or_bad_request (check (get_cookies_hashmap external.unicode request.headers)))
    end_session (Maps.get cookies session_id_cookie))

  -- A session for the user, and the header that hands it out.
  abbrev open_session : Drawn Salt → UserId → Handler (Unit {0})
  open_session drawn user_id = server_error (
      of_sessions (
        update_session_info (external.uuid_to_string drawn.session_id)
          (record { user_id = user_id })))

  abbrev set_session : Drawn Salt → List Names.Header
  set_session drawn =
      header_set_cookie external.unicode session_id_cookie
        (external.uuid_to_string drawn.session_id)
      ∷ []

  abbrev log_in : Drawn Salt → Option UserId → Handler (Response (Pipe Receiver))
  log_in drawn (some user_id) = do
    open_session drawn user_id
    respond (redirect (codes "/chat") (set_session drawn))
  log_in drawn none = do
    page ← lift (or_server_error external.render_login_fail)
    respond (html page [])

  unfoldable pub authorize : Drawn Salt → Request → Reply
  authorize drawn request = answer (do
    text ← body request
    params ← lift (
        or_bad_request
          (check (FormData.from_str external.percent_decode external.authorization_params text)))
    found ←
        server_error (of_app (Messenger.verify_user broadcast d auth params.login params.password))
    log_in drawn found)

  abbrev signed_up : Drawn Salt → Option UserId → Handler (Response (Pipe Receiver))
  signed_up drawn (some user_id) = do
    open_session drawn user_id
    respond
        (json (external.signup_json (record { success = true; errors = [] })) (set_session drawn))
  signed_up drawn none =
      respond
        (json (external.signup_json (record { success = false; errors = username_taken ∷ [] })) [])

  unfoldable pub signup : Drawn Salt → Request → Reply
  signup drawn request = answer (do
    text ← body request
    params ← lift (or_bad_request (external.signup_params text))
    created ← server_error (
        of_app (
          Messenger.create_user broadcast d auth drawn.user_id drawn.salt params.login
            params.password))
    signed_up drawn created)

  abbrev send_as :
      Drawn Salt → Request → UserId → Option UserId → Handler (Response (Pipe Receiver))
  send_as drawn request receiver none = respond unauthorized_redirect
  send_as drawn request receiver (some user_id) = do
    text ← body request
    params ← lift (or_bad_request (external.send_message_params text))
    server_error (
        of_app (
          Messenger.send_message broadcast d auth drawn.message_id drawn.now params.message user_id
            receiver))
    respond (html (codes "ok.") [])

  unfoldable pub send_message : Drawn Salt → Request → Text → Reply
  send_message drawn request receiver_text = answer (do
    receiver ← lift (or_bad_request (external.parse_uuid receiver_text))
    user ← authorization request.headers
    send_as drawn request receiver user)

  -- An optional id: absent, or a text that must be a `Uuid`.
  abbrev pub optional_id : Option Text → Handler (Option MessageId)
  optional_id none = lift (value none)
  optional_id (some s) = do
    id ← lift (or_bad_request (external.parse_uuid s))
    lift (value (some id))

  -- `Option::or`.
  abbrev or_else : Option MessageId → Option MessageId → Option MessageId
  or_else (some a) b = some a
  or_else none b = b

  -- The function of the pipe of `subscribe_new_messages`.
  unfoldable pub to_event : Message → Option EventSourceEvent
  to_event message = some (record {
    id = external.uuid_to_string message.id;
    payload = external.message_json (to_json message);
    event = none;
  })

  unfoldable pub subscribe_new_messages : Request → Text → Reply
  unfolding to_event
  subscribe_new_messages request params_text = answer (do
    user ← authorization request.headers
    user_id ← lift (or_bad_request user)
    params ← lift (
        or_bad_request
          (check (FormData.from_str external.percent_decode external.subscribe_params params_text)))
    last_message_id_params ← optional_id params.last_message_id
    last_message_id_header ←
        optional_id
          (Maps.get request.headers (Names.from_str external.unicode (codes "Last-Event-ID")))
    subscription ← server_error (
        of_app (
          Messenger.subscribe_to_new_messages broadcast d auth user_id
            (or_else last_message_id_header last_message_id_params)))
    respond (event_source none (record { source = subscription; function = to_event })))
