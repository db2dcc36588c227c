-- ===== src/Web/Routing/Access.antt =====
-- lib/pheidippides-web/src/routing.rs: what a request without a session, and what a request with
-- one, can reach.
use pheidippides.Prelude.{
  Text, codes, [], none, some, ok, Result-cases, Option-cases, inl, inr, ◌≡◌, ◌≢◌, refl, arith,
}
use pheidippides.Types.{UserId}
use pheidippides.DataAccess.{DataAccess}
use pheidippides.Auth.{AuthService}
use pheidippides.Subscriptions.{Broadcast}
use pheidippides.Messenger
use pheidippides.Cookies.{Headers}
use pheidippides.Http.Request.{Request, content}
use pheidippides.Http.Response.{html}
use pheidippides.Web.Flow.{or_bad_request, or_server_error}
use pheidippides.Web.Sessions.{Sessions, get_session_info}
use pheidippides.Web.World.{External, Drawn, World, get_authorization}
use pheidippides.Web.Actions
use pheidippides.Web.Pages
use pheidippides.Web.Routing.{
  Route, main, authorization, signup_page, chat, signup, logout, authorize, subscribe_new_messages,
  chats, chatsearch, event_source, favicon, unknown, message, chat_info, messages, run_route,
}

-- Looking a session up changes nothing.
pub get_authorization_keeps :
    (unicode : Text → Text) (headers : Headers) (s : Sessions)
    → (get_authorization unicode headers s).1 ≡ s
unfolding get_authorization get_session_info
get_authorization_keeps unicode headers s = ground arith

-- The routes that serve the messages and chats of a user.
abbrev pub NeedsUser : Route → Type 0
NeedsUser chat = Unit {0}
NeedsUser subscribe_new_messages = Unit {0}
NeedsUser chats = Unit {0}
NeedsUser (message _) = Unit {0}
NeedsUser (messages _) = Unit {0}
NeedsUser _ = ⊥

-- The routes that start or end a session.
abbrev pub IsSessionRoute : Route → Type 0
IsSessionRoute signup = Unit {0}
IsSessionRoute authorize = Unit {0}
IsSessionRoute logout = Unit {0}
IsSessionRoute _ = ⊥

module _ {B D A Salt Sender Receiver : Type 0} (broadcast : Broadcast Sender Receiver)
    (d : DataAccess B D) (auth : AuthService B A Salt) (external : External) (drawn : Drawn Salt)
    (request : Request) (params : Text) (w : World B Sender) where
  kept : (get_authorization external.unicode request.headers w.sessions).1 ≡ w.sessions
  kept = get_authorization_keeps external.unicode request.headers w.sessions

  module _
      (no_session : (u : UserId)
        → (get_authorization external.unicode request.headers w.sessions).0 ≢ ok (some u)) where
    chat_keeps : (Pages.chat broadcast d auth external request w).1 ≡ w
    unfolding Pages.chat or_server_error
    chat_keeps =
        elim (Result-cases (get_authorization external.unicode request.headers w.sessions).0) [
          | inl (none, e) ↦ ground (arith, kept)
          | inl (some u, e) ↦ absurd (no_session u e)
          | inr (e, f) ↦ ground (arith, kept)
        ]

    chats_keeps : (Pages.chats_html_response broadcast d auth external request w).1 ≡ w
    unfolding Pages.chats_html_response or_bad_request
    chats_keeps =
        elim (Result-cases (get_authorization external.unicode request.headers w.sessions).0) [
          | inl (none, e) ↦ ground (arith, kept)
          | inl (some u, e) ↦ absurd (no_session u e)
          | inr (e, f) ↦ ground (arith, kept)
        ]

    subscribe_keeps :
        (Actions.subscribe_new_messages broadcast d auth external request params w).1 ≡ w
    unfolding Actions.subscribe_new_messages or_server_error or_bad_request
    subscribe_keeps =
        elim (Result-cases (get_authorization external.unicode request.headers w.sessions).0) [
          | inl (none, e) ↦ ground (arith, kept)
          | inl (some u, e) ↦ absurd (no_session u e)
          | inr (e, f) ↦ ground (arith, kept)
        ]

    send_keeps :
        (receiver : Text)
        → (Actions.send_message broadcast d auth external drawn request receiver w).1 ≡ w
    unfolding Actions.send_message or_server_error or_bad_request
    send_keeps receiver =
        elim (Result-cases (get_authorization external.unicode request.headers w.sessions).0) [
          | inl (none, e) ↦ ground (arith, kept)
          | inl (some u, e) ↦ absurd (no_session u e)
          | inr (e, f) ↦ ground (arith, kept)
        ]

    messages_keeps :
        (chat_id : Text)
        → (Pages.messages_json broadcast d auth external request chat_id params w).1 ≡ w
    unfolding Pages.messages_json or_server_error or_bad_request
    messages_keeps chat_id =
        elim (Result-cases (get_authorization external.unicode request.headers w.sessions).0) [
          | inl (none, e) ↦ ground (arith, kept)
          | inl (some u, e) ↦ absurd (no_session u e)
          | inr (e, f) ↦ ground (arith, kept)
        ]

    -- If the request's cookies authorize no user, the routes for users (chat, new messages, chats,
    -- sending, messages) change neither the application's state nor the sessions.
    pub run_route_unauthorized :
        (r : Route)
        → NeedsUser r
        → (run_route broadcast d auth external drawn request params r w).1 ≡ w
    unfolding run_route
    run_route_unauthorized chat n = chat_keeps
    run_route_unauthorized subscribe_new_messages n = subscribe_keeps
    run_route_unauthorized chats n = chats_keeps
    run_route_unauthorized (message receiver) n = send_keeps receiver
    run_route_unauthorized (messages chat_id) n = messages_keeps chat_id
    run_route_unauthorized _ n = elim n [ ]

  -- Every route but the three that start or end a session leaves all sessions as they are.
  pub run_route_sessions :
      (r : Route)
      → ¬ IsSessionRoute r
      → (run_route broadcast d auth external drawn request params r w).1.sessions ≡ w.sessions
  unfolding run_route
  run_route_sessions main n = unfold Pages.main in refl
  run_route_sessions authorization n = unfold Pages.login_page or_server_error in ground arith
  run_route_sessions signup_page n = unfold Pages.signup_page or_server_error in ground arith
  run_route_sessions chat n =
      unfold Pages.chat or_server_error or_bad_request in ground (arith, kept)
  run_route_sessions signup n = absurd (n tt)
  run_route_sessions logout n = absurd (n tt)
  run_route_sessions authorize n = absurd (n tt)
  run_route_sessions subscribe_new_messages n =
      unfold Actions.subscribe_new_messages or_server_error or_bad_request in ground (arith, kept)
  run_route_sessions chats n =
      unfold Pages.chats_html_response or_server_error or_bad_request in ground (arith, kept)
  run_route_sessions chatsearch n =
      unfold Pages.chatsearch_html or_server_error or_bad_request in ground arith
  run_route_sessions event_source n = unfold Pages.event_source_page or_server_error in ground arith
  run_route_sessions favicon n = refl
  run_route_sessions unknown n = refl
  run_route_sessions (message receiver) n =
      unfold Actions.send_message or_server_error or_bad_request in ground (arith, kept)
  run_route_sessions (chat_info chat_id) n =
      unfold Pages.chat_html_response or_server_error or_bad_request in ground arith
  run_route_sessions (messages chat_id) n =
      unfold Pages.messages_json or_server_error or_bad_request in ground (arith, kept)

  -- If the answer to a request to send is "ok.", then the request's cookies authorize a user, the
  -- receiver in the path is an id, and the messenger sent a message from that user to that
  -- receiver successfully, which is all that the handler did to the application.
  pub send_message_sound :
      (receiver : Text)
      → (Actions.send_message broadcast d auth external drawn request receiver w).0
        ≡ html (codes "ok.") []
      → (u : UserId) × (to : UserId) × (text : Text) × ((get_authorization external.unicode
            request.headers w.sessions).0
          ≡ ok (some u))
        × (external.parse_uuid receiver ≡ some to)
        × (Messenger.send_message broadcast d auth drawn.message_id drawn.now text u to w.app ≡ (
          ok drawn.message_id,
          (Actions.send_message broadcast d auth external drawn request receiver w).1.app,
        ))
  unfolding Actions.send_message Messenger.send_message or_server_error or_bad_request
  send_message_sound receiver done = elim (Option-cases (external.parse_uuid receiver)) [
    | inl e ↦ absurd (ground arith)
    | inr (to, e) ↦
        elim (Result-cases (get_authorization external.unicode request.headers w.sessions).0) [
          | inl (none, f) ↦ absurd (ground arith)
          | inl (some u, f) ↦ elim (Result-cases (content external.unicode request)) [
            | inl ((text, n), g) ↦ elim (Option-cases (external.send_message_params text)) [
              | inl x ↦ absurd (ground arith)
              | inr (params, x) ↦ (u, to, params.message, f, e, ground arith)
            ]
            | inr (x, g) ↦ absurd (ground arith)
          ]
          | inr (x, f) ↦ absurd (ground arith)
        ]
  ]
