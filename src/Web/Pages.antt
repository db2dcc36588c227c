-- ===== src/Web/Pages.antt =====
-- lib/pheidippides-web/src/routing/pages.rs, html.rs, json.rs and tools.rs: the handlers that show
-- pages, fragments and messages.
use pheidippides.Prelude.{Text, codes, List, [], ◌∷◌, Option, none, some, true, false, map, reverse}
use pheidippides.Types.{UserId, User, MessageId}
use pheidippides.DataAccess.{DataAccess}
use pheidippides.Auth.{AuthService}
use pheidippides.Subscriptions.{Broadcast}
use pheidippides.Messenger
use pheidippides.FormData
use pheidippides.Http.Request.{Request}
use pheidippides.Http.Response.{Response, html, json, redirect}
use pheidippides.Web.Flow.{
  Handling, value, or_bad_request, or_server_error, check, respond, lift, server_error,
  bad_request_error, answer, ◌>>=◌,
}
use pheidippides.Web.World.{External, World, unauthorized, of_app, of_sessions, get_authorization}
use pheidippides.Web.Actions.{Pipe, authorization, unauthorized_redirect, to_json, optional_id}

module _ {B D A Salt Sender Receiver : Type 0} (broadcast : Broadcast Sender Receiver)
    (d : DataAccess B D) (auth : AuthService B A Salt) (external : External) where
  abbrev Handler : Type 0 → Type 0
  Handler T = Handling (World B Sender) (Pipe Receiver) T

  abbrev Answer : Type 0
  Answer = World B Sender → Response (Pipe Receiver) × World B Sender

  -- `pages::main`.
  unfoldable pub main : Answer
  main w = (redirect (codes "/chat") [], w)

  -- `html::chat_page`, with the `or_server_error` and `or_bad_request` of its caller.
  abbrev page_of : UserId → Option User → Handler Text
  page_of user_id none = lift (or_bad_request none)
  page_of user_id (some user) = do
    chats ← server_error (of_app (Messenger.fetch_users_chats broadcast d auth user_id))
    lift (
        or_server_error (
          external.render_chat
            (record { username = user.username; user_id = user_id; chats = chats })))

  abbrev chat_for : Option UserId → Handler (Response (Pipe Receiver))
  chat_for none = respond unauthorized_redirect
  chat_for (some user_id) = do
    user ← server_error (of_app (Messenger.fetch_user broadcast d auth user_id))
    page ← page_of user_id user
    respond (html page [])

  -- `pages::chat`. The id in the path is not used.
  unfoldable pub chat : Request → Answer
  chat request =
      answer (do user ← authorization broadcast d auth external request.headers; chat_for user)

  -- `pages::authorization`.
  unfoldable pub login_page : Answer
  login_page =
      answer (do content ← lift (or_server_error external.render_login); respond (html content []))

  -- `pages::signup`.
  unfoldable pub signup_page : Answer
  signup_page =
      answer (do content ← lift (or_server_error external.render_signup); respond (html content []))

  abbrev chats_for : Option UserId → Handler Text
  chats_for none = lift (value (codes "Unauthorized"))
  chats_for (some user_id) = do
    chats ← server_error (of_app (Messenger.fetch_users_chats broadcast d auth user_id))
    lift (or_server_error (external.render_chats chats))

  unfoldable pub chats_html_response : Request → Answer
  chats_html_response request = answer (do
    user ← bad_request_error (of_sessions (get_authorization external.unicode request.headers))
    content ← chats_for user
    respond (html content []))

  unfoldable pub chatsearch_html : Text → Answer
  chatsearch_html params_text = answer (do
    params ← lift (
        or_bad_request (
          check
            (FormData.from_str external.percent_decode external.chat_search_params params_text)))
    chats ← server_error (of_app (Messenger.find_users_by_substring broadcast d auth params.query))
    content ← lift (or_server_error (external.render_chats chats))
    respond (html content []))

  abbrev as_list : Option User → List User
  as_list none = []
  as_list (some user) = user ∷ []

  unfoldable pub chat_html_response : Text → Answer
  chat_html_response chat_id_text = answer (do
    chat_id ← lift (or_bad_request (external.parse_uuid chat_id_text))
    chat_info ← server_error (of_app (Messenger.fetch_user broadcast d auth chat_id))
    content ← lift (or_server_error (external.render_chats (as_list chat_info)))
    respond (html content []))

  abbrev messages_for :
      UserId → Option MessageId → Option UserId → Handler (Response (Pipe Receiver))
  messages_for chat_id starting_from none = respond (
      json
        (external.messages_json
          (record { success = false; messages = []; error = some unauthorized }))
        [])
  messages_for chat_id starting_from (some user_id) = do
    messages ←
        server_error
          (of_app (Messenger.fetch_last_messages broadcast d auth user_id chat_id starting_from))
    respond (
        json
          (external.messages_json
            (record { success = true; messages = reverse (map to_json messages); error = none }))
          [])

  unfoldable pub messages_json : Request → Text → Text → Answer
  messages_json request chat_id_text params_text = answer (do
    chat_id ← lift (or_bad_request (external.parse_uuid chat_id_text))
    params ← lift (
        or_bad_request (
          check
            (FormData.from_str external.percent_decode external.messages_url_params params_text)))
    starting_from ← optional_id broadcast d auth external params.from
    user ← authorization broadcast d auth external request.headers
    messages_for chat_id starting_from user)

  -- `tools::event_source`.
  unfoldable pub event_source_page : Answer
  event_source_page =
      answer (do
        content ← lift (or_server_error external.render_event_source)
        respond (html content []))
