-- ===== src/Web/Routing.antt =====
-- lib/pheidippides-web/src/routing.rs: which handler answers a request.
pub mod Access
pub mod Login
use pheidippides.Prelude.{
  Text, codes, List, [], ◌∷◌, keep, Option, none, some, Bool, true, false, ◌&&◌, not, if◌then◌else◌,
  ◌==◌, eq_text, split_once,
}
use pheidippides.Prelude.Strings.{split}
use pheidippides.DataAccess.{DataAccess}
use pheidippides.Auth.{AuthService}
use pheidippides.Subscriptions.{Broadcast}
use pheidippides.Http.Method.{Method, get, post}
use pheidippides.Http.Request.{Request}
use pheidippides.Http.Response.{Response, bad_request, no_content}
use pheidippides.Web.World.{External, Drawn, World}
use pheidippides.Web.Actions
use pheidippides.Web.Actions.{Pipe}
use pheidippides.Web.Pages

-- The arms of the match, with what they bind.
pub data Route : Type 0 where
  main authorization signup_page chat signup logout authorize subscribe_new_messages : Route
  chats chatsearch event_source favicon unknown : Route
  message chat_info messages : Text → Route

abbrev is : Option Text → Text → Bool
is none text = false
is (some segment) text = segment == text

abbrev absent : Option Text → Bool
absent none = true
absent (some _) = false

abbrev with_segment : Option Text → (Text → Route) → Route
with_segment none route = unknown
with_segment (some segment) route = route segment

get_route : Text → Option Text → Option Text → Option Text → Route
get_route a b c e =
    if a == codes "login" && absent b
    then authorization
    else if a == codes "signup" && absent b
    then signup_page
    else if a == codes "chat" && absent c
    then chat
    else if a == codes "logout" && absent b
    then logout
    else if a == codes "subscribe" && (is b (codes "new_messages") && absent c)
    then subscribe_new_messages
    else if a == codes "html" && (is b (codes "chats") && absent c)
    then chats
    else if a == codes "html" && (is b (codes "chatsearch") && absent c)
    then chatsearch
    else if a == codes "html" && is b (codes "chat")
    then with_segment c chat_info
    else if a == codes "json" && (is b (codes "messages") && absent e)
    then with_segment c messages
    else if a == codes "tools" && (is b (codes "event_source") && absent c)
    then event_source
    else if a == codes "favicon.ico" && absent b
    then favicon
    else unknown

post_route : Text → Option Text → Option Text → Route
post_route a b c =
    if a == codes "signup" && absent b
    then signup
    else if a == codes "authorize" && absent b
    then authorize
    else if a == codes "message" && absent c
    then with_segment b message
    else unknown

-- The match on `query`: the method and the first four segments.
unfoldable pub select : Method → Option Text → Option Text → Option Text → Option Text → Route
unfolding get_route post_route
select get none b c e = main
select get (some a) b c e = get_route a b c e
select post (some a) b c e = post_route a b c
select _ _ _ _ _ = unknown

abbrev or_whole : Text → Option (Text × Text) → Text × Text
or_whole text none = (text, [])
or_whole text (some parts) = parts

-- The path and the parameters of a URL; what stands behind `#` is dropped.
unfoldable pub split_url : Text → Text × Text
unfolding split_once
split_url url =
    let (path, params_anchor) = or_whole url (split_once (codes "?") url) in
    let (params, _) = or_whole params_anchor (split_once (codes "#") params_anchor) in
    (path, params)

abbrev is_filled : Text → Bool
is_filled [] = false
is_filled (_ ∷ _) = true

unfoldable pub path_segments : Text → List Text
unfolding split
path_segments path = keep is_filled (split (codes "/") path)

abbrev nth : List Text → Option Text × List Text
nth [] = (none, [])
nth (s ∷ segments) = (some s, segments)

unfoldable pub route_of : Method → List Text → Route
unfolding select
route_of method segments =
    let (a, after_a) = nth segments in
    let (b, after_b) = nth after_a in
    let (c, after_c) = nth after_b in let (e, _) = nth after_c in select method a b c e

module _ {B D A Salt Sender Receiver : Type 0} (broadcast : Broadcast Sender Receiver)
    (d : DataAccess B D) (auth : AuthService B A Salt) (external : External) where
  abbrev Answer : Type 0
  Answer = World B Sender → Response (Pipe Receiver) × World B Sender

  unfoldable pub run_route : Drawn Salt → Request → Text → Route → Answer
  run_route drawn request params main = Pages.main broadcast d auth external
  run_route drawn request params authorization = Pages.login_page broadcast d auth external
  run_route drawn request params signup_page = Pages.signup_page broadcast d auth external
  run_route drawn request params chat = Pages.chat broadcast d auth external request
  run_route drawn request params signup = Actions.signup broadcast d auth external drawn request
  run_route drawn request params logout = Actions.logout broadcast d auth external request
  run_route drawn request params authorize =
      Actions.authorize broadcast d auth external drawn request
  run_route drawn request params (message receiver) =
      Actions.send_message broadcast d auth external drawn request receiver
  run_route drawn request params subscribe_new_messages =
      Actions.subscribe_new_messages broadcast d auth external request params
  run_route drawn request params chats = Pages.chats_html_response broadcast d auth external request
  run_route drawn request params chatsearch = Pages.chatsearch_html broadcast d auth external params
  run_route drawn request params (chat_info chat_id) =
      Pages.chat_html_response broadcast d auth external chat_id
  run_route drawn request params (messages chat_id) =
      Pages.messages_json broadcast d auth external request chat_id params
  run_route drawn request params event_source = Pages.event_source_page broadcast d auth external
  run_route drawn request params favicon = λ w. (no_content, w)
  run_route drawn request params unknown = λ w. (bad_request, w)

  unfoldable pub route : Drawn Salt → Request → Answer
  unfolding run_route split_url path_segments route_of
  route drawn request =
      let (path, params) = split_url request.url in
      run_route drawn request params (route_of request.method (path_segments path))
