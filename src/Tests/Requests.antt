-- ===== src/Tests/Requests.antt =====
-- Requests at concrete inputs.
use pheidippides.Prelude.{
  to_lowercase, split_once, text_eq, ℕ, ◌+◌, ◌-◌, Text, codes, List, [], ◌∷◌, ◌++◌, Option, none,
  some, true, false, ok, err, eq_text, refl, Lock, ◌≡◌, ◌≢◌, err, arith, All,
}
use pheidippides.Prelude.Maps
use pheidippides.Types.{UserId}
use pheidippides.MockDb
use pheidippides.MockDb.{Db, data_access, auth_storage}
use pheidippides.Auth
use pheidippides.Auth.{auth_service, AuthService, AuthServiceError}
use pheidippides.Messenger
use pheidippides.Cookies.{Headers, get_cookies_hashmap, header_set_cookie}
use pheidippides.Cookies.Laws.{jar, IsCookie}
use pheidippides.Http.Method.{post}
use pheidippides.Http.Request.{Request, content, try_from_stream, out_of_fuel}
use pheidippides.Http.Request.Reading.{try_from_stream_ends}
use pheidippides.Http.Response.{redirect, json, html}
use pheidippides.Subscriptions.{Handler}
use pheidippides.Web.Sessions.{Sessions, SessionInfo, session_id_cookie}
use pheidippides.Web.World.{get_authorization}
use pheidippides.Web.Actions
use pheidippides.Web.Actions.{Pipe, unauthorized_redirect}
use pheidippides.Web.Routing.{run_route, message}
use pheidippides.Web.Routing.Login.{
  authorize-get_authorization, signup-get_authorization, logout-get_authorization,
}
use pheidippides.Web.Routing.Access.{run_route_unauthorized, run_route_sessions, send_message_sound}
use pheidippides.Tests.Base.{same_text, Channel, channels}
use pheidippides.Tests.Site.{
  read_id, outside, service, draws, joined, site, log_in_params, log_in_verified,
}

abbrev cookies : Headers
cookies = (codes "cookie", codes "lang=en; _pheidippides_sid=7") ∷ []

abbrev log_in_request : Request
log_in_request = record {
  reader = codes "login=Dan&password=pw";
  method = post;
  url = codes "/authorize";
  headers = (codes "content-length", codes "21") ∷ [];
}

log_in_content :
    content same_text log_in_request
    ≡ (ok (codes "login=Dan&password=pw", record log_in_request { reader = [] }))
unfolding content Maps.get text_eq pheidippides.Cookies.from_str pheidippides.Http.Number.parse
    pheidippides.Http.Utf8.from_utf8
log_in_content = refl

sid_named :
    Maps.get
      (jar [] ((codes "lang", codes "en") ∷ (session_id_cookie, codes "7") ∷ []))
      session_id_cookie
    ≡ some (codes "7")
unfolding Maps.get Maps.insert text_eq
sid_named = refl

two_cookies : All IsCookie ((codes "lang", codes "en") ∷ (session_id_cookie, codes "7") ∷ [])
two_cookies = ground arith

authorize-get_authorization_example :
    ((Actions.authorize channels
        (data_access same_text)
        service
        outside
        draws
        log_in_request
        site).0
      ≡ redirect (codes "/chat") (header_set_cookie same_text session_id_cookie (codes "7") ∷ []))
    × ((get_authorization same_text cookies
          (Actions.authorize channels
            (data_access same_text)
            service
            outside
            draws
            log_in_request
            site).1.sessions).0
        ≡ ok (some 5))
unfolding Maps.get text_eq
authorize-get_authorization_example =
    authorize-get_authorization channels (data_access same_text) service outside log_in_request site
      refl draws (codes "login=Dan&password=pw") (record log_in_request { reader = [] })
      (record { login = codes "Dan"; password = codes "pw" }) 5 joined cookies
      (codes "lang", codes "en") ((session_id_cookie, codes "7") ∷ []) log_in_content log_in_params
      log_in_verified two_cookies refl sid_named

abbrev sign_up_request : Request
sign_up_request = record {
  reader = codes "Eve";
  method = post;
  url = codes "/signup";
  headers = (codes "content-length", codes "3") ∷ [];
}

sign_up_content :
    content same_text sign_up_request ≡ (ok (codes "Eve", record sign_up_request { reader = [] }))
unfolding content Maps.get text_eq pheidippides.Cookies.from_str pheidippides.Http.Number.parse
    pheidippides.Http.Utf8.from_utf8
sign_up_content = refl

-- Eve signs up with her name as the password.
abbrev signed_up : Handler Db Channel
signed_up =
    (Messenger.create_user channels (data_access same_text) service 5 0 (codes "Eve") (codes "Eve")
      joined).1

signed_up_ok :
    Messenger.create_user channels
      (data_access same_text)
      service
      5
      0
      (codes "Eve")
      (codes "Eve")
      joined
    ≡ (ok (some 5), signed_up)
unfolding Messenger.create_user MockDb.create_user MockDb.same_name text_eq to_lowercase
    Auth.create_user MockDb.update_authentication
signed_up_ok = refl

signup-get_authorization_example :
    ((Actions.signup channels (data_access same_text) service outside draws sign_up_request site).0
      ≡ json (codes "{}") (header_set_cookie same_text session_id_cookie (codes "7") ∷ []))
    × ((get_authorization same_text cookies
          (Actions.signup channels
            (data_access same_text)
            service
            outside
            draws
            sign_up_request
            site).1.sessions).0
        ≡ ok (some 5))
unfolding Maps.get text_eq
signup-get_authorization_example =
    signup-get_authorization channels (data_access same_text) service outside sign_up_request site
      refl draws (codes "Eve") (record sign_up_request { reader = [] })
      (record { login = codes "Eve"; password = codes "Eve" }) 5 signed_up cookies
      (codes "lang", codes "en") ((session_id_cookie, codes "7") ∷ []) sign_up_content refl
      signed_up_ok two_cookies refl sid_named

abbrev sid_1 : Request
sid_1 = record {
  reader = codes "hello";
  method = post;
  url = codes "/message/3";
  headers =
      (codes "cookie", codes "_pheidippides_sid=1") ∷ (codes "content-length", codes "5") ∷ [];
}

sid_1_cookies :
    get_cookies_hashmap same_text sid_1.headers ≡ ok ((session_id_cookie, codes "1") ∷ [])
unfolding get_cookies_hashmap Maps.get text_eq pheidippides.Cookies.insert_cookies
    pheidippides.Prelude.Strings.split Maps.insert
sid_1_cookies = refl

sid_named_1 : Maps.get ((session_id_cookie, codes "1") ∷ []) session_id_cookie ≡ some (codes "1")
unfolding Maps.get text_eq
sid_named_1 = refl

logout-get_authorization_example :
    ((Actions.logout channels (data_access same_text) service outside sid_1 site).0
      ≡ unauthorized_redirect)
    × ((get_authorization same_text sid_1.headers
          (Actions.logout channels (data_access same_text) service outside sid_1 site).1.sessions).0
        ≡ ok none)
    × (Maps.get
          (Actions.logout channels
            (data_access same_text)
            service
            outside
            sid_1
            site).1.sessions.inner
          (codes "9")
        ≡ Maps.get site.sessions.inner (codes "9"))
logout-get_authorization_example =
    logout-get_authorization channels (data_access same_text) service outside sid_1 site refl
      ((session_id_cookie, codes "1") ∷ []) (codes "1") (codes "9") sid_1_cookies sid_named_1
      (λ p. ground arith)

-- The request has no cookie.
nobody : (get_authorization same_text log_in_request.headers site.sessions).0 ≡ ok none
unfolding get_authorization get_cookies_hashmap Maps.get text_eq
nobody = refl

log_in_no_session :
    (u : UserId)
    → (get_authorization same_text log_in_request.headers site.sessions).0 ≢ ok (some u)
log_in_no_session u p = cc (nobody, p)

run_route_unauthorized_example :
    (run_route channels
      (data_access same_text)
      service
      outside
      draws
      log_in_request
      []
      (message (codes "3"))
      site).1
    ≡ site
run_route_unauthorized_example =
    run_route_unauthorized channels (data_access same_text) service outside draws log_in_request []
      site log_in_no_session (message (codes "3")) tt

run_route_sessions_example :
    (run_route channels
      (data_access same_text)
      service
      outside
      draws
      sid_1
      []
      (message (codes "3"))
      site).1.sessions
    ≡ site.sessions
run_route_sessions_example =
    run_route_sessions channels (data_access same_text) service outside draws sid_1 [] site
      (message (codes "3")) (λ n. n)

sid_1_done :
    (Actions.send_message channels
      (data_access same_text)
      service
      outside
      draws
      sid_1
      (codes "3")
      site).0
    ≡ html (codes "ok.") []
unfolding Actions.send_message pheidippides.Web.Flow.or_bad_request
    pheidippides.Web.Flow.or_server_error get_authorization get_cookies_hashmap Maps.get text_eq
    pheidippides.Cookies.insert_cookies pheidippides.Prelude.Strings.split Maps.insert
    pheidippides.Web.Sessions.get_session_info content pheidippides.Http.Number.parse
    pheidippides.Http.Utf8.from_utf8 Messenger.send_message MockDb.create_message
    Messenger.create_user MockDb.create_user pheidippides.Cookies.from_str MockDb.same_name
    pheidippides.Prelude.Strings.ascii_lower pheidippides.Prelude.Strings.split_fuel split_once
    pheidippides.Prelude.Strings.strip_prefix to_lowercase
    pheidippides.Subscriptions.handle_new_message pheidippides.Subscriptions.send_to
    pheidippides.Subscriptions.send_to_both Auth.create_user MockDb.update_authentication
    MockDb.overwrite
sid_1_done = refl

send_message_sound_example :
    (u : UserId) × (to : UserId) × (text : Text) × ((get_authorization same_text sid_1.headers
        site.sessions).0
      ≡ ok (some u))
    × (read_id (codes "3") ≡ some to)
    × (Messenger.send_message channels (data_access same_text) service 20 20 text u to joined ≡ (
      ok 20,
      (Actions.send_message channels
          (data_access same_text)
          service
          outside
          draws
          sid_1
          (codes "3")
          site).1.app,
    ))
send_message_sound_example =
    send_message_sound channels (data_access same_text) service outside draws sid_1 [] site
      (codes "3") sid_1_done

-- The connection is closed after the first header.
try_from_stream_ends_example :
    try_from_stream same_text (codes "GET / HTTP/1.1\r\nHost: a\r\n") ≢ err out_of_fuel
try_from_stream_ends_example =
    try_from_stream_ends same_text (codes "GET / HTTP/1.1\r\nHost: a\r\n")
