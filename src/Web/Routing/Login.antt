-- ===== src/Web/Routing/Login.antt =====
-- lib/pheidippides-web/src/routing/actions.rs and lib/pheidippides-web/src/routing.rs: a session from
-- the log-in that starts it to the log-out that ends it.
use pheidippides.Prelude.{
  Text, codes, List, [], ◌∷◌, none, some, true, false, ok, eq_text, text_eq_iff, All, ◌≡◌, ◌≢◌,
  arith,
}
use pheidippides.Prelude.Maps
use pheidippides.Prelude.Maps.{get-insert, get-insert_self, get-remove, get-remove_self}
use pheidippides.Types.{UserId}
use pheidippides.DataAccess.{DataAccess}
use pheidippides.Auth.{AuthService}
use pheidippides.Subscriptions.{Broadcast, Handler}
use pheidippides.Messenger
use pheidippides.Cookies.{Headers, get_cookies_hashmap, header_set_cookie}
use pheidippides.Cookies.Laws.{IsCookie, cookie_list, jar, get_cookies-cookie_list}
use pheidippides.FormData
use pheidippides.Http.Request.{Request, content}
use pheidippides.Http.Response.{redirect, json}
use pheidippides.Web.Flow.{or_bad_request, or_server_error}
use pheidippides.Web.Sessions.{
  Sessions, SessionInfo, session_id_cookie, get_session_info, update_session_info,
  remove_session_info,
}
use pheidippides.Web.World.{
  External, Drawn, World, AuthorizationParams, SignupParams, get_authorization,
}
use pheidippides.Web.Actions.{authorize, signup, logout, unauthorized_redirect}

-- A header with the cookie of an granted session authorizes its user.
session_authorizes :
    (unicode : Text → Text) (headers : Headers) (cookies : List (Text × Text)) (session_id : Text)
    (info : SessionInfo) (s : Sessions)
    → get_cookies_hashmap unicode headers ≡ ok cookies
    → Maps.get cookies session_id_cookie ≡ some session_id
    → s.poisoned ≡ false
    → Maps.get s.inner session_id ≡ some info
    → get_authorization unicode headers s ≡ (ok (some info.user_id), s)
unfolding get_authorization get_session_info
session_authorizes unicode headers cookies session_id info s parsed named up granted = ground arith

-- A header that sends the cookie of a new session authorizes its user.
new_session_authorizes :
    (unicode : Text → Text) (headers : Headers) (session_id : Text) (info : SessionInfo)
    (s : Sessions) (c : Text × Text) (cs : List (Text × Text))
    → s.poisoned ≡ false
    → All IsCookie (c ∷ cs)
    → Maps.get headers (codes "cookie") ≡ some (cookie_list c cs)
    → Maps.get (jar [] (c ∷ cs)) session_id_cookie ≡ some session_id
    → (get_authorization unicode headers
        (record s { inner = Maps.insert s.inner session_id info })).0
      ≡ ok (some info.user_id)
new_session_authorizes unicode headers session_id info s c cs up cookies sent named =
    let granted =
      session_authorizes unicode headers (jar [] (c ∷ cs)) session_id info
        (record s { inner = Maps.insert s.inner session_id info })
        (get_cookies-cookie_list unicode headers c cs cookies sent) named up
        (get-insert_self s.inner session_id info) in
    ground (arith, granted)

module _ {B D A Salt Sender Receiver : Type 0} (broadcast : Broadcast Sender Receiver)
    (d : DataAccess B D) (auth : AuthService B A Salt) (external : External) (request : Request)
    (w : World B Sender) (up : w.sessions.poisoned ≡ false) where
  -- Logging in opens a session for the user: if the sessions are not poisoned, the request's body
  -- is read and parsed and the messenger verifies the user, the answer leads to the chat
  -- and sets the session's cookie, and a later request that sends this cookie, alone or among
  -- others without `=` and `;` in their keys and without `;` in their values, is authorized as
  -- that user.
  pub authorize-get_authorization :
      (drawn : Drawn Salt) (text : Text) (rest : Request) (params : AuthorizationParams)
      (id : UserId) (app : Handler B Sender) (headers : Headers) (c : Text × Text)
      (cs : List (Text × Text))
      → content external.unicode request ≡ ok (text, rest)
      → FormData.from_str external.percent_decode external.authorization_params text ≡ ok params
      → Messenger.verify_user broadcast d auth params.login params.password w.app
        ≡ (ok (some id), app)
      → All IsCookie (c ∷ cs)
      → Maps.get headers (codes "cookie") ≡ some (cookie_list c cs)
      → Maps.get (jar [] (c ∷ cs)) session_id_cookie
        ≡ some (external.uuid_to_string drawn.session_id)
      → ((authorize broadcast d auth external drawn request w).0
          ≡ redirect (codes "/chat") (
              header_set_cookie external.unicode session_id_cookie
                (external.uuid_to_string drawn.session_id)
              ∷ []))
        × ((get_authorization external.unicode headers
              (authorize broadcast d auth external drawn request w).1.sessions).0
            ≡ ok (some id))
  unfolding authorize or_bad_request or_server_error update_session_info
  authorize-get_authorization drawn text rest params id app headers c cs read parsed verified
        cookies sent named =
      let granted =
        new_session_authorizes external.unicode headers (external.uuid_to_string drawn.session_id)
          (record { user_id = id }) w.sessions c cs up cookies sent named in
      (ground arith, ground (arith, granted))

  -- Signing up opens a session for the new user: if the sessions are not poisoned, the request's body
  -- is read and parsed and the messenger creates the user, the answer reports success and sets
  -- the session's cookie, and a later request that sends this cookie, alone or among others
  -- without `=` and `;` in their keys and without `;` in their values, is authorized as that
  -- user.
  pub signup-get_authorization :
      (drawn : Drawn Salt) (text : Text) (rest : Request) (params : SignupParams) (id : UserId)
      (app : Handler B Sender) (headers : Headers) (c : Text × Text) (cs : List (Text × Text))
      → content external.unicode request ≡ ok (text, rest)
      → external.signup_params text ≡ some params
      → Messenger.create_user broadcast d auth drawn.user_id drawn.salt params.login params.password
          w.app
        ≡ (ok (some id), app)
      → All IsCookie (c ∷ cs)
      → Maps.get headers (codes "cookie") ≡ some (cookie_list c cs)
      → Maps.get (jar [] (c ∷ cs)) session_id_cookie
        ≡ some (external.uuid_to_string drawn.session_id)
      → ((signup broadcast d auth external drawn request w).0
          ≡ json (external.signup_json (record { success = true; errors = [] })) (
              header_set_cookie external.unicode session_id_cookie
                (external.uuid_to_string drawn.session_id)
              ∷ []))
        × ((get_authorization external.unicode headers
              (signup broadcast d auth external drawn request w).1.sessions).0
            ≡ ok (some id))
  unfolding signup or_bad_request or_server_error update_session_info
  signup-get_authorization drawn text rest params id app headers c cs read parsed created cookies
        sent named =
      let granted =
        new_session_authorizes external.unicode headers (external.uuid_to_string drawn.session_id)
          (record { user_id = id }) w.sessions c cs up cookies sent named in
      (ground arith, ground (arith, granted))

  -- Logging out ends the session that the cookie of the request names and no other: if the sessions
  -- are not poisoned and the cookie header has a session, the answer leads to the log-in page,
  -- the same header authorizes no one any more, and every other session is as it was.
  pub logout-get_authorization :
      (cookies : List (Text × Text)) (session_id other : Text)
      → get_cookies_hashmap external.unicode request.headers ≡ ok cookies
      → Maps.get cookies session_id_cookie ≡ some session_id
      → session_id ≢ other
      → ((logout broadcast d auth external request w).0 ≡ unauthorized_redirect)
        × ((get_authorization external.unicode request.headers
              (logout broadcast d auth external request w).1.sessions).0
            ≡ ok none)
        × (Maps.get (logout broadcast d auth external request w).1.sessions.inner other
            ≡ Maps.get w.sessions.inner other)
  unfolding logout get_authorization get_session_info remove_session_info or_bad_request
      or_server_error
  logout-get_authorization cookies session_id other parsed named n = (
    ground arith,
    ground (arith, get-remove_self w.sessions.inner session_id),
    ground (arith, get-remove w.sessions.inner session_id other, text_eq_iff session_id other),
  )
