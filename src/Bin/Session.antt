-- ===== src/Bin/Session.antt =====
-- bin/server/src/main.rs and lib/pheidippides-web/src: a log-in over the connection, from the bytes
-- of the request that logs in to those of the next request.
use pheidippides.Prelude.{
  ℕ, suc, ◌≤◌, Text, codes, List, [], ◌∷◌, ◌++◌, length, some, none, ok, true, false, All,
  All-append, All-map, Lacks, ◌≡◌, ◌≢◌, ◌⊎◌, inl, inr, refl, sym, ◌∙◌, ap, arith, to_lowercase,
  ◌==◌, eq_text, if◌then◌else◌, text_eq,
}
use pheidippides.Prelude.Strings.{into_bytes, byte_len, is_whitespace, trim_end, ascii_lower}
use pheidippides.Prelude.Strings.Laws.{IsWord}
use pheidippides.Prelude.Maps
use pheidippides.Prelude.Maps.{get-insert_self}
use pheidippides.Types.{UserId}
use pheidippides.DataAccess.{DataAccess}
use pheidippides.Auth.{AuthService}
use pheidippides.Subscriptions.{Broadcast, Handler}
use pheidippides.Messenger
use pheidippides.FormData
use pheidippides.Cookies as Names
use pheidippides.Cookies.{Header, Headers, header_set_cookie}
use pheidippides.Cookies.Laws.{IsCookie, cookie_pair}
use pheidippides.Http.Method.{Method, post, method_name}
use pheidippides.Http.Number.{usize_max, to_string}
use pheidippides.Http.Utf8.Laws.{IsChar}
use pheidippides.Http.Headers.{IsHeader, IsInLine, received}
use pheidippides.Http.Request.{Request, try_from_stream, read_line, read_headers}
use pheidippides.Http.Request.Printing.{
  request_bytes, request_of, try_from_stream-request, try_from_stream-request_bytes,
}
use pheidippides.Http.Response.{Response, redirect}
use pheidippides.Http.Status.{status_text}
use pheidippides.Http.Builder.{Order, body_bytes}
use pheidippides.Http.Builder.Laws.{IsLower, or_else}
use pheidippides.Http.Builder.Reading.{trim_end-kept}
use pheidippides.Http.Writer.{Writer}
use pheidippides.Http.Respond.{finished, respond}
use pheidippides.Http.Respond.Parts.{headers_of, type_of, last_value}
use pheidippides.Http.Respond.Reading.{respond-head}
use pheidippides.Http.Server.{answered, serve}
use pheidippides.Http.Server.Serving.{serve_done}
use pheidippides.Web.Sessions.{session_id_cookie}
use pheidippides.Web.World.{External, Drawn, World, AuthorizationParams, get_authorization}
use pheidippides.Web.Actions.{Pipe, authorize}
use pheidippides.Web.Routing.{route, run_route}
use pheidippides.Web.Routing.Login.{authorize-get_authorization}
use pheidippides.Bin.{handle}

-- What `Uuid` prints: digits of base 16 in lower case, and hyphens.
abbrev pub IsUuidText : Text → Type 0
IsUuidText s = All (λ c. ((48 ≤ c) × (c ≤ 57)) ⊎ (((97 ≤ c) × (c ≤ 102)) ⊎ (c ≡ 45))) s

abbrev pub session_cookie : Text → Text
session_cookie id = cookie_pair (session_id_cookie, id)

dark :
    (c : ℕ) → ((48 ≤ c) × (c ≤ 57)) ⊎ (((97 ≤ c) × (c ≤ 102)) ⊎ (c ≡ 45)) → is_whitespace c ≡ false
unfolding is_whitespace
dark c h = ground arith

in_line :
    (c : ℕ) → ((48 ≤ c) × (c ≤ 57)) ⊎ (((97 ≤ c) × (c ≤ 102)) ⊎ (c ≡ 45)) → IsChar c × (c ≢ 10)
in_line c h = ground arith

no_semicolon : (c : ℕ) → ((48 ≤ c) × (c ≤ 57)) ⊎ (((97 ≤ c) × (c ≤ 102)) ⊎ (c ≡ 45)) → c ≢ b';'
no_semicolon c h = ground arith

name_dark : All (λ c. is_whitespace c ≡ false) (session_cookie [])
unfolding is_whitespace
name_dark = ground arith

session_cookie-IsHeader :
    (id : Text) → IsUuidText id → IsHeader (codes "set-cookie", session_cookie id)
session_cookie-IsHeader id u = (
  ground arith,
  ground arith,
  All-append _ (session_cookie []) id (ground arith) (All-map _ _ id in_line u),
  trim_end-kept (session_cookie id) (
      All-append (λ c. is_whitespace c ≡ false) (session_cookie []) id name_dark
        (All-map _ _ id dark u)),
)

location-IsHeader : IsHeader (codes "location", codes "/chat")
unfolding trim_end is_whitespace
location-IsHeader = (ground arith, ground arith, ground arith, refl)

session_IsCookie : (id : Text) → IsUuidText id → IsCookie (session_id_cookie, id)
session_IsCookie id u = (ground arith, ground arith, All-map _ _ id no_semicolon u)

location-IsLower : (unicode : Text → Text) → IsLower unicode (codes "location", codes "/chat")
unfolding Names.from_str to_lowercase ascii_lower
location-IsLower unicode = refl

set_cookie-IsLower :
    (unicode : Text → Text) (id : Text) → IsLower unicode (codes "set-cookie", session_cookie id)
unfolding Names.from_str to_lowercase ascii_lower
set_cookie-IsLower unicode id = refl

set_cookie-eq :
    (unicode : Text → Text) (id : Text)
    → header_set_cookie unicode session_id_cookie id ≡ (codes "set-cookie", session_cookie id)
unfolding header_set_cookie Names.from_str to_lowercase ascii_lower
set_cookie-eq unicode id = refl

authorize_IsWord : IsWord (codes "/authorize")
unfolding is_whitespace
authorize_IsWord = (λ p. ground (arith, p), ground arith)

abbrev pub chat_answer : (Receiver : Type 0) → (Text → Text) → Text → Response (Pipe Receiver)
chat_answer Receiver unicode id =
    redirect (codes "/chat") (header_set_cookie unicode session_id_cookie id ∷ [])

chat_answer-IsHeader :
    (Receiver : Type 0) (unicode : Text → Text) (id : Text)
    → IsUuidText id
    → All IsHeader (headers_of (chat_answer Receiver unicode id))
chat_answer-IsHeader Receiver unicode id u =
    rw (set_cookie-eq unicode id) (location-IsHeader, (session_cookie-IsHeader id u, tt))

chat_answer-IsLower :
    (Receiver : Type 0) (unicode : Text → Text) (id : Text)
    → All (IsLower unicode) (headers_of (chat_answer Receiver unicode id))
chat_answer-IsLower Receiver unicode id =
    rw (set_cookie-eq unicode id) (location-IsLower unicode, (set_cookie-IsLower unicode id, tt))

chat_location :
    (Receiver : Type 0) (unicode : Text → Text) (id : Text)
    → or_else (last_value (headers_of (chat_answer Receiver unicode id)) (codes "location")) (
        if codes "content-type" == codes "location"
        then type_of (chat_answer Receiver unicode id)
        else none)
      ≡ some (codes "/chat")
unfolding text_eq
chat_location Receiver unicode id = rw (set_cookie-eq unicode id) refl

chat_cookie :
    (Receiver : Type 0) (unicode : Text → Text) (id : Text)
    → or_else (last_value (headers_of (chat_answer Receiver unicode id)) (codes "set-cookie")) (
        if codes "content-type" == codes "set-cookie"
        then type_of (chat_answer Receiver unicode id)
        else none)
      ≡ some (session_cookie id)
unfolding text_eq
chat_cookie Receiver unicode id = rw (set_cookie-eq unicode id) refl

module _ {B D A Salt Sender Receiver : Type 0} (broadcast : Broadcast Sender Receiver)
    (d : DataAccess B D) (auth : AuthService B A Salt) (external : External)
    (drawn : Drawn Salt) where
  route-authorize :
      (hs : List Header) (reader : List ℕ) (w : World B Sender)
      → route broadcast d auth external drawn
          (request_of external.unicode post (codes "/authorize") hs reader)
          w
        ≡ authorize broadcast d auth external drawn
            (request_of external.unicode post (codes "/authorize") hs reader)
            w
  unfolding route run_route text_eq pheidippides.Web.Routing.split_url
      pheidippides.Web.Routing.path_segments pheidippides.Web.Routing.route_of
      pheidippides.Web.Routing.select pheidippides.Prelude.Strings.split
      pheidippides.Prelude.Strings.split_once
  route-authorize hs reader w = refl

  module _ {C E : Type 0} (F : Type 0) (writer : Writer C E) (order : Order) where
    handled :
        (hs : List Header) (reader : List ℕ) (w : World B Sender)
        → let request = request_of external.unicode post (codes "/authorize") hs reader in
          let result = authorize broadcast d auth external drawn request w in
          handle broadcast d auth external {F = F} drawn request w ≡ (ok result.0, result.1)
    unfolding handle
    handled hs reader w = ap (λ x. (ok x.0, x.1)) (route-authorize hs reader w)

    abbrev log_in_request : List Header → List ℕ → Request
    log_in_request hs reader = request_of external.unicode post (codes "/authorize") hs reader

    pub served-authorize :
        (word : Text) (hs : List Header) (text : Text) (more : List ℕ)
        (params : AuthorizationParams) (id : UserId) (app : Handler B Sender) (w : World B Sender)
        (c : C) (headers : Headers)
        → w.sessions.poisoned ≡ false
        → IsUuidText (external.uuid_to_string drawn.session_id)
        → to_lowercase external.unicode word ≡ method_name post
        → IsWord word
        → IsInLine word
        → All IsHeader hs
        → All IsChar text
        → byte_len text ≤ usize_max
        → Maps.get
            (received external.unicode [] hs)
            (Names.from_str external.unicode (codes "content-length"))
          ≡ some (to_string (byte_len text))
        → FormData.from_str external.percent_decode external.authorization_params text ≡ ok params
        → Messenger.verify_user broadcast d auth params.login params.password w.app
          ≡ (ok (some id), app)
        → Maps.get headers (codes "cookie")
          ≡ some (session_cookie (external.uuid_to_string drawn.session_id))
        → (after : World B Sender) × (serve {F = F} writer external.unicode order
              (handle broadcast d auth external drawn)
              (request_bytes word (codes "/authorize") hs (into_bytes text ++ more))
              c
              w
            ≡ (
              answered (
                  respond writer external.unicode order
                    (chat_answer Receiver external.unicode
                      (external.uuid_to_string drawn.session_id))
                    c),
              after,
            ))
          × ((get_authorization external.unicode headers after.sessions).0 ≡ ok (some id))
    served-authorize word hs text more params id app w c headers up u e iw il h a n found parsed
          verified cookie =
        let request = log_in_request hs (into_bytes text ++ more) in
        let after = (authorize broadcast d auth external drawn request w).1 in
        let (here, read) =
          try_from_stream-request_bytes external.unicode word (codes "/authorize") hs text more post
            e iw il authorize_IsWord (ground arith) h a n found in
        let (answer, granted) =
          authorize-get_authorization broadcast d auth external request w up drawn text
            (log_in_request hs more) params id app headers
            (session_id_cookie, external.uuid_to_string drawn.session_id) [] read parsed verified
            (session_IsCookie (external.uuid_to_string drawn.session_id) u, tt) cookie
            (get-insert_self [] session_id_cookie (external.uuid_to_string drawn.session_id)) in
        (
          after,
          serve_done writer external.unicode order (handle broadcast d auth external drawn)
                (request_bytes word (codes "/authorize") hs (into_bytes text ++ more)) request c w
                after (authorize broadcast d auth external drawn request w).0 here
                (handled hs (into_bytes text ++ more) w)
              ∙ ap (λ r. (answered (respond writer external.unicode order r c), after)) answer,
          granted,
        )

    -- Logging in over the connection: for the bytes of a POST to /authorize with a method in any
    -- case, whose body is a form that parses, and with a Content-Length below 2^64, if the messenger
    -- verifies the user and the answer is written, the client reads a redirection to /chat and a
    -- cookie for the session, and a later request, of any method and URL, whose bytes send this
    -- cookie back and no other is authorized as that user. The sessions are not poisoned, a session's id is
    -- printed as digits and hyphens, the method and the URL have no white space, header names no
    -- colon, header values no white space at their end, and none of them a line feed.
    pub serve-get_authorization :
        (word word' url : Text) (hs hs' : List Header) (text : Text) (more body : List ℕ)
        (method : Method) (params : AuthorizationParams) (id : UserId) (app : Handler B Sender)
        (w : World B Sender) (c c' : C)
        → w.sessions.poisoned ≡ false
        → IsUuidText (external.uuid_to_string drawn.session_id)
        → to_lowercase external.unicode word ≡ method_name post
        → IsWord word
        → IsInLine word
        → All IsHeader hs
        → All IsChar text
        → byte_len text ≤ usize_max
        → Maps.get
            (received external.unicode [] hs)
            (Names.from_str external.unicode (codes "content-length"))
          ≡ some (to_string (byte_len text))
        → FormData.from_str external.percent_decode external.authorization_params text ≡ ok params
        → Messenger.verify_user broadcast d auth params.login params.password w.app
          ≡ (ok (some id), app)
        → respond writer external.unicode order
            (chat_answer Receiver external.unicode (external.uuid_to_string drawn.session_id))
            c
          ≡ finished (ok c')
        → to_lowercase external.unicode word' ≡ method_name method
        → IsWord word'
        → IsInLine word'
        → IsWord url
        → IsInLine url
        → All IsHeader hs'
        → Maps.get (received external.unicode [] hs') (codes "cookie")
          ≡ some (session_cookie (external.uuid_to_string drawn.session_id))
        → (after : World B Sender) × (bytes : List ℕ) × (headers : Headers) × (rest : List ℕ)
          × (request : Request) × (serve {F = F} writer external.unicode order
                (handle broadcast d auth external drawn)
                (request_bytes word (codes "/authorize") hs (into_bytes text ++ more))
                c
                w
              ≡ (answered (finished (ok c')), after))
          × (writer.written c' ≡ writer.written c ++ bytes)
          × (read_line bytes ≡ ok (codes "HTTP/1.1 303 See Other\r\n", rest))
          × (read_headers external.unicode (suc (length rest)) [] rest ≡ ok (headers, []))
          × (Maps.get headers (codes "location") ≡ some (codes "/chat"))
          × (Maps.get headers (codes "set-cookie")
              ≡ some (session_cookie (external.uuid_to_string drawn.session_id)))
          × (try_from_stream external.unicode (request_bytes word' url hs' body) ≡ ok request)
          × ((get_authorization external.unicode request.headers after.sessions).0 ≡ ok (some id))
    unfolding body_bytes status_text
    serve-get_authorization word word' url hs hs' text more body method params id app w c c' up u e
          iw il h a n found parsed verified written e' iw' il' iu ul h' cookie =
        let id_text = external.uuid_to_string drawn.session_id in
        let (after, served, granted) =
          served-authorize word hs text more params id app w c (received external.unicode [] hs') up
            u e iw il h a n found parsed verified cookie in
        let (bytes, headers, rest, sent, line, fields, get) =
          respond-head external.unicode writer order (chat_answer Receiver external.unicode id_text)
            c c' (chat_answer-IsHeader Receiver external.unicode id_text u)
            (chat_answer-IsLower Receiver external.unicode id_text) written in
        (
          after,
          bytes,
          headers,
          rest,
          request_of external.unicode method url hs' body,
          served ∙ ap (λ r. (answered r, after)) written,
          sent,
          line,
          fields,
          get (codes "location") (λ p. ground (arith, p))
              ∙ chat_location Receiver external.unicode id_text,
          get (codes "set-cookie") (λ p. ground (arith, p))
              ∙ chat_cookie Receiver external.unicode id_text,
          try_from_stream-request external.unicode word' url hs' body method e' iw' il' iu ul h',
          granted,
        )
