-- ===== src/Tests/Sessions.antt =====
-- Dan logs in over a connection that keeps what is written, and comes back with the cookie.
use pheidippides.Prelude.{
  ℕ, suc, Text, codes, List, [], ◌∷◌, ◌++◌, length, some, none, ok, All, ◌≡◌, refl, arith,
  to_lowercase, text_eq, eq_text, inl, inr,
}
use pheidippides.Prelude.Strings.{into_bytes, is_whitespace, ascii_lower, trim_end}
use pheidippides.Prelude.Strings.Laws.{IsWord}
use pheidippides.Prelude.Maps
use pheidippides.Cookies as Names
use pheidippides.Cookies.{Header, Headers, header_set_cookie}
use pheidippides.Http.Method.{get}
use pheidippides.Http.Headers.{IsHeader}
use pheidippides.Http.Request.{Request, try_from_stream, read_line, read_headers}
use pheidippides.Http.Request.Printing.{request_bytes}
use pheidippides.Http.Builder.{new, status, header, build}
use pheidippides.Http.Respond.{respond, finished, add_headers}
use pheidippides.Http.Status
use pheidippides.Http.Server.{answered, serve}
use pheidippides.MockDb.{Db, data_access}
use pheidippides.Web.World.{World, get_authorization}
use pheidippides.Web.Sessions.{session_id_cookie}
use pheidippides.Bin.{handle}
use pheidippides.Bin.Session.{session_cookie, chat_answer, serve-get_authorization}
use pheidippides.MockDb.Fixture
use pheidippides.FormData
use pheidippides.Tests.Base.{same_text, Channel, channels}
use pheidippides.Tests.Http.{buffer, in_order}
use pheidippides.Tests.Site.{outside, service, draws, joined, site, log_in_params, log_in_verified}

abbrev log_in_headers : List Header
log_in_headers = (codes "Content-Length", codes "21") ∷ []

abbrev next_headers : List Header
next_headers = (codes "Cookie", codes "_pheidippides_sid=7") ∷ []

abbrev form : Text
form = codes "login=Dan&password=pw"

log_in_headers-IsHeader : All IsHeader log_in_headers
unfolding trim_end is_whitespace
log_in_headers-IsHeader = ((ground arith, ground arith, ground arith, refl), tt)

next_headers-IsHeader : All IsHeader next_headers
unfolding trim_end is_whitespace
next_headers-IsHeader = ((ground arith, ground arith, ground arith, refl), tt)

post-IsWord : IsWord (codes "POST")
unfolding is_whitespace
post-IsWord = (λ p. ground (arith, p), ground arith)

get-IsWord : IsWord (codes "GET")
unfolding is_whitespace
get-IsWord = (λ p. ground (arith, p), ground arith)

chat-IsWord : IsWord (codes "/chat")
unfolding is_whitespace
chat-IsWord = (λ p. ground (arith, p), ground arith)

abbrev chat_bytes : List ℕ
chat_bytes = build same_text in_order (
    add_headers (header_set_cookie same_text session_id_cookie (codes "7") ∷ []) (
      header (Names.from_str same_text (codes "Location"), codes "/chat")
        (status Status.see_other new)))

chat_written :
    respond buffer same_text in_order (chat_answer ℕ same_text (codes "7")) []
    ≡ finished (ok chat_bytes)
unfolding respond
chat_written = refl

serve-get_authorization_example :
    (after : World Db Channel) × (bytes : List ℕ) × (headers : Headers) × (rest : List ℕ)
    × (request : Request) × (serve {F = Unit {0}} buffer same_text in_order
          (handle channels (data_access same_text) service outside draws)
          (request_bytes (codes "POST") (codes "/authorize") log_in_headers (into_bytes form ++ []))
          []
          site
        ≡ (answered (finished (ok chat_bytes)), after))
    × (chat_bytes ≡ [] ++ bytes)
    × (read_line bytes ≡ ok (codes "HTTP/1.1 303 See Other\r\n", rest))
    × (read_headers same_text (suc (length rest)) [] rest ≡ ok (headers, []))
    × (Maps.get headers (codes "location") ≡ some (codes "/chat"))
    × (Maps.get headers (codes "set-cookie") ≡ some (session_cookie (codes "7")))
    × (try_from_stream same_text (request_bytes (codes "GET") (codes "/chat") next_headers [])
        ≡ ok request)
    × ((get_authorization same_text request.headers after.sessions).0 ≡ ok (some 5))
unfolding to_lowercase ascii_lower Maps.get Maps.insert text_eq Names.from_str
    pheidippides.Http.Number.to_string pheidippides.Prelude.Strings.byte_len
serve-get_authorization_example =
    serve-get_authorization channels (data_access same_text) service outside draws (Unit {0}) buffer
      in_order (codes "POST") (codes "GET") (codes "/chat") log_in_headers next_headers form [] []
      get (record { login = codes "Dan"; password = codes "pw" }) 5 joined site [] chat_bytes refl
      (ground arith) refl post-IsWord (ground arith) log_in_headers-IsHeader (ground arith)
      (omega arith) refl log_in_params log_in_verified chat_written refl get-IsWord (ground arith)
      chat-IsWord (ground arith) next_headers-IsHeader refl

abbrev sample_headers : List Header
sample_headers = (codes "Content-Length", codes "26") ∷ []

abbrev sample_form : Text
sample_form = codes "login=User1&password=User1"
