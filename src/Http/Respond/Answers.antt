-- ===== src/Http/Respond/Answers.antt =====
-- lib/http-server/src/request.rs: the builder that answers a request.
use pheidippides.Prelude.{
  Text, codes, List, [], ◌++◌, Option, none, some, All, ◌≡◌, refl, sym, ap, ◌∙◌, eq_text, subst,
  ◌==◌, if◌then◌else◌, Bool, true, false, ◌≢◌, ==_ne,
}
use pheidippides.Prelude.Strings.{byte_len}
use pheidippides.Prelude.Maps
use pheidippides.Prelude.Maps.{get-insert}
use pheidippides.Cookies as Names
use pheidippides.Cookies.{Header, Headers}
use pheidippides.Http.Number.{to_string}
use pheidippides.Http.Headers.{IsHeader}
use pheidippides.Http.Request.{content}
use pheidippides.Http.Response.{Response}
use pheidippides.Http.Status
use pheidippides.Http.Status.{HttpStatusCode, status_text, HttpVersion, version_text, http11}
use pheidippides.Http.Builder.{HttpResponseBuilder, sized}
use pheidippides.Http.Builder.Laws.{IsLower, or_else}
use pheidippides.Http.Builder.Reading.{IsReadable, status_line, length_key, length_key-eq}
use pheidippides.Http.Respond.Parts.{
  body_of, headers_of, status_of, type_of, last_value, add_headers-IsReadable, add_headers-body,
  add_headers-status, get-add_headers, new-IsReadable, content_type-eq, typed-IsReadable,
}
use pheidippides.Http.Respond.{add_headers}

module _ (unicode : Text → Text) where
  -- The builder that answers, and what it holds.
  pub record IsAnswer {Stream : Type 0} (response : Response Stream) (b : HttpResponseBuilder)
      : Type 0 where
    pub answer_body : b.body ≡ body_of response
    pub answer_status : b.status ≡ status_of response
    pub answer_headers : IsReadable unicode b.headers
    pub answer_get :
        (key : Text)
        → Maps.get b.headers key
          ≡ or_else
              (last_value (headers_of response) key)
              (if codes "content-type" == key then type_of response else none)

  abbrev pub typed : Text → Text → HttpResponseBuilder
  typed value content = record {
    version = http11;
    status = Status.ok;
    headers = Maps.insert [] (Names.from_str unicode (codes "Content-Type")) value;
    body = some content;
  }

  get-typed :
      (value content key : Text)
      → Maps.get (typed value content).headers key
        ≡ (if codes "content-type" == key then some value else none)
  get-typed value content key =
      rw (get-insert [] (Names.from_str unicode (codes "Content-Type")) key value, content_type-eq)
        (unfold Maps.get in refl)

  pub typed-IsAnswer :
      {Stream : Type 0} (response : Response Stream) (value content : Text)
      → body_of response ≡ some content
      → status_of response ≡ Status.ok
      → type_of response ≡ some value
      → IsHeader (codes "content-type", value)
      → All IsHeader (headers_of response)
      → All (IsLower unicode) (headers_of response)
      → IsAnswer response (add_headers (headers_of response) (typed value content))
  typed-IsAnswer response value content b s t v h l = record {
    answer_body = add_headers-body unicode (headers_of response) (typed value content) ∙ sym b;
    answer_status = add_headers-status unicode (headers_of response) (typed value content) ∙ sym s;
    answer_headers =
        add_headers-IsReadable unicode (headers_of response) (typed value content) h l
          (typed-IsReadable unicode value v);
    answer_get = λ key.
        get-add_headers unicode (headers_of response) (typed value content) key
        ∙ ap (or_else (last_value (headers_of response) key)) (
            get-typed value content key
            ∙ ap (λ x. if codes "content-type" == key then x else none) (sym t));
  }

  unset :
      (key : Text) (typed : Bool) (m : Headers) (hs : List Header) (o : Option Text)
      → m ≡ []
      → hs ≡ []
      → o ≡ none
      → Maps.get m key ≡ or_else (last_value hs key) (if typed then o else none)
  unfolding Maps.get
  unset key true m hs o e h t = rw (e, h, t) refl
  unset key false m hs o e h t = rw (e, h) refl

  pub get-sized :
      (sent : Text) (m : Headers) (key : Text)
      → key ≢ length_key
      → Maps.get (sized unicode (some sent) m) key ≡ Maps.get m key
  unfolding sized
  get-sized sent m key n =
      rw
        (
          length_key-eq unicode,
          get-insert m length_key key (to_string (byte_len sent)),
          ==_ne (λ (p : length_key ≡ key). n (sym p)),
        )
        refl

  pub status_line-eq :
      (b : HttpResponseBuilder) (s : HttpStatusCode)
      → b.status ≡ s
      → status_line b ≡ codes "HTTP/1.1 " ++ (status_text s ++ codes "\r\n")
  unfolding version_text
  status_line-eq b s e =
      first b.version ∙ ap (λ x. codes "HTTP/1.1 " ++ (status_text x ++ codes "\r\n")) e
    where
      first :
          (v : HttpVersion)
          → version_text v ++ (codes " " ++ (status_text b.status ++ codes "\r\n"))
            ≡ codes "HTTP/1.1 " ++ (status_text b.status ++ codes "\r\n")
      first http11 = refl

  pub plain_answer :
      {Stream : Type 0} (response : Response Stream) (b : HttpResponseBuilder)
      → b.body ≡ body_of response
      → b.status ≡ status_of response
      → b.headers ≡ []
      → headers_of response ≡ []
      → type_of response ≡ none
      → IsAnswer response b
  plain_answer response b x s e h t = record {
    answer_body = x;
    answer_status = s;
    answer_headers = subst (IsReadable unicode) (sym e) (new-IsReadable unicode);
    answer_get = λ key.
        unset key (codes "content-type" == key) b.headers (headers_of response) (type_of response) e
          h t;
  }

  untyped :
      (typed : Bool) (m : Headers) (key : Text) (o : Option Text)
      → m ≡ []
      → o ≡ none
      → Maps.get m key ≡ (if typed then o else none)
  unfolding Maps.get
  untyped true m key o e t = rw (e, t) refl
  untyped false m key o e t = rw e refl

  pub listed_answer :
      {Stream : Type 0} (response : Response Stream) (b : HttpResponseBuilder)
      → b.body ≡ body_of response
      → b.status ≡ status_of response
      → b.headers ≡ []
      → type_of response ≡ none
      → All IsHeader (headers_of response)
      → All (IsLower unicode) (headers_of response)
      → IsAnswer response (add_headers (headers_of response) b)
  listed_answer response b x s e t h l = record {
    answer_body = add_headers-body unicode (headers_of response) b ∙ x;
    answer_status = add_headers-status unicode (headers_of response) b ∙ s;
    answer_headers =
        add_headers-IsReadable unicode (headers_of response) b h l
          (subst (IsReadable unicode) (sym e) (new-IsReadable unicode));
    answer_get = λ key.
        get-add_headers unicode (headers_of response) b key
        ∙ ap (or_else (last_value (headers_of response) key))
            (untyped (codes "content-type" == key) b.headers key (type_of response) e t);
  }

  pub get-sized_any :
      (o : Option Text) (m : Headers) (key : Text)
      → key ≢ length_key
      → Maps.get (sized unicode o m) key ≡ Maps.get m key
  unfolding sized
  get-sized_any none m key n = refl
  get-sized_any (some sent) m key n = get-sized sent m key n

  pub with_body :
      (b : HttpResponseBuilder) (o : Option Text) → b.body ≡ o → record b { body = o } ≡ b
  with_body b o e = ap (λ (x : Option Text). record b { body = x }) (sym e)
