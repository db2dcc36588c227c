-- ===== src/Http/Response.antt =====
-- lib/http-server/src/response.rs and lib/http-server/src/event_source.rs: what a handler answers.
use pheidippides.Prelude.{ℕ, Text, List, Option, Bool, true, false}
use pheidippides.Cookies.{Header}

pub record EventSourceEvent : Type 0 where
  pub payload : Text
  pub id : Text
  pub event : Option Text

-- An `i32`; `negsuc n` is -(n + 1).
pub data ℤ : Type 0 where
  pos negsuc : ℕ → ℤ

-- `Stream` is the channel of events.
pub data Response (Stream : Type 0) : Type 0 where
  html : Text → List Header → Response Stream
  text : Text → List Header → Response Stream
  json : Text → List Header → Response Stream
  redirect : Text → List Header → Response Stream
  event_source : Option ℤ → Stream → Response Stream
  bad_request : Response Stream
  internal_server_error : Response Stream
  no_content : Response Stream

module _ {Stream : Type 0} where
  unfoldable pub is_html : Response Stream → Bool
  is_html (html _ _) = true
  is_html _ = false

  unfoldable pub is_text : Response Stream → Bool
  is_text (text _ _) = true
  is_text _ = false

  unfoldable pub is_json : Response Stream → Bool
  is_json (json _ _) = true
  is_json _ = false

  unfoldable pub is_redirect : Response Stream → Bool
  is_redirect (redirect _ _) = true
  is_redirect _ = false

  unfoldable pub is_event_source : Response Stream → Bool
  is_event_source (event_source _ _) = true
  is_event_source _ = false

  unfoldable pub is_bad_request : Response Stream → Bool
  is_bad_request bad_request = true
  is_bad_request _ = false

  unfoldable pub is_internal_server_error : Response Stream → Bool
  is_internal_server_error internal_server_error = true
  is_internal_server_error _ = false

  unfoldable pub is_empty : Response Stream → Bool
  is_empty no_content = true
  is_empty _ = false
