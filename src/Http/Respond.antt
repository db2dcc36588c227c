-- ===== src/Http/Respond.antt =====
-- lib/http-server/src/request.rs: answering a request. The connection is the parameter `Writer`; an
-- event source goes on in a task of its own, which Http/EventSource.antt models.
pub mod Parts
pub mod Answers
pub mod Reading
use pheidippides.Prelude.{ℕ, Text, codes, List, [], ◌∷◌, Option, Result, ok, err}
use pheidippides.Prelude.Results.{◌>>=◌}
use pheidippides.Cookies.{Header, from_str}
use pheidippides.Http.Status
use pheidippides.Http.Response.{
  Response, ℤ, html, text, json, redirect, event_source, bad_request, internal_server_error,
  no_content,
}
use pheidippides.Http.Builder.{
  Order, HttpResponseBuilder, new, status, header, body, content_text, content_html, content_json,
  build,
}
use pheidippides.Http.Writer.{Writer}

-- The response was written, or its events are written by a task.
pub data Answer (C E Stream : Type 0) : Type 0 where
  finished : Result E C → Answer C E Stream
  spawned : Option ℤ → Stream → C → Answer C E Stream

-- The loop over the headers of the response.
unfoldable pub add_headers : List Header → HttpResponseBuilder → HttpResponseBuilder
add_headers [] builder = builder
add_headers (h ∷ headers) builder = add_headers headers (header h builder)

module _ {C E Stream : Type 0} (writer : Writer C E) (unicode : Text → Text) (order : Order) where
  abbrev pub send : HttpResponseBuilder → C → Answer C E Stream
  send builder c =
      finished
        (do written ← writer.write_all c (build unicode order builder); writer.shutdown written)

  unfoldable pub respond : Response Stream → C → Answer C E Stream
  unfolding add_headers
  respond (text content headers) =
      send (add_headers headers (content_text unicode (body content new)))
  respond (html content headers) =
      send (add_headers headers (content_html unicode (body content new)))
  respond (json content headers) =
      send (add_headers headers (content_json unicode (body content new)))
  respond (redirect location headers) = send (
      add_headers headers
        (header (from_str unicode (codes "Location"), location) (status Status.see_other new)))
  respond (event_source retry stream) = spawned retry stream
  respond bad_request = send (body (codes "Bad request") (status Status.bad_request new))
  respond internal_server_error =
      send (body (codes "Internal Server Error") (status Status.internal_server_error new))
  respond no_content = send new
