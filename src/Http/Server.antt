-- ===== src/Http/Server.antt =====
-- lib/http-server/src/server.rs: the accept loop, and the task that serves one connection. What
-- happens at the listener is an argument.
pub mod Serving
use pheidippides.Prelude.{ℕ, Text, List, [], ◌∷◌, Exec, Result, ok, err}
use pheidippides.Http.Request.{Request, try_from_stream}
use pheidippides.Http.Response.{Response}
use pheidippides.Http.Builder.{Order}
use pheidippides.Http.Writer.{Writer}
use pheidippides.Http.Respond.{Answer, respond}

-- `RequestHandler::handle`, on the state that the handlers share.
abbrev pub RequestHandler : Type 0 → Type 0 → Type 0 → Type 0
RequestHandler S Stream F = Request → Exec S F (Response Stream)

-- The connection is dropped, since it sent no request or the handler failed, or it is answered.
pub data Served (C E Stream : Type 0) : Type 0 where
  dropped : Served C E Stream
  answered : Answer C E Stream → Served C E Stream

module _ {C E Stream S F : Type 0} (writer : Writer C E) (unicode : Text → Text) (order : Order)
    (handle : RequestHandler S Stream F) where
  abbrev answer : C → Result F (Response Stream) × S → Served C E Stream × S
  answer c (err _, s) = (dropped, s)
  answer c (ok response, s) = (answered (respond writer unicode order response c), s)

  -- The spawned task, for the bytes that the connection sends.
  unfoldable pub serve : List ℕ → C → S → Served C E Stream × S
  serve stream c s = elim (try_from_stream unicode stream) [
    | err _ ↦ (dropped, s)
    | ok request ↦ answer c (handle request s)
  ]

-- The token is cancelled, `accept` fails, or it returns a connection.
pub data Turn (Connection : Type 0) : Type 0 where
  cancelled : Turn Connection
  accept_failed : Turn Connection
  accepted : Connection → Turn Connection

-- The connections for which a task is spawned, in order.
unfoldable pub accept_loop : {Connection : Type 0} → List (Turn Connection) → List Connection
accept_loop [] = []
accept_loop (cancelled ∷ turns) = []
accept_loop (accept_failed ∷ turns) = accept_loop turns
accept_loop (accepted connection ∷ turns) = connection ∷ accept_loop turns
