-- ===== src/Http/EventSource.antt =====
-- lib/http-server/src/event_source.rs: the loop that writes events to a connection. The branch that
-- `select!` takes in each round is an argument.
pub mod Client
pub mod Delivery
use pheidippides.Prelude.{
  ℕ, suc, Text, codes, List, [], ◌∷◌, ◌++◌, Option, none, some, Result, ok, err,
}
use pheidippides.Prelude.Results.{◌>>=◌}
use pheidippides.Prelude.Strings.{into_bytes, text_lines}
use pheidippides.Http.Number.{to_string}
use pheidippides.Http.Response.{EventSourceEvent, ℤ, pos, negsuc}
use pheidippides.Http.Builder.{Order, new, content_event_stream, build}
use pheidippides.Http.Writer.{Writer}

-- `format!` of an `i32`.
unfoldable pub signed : ℤ → Text
signed (pos n) = to_string n
signed (negsuc n) = codes "-" ++ to_string (suc n)

-- The loop over the lines of the payload.
unfoldable pub data_lines : List Text → Text
data_lines [] = []
data_lines (line ∷ more) = codes "data: " ++ (line ++ codes "\n") ++ data_lines more

abbrev pub event_line : Option Text → Text
event_line none = []
event_line (some event_type) = codes "event: " ++ (event_type ++ codes "\n")

-- The text of `send_event_to_event_source_stream`.
unfoldable pub event_text : EventSourceEvent → Text
unfolding data_lines
event_text event =
    event_line event.event
    ++ (data_lines (text_lines event.payload)
        ++ ((codes "id: " ++ (event.id ++ codes "\n")) ++ codes "\n"))

-- An hour has passed, the client sent a line or closed, or the channel of events has a next event or
-- is closed.
pub data Wake : Type 0 where
  interval : Wake
  client_line : Wake
  next_event : Option EventSourceEvent → Wake

-- A write failed, the loop was left, or it waits for its next round.
pub data Ending (C E : Type 0) : Type 0 where
  failed : E → Ending C E
  stopped waiting : C → Ending C E

module _ {C E : Type 0} (writer : Writer C E) where
  unfoldable pub send_event_to_event_source_stream : C → EventSourceEvent → Result E C
  send_event_to_event_source_stream c event = do
    written ← writer.write_all c (into_bytes (event_text event))
    writer.flush written

  unfoldable pub keep_alive : C → Result E C
  keep_alive c = do
    written ← writer.write_all c (into_bytes (codes ": keep-alive\n"))
    writer.flush written

  unfoldable pub event_loop : C → List Wake → Ending C E
  event_loop c [] = waiting c
  event_loop c (interval ∷ turns) = elim (keep_alive c) [
    | err e ↦ failed e
    | ok next ↦ event_loop next turns
  ]
  event_loop c (client_line ∷ turns) = stopped c
  event_loop c (next_event none ∷ turns) = stopped c
  event_loop c (next_event (some event) ∷ turns) =
      elim (send_event_to_event_source_stream c event) [
        | err e ↦ failed e
        | ok next ↦ event_loop next turns
      ]

  abbrev pub retry_line : Option ℤ → C → Result E C
  retry_line none c = ok c
  retry_line (some retry) c =
      writer.write_all c (into_bytes (codes "retry: " ++ (signed retry ++ codes "\n")))

  -- What is written before the loop.
  unfoldable pub open_stream : (Text → Text) → Order → Option ℤ → C → Result E C
  open_stream unicode order retry c = do
    head ← writer.write_all c (build unicode order (content_event_stream unicode new))
    retried ← retry_line retry head
    writer.flush retried

  unfoldable pub handle_event_stream : (Text → Text) → Order → Option ℤ → List Wake → C → Ending C E
  unfolding open_stream event_loop
  handle_event_stream unicode order retry turns c = elim (open_stream unicode order retry c) [
    | err e ↦ failed e
    | ok opened ↦ event_loop opened turns
  ]
