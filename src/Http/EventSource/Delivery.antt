-- ===== src/Http/EventSource/Delivery.antt =====
-- lib/http-server/src/event_source.rs: the events of the channel arrive at the client, in order.
use mathlib.Core.List.{append_assoc, append-nil}
use pheidippides.Prelude.{
  ℕ, suc, Text, codes, List, [], ◌∷◌, ◌++◌, Option, none, some, Result, ok, err, Result-cases, All,
  All-map, All-append, ◌≡◌, ◌≢◌, inl, inr, refl, sym, ap, ◌∙◌, arith, subst,
}
use pheidippides.Prelude.Results.{◌>>=◌}
use pheidippides.Prelude.Strings.{into_bytes}
use pheidippides.Prelude.Strings.Lines.{IsLine}
use pheidippides.Http.Number.{to_string}
use pheidippides.Http.Number.Laws.{IsDigit, to_string-IsDigit}
use pheidippides.Http.Response.{EventSourceEvent, ℤ, pos, negsuc}
use pheidippides.Http.Headers.{into_bytes-append}
use pheidippides.Http.Builder.{Order, new, content_event_stream, build}
use pheidippides.Http.Writer.{Writer}
use pheidippides.Http.EventSource.{
  Wake, interval, client_line, next_event, Ending, failed, stopped, waiting, event_text, signed,
  send_event_to_event_source_stream, keep_alive, event_loop, retry_line, open_stream,
  handle_event_stream,
}
use pheidippides.Http.EventSource.Client.{
  IsSendable, events_of, events_of-event_text, events_of-skipped,
}

-- The events that the loop received before it was left.
abbrev pub received_events : List Wake → List EventSourceEvent
received_events [] = []
received_events (interval ∷ turns) = received_events turns
received_events (client_line ∷ turns) = []
received_events (next_event none ∷ turns) = []
received_events (next_event (some e) ∷ turns) = e ∷ received_events turns

digits-IsLine : (n : ℕ) → IsLine (to_string n)
digits-IsLine n =
    All-map IsDigit (λ c. (c ≢ 10) × (c ≢ 13)) (to_string n)
      (λ c (low, high). (λ p. omega (arith, p, low), λ p. omega (arith, p, low)))
      (to_string-IsDigit n)

module _ {C E : Type 0} where
  -- The connection, unless a write failed.
  abbrev pub connection : Ending C E → Option C
  connection (failed e) = none
  connection (stopped c) = some c
  connection (waiting c) = some c

module _ {C E : Type 0} (writer : Writer C E) where
  written-flushed :
      (c c' : C) (bytes : List ℕ)
      → (writer.write_all c bytes >>= writer.flush) ≡ ok c'
      → writer.written c' ≡ writer.written c ++ bytes
  written-flushed c c' bytes h = elim (Result-cases (writer.write_all c bytes)) [
    | inl (d, e) ↦ writer.written-flush d c' (rw e at h) ∙ writer.written-write_all c d bytes e
    | inr (e, f) ↦ absurd (ground arith)
  ]

  -- The bytes between two states of the connection are a text from which a client reads the events.
  abbrev Carries : List EventSourceEvent → C → C → Type 0
  Carries events c c' =
      (text : Text) × (writer.written c' ≡ writer.written c ++ into_bytes text)
      × (events_of text ≡ events)

  Carries-none : (c : C) → Carries [] c c
  Carries-none c = (
    [],
    unfold into_bytes in sym (append-nil (writer.written c)),
    unfold pheidippides.Prelude.Strings.text_lines in refl,
  )

  carried :
      (before : List ℕ) (d c' : C) (head text : Text)
      → writer.written d ≡ before ++ into_bytes head
      → writer.written c' ≡ writer.written d ++ into_bytes text
      → writer.written c' ≡ before ++ into_bytes (head ++ text)
  carried before d c' head text h k =
      k
      ∙ ap (λ x. x ++ into_bytes text) h
      ∙ append_assoc before (into_bytes head) (into_bytes text)
      ∙ ap (λ x. before ++ x) (sym (into_bytes-append head text))

  keep_alive_skipped : (rest : Text) → events_of (codes ": keep-alive\n" ++ rest) ≡ events_of rest
  unfolding pheidippides.Prelude.Strings.strip_prefix
  keep_alive_skipped rest = events_of-skipped b':' (codes " keep-alive") rest (ground arith) refl

  Carries-same : (c c' : C) → some c ≡ some c' → Carries [] c c'
  Carries-same c c' h = let same : c ≡ c' = cc in subst (Carries [] c) same (Carries-none c)

  keep_alive-Carries :
      (events : List EventSourceEvent) (c d c' : C)
      → keep_alive writer c ≡ ok d
      → Carries events d c'
      → Carries events c c'
  unfolding keep_alive
  keep_alive-Carries events c d c' e (text, w, reads) = (
    codes ": keep-alive\n" ++ text,
    carried (writer.written c) d c' (codes ": keep-alive\n") text
        (written-flushed c d (into_bytes (codes ": keep-alive\n")) e) w,
    keep_alive_skipped text ∙ reads,
  )

  send_event-Carries :
      (event : EventSourceEvent) (events : List EventSourceEvent) (c d c' : C)
      → IsSendable event
      → send_event_to_event_source_stream writer c event ≡ ok d
      → Carries events d c'
      → Carries (event ∷ events) c c'
  unfolding send_event_to_event_source_stream
  send_event-Carries event events c d c' s e (text, w, reads) = (
    event_text event ++ text,
    carried (writer.written c) d c' (event_text event) text
        (written-flushed c d (into_bytes (event_text event)) e) w,
    events_of-event_text event text s ∙ ap (λ x. event ∷ x) reads,
  )

  event_loop-Carries :
      (turns : List Wake) (c c' : C)
      → All IsSendable (received_events turns)
      → connection (event_loop writer c turns) ≡ some c'
      → Carries (received_events turns) c c'
  unfolding event_loop
  event_loop-Carries [] c c' a h = Carries-same c c' h
  event_loop-Carries (client_line ∷ turns) c c' a h = Carries-same c c' h
  event_loop-Carries (next_event none ∷ turns) c c' a h = Carries-same c c' h
  event_loop-Carries (interval ∷ turns) c c' a h = elim (Result-cases (keep_alive writer c)) [
    | inr (e, f) ↦ absurd (ground arith)
    | inl (d, f) ↦
        keep_alive-Carries (received_events turns) c d c' f
          (event_loop-Carries turns d c' a (ground (arith, f, h)))
  ]
  event_loop-Carries (next_event (some e) ∷ turns) c c' (s, a) h =
      elim (Result-cases (send_event_to_event_source_stream writer c e)) [
        | inr (x, f) ↦ absurd (ground arith)
        | inl (d, f) ↦
            send_event-Carries e (received_events turns) c d c' s f
              (event_loop-Carries turns d c' a (ground (arith, f, h)))
      ]

  signed-IsLine : (n : ℤ) → IsLine (signed n)
  unfolding signed
  signed-IsLine (pos n) = digits-IsLine n
  signed-IsLine (negsuc n) = ((λ p. omega (arith, p), λ p. omega (arith, p)), digits-IsLine (suc n))

  -- What is written before the loop: the head of the response, and a field that the client skips.
  abbrev retry_text : Option ℤ → Text
  retry_text none = []
  retry_text (some n) = codes "retry: " ++ (signed n ++ codes "\n")

  retry_text-skipped :
      (retry : Option ℤ) (rest : Text) → events_of (retry_text retry ++ rest) ≡ events_of rest
  unfolding pheidippides.Prelude.Strings.strip_prefix
  retry_text-skipped none rest = refl
  retry_text-skipped (some n) rest =
      ap events_of (append_assoc (codes "retry: " ++ signed n) (codes "\n") rest)
      ∙ events_of-skipped b'r' (codes "etry: " ++ signed n) rest
          (All-append _ (codes "retry: ") (signed n) (ground arith) (signed-IsLine n)) refl

  written-retry_line :
      (retry : Option ℤ) (c d : C)
      → retry_line writer retry c ≡ ok d
      → writer.written d ≡ writer.written c ++ into_bytes (retry_text retry)
  unfolding into_bytes
  written-retry_line none c d h =
      let same : c ≡ d = cc in ap writer.written (sym same) ∙ sym (append-nil (writer.written c))
  written-retry_line (some n) c d h =
      writer.written-write_all c d (into_bytes (retry_text (some n))) h

  written-open_stream :
      (unicode : Text → Text) (order : Order) (retry : Option ℤ) (c d : C)
      → open_stream writer unicode order retry c ≡ ok d
      → writer.written d
        ≡ (writer.written c ++ build unicode order (content_event_stream unicode new))
          ++ into_bytes (retry_text retry)
  unfolding open_stream
  written-open_stream unicode order retry c d h =
      elim (Result-cases
        (writer.write_all c (build unicode order (content_event_stream unicode new)))) [
          | inr (x, e) ↦ absurd (ground arith)
          | inl (head, e) ↦ elim (Result-cases (retry_line writer retry head)) [
            | inr (x, f) ↦ absurd (ground arith)
            | inl (retried, f) ↦
                writer.written-flush retried d (ground (arith, e, f, h))
                ∙ written-retry_line retry head retried f
                ∙ ap (λ x. x ++ into_bytes (retry_text retry)) (writer.written-write_all c head _ e)
          ]
        ]

  -- Unless a write fails, what a connection gets is the head of the response and then a text from
  -- which a client reads exactly the events that came from the channel before the loop was left, in
  -- their order, whatever keep-alive lines stand between them. The payload of each is made of lines
  -- of which the last is not empty, and its id and its type have no line end in them.
  pub handle_event_stream-events_of :
      (unicode : Text → Text) (order : Order) (retry : Option ℤ) (turns : List Wake) (c c' : C)
      → All IsSendable (received_events turns)
      → connection (handle_event_stream writer unicode order retry turns c) ≡ some c'
      → (text : Text) × (writer.written c'
          ≡ (writer.written c ++ build unicode order (content_event_stream unicode new))
            ++ into_bytes text)
        × (events_of text ≡ received_events turns)
  unfolding handle_event_stream
  handle_event_stream-events_of unicode order retry turns c c' a h =
      elim (Result-cases (open_stream writer unicode order retry c)) [
        | inr (x, f) ↦ absurd (ground arith)
        | inl (d, f) ↦
            let (text, w, reads) = event_loop-Carries turns d c' a (ground (arith, f, h)) in
            (
              retry_text retry ++ text,
              carried (writer.written c ++ build unicode order (content_event_stream unicode new)) d
                  c' (retry_text retry) text (written-open_stream unicode order retry c d f) w,
              retry_text-skipped retry text ∙ reads,
            )
      ]
