-- ===== src/Http/EventSource/Client.antt =====
-- lib/http-server/src/event_source.rs: what a browser's `EventSource` reads from the bytes that the
-- loop writes.
use mathlib.Core.List.{append_assoc, append-nil}
use pheidippides.Prelude.{
  ℕ, Text, codes, List, [], ◌∷◌, ◌++◌, Option, none, some, All, All-append, map, ◌≡◌, refl, sym, ap,
  ◌∙◌, arith,
}
use pheidippides.Prelude.Strings.{text_lines, strip_prefix}
use pheidippides.Prelude.Strings.Lines.{
  IsLine, EndsFilled, join, unlines, text_lines-join, text_lines-unlines, text_lines-line,
}
use pheidippides.Http.Response.{EventSourceEvent}
use pheidippides.Http.EventSource.{event_text, event_line, data_lines}

-- The event that the lines so far make up.
pub record Pending : Type 0 where
  pub values : List Text
  pub id : Text
  pub event : Option Text

abbrev pub fresh : Pending
fresh = record { values = []; id = []; event = none }

-- A line with another field, and a comment, adds nothing.
abbrev pub field : Pending → Text → Pending
field p line = elim (strip_prefix (codes "data: ") line) [
  | some value ↦ record p { values = p.values ++ value ∷ [] }
  | none ↦ elim (strip_prefix (codes "event: ") line) [
    | some value ↦ record p { event = some value }
    | none ↦ elim (strip_prefix (codes "id: ") line) [
      | some value ↦ record p { id = value }
      | none ↦ p
    ]
  ]
]

-- An event without data is dropped.
abbrev dispatch : Pending → List Text → List EventSourceEvent → List EventSourceEvent
dispatch p [] rest = rest
dispatch p (line ∷ more) rest =
    record { payload = join (line ∷ more); id = p.id; event = p.event } ∷ rest

abbrev client : Pending → List Text → List EventSourceEvent
client p [] = []
client p ([] ∷ lines) = dispatch p p.values (client fresh lines)
client p ((c ∷ line) ∷ lines) = client (field p (c ∷ line)) lines

-- The events that a client reads from a text.
abbrev pub events_of : Text → List EventSourceEvent
events_of text = client fresh (text_lines text)

abbrev IsOptionalLine : Option Text → Type 0
IsOptionalLine none = Unit
IsOptionalLine (some s) = IsLine s

-- The payload is made of lines, the last one not empty, and no field has a line end in it.
pub record IsSendable (e : EventSourceEvent) : Type 0 where
  pub first : Text
  pub more : List Text
  pub payload : e.payload ≡ join (first ∷ more)
  pub payload_lines : All IsLine (first ∷ more)
  pub filled : EndsFilled (first ∷ more)
  pub id_line : IsLine e.id
  pub type_line : IsOptionalLine e.event

abbrev event_field : Option Text → List Text
event_field none = []
event_field (some event_type) = (codes "event: " ++ event_type) ∷ []

abbrev data_field : Text → Text
data_field line = codes "data: " ++ line

abbrev fields : EventSourceEvent → List Text → List Text
fields e ls = event_field e.event ++ (map data_field ls ++ (codes "id: " ++ e.id) ∷ [] ∷ [])

unlines-append : (xs ys : List Text) → unlines (xs ++ ys) ≡ unlines xs ++ unlines ys
unlines-append [] ys = refl
unlines-append (x ∷ xs) ys =
    ap (λ s. x ++ 10 ∷ s) (unlines-append xs ys)
    ∙ sym (append_assoc x (10 ∷ unlines xs) (unlines ys))

data_lines-unlines : (ls : List Text) → data_lines ls ≡ unlines (map data_field ls)
unfolding data_lines
data_lines-unlines [] = refl
data_lines-unlines (l ∷ ls) =
    ap (λ s. codes "data: " ++ (l ++ codes "\n") ++ s) (data_lines-unlines ls)
    ∙ ap (λ s. codes "data: " ++ s) (append_assoc l (codes "\n") (unlines (map data_field ls)))

event_line-unlines : (o : Option Text) → event_line o ≡ unlines (event_field o)
event_line-unlines none = refl
event_line-unlines (some s) = refl

event_text-unlines :
    (e : EventSourceEvent) → event_text e ≡ unlines (fields e (text_lines e.payload))
unfolding event_text
event_text-unlines e =
    rw
      (
        unlines-append (event_field e.event)
            (map data_field (text_lines e.payload) ++ (codes "id: " ++ e.id) ∷ [] ∷ []),
        unlines-append (map data_field (text_lines e.payload)) ((codes "id: " ++ e.id) ∷ [] ∷ []),
        event_line-unlines e.event,
        data_lines-unlines (text_lines e.payload),
        append_assoc e.id (codes "\n") (codes "\n"),
      )
      refl

IsLine-prefix : (s line : Text) → IsLine s → IsLine line → IsLine (s ++ line)
IsLine-prefix s line a b = All-append _ s line a b

event_field-lines : (o : Option Text) → IsOptionalLine o → All IsLine (event_field o)
event_field-lines none t = tt
event_field-lines (some s) t = (IsLine-prefix (codes "event: ") s (ground arith) t, tt)

data_field-lines : (ls : List Text) → All IsLine ls → All IsLine (map data_field ls)
data_field-lines [] a = tt
data_field-lines (l ∷ ls) (a, more) =
    (IsLine-prefix (codes "data: ") l (ground arith) a, data_field-lines ls more)

fields-lines :
    (e : EventSourceEvent) (ls : List Text)
    → All IsLine ls
    → IsLine e.id
    → IsOptionalLine e.event
    → All IsLine (fields e ls)
fields-lines e ls a i t =
    All-append IsLine (event_field e.event) (map data_field ls ++ (codes "id: " ++ e.id) ∷ [] ∷ [])
      (event_field-lines e.event t)
      (All-append IsLine (map data_field ls) ((codes "id: " ++ e.id) ∷ [] ∷ [])
        (data_field-lines ls a) (IsLine-prefix (codes "id: ") e.id (ground arith) i, (tt, tt)))

client-data :
    (p : Pending) (ls rest : List Text)
    → client p (map data_field ls ++ rest) ≡ client (record p { values = p.values ++ ls }) rest
unfolding strip_prefix
client-data p [] rest =
    ap (λ (ls : List Text). client (record p { values = ls }) rest) (sym (append-nil p.values))
client-data p (l ∷ ls) rest =
    client-data (record p { values = p.values ++ l ∷ [] }) ls rest
    ∙ ap (λ (ls : List Text). client (record p { values = ls }) rest)
        (append_assoc p.values (l ∷ []) ls)

client-fields :
    (o : Option Text) (id line : Text) (ls rest : List Text)
    → client fresh
        (event_field o ++ (map data_field (line ∷ ls) ++ (codes "id: " ++ id) ∷ [] ∷ rest))
      ≡ record { payload = join (line ∷ ls); id = id; event = o } ∷ client fresh rest
unfolding strip_prefix
client-fields none id line ls rest =
    client-data (record { values = line ∷ []; id = []; event = none }) ls
      ((codes "id: " ++ id) ∷ [] ∷ rest)
client-fields (some s) id line ls rest =
    client-data (record { values = line ∷ []; id = []; event = some s }) ls
      ((codes "id: " ++ id) ∷ [] ∷ rest)

fields-append :
    (e : EventSourceEvent) (ls rest : List Text)
    → fields e ls ++ rest
      ≡ event_field e.event ++ (map data_field ls ++ (codes "id: " ++ e.id) ∷ [] ∷ rest)
fields-append e ls rest =
    append_assoc (event_field e.event) (map data_field ls ++ (codes "id: " ++ e.id) ∷ [] ∷ []) rest
    ∙ ap (λ x. event_field e.event ++ x)
        (append_assoc (map data_field ls) ((codes "id: " ++ e.id) ∷ [] ∷ []) rest)

-- The text of an event is read as that event, whatever follows.
pub events_of-event_text :
    (e : EventSourceEvent) (rest : Text)
    → IsSendable e
    → events_of (event_text e ++ rest) ≡ e ∷ events_of rest
events_of-event_text e rest s =
    let ls = s.first ∷ s.more in
    let same : text_lines e.payload ≡ ls =
      ap text_lines s.payload ∙ text_lines-join ls s.payload_lines s.filled in
    let text : event_text e ≡ unlines (fields e ls) =
      event_text-unlines e ∙ ap (λ x. unlines (fields e x)) same in
    let read : text_lines (event_text e ++ rest) ≡ fields e ls ++ text_lines rest =
      ap (λ x. text_lines (x ++ rest)) text
      ∙ text_lines-unlines (fields e ls) rest
          (fields-lines e ls s.payload_lines s.id_line s.type_line) in
    ap (client fresh) (read ∙ fields-append e ls (text_lines rest))
    ∙ client-fields e.event e.id s.first s.more (text_lines rest)
    ∙ ap (λ x. record { payload = x; id = e.id; event = e.event } ∷ events_of rest) (sym s.payload)

-- A comment before an event, or a field that the client does not know.
pub events_of-skipped :
    (c : ℕ) (line rest : Text)
    → IsLine (c ∷ line)
    → field fresh (c ∷ line) ≡ fresh
    → events_of ((c ∷ line) ++ 10 ∷ rest) ≡ events_of rest
events_of-skipped c line rest a k =
    ap (client fresh) (text_lines-line (c ∷ line) rest a) ∙ ap (λ p. client p (text_lines rest)) k
