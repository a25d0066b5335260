-- ===== src/Streamer/Bus/Messages.antt =====
-- What the bus handler logs of a sequence of messages, and what it frees.
use my_stream_out_app.Base.{
  ℕ, ◌+◌, ◌≡◌, ◌==◌, refl, none, some, List, [], ◌∷◌, ◌++◌, arith, if◌then◌else◌,
}
use my_stream_out_app.Base.Text.{Text}
use my_stream_out_app.Streamer.Bus.{
  Severity, trouble, state_changed, Message, BusEvent, make_error, free_error, make_text, free_text,
  trouble_line, state_line, on_bus_message, on_bus_messages,
}

abbrev pub errors_made : List BusEvent → ℕ
errors_made [] = 0
errors_made (make_error ∷ es) = 1 + errors_made es
errors_made (_ ∷ es) = errors_made es

abbrev pub errors_freed : List BusEvent → ℕ
errors_freed [] = 0
errors_freed (free_error ∷ es) = 1 + errors_freed es
errors_freed (_ ∷ es) = errors_freed es

abbrev pub texts_made : List BusEvent → ℕ
texts_made [] = 0
texts_made (make_text ∷ es) = 1 + texts_made es
texts_made (_ ∷ es) = texts_made es

abbrev pub texts_freed : List BusEvent → ℕ
texts_freed [] = 0
texts_freed (free_text ∷ es) = 1 + texts_freed es
texts_freed (_ ∷ es) = texts_freed es

-- The state changes in the log.
abbrev pub transitions : List BusEvent → List (Text × Text × Text × Text)
transitions [] = []
transitions (state_line src old new pending ∷ es) = (src, old, new, pending) ∷ transitions es
transitions (_ ∷ es) = transitions es

-- The troubles in the log, by severity.
abbrev pub troubles : List BusEvent → List Severity
troubles [] = []
troubles (trouble_line v src t ∷ es) = v ∷ troubles es
troubles (_ ∷ es) = troubles es

-- What the object `p` itself posts of its state, with its name; a message without a source is no one's.
abbrev pub own_transitions : ℕ → List Message → List (Text × Text × Text × Text)
own_transitions p [] = []
own_transitions p (m ∷ ms) = elim m.content [
  | state_changed old new pending ↦ elim m.src [
    | none ↦ own_transitions p ms
    | some (x, name) ↦
        if x == p then (name, old, new, pending) ∷ own_transitions p ms else own_transitions p ms
  ]
  | _ ↦ own_transitions p ms
]

abbrev pub severities : List Message → List Severity
severities [] = []
severities (m ∷ ms) = elim m.content [ trouble v err dbg ↦ v ∷ severities ms | _ ↦ severities ms ]

-- One message in front of others.
abbrev Told : ℕ → Message → List BusEvent → Type 0
Told p m es =
    (errors_made (on_bus_message p m ++ es) + errors_freed es
      ≡ errors_freed (on_bus_message p m ++ es) + errors_made es)
    × (texts_made (on_bus_message p m ++ es) + texts_freed es
        ≡ texts_freed (on_bus_message p m ++ es) + texts_made es)

on_bus_message-Told : (p : ℕ) (m : Message) (es : List BusEvent) → Told p m es
unfolding on_bus_message
on_bus_message-Told p m es = ground arith

-- Whatever messages arrive in whatever order, every error object and text that a parser hands over is
-- freed, a state change is logged just if the message has a source and that is the pipeline, under
-- its name and with its three states, and every error, warning and info is logged once at its own
-- level, each in the order of the messages.
pub on_bus_messages-reports :
    (p : ℕ) (ms : List Message)
    → let es = on_bus_messages p ms in
      (errors_made es ≡ errors_freed es)
      × (texts_made es ≡ texts_freed es)
      × (transitions es ≡ own_transitions p ms)
      × (troubles es ≡ severities ms)
unfolding on_bus_message
on_bus_messages-reports p [] = (refl, refl, refl, refl)
on_bus_messages-reports p (m ∷ ms) =
    let (a, b, c, d) = on_bus_messages-reports p ms in
    let (x, y) = on_bus_message-Told p m (on_bus_messages p ms) in
    (omega arith, omega arith, ground arith, ground arith)
