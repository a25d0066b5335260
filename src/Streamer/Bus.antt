-- ===== src/Streamer/Bus.antt =====
-- on_bus_message of app/src/main/cpp/camera2_gst_streamer.cpp, which on_media_prepared connects to the
-- bus of the pipeline. What the parsers give is part of the message.
pub mod Messages
pub mod Connected
use my_stream_out_app.Base.{
  ℕ, Bool, true, false, Option, none, some, List, [], ◌∷◌, ◌++◌, ◌==◌, if◌then◌else◌,
}
use my_stream_out_app.Base.Text.{Text, codes}

-- The three kinds that carry an error object, each logged at its own level.
pub data Severity : Type 0 where
  error warning info : Severity

-- What a message says: the text of its error object and a debug text, where there is one; or the old,
-- the new and the pending state; or another kind of message by its name.
pub data Content : Type 0 where
  trouble : Severity → Option Text → Option Text → Content
  latency : Content
  state_changed : Text → Text → Text → Content
  other : Text → Content

-- The source is an object with its name.
pub record Message : Type 0 where
  pub src : Option (ℕ × Text)
  pub content : Content

-- A line says the source and the text; `make` and `free` are the objects that the parsers hand over.
pub data BusEvent : Type 0 where
  make_error free_error make_text free_text : BusEvent
  trouble_line : Severity → Text → Text → BusEvent
  debug_line : Severity → Text → BusEvent
  latency_line : Text → BusEvent
  state_line : Text → Text → Text → Text → BusEvent

abbrev unknown : Text
unknown = codes "(unknown)"

abbrev pub src_name : Option (ℕ × Text) → Text
src_name none = unknown
src_name (some (x, name)) = name

-- GST_MESSAGE_SRC(msg) == user_data
abbrev pub is_from : ℕ → Option (ℕ × Text) → Bool
is_from p none = false
is_from p (some (x, name)) = x == p

abbrev pub parsed : Option Text → BusEvent → List BusEvent
parsed none e = []
parsed (some t) e = e ∷ []

abbrev pub report_trouble : Severity → Text → Option Text → List BusEvent
report_trouble v src none = trouble_line v src unknown ∷ []
report_trouble v src (some err) = trouble_line v src err ∷ []

abbrev pub report_debug : Severity → Option Text → List BusEvent
report_debug v none = []
report_debug v (some dbg) = debug_line v dbg ∷ free_text ∷ []

unfoldable pub log_content : ℕ → Option (ℕ × Text) → Content → List BusEvent
log_content p src (trouble v err dbg) =
    parsed err make_error
    ++ (parsed dbg make_text
        ++ (report_trouble v (src_name src) err ++ (report_debug v dbg ++ parsed err free_error)))
log_content p src latency = latency_line (src_name src) ∷ []
log_content p src (state_changed old new pending) =
    if is_from p src then state_line (src_name src) old new pending ∷ [] else []
log_content p src (other name) = []

-- The pipeline is the closure's `user_data`.
unfoldable pub on_bus_message : ℕ → Message → List BusEvent
unfolding log_content
on_bus_message p m = log_content p m.src m.content

-- The handler's calls over a sequence of messages.
abbrev pub on_bus_messages : ℕ → List Message → List BusEvent
on_bus_messages p [] = []
on_bus_messages p (m ∷ ms) = on_bus_message p m ++ on_bus_messages p ms

-- The detail of the signal "sync-message" that GStreamer emits for a message.
abbrev pub detail_of : Content → Text
detail_of (trouble error err dbg) = codes "sync-message::error"
detail_of (trouble warning err dbg) = codes "sync-message::warning"
detail_of (trouble info err dbg) = codes "sync-message::info"
detail_of latency = codes "sync-message::latency"
detail_of (state_changed old new pending) = codes "sync-message::state-changed"
detail_of (other name) = codes "sync-message::" ++ name
