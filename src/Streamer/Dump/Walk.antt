-- ===== src/Streamer/Dump/Walk.antt =====
-- What dump_audio_video_pipeline and on_periodic_element_dump (which nothing calls) of
-- app/src/main/cpp/camera2_gst_streamer.cpp log: the cached appsrcs and every element of the pipeline
-- with its pads. What GStreamer answers is a parameter. Left out: the lines that are the same in every
-- dump, the line of the pipeline's own state, and the GValues that the iterators fill.
pub mod Listed
pub mod Numbered
pub mod Freed
use my_stream_out_app.Base.{
  ℕ, ◌+◌, Bool, true, false, ◌||◌, Option, none, some, List, [], ◌∷◌, ◌++◌, leb, ◌==◌,
  if◌then◌else◌,
}
use my_stream_out_app.Base.Text.{Text, codes, contains}
use my_stream_out_app.Streamer.Session.{Session}
use my_stream_out_app.Streamer.Dump.{next_count}

-- What gst_iterator_next answers on pads: a pad with its name, whether it is linked, and its current
-- caps as text; no pad; or anything but GST_ITERATOR_OK.
pub data PadAnswer : Type 0 where
  pad : Text → Bool → Option Text → PadAnswer
  no_pad stop : PadAnswer

-- An element, with the answers of the iterator over its pads if there is one.
pub record Seen : Type 0 where
  pub name : Text
  pub type_name : Text
  pub state : Text
  pub pads : Option (List PadAnswer)

-- What gst_iterator_next answers on the elements of the pipeline; `finished` is the end, an error or
-- any other answer.
pub data WalkAnswer : Type 0 where
  found : Seen → WalkAnswer
  no_element resync finished : WalkAnswer

pub data Tag : Type 0 where
  untagged audio video : Tag

-- A line of the log, or a call that takes or gives up something.
pub data WalkEvent : Type 0 where
  new_iterator free_iterator get_caps unref_caps make_text free_text : WalkEvent
  appsrc_line : Tag → Option Text → WalkEvent
  element_line : ℕ → Tag → Seen → WalkEvent
  pad_line : Text → Bool → WalkEvent
  caps_line : Text → WalkEvent
  properties : Text → WalkEvent
  total_line : ℕ → WalkEvent
  limit_line : WalkEvent

abbrev contains_any : Text → List Text → Bool
contains_any s [] = false
contains_any s (p ∷ ps) = contains s p || contains_any s ps

-- Classify element
unfoldable pub tag_of : Seen → Tag
tag_of e =
    if contains_any e.type_name (codes "Audio" ∷ codes "audio" ∷ codes "aac" ∷ codes "Aac" ∷ [])
      || contains_any e.name (codes "audio" ∷ codes "aac" ∷ [])
    then audio
    else if contains_any e.type_name (
          codes "Video"
          ∷ codes "video"
          ∷ codes "h264"
          ∷ codes "H264"
          ∷ codes "h265"
          ∷ codes "H265"
          ∷ codes "Rtp"
          ∷ codes "rtp"
          ∷ [])
        || contains_any e.name (codes "src" ∷ codes "pay" ∷ [])
    then video
    else untagged

abbrev pub caps_taken : Option Text → List WalkEvent
caps_taken none = []
caps_taken (some c) = get_caps ∷ []

abbrev pub caps_shown : Option Text → List WalkEvent
caps_shown none = []
caps_shown (some c) = make_text ∷ caps_line c ∷ free_text ∷ unref_caps ∷ []

-- The loop over the pads ends at the first answer that is not GST_ITERATOR_OK, or with the answers.
unfoldable pub pad_lines : List PadAnswer → List WalkEvent
pad_lines [] = []
pad_lines (pad n linked c ∷ answers) =
    caps_taken c ++ (pad_line n linked ∷ (caps_shown c ++ pad_lines answers))
pad_lines (no_pad ∷ answers) = pad_lines answers
pad_lines (stop ∷ answers) = []

-- One element of dump_audio_video_pipeline.
unfoldable pub visit : ℕ → Seen → List WalkEvent
unfolding pad_lines tag_of
visit n e =
    element_line n (tag_of e) e
    ∷ (elim e.pads [
      | none ↦ []
      | some answers ↦ new_iterator ∷ (pad_lines answers ++ (free_iterator ∷ []))
    ]
        ++ (properties e.name ∷ []))

-- One element of on_periodic_element_dump.
unfoldable pub visit_plain : ℕ → Seen → List WalkEvent
visit_plain n e = element_line n untagged e ∷ properties e.name ∷ []

abbrev pub prepend : List WalkEvent → Option (List WalkEvent) → Option (List WalkEvent)
prepend es none = none
prepend es (some rest) = some (es ++ rest)

-- The loop over the elements, from the first answers of the iterator on and with the elements counted
-- so far. `none`: after these answers the loop still runs.
unfoldable pub walk : (ℕ → Seen → List WalkEvent) → List WalkAnswer → ℕ → Option (List WalkEvent)
walk show [] total = none
walk show (found e ∷ answers) total = prepend (show (total + 1) e) (walk show answers (total + 1))
walk show (no_element ∷ answers) total = walk show answers total
walk show (resync ∷ answers) total = walk show answers total
walk show (finished ∷ answers) total = some (free_iterator ∷ total_line total ∷ [])

-- `none` is a null iterator.
abbrev pub walk_all :
    (ℕ → Seen → List WalkEvent) → Option (List WalkAnswer) → Option (List WalkEvent)
walk_all show none = some []
walk_all show (some answers) = prepend (new_iterator ∷ []) (walk show answers 0)

-- What a dump finds: the names of the cached appsrcs (read where there is one) and the answers of the
-- iterator.
pub record DumpAnswers : Type 0 where
  pub appsrc_name : Text
  pub audio_appsrc_name : Text
  pub elements : Option (List WalkAnswer)

abbrev pub appsrc_lines : Tag → Option ℕ → Text → List WalkEvent
appsrc_lines t none name = appsrc_line t none ∷ []
appsrc_lines t (some x) name = appsrc_line t (some name) ∷ properties name ∷ []

-- The limit on graphs is reported once.
abbrev pub limit_lines : Session → List WalkEvent
limit_lines s =
    if s.flags.pipeline_dot_dump_enable
    then (if next_count s.dot_dump_count == 4 then limit_line ∷ [] else [])
    else []

-- The log of dump_audio_video_pipeline.
unfoldable pub dump_log : Session → DumpAnswers → Option (List WalkEvent)
unfolding next_count
dump_log s a = elim s.handles.full_pipeline [
  | none ↦ some []
  | some p ↦ elim (walk_all visit a.elements) [
    | none ↦ none
    | some es ↦ some (
        appsrc_lines video s.handles.appsrc a.appsrc_name
        ++ (appsrc_lines audio s.handles.audio_appsrc a.audio_appsrc_name ++ (es ++ limit_lines s)))
  ]
]

-- The log of on_periodic_element_dump.
unfoldable pub on_periodic_element_dump :
    Session → Option (List WalkAnswer) → Option (List WalkEvent)
on_periodic_element_dump s elements = elim s.handles.full_pipeline [
  | none ↦ some []
  | some p ↦ walk_all visit_plain elements
]
