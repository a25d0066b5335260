-- ===== src/Debug.antt =====
-- app/src/main/cpp/cam2_streamout_debug.cpp: the debug commands of the camera streamer, one per
-- string. Logging is left out. `double` is a parameter.
pub mod Jni
pub mod Bitrate
pub mod Dispatch
pub mod Handlers
pub mod Tokens
pub mod Line
pub mod Settings
use my_stream_out_app.Base.{
  ℕ, ◌-◌, ◌^◌, Bool, true, false, not, ◌&&◌, ◌||◌, Option, none, some, List, [], ◌∷◌, ◌++◌, ◌==◌,
  ltb, leb, if◌then◌else◌,
}
use my_stream_out_app.Base.Int.{ℤ, pos, negsuc, pos_part, neg_part, is_positive, to_int32}
use my_stream_out_app.Base.Text.{Text, codes, has_prefix, str_case_eq, strtol, toupper}
use my_stream_out_app.Debug.Jni.{Vm, Java, set_int, set_bool, config_summary, JniEvent, call_java}

abbrev pub is_delimiter : ℕ → Bool
is_delimiter c = c == b',' || c == b' '

-- A character in front of the tokens that follow: `open` says whether it joins the first of them.
abbrev pub cons_token : Bool → ℕ → List Text → List Text
cons_token true c (t ∷ ts) = (c ∷ t) ∷ ts
cons_token _ c ts = (c ∷ []) ∷ ts

abbrev pub continues : Text → Bool
continues [] = false
continues (c ∷ s) = not (is_delimiter c)

-- `strtok(s, ", ")` and the calls with NULL that follow it, up to the one that gives NULL.
unfoldable pub tokens : Text → List Text
tokens [] = []
tokens (c ∷ s) =
    let rest = tokens s in if is_delimiter c then rest else cons_token (continues s) c rest

-- jniMock.cpp: upper case up to the first blank.
unfoldable pub local_convert_to_upper : Text → Text
unfolding toupper
local_convert_to_upper [] = []
local_convert_to_upper (c ∷ s) =
    let rest = local_convert_to_upper s in toupper c ∷ (if toupper c == b' ' then s else rest)

pub data Command : Type 0 where
  print_element_property set_category_debug_level inspect_element set_max_bitrate : Command
  set_rtcp_feedback set_prefer_h265 set_stream_mode set_audio_sample_rate : Command
  set_audio_channels set_use_opus set_audio_latency_debug dump_all_config : Command
  dump_pipeline_graph : Command

-- cam2_dbg_names
abbrev pub command_names : List (Text × Command)
command_names =
    (codes "PRINT_ELEMENT_PROPERTY", print_element_property)
    ∷ (codes "SET_CATEGORY_DEBUG_LEVEL", set_category_debug_level)
    ∷ (codes "INSPECT_ELEMENT", inspect_element)
    ∷ (codes "SET_MAX_BITRATE", set_max_bitrate)
    ∷ (codes "SET_RTCP_FEEDBACK", set_rtcp_feedback)
    ∷ (codes "SET_PREFER_H265", set_prefer_h265)
    ∷ (codes "SET_STREAM_MODE", set_stream_mode)
    ∷ (codes "SET_AUDIO_SAMPLE_RATE", set_audio_sample_rate)
    ∷ (codes "SET_AUDIO_CHANNELS", set_audio_channels)
    ∷ (codes "SET_USE_OPUS", set_use_opus)
    ∷ (codes "SET_AUDIO_LATENCY_DEBUG", set_audio_latency_debug)
    ∷ (codes "DUMP_ALL_CONFIG", dump_all_config)
    ∷ (codes "DUMP_PIPELINE_GRAPH", dump_pipeline_graph)
    ∷ []

-- The first entry whose name starts with the text.
unfoldable pub index_in : List (Text × Command) → Text → Option Command
index_in [] name = none
index_in ((n, c) ∷ table) name =
    let rest = index_in table name in if has_prefix n name then some c else rest

-- cam2_streamer_debug_getIndex
unfoldable pub get_index : Text → Option Command
unfolding index_in
get_index name = index_in command_names name

abbrev pub any_case_eq : Text → List Text → Bool
any_case_eq s [] = false
any_case_eq s (t ∷ ts) = str_case_eq s t || any_case_eq s ts

unfoldable pub parse_bool : Text → Option Bool
parse_bool s =
    if any_case_eq s (codes "true" ∷ codes "1" ∷ codes "on" ∷ codes "yes" ∷ [])
    then some true
    else if any_case_eq s (codes "false" ∷ codes "0" ∷ codes "off" ∷ codes "no" ∷ [])
    then some false
    else none

-- `*endPtr == '\0'`
abbrev pub at_end : Text → Bool
at_end [] = true
at_end (c ∷ s) = false

-- The mode before its range is checked.
abbrev pub mode_number : Text → ℤ
mode_number s =
    let (n, rest) = strtol s in
    if at_end rest
    then to_int32 n
    else if any_case_eq s (codes "VIDEO_ONLY" ∷ codes "VIDEO" ∷ [])
    then pos 0
    else if any_case_eq s (codes "AUDIO_ONLY" ∷ codes "AUDIO" ∷ [])
    then pos 1
    else if any_case_eq s (codes "VIDEO_AND_AUDIO_BOTH" ∷ codes "BOTH" ∷ codes "AV" ∷ [])
    then pos 2
    else negsuc 0

-- 0, 1 or 2
abbrev pub in_mode_range : ℤ → Bool
in_mode_range (pos n) = leb n 2
in_mode_range (negsuc n) = false

abbrev pub is_channel_count : ℤ → Bool
is_channel_count (pos n) = n == 1 || n == 2
is_channel_count (negsuc n) = false

-- The calls that a setter makes; on bad input there is none.
unfoldable pub dbg_set_stream_mode : Text → Option Java
dbg_set_stream_mode s =
    let mode = mode_number s in
    if in_mode_range mode then some (set_int (codes "setStreamMode") mode) else none

unfoldable pub dbg_set_audio_sample_rate : Text → Option Java
dbg_set_audio_sample_rate s =
    let (rate, rest) = strtol s in
    if at_end rest && is_positive rate
    then some (set_int (codes "setAudioSampleRate") (to_int32 rate))
    else none

unfoldable pub dbg_set_audio_channels : Text → Option Java
dbg_set_audio_channels s =
    let (ch, rest) = strtol s in
    if at_end rest && is_channel_count ch
    then some (set_int (codes "setAudioChannelCount") (to_int32 ch))
    else none

unfoldable pub dbg_call_bool_setter : Text → Text → Option Java
dbg_call_bool_setter method s = elim (parse_bool s) [
  | none ↦ none
  | some b ↦ some (set_bool method b)
]
