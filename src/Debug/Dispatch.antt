-- ===== src/Debug/Dispatch.antt =====
-- cam2_streamer_debug of app/src/main/cpp/cam2_streamout_debug.cpp: what one command string does.
use my_stream_out_app.Base.{Bool, Option, none, some, List, [], ◌∷◌}
use my_stream_out_app.Base.Int.{ℤ}
use my_stream_out_app.Base.Text.{Text, codes, atoi}
use my_stream_out_app.Debug.Jni.{Java, config_summary}
use my_stream_out_app.Debug.Bitrate.{Floating, dbg_set_max_bitrate}
use my_stream_out_app.Debug.{
  Command, print_element_property, set_category_debug_level, inspect_element, set_max_bitrate,
  set_rtcp_feedback, set_prefer_h265, set_stream_mode, set_audio_sample_rate, set_audio_channels,
  set_use_opus, set_audio_latency_debug, dump_all_config, dump_pipeline_graph, tokens,
  local_convert_to_upper, get_index, parse_bool, dbg_set_stream_mode, dbg_set_audio_sample_rate,
  dbg_set_audio_channels, dbg_call_bool_setter,
}

-- What a command does. `rejected` only logs; `audio_latency` sets the native flag, too.
pub data Reply : Type 0 where
  help rejected dump_graph : Reply
  print_element inspect : Text → Reply
  category_level : Text → ℤ → Reply
  java : Java → Reply
  audio_latency : Bool → Java → Reply

abbrev pub to_java : Option Java → Reply
to_java none = rejected
to_java (some j) = java j

-- A handler that gets the next token, which may be missing.
abbrev pub with_token : List Text → (Text → Reply) → Reply
with_token [] k = rejected
with_token (t ∷ ts) k = k t

abbrev pub category : List Text → Reply
category (name ∷ (level ∷ rest)) = category_level name (atoi level)
category _ = rejected

abbrev pub latency : Text → Reply
latency s = elim (dbg_call_bool_setter (codes "setAudioLatencyDebug") s) [
  | none ↦ rejected
  | some j ↦ elim (parse_bool s) [ none ↦ rejected | some b ↦ audio_latency b j ]
]

unfoldable pub dispatch : Floating → Command → List Text → Reply
dispatch F print_element_property args = with_token args print_element
dispatch F set_category_debug_level args = category args
dispatch F inspect_element args = with_token args inspect
dispatch F set_max_bitrate args = with_token args λ s. to_java (dbg_set_max_bitrate F s)
dispatch F set_rtcp_feedback args =
    with_token args λ s. to_java (dbg_call_bool_setter (codes "setRtcpFeedback") s)
dispatch F set_prefer_h265 args =
    with_token args λ s. to_java (dbg_call_bool_setter (codes "setPreferH265") s)
dispatch F set_stream_mode args = with_token args λ s. to_java (dbg_set_stream_mode s)
dispatch F set_audio_sample_rate args = with_token args λ s. to_java (dbg_set_audio_sample_rate s)
dispatch F set_audio_channels args = with_token args λ s. to_java (dbg_set_audio_channels s)
dispatch F set_use_opus args =
    with_token args λ s. to_java (dbg_call_bool_setter (codes "setUseOpus") s)
dispatch F set_audio_latency_debug args = with_token args latency
dispatch F dump_all_config args = java config_summary
dispatch F dump_pipeline_graph args = dump_graph

-- A text that names no command gets the help.
abbrev pub reply_to : Floating → Option Command → List Text → Reply
reply_to F none args = help
reply_to F (some c) args = dispatch F c args

-- The first token is a prefix that is skipped.
abbrev pub run_tokens : Floating → List Text → Reply
run_tokens F (first ∷ tok ∷ args) = reply_to F (get_index (local_convert_to_upper tok)) args
run_tokens F _ = help

unfoldable pub streamer_debug : Floating → Text → Reply
unfolding tokens local_convert_to_upper get_index dispatch
streamer_debug F cmd = run_tokens F (tokens cmd)

-- jniRtspServerDebug of app/src/main/cpp/streamout.cpp: the characters are copied; without any, an
-- empty command runs.
unfoldable pub jni_rtsp_server_debug : Floating → Option Text → Reply
unfolding streamer_debug
jni_rtsp_server_debug F none = streamer_debug F []
jni_rtsp_server_debug F (some cmd) = streamer_debug F cmd
