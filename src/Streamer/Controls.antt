-- ===== src/Streamer/Controls.antt =====
-- The short callbacks and JNI calls of app/src/main/cpp/camera2_gst_streamer.cpp: appsrc flow
-- control, clients that come and go, the keyframe request, and the feature flags.
use my_stream_out_app.Base.{
  ℕ, ◌+◌, ◌-◌, Bool, true, false, Option, none, some, [], ◌∷◌, ltb, if◌then◌else◌, take,
}
use my_stream_out_app.Base.Int.{ℤ, pos_part, is_positive}
use my_stream_out_app.Base.Text.{Text}
use my_stream_out_app.Streamer.Session.{
  Session, pin_thread, status, client_connected, connect_client_signals, Ran,
}

unfoldable pub cb_src_need_data : Session → Session
cb_src_need_data s = record s { gates = record s.gates { need_data = true } }

unfoldable pub cb_src_enough_data : Session → Session
cb_src_enough_data s = record s { gates = record s.gates { need_data = false } }

unfoldable pub cb_audio_need_data : Session → Session
cb_audio_need_data s = record s { gates = record s.gates { audio_need_data = true } }

unfoldable pub cb_audio_enough_data : Session → Session
cb_audio_enough_data s = record s { gates = record s.gates { audio_need_data = false } }

-- The socket options are compiled out (USE_RTSP_LOWER_TRANS_TCP_ONLY is not defined).
unfoldable pub on_client_connected : Session → Ran
on_client_connected s = (
  record s {
    gates = record s.gates { request_keyframe = true };
    client_count = s.client_count + 1;
  },
  status client_connected ∷ connect_client_signals ∷ [],
)

unfoldable pub on_client_closed : Session → Session
on_client_closed s = record s {
  client_count = if ltb 0 s.client_count then s.client_count - 1 else s.client_count;
}

unfoldable pub consume_keyframe_request : Session → Session × Bool
consume_keyframe_request s =
    (record s { gates = record s.gates { request_keyframe = false } }, s.gates.request_keyframe)

-- nativeSet...(): one call for each feature flag. A directory is `none` when its characters cannot be
-- read.
pub data Setting : Type 0 where
  cpu_affinity_enable tcp_no_delay ip_tos_dscp_ef h26x_parse_enable : Bool → Setting
  rtpbin_buffer_mode_none periodic_dump_enable rtcp_feedback : Bool → Setting
  pipeline_dot_dump_enable : Bool → Setting
  so_sndbuf_size tcp_notsent_lowat pipeline_dump_interval : ℤ → Setting
  pipeline_dot_output_dir : Option Text → Setting

-- snprintf into a buffer of 512 bytes
abbrev pub dir_capacity : ℕ
dir_capacity = 512

-- Turning CPU affinity off also forgets the chosen core.
abbrev pub set_cpu_affinity : Session → Bool → Session
set_cpu_affinity s true = record s { flags = record s.flags { cpu_affinity_enable = true } }
set_cpu_affinity s false = record s {
  flags = record s.flags { cpu_affinity_enable = false };
  encoder_pinned = false;
  perf_cpu = none;
}

unfoldable pub apply_setting : Session → Setting → Session
apply_setting s (cpu_affinity_enable v) = set_cpu_affinity s v
apply_setting s (tcp_no_delay v) = record s { flags = record s.flags { tcp_no_delay = v } }
apply_setting s (ip_tos_dscp_ef v) = record s { flags = record s.flags { ip_tos_dscp_ef = v } }
apply_setting s (h26x_parse_enable v) = record s {
  flags = record s.flags { h26x_parse_enable = v };
}
apply_setting s (rtpbin_buffer_mode_none v) = record s {
  flags = record s.flags { rtpbin_buffer_mode_none = v };
}
apply_setting s (periodic_dump_enable v) = record s {
  flags = record s.flags { periodic_dump_enable = v };
}
apply_setting s (rtcp_feedback v) = record s { flags = record s.flags { enable_rtcp_feedback = v } }
apply_setting s (pipeline_dot_dump_enable v) = record s {
  flags = record s.flags { pipeline_dot_dump_enable = v };
}
apply_setting s (so_sndbuf_size n) = record s { flags = record s.flags { so_sndbuf_size = n } }
apply_setting s (tcp_notsent_lowat n) = record s {
  flags = record s.flags { tcp_notsent_lowat = n };
}
apply_setting s (pipeline_dump_interval n) = record s {
  flags = record s.flags {
    pipeline_dump_interval_seconds = if is_positive n then pos_part n else 30;
  };
}
apply_setting s (pipeline_dot_output_dir none) = s
apply_setting s (pipeline_dot_output_dir (some d)) = record s {
  flags = record s.flags { pipeline_dot_output_dir = take (dir_capacity - 1) d };
}

-- loop_thread_fn, up to the main loop: the core that the threads are pinned to.
unfoldable pub choose_cpu : Session → ℕ → Ran
choose_cpu s cpu =
    if s.flags.cpu_affinity_enable
    then (record s { perf_cpu = some cpu }, pin_thread cpu ∷ [])
    else (s, [])
