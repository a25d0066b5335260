-- ===== src/Streamer/Session.antt =====
-- The module-level state of app/src/main/cpp/camera2_gst_streamer.cpp, and the calls of GStreamer,
-- GLib, the kernel and Java that its functions make, as a list of effects in call order. Handles are
-- numbers; a null pointer is `none`.
use my_stream_out_app.Base.{ℕ, ◌-◌, ◌^◌, Bool, true, false, Option, none, List}
use my_stream_out_app.Base.Int.{ℤ, pos}
use my_stream_out_app.Base.Text.{Text, codes}

-- GST_CLOCK_TIME_NONE
abbrev pub clock_time_none : ℕ
clock_time_none = 2 ^ 64 - 1

pub data CodecType : Type 0 where
  h264 h265 : CodecType

pub data StreamMode : Type 0 where
  video_only audio_only video_and_audio : StreamMode

-- Cam2Streamer_status_enum
pub data StreamStatus : Type 0 where
  unspecified ready client_connected stopped : StreamStatus

-- The pointers that own a reference, and the loop thread.
pub record Handles : Type 0 where
  pub server : Option ℕ
  pub loop : Option ℕ
  pub context : Option ℕ
  pub periodic_source : Option ℕ
  pub full_pipeline : Option ℕ
  pub appsrc : Option ℕ
  pub audio_appsrc : Option ℕ
  pub loop_tid_valid : Bool

-- Flow control and the pending keyframe request.
pub record Gates : Type 0 where
  pub need_data : Bool
  pub audio_need_data : Bool
  pub media_prepared : Bool
  pub request_keyframe : Bool

-- The clock of the current session, in nanoseconds, with `clock_time_none` for "not set".
pub record Timeline : Type 0 where
  pub pts_base : ℕ
  pub last_video_pts_ns : ℕ
  pub av_offset_ema : ℕ
  pub video_push_count : ℕ
  pub audio_push_count : ℕ

-- What `nativeGstPipelineInit` reads off the pipeline text.
pub record Format : Type 0 where
  pub codec_type : CodecType
  pub stream_mode : StreamMode
  pub audio_sample_rate : ℤ
  pub audio_channels : ℤ
  pub audio_raw_pcm : Bool

-- The runtime feature flags.
pub record Flags : Type 0 where
  pub cpu_affinity_enable : Bool
  pub tcp_no_delay : Bool
  pub so_sndbuf_size : ℤ
  pub tcp_notsent_lowat : ℤ
  pub ip_tos_dscp_ef : Bool
  pub h26x_parse_enable : Bool
  pub rtpbin_buffer_mode_none : Bool
  pub periodic_dump_enable : Bool
  pub pipeline_dump_interval_seconds : ℕ
  pub pipeline_dot_dump_enable : Bool
  pub pipeline_dot_output_dir : Text
  pub enable_rtcp_feedback : Bool

-- `perf_cpu` is `none` for -1.
pub record Session : Type 0 where
  pub handles : Handles
  pub gates : Gates
  pub timeline : Timeline
  pub format : Format
  pub flags : Flags
  pub client_count : ℕ
  pub perf_cpu : Option ℕ
  pub encoder_pinned : Bool
  pub dot_dump_count : ℕ

abbrev pub no_handles : Handles
no_handles = record {
  server = none;
  loop = none;
  context = none;
  periodic_source = none;
  full_pipeline = none;
  appsrc = none;
  audio_appsrc = none;
  loop_tid_valid = false;
}

abbrev pub no_timeline : Timeline
no_timeline = record {
  pts_base = clock_time_none;
  last_video_pts_ns = clock_time_none;
  av_offset_ema = clock_time_none;
  video_push_count = 0;
  audio_push_count = 0;
}

-- The initialisers of the static variables.
abbrev pub initial : Session
initial = record {
  handles = no_handles;
  gates = record {
    need_data = true;
    audio_need_data = true;
    media_prepared = false;
    request_keyframe = false;
  };
  timeline = no_timeline;
  format = record {
    codec_type = h264;
    stream_mode = video_and_audio;
    audio_sample_rate = pos 44100;
    audio_channels = pos 1;
    audio_raw_pcm = false;
  };
  flags = record {
    cpu_affinity_enable = false;
    tcp_no_delay = false;
    so_sndbuf_size = pos 0;
    tcp_notsent_lowat = pos 0;
    ip_tos_dscp_ef = false;
    h26x_parse_enable = false;
    rtpbin_buffer_mode_none = true;
    periodic_dump_enable = false;
    pipeline_dump_interval_seconds = 30;
    pipeline_dot_dump_enable = false;
    pipeline_dot_output_dir = codes "/data/user/0/com.crestron.streamout/files/";
    enable_rtcp_feedback = false;
  };
  client_count = 0;
  perf_cpu = none;
  encoder_pinned = false;
  dot_dump_count = 0;
}

-- What a GstBuffer carries when it is pushed.
pub record Buffer : Type 0 where
  pub bytes : List ℕ
  pub pts : ℕ
  pub duration : ℕ
  pub delta_unit : Bool

-- The caps that are put on an appsrc.
pub data Caps : Type 0 where
  video_caps : CodecType → Caps
  pcm_caps : ℤ → ℤ → Caps
  aac_caps : ℤ → ℤ → List ℕ → Caps

-- `gain`: a call hands the caller a reference. `unref`: the caller gives one up. `give`: a call
-- takes the caller's reference over.
pub data Effect : Type 0 where
  gain unref give : ℕ → Effect
  end_of_stream : ℕ → Effect
  push : ℕ → Buffer → Effect
  set_live : ℕ → Effect
  set_caps : ℕ → Caps → Effect
  connect_flow_signals : ℕ → Effect
  connect_media_signals connect_client_signals : Effect
  set_reusable : Bool → Effect
  set_system_clock : ℕ → Effect
  rtcp_fb_probe : ℕ → Effect
  opus_probes : ℕ → Effect
  opus_reset : Effect
  sync_emission : ℕ → Effect
  connect_bus : ℕ → Text → Effect
  recalculate_latency : ℕ → Effect
  pin_thread : ℕ → Effect
  set_service : ℤ → Effect
  factory_launch : ℕ → Text → Effect
  factory_media_type : ℕ → Effect
  factory_avpf_only : ℕ → Effect
  factory_defaults : ℕ → Effect
  timer : ℕ → ℕ → Effect
  attach_source : ℕ → ℕ → Effect
  destroy_source : ℕ → Effect
  quit_loop : ℕ → Effect
  start_loop_thread : ℕ → Effect
  join_loop_thread : Effect
  status : StreamStatus → Effect

-- A function's new state and the calls that it made.
abbrev pub Ran : Type 0
Ran = Session × List Effect
