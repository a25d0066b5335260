-- ===== src/Streamer/Media.antt =====
-- The media callbacks of app/src/main/cpp/camera2_gst_streamer.cpp: on_media_configure,
-- on_media_prepared and on_media_unprepared. What the lookups in the media bin find is a parameter.
pub mod Reconnect
pub mod Restart
use my_stream_out_app.Base.{
  ℕ, Bool, true, false, ◌||◌, Option, none, some, List, [], ◌∷◌, ◌++◌, if◌then◌else◌,
}
use my_stream_out_app.Base.Text.{Text, codes, str_eq}
use my_stream_out_app.Streamer.Session.{
  Session, Format, Flags, StreamMode, video_only, audio_only, video_and_audio, Caps, video_caps,
  pcm_caps, aac_caps, Effect, gain, unref, give, set_live, set_caps, connect_flow_signals,
  connect_media_signals, set_reusable, set_system_clock, rtcp_fb_probe, opus_probes, opus_reset,
  sync_emission, connect_bus, Ran, no_timeline,
}
use my_stream_out_app.Streamer.Aac.{aac_asc}

-- The answers of the calls that on_media_configure makes: the user bin at its first and second
-- request, and the elements and pads that the lookups by name give (each with a reference).
pub record MediaBin : Type 0 where
  pub bin : Option ℕ
  pub sysclock : ℕ
  pub src : Option ℕ
  pub pay0 : Option (ℕ × Text)
  pub pay0_src_pad : Option ℕ
  pub bin2 : Option ℕ
  pub audio : Option ℕ
  pub aenc : Option ℕ
  pub aenc_sink_pad : Option ℕ
  pub aenc_src_pad : Option ℕ

abbrev pub has_video : StreamMode → Bool
has_video audio_only = false
has_video video_only = true
has_video video_and_audio = true

abbrev pub has_audio : StreamMode → Bool
has_audio video_only = false
has_audio audio_only = true
has_audio video_and_audio = true

-- A reference that is given up if there is one.
abbrev pub release : Option ℕ → List Effect
release none = []
release (some x) = unref x ∷ []

abbrev pub obtain : Option ℕ → List Effect
obtain none = []
obtain (some x) = gain x ∷ []

-- A pad is taken, probed and given back.
abbrev pub on_pad : Option ℕ → (ℕ → Effect) → List Effect
on_pad none e = []
on_pad (some pad) e = gain pad ∷ e pad ∷ unref pad ∷ []

-- The RTCP feedback probe goes on an H.264 or H.265 payloader only.
unfoldable pub rtcp_feedback : Flags → MediaBin → List Effect
rtcp_feedback fl m =
    if fl.enable_rtcp_feedback
    then elim m.pay0 [
      | none ↦ []
      | some (p, name) ↦
          gain p
          ∷ ((if str_eq name (codes "rtph264pay") || str_eq name (codes "rtph265pay")
                then on_pad m.pay0_src_pad rtcp_fb_probe
                else [])
              ++ (unref p ∷ []))
    ]
    else []

abbrev pub audio_caps : Format → Caps
audio_caps f =
    if f.audio_raw_pcm
    then pcm_caps f.audio_sample_rate f.audio_channels
    else aac_caps f.audio_sample_rate f.audio_channels
        (aac_asc f.audio_sample_rate f.audio_channels)

-- if (media_bin2) ... : a lookup in a bin that may be missing
abbrev pub within : Option ℕ → Option ℕ → Option ℕ
within none x = none
within (some b) x = x

unfoldable pub probe_opus : MediaBin → Option ℕ → List Effect
probe_opus m none = []
probe_opus m (some enc) =
    opus_reset ∷ (on_pad m.aenc_sink_pad opus_probes ++ on_pad m.aenc_src_pad opus_probes)

-- The audio half of on_media_configure, under s_lock.
unfoldable pub configure_audio : Session → MediaBin → Ran
unfolding probe_opus
configure_audio s m =
    let found = within m.bin2 m.audio in
    let opus = if s.format.audio_raw_pcm then within m.bin2 m.aenc else none in
    let looked = obtain m.bin2 ++ (obtain found ++ (obtain opus ++ release m.bin2)) in
    elim found [
      | none ↦ (s, looked ++ release opus)
      | some a ↦ (
        record s { handles = record s.handles { audio_appsrc = some a } },
        looked
            ++ (set_live a ∷ set_caps a (audio_caps s.format) ∷ connect_flow_signals a ∷ [])
            ++ (release s.handles.audio_appsrc ++ (probe_opus m opus ++ release opus)),
      )
    ]

-- s_appsrc takes over the reference of a new appsrc.
unfoldable pub install_video : Session → Option ℕ → Ran
install_video s none = (s, [])
install_video s (some v) =
    (record s { handles = record s.handles { appsrc = some v } }, release s.handles.appsrc)

-- From the last `pthread_mutex_lock` on, with the mode and the appsrc found before it.
unfoldable pub configure_commit : Session → StreamMode → Option ℕ → MediaBin → Ran
configure_commit s mode found m =
    let (s1, es1) = install_video s found in
    let s2 = record s1 {
      gates = record s1.gates { media_prepared = false; need_data = true; request_keyframe = true };
    } in
    let (s3, es3) = if has_audio mode then configure_audio s2 m else (s2, []) in
    (s3, es1 ++ (es3 ++ (connect_media_signals ∷ [])))

-- The properties, caps and signals of a video appsrc.
abbrev pub set_up_video : Format → Option ℕ → List Effect
set_up_video f none = []
set_up_video f (some v) =
    set_live v ∷ set_caps v (video_caps f.codec_type) ∷ connect_flow_signals v ∷ []

-- The lookup of the video appsrc; `none` is the early return.
abbrev pub find_video : StreamMode → MediaBin → Option (Option ℕ)
find_video mode m =
    if has_video mode then elim m.src [ none ↦ none | some v ↦ some (some v) ] else some none

-- The pipeline is made to run on the system clock.
abbrev pub force_clock : ℕ → MediaBin → List Effect
force_clock b m = gain b ∷ gain m.sysclock ∷ set_system_clock b ∷ unref m.sysclock ∷ []

-- From the lookup of the video appsrc on.
unfoldable pub configure_found : Session → ℕ → MediaBin → Option ℕ → Ran
configure_found s b m found =
    let mode = s.format.stream_mode in
    let (s', es) = configure_commit s mode found m in
    (
      s',
      force_clock b m
          ++ (obtain found
              ++ ((if has_video mode then rtcp_feedback s.flags m else [])
                  ++ (release (some b)
                      ++ (set_up_video s.format found ++ (set_reusable false ∷ es))))),
    )

unfoldable pub on_media_configure : Session → MediaBin → Ran
on_media_configure s m = elim m.bin [
  | none ↦ (s, [])
  | some b ↦ elim (find_video s.format.stream_mode m) [
    | none ↦ (s, force_clock b m ++ release (some b))
    | some found ↦ configure_found s b m found
  ]
]

-- What on_media_prepared finds: the user bin, its parent with whether that is an element, and the
-- bus of the parent.
pub record PreparedMedia : Type 0 where
  pub user_bin : Option ℕ
  pub parent : Option (ℕ × Bool)
  pub bus : Option ℕ

-- k_details
abbrev pub details : List Text
details =
    codes "sync-message::error"
    ∷ codes "sync-message::warning"
    ∷ codes "sync-message::info"
    ∷ codes "sync-message::latency"
    ∷ codes "sync-message::state-changed"
    ∷ []

-- Each handler's closure takes over a reference to the pipeline.
abbrev connect_each : ℕ → ℕ → List Text → List Effect
connect_each bus p [] = []
connect_each bus p (d ∷ ds) = gain p ∷ connect_bus bus d ∷ give p ∷ connect_each bus p ds

unfoldable pub attach_bus : ℕ → Option ℕ → List Effect
attach_bus p none = []
attach_bus p (some b) = gain b ∷ sync_emission b ∷ (connect_each b p details ++ (unref b ∷ []))

-- The pipeline is the parent of the user bin.
unfoldable pub with_parent : Option (ℕ × Bool) → Option ℕ → List Effect
unfolding attach_bus
with_parent none bus = []
with_parent (some (p, is_element)) bus =
    (if is_element then attach_bus p bus else []) ++ (unref p ∷ [])

abbrev parent_ref : Option (ℕ × Bool) → List Effect
parent_ref none = []
parent_ref (some (p, is_element)) = gain p ∷ []

-- The handler that is connected is on_bus_message, in Streamer/Bus.
unfoldable pub on_media_prepared : Session → PreparedMedia → Ran
unfolding with_parent
on_media_prepared s m = (
  record s { gates = record s.gates { media_prepared = true } },
  elim m.user_bin [
    | none ↦ []
    | some u ↦ gain u ∷ (parent_ref m.parent ++ (unref u ∷ with_parent m.parent m.bus))
  ],
)

unfoldable pub on_media_unprepared : Session → Ran
on_media_unprepared s = (
  record s {
    handles = record s.handles { appsrc = none; audio_appsrc = none; full_pipeline = none };
    gates = record s.gates { need_data = false; audio_need_data = false; media_prepared = false };
    timeline = no_timeline;
  },
  release s.handles.appsrc ++ (release s.handles.audio_appsrc ++ release s.handles.full_pipeline),
)
