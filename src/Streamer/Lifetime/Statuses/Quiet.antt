-- ===== src/Streamer/Lifetime/Statuses/Quiet.antt =====
-- The calls that Java hears nothing of.
use my_stream_out_app.Base.{
  ℕ, ◌≡◌, refl, inl, inr, Bool, Option, none, some, List, [], arith, Option-cases, if◌then◌else◌,
}
use my_stream_out_app.Base.Int.{ℤ}
use my_stream_out_app.Debug.Dispatch.{Reply}
use my_stream_out_app.Debug.Handlers.{Lookup, perform, dbg_print_element_property}
use my_stream_out_app.Streamer.Session.{
  Session, Flags, Format, StreamMode, video_only, audio_only, Effect, Ran,
}
use my_stream_out_app.Streamer.Video.{
  Frame, ByteBuffer, payload, pin_encoder, push_to, push_encoded_buffer,
}
use my_stream_out_app.Streamer.Audio.{Smoothing, stamp_audio, push_audio_to, push_audio_buffer}
use my_stream_out_app.Streamer.Media.{
  MediaBin, PreparedMedia, release, obtain, within, has_video, find_video, rtcp_feedback,
  probe_opus, configure_audio, install_video, configure_commit, configure_found, set_up_video,
  on_media_configure, on_media_prepared, on_media_unprepared, with_parent, attach_bus,
}
use my_stream_out_app.Streamer.Play.{
  PlayRequest, Media, cache_pipeline, play_pipeline, play_in, on_client_play_request,
}
use my_stream_out_app.Streamer.Dump.{dump_audio_video_pipeline, dump_pipeline_now}
use my_stream_out_app.Streamer.Controls.{choose_cpu}
use my_stream_out_app.Streamer.Reports.Ready.{statuses, statuses-append}
use my_stream_out_app.Streamer.Lifetime.Statuses.{IsSilent}

-- Calls that report nothing.
abbrev pub Quiet : List Effect → Type 0
Quiet es = statuses es ≡ []

Quiet-release : (x : Option ℕ) → Quiet (release x)
Quiet-release x = ground arith

Quiet-obtain : (x : Option ℕ) → Quiet (obtain x)
Quiet-obtain x = ground arith

Quiet-probe_opus : (m : MediaBin) (x : Option ℕ) → Quiet (probe_opus m x)
unfolding probe_opus
Quiet-probe_opus m x = ground arith

Quiet-rtcp_feedback : (fl : Flags) (m : MediaBin) → Quiet (rtcp_feedback fl m)
unfolding rtcp_feedback
Quiet-rtcp_feedback fl m = ground arith

Quiet-set_up_video : (f : Format) (x : Option ℕ) → Quiet (set_up_video f x)
Quiet-set_up_video f x = ground arith

Quiet-install_video : (s : Session) (x : Option ℕ) → Quiet (install_video s x).1
unfolding install_video
Quiet-install_video s none = refl
Quiet-install_video s (some v) = Quiet-release s.handles.appsrc

ruleset quiet = (
  statuses-append, Quiet-release, Quiet-obtain, Quiet-probe_opus, Quiet-rtcp_feedback,
  Quiet-set_up_video, Quiet-install_video,
)

Quiet-configure_audio : (s : Session) (m : MediaBin) → Quiet (configure_audio s m).1
unfolding configure_audio
Quiet-configure_audio s m = elim (Option-cases (within m.bin2 m.audio)) [
  | inl e ↦ rw (e, configure_audio) (simp quiet refl)
  | inr (a, e) ↦ rw (e, configure_audio) (simp quiet refl)
]

Quiet-configure_commit :
    (s : Session) (mode : StreamMode) (x : Option ℕ) (m : MediaBin)
    → Quiet (configure_commit s mode x m).1
unfolding configure_commit
Quiet-configure_commit s video_only x m = simp quiet refl
Quiet-configure_commit s mode x m = simp (quiet, Quiet-configure_audio) refl

Quiet-feedback_if :
    (mode : StreamMode) (fl : Flags) (m : MediaBin)
    → Quiet (if has_video mode then rtcp_feedback fl m else [])
Quiet-feedback_if audio_only fl m = refl
Quiet-feedback_if mode fl m = Quiet-rtcp_feedback fl m

Quiet-configure_found :
    (s : Session) (b : ℕ) (m : MediaBin) (x : Option ℕ) → Quiet (configure_found s b m x).1
unfolding configure_found
Quiet-configure_found s b m x = simp (quiet, Quiet-configure_commit, Quiet-feedback_if) refl

pub Quiet-on_media_configure : (s : Session) (m : MediaBin) → Quiet (on_media_configure s m).1
unfolding on_media_configure
Quiet-on_media_configure s m = elim (Option-cases m.bin) [
  | inl n ↦ simp (n, on_media_configure) refl
  | inr (b, n) ↦ elim (Option-cases (find_video s.format.stream_mode m)) [
    | inl e ↦ simp (n, e, on_media_configure) refl
    | inr (x, e) ↦ simp (n, e, on_media_configure) (Quiet-configure_found s b m x)
  ]
]

pub on_media_prepared-IsSilent :
    (s : Session) (m : PreparedMedia) → IsSilent s (on_media_prepared s m)
unfolding on_media_prepared with_parent attach_bus
on_media_prepared-IsSilent s m = ground arith

pub on_media_unprepared-IsSilent : (s : Session) → IsSilent s (on_media_unprepared s)
unfolding on_media_unprepared
on_media_unprepared-IsSilent s = (simp quiet refl, refl)

pub play-IsSilent :
    (s : Session) (q : PlayRequest) (media : Media)
    → let r = on_client_play_request s q media in IsSilent s (r.session, r.effects)
unfolding on_client_play_request play_in play_pipeline cache_pipeline
play-IsSilent s q media = ground arith

pub video-IsSilent :
    (s : Session) (f : Frame) (buf : ByteBuffer) (map_ok : Bool)
    → IsSilent s (push_encoded_buffer s f buf map_ok)
unfolding push_encoded_buffer push_to pin_encoder
video-IsSilent s f buf map_ok = ground arith

pub audio_to-IsSilent :
    (m : Smoothing) (src : ℕ) (s : Session) (bytes : List ℕ) (size : ℕ) (pts_us : ℤ) (r : Ran)
    → push_audio_to m src s bytes size pts_us ≡ some r
    → IsSilent s r
unfolding push_audio_to
audio_to-IsSilent m src s bytes size pts_us r e =
    elim (Option-cases (stamp_audio m s.timeline s.format pts_us size)) [
      | inl n ↦ ground arith
      | inr (st, n) ↦ ground arith
    ]

pub audio-IsSilent :
    (m : Smoothing) (s : Session) (buf : ByteBuffer) (offset size : ℕ) (pts_us : ℤ) (map_ok : Bool)
    (r : Ran)
    → push_audio_buffer m s buf offset size pts_us map_ok ≡ some r
    → IsSilent s r
unfolding push_audio_buffer
audio-IsSilent m s buf offset size pts_us map_ok r e = elim (Option-cases s.handles.audio_appsrc) [
  | inl n ↦ ground arith
  | inr (src, n) ↦ elim (Option-cases (payload buf offset size)) [
    | inl b ↦ ground arith
    | inr (bytes, b) ↦ ground (arith, audio_to-IsSilent m src s bytes size pts_us r)
  ]
]

pub perform-IsSilent : (s : Session) (l : Lookup) (r : Reply) → IsSilent s (perform s l r)
unfolding perform dbg_print_element_property dump_pipeline_now dump_audio_video_pipeline
perform-IsSilent s l r = ground arith

pub dump-IsSilent : (s : Session) → IsSilent s (dump_audio_video_pipeline s)
unfolding dump_audio_video_pipeline
dump-IsSilent s = ground arith

pub dump_now-IsSilent : (s : Session) → IsSilent s (dump_pipeline_now s)
unfolding dump_pipeline_now dump_audio_video_pipeline
dump_now-IsSilent s = ground arith

pub choose_cpu-IsSilent : (s : Session) (n : ℕ) → IsSilent s (choose_cpu s n)
unfolding choose_cpu
choose_cpu-IsSilent s n = ground arith
