-- ===== src/Streamer/Ledger/Handlers.antt =====
-- The references over each callback and JNI call, the start and the play request apart.
use my_stream_out_app.Base.{
  ℕ, ◌+◌, ◌≡◌, refl, Bool, true, false, Option, none, some, List, [], ◌++◌, arith, ◌∙◌, inl, inr,
  Option-cases, if◌then◌else◌, ap,
}
use my_stream_out_app.Streamer.Session.{
  Session, Flags, Format, StreamMode, video_only, audio_only, Effect, Ran,
}
use my_stream_out_app.Streamer.Video.{Frame, ByteBuffer, pin_encoder, push_to, push_encoded_buffer}
use my_stream_out_app.Streamer.Media.{
  MediaBin, PreparedMedia, release, obtain, within, has_video, find_video, rtcp_feedback,
  probe_opus, configure_audio, install_video, configure_commit, configure_found, set_up_video,
  on_media_configure, on_media_prepared, on_media_unprepared, with_parent, attach_bus,
}
use my_stream_out_app.Streamer.Stop.{gst_pipeline_destroy, stop_locked, stop_rest}
use my_stream_out_app.Streamer.Ledger.{
  holds, gained, used_up, owns, Conserves, gained-append, used_up-append,
}

pub on_media_prepared-Conserves :
    (o : ℕ) (s : Session) (m : PreparedMedia) → Conserves o s (on_media_prepared s m)
unfolding on_media_prepared with_parent attach_bus
on_media_prepared-Conserves o s m = ground arith

pub on_media_unprepared-Conserves : (o : ℕ) (s : Session) → Conserves o s (on_media_unprepared s)
unfolding on_media_unprepared
on_media_unprepared-Conserves o s = ground arith

pub gst_pipeline_destroy-Conserves : (o : ℕ) (s : Session) → Conserves o s (gst_pipeline_destroy s)
unfolding gst_pipeline_destroy stop_locked stop_rest
gst_pipeline_destroy-Conserves o s = ground arith

-- A part of a call that takes no reference and gives none up.
abbrev pub Neutral : ℕ → Session → Ran → Type 0
Neutral o s (s', es) = (s'.handles ≡ s.handles) × (gained o es ≡ 0) × (used_up o es ≡ 0)

pin_encoder-Neutral : (o : ℕ) (s : Session) → Neutral o s (pin_encoder s)
unfolding pin_encoder
pin_encoder-Neutral o s = ground arith

push_to-Neutral :
    (o src : ℕ) (s : Session) (f : Frame) (buf : ByteBuffer) (map_ok : Bool)
    → Neutral o s (push_to src s f buf map_ok)
unfolding push_to
push_to-Neutral o src s f buf map_ok = ground arith

push_both-Neutral :
    (o src : ℕ) (s : Session) (f : Frame) (buf : ByteBuffer) (map_ok : Bool)
    → let (s1, es) = pin_encoder s in
      let (s2, es') = push_to src s1 f buf map_ok in Neutral o s (s2, es ++ es')
push_both-Neutral o src s f buf map_ok =
    let s1 = (pin_encoder s).0 in
    let es = (pin_encoder s).1 in
    let es' = (push_to src s1 f buf map_ok).1 in
    let a = pin_encoder-Neutral o s in
    let b = push_to-Neutral o src s1 f buf map_ok in
    (
      b.0 ∙ a.0,
      omega (arith, gained-append o es es', a.1, b.1),
      omega (arith, used_up-append o es es', a.2, b.2),
    )

pub Neutral→Conserves : (o : ℕ) (s : Session) (r : Ran) → Neutral o s r → Conserves o s r
Neutral→Conserves o s (s', es) (h, g, u) = rw (h, g, u) refl

pub push_encoded_buffer-Neutral :
    (o : ℕ) (s : Session) (f : Frame) (buf : ByteBuffer) (map_ok : Bool)
    → Neutral o s (push_encoded_buffer s f buf map_ok)
unfolding push_encoded_buffer
push_encoded_buffer-Neutral o s f buf map_ok = elim (Option-cases s.handles.appsrc) [
  | inl e ↦ simp (e, push_encoded_buffer) (refl, refl, refl)
  | inr (src, e) ↦ simp (e, push_encoded_buffer) (push_both-Neutral o src s f buf map_ok)
]

pub push_encoded_buffer-Conserves :
    (o : ℕ) (s : Session) (f : Frame) (buf : ByteBuffer) (map_ok : Bool)
    → Conserves o s (push_encoded_buffer s f buf map_ok)
push_encoded_buffer-Conserves o s f buf map_ok =
    Neutral→Conserves o s (push_encoded_buffer s f buf map_ok)
      (push_encoded_buffer-Neutral o s f buf map_ok)

-- References that are taken and given back.
abbrev pub IsBalanced : ℕ → List Effect → Type 0
IsBalanced o es = gained o es ≡ used_up o es

probe_opus-IsBalanced : (o : ℕ) (m : MediaBin) (x : Option ℕ) → IsBalanced o (probe_opus m x)
unfolding probe_opus
probe_opus-IsBalanced o m x = ground arith

rtcp_feedback-IsBalanced : (o : ℕ) (fl : Flags) (m : MediaBin) → IsBalanced o (rtcp_feedback fl m)
unfolding rtcp_feedback
rtcp_feedback-IsBalanced o fl m = ground arith

pub gained-release : (o : ℕ) (x : Option ℕ) → gained o (release x) ≡ 0
gained-release o x = ground arith

pub used_up-release : (o : ℕ) (x : Option ℕ) → used_up o (release x) ≡ owns o x
used_up-release o x = ground arith

pub gained-obtain : (o : ℕ) (x : Option ℕ) → gained o (obtain x) ≡ owns o x
gained-obtain o x = ground arith

pub used_up-obtain : (o : ℕ) (x : Option ℕ) → used_up o (obtain x) ≡ 0
used_up-obtain o x = ground arith

pub ruleset counts =
    (gained-append, used_up-append, gained-release, used_up-release, gained-obtain, used_up-obtain)

configure_audio-Conserves :
    (o : ℕ) (s : Session) (m : MediaBin) → Conserves o s (configure_audio s m)
unfolding configure_audio
configure_audio-Conserves o s m = elim (Option-cases (within m.bin2 m.audio)) [
  | inl e ↦ rw (e, configure_audio) (simp counts (omega (arith, ap (owns o) e)))
  | inr (a, e) ↦
      rw (e, configure_audio)
        (simp counts (
          omega (
            arith,
            ap (owns o) e,
            probe_opus-IsBalanced o m
                (if s.format.audio_raw_pcm then within m.bin2 m.aenc else none),
          )))
]

-- A call that also takes over one reference of its caller.
abbrev pub Consumes : ℕ → Option ℕ → Session → Ran → Type 0
Consumes o x s (s', es) =
    holds o s.handles + (gained o es + owns o x) ≡ holds o s'.handles + used_up o es

install_video-Consumes : (o : ℕ) (s : Session) (x : Option ℕ) → Consumes o x s (install_video s x)
unfolding install_video
install_video-Consumes o s none = omega arith
install_video-Consumes o s (some v) = simp counts (omega arith)

pub configure_commit-Consumes :
    (o : ℕ) (s : Session) (mode : StreamMode) (x : Option ℕ) (m : MediaBin)
    → Consumes o x s (configure_commit s mode x m)
unfolding configure_commit
configure_commit-Consumes o s video_only x m =
    simp counts (omega (arith, install_video-Consumes o s x))
configure_commit-Consumes o s mode x m =
    let s1 = (install_video s x).0 in
    let s2 = record s1 {
      gates = record s1.gates { media_prepared = false; need_data = true; request_keyframe = true };
    } in
    simp counts (omega (arith, install_video-Consumes o s x, configure_audio-Conserves o s2 m))

pub rtcp_feedback_if-IsBalanced :
    (o : ℕ) (mode : StreamMode) (fl : Flags) (m : MediaBin)
    → IsBalanced o (if has_video mode then rtcp_feedback fl m else [])
rtcp_feedback_if-IsBalanced o audio_only fl m = refl
rtcp_feedback_if-IsBalanced o mode fl m = rtcp_feedback-IsBalanced o fl m

pub set_up_video-Neutral :
    (o : ℕ) (f : Format) (x : Option ℕ)
    → (gained o (set_up_video f x) ≡ 0) × (used_up o (set_up_video f x) ≡ 0)
set_up_video-Neutral o f x = ground arith

configure_found-Conserves :
    (o : ℕ) (s : Session) (b : ℕ) (m : MediaBin) (x : Option ℕ)
    → Conserves o s (configure_found s b m x)
unfolding configure_found
configure_found-Conserves o s b m x = simp counts (
    omega (
      arith,
      configure_commit-Consumes o s s.format.stream_mode x m,
      rtcp_feedback_if-IsBalanced o s.format.stream_mode s.flags m,
      set_up_video-Neutral o s.format x,
    ))

pub on_media_configure-Conserves :
    (o : ℕ) (s : Session) (m : MediaBin) → Conserves o s (on_media_configure s m)
unfolding on_media_configure
on_media_configure-Conserves o s m = elim (Option-cases m.bin) [
  | inl n ↦ simp (n, on_media_configure) (omega arith)
  | inr (b, n) ↦ elim (Option-cases (find_video s.format.stream_mode m)) [
    | inl e ↦ simp (n, e, on_media_configure) (omega arith)
    | inr (x, e) ↦ simp (n, e, on_media_configure) (configure_found-Conserves o s b m x)
  ]
]
