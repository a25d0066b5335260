-- ===== src/Streamer/Lifetime/Settled.antt =====
-- What a running server keeps, and what each call leaves of it.
use my_stream_out_app.Base.{
  ℕ, ◌≡◌, ◌⊎◌, refl, inl, inr, true, false, Bool, Option, some, List, arith, Option-cases,
  Bool-cases, ◌∙◌,
}
use my_stream_out_app.Base.Int.{ℤ}
use my_stream_out_app.Streamer.Session.{Session, StreamMode, Ran}
use my_stream_out_app.Streamer.Video.{ByteBuffer, payload}
use my_stream_out_app.Streamer.Audio.{Smoothing, stamp_audio, push_audio_to, push_audio_buffer}
use my_stream_out_app.Streamer.Media.{
  MediaBin, within, find_video, has_audio, on_media_configure, configure_found, configure_commit,
  configure_audio, install_video,
}
use my_stream_out_app.Streamer.Server.{Boot, commit, set_timer, gst_pipeline_init}
use my_stream_out_app.Streamer.Server.Outcomes.{gst_pipeline_init_ind}
use my_stream_out_app.Streamer.Ledger.{Keeps, Conserves}
use my_stream_out_app.Streamer.Ledger.Handlers.{Neutral}
use my_stream_out_app.Streamer.Ledger.Sessions.{IsIdle, gst_pipeline_init-Conserves}

-- A server runs, or nothing is left of one.
abbrev pub IsSettled : Session → Type 0
IsSettled s = ((v : ℕ) × (s.handles.server ≡ some v)) ⊎ IsIdle s

-- All but the dump timer of a server is as it was.
abbrev pub SameServer : Session → Session → Type 0
SameServer s s' =
    (s'.handles.server ≡ s.handles.server)
    × (s'.handles.loop ≡ s.handles.loop)
    × (s'.handles.context ≡ s.handles.context)

-- Either outcome of a start: a server, or the session as it was, but for the timer if the thread could
-- not be created.
abbrev pub Outcome : Session → Boot → Session → Type 0
Outcome s b t =
    ((v : ℕ) × (t.handles.server ≡ some v)) ⊎ (SameServer s t × (b.thread_ok ≡ true → t ≡ s))

pub set_timer-SameServer : (s : Session) (b : Boot) (c : ℕ) → SameServer s (set_timer s b c).0
unfolding set_timer
set_timer-SameServer s b c = ground arith

pub gst_pipeline_init-Outcome :
    (s : Session) (b : Boot) → Outcome s b (gst_pipeline_init s b).session
unfolding commit
gst_pipeline_init-Outcome s b = gst_pipeline_init_ind {P = Outcome s b} (record {
  same = inr ((refl, refl, refl), λ e. refl);
  timer_set = λ c e. inr (set_timer-SameServer s b c, λ q. cc);
  committed = λ p v l c. inl (v, refl);
})

pub IsSettled-Keeps : (s s' : Session) → Keeps s s' → IsSettled s → IsSettled s'
IsSettled-Keeps s s' (a, b, c, d) (inl (v, e)) = inl (v, a ∙ e)
IsSettled-Keeps s s' (a, b, c, d) (inr i) = inr (record {
  no_server = a ∙ i.no_server;
  no_loop = b ∙ i.no_loop;
  no_context = c ∙ i.no_context;
  no_timer = d ∙ i.no_timer;
})

pub gst_pipeline_init-IsSettled :
    (s : Session) (b : Boot)
    → b.thread_ok ≡ true
    → IsSettled s
    → IsSettled (gst_pipeline_init s b).session
gst_pipeline_init-IsSettled s b e h = elim (gst_pipeline_init-Outcome s b) [
  | inl r ↦ inl r
  | inr (k, r) ↦ rw (r e) h
]

pub gst_pipeline_init-keeps_count :
    (o : ℕ) (s : Session) (b : Boot)
    → IsSettled s
    → let r = gst_pipeline_init s b in Conserves o s (r.session, r.effects)
unfolding gst_pipeline_init
gst_pipeline_init-keeps_count o s b (inr i) = gst_pipeline_init-Conserves o s b i
gst_pipeline_init-keeps_count o s b (inl (v, h)) = elim (Option-cases b.pipeline) [
  | inl n ↦ simp (n, gst_pipeline_init) refl
  | inr (p, n) ↦ simp (n, h, gst_pipeline_init) refl
]

install_video-Keeps : (s : Session) (x : Option ℕ) → Keeps s (install_video s x).0
unfolding install_video
install_video-Keeps s x = ground arith

configure_audio-Keeps : (s : Session) (m : MediaBin) → Keeps s (configure_audio s m).0
unfolding configure_audio
configure_audio-Keeps s m = elim (Option-cases (within m.bin2 m.audio)) [
  | inl e ↦ simp (e, configure_audio) (refl, refl, refl, refl)
  | inr (a, e) ↦ simp (e, configure_audio) (refl, refl, refl, refl)
]

pub configure_commit-Keeps :
    (s : Session) (mode : StreamMode) (x : Option ℕ) (m : MediaBin)
    → Keeps s (configure_commit s mode x m).0
unfolding configure_commit
configure_commit-Keeps s mode x m =
    let s1 = (install_video s x).0 in
    let s2 = record s1 {
      gates = record s1.gates { media_prepared = false; need_data = true; request_keyframe = true };
    } in
    let (a, b, c, d) = install_video-Keeps s x in
    let (a', b', c', d') = configure_audio-Keeps s2 m in
    elim (Bool-cases (has_audio mode)) [
      | inl e ↦ simp (e, configure_commit) (a' ∙ a, b' ∙ b, c' ∙ c, d' ∙ d)
      | inr e ↦ simp (e, configure_commit) (a, b, c, d)
    ]

configure_found-Keeps :
    (s : Session) (b : ℕ) (m : MediaBin) (x : Option ℕ) → Keeps s (configure_found s b m x).0
unfolding configure_found
configure_found-Keeps s b m x = configure_commit-Keeps s s.format.stream_mode x m

pub on_media_configure-Keeps : (s : Session) (m : MediaBin) → Keeps s (on_media_configure s m).0
unfolding on_media_configure
on_media_configure-Keeps s m = elim (Option-cases m.bin) [
  | inl n ↦ simp (n, on_media_configure) (refl, refl, refl, refl)
  | inr (b, n) ↦ elim (Option-cases (find_video s.format.stream_mode m)) [
    | inl e ↦ simp (n, e, on_media_configure) (refl, refl, refl, refl)
    | inr (x, e) ↦ simp (n, e, on_media_configure) (configure_found-Keeps s b m x)
  ]
]

push_audio_to-Neutral :
    (o : ℕ) (m : Smoothing) (src : ℕ) (s : Session) (bytes : List ℕ) (size : ℕ) (pts_us : ℤ)
    (r : Ran)
    → push_audio_to m src s bytes size pts_us ≡ some r
    → Neutral o s r
unfolding push_audio_to
push_audio_to-Neutral o m src s bytes size pts_us r e =
    elim (Option-cases (stamp_audio m s.timeline s.format pts_us size)) [
      | inl n ↦ ground arith
      | inr (st, n) ↦ ground arith
    ]

pub push_audio_buffer-Neutral :
    (o : ℕ) (m : Smoothing) (s : Session) (buf : ByteBuffer) (offset size : ℕ) (pts_us : ℤ)
    (map_ok : Bool) (r : Ran)
    → push_audio_buffer m s buf offset size pts_us map_ok ≡ some r
    → Neutral o s r
unfolding push_audio_buffer
push_audio_buffer-Neutral o m s buf offset size pts_us map_ok r e =
    elim (Option-cases s.handles.audio_appsrc) [
      | inl n ↦ ground arith
      | inr (src, n) ↦ elim (Option-cases (payload buf offset size)) [
        | inl b ↦ ground arith
        | inr (bytes, b) ↦ ground (arith, push_audio_to-Neutral o m src s bytes size pts_us r)
      ]
    ]
