-- ===== src/Streamer/Lifetime/Keyframe.antt =====
-- The pending keyframe request over the steps of a lifetime.
use my_stream_out_app.Base.{
  ℕ, ◌≡◌, ◌⊎◌, refl, inl, inr, Bool, true, false, Option, some, List, Option-cases, Bool-cases,
  arith, ◌∙◌, ap,
}
use my_stream_out_app.Base.Int.{ℤ}
use my_stream_out_app.Debug.Dispatch.{Reply}
use my_stream_out_app.Debug.Handlers.{Lookup, perform}
use my_stream_out_app.Streamer.Session.{Session, StreamMode, Ran}
use my_stream_out_app.Streamer.Video.{
  Frame, ByteBuffer, payload, pin_encoder, push_to, push_encoded_buffer,
}
use my_stream_out_app.Streamer.Audio.{Smoothing, stamp_audio, push_audio_to, push_audio_buffer}
use my_stream_out_app.Streamer.Media.{
  MediaBin, has_audio, within, find_video, configure_audio, configure_commit, configure_found,
  on_media_configure, on_media_prepared, on_media_unprepared,
}
use my_stream_out_app.Streamer.Server.{Boot, set_timer, commit, gst_pipeline_init}
use my_stream_out_app.Streamer.Server.Outcomes.{gst_pipeline_init_ind}
use my_stream_out_app.Streamer.Controls.{
  Setting, apply_setting, cb_src_need_data, cb_src_enough_data, cb_audio_need_data,
  cb_audio_enough_data, on_client_connected, on_client_closed, consume_keyframe_request, choose_cpu,
}
use my_stream_out_app.Streamer.Dump.{dump_audio_video_pipeline, dump_pipeline_now}
use my_stream_out_app.Streamer.Stop.{gst_pipeline_destroy, stop_locked, stop_rest}
use my_stream_out_app.Streamer.Play.{
  PlayRequest, Media, on_client_play_request, play_in, play_pipeline, cache_pipeline,
}
use my_stream_out_app.Streamer.Lifetime.{
  Step, init, destroy, configure, prepared, unprepared, play, video, audio, connected, closed,
  consume, setting, need_data, enough_data, audio_need_data, audio_enough_data, cpu, dump, dump_now,
  command,
}

-- Java is waiting to be asked for a key frame.
abbrev pub IsPending : Session → Type 0
IsPending s = s.gates.request_keyframe ≡ true

set_timer-IsPending : (s : Session) (b : Boot) (c : ℕ) → IsPending s → IsPending (set_timer s b c).0
unfolding set_timer
set_timer-IsPending s b c h = ground arith

gst_pipeline_init-IsPending :
    (s : Session) (b : Boot) → IsPending s → IsPending (gst_pipeline_init s b).session
unfolding commit
gst_pipeline_init-IsPending s b h = gst_pipeline_init_ind {P = IsPending} (record {
  same = h;
  timer_set = λ c e. set_timer-IsPending s b c h;
  committed = λ p v l c. set_timer-IsPending s b c h;
})

configure_audio-gates : (s : Session) (m : MediaBin) → (configure_audio s m).0.gates ≡ s.gates
unfolding configure_audio
configure_audio-gates s m = elim (Option-cases (within m.bin2 m.audio)) [
  | inl e ↦ simp (e, configure_audio) refl
  | inr (a, e) ↦ simp (e, configure_audio) refl
]

configure_commit-IsPending :
    (s : Session) (mode : StreamMode) (x : Option ℕ) (m : MediaBin)
    → IsPending (configure_commit s mode x m).0
unfolding configure_commit
configure_commit-IsPending s mode x m = elim (Bool-cases (has_audio mode)) [
  | inl e ↦ simp (e, configure_audio-gates, configure_commit) refl
  | inr e ↦ simp (e, configure_commit) refl
]

on_media_configure-IsPending :
    (s : Session) (m : MediaBin) → IsPending s → IsPending (on_media_configure s m).0
unfolding on_media_configure configure_found
on_media_configure-IsPending s m h = elim (Option-cases m.bin) [
  | inl n ↦ simp (n, on_media_configure) h
  | inr (b, n) ↦ elim (Option-cases (find_video s.format.stream_mode m)) [
    | inl e ↦ simp (n, e, on_media_configure) h
    | inr (x, e) ↦
        simp (n, e, on_media_configure, configure_found)
          (configure_commit-IsPending s s.format.stream_mode x m)
  ]
]

push_encoded_buffer-IsPending :
    (s : Session) (f : Frame) (buf : ByteBuffer) (map_ok : Bool)
    → IsPending s
    → IsPending (push_encoded_buffer s f buf map_ok).0
unfolding push_encoded_buffer push_to pin_encoder
push_encoded_buffer-IsPending s f buf map_ok h = ground arith

push_audio_to-gates :
    (m : Smoothing) (src : ℕ) (s : Session) (bytes : List ℕ) (size : ℕ) (pts_us : ℤ) (r : Ran)
    → push_audio_to m src s bytes size pts_us ≡ some r
    → r.0.gates ≡ s.gates
unfolding push_audio_to
push_audio_to-gates m src s bytes size pts_us r e =
    elim (Option-cases (stamp_audio m s.timeline s.format pts_us size)) [
      | inl n ↦ ground arith
      | inr (st, n) ↦ ground arith
    ]

push_audio_buffer-gates :
    (m : Smoothing) (s : Session) (buf : ByteBuffer) (offset size : ℕ) (pts_us : ℤ) (map_ok : Bool)
    (r : Ran)
    → push_audio_buffer m s buf offset size pts_us map_ok ≡ some r
    → r.0.gates ≡ s.gates
unfolding push_audio_buffer
push_audio_buffer-gates m s buf offset size pts_us map_ok r e =
    elim (Option-cases s.handles.audio_appsrc) [
      | inl n ↦ ground arith
      | inr (src, n) ↦ elim (Option-cases (payload buf offset size)) [
        | inl b ↦ ground arith
        | inr (bytes, b) ↦ ground (arith, push_audio_to-gates m src s bytes size pts_us r)
      ]
    ]

apply_setting-gates : (s : Session) (v : Setting) → (apply_setting s v).gates ≡ s.gates
unfolding apply_setting
apply_setting-gates s v = ground arith

on_client_play_request-gates :
    (s : Session) (q : PlayRequest) (m : Media)
    → (on_client_play_request s q m).session.gates ≡ s.gates
unfolding on_client_play_request play_in play_pipeline cache_pipeline
on_client_play_request-gates s q m = ground arith

perform-IsPending :
    (s : Session) (l : Lookup) (r : Reply) → IsPending s → IsPending (perform s l r).0
unfolding perform dump_pipeline_now dump_audio_video_pipeline
perform-IsPending s l r h = ground arith

-- The step is nativeConsumeKeyframeRequest.
abbrev pub is_consume : {m : Smoothing} {s : Session} {r : Ran} → Step m s r → Bool
is_consume consume = true
is_consume _ = false

-- While a keyframe request is pending, every step that is not nativeConsumeKeyframeRequest leaves it
-- pending, whatever callback or call it is; and nativeConsumeKeyframeRequest then returns true and
-- clears it.
pub Step-IsPending :
    (m : Smoothing) (s : Session) (r : Ran)
    → (step : Step m s r) → IsPending s
    → ((is_consume step ≡ false) × IsPending r.0)
      ⊎ ((is_consume step ≡ true)
          × (consume_keyframe_request s ≡ (r.0, true))
          × (r.0.gates.request_keyframe ≡ false))
unfolding on_client_connected on_client_closed consume_keyframe_request cb_src_need_data
    cb_src_enough_data cb_audio_need_data cb_audio_enough_data on_media_prepared on_media_unprepared
    gst_pipeline_destroy stop_locked stop_rest choose_cpu dump_audio_video_pipeline
    dump_pipeline_now
Step-IsPending m s _ (init b e) h = inl (refl, (gst_pipeline_init-IsPending s b h))
Step-IsPending m s _ (configure bin) h = inl (refl, (on_media_configure-IsPending s bin h))
Step-IsPending m s _ (video f buf map_ok) h =
    inl (refl, (push_encoded_buffer-IsPending s f buf map_ok h))
Step-IsPending m s r (audio buf offset size pts_us map_ok e) h = inl (
  refl,
  (ap (λ g. g.request_keyframe) (push_audio_buffer-gates m s buf offset size pts_us map_ok r e)
      ∙ h),
)
Step-IsPending m s _ (setting v) h =
    inl (refl, (ap (λ g. g.request_keyframe) (apply_setting-gates s v) ∙ h))
Step-IsPending m s _ (play q media e) h =
    inl (refl, (ap (λ g. g.request_keyframe) (on_client_play_request-gates s q media) ∙ h))
Step-IsPending m s _ (cpu n) h = inl (refl, (ground arith))
Step-IsPending m s _ connected h = inl (refl, refl)
Step-IsPending m s _ consume h = inr (refl, ap (λ x. ((consume_keyframe_request s).0, x)) h, refl)
Step-IsPending m s _ destroy h = inl (refl, h)
Step-IsPending m s _ (prepared found) h = inl (refl, h)
Step-IsPending m s _ unprepared h = inl (refl, h)
Step-IsPending m s _ closed h = inl (refl, h)
Step-IsPending m s _ need_data h = inl (refl, h)
Step-IsPending m s _ enough_data h = inl (refl, h)
Step-IsPending m s _ audio_need_data h = inl (refl, h)
Step-IsPending m s _ audio_enough_data h = inl (refl, h)
Step-IsPending m s _ dump h = inl (refl, (ground arith))
Step-IsPending m s _ dump_now h = inl (refl, (ground arith))
Step-IsPending m s _ (command l r) h = inl (refl, (perform-IsPending s l r h))
