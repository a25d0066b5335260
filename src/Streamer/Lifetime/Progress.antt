-- ===== src/Streamer/Lifetime/Progress.antt =====
-- That frames get through: in every state in which a media stays configured, and again from any state
-- whatever.
use my_stream_out_app.Base.{
  ℕ, ◌≡◌, refl, ap, ◌∙◌, Bool, true, false, ◌||◌, none, some, List, [], ◌∷◌, arith, if◌then◌else◌,
}
use my_stream_out_app.Base.Text.{Text}
use my_stream_out_app.Debug.Dispatch.{Reply}
use my_stream_out_app.Debug.Handlers.{Lookup, perform, dbg_print_element_property}
use my_stream_out_app.Streamer.Session.{Session, Effect, Ran}
use my_stream_out_app.Streamer.Video.{
  Frame, ByteBuffer, payload, stamp_video, push_encoded_buffer, video_buffer,
}
use my_stream_out_app.Streamer.Video.Gate.{pushed, is_held_back, push-is_held_back}
use my_stream_out_app.Streamer.Audio.{Smoothing}
use my_stream_out_app.Streamer.Media.{MediaBin, has_video, on_media_configure, on_media_prepared}
use my_stream_out_app.Streamer.Media.Reconnect.{on_media_configure-appsrc}
use my_stream_out_app.Streamer.Detect.{detect_format}
use my_stream_out_app.Streamer.Play.{
  PlayRequest, Media, cache_pipeline, play_pipeline, play_in, on_client_play_request,
}
use my_stream_out_app.Streamer.Server.{Boot, gst_pipeline_init}
use my_stream_out_app.Streamer.Server.Start.{IsComplete, gst_pipeline_init_success}
use my_stream_out_app.Streamer.Stop.{stop_locked, stop_rest, gst_pipeline_destroy}
use my_stream_out_app.Streamer.Dump.{dump_audio_video_pipeline, dump_pipeline_now}
use my_stream_out_app.Streamer.Controls.{
  cb_src_need_data, cb_src_enough_data, cb_audio_need_data, cb_audio_enough_data,
  on_client_connected, on_client_closed, consume_keyframe_request,
}
use my_stream_out_app.Streamer.Ledger.Handlers.{push_encoded_buffer-Neutral}
use my_stream_out_app.Streamer.Lifetime.{
  Step, init, destroy, configure, prepared, unprepared, play, video, audio, connected, closed,
  consume, setting, need_data, enough_data, audio_need_data, audio_enough_data, cpu, dump, dump_now,
  command, Run, start, next,
}
use my_stream_out_app.Streamer.Lifetime.Settled.{
  push_audio_buffer-Neutral, on_media_configure-Keeps,
}
use my_stream_out_app.Streamer.Lifetime.Balance.{apply_setting-Neutral, choose_cpu-Neutral}

-- Any step but a start, a stop, and a media that comes or goes.
abbrev pub is_calm : {m : Smoothing} {s : Session} {r : Ran} → Step m s r → Bool
is_calm (init b e) = false
is_calm destroy = false
is_calm (configure bin) = false
is_calm unprepared = false
is_calm _ = true

-- The states after some calm steps.
pub data Calm (m : Smoothing) (s : Session) : Session → Type 0 where
  at_once : Calm m s s
  later :
      {t u : Session} {es : List Effect}
      → Calm m s t
      → (st : Step m t (u, es)) → is_calm st ≡ true
      → Calm m s u

play-appsrc :
    (s : Session) (q : PlayRequest) (media : Media)
    → (on_client_play_request s q media).session.handles.appsrc ≡ s.handles.appsrc
unfolding on_client_play_request play_in play_pipeline cache_pipeline
play-appsrc s q media = ground arith

perform-appsrc :
    (s : Session) (l : Lookup) (r : Reply) → (perform s l r).0.handles.appsrc ≡ s.handles.appsrc
unfolding perform dbg_print_element_property dump_pipeline_now dump_audio_video_pipeline
perform-appsrc s l r = ground arith

Step-appsrc :
    (m : Smoothing) (s : Session) (r : Ran) (st : Step m s r)
    → is_calm st ≡ true
    → r.0.handles.appsrc ≡ s.handles.appsrc
unfolding on_client_connected on_client_closed consume_keyframe_request cb_src_need_data
    cb_src_enough_data cb_audio_need_data cb_audio_enough_data on_media_prepared
    dump_audio_video_pipeline dump_pipeline_now
Step-appsrc m s _ (init b e) h = absurd (ground arith)
Step-appsrc m s _ destroy h = absurd (ground arith)
Step-appsrc m s _ (configure bin) h = absurd (ground arith)
Step-appsrc m s _ unprepared h = absurd (ground arith)
Step-appsrc m s _ (prepared found) h = refl
Step-appsrc m s _ (play q media e) h = play-appsrc s q media
Step-appsrc m s _ (video f buf map_ok) h =
    ap (λ x. x.appsrc) (push_encoded_buffer-Neutral 0 s f buf map_ok).0
Step-appsrc m s r (audio buf offset size pts_us map_ok e) h =
    ap (λ x. x.appsrc) (push_audio_buffer-Neutral 0 m s buf offset size pts_us map_ok r e).0
Step-appsrc m s _ connected h = refl
Step-appsrc m s _ closed h = refl
Step-appsrc m s _ consume h = refl
Step-appsrc m s _ (setting v) h = ap (λ x. x.appsrc) (apply_setting-Neutral 0 s v).0
Step-appsrc m s _ need_data h = refl
Step-appsrc m s _ enough_data h = refl
Step-appsrc m s _ audio_need_data h = refl
Step-appsrc m s _ audio_enough_data h = refl
Step-appsrc m s _ (cpu n) h = ap (λ x. x.appsrc) (choose_cpu-Neutral 0 s n).0
Step-appsrc m s _ dump h = ground arith
Step-appsrc m s _ dump_now h = ground arith
Step-appsrc m s _ (command l r) h = perform-appsrc s l r

Calm-appsrc : (m : Smoothing) (s t : Session) → Calm m s t → t.handles.appsrc ≡ s.handles.appsrc
Calm-appsrc m s _ at_once = refl
Calm-appsrc m s _ (later {t} {u} {es} c st h) = Step-appsrc m t (u, es) st h ∙ Calm-appsrc m s t c

-- A key frame, or parameter sets.
abbrev pub is_urgent : Frame → Bool
is_urgent f = f.is_csd || f.is_key_frame

urgent-is_held_back : (s : Session) (f : Frame) → is_urgent f ≡ true → is_held_back s f ≡ false
urgent-is_held_back s f h = ground arith

urgent_push :
    (s : Session) (f : Frame) (buf : ByteBuffer) (src : ℕ) (bytes : List ℕ)
    → s.handles.appsrc ≡ some src
    → payload buf f.offset f.size ≡ some bytes
    → is_urgent f ≡ true
    → pushed (push_encoded_buffer s f buf true).1
      ≡ (src, video_buffer f bytes (stamp_video s.timeline f).1) ∷ []
urgent_push s f buf src bytes a e h =
    (push-is_held_back s f buf src bytes a e).0
    ∙ ap
        (λ held. if held then [] else (src, video_buffer f bytes (stamp_video s.timeline f).1) ∷ [])
        (urgent-is_held_back s f h)

-- Once a media with a video appsrc has been configured, in a mode with video, then in every state that
-- steps of any kind lead to (until a start, a stop, or a media that comes or goes), whatever the appsrc
-- has said of its queue, a key frame or parameter sets with a readable buffer reach that appsrc.
pub Calm-push :
    (m : Smoothing) (s t : Session) (bin : MediaBin) (b v : ℕ) (f : Frame) (buf : ByteBuffer)
    (bytes : List ℕ)
    → has_video s.format.stream_mode ≡ true
    → bin.bin ≡ some b
    → bin.src ≡ some v
    → Calm m (on_media_configure s bin).0 t
    → payload buf f.offset f.size ≡ some bytes
    → is_urgent f ≡ true
    → pushed (push_encoded_buffer t f buf true).1
      ≡ (v, video_buffer f bytes (stamp_video t.timeline f).1) ∷ []
Calm-push m s t bin b v f buf bytes h eb ev c e u =
    urgent_push t f buf v bytes
      (Calm-appsrc m (on_media_configure s bin).0 t c
        ∙ (on_media_configure-appsrc s bin b v h eb ev).0)
      e u

destroy-no_server : (s : Session) → (gst_pipeline_destroy s).0.handles.server ≡ none
unfolding gst_pipeline_destroy stop_locked stop_rest
destroy-no_server s = refl

-- From any state whatever there is a run, of a stop, a start and a media that is configured, to a state
-- with a server in which a key frame or parameter sets with a readable buffer reach the appsrc: the
-- constructors answer, the thread can be created, the pipeline text is of a mode with video, and the
-- media has its video appsrc.
pub Run-streams :
    (m : Smoothing) (s : Session) (boot : Boot) (p : Text) (c l w g n src : ℕ) (bin : MediaBin)
    (b v : ℕ) (f : Frame) (buf : ByteBuffer) (bytes : List ℕ)
    → IsComplete boot p c l w g n src
    → boot.thread_ok ≡ true
    → has_video (detect_format p).stream_mode ≡ true
    → bin.bin ≡ some b
    → bin.src ≡ some v
    → payload buf f.offset f.size ≡ some bytes
    → is_urgent f ≡ true
    → (t : Session) × (es : List Effect) × Run m s t es
      × (t.handles.server ≡ some w)
      × (pushed (push_encoded_buffer t f buf true).1
          ≡ (v, video_buffer f bytes (stamp_video t.timeline f).1) ∷ [])
Run-streams m s boot p c l w g n src bin b v f buf bytes i e h eb ev x u =
    let s1 = (gst_pipeline_destroy s).0 in
    let r = gst_pipeline_init s1 boot in
    let ok = gst_pipeline_init_success s1 boot p c l w g n src (destroy-no_server s) i e in
    (
      (on_media_configure r.session bin).0,
      _,
      next (next (next start destroy refl) (init boot e) refl) (configure bin) refl,
      (on_media_configure-Keeps r.session bin).0 ∙ ok.0,
      Calm-push m r.session (on_media_configure r.session bin).0 bin b v f buf bytes
          (ap (λ x. has_video x.stream_mode) ok.3 ∙ h) eb ev at_once x u,
    )
