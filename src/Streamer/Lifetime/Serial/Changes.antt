-- ===== src/Streamer/Lifetime/Serial/Changes.antt =====
-- What each step makes of the pointers into medias.
use my_stream_out_app.Base.{
  ℕ, ◌≡◌, ◌⊎◌, refl, sym, ap, ◌∙◌, inl, inr, Bool, true, false, Option, none, some, arith,
  Option-cases, Bool-cases, ◌==◌,
}
use my_stream_out_app.Debug.Dispatch.{Reply}
use my_stream_out_app.Debug.Handlers.{Lookup, perform, dbg_print_element_property}
use my_stream_out_app.Streamer.Session.{Session, Ran, StreamMode}
use my_stream_out_app.Streamer.Audio.{Smoothing}
use my_stream_out_app.Streamer.Media.{
  MediaBin, within, has_audio, find_video, install_video, configure_audio, configure_commit,
  configure_found, on_media_configure, on_media_prepared,
}
use my_stream_out_app.Streamer.Play.{
  PlayRequest, Media, cache_pipeline, play_pipeline, play_in, on_client_play_request,
}
use my_stream_out_app.Streamer.Server.{Boot, commit, set_timer, gst_pipeline_init}
use my_stream_out_app.Streamer.Server.Outcomes.{gst_pipeline_init_ind}
use my_stream_out_app.Streamer.Dump.{dump_audio_video_pipeline, dump_pipeline_now}
use my_stream_out_app.Streamer.Video.{push_encoded_buffer}
use my_stream_out_app.Streamer.Controls.{
  apply_setting, choose_cpu, cb_src_need_data, cb_src_enough_data, cb_audio_need_data,
  cb_audio_enough_data, on_client_connected, on_client_closed, consume_keyframe_request,
}
use my_stream_out_app.Streamer.Ledger.Handlers.{push_encoded_buffer-Neutral}
use my_stream_out_app.Streamer.Lifetime.Settled.{push_audio_buffer-Neutral}
use my_stream_out_app.Streamer.Lifetime.Balance.{apply_setting-Neutral, choose_cpu-Neutral}
use my_stream_out_app.Streamer.Lifetime.{
  Step, init, destroy, configure, prepared, unprepared, play, video, audio, connected, closed,
  consume, setting, need_data, enough_data, audio_need_data, audio_enough_data, cpu, dump, dump_now,
  command,
}
use my_stream_out_app.Streamer.Lifetime.Serial.{is_ordered}

-- No pointer, or the pointer there is.
abbrev pub IsAmong : Option ℕ → Option ℕ → Type 0
IsAmong x y = (x ≡ none) ⊎ (x ≡ y)

-- The pointers into medias are as they were.
abbrev pub SameMedia : Session → Session → Type 0
SameMedia s s' =
    (s'.handles.appsrc ≡ s.handles.appsrc)
    × (s'.handles.audio_appsrc ≡ s.handles.audio_appsrc)
    × (s'.handles.full_pipeline ≡ s.handles.full_pipeline)

set_timer-SameMedia : (s : Session) (b : Boot) (c : ℕ) → SameMedia s (set_timer s b c).0
unfolding set_timer
set_timer-SameMedia s b c = ground arith

pub gst_pipeline_init-SameMedia :
    (s : Session) (b : Boot) → SameMedia s (gst_pipeline_init s b).session
unfolding commit
gst_pipeline_init-SameMedia s b = gst_pipeline_init_ind {P = SameMedia s} (record {
  same = (refl, refl, refl);
  timer_set = λ c e. set_timer-SameMedia s b c;
  committed = λ p v l c. set_timer-SameMedia s b c;
})

perform-SameMedia : (s : Session) (l : Lookup) (r : Reply) → SameMedia s (perform s l r).0
unfolding perform dbg_print_element_property dump_pipeline_now dump_audio_video_pipeline
perform-SameMedia s l r = ground arith

same_handles : (s s' : Session) → s'.handles ≡ s.handles → SameMedia s s'
same_handles s s' e =
    (ap (λ x. x.appsrc) e, ap (λ x. x.audio_appsrc) e, ap (λ x. x.full_pipeline) e)

pub Step-SameMedia :
    (m : Smoothing) (s : Session) (r : Ran) (st : Step m s r)
    → is_ordered st ≡ false
    → SameMedia s r.0
unfolding on_client_connected on_client_closed consume_keyframe_request cb_src_need_data
    cb_src_enough_data cb_audio_need_data cb_audio_enough_data on_media_prepared
    dump_audio_video_pipeline dump_pipeline_now
Step-SameMedia m s _ destroy h = absurd (ground arith)
Step-SameMedia m s _ (configure bin) h = absurd (ground arith)
Step-SameMedia m s _ unprepared h = absurd (ground arith)
Step-SameMedia m s _ (play q media e) h = absurd (ground arith)
Step-SameMedia m s _ (init b e) h = gst_pipeline_init-SameMedia s b
Step-SameMedia m s _ (prepared found) h = (refl, refl, refl)
Step-SameMedia m s r (video f buf map_ok) h =
    same_handles s (push_encoded_buffer s f buf map_ok).0
      (push_encoded_buffer-Neutral 0 s f buf map_ok).0
Step-SameMedia m s r (audio buf offset size pts_us map_ok e) h =
    same_handles s r.0 (push_audio_buffer-Neutral 0 m s buf offset size pts_us map_ok r e).0
Step-SameMedia m s _ connected h = (refl, refl, refl)
Step-SameMedia m s _ closed h = (refl, refl, refl)
Step-SameMedia m s _ consume h = (refl, refl, refl)
Step-SameMedia m s _ (setting v) h =
    same_handles s (apply_setting s v) (apply_setting-Neutral 0 s v).0
Step-SameMedia m s _ need_data h = (refl, refl, refl)
Step-SameMedia m s _ enough_data h = (refl, refl, refl)
Step-SameMedia m s _ audio_need_data h = (refl, refl, refl)
Step-SameMedia m s _ audio_enough_data h = (refl, refl, refl)
Step-SameMedia m s _ (cpu n) h = same_handles s (choose_cpu s n).0 (choose_cpu-Neutral 0 s n).0
Step-SameMedia m s _ dump h = ground arith
Step-SameMedia m s _ dump_now h = ground arith
Step-SameMedia m s _ (command l r) h = perform-SameMedia s l r

-- What a new media makes of the pointers: each is as it was or one into the new media.
abbrev pub Fills : Session → MediaBin → Session → Type 0
Fills s bin s' =
    ((s'.handles.appsrc ≡ s.handles.appsrc) ⊎ (s'.handles.appsrc ≡ bin.src))
    × ((s'.handles.audio_appsrc ≡ s.handles.audio_appsrc) ⊎ (s'.handles.audio_appsrc ≡ bin.audio))
    × (s'.handles.full_pipeline ≡ s.handles.full_pipeline)

within-some : (x y : Option ℕ) (a : ℕ) → within x y ≡ some a → y ≡ some a
within-some none y a e = absurd (ground arith)
within-some (some b) y a e = e

configure_audio-Fills : (s : Session) (bin : MediaBin) → Fills s bin (configure_audio s bin).0
unfolding configure_audio
configure_audio-Fills s bin = elim (Option-cases (within bin.bin2 bin.audio)) [
  | inl e ↦ simp (e, configure_audio) (inl refl, inl refl, refl)
  | inr (a, e) ↦
      simp (e, configure_audio) (inl refl, inr (sym (within-some bin.bin2 bin.audio a e)), refl)
]

find_video-IsAmong :
    (mode : StreamMode) (bin : MediaBin) (x : Option ℕ)
    → find_video mode bin ≡ some x
    → IsAmong x bin.src
find_video-IsAmong mode bin x e = ground arith

-- The session with a video appsrc stored and its gates set.
abbrev stored : Session → ℕ → Session
stored s v = record s {
  handles = record s.handles { appsrc = some v };
  gates = record s.gates { media_prepared = false; need_data = true; request_keyframe = true };
}

-- The mode decides on the audio half alone; the video half stores what was found.
configure_commit-Fills :
    (s : Session) (mode : StreamMode) (x : Option ℕ) (bin : MediaBin)
    → IsAmong x bin.src
    → Fills s bin (configure_commit s mode x bin).0
unfolding configure_commit install_video
configure_commit-Fills s mode none bin h = elim (Bool-cases (has_audio mode)) [
  | inl e ↦ simp (e, configure_commit) (configure_audio-Fills _ bin)
  | inr e ↦ simp (e, configure_commit) (inl refl, inl refl, refl)
]
configure_commit-Fills s mode (some v) bin (inl e) = absurd (ground arith)
configure_commit-Fills s mode (some v) bin (inr q) = elim (Bool-cases (has_audio mode)) [
  | inl e ↦
      let (a, b, c) = configure_audio-Fills (stored s v) bin in
      simp (e, configure_commit) (inr (elim a [ inl f ↦ f ∙ q | inr f ↦ f ]), b, c)
  | inr e ↦ simp (e, configure_commit) (inr q, inl refl, refl)
]

pub on_media_configure-Fills :
    (s : Session) (bin : MediaBin) → Fills s bin (on_media_configure s bin).0
unfolding on_media_configure configure_found
on_media_configure-Fills s bin = elim (Option-cases bin.bin) [
  | inl n ↦ simp (n, on_media_configure) (inl refl, inl refl, refl)
  | inr (b, n) ↦ elim (Option-cases (find_video s.format.stream_mode bin)) [
    | inl e ↦ simp (n, e, on_media_configure) (inl refl, inl refl, refl)
    | inr (x, e) ↦
        simp (n, e, on_media_configure, configure_found)
          (configure_commit-Fills s s.format.stream_mode x bin
            (find_video-IsAmong s.format.stream_mode bin x e))
  ]
]

-- The pipeline that a request caches, if it caches one.
abbrev pub Caches : Session → Option (ℕ × Bool) → Session → Type 0
Caches s x s' =
    (s'.handles.full_pipeline ≡ s.handles.full_pipeline)
    ⊎ ((p : ℕ) × (x ≡ some (p, true)) × (s'.handles.full_pipeline ≡ some p))

cache_pipeline-Caches : (s : Session) (p : ℕ) → Caches s (some (p, true)) (cache_pipeline s p).0
unfolding cache_pipeline
cache_pipeline-Caches s p = elim (Option-cases s.handles.full_pipeline) [
  | inl e ↦ simp (e, cache_pipeline) (inr (p, refl, refl))
  | inr (q, e) ↦ elim (Bool-cases (q == p)) [
    | inl f ↦ simp (e, f, cache_pipeline) (inl refl)
    | inr f ↦ simp (e, f, cache_pipeline) (inr (p, refl, refl))
  ]
]

play_in-Caches :
    (s : Session) (q : PlayRequest) (media : Media) (u : ℕ) (x : Option (ℕ × Bool))
    → Caches s x (play_in s q media u x).session
unfolding play_in play_pipeline
play_in-Caches s q media u none = inl refl
play_in-Caches s q media u (some (p, false)) = inl refl
play_in-Caches s q media u (some (p, true)) = cache_pipeline-Caches s p

pub play-Caches :
    (s : Session) (q : PlayRequest) (media : Media)
    → Caches s q.parent (on_client_play_request s q media).session
unfolding on_client_play_request
play-Caches s q media = elim (Bool-cases q.has_media) [
  | inr n ↦ simp (n, on_client_play_request) (inl refl)
  | inl n ↦ elim (Option-cases q.user_bin) [
    | inl e ↦ simp (n, e, on_client_play_request) (inl refl)
    | inr (u, e) ↦ simp (n, e, on_client_play_request) (play_in-Caches s q media u q.parent)
  ]
]

pub play-appsrcs :
    (s : Session) (q : PlayRequest) (media : Media)
    → let s' = (on_client_play_request s q media).session in
      (s'.handles.appsrc ≡ s.handles.appsrc) × (s'.handles.audio_appsrc ≡ s.handles.audio_appsrc)
unfolding on_client_play_request play_in play_pipeline cache_pipeline
play-appsrcs s q media = ground arith
