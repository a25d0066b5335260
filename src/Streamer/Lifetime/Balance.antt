-- ===== src/Streamer/Lifetime/Balance.antt =====
-- The references over a whole lifetime.
use my_stream_out_app.Base.{ℕ, ◌+◌, ◌≡◌, refl, inl, inr, ◌⊎◌, true, ap, List, [], ◌++◌, arith}
use my_stream_out_app.Debug.Dispatch.{Reply}
use my_stream_out_app.Debug.Handlers.{Lookup, perform, dbg_print_element_property}
use my_stream_out_app.Streamer.Session.{Session, Effect, Ran, initial}
use my_stream_out_app.Streamer.Video.{push_encoded_buffer}
use my_stream_out_app.Streamer.Audio.{Smoothing}
use my_stream_out_app.Streamer.Media.{on_media_prepared, on_media_unprepared}
use my_stream_out_app.Streamer.Stop.{gst_pipeline_destroy, stop_locked, stop_rest}
use my_stream_out_app.Streamer.Controls.{
  Setting, apply_setting, cb_src_need_data, cb_src_enough_data, cb_audio_need_data,
  cb_audio_enough_data, on_client_connected, on_client_closed, consume_keyframe_request, choose_cpu,
}
use my_stream_out_app.Streamer.Dump.{dump_audio_video_pipeline, dump_pipeline_now}
use my_stream_out_app.Streamer.Ledger.{
  Keeps, holds, gained, used_up, Conserves, gained-append, used_up-append,
}
use my_stream_out_app.Streamer.Server.{Boot, gst_pipeline_init}
use my_stream_out_app.Streamer.Ledger.Sessions.{IsIdle}
use my_stream_out_app.Streamer.Ledger.Handlers.{
  Neutral, Neutral→Conserves, push_encoded_buffer-Neutral, on_media_configure-Conserves,
  on_media_prepared-Conserves, on_media_unprepared-Conserves, gst_pipeline_destroy-Conserves,
}
use my_stream_out_app.Streamer.Ledger.Requests.{on_client_play_request-Conserves}
use my_stream_out_app.Streamer.Lifetime.{
  Step, init, destroy, configure, prepared, unprepared, play, video, audio, connected, closed,
  consume, setting, need_data, enough_data, audio_need_data, audio_enough_data, cpu, dump, dump_now,
  command, Run, start, next,
}
use my_stream_out_app.Streamer.Lifetime.Settled.{
  IsSettled, IsSettled-Keeps, gst_pipeline_init-IsSettled, gst_pipeline_init-keeps_count,
  on_media_configure-Keeps, push_audio_buffer-Neutral,
}

-- A step keeps count, and leaves what a server keeps as it was, or nothing of one.
abbrev pub Kept : ℕ → Session → Ran → Type 0
Kept o s r = Conserves o s r × (Keeps s r.0 ⊎ IsIdle r.0)

Neutral→Kept : (o : ℕ) (s : Session) (r : Ran) → Neutral o s r → Kept o s r
Neutral→Kept o s r n = (
  Neutral→Conserves o s r n,
  inl (
    ap (λ x. x.server) n.0,
    ap (λ x. x.loop) n.0,
    ap (λ x. x.context) n.0,
    ap (λ x. x.periodic_source) n.0,
  ),
)

pub apply_setting-Neutral :
    (o : ℕ) (s : Session) (v : Setting) → Neutral o s (apply_setting s v, [])
unfolding apply_setting
apply_setting-Neutral o s v = ground arith

pub choose_cpu-Neutral : (o : ℕ) (s : Session) (n : ℕ) → Neutral o s (choose_cpu s n)
unfolding choose_cpu
choose_cpu-Neutral o s n = ground arith

perform-Conserves :
    (o : ℕ) (s : Session) (l : Lookup) (r : Reply)
    → Conserves o s (perform s l r) × Keeps s (perform s l r).0
unfolding perform dbg_print_element_property dump_pipeline_now dump_audio_video_pipeline
perform-Conserves o s l r = ground arith

flat-Kept : (o : ℕ) (s s' : Session) → s'.handles ≡ s.handles → Kept o s (s', [])
flat-Kept o s s' e = Neutral→Kept o s (s', []) (e, refl, refl)

dump-Conserves :
    (o : ℕ) (s : Session)
    → Conserves o s (dump_audio_video_pipeline s) × Keeps s (dump_audio_video_pipeline s).0
unfolding dump_audio_video_pipeline
dump-Conserves o s = ground arith

dump_now-Conserves :
    (o : ℕ) (s : Session) → Conserves o s (dump_pipeline_now s) × Keeps s (dump_pipeline_now s).0
unfolding dump_pipeline_now dump_audio_video_pipeline
dump_now-Conserves o s = ground arith

-- A start whose thread can be created, with its result.
abbrev pub Starts : Session → Ran → Type 0
Starts s r =
    (b : Boot) × (b.thread_ok ≡ true)
    × (r ≡ ((gst_pipeline_init s b).session, (gst_pipeline_init s b).effects))

pub Step-Kept :
    (o : ℕ) (m : Smoothing) (s : Session) (r : Ran) → Step m s r → Kept o s r ⊎ Starts s r
unfolding on_client_connected on_client_closed consume_keyframe_request cb_src_need_data
    cb_src_enough_data cb_audio_need_data cb_audio_enough_data on_media_prepared on_media_unprepared
    gst_pipeline_destroy stop_locked stop_rest
Step-Kept o m s _ (init b e) = inr (b, e, refl)
Step-Kept o m s _ destroy = inl (
  gst_pipeline_destroy-Conserves o s,
  inr (record { no_server = refl; no_loop = refl; no_context = refl; no_timer = refl }),
)
Step-Kept o m s _ (configure bin) =
    inl (on_media_configure-Conserves o s bin, inl (on_media_configure-Keeps s bin))
Step-Kept o m s _ (prepared found) =
    inl (on_media_prepared-Conserves o s found, inl (refl, refl, refl, refl))
Step-Kept o m s _ unprepared = inl (on_media_unprepared-Conserves o s, inl (refl, refl, refl, refl))
Step-Kept o m s _ (play q media e) =
    let (a, b) = on_client_play_request-Conserves o s q media e in inl (a, inl b)
Step-Kept o m s _ (video f buf map_ok) = inl (
    Neutral→Kept o s (push_encoded_buffer s f buf map_ok)
      (push_encoded_buffer-Neutral o s f buf map_ok))
Step-Kept o m s r (audio buf offset size pts_us map_ok e) =
    inl (Neutral→Kept o s r (push_audio_buffer-Neutral o m s buf offset size pts_us map_ok r e))
Step-Kept o m s _ connected = inl (Neutral→Kept o s (on_client_connected s) (refl, refl, refl))
Step-Kept o m s _ closed = inl (flat-Kept o s _ refl)
Step-Kept o m s _ consume = inl (flat-Kept o s _ refl)
Step-Kept o m s _ (setting v) =
    inl (Neutral→Kept o s (apply_setting s v, []) (apply_setting-Neutral o s v))
Step-Kept o m s _ need_data = inl (flat-Kept o s _ refl)
Step-Kept o m s _ enough_data = inl (flat-Kept o s _ refl)
Step-Kept o m s _ audio_need_data = inl (flat-Kept o s _ refl)
Step-Kept o m s _ audio_enough_data = inl (flat-Kept o s _ refl)
Step-Kept o m s _ (cpu n) = inl (Neutral→Kept o s (choose_cpu s n) (choose_cpu-Neutral o s n))
Step-Kept o m s _ dump = let (a, b) = dump-Conserves o s in inl (a, inl b)
Step-Kept o m s _ dump_now = let (a, b) = dump_now-Conserves o s in inl (a, inl b)
Step-Kept o m s _ (command l r) = let (a, b) = perform-Conserves o s l r in inl (a, inl b)

-- A step from a settled state keeps count, and leaves a server or nothing of one.
abbrev pub Sound : ℕ → Session → Ran → Type 0
Sound o s r = Conserves o s r × IsSettled r.0

pub Step-Sound :
    (o : ℕ) (m : Smoothing) (s : Session) (r : Ran) → Step m s r → IsSettled s → Sound o s r
Step-Sound o m s r st h = elim (Step-Kept o m s r st) [
  | inl (a, inl k) ↦ (a, IsSettled-Keeps s r.0 k h)
  | inl (a, inr i) ↦ (a, inr i)
  | inr (b, e, q) ↦
      rw (q) (gst_pipeline_init-keeps_count o s b h, gst_pipeline_init-IsSettled s b e h)
]

pub initial-IsSettled : IsSettled initial
initial-IsSettled =
    inr (record { no_server = refl; no_loop = refl; no_context = refl; no_timer = refl })

pub Run-Sound :
    (o : ℕ) (m : Smoothing) (s t : Session) (es : List Effect)
    → Run m s t es
    → IsSettled s
    → Sound o s (t, es)
Run-Sound o m s _ _ start i = (refl, i)
Run-Sound o m s v all (next {t} {u} {es} {es'} h st e) i =
    let (a, k) = Run-Sound o m s t es h i in
    let (c, j) = Step-Sound o m t (v, es') st k in
    (rw (e) (simp (gained-append, used_up-append) (omega (arith, a, c))), j)

-- Along every run from the initial state (each start can create its thread, and a play request finds
-- no pipeline cached but its own), for every object the references that the module has been given are
-- those that its pointers still own and those that it has given up.
pub Run-balance :
    (o : ℕ) (m : Smoothing) (s : Session) (es : List Effect)
    → Run m initial s es
    → gained o es ≡ holds o s.handles + used_up o es
Run-balance o m s es h = omega (arith, (Run-Sound o m initial s es h initial-IsSettled).0)

-- Along every run from the initial state that ends with nativeGstPipelineDestroy (each start can
-- create its thread, a play request finds no pipeline cached but its own, and no step comes between
-- the two parts of the stop), every reference to every object has been given up, and none of them
-- twice.
pub Run-destroy_releases :
    (o : ℕ) (m : Smoothing) (s : Session) (es all : List Effect)
    → Run m initial s es
    → all ≡ es ++ (gst_pipeline_destroy s).1
    → gained o all ≡ used_up o all
unfolding gst_pipeline_destroy stop_locked stop_rest
Run-destroy_releases o m s es all h e =
    omega (arith, Run-balance o m (gst_pipeline_destroy s).0 all (next h destroy e))
