-- ===== src/Streamer/Lifetime/Statuses/Heard.antt =====
-- Every step, and every run, as Java hears of it.
use my_stream_out_app.Base.{◌≡◌, refl, ◌∙◌, ap, false, some, List, [], ◌∷◌, arith}
use my_stream_out_app.Streamer.Session.{Session, Effect, Ran, initial, stopped}
use my_stream_out_app.Streamer.Audio.{Smoothing}
use my_stream_out_app.Streamer.Media.{on_media_configure, on_media_prepared, on_media_unprepared}
use my_stream_out_app.Streamer.Stop.{gst_pipeline_destroy, stop_locked, stop_rest}
use my_stream_out_app.Streamer.Controls.{
  apply_setting, cb_src_need_data, cb_src_enough_data, cb_audio_need_data, cb_audio_enough_data,
  on_client_connected, on_client_closed, consume_keyframe_request,
}
use my_stream_out_app.Streamer.Reports.Ready.{statuses, statuses-append}
use my_stream_out_app.Streamer.Lifetime.Settled.{on_media_configure-Keeps}
use my_stream_out_app.Streamer.Lifetime.Balance.{apply_setting-Neutral}
use my_stream_out_app.Streamer.Lifetime.{
  Step, init, destroy, configure, prepared, unprepared, play, video, audio, connected, closed,
  consume, setting, need_data, enough_data, audio_need_data, audio_enough_data, cpu, dump, dump_now,
  command,
}
use my_stream_out_app.Streamer.Lifetime.Failing.{
  Attempt, step, start_fails, Attempts, none_yet, one_more,
}
use my_stream_out_app.Streamer.Lifetime.Statuses.{
  heard, is_up, IsSilent, IsHeard, gst_pipeline_init-IsHeard, IsSilent-IsHeard, heard-append,
}
use my_stream_out_app.Streamer.Lifetime.Statuses.Quiet.{
  Quiet-on_media_configure, on_media_prepared-IsSilent, on_media_unprepared-IsSilent, play-IsSilent,
  video-IsSilent, audio-IsSilent, perform-IsSilent, dump-IsSilent, dump_now-IsSilent,
  choose_cpu-IsSilent,
}

destroy_statuses : (s : Session) → statuses (gst_pipeline_destroy s).1 ≡ stopped ∷ []
unfolding gst_pipeline_destroy stop_locked stop_rest
destroy_statuses s = ground arith

destroy-IsHeard : (s : Session) → IsHeard s (gst_pipeline_destroy s)
unfolding gst_pipeline_destroy stop_locked stop_rest
destroy-IsHeard s = ap (heard (is_up s)) (destroy_statuses s)

silent : (s : Session) (r : Ran) → IsSilent s r → IsHeard s r
silent = IsSilent-IsHeard

Step-IsHeard : (m : Smoothing) (s : Session) (r : Ran) → Step m s r → IsHeard s r
unfolding on_client_connected on_client_closed consume_keyframe_request cb_src_need_data
    cb_src_enough_data cb_audio_need_data cb_audio_enough_data apply_setting
Step-IsHeard m s _ (init b e) = gst_pipeline_init-IsHeard s b
Step-IsHeard m s _ destroy = destroy-IsHeard s
Step-IsHeard m s _ (configure bin) =
    silent s (on_media_configure s bin)
      (Quiet-on_media_configure s bin, (on_media_configure-Keeps s bin).0)
Step-IsHeard m s _ (prepared found) =
    silent s (on_media_prepared s found) (on_media_prepared-IsSilent s found)
Step-IsHeard m s _ unprepared = silent s (on_media_unprepared s) (on_media_unprepared-IsSilent s)
Step-IsHeard m s r (play q media e) = silent s r (play-IsSilent s q media)
Step-IsHeard m s r (video f buf map_ok) = silent s r (video-IsSilent s f buf map_ok)
Step-IsHeard m s r (audio buf offset size pts_us map_ok e) =
    silent s r (audio-IsSilent m s buf offset size pts_us map_ok r e)
Step-IsHeard m s _ connected = refl
Step-IsHeard m s _ closed = refl
Step-IsHeard m s _ consume = refl
Step-IsHeard m s _ (setting v) =
    silent s (apply_setting s v, []) (refl, ap (λ x. x.server) (apply_setting-Neutral 0 s v).0)
Step-IsHeard m s _ need_data = refl
Step-IsHeard m s _ enough_data = refl
Step-IsHeard m s _ audio_need_data = refl
Step-IsHeard m s _ audio_enough_data = refl
Step-IsHeard m s r (cpu n) = silent s r (choose_cpu-IsSilent s n)
Step-IsHeard m s r dump = silent s r (dump-IsSilent s)
Step-IsHeard m s r dump_now = silent s r (dump_now-IsSilent s)
Step-IsHeard m s r (command l reply) = silent s r (perform-IsSilent s l reply)

Attempt-IsHeard : (m : Smoothing) (s : Session) (r : Ran) → Attempt m s r → IsHeard s r
Attempt-IsHeard m s r (step st) = Step-IsHeard m s r st
Attempt-IsHeard m s _ (start_fails b e) = gst_pipeline_init-IsHeard s b

Attempts-IsHeard_from :
    (m : Smoothing) (s t : Session) (es : List Effect) → Attempts m s t es → IsHeard s (t, es)
Attempts-IsHeard_from m s _ _ none_yet = refl
Attempts-IsHeard_from m s v all (one_more {t} {u} {es} {es'} h st e) = rw (e) (
    ap (heard (is_up s)) (statuses-append es es')
    ∙ heard-append (is_up s) (statuses es) (statuses es') (is_up t)
        (Attempts-IsHeard_from m s t es h)
    ∙ Attempt-IsHeard m t (v, es') st)

-- Along every run from the initial state, with starts that may fail in any way (no step comes between
-- the two parts of a stop): a start reports that its server is ready only when every server reported
-- before has been reported as stopped, and by the reports alone Java can tell whether a server runs
-- now: it does exactly if the last report but those of clients is that one is ready.
pub Attempts-IsHeard :
    (m : Smoothing) (s : Session) (es : List Effect)
    → Attempts m initial s es
    → heard false (statuses es) ≡ some (is_up s)
Attempts-IsHeard m s es h = Attempts-IsHeard_from m initial s es h
