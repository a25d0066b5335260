-- ===== src/Streamer/Lifetime/Typed/Steps.antt =====
-- Every step of a lifetime keeps the numbers of the session in their C types.
use my_stream_out_app.Base.{ℕ, ◌^◌, ◌<◌, ◌≡◌, inl, refl, none, some, List, arith}
use my_stream_out_app.Debug.Dispatch.{Reply}
use my_stream_out_app.Debug.Handlers.{Lookup, perform, dbg_print_element_property}
use my_stream_out_app.Streamer.Session.{Session, Effect, Ran, initial}
use my_stream_out_app.Streamer.Audio.{Smoothing}
use my_stream_out_app.Streamer.Media.{on_media_prepared, on_media_unprepared}
use my_stream_out_app.Streamer.Dump.{next_count, dump_audio_video_pipeline, dump_pipeline_now}
use my_stream_out_app.Streamer.Stop.{stop_locked, stop_rest, gst_pipeline_destroy}
use my_stream_out_app.Streamer.Controls.{
  Setting, pipeline_dump_interval, pipeline_dot_output_dir, apply_setting, choose_cpu,
  cb_src_need_data, cb_src_enough_data, cb_audio_need_data, cb_audio_enough_data,
  on_client_connected, on_client_closed, consume_keyframe_request,
}
use my_stream_out_app.Streamer.Lifetime.{
  Step, init, destroy, configure, prepared, unprepared, play, video, audio, connected, closed,
  consume, setting, need_data, enough_data, audio_need_data, audio_enough_data, cpu, dump, dump_now,
  command, Run, start, next,
}
use my_stream_out_app.Streamer.Lifetime.Typed.Stamps.{IsTimed, no_timeline-IsTimed}
use my_stream_out_app.Streamer.Lifetime.Typed.Pushes.{
  push_encoded_buffer-IsTyped, push_audio_buffer-IsTyped,
}
use my_stream_out_app.Streamer.Lifetime.Typed.{
  IsTyped, Alike, Alike-IsTyped, gst_pipeline_init-IsTyped, on_media_configure-Alike, play-Alike,
  length-take, restamped,
}

apply_setting-IsTyped : (s : Session) (v : Setting) → IsTyped s → IsTyped (apply_setting s v)
unfolding apply_setting
apply_setting-IsTyped s (pipeline_dump_interval n) h = record {
  timed = h.timed;
  dump_word = h.dump_word;
  interval_set = ground arith;
  dir_fits = h.dir_fits;
  rate_int = h.rate_int;
  channels_int = h.channels_int;
}
apply_setting-IsTyped s (pipeline_dot_output_dir none) h = h
apply_setting-IsTyped s (pipeline_dot_output_dir (some d)) h = record {
  timed = h.timed;
  dump_word = h.dump_word;
  interval_set = h.interval_set;
  dir_fits = omega (arith, length-take 511 d);
  rate_int = h.rate_int;
  channels_int = h.channels_int;
}
apply_setting-IsTyped s v h = ground arith

-- The counter of graphs may have moved on.
abbrev Counted : Session → Session → Type 0
Counted s s' =
    (s'.timeline ≡ s.timeline)
    × (s'.format ≡ s.format)
    × (s'.flags ≡ s.flags)
    × (s.dot_dump_count < 2 ^ 32 → s'.dot_dump_count < 2 ^ 32)

Counted-IsTyped : (s s' : Session) → Counted s s' → IsTyped s → IsTyped s'
Counted-IsTyped s s' (a, b, c, d) h = record {
  timed = rw (a) h.timed;
  dump_word = d h.dump_word;
  interval_set = rw (c) h.interval_set;
  dir_fits = rw (c) h.dir_fits;
  rate_int = rw (b) h.rate_int;
  channels_int = rw (b) h.channels_int;
}

dump-Counted : (s : Session) → Counted s (dump_audio_video_pipeline s).0
unfolding dump_audio_video_pipeline next_count
dump-Counted s = (ground arith, ground arith, ground arith, λ h. ground arith)

dump_now-Counted : (s : Session) → Counted s (dump_pipeline_now s).0
unfolding dump_pipeline_now dump_audio_video_pipeline next_count
dump_now-Counted s = (ground arith, ground arith, ground arith, λ h. ground arith)

perform-Counted : (s : Session) (l : Lookup) (r : Reply) → Counted s (perform s l r).0
unfolding perform dbg_print_element_property dump_pipeline_now dump_audio_video_pipeline next_count
perform-Counted s l r = (ground arith, ground arith, ground arith, λ h. ground arith)

choose_cpu-Alike : (s : Session) (n : ℕ) → Alike s (choose_cpu s n).0
unfolding choose_cpu
choose_cpu-Alike s n = ground arith

stopped-IsTimed : (s : Session) → IsTimed (stop_locked s).0.timeline
unfolding stop_locked
stopped-IsTimed s = record {
  base_word = omega arith;
  last_word = omega arith;
  together = refl;
  offset_after = refl;
  offset_range = inl refl;
}

Step-IsTyped : (m : Smoothing) (s : Session) (r : Ran) → Step m s r → IsTyped s → IsTyped r.0
unfolding on_client_connected on_client_closed consume_keyframe_request cb_src_need_data
    cb_src_enough_data cb_audio_need_data cb_audio_enough_data on_media_prepared on_media_unprepared
    gst_pipeline_destroy stop_locked stop_rest
Step-IsTyped m s _ (init b e) h = gst_pipeline_init-IsTyped s b h
Step-IsTyped m s _ destroy h = record {
  timed = stopped-IsTimed s;
  dump_word = omega arith;
  interval_set = h.interval_set;
  dir_fits = h.dir_fits;
  rate_int = h.rate_int;
  channels_int = h.channels_int;
}
Step-IsTyped m s _ (configure bin) h = Alike-IsTyped s _ (on_media_configure-Alike s bin) h
Step-IsTyped m s _ (prepared found) h = Alike-IsTyped s _ (refl, refl, refl, refl) h
Step-IsTyped m s _ unprepared h =
    Alike-IsTyped _ _ (refl, refl, refl, refl) (restamped s _ no_timeline-IsTimed h)
Step-IsTyped m s _ (play q media e) h = Alike-IsTyped s _ (play-Alike s q media) h
Step-IsTyped m s _ (video f buf map_ok) h = push_encoded_buffer-IsTyped s f buf map_ok h
Step-IsTyped m s r (audio buf offset size pts_us map_ok e) h =
    push_audio_buffer-IsTyped m s buf offset size pts_us map_ok r h e
Step-IsTyped m s _ connected h = Alike-IsTyped s _ (refl, refl, refl, refl) h
Step-IsTyped m s _ closed h = Alike-IsTyped s _ (refl, refl, refl, refl) h
Step-IsTyped m s _ consume h = Alike-IsTyped s _ (refl, refl, refl, refl) h
Step-IsTyped m s _ (setting v) h = apply_setting-IsTyped s v h
Step-IsTyped m s _ need_data h = Alike-IsTyped s _ (refl, refl, refl, refl) h
Step-IsTyped m s _ enough_data h = Alike-IsTyped s _ (refl, refl, refl, refl) h
Step-IsTyped m s _ audio_need_data h = Alike-IsTyped s _ (refl, refl, refl, refl) h
Step-IsTyped m s _ audio_enough_data h = Alike-IsTyped s _ (refl, refl, refl, refl) h
Step-IsTyped m s _ (cpu n) h = Alike-IsTyped s _ (choose_cpu-Alike s n) h
Step-IsTyped m s _ dump h = Counted-IsTyped s _ (dump-Counted s) h
Step-IsTyped m s _ dump_now h = Counted-IsTyped s _ (dump_now-Counted s) h
Step-IsTyped m s _ (command l r) h = Counted-IsTyped s _ (perform-Counted s l r) h

initial-IsTyped : IsTyped initial
initial-IsTyped = record {
  timed = no_timeline-IsTimed;
  dump_word = omega arith;
  interval_set = omega arith;
  dir_fits = omega arith;
  rate_int = (omega arith, omega arith);
  channels_int = (omega arith, omega arith);
}

Run-IsTyped_from :
    (m : Smoothing) (s t : Session) (es : List Effect) → Run m s t es → IsTyped s → IsTyped t
Run-IsTyped_from m s _ _ start h = h
Run-IsTyped_from m s _ all (next {t} {u} {es} {es'} r st e) h =
    Step-IsTyped m t (u, es') st (Run-IsTyped_from m s t es r h)

-- Along every run from the initial state: the base of the timeline and the time of the last video frame
-- are 64-bit words that are set together; the smoothed offset is set only after them and is at most
-- 500 ms; the counter of graphs is a 32-bit word; the interval of the dump timer is not 0; the
-- directory of the graphs fits its buffer; and the rate and the channels are values of `int`.
pub Run-IsTyped : (m : Smoothing) (s : Session) (es : List Effect) → Run m initial s es → IsTyped s
Run-IsTyped m s es r = Run-IsTyped_from m initial s es r initial-IsTyped
