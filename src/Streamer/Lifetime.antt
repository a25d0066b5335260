-- ===== src/Streamer/Lifetime.antt =====
-- Whole lifetimes of app/src/main/cpp/camera2_gst_streamer.cpp: any sequence of its JNI calls and
-- callbacks, each of which runs its part under `s_lock` as one step. GStreamer chooses the order of
-- the callbacks; what it promises of that order stands in the steps' premises, and more of it in
-- Serial. Here each call is one step, with nothing between its parts (see Threads for those); a start
-- whose thread cannot be created (see Failing) and an audio push that divides by zero are no steps.
pub mod Settled
pub mod Balance
pub mod Between
pub mod Keyframe
pub mod Failing
pub mod Progress
pub mod Typed
pub mod Serial
pub mod Statuses
use my_stream_out_app.Base.{ℕ, ◌≡◌, ◌⊎◌, Bool, true, Option, none, some, List, [], ◌++◌}
use my_stream_out_app.Base.Int.{ℤ}
use my_stream_out_app.Debug.Dispatch.{Reply}
use my_stream_out_app.Debug.Handlers.{Lookup, perform}
use my_stream_out_app.Streamer.Session.{Session, Effect, Ran}
use my_stream_out_app.Streamer.Video.{Frame, ByteBuffer, push_encoded_buffer}
use my_stream_out_app.Streamer.Audio.{Smoothing, push_audio_buffer}
use my_stream_out_app.Streamer.Media.{
  MediaBin, PreparedMedia, on_media_configure, on_media_prepared, on_media_unprepared,
}
use my_stream_out_app.Streamer.Play.{PlayRequest, Media, CachesOne, on_client_play_request}
use my_stream_out_app.Streamer.Dump.{dump_audio_video_pipeline, dump_pipeline_now}
use my_stream_out_app.Streamer.Server.{Boot, gst_pipeline_init}
use my_stream_out_app.Streamer.Stop.{gst_pipeline_destroy}
use my_stream_out_app.Streamer.Controls.{
  Setting, apply_setting, cb_src_need_data, cb_src_enough_data, cb_audio_need_data,
  cb_audio_enough_data, on_client_connected, on_client_closed, consume_keyframe_request, choose_cpu,
}

-- `init` is a call whose thread can be created. `play` sees no pipeline but its own: the media of
-- the last one has been unprepared before.
pub data Step (m : Smoothing) (s : Session) : Ran → Type 0 where
  init :
      (b : Boot)
      → b.thread_ok ≡ true
      → Step m s ((gst_pipeline_init s b).session, (gst_pipeline_init s b).effects)
  destroy : Step m s (gst_pipeline_destroy s)
  configure : (bin : MediaBin) → Step m s (on_media_configure s bin)
  prepared : (found : PreparedMedia) → Step m s (on_media_prepared s found)
  unprepared : Step m s (on_media_unprepared s)
  play :
      (q : PlayRequest) (media : Media)
      → CachesOne s q
      → Step m s
          ((on_client_play_request s q media).session, (on_client_play_request s q media).effects)
  video :
      (f : Frame) (buf : ByteBuffer) (map_ok : Bool) → Step m s (push_encoded_buffer s f buf map_ok)
  audio :
      (buf : ByteBuffer) (offset size : ℕ) (pts_us : ℤ) (map_ok : Bool) {r : Ran}
      → push_audio_buffer m s buf offset size pts_us map_ok ≡ some r
      → Step m s r
  connected : Step m s (on_client_connected s)
  closed : Step m s (on_client_closed s, [])
  consume : Step m s ((consume_keyframe_request s).0, [])
  setting : (v : Setting) → Step m s (apply_setting s v, [])
  need_data : Step m s (cb_src_need_data s, [])
  enough_data : Step m s (cb_src_enough_data s, [])
  audio_need_data : Step m s (cb_audio_need_data s, [])
  audio_enough_data : Step m s (cb_audio_enough_data s, [])
  cpu : (n : ℕ) → Step m s (choose_cpu s n)
  dump : Step m s (dump_audio_video_pipeline s)
  dump_now : Step m s (dump_pipeline_now s)
  command : (l : Lookup) (r : Reply) → Step m s (perform s l r)

-- The state after some steps, and the calls that they made.
pub data Run (m : Smoothing) (s : Session) : Session → List Effect → Type 0 where
  start : Run m s s []
  next :
      {t u : Session} {es es' all : List Effect}
      → Run m s t es
      → Step m t (u, es')
      → all ≡ es ++ es'
      → Run m s u all
