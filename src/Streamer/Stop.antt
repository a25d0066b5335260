-- ===== src/Streamer/Stop.antt =====
-- nativeGstPipelineDestroy of app/src/main/cpp/camera2_gst_streamer.cpp: a part under s_lock, and what
-- follows when the lock has been given back.
use my_stream_out_app.Base.{false, Option, none, some, List, [], ◌∷◌, ◌++◌, ℕ, if◌then◌else◌}
use my_stream_out_app.Streamer.Session.{
  Session, Effect, unref, end_of_stream, destroy_source, quit_loop, join_loop_thread, status,
  stopped, Ran, clock_time_none,
}
use my_stream_out_app.Streamer.Media.{release}

-- An appsrc gets an end of stream before it is released.
abbrev pub finish : Option ℕ → List Effect
finish none = []
finish (some x) = end_of_stream x ∷ unref x ∷ []

abbrev pub cancel : Option ℕ → List Effect
cancel none = []
cancel (some x) = destroy_source x ∷ unref x ∷ []

abbrev pub quit : Option ℕ → List Effect
quit none = []
quit (some l) = quit_loop l ∷ []

-- The pointers that the call keeps in variables of its own.
pub record Stopping : Type 0 where
  pub server : Option ℕ
  pub loop : Option ℕ
  pub context : Option ℕ

abbrev pub stopping : Session → Stopping
stopping s = record {
  server = s.handles.server;
  loop = s.handles.loop;
  context = s.handles.context;
}

-- The part under the lock.
unfoldable pub stop_locked : Session → Ran
stop_locked s = (
  record s {
    handles = record s.handles {
      server = none;
      loop = none;
      context = none;
      periodic_source = none;
      full_pipeline = none;
      appsrc = none;
      audio_appsrc = none;
    };
    gates = record s.gates { need_data = false; audio_need_data = false; media_prepared = false };
    timeline = record s.timeline {
      pts_base = clock_time_none;
      last_video_pts_ns = clock_time_none;
      av_offset_ema = clock_time_none;
    };
    client_count = 0;
    dot_dump_count = 0;
  },
  finish s.handles.appsrc
      ++ (finish s.handles.audio_appsrc
          ++ (release s.handles.full_pipeline ++ cancel s.handles.periodic_source)),
)

-- From the end of the loop on, with the state as it is by then.
unfoldable pub stop_rest : Session → Stopping → Ran
stop_rest s k = (
  record s { handles = record s.handles { loop_tid_valid = false } },
  quit k.loop
      ++ ((if s.handles.loop_tid_valid then join_loop_thread ∷ [] else [])
          ++ (release k.server
              ++ (release k.loop ++ (release k.context ++ (status stopped ∷ []))))),
)

-- With nothing in between.
unfoldable pub gst_pipeline_destroy : Session → Ran
unfolding stop_locked stop_rest
gst_pipeline_destroy s =
    let (s1, es) = stop_locked s in let (s2, es') = stop_rest s1 (stopping s) in (s2, es ++ es')
