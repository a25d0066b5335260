-- ===== src/Tests/Reports.antt =====
-- What Java is told of the start at port 8554.
use my_stream_out_app.Base.{◌≡◌, refl, true, false, some, [], ◌∷◌, ◌++◌, arith}
use my_stream_out_app.Base.Int.{pos}
use my_stream_out_app.Base.Text.{Text, atoi}
use my_stream_out_app.Debug.Jni.{detached}
use my_stream_out_app.Entry.{no_globals, LoadAnswers, jni_on_load, StatusAnswers}
use my_stream_out_app.Entry.Status.{reports}
use my_stream_out_app.Streamer.Session.{initial}
use my_stream_out_app.Streamer.Server.{gst_pipeline_init}
use my_stream_out_app.Streamer.Reports.{ready_prefix, notify}
use my_stream_out_app.Streamer.Reports.Ready.{start-notify}
use my_stream_out_app.Tests.Samples.{full_boot, pipeline_text}

abbrev all_found : LoadAnswers
all_found = record {
  env_ok = true;
  svc_found = true;
  svc_global = some 1;
  run_found = true;
  grpc_found = true;
  grpc_global = some 2;
  status_found = true;
  enum_found = true;
  enum_global = some 3;
  for_number_found = true;
}

abbrev able : StatusAnswers
able = record {
  vm = true;
  env = detached;
  attach_ok = true;
  enum_value = true;
  info_string = true;
  exception_pending = false;
}

start-notify_example :
    (t : Text) × (reports (
        notify
          (jni_on_load no_globals all_found).globals
          able
          full_boot.port
          (gst_pipeline_init initial full_boot).effects)
      ≡ (pos 0, pos 1, ready_prefix ++ t) ∷ [])
    × (atoi t ≡ pos 8554)
unfolding jni_on_load
start-notify_example =
    start-notify all_found able initial full_boot pipeline_text 1 2 3 4 5 6 8554 refl refl refl
      (record {
        pipeline_made = refl;
        context_made = refl;
        loop_made = refl;
        server_made = refl;
        factory_made = refl;
        mounts_made = refl;
        source_made = refl;
      })
      refl refl (omega arith)
