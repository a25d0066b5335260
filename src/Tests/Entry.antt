-- ===== src/Tests/Entry.antt =====
-- A load that fails late, and a status that is reported.
use my_stream_out_app.Base.{◌≡◌, true, false, ◌&&◌, some, [], ◌∷◌, ◌++◌, if◌then◌else◌}
use my_stream_out_app.Base.Int.{pos}
use my_stream_out_app.Base.Text.{codes}
use my_stream_out_app.Debug.Jni.{detached}
use my_stream_out_app.Entry.{
  no_globals, LoadAnswers, jni_on_load, jni_on_unload, StatusAnswers, is_there, is_cached,
  safe_info, java_stream_status,
}
use my_stream_out_app.Entry.References.{
  globals_made, globals_deleted, locals_made, locals_deleted, is_svc_loaded, jni_on_load_result,
  jni_on_unload_clears,
}
use my_stream_out_app.Entry.Status.{
  attaches, detaches, reports, has_env, java_stream_status-reports,
}

-- The method of the class StreamStatus is missing.
abbrev no_for_number : LoadAnswers
no_for_number = record {
  env_ok = true;
  svc_found = true;
  svc_global = some 1;
  run_found = true;
  grpc_found = true;
  grpc_global = some 2;
  status_found = true;
  enum_found = true;
  enum_global = some 3;
  for_number_found = false;
}

jni_on_load_result_example :
    let r = jni_on_load no_globals no_for_number in
    let a = no_for_number in
    (r.ok ≡ (
      is_svc_loaded a
      && (a.grpc_found
          && (is_there a.grpc_global
              && (a.status_found
                  && (a.enum_found && (is_there a.enum_global && a.for_number_found)))))))
    × (is_cached r.globals ≡ r.ok)
    × (is_there r.globals.grpc_server_class ≡ r.ok)
    × (is_there r.globals.status_enum_class ≡ r.ok)
    × (is_there r.globals.svc_ctrl_class ≡ is_svc_loaded a)
jni_on_load_result_example = jni_on_load_result no_for_number

jni_on_unload_clears_example :
    let r = jni_on_load no_globals no_for_number in
    let (g, es) = jni_on_unload r.globals true true in
    (g ≡ no_globals) × (globals_made 1 r.events ≡ globals_deleted 1 (r.events ++ es))
jni_on_unload_clears_example = jni_on_unload_clears 1 no_for_number true

-- A thread of GStreamer, which Java does not know.
abbrev native_thread : StatusAnswers
native_thread = record {
  vm = true;
  env = detached;
  attach_ok = true;
  enum_value = true;
  info_string = true;
  exception_pending = false;
}

java_stream_status-reports_example :
    let g = (jni_on_load no_globals (record no_for_number { for_number_found = true })).globals in
    let es = java_stream_status g native_thread (pos 0) (pos 1) (some (codes "ready")) in
    (attaches es ≡ detaches es)
    × (locals_made es ≡ locals_deleted es)
    × (reports es ≡ (
        if (native_thread.vm && is_cached g)
          && (has_env native_thread && (native_thread.enum_value && native_thread.info_string))
        then (pos 0, pos 1, safe_info (some (codes "ready"))) ∷ []
        else []))
java_stream_status-reports_example =
    java_stream_status-reports
      (jni_on_load no_globals (record no_for_number { for_number_found = true })).globals
      native_thread (pos 0) (pos 1) (some (codes "ready"))
