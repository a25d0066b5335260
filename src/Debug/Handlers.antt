-- ===== src/Debug/Handlers.antt =====
-- The commands of app/src/main/cpp/cam2_streamout_debug.cpp that take the streamer's pipeline or an
-- element, and Cam2Streamer_RefFullPipeline of app/src/main/cpp/camera2_gst_streamer.cpp. What the
-- lookups find is a parameter; printing is left out.
use my_stream_out_app.Base.{ℕ, Option, none, some, List, [], ◌∷◌, ◌++◌}
use my_stream_out_app.Streamer.Session.{Session, Effect, gain, unref, Ran}
use my_stream_out_app.Streamer.Media.{obtain, release}
use my_stream_out_app.Streamer.Dump.{dump_pipeline_now}
use my_stream_out_app.Debug.Dispatch.{Reply, dump_graph, print_element, inspect}

-- The element that gst_bin_get_by_name_recurse_up finds, and the one that gst_element_factory_make
-- makes.
pub record Lookup : Type 0 where
  pub by_name : Option ℕ
  pub by_factory : Option ℕ

-- The caller gets a reference of its own.
abbrev pub ref_full_pipeline : Session → Option ℕ
ref_full_pipeline s = s.handles.full_pipeline

unfoldable pub dbg_print_element_property : Session → Option ℕ → List Effect
dbg_print_element_property s found = elim (ref_full_pipeline s) [
  | none ↦ []
  | some p ↦ gain p ∷ (obtain found ++ (release found ++ (unref p ∷ [])))
]

abbrev pub dbg_inspect_element : Option ℕ → List Effect
dbg_inspect_element made = obtain made ++ release made

-- What a reply does to the streamer's session; the calls of Java and the Opus probes are elsewhere.
unfoldable pub perform : Session → Lookup → Reply → Ran
unfolding dbg_print_element_property
perform s l (print_element name) = (s, dbg_print_element_property s l.by_name)
perform s l (inspect factory) = (s, dbg_inspect_element l.by_factory)
perform s l dump_graph = dump_pipeline_now s
perform s l _ = (s, [])
