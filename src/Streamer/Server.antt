-- ===== src/Streamer/Server.antt =====
-- nativeGstPipelineInit of app/src/main/cpp/camera2_gst_streamer.cpp.
-- What the GLib and GStreamer constructors return is a parameter; `none` is a null pointer.
pub mod Start
pub mod Outcomes
use my_stream_out_app.Base.{
  ℕ, Bool, true, false, Option, none, some, List, [], ◌∷◌, ◌++◌, map, if◌then◌else◌,
}
use my_stream_out_app.Base.Int.{ℤ}
use my_stream_out_app.Base.Text.{Text}
use my_stream_out_app.Streamer.Session.{
  Session, Flags, Format, Effect, gain, unref, give, end_of_stream, set_service, factory_launch,
  factory_media_type, factory_avpf_only, factory_defaults, timer, attach_source, destroy_source,
  quit_loop, start_loop_thread, join_loop_thread, status, ready, stopped, Ran, no_handles,
  no_timeline, clock_time_none,
}
use my_stream_out_app.Streamer.Detect.{detect_format}
use my_stream_out_app.Streamer.Media.{release}

-- The answers of the constructors, in the order of the calls.
pub record Boot : Type 0 where
  pub pipeline : Option Text
  pub port : ℤ
  pub context : Option ℕ
  pub loop : Option ℕ
  pub server : Option ℕ
  pub factory : Option ℕ
  pub mounts : Option ℕ
  pub server_source : Option ℕ
  pub periodic_source : ℕ
  pub thread_ok : Bool

-- The return value, the state after the call, and the calls made.
pub record Started : Type 0 where
  pub result : Bool
  pub session : Session
  pub effects : List Effect

abbrev pub refused : Session → List ℕ → Started
refused s held = record { result = false; session = s; effects = map unref held }

-- Calls that come before the rest.
abbrev pub preceded : List Effect → Started → Started
preceded es r = record r { effects = es ++ r.effects }

-- A constructor's result: on null what is held so far is released and the call fails.
abbrev pub acquire : Option ℕ → List ℕ → Session → (ℕ → Started) → Started
acquire none held s k = refused s held
acquire (some x) held s k = preceded (gain x ∷ []) (k x)

-- The media factory's settings.
abbrev pub factory_setup : Flags → ℕ → Text → List Effect
factory_setup fl f p =
    factory_launch f p
    ∷ ((if fl.enable_rtcp_feedback then factory_media_type f ∷ factory_avpf_only f ∷ [] else [])
        ++ (factory_defaults f ∷ []))

-- The periodic dump timer, which stays in the state whatever comes after it.
unfoldable pub set_timer : Session → Boot → ℕ → Ran
set_timer s b c =
    if s.flags.periodic_dump_enable
    then (
      record s { handles = record s.handles { periodic_source = some b.periodic_source } },
      gain b.periodic_source
          ∷ timer b.periodic_source s.flags.pipeline_dump_interval_seconds
          ∷ attach_source b.periodic_source c
          ∷ [],
    )
    else (record s { handles = record s.handles { periodic_source = none } }, [])

-- The block that commits the new session.
unfoldable pub commit : Session → Format → ℕ → ℕ → ℕ → Session
commit s f server loop context = record s {
  handles = record s.handles {
    server = some server;
    loop = some loop;
    context = some context;
    loop_tid_valid = true;
  };
  gates = record s.gates { need_data = true; audio_need_data = true; media_prepared = false };
  timeline = no_timeline;
  format = f;
  client_count = 0;
  encoder_pinned = false;
  dot_dump_count = 0;
}

-- From the dump timer to the end.
unfoldable pub launch : Session → Boot → Text → ℕ → ℕ → ℕ → Started
launch s b p server loop context =
    let (s1, es) = set_timer s b context in
    preceded es (
      if b.thread_ok
      then record {
        result = true;
        session = commit s1 (detect_format p) server loop context;
        effects = start_loop_thread loop ∷ status ready ∷ [];
      }
      else refused s1 (server ∷ loop ∷ context ∷ []))

-- The server's source is attached to the context, which keeps its own reference.
unfoldable pub listen : Session → Boot → Text → ℕ → ℕ → ℕ → Started
listen s b p v l c =
    acquire b.server_source (v ∷ l ∷ c ∷ []) s
      λ src. preceded (attach_source src c ∷ unref src ∷ []) (launch s b p v l c)

-- The mount table takes the factory over.
unfoldable pub mount : Session → Boot → Text → ℕ → ℕ → ℕ → ℕ → Started
mount s b p f v l c =
    acquire b.mounts (f ∷ v ∷ l ∷ c ∷ []) s
      λ m. preceded (give f ∷ unref m ∷ []) (listen s b p v l c)

unfoldable pub serve : Session → Boot → Text → ℕ → ℕ → ℕ → Started
serve s b p v l c =
    acquire b.factory (v ∷ l ∷ c ∷ []) s
      λ f. preceded (factory_setup s.flags f p) (mount s b p f v l c)

-- From the lock to the end, with no server running.
unfoldable pub boot : Session → Boot → Text → Started
boot s b p = acquire b.context [] s λ c.
    acquire b.loop (c ∷ []) s λ l.
      acquire b.server (l ∷ c ∷ []) s λ v. preceded (set_service b.port ∷ []) (serve s b p v l c)

unfoldable pub gst_pipeline_init : Session → Boot → Started
gst_pipeline_init s b = elim b.pipeline [
  | none ↦ refused s []
  | some p ↦ elim s.handles.server [ none ↦ boot s b p | some _ ↦ refused s [] ]
]
