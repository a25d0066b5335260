-- ===== src/Entry.antt =====
-- app/src/main/cpp/streamout.cpp: JNI_OnLoad, JNI_OnUnload, and java_stream_status, which reports a
-- status to Java. What the Java virtual machine answers is a parameter; logging is left out.
pub mod References
pub mod Status
use my_stream_out_app.Base.{
  ℕ, ◌+◌, Bool, true, false, ◌&&◌, Option, none, some, List, [], ◌∷◌, ◌++◌, ◌==◌, if◌then◌else◌,
}
use my_stream_out_app.Base.Int.{ℤ}
use my_stream_out_app.Base.Text.{Text}
use my_stream_out_app.Product.Table.{system_tsx80}
use my_stream_out_app.Debug.Jni.{EnvResult, attached, detached, failed}

-- The global references and the method IDs that the library keeps (an ID is there or null).
pub record Globals : Type 0 where
  pub svc_ctrl_class : Option ℕ
  pub svc_ctrl_obj : Option ℕ
  pub grpc_server_class : Option ℕ
  pub class_loader : Option ℕ
  pub status_enum_class : Option ℕ
  pub run_notification_mid : Bool
  pub stream_status_mid : Bool
  pub for_number_mid : Bool

abbrev pub no_globals : Globals
no_globals = record {
  svc_ctrl_class = none;
  svc_ctrl_obj = none;
  grpc_server_class = none;
  class_loader = none;
  status_enum_class = none;
  run_notification_mid = false;
  stream_status_mid = false;
  for_number_mid = false;
}

-- `throw` is an exception that a failed lookup leaves pending; `set_up_product` is the call of
-- setup_product_info.
pub data Event : Type 0 where
  new_local delete_local throw clear_exception attach detach shut_down : Event
  new_global delete_global : ℕ → Event
  set_up_product : ℕ → Event
  stream_status : ℤ → ℤ → Text → Event

-- The answers of the lookups and of NewGlobalRef, in the order of the calls.
pub record LoadAnswers : Type 0 where
  pub env_ok : Bool
  pub svc_found : Bool
  pub svc_global : Option ℕ
  pub run_found : Bool
  pub grpc_found : Bool
  pub grpc_global : Option ℕ
  pub status_found : Bool
  pub enum_found : Bool
  pub enum_global : Option ℕ
  pub for_number_found : Bool

-- Whether JNI_OnLoad gives the version, the globals after it, and the calls that it made.
pub record Loaded : Type 0 where
  pub ok : Bool
  pub globals : Globals
  pub events : List Event

abbrev pub failing : Globals → List Event → Loaded
failing g es = record { ok = false; globals = g; events = es }

abbrev pub before : List Event → Loaded → Loaded
before es r = record r { events = es ++ r.events }

-- From the class StreamStatus to the end; `c` is the global reference to StrmOutGrpcServer.
unfoldable pub load_enum : LoadAnswers → Globals → ℕ → Loaded
load_enum a g c =
    if a.enum_found
    then before (new_local ∷ []) (elim a.enum_global [
      | none ↦
          failing (record g { status_enum_class = none; grpc_server_class = none })
            (delete_local ∷ delete_global c ∷ [])
      | some e ↦ before (new_global e ∷ delete_local ∷ []) (
          if a.for_number_found
          then record {
            ok = true;
            globals = record g { status_enum_class = some e; for_number_mid = true };
            events = [];
          }
          else failing
              (record g {
                status_enum_class = none;
                grpc_server_class = none;
                for_number_mid = false;
              })
              (throw ∷ delete_global e ∷ delete_global c ∷ []))
    ])
    else failing (record g { grpc_server_class = none })
        (throw ∷ clear_exception ∷ delete_global c ∷ [])

-- From the class StrmOutGrpcServer on; the exception of a class that is not found stays pending.
unfoldable pub load_grpc : LoadAnswers → Globals → Loaded
unfolding load_enum
load_grpc a g =
    if a.grpc_found
    then before (new_local ∷ []) (elim a.grpc_global [
      | none ↦ failing (record g { grpc_server_class = none }) (delete_local ∷ [])
      | some c ↦ before (new_global c ∷ delete_local ∷ []) (
          if a.status_found
          then load_enum a (record g { grpc_server_class = some c; stream_status_mid = true }) c
          else failing (record g { grpc_server_class = none; stream_status_mid = false })
              (throw ∷ clear_exception ∷ delete_global c ∷ []))
    ])
    else failing g (throw ∷ [])

unfoldable pub jni_on_load : Globals → LoadAnswers → Loaded
unfolding load_grpc
jni_on_load g a = before (set_up_product system_tsx80 ∷ []) (
    if a.env_ok
    then (if a.svc_found
        then before (new_local ∷ []) (elim a.svc_global [
          | none ↦ failing (record g { svc_ctrl_class = none }) (delete_local ∷ [])
          | some c ↦ before (new_global c ∷ delete_local ∷ []) (
              if a.run_found
              then load_grpc a (record g { svc_ctrl_class = some c; run_notification_mid = true })
              else failing (record g { svc_ctrl_class = none; run_notification_mid = false })
                  (throw ∷ clear_exception ∷ delete_global c ∷ []))
        ])
        else failing g (throw ∷ clear_exception ∷ []))
    else failing g [])

-- A global reference that is given up if there is one.
abbrev pub drop_global : Option ℕ → List Event
drop_global none = []
drop_global (some x) = delete_global x ∷ []

-- The Java server is shut down first.
abbrev pub shut_server : Option ℕ → Bool → List Event
shut_server none found = []
shut_server (some c) found = if found then shut_down ∷ [] else throw ∷ []

unfoldable pub jni_on_unload : Globals → (env_ok shutdown_found : Bool) → Globals × List Event
jni_on_unload g env_ok shutdown_found =
    if env_ok
    then (
      no_globals,
      shut_server g.grpc_server_class shutdown_found
          ++ (drop_global g.svc_ctrl_class
              ++ (drop_global g.svc_ctrl_obj
                  ++ (drop_global g.grpc_server_class
                      ++ (drop_global g.class_loader ++ drop_global g.status_enum_class)))),
    )
    else (g, [])

-- What the virtual machine answers to java_stream_status; `vm` is `g_vm`.
pub record StatusAnswers : Type 0 where
  pub vm : Bool
  pub env : EnvResult
  pub attach_ok : Bool
  pub enum_value : Bool
  pub info_string : Bool
  pub exception_pending : Bool

abbrev pub is_there {ℓ} : {A : Type ℓ} → Option A → Bool
is_there none = false
is_there (some x) = true

-- Everything is cached that a report needs.
abbrev pub is_cached : Globals → Bool
is_cached g =
    (is_there g.grpc_server_class && g.stream_status_mid)
    && (is_there g.status_enum_class && g.for_number_mid)

-- From the enum value to its release.
abbrev pub report : StatusAnswers → ℤ → ℤ → Text → List Event
report v stream_id status_code info =
    if v.enum_value
    then new_local
      ∷ ((if v.info_string
            then new_local ∷ stream_status stream_id status_code info ∷ delete_local ∷ []
            else if v.exception_pending
            then clear_exception ∷ []
            else [])
          ++ (delete_local ∷ []))
    else []

-- A null `info` is the empty text.
abbrev pub safe_info : Option Text → Text
safe_info none = []
safe_info (some t) = t

unfoldable pub java_stream_status : Globals → StatusAnswers → ℤ → ℤ → Option Text → List Event
java_stream_status g v stream_id status_code info =
    if v.vm && is_cached g
    then elim v.env [
      | attached ↦ report v stream_id status_code (safe_info info)
      | detached ↦
          if v.attach_ok
          then attach ∷ (report v stream_id status_code (safe_info info) ++ (detach ∷ []))
          else []
      | failed ↦ []
    ]
    else []

-- streamout_status_fb of app/src/main/cpp/jniMock.cpp, through which the native code reports.
unfoldable pub streamout_status_fb : Globals → StatusAnswers → ℤ → ℤ → Option Text → List Event
streamout_status_fb g v id status_code info =
    java_stream_status g v id status_code (some (safe_info info))
