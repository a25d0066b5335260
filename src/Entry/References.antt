-- ===== src/Entry/References.antt =====
-- The global references of the library, from JNI_OnLoad to JNI_OnUnload.
use my_stream_out_app.Base.{
  ℕ, ◌+◌, ◌≡◌, Bool, true, ◌&&◌, Option, none, some, List, [], ◌∷◌, ◌++◌, ◌==◌, if◌then◌else◌,
  arith, refl,
}
use my_stream_out_app.Entry.{
  Globals, no_globals, Event, new_local, delete_local, new_global, delete_global, LoadAnswers,
  load_enum, load_grpc, jni_on_load, jni_on_unload, is_there, is_cached,
}

abbrev same : ℕ → ℕ → ℕ
same o x = if o == x then 1 else 0

abbrev owns : ℕ → Option ℕ → ℕ
owns o none = 0
owns o (some x) = same o x

-- Global references to `o` that the library keeps.
abbrev pub kept : ℕ → Globals → ℕ
kept o g =
    owns o g.svc_ctrl_class
    + owns o g.svc_ctrl_obj
    + owns o g.grpc_server_class
    + owns o g.class_loader
    + owns o g.status_enum_class

abbrev pub globals_made : ℕ → List Event → ℕ
globals_made o [] = 0
globals_made o (new_global x ∷ es) = same o x + globals_made o es
globals_made o (_ ∷ es) = globals_made o es

abbrev pub globals_deleted : ℕ → List Event → ℕ
globals_deleted o [] = 0
globals_deleted o (delete_global x ∷ es) = same o x + globals_deleted o es
globals_deleted o (_ ∷ es) = globals_deleted o es

abbrev pub locals_made : List Event → ℕ
locals_made [] = 0
locals_made (new_local ∷ es) = 1 + locals_made es
locals_made (_ ∷ es) = locals_made es

abbrev pub locals_deleted : List Event → ℕ
locals_deleted [] = 0
locals_deleted (delete_local ∷ es) = 1 + locals_deleted es
locals_deleted (_ ∷ es) = locals_deleted es

-- Wherever JNI_OnLoad fails, and when it succeeds, it has deleted as many local references as it was
-- given, and the global references to every object that it was given are those that it has deleted
-- and those that it keeps.
pub jni_on_load_counts :
    (o : ℕ) (a : LoadAnswers)
    → let r = jni_on_load no_globals a in
      (locals_made r.events ≡ locals_deleted r.events)
      × (globals_made o r.events ≡ globals_deleted o r.events + kept o r.globals)
unfolding jni_on_load load_grpc load_enum
jni_on_load_counts o a = ground arith

-- The first class is found and its method, too.
abbrev pub is_svc_loaded : LoadAnswers → Bool
is_svc_loaded a = a.env_ok && (a.svc_found && (is_there a.svc_global && a.run_found))

-- JNI_OnLoad succeeds exactly when every lookup does, and then a status can be reported; when it
-- fails, a status can not, nothing is kept of the classes StrmOutGrpcServer and StreamStatus, and
-- the reference to StreamOutSvcCtrl stays behind in just the failures that come after that class.
pub jni_on_load_result :
    (a : LoadAnswers)
    → let r = jni_on_load no_globals a in
      (r.ok ≡ (
        is_svc_loaded a
        && (a.grpc_found
            && (is_there a.grpc_global
                && (a.status_found
                    && (a.enum_found && (is_there a.enum_global && a.for_number_found)))))))
      × (is_cached r.globals ≡ r.ok)
      × (is_there r.globals.grpc_server_class ≡ r.ok)
      × (is_there r.globals.status_enum_class ≡ r.ok)
      × (is_there r.globals.svc_ctrl_class ≡ is_svc_loaded a)
unfolding jni_on_load load_grpc load_enum
jni_on_load_result a = ground arith

globals_deleted-append :
    (o : ℕ) (xs ys : List Event)
    → globals_deleted o (xs ++ ys) ≡ globals_deleted o xs + globals_deleted o ys
globals_deleted-append o [] ys = omega arith
globals_deleted-append o (x ∷ xs) ys = ground (arith, globals_deleted-append o xs ys)

jni_on_unload_deletes :
    (o : ℕ) (g : Globals) (found : Bool)
    → globals_deleted o (jni_on_unload g true found).1 ≡ kept o g
unfolding jni_on_unload
jni_on_unload_deletes o g found = ground arith

-- After JNI_OnLoad, however it ended, and a JNI_OnUnload that gets its environment, every global
-- reference has been deleted exactly once and no pointer is left.
pub jni_on_unload_clears :
    (o : ℕ) (a : LoadAnswers) (found : Bool)
    → let r = jni_on_load no_globals a in
      let (g, es) = jni_on_unload r.globals true found in
      (g ≡ no_globals) × (globals_made o r.events ≡ globals_deleted o (r.events ++ es))
unfolding jni_on_unload
jni_on_unload_clears o a found =
    let r = jni_on_load no_globals a in
    (
      refl,
      omega (
        arith,
        (jni_on_load_counts o a).1,
        jni_on_unload_deletes o r.globals found,
        globals_deleted-append o r.events (jni_on_unload r.globals true found).1,
      ),
    )
