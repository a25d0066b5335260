-- ===== src/Debug/Jni.antt =====
-- How app/src/main/cpp/cam2_streamout_debug.cpp reaches the static methods of the Java class
-- Camera2GstStreamer: cam2_dbg_call_int_setter, cam2_dbg_call_bool_setter and the JNI part of
-- cam2_dbg_dump_all_config. What the Java virtual machine answers is a parameter.
use my_stream_out_app.Base.{
  ℕ, ◌+◌, ◌≡◌, Bool, true, false, ◌&&◌, List, [], ◌∷◌, ◌++◌, arith, if◌then◌else◌,
}
use my_stream_out_app.Base.Int.{ℤ}
use my_stream_out_app.Base.Text.{Text}

-- GetEnv: the thread is attached, it is not, or the call fails.
pub data EnvResult : Type 0 where
  attached detached failed : EnvResult

-- The answers of the virtual machine; `present` is `g_vm`.
pub record Vm : Type 0 where
  pub present : Bool
  pub env : EnvResult
  pub attach_ok : Bool
  pub class_found : Bool
  pub method_found : Bool
  pub summary_returned : Bool
  pub summary_readable : Bool
  pub exception_pending : Bool

-- The static method that is called.
pub data Java : Type 0 where
  set_int : Text → ℤ → Java
  set_bool : Text → Bool → Java
  config_summary : Java

pub data JniEvent : Type 0 where
  attach detach : JniEvent
  call : Java → JniEvent
  new_local delete_local : JniEvent
  get_chars release_chars : JniEvent
  clear_exception : JniEvent

-- What follows the call of a method: only getConfigSummary returns an object.
abbrev pub after_call : Vm → Java → List JniEvent
after_call vm config_summary =
    if vm.summary_returned
    then new_local
      ∷ ((if vm.summary_readable then get_chars ∷ release_chars ∷ [] else [])
          ++ (delete_local ∷ []))
    else []
after_call vm _ = []

-- From FindClass to ExceptionClear.
abbrev pub with_class : Vm → Java → List JniEvent
with_class vm j =
    (if vm.class_found
      then new_local
        ∷ ((if vm.method_found then call j ∷ after_call vm j else []) ++ (delete_local ∷ []))
      else [])
    ++ (if vm.exception_pending then clear_exception ∷ [] else [])

unfoldable pub call_java : Vm → Java → List JniEvent
call_java vm j =
    if vm.present
    then elim vm.env [
      | attached ↦ with_class vm j
      | detached ↦ if vm.attach_ok then attach ∷ (with_class vm j ++ (detach ∷ [])) else []
      | failed ↦ []
    ]
    else []

-- The events with a weight each, added up.
abbrev pub total : (JniEvent → ℕ) → List JniEvent → ℕ
total w [] = 0
total w (e ∷ es) = w e + total w es

abbrev pub attaches : JniEvent → ℕ
attaches attach = 1
attaches _ = 0

abbrev pub detaches : JniEvent → ℕ
detaches detach = 1
detaches _ = 0

abbrev pub locals_made : JniEvent → ℕ
locals_made new_local = 1
locals_made _ = 0

abbrev pub locals_freed : JniEvent → ℕ
locals_freed delete_local = 1
locals_freed _ = 0

abbrev pub chars_taken : JniEvent → ℕ
chars_taken get_chars = 1
chars_taken _ = 0

abbrev pub chars_released : JniEvent → ℕ
chars_released release_chars = 1
chars_released _ = 0

-- The calls of Java methods among the events.
abbrev pub calls : List JniEvent → List Java
calls [] = []
calls (call j ∷ es) = j ∷ calls es
calls (_ ∷ es) = calls es

-- The thread can run Java code.
abbrev pub is_reachable : Vm → Bool
is_reachable vm = elim vm.env [ attached ↦ true | detached ↦ vm.attach_ok | failed ↦ false ]

-- A call to Java, whatever the virtual machine answers, detaches the thread as often as it attaches
-- it, frees as many local references as it makes, and releases the characters that it takes; and it
-- calls the method exactly once if the machine, an environment, the class and the method are there,
-- and otherwise not at all.
pub call_java_balance :
    (vm : Vm) (j : Java)
    → let es = call_java vm j in
      (total attaches es ≡ total detaches es)
      × (total locals_made es ≡ total locals_freed es)
      × (total chars_taken es ≡ total chars_released es)
      × (calls es ≡ (
          if vm.present && (is_reachable vm && (vm.class_found && vm.method_found))
          then j ∷ []
          else []))
unfolding call_java
call_java_balance vm j = ground arith
