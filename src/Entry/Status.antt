-- ===== src/Entry/Status.antt =====
-- How a status reaches Java.
use my_stream_out_app.Base.{
  ℕ, ◌+◌, ◌≡◌, Bool, true, false, ◌&&◌, Option, List, [], ◌∷◌, if◌then◌else◌, arith,
}
use my_stream_out_app.Base.Int.{ℤ}
use my_stream_out_app.Base.Text.{Text}
use my_stream_out_app.Debug.Jni.{attached, detached, failed}
use my_stream_out_app.Entry.{
  Globals, Event, attach, detach, stream_status, StatusAnswers, is_cached, safe_info,
  java_stream_status,
}
use my_stream_out_app.Entry.References.{locals_made, locals_deleted}

abbrev pub attaches : List Event → ℕ
attaches [] = 0
attaches (attach ∷ es) = 1 + attaches es
attaches (_ ∷ es) = attaches es

abbrev pub detaches : List Event → ℕ
detaches [] = 0
detaches (detach ∷ es) = 1 + detaches es
detaches (_ ∷ es) = detaches es

-- The reports among the events.
abbrev pub reports : List Event → List (ℤ × ℤ × Text)
reports [] = []
reports (stream_status i c t ∷ es) = (i, c, t) ∷ reports es
reports (_ ∷ es) = reports es

abbrev pub has_env : StatusAnswers → Bool
has_env v = elim v.env [ attached ↦ true | detached ↦ v.attach_ok | failed ↦ false ]

-- A status report, whatever the virtual machine answers, detaches the thread just if it attached it
-- and deletes the local references that it makes; and Java gets the report exactly once if the
-- classes are cached, there is an environment, the number is one of a status and the text can be made,
-- and otherwise not at all.
pub java_stream_status-reports :
    (g : Globals) (v : StatusAnswers) (stream_id status_code : ℤ) (info : Option Text)
    → let es = java_stream_status g v stream_id status_code info in
      (attaches es ≡ detaches es)
      × (locals_made es ≡ locals_deleted es)
      × (reports es ≡ (
          if (v.vm && is_cached g) && (has_env v && (v.enum_value && v.info_string))
          then (stream_id, status_code, safe_info info) ∷ []
          else []))
unfolding java_stream_status
java_stream_status-reports g v stream_id status_code info = ground arith
