-- ===== src/Streamer/Reports/Ready.antt =====
-- What Java is told of a start.
use my_stream_out_app.Base.{
  take_all, ℕ, ◌^◌, ◌<◌, ◌≡◌, refl, ap, ap₂, ◌∙◌, Bool, true, false, ◌&&◌, none, some, List, [],
  ◌∷◌, ◌++◌, map, arith, length-append, take, if◌then◌else◌,
}
use my_stream_out_app.Base.Int.{ℤ, pos}
use my_stream_out_app.Base.Text.{Text, codes, atoi}
use my_stream_out_app.Base.Decimal.{decimal, digits, atoi-decimal, length-digits, length-decimal}
use my_stream_out_app.Entry.{
  Globals, no_globals, LoadAnswers, jni_on_load, StatusAnswers, Event, is_cached,
  streamout_status_fb,
}
use my_stream_out_app.Entry.References.{jni_on_load_result}
use my_stream_out_app.Entry.Status.{reports, has_env, java_stream_status-reports}
use my_stream_out_app.Streamer.Session.{
  Session, StreamStatus, ready, Effect, status, factory_media_type, factory_avpf_only,
}
use my_stream_out_app.Streamer.Server.{
  Boot, set_timer, launch, listen, mount, serve, boot, gst_pipeline_init,
}
use my_stream_out_app.Streamer.Server.Start.{IsComplete}
use my_stream_out_app.Streamer.Reports.{status_code, port_text, ready_prefix, status_info, notify}

-- The reports among some effects.
abbrev pub statuses : List Effect → List StreamStatus
statuses [] = []
statuses (status x ∷ es) = x ∷ statuses es
statuses (_ ∷ es) = statuses es

-- The virtual machine, an environment, the enum's value and the text are there.
abbrev pub is_able : StatusAnswers → Bool
is_able v = v.vm && (has_env v && (v.enum_value && v.info_string))

reports-append : (xs ys : List Event) → reports (xs ++ ys) ≡ reports xs ++ reports ys
reports-append [] ys = refl
reports-append (x ∷ xs) ys = ground (arith, reports-append xs ys)

one_report :
    (g : Globals) (v : StatusAnswers) (code : ℤ) (info : Text)
    → is_cached g ≡ true
    → is_able v ≡ true
    → reports (streamout_status_fb g v (pos 0) code (some info)) ≡ (pos 0, code, info) ∷ []
unfolding streamout_status_fb
one_report g v code info c a =
    (java_stream_status-reports g v (pos 0) code (some info)).2 ∙ ground arith

reports-notify :
    (g : Globals) (v : StatusAnswers) (port : ℤ) (es : List Effect)
    → is_cached g ≡ true
    → is_able v ≡ true
    → reports (notify g v port es)
      ≡ map (λ x. (pos 0, status_code x, status_info port x)) (statuses es)
unfolding notify
reports-notify g v port [] c a = refl
reports-notify g v port (status x ∷ es) c a =
    reports-append (streamout_status_fb g v (pos 0) (status_code x) (some (status_info port x)))
      (notify g v port es)
    ∙ ap₂ ◌++◌ (one_report g v (status_code x) (status_info port x) c a)
        (reports-notify g v port es c a)
reports-notify g v port (_ ∷ es) c a = reports-notify g v port es c a

pub statuses-append : (xs ys : List Effect) → statuses (xs ++ ys) ≡ statuses xs ++ statuses ys
statuses-append [] ys = refl
statuses-append (x ∷ xs) ys = ground (arith, statuses-append xs ys)

port_text_whole : (n : ℕ) → port_text (pos n) ≡ decimal n
unfolding port_text decimal
port_text_whole n = take_all 15 (digits 10 n []) (omega (arith, length-digits 10 n []))

ready_info :
    (n : ℕ) → status_info (pos n) ready ≡ ready_prefix ++ (decimal n ++ codes "/camera.sdp")
unfolding status_info
ready_info n =
    ap (λ t. take 127 (ready_prefix ++ (t ++ codes "/camera.sdp"))) (port_text_whole n)
    ∙ take_all 127 (ready_prefix ++ (decimal n ++ codes "/camera.sdp"))
        (omega (arith, length-append (decimal n) (codes "/camera.sdp"), length-decimal n))

pub avpf_statuses :
    (f : ℕ) (x : Bool)
    → statuses (if x then factory_media_type f ∷ factory_avpf_only f ∷ [] else []) ≡ []
avpf_statuses f true = refl
avpf_statuses f false = refl

pub set_timer-statuses : (s : Session) (b : Boot) (c : ℕ) → statuses (set_timer s b c).1 ≡ []
unfolding set_timer
set_timer-statuses s b c = ground arith

-- A start that succeeds makes one report.
start_statuses :
    (s : Session) (b : Boot) (p : Text) (c l v f m src : ℕ)
    → s.handles.server ≡ none
    → IsComplete b p c l v f m src
    → b.thread_ok ≡ true
    → statuses (gst_pipeline_init s b).effects ≡ ready ∷ []
unfolding gst_pipeline_init boot serve mount listen launch
start_statuses s b p c l v f m src h i e =
    simp
      (
        h, e, i.pipeline_made, i.context_made, i.loop_made, i.server_made, i.factory_made,
        i.mounts_made, i.source_made, statuses-append, avpf_statuses, set_timer-statuses,
        gst_pipeline_init, boot, serve, mount, listen, launch,
      )
      refl

-- A start that succeeds, of a library that was loaded with success and while the virtual machine can
-- make the enum's value and the text, tells Java exactly once of stream 0 that it has the status ready,
-- with a text in which the port follows the fixed words: read as a number it is the port.
pub start-notify :
    (a : LoadAnswers) (v : StatusAnswers) (s : Session) (b : Boot) (p : Text) (c l w f m src n : ℕ)
    → (jni_on_load no_globals a).ok ≡ true
    → is_able v ≡ true
    → s.handles.server ≡ none
    → IsComplete b p c l w f m src
    → b.thread_ok ≡ true
    → b.port ≡ pos n
    → n < 2 ^ 31
    → (t : Text) × (reports
          (notify (jni_on_load no_globals a).globals v b.port (gst_pipeline_init s b).effects)
        ≡ (pos 0, pos 1, ready_prefix ++ t) ∷ [])
      × (atoi t ≡ pos n)
start-notify a v s b p c l w f m src n ok able h i e q bound =
    let g = (jni_on_load no_globals a).globals in
    let es = (gst_pipeline_init s b).effects in
    let cached : is_cached g ≡ true = (jni_on_load_result a).1 ∙ ok in
    (
      decimal n ++ codes "/camera.sdp",
      reports-notify g v b.port es cached able
          ∙ ap (map (λ x. (pos 0, status_code x, status_info b.port x)))
              (start_statuses s b p c l w f m src h i e)
          ∙ ap (λ x. (pos 0, pos 1, status_info x ready) ∷ []) q
          ∙ ap (λ t. (pos 0, pos 1, t) ∷ []) (ready_info n),
      atoi-decimal n (codes "/camera.sdp") bound refl,
    )
