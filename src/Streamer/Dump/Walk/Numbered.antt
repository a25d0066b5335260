-- ===== src/Streamer/Dump/Walk/Numbered.antt =====
-- Which elements a dump shows, and under which numbers.
use my_stream_out_app.Base.{
  ℕ, ◌≡◌, refl, ap, ◌∙◌, inl, inr, true, Option, none, some, List, [], ◌∷◌, ◌++◌, arith, Bool-cases,
  length, All, ◌==◌,
}
use mathlib.Core.List.{append-nil}
use my_stream_out_app.Base.Text.{Text}
use my_stream_out_app.Streamer.Dump.{next_count}
use my_stream_out_app.Streamer.Session.{Session}
use my_stream_out_app.Streamer.Dump.Walk.{
  WalkAnswer, finished, Tag, audio, video, WalkEvent, new_iterator, free_iterator, total_line,
  DumpAnswers, appsrc_lines, limit_lines, dump_log,
}
use my_stream_out_app.Streamer.Dump.Walk.Freed.{IsBalanced, append-IsBalanced}
use my_stream_out_app.Streamer.Dump.Walk.Listed.{
  goes_on, come_up, numbered, walk-numbered, listed, totals, enumerate, listed-append,
  totals-append, walked, walked-listed, walk-goes_on,
}

-- The lines before and after the walk number nothing and hold nothing.
abbrev Quiet : List WalkEvent → Type 0
Quiet es = (listed es ≡ []) × (totals es ≡ []) × IsBalanced es

appsrc_lines-Quiet : (t : Tag) (x : Option ℕ) (name : Text) → Quiet (appsrc_lines t x name)
appsrc_lines-Quiet t none name = (refl, refl, λ r. refl)
appsrc_lines-Quiet t (some x) name = (refl, refl, λ r. refl)

limit_lines-Quiet : (s : Session) → Quiet (limit_lines s)
limit_lines-Quiet s = elim (Bool-cases s.flags.pipeline_dot_dump_enable) [
  | inl e ↦ elim (Bool-cases (next_count s.dot_dump_count == 4)) [
    | inl q ↦ simp (e, q) (refl, refl, λ r. refl)
    | inr q ↦ simp (e, q) (refl, refl, λ r. refl)
  ]
  | inr e ↦ simp (e) (refl, refl, λ r. refl)
]

-- The log of a dump around its walk.
around : Session → DumpAnswers → List WalkEvent → List WalkEvent
around s a w =
    appsrc_lines video s.handles.appsrc a.appsrc_name
    ++ (appsrc_lines audio s.handles.audio_appsrc a.audio_appsrc_name ++ (w ++ limit_lines s))

around-listed :
    (s : Session) (a : DumpAnswers) (w : List WalkEvent)
    → IsBalanced w
    → (listed (around s a w) ≡ listed w)
      × (totals (around s a w) ≡ totals w)
      × IsBalanced (around s a w)
unfolding around
around-listed s a w h =
    let v = appsrc_lines video s.handles.appsrc a.appsrc_name in
    let u = appsrc_lines audio s.handles.audio_appsrc a.audio_appsrc_name in
    let (lv, tv, bv) = appsrc_lines-Quiet video s.handles.appsrc a.appsrc_name in
    let (lu, tu, bu) = appsrc_lines-Quiet audio s.handles.audio_appsrc a.audio_appsrc_name in
    let (ll, tl, bl) = limit_lines-Quiet s in
    (
      simp (listed-append, lv, lu, ll, append-nil) refl,
      simp (totals-append, tv, tu, tl, append-nil) refl,
      append-IsBalanced v (u ++ (w ++ limit_lines s)) bv
          (append-IsBalanced u (w ++ limit_lines s) bu (append-IsBalanced w (limit_lines s) h bl)),
    )

dump_log_ends :
    (s : Session) (a : DumpAnswers) (p : ℕ) (before rest : List WalkAnswer)
    → s.handles.full_pipeline ≡ some p
    → All (λ x. goes_on x ≡ true) before
    → dump_log s (record a { elements = some (before ++ (finished ∷ rest)) })
      ≡ some (around s a (walked (come_up before)))
unfolding dump_log walked around
dump_log_ends s a p before rest h g =
    simp (h, walk-numbered before rest 0 g, dump_log)
      (ap
        (λ m. some (
          around s a
            (new_iterator ∷ (numbered 0 (come_up before) ++ (free_iterator ∷ total_line m ∷ [])))))
        (omega arith))

dump_log-goes_on :
    (s : Session) (a : DumpAnswers) (p : ℕ) (before : List WalkAnswer)
    → s.handles.full_pipeline ≡ some p
    → All (λ x. goes_on x ≡ true) before
    → dump_log s (record a { elements = some before }) ≡ none
unfolding dump_log
dump_log-goes_on s a p before h g = simp (h, walk-goes_on before 0 g, dump_log) refl

-- A dump of the cached pipeline ends as soon as the iterator gives a last answer: it shows each element
-- that came up before, numbered from 1 on in that order (an element that comes up again after a resync
-- gets another number), gives their count as the total, and gives back every iterator, caps and text
-- that it took. While the iterator gives none, the dump does not end.
pub dump_log-listed :
    (s : Session) (a : DumpAnswers) (p : ℕ) (before rest : List WalkAnswer)
    → s.handles.full_pipeline ≡ some p
    → All (λ x. goes_on x ≡ true) before
    → ((es : List WalkEvent) × (dump_log s
            (record a { elements = some (before ++ (finished ∷ rest)) })
          ≡ some es)
        × (listed es ≡ enumerate 1 (come_up before))
        × (totals es ≡ length (come_up before) ∷ [])
        × IsBalanced es)
      × (dump_log s (record a { elements = some before }) ≡ none)
dump_log-listed s a p before rest h g =
    let (lw, tw, bw) = walked-listed (come_up before) in
    let (la, ta, ba) = around-listed s a (walked (come_up before)) bw in
    (
      (
        around s a (walked (come_up before)),
        dump_log_ends s a p before rest h g,
        la ∙ lw,
        ta ∙ tw,
        ba,
      ),
      dump_log-goes_on s a p before h g,
    )
