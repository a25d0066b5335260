-- ===== src/Streamer/Dump/Walk/Listed.antt =====
-- What a walk over a pipeline lists: its elements, and the numbers that they get.
use my_stream_out_app.Base.{
  ℕ, ◌+◌, ◌≡◌, refl, sym, ap, ◌∙◌, inl, inr, Bool, true, false, none, some, List, [], ◌∷◌, ◌++◌,
  arith, Option-cases, length, All,
}
use mathlib.Core.List.{append_assoc, append-nil}
use my_stream_out_app.Streamer.Dump.Walk.{
  PadAnswer, pad, no_pad, stop, Seen, WalkAnswer, found, no_element, resync, finished, WalkEvent,
  new_iterator, free_iterator, element_line, total_line, pad_lines, visit, walk,
}
use my_stream_out_app.Streamer.Dump.Walk.Freed.{
  IsBalanced, append-IsBalanced, bracket-IsBalanced, visit-IsBalanced,
}

-- Any answer but the last.
abbrev pub goes_on : WalkAnswer → Bool
goes_on finished = false
goes_on (found e) = true
goes_on no_element = true
goes_on resync = true

-- The elements that come up.
abbrev pub come_up : List WalkAnswer → List Seen
come_up [] = []
come_up (found e ∷ answers) = e ∷ come_up answers
come_up (_ ∷ answers) = come_up answers

abbrev pub numbered : ℕ → List Seen → List WalkEvent
numbered n [] = []
numbered n (e ∷ es) = visit (n + 1) e ++ numbered (n + 1) es

pub walk-numbered :
    (before rest : List WalkAnswer) (n : ℕ)
    → All (λ a. goes_on a ≡ true) before
    → walk visit (before ++ (finished ∷ rest)) n
      ≡ some (
          numbered n (come_up before)
          ++ (free_iterator ∷ total_line (n + length (come_up before)) ∷ []))
unfolding walk
walk-numbered [] rest n h = ap (λ m. some (free_iterator ∷ total_line m ∷ [])) (omega arith)
walk-numbered (found e ∷ before) rest n (g, h) = rw (walk-numbered before rest (n + 1) h) (
    ap
      (λ m. some (
        visit (n + 1) e
        ++ (numbered (n + 1) (come_up before) ++ (free_iterator ∷ total_line m ∷ []))))
      (omega arith)
    ∙ ap some (sym (append_assoc (visit (n + 1) e) (numbered (n + 1) (come_up before)) _)))
walk-numbered (no_element ∷ before) rest n (g, h) = walk-numbered before rest n h
walk-numbered (resync ∷ before) rest n (g, h) = walk-numbered before rest n h
walk-numbered (finished ∷ before) rest n (g, h) = absurd (ground arith)

-- The elements that the log shows, each with its number.
abbrev pub listed : List WalkEvent → List (ℕ × Seen)
listed [] = []
listed (element_line n t e ∷ es) = (n, e) ∷ listed es
listed (_ ∷ es) = listed es

abbrev pub totals : List WalkEvent → List ℕ
totals [] = []
totals (total_line n ∷ es) = n ∷ totals es
totals (_ ∷ es) = totals es

-- The elements counted from a number on.
abbrev pub enumerate : ℕ → List Seen → List (ℕ × Seen)
enumerate n [] = []
enumerate n (e ∷ es) = (n, e) ∷ enumerate (n + 1) es

pub listed-append : (xs ys : List WalkEvent) → listed (xs ++ ys) ≡ listed xs ++ listed ys
listed-append [] ys = refl
listed-append (x ∷ xs) ys = ground (arith, listed-append xs ys)

pub totals-append : (xs ys : List WalkEvent) → totals (xs ++ ys) ≡ totals xs ++ totals ys
totals-append [] ys = refl
totals-append (x ∷ xs) ys = ground (arith, totals-append xs ys)

pad_lines-listed :
    (answers : List PadAnswer)
    → (listed (pad_lines answers) ≡ []) × (totals (pad_lines answers) ≡ [])
unfolding pad_lines
pad_lines-listed [] = (refl, refl)
pad_lines-listed (pad n linked none ∷ answers) = pad_lines-listed answers
pad_lines-listed (pad n linked (some c) ∷ answers) = pad_lines-listed answers
pad_lines-listed (no_pad ∷ answers) = pad_lines-listed answers
pad_lines-listed (stop ∷ answers) = (refl, refl)

visit-listed : (n : ℕ) (e : Seen) → (listed (visit n e) ≡ (n, e) ∷ []) × (totals (visit n e) ≡ [])
unfolding visit
visit-listed n e = elim (Option-cases e.pads) [
  | inl h ↦ simp (h, visit) (refl, refl)
  | inr (answers, h) ↦
      let (a, b) = pad_lines-listed answers in
      simp (h, visit, listed-append, totals-append, a, b) (refl, refl)
]

numbered-listed :
    (n : ℕ) (es : List Seen)
    → (listed (numbered n es) ≡ enumerate (n + 1) es) × (totals (numbered n es) ≡ [])
numbered-listed n [] = (refl, refl)
numbered-listed n (e ∷ es) =
    let (a, b) = visit-listed (n + 1) e in
    let (c, d) = numbered-listed (n + 1) es in
    simp (listed-append, totals-append, a, b, c, d) (refl, refl)

numbered-IsBalanced : (n : ℕ) (es : List Seen) → IsBalanced (numbered n es)
numbered-IsBalanced n [] r = refl
numbered-IsBalanced n (e ∷ es) r =
    append-IsBalanced (visit (n + 1) e) (numbered (n + 1) es) (visit-IsBalanced (n + 1) e)
      (numbered-IsBalanced (n + 1) es) r

-- The walk between them.
unfoldable pub walked : List Seen → List WalkEvent
walked es = new_iterator ∷ (numbered 0 es ++ (free_iterator ∷ total_line (length es) ∷ []))

pub walked-listed :
    (es : List Seen)
    → (listed (walked es) ≡ enumerate 1 es)
      × (totals (walked es) ≡ length es ∷ [])
      × IsBalanced (walked es)
unfolding walked
walked-listed es =
    let (a, b) = numbered-listed 0 es in
    (
      simp (listed-append, a, append-nil) refl,
      simp (totals-append, b) refl,
      bracket-IsBalanced (numbered 0 es) (total_line (length es) ∷ []) (numbered-IsBalanced 0 es)
          (λ r. refl),
    )

pub walk-goes_on :
    (before : List WalkAnswer) (n : ℕ)
    → All (λ x. goes_on x ≡ true) before
    → walk visit before n ≡ none
unfolding walk
walk-goes_on [] n h = refl
walk-goes_on (found e ∷ before) n (g, h) = rw (walk-goes_on before (n + 1) h) refl
walk-goes_on (no_element ∷ before) n (g, h) = walk-goes_on before n h
walk-goes_on (resync ∷ before) n (g, h) = walk-goes_on before n h
walk-goes_on (finished ∷ before) n (g, h) = absurd (ground arith)
