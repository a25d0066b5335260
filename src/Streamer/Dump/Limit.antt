-- ===== src/Streamer/Dump/Limit.antt =====
-- The limit on graphs, and the core that is picked.
use my_stream_out_app.Base.{
  ℕ, zero, suc, ◌+◌, ◌<◌, ◌≡◌, ◌⊎◌, inl, inr, refl, ap, ◌∙◌, Bool, true, false, ◌&&◌, Option, none,
  some, List, [], ◌∷◌, ltb, leb, lt→ltb, ◌^◌, if◌then◌else◌, take, drop, arith, Bool-cases,
}
use my_stream_out_app.Streamer.Session.{Session}
use my_stream_out_app.Streamer.Dump.{
  next_count, periodic_file, dump_audio_video_pipeline, dump_pipeline_now, pick_perf_cpu,
}

abbrev cons_file : Option ℕ → List ℕ → List ℕ
cons_file none ns = ns
cons_file (some n) ns = n ∷ ns

-- The numbers of the graphs that the timer asks for when it fires some times in a row.
abbrev pub files : ℕ → Session → List ℕ
files zero s = []
files (suc k) s = cons_file (periodic_file s) (files k (dump_audio_video_pipeline s).0)

-- The core is an online one other than core 0, with no online one above it, or core 0 if there is
-- none.
pub pick_perf_cpu_highest :
    (n : ℕ) (online : ℕ → Bool)
    → let c = pick_perf_cpu n online in
      ((c ≡ 0) ⊎ ((0 < c) × (c < n) × (online c ≡ true)))
      × ((i : ℕ) → c < i → i < n → online i ≡ false)
unfolding pick_perf_cpu
pick_perf_cpu_highest zero online = (inl refl, λ i h l. absurd (omega arith))
pick_perf_cpu_highest (suc n) online =
    let (a, b) = pick_perf_cpu_highest n online in
    elim (Bool-cases (ltb 0 n && online n)) [
      | inl e ↦ simp (e, pick_perf_cpu) (inr (ground arith), λ i h l. absurd (omega arith))
      | inr e ↦
          simp (e, pick_perf_cpu)
            (
              elim a [ inl z ↦ inl z | inr (x, y, w) ↦ inr (x, omega arith, w) ],
              λ i h l. elim (Bool-cases (ltb i n)) [
                | inl q ↦ b i h (ground arith)
                | inr q ↦
                    let w : i ≡ n = ground arith in rw (w) (simp (lt→ltb 0 n (omega arith)) at e)
              ],
            )
    ]

-- The graphs that are left of three when some have been counted.
abbrev left : ℕ → List ℕ
left c = drop c (1 ∷ 2 ∷ 3 ∷ [])

no_files : (k c : ℕ) → take {A = ℕ} k (drop c []) ≡ []
no_files zero c = refl
no_files (suc k) zero = refl
no_files (suc k) (suc c) = refl

full : (c : ℕ) → leb (suc (suc (suc c)) + 1) 3 ≡ false
full c = ground arith

-- One more firing.
one_more :
    (k c : ℕ)
    → cons_file (if leb (c + 1) 3 then some (c + 1) else none) (take k (left (c + 1)))
      ≡ take (suc k) (left c)
one_more k zero = refl
one_more k (suc zero) = refl
one_more k (suc (suc zero)) = refl
one_more k (suc (suc (suc c))) =
    let succ : suc (suc (suc c)) + 1 ≡ suc (suc (suc (suc c))) = omega arith in
    simp (full c, no_files (suc k) c) (ap (λ n. take k (left n)) succ ∙ no_files k (suc c))

pub next_count_small : (n : ℕ) → n + 1 < 2 ^ 32 → next_count n ≡ n + 1
unfolding next_count
next_count_small n h = omega arith

files_from :
    (k : ℕ) (s : Session) (p c : ℕ)
    → s.handles.full_pipeline ≡ some p
    → s.flags.pipeline_dot_dump_enable ≡ true
    → s.dot_dump_count ≡ c
    → c + k < 2 ^ 32
    → files k s ≡ take k (left c)
unfolding periodic_file dump_audio_video_pipeline
files_from zero s p c h e q b = refl
files_from (suc k) s p c h e q b =
    simp (h, e, q, next_count_small c (omega arith), periodic_file, dump_audio_video_pipeline)
      (ap (cons_file (if leb (c + 1) 3 then some (c + 1) else none))
          (files_from k (record s { dot_dump_count = c + 1 }) p (c + 1) h e refl (omega arith))
        ∙ one_more k c)

-- However often the dump timer fires with graph files switched on and a pipeline cached, it asks for
-- the graphs 1, 2 and 3 less as many of them as have been counted before, and then for no more, while
-- the 32-bit counter does not wrap.
pub files_limit :
    (k : ℕ) (s : Session) (p : ℕ)
    → s.handles.full_pipeline ≡ some p
    → s.flags.pipeline_dot_dump_enable ≡ true
    → s.dot_dump_count + k < 2 ^ 32
    → files k s ≡ take k (drop s.dot_dump_count (1 ∷ 2 ∷ 3 ∷ []))
files_limit k s p h e b = files_from k s p s.dot_dump_count h e refl b

-- A dump on demand uses up one of the timer's three graphs: after it the timer asks for one fewer,
-- while the 32-bit counter does not wrap.
pub dump_pipeline_now_counts :
    (k : ℕ) (s : Session) (p : ℕ)
    → s.handles.full_pipeline ≡ some p
    → s.flags.pipeline_dot_dump_enable ≡ true
    → s.dot_dump_count + 1 + k < 2 ^ 32
    → files k (dump_pipeline_now s).0 ≡ take k (drop (s.dot_dump_count + 1) (1 ∷ 2 ∷ 3 ∷ []))
unfolding dump_pipeline_now dump_audio_video_pipeline
dump_pipeline_now_counts k s p h e b =
    simp
      (
        h,
        e,
        next_count_small s.dot_dump_count (omega arith),
        dump_pipeline_now,
        dump_audio_video_pipeline,
      )
      (files_limit k (record s { dot_dump_count = s.dot_dump_count + 1 }) p h e b)
