-- ===== src/Streamer/Dump/Files/Named.antt =====
-- Which files the dump timer opens.
use my_stream_out_app.Base.{
  ap₂, take_all, ℕ, zero, suc, ◌+◌, ◌-◌, ◌^◌, inl, inr, ◌<◌, ◌≤◌, ◌≡◌, refl, sym, ap, ◌∙◌, true,
  false, some, List, [], ◌∷◌, ◌++◌, leb, drop, length, length-append, arith, if◌then◌else◌, All,
  Bool-cases,
}
use my_stream_out_app.Base.Text.{Text, codes}
use my_stream_out_app.Base.Decimal.{decimal, length-decimal}
use my_stream_out_app.Streamer.Session.{Session}
use my_stream_out_app.Streamer.Dump.{next_count, periodic_file, dump_audio_video_pipeline}
use my_stream_out_app.Streamer.Dump.Limit.{next_count_small}
use my_stream_out_app.Streamer.Dump.Dot.{dir_size, DotAnswers, FileEvent, dump_pipeline_to_dot_file}
use my_stream_out_app.Streamer.Dump.Dot.Path.{with_slash, dump_pipeline_to_dot_file_path}
use my_stream_out_app.Streamer.Dump.Files.{
  periodic_suffix, periodic_dot, timer_files, names, IsWilling, graph_name, graph_names, Distinct,
  left,
}
use my_stream_out_app.Streamer.Dump.Files.Different.{graph_names-Distinct, left-Rising}

names-append : (xs ys : List FileEvent) → names (xs ++ ys) ≡ names xs ++ names ys
names-append [] ys = refl
names-append (x ∷ xs) ys = ground (arith, names-append xs ys)

-- The suffix is not cut off.
suffix_whole : (n : ℕ) → periodic_suffix n ≡ codes "periodic-" ++ decimal n
suffix_whole n =
    take_all 63 (codes "periodic-" ++ decimal n)
      (omega (arith, length-append (codes "periodic-") (decimal n), length-decimal n))

length-suffix : (n : ℕ) → length (codes "periodic-" ++ decimal n) ≤ 63
length-suffix n = omega (arith, length-append (codes "periodic-") (decimal n), length-decimal n)

no_names : (dir : Text) (c : ℕ) (bs : List DotAnswers) → graph_names dir (drop c []) bs ≡ []
no_names dir zero bs = refl
no_names dir (suc c) bs = refl

too_many : (c : ℕ) → leb (suc (suc (suc c)) + 1) 3 ≡ false
too_many c = ground arith

-- One more firing.
one_more :
    (dir : Text) (c : ℕ) (a : DotAnswers) (bs : List DotAnswers)
    → (if leb (c + 1) 3 then graph_name dir (c + 1) a ∷ [] else [])
        ++ graph_names dir (left (c + 1)) bs
      ≡ graph_names dir (left c) (a ∷ bs)
one_more dir zero a bs = refl
one_more dir (suc zero) a bs = refl
one_more dir (suc (suc zero)) a bs = refl
one_more dir (suc (suc (suc c))) a bs =
    let succ : suc (suc (suc c)) + 1 ≡ suc (suc (suc (suc c))) = omega arith in
    simp (too_many c, no_names dir c (a ∷ bs))
      (ap (λ n. graph_names dir (left n) bs) succ ∙ no_names dir (suc c) bs)

dump_name :
    (a : DotAnswers) (p c : ℕ) (t : Text) (n : ℕ)
    → length (c ∷ t) < dir_size - 1
    → IsWilling (with_slash (c ∷ t)) a
    → names (dump_pipeline_to_dot_file (some p) (c ∷ t) (periodic_suffix n) a)
      ≡ graph_name (with_slash (c ∷ t)) n a ∷ []
dump_name a p c t n k w =
    let (d, g) = w.graph_made in
    ap (λ x. names (dump_pipeline_to_dot_file (some p) (c ∷ t) x a)) (suffix_whole n)
    ∙ ap names (
        dump_pipeline_to_dot_file_path p c t (codes "periodic-" ++ decimal n) a d k
          (length-suffix n) w.short_time w.dir_exists w.dir_writable g
          (w.opens (graph_name (with_slash (c ∷ t)) n a)))

-- The name of the file of one dump.
one_dot :
    (s : Session) (a : DotAnswers) (p c : ℕ) (t : Text) (n : ℕ)
    → s.handles.full_pipeline ≡ some p
    → s.flags.pipeline_dot_dump_enable ≡ true
    → s.flags.pipeline_dot_output_dir ≡ c ∷ t
    → length (c ∷ t) < dir_size - 1
    → s.dot_dump_count ≡ n
    → n + 1 < 2 ^ 32
    → IsWilling (with_slash (c ∷ t)) a
    → names (periodic_dot s a)
      ≡ (if leb (n + 1) 3 then graph_name (with_slash (c ∷ t)) (n + 1) a ∷ [] else [])
unfolding periodic_dot periodic_file
one_dot s a p c t n h e q k r b w = elim (Bool-cases (leb (n + 1) 3)) [
  | inl f ↦
      simp (h, e, q, r, next_count_small n b, f, periodic_dot, periodic_file)
        (dump_name a p c t (n + 1) k w)
  | inr f ↦ simp (h, e, r, next_count_small n b, f, periodic_dot, periodic_file) refl
]

no_times : (dir : Text) (ns : List ℕ) → graph_names dir ns [] ≡ []
no_times dir [] = refl
no_times dir (n ∷ ns) = refl

-- The session after one dump.
counted :
    (s : Session) (p n : ℕ)
    → s.handles.full_pipeline ≡ some p
    → s.flags.pipeline_dot_dump_enable ≡ true
    → s.dot_dump_count ≡ n
    → n + 1 < 2 ^ 32
    → (dump_audio_video_pipeline s).0 ≡ record s { dot_dump_count = n + 1 }
unfolding dump_audio_video_pipeline
counted s p n h e r b =
    simp (h, e, dump_audio_video_pipeline)
      (ap (λ d. record s { dot_dump_count = d }) (ap next_count r ∙ next_count_small n b))

timer_names_from :
    (bs : List DotAnswers) (s : Session) (p c : ℕ) (t : Text) (n : ℕ)
    → s.handles.full_pipeline ≡ some p
    → s.flags.pipeline_dot_dump_enable ≡ true
    → s.flags.pipeline_dot_output_dir ≡ c ∷ t
    → length (c ∷ t) < dir_size - 1
    → s.dot_dump_count ≡ n
    → n + length bs < 2 ^ 32
    → All (IsWilling (with_slash (c ∷ t))) bs
    → names (timer_files s bs) ≡ graph_names (with_slash (c ∷ t)) (left n) bs
unfolding dump_audio_video_pipeline
timer_names_from [] s p c t n h e q k r b w = sym (no_times (with_slash (c ∷ t)) (left n))
timer_names_from (a ∷ bs) s p c t n h e q k r b (w, ws) =
    let dir = with_slash (c ∷ t) in
    let s' = record s { dot_dump_count = n + 1 } in
    let small : n + 1 < 2 ^ 32 = omega arith in
    names-append (periodic_dot s a) (timer_files (dump_audio_video_pipeline s).0 bs)
    ∙ ap₂ ◌++◌ (one_dot s a p c t n h e q k r small w) (
        ap (λ x. names (timer_files x bs)) (counted s p n h e r small)
        ∙ timer_names_from bs s' p c t (n + 1) h e q k refl (omega arith) ws)
    ∙ one_more dir n a bs

-- However often the dump timer fires with graph files switched on and a pipeline cached, with a
-- directory of at most 510 bytes that is there and can be written, a graph that is made, files that can
-- be opened, and times of at most 63 bytes: the files that it opens are
-- "gst-pipeline-periodic-<n>.<time>.dot" of that directory for n = 1, 2, 3, less as many of them as have
-- been counted before, each name whole, and then none; and no two of them have the same name. The 32-bit
-- counter does not wrap meanwhile.
pub names-timer_files :
    (bs : List DotAnswers) (s : Session) (p c : ℕ) (t : Text)
    → s.handles.full_pipeline ≡ some p
    → s.flags.pipeline_dot_dump_enable ≡ true
    → s.flags.pipeline_dot_output_dir ≡ c ∷ t
    → length (c ∷ t) < dir_size - 1
    → s.dot_dump_count + length bs < 2 ^ 32
    → All (IsWilling (with_slash (c ∷ t))) bs
    → (names (timer_files s bs)
        ≡ graph_names (with_slash (c ∷ t)) (drop s.dot_dump_count (1 ∷ 2 ∷ 3 ∷ [])) bs)
      × Distinct (names (timer_files s bs))
names-timer_files bs s p c t h e q k b w =
    let dir = with_slash (c ∷ t) in
    let named = timer_names_from bs s p c t s.dot_dump_count h e q k refl b w in
    (
      named,
      rw (named)
          (graph_names-Distinct dir (left s.dot_dump_count) bs (left-Rising s.dot_dump_count)),
    )
