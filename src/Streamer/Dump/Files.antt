-- ===== src/Streamer/Dump/Files.antt =====
-- The files of the graphs that the dump timer asks for, of app/src/main/cpp/camera2_gst_streamer.cpp.
pub mod Different
pub mod Named
use my_stream_out_app.Base.{
  ap₂, drop-length, get_elem?, ◌%◌, ◌/◌, take_all, ℕ, zero, suc, ◌+◌, ◌-◌, ◌^◌, inl, inr, ◌<◌, ◌≤◌,
  ◌≡◌, ◌≢◌, refl, sym, ap, ◌∙◌, true, false, Option, none, some, List, [], ◌∷◌, ◌++◌, leb, drop,
  take, length, length-append, arith, if◌then◌else◌, All, Bool-cases,
}
use my_stream_out_app.Base.Text.{Text, codes}
use my_stream_out_app.Base.Decimal.{decimal, digits, length-decimal}
use my_stream_out_app.Streamer.Session.{Session}
use my_stream_out_app.Streamer.Dump.{next_count, periodic_file, dump_audio_video_pipeline}
use my_stream_out_app.Streamer.Dump.Limit.{next_count_small}
use my_stream_out_app.Streamer.Dump.Dot.{
  dir_size, snprintf, full_name, DotAnswers, FileEvent, make_data, free_data, close_file, open_file,
  write_file, dump_pipeline_to_dot_file,
}
use my_stream_out_app.Streamer.Dump.Dot.Path.{with_slash, dump_pipeline_to_dot_file_path}

-- dot_suffix
abbrev pub periodic_suffix : ℕ → Text
periodic_suffix n = snprintf 64 (codes "periodic-" ++ decimal n)

-- What one dump of the timer does with files.
unfoldable pub periodic_dot : Session → DotAnswers → List FileEvent
unfolding periodic_file
periodic_dot s a = elim (periodic_file s) [
  | none ↦ []
  | some n ↦
      dump_pipeline_to_dot_file s.handles.full_pipeline s.flags.pipeline_dot_output_dir
        (periodic_suffix n) a
]

-- The timer fires once for each of the answers.
abbrev pub timer_files : Session → List DotAnswers → List FileEvent
timer_files s [] = []
timer_files s (a ∷ bs) = periodic_dot s a ++ timer_files (dump_audio_video_pipeline s).0 bs

-- The names of the files that are opened.
abbrev pub names : List FileEvent → List Text
names [] = []
names (open_file n ∷ es) = n ∷ names es
names (_ ∷ es) = names es

-- The directory is there, the graph is made and every file can be opened.
pub record IsWilling (dir : Text) (a : DotAnswers) : Type 0 where
  pub short_time : length a.timestamp ≤ 63
  pub dir_exists : a.exists dir ≡ true
  pub dir_writable : a.is_writable dir ≡ true
  pub graph_made : (d : List ℕ) × (a.dot_data ≡ some d)
  pub opens : (name : Text) → a.can_open name ≡ true

-- The name that the graph `n` has at that time.
abbrev pub graph_name : Text → ℕ → DotAnswers → Text
graph_name dir n a =
    dir
    ++ (codes "gst-pipeline-periodic-"
        ++ (decimal n ++ (codes "." ++ (a.timestamp ++ codes ".dot"))))

-- The names of graphs with these numbers, at these times.
abbrev pub graph_names : Text → List ℕ → List DotAnswers → List Text
graph_names dir [] bs = []
graph_names dir (n ∷ ns) [] = []
graph_names dir (n ∷ ns) (a ∷ bs) = graph_name dir n a ∷ graph_names dir ns bs

-- No two are the same.
abbrev pub Distinct : List Text → Type 0
Distinct [] = Unit
Distinct (t ∷ ts) = All (λ u. t ≢ u) ts × Distinct ts

-- The graphs that are left of three when some have been counted.
abbrev pub left : ℕ → List ℕ
left c = drop c (1 ∷ 2 ∷ 3 ∷ [])
