-- ===== src/Tests/Dot.antt =====
-- A graph that is written.
use my_stream_out_app.Base.{◌≡◌, refl, true, some, [], ◌∷◌, arith}
use my_stream_out_app.Base.Text.{Text, codes}
use my_stream_out_app.Streamer.Dump.Dot.{DotAnswers}
use my_stream_out_app.Streamer.Dump.Files.{names, timer_files, IsWilling, graph_name, Distinct}
use my_stream_out_app.Streamer.Dump.Files.Named.{names-timer_files}
use my_stream_out_app.Streamer.Session.{Session}
use my_stream_out_app.Tests.Samples.{live}
use my_stream_out_app.Streamer.Dump.Dot.Path.{with_slash}

abbrev graphs : Text
graphs = codes "/sdcard/graphs"

abbrev noon : DotAnswers
noon = record {
  exists = λ s. true;
  is_writable = λ s. true;
  dot_data = some (1 ∷ 2 ∷ 3 ∷ []);
  timestamp = codes "20260101-120000";
  can_open = λ s. true;
  written = 3;
}

-- The directory is set and nothing has been counted.
abbrev dumping : Session
dumping = record live { flags = record live.flags { pipeline_dot_output_dir = graphs } }

noon-IsWilling : IsWilling (with_slash graphs) noon
noon-IsWilling = record {
  short_time = omega arith;
  dir_exists = refl;
  dir_writable = refl;
  graph_made = (1 ∷ 2 ∷ 3 ∷ [], refl);
  opens = λ n. refl;
}

names-timer_files_example :
    (names (timer_files dumping (noon ∷ noon ∷ []))
      ≡ graph_name (with_slash graphs) 1 noon ∷ graph_name (with_slash graphs) 2 noon ∷ [])
    × Distinct (names (timer_files dumping (noon ∷ noon ∷ [])))
names-timer_files_example =
    names-timer_files (noon ∷ noon ∷ []) dumping 9 b'/' (codes "sdcard/graphs") refl refl refl
      (omega arith) (omega arith) (noon-IsWilling, (noon-IsWilling, tt))
