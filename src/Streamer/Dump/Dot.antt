-- ===== src/Streamer/Dump/Dot.antt =====
-- dump_pipeline_to_dot_file of app/src/main/cpp/camera2_gst_streamer.cpp: a graph of the pipeline is
-- written to a file of the configured directory. What the file system and GStreamer answer is a
-- parameter; logging is left out.
pub mod Path
use my_stream_out_app.Base.{
  ℕ, ◌-◌, Bool, true, false, not, ◌&&◌, Option, none, some, List, [], ◌∷◌, ◌++◌, ltb, ◌==◌,
  if◌then◌else◌, take, length,
}
use my_stream_out_app.Base.Text.{Text, codes}

abbrev pub default_dir : Text
default_dir = codes "/data/user/0/com.crestron.streamout/files/"

-- sizeof(dir_path) and sizeof(dot_filename)
abbrev pub dir_size : ℕ
dir_size = 512

abbrev pub name_size : ℕ
name_size = 768

-- `snprintf` keeps a byte for the terminating zero.
abbrev pub snprintf : ℕ → Text → Text
snprintf size s = take (size - 1) s

abbrev pub ends_with_slash : Text → Bool
ends_with_slash [] = false
ends_with_slash (c ∷ []) = c == b'/'
ends_with_slash (c ∷ s) = ends_with_slash s

abbrev pub output_dir : Text → Text
output_dir [] = default_dir
output_dir (c ∷ s) = c ∷ s

-- The slash is added only where it fits.
unfoldable pub add_slash : Text → Text
add_slash d =
    if (ltb 0 (length d) && ltb (length d) (dir_size - 1)) && not (ends_with_slash d)
    then d ++ codes "/"
    else d

unfoldable pub dir_path : Text → Text
unfolding add_slash
dir_path configured = add_slash (snprintf dir_size (output_dir configured))

-- The answers: of `access` and `fopen` at a path, of gst_debug_bin_to_dot_data, of the clock, and how
-- many bytes `fwrite` writes.
pub record DotAnswers : Type 0 where
  pub exists : Text → Bool
  pub is_writable : Text → Bool
  pub dot_data : Option (List ℕ)
  pub timestamp : Text
  pub can_open : Text → Bool
  pub written : ℕ

pub data FileEvent : Type 0 where
  make_data free_data close_file : FileEvent
  open_file : Text → FileEvent
  write_file : List ℕ → FileEvent

abbrev pub full_name : Text → Text → Text → Text
full_name dir suffix timestamp =
    dir ++ (codes "gst-pipeline-" ++ (suffix ++ (codes "." ++ (timestamp ++ codes ".dot"))))

-- A short write is reported, and the file is closed and the data freed as after a full one.
unfoldable pub write_dot : DotAnswers → Text → List ℕ → List FileEvent
write_dot a name d =
    make_data
    ∷ ((if a.can_open name
          then open_file name ∷ write_file (take a.written d) ∷ close_file ∷ []
          else [])
        ++ (free_data ∷ []))

unfoldable pub dump_pipeline_to_dot_file : Option ℕ → Text → Text → DotAnswers → List FileEvent
unfolding write_dot dir_path
dump_pipeline_to_dot_file pipeline configured suffix a = elim pipeline [
  | none ↦ []
  | some p ↦
      let dir = dir_path configured in
      if a.exists dir && a.is_writable dir
      then elim a.dot_data [
        | none ↦ []
        | some d ↦ write_dot a (snprintf name_size (full_name dir suffix a.timestamp)) d
      ]
      else []
]
