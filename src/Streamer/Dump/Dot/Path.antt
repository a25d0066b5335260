-- ===== src/Streamer/Dump/Dot/Path.antt =====
-- Which file a graph goes to.
use my_stream_out_app.Base.{
  take_all, ℕ, ◌+◌, ◌-◌, ◌≤◌, ◌<◌, ◌≡◌, refl, ap, ◌∙◌, true, Option, some, List, [], ◌∷◌, ◌++◌,
  lt→ltb, if◌then◌else◌, take, length, length-append, arith, Bool-cases, inl, inr,
}
use my_stream_out_app.Base.Text.{Text, codes}
use my_stream_out_app.Streamer.Dump.Dot.{
  add_slash, dir_path, dir_size, name_size, snprintf, ends_with_slash, DotAnswers, FileEvent,
  make_data, free_data, open_file, write_file, close_file, full_name, write_dot,
  dump_pipeline_to_dot_file,
}

-- The directory with a slash at its end.
abbrev pub with_slash : Text → Text
with_slash d = if ends_with_slash d then d else d ++ codes "/"

add_slash_short : (d : Text) → 0 < length d → length d < dir_size - 1 → add_slash d ≡ with_slash d
unfolding add_slash
add_slash_short d h l =
    simp (lt→ltb 0 (length d) h, lt→ltb (length d) 511 l, add_slash)
      (elim (Bool-cases (ends_with_slash d)) [ inl e ↦ simp (e) refl | inr e ↦ simp (e) refl ])

dir_path_short :
    (c : ℕ) (s : Text) → length (c ∷ s) < dir_size - 1 → dir_path (c ∷ s) ≡ with_slash (c ∷ s)
unfolding dir_path
dir_path_short c s h =
    ap add_slash (take_all 511 (c ∷ s) (omega arith)) ∙ add_slash_short (c ∷ s) (omega arith) h

length-add_slash : (d : Text) → length d ≤ dir_size - 1 → length (add_slash d) ≤ dir_size - 1
unfolding add_slash
length-add_slash d h = ground (arith, length-append d (codes "/"))

full_name_short :
    (dir suffix timestamp : Text)
    → length dir ≤ dir_size - 1
    → length suffix ≤ 63
    → length timestamp ≤ 63
    → snprintf name_size (full_name dir suffix timestamp) ≡ full_name dir suffix timestamp
full_name_short dir suffix timestamp h k l =
    take_all 767 (full_name dir suffix timestamp) (simp (length-append) (omega arith))

length-with_slash : (d : Text) → length d < dir_size - 1 → length (with_slash d) ≤ dir_size - 1
length-with_slash d h = ground (arith, length-append d (codes "/"))

-- A graph of a pipeline with a directory configured, of at most 510 bytes, that exists and can be
-- written with its slash at the end, and with a suffix and a time of at most 63 bytes each, goes to
-- one file: its name is the directory with one slash at its end, "gst-pipeline-", the suffix, a dot,
-- the time and ".dot", not cut off by any buffer; the file is closed and the data freed.
pub dump_pipeline_to_dot_file_path :
    (p c : ℕ) (s suffix : Text) (a : DotAnswers) (d : List ℕ)
    → length (c ∷ s) < dir_size - 1
    → length suffix ≤ 63
    → length a.timestamp ≤ 63
    → a.exists (with_slash (c ∷ s)) ≡ true
    → a.is_writable (with_slash (c ∷ s)) ≡ true
    → a.dot_data ≡ some d
    → a.can_open (full_name (with_slash (c ∷ s)) suffix a.timestamp) ≡ true
    → dump_pipeline_to_dot_file (some p) (c ∷ s) suffix a
      ≡ make_data
        ∷ open_file (full_name (with_slash (c ∷ s)) suffix a.timestamp)
        ∷ write_file (take a.written d)
        ∷ close_file
        ∷ free_data
        ∷ []
unfolding dump_pipeline_to_dot_file write_dot
dump_pipeline_to_dot_file_path p c s suffix a d h k l e w g o =
    simp
      (
        dir_path_short c s h,
        e,
        w,
        g,
        full_name_short (with_slash (c ∷ s)) suffix a.timestamp (length-with_slash (c ∷ s) h) k l,
        o,
        dump_pipeline_to_dot_file,
        write_dot,
      )
      refl

abbrev pub opened : List FileEvent → ℕ
opened [] = 0
opened (open_file n ∷ es) = 1 + opened es
opened (_ ∷ es) = opened es

abbrev pub closed : List FileEvent → ℕ
closed [] = 0
closed (close_file ∷ es) = 1 + closed es
closed (_ ∷ es) = closed es

abbrev pub made : List FileEvent → ℕ
made [] = 0
made (make_data ∷ es) = 1 + made es
made (_ ∷ es) = made es

abbrev pub freed : List FileEvent → ℕ
freed [] = 0
freed (free_data ∷ es) = 1 + freed es
freed (_ ∷ es) = freed es

-- On every branch the file is closed if it was opened and the data freed if it was made.
pub dump_pipeline_to_dot_file_frees :
    (pipeline : Option ℕ) (configured suffix : Text) (a : DotAnswers)
    → let es = dump_pipeline_to_dot_file pipeline configured suffix a in
      (opened es ≡ closed es) × (made es ≡ freed es)
unfolding dump_pipeline_to_dot_file write_dot
dump_pipeline_to_dot_file_frees pipeline configured suffix a = ground arith
