-- ===== src/Streamer/Dump.antt =====
-- The pipeline dumps of app/src/main/cpp/camera2_gst_streamer.cpp: which graphs they ask for and
-- what they count. What a dump logs is in Walk.
pub mod Limit
pub mod Dot
pub mod Walk
pub mod Files
use my_stream_out_app.Base.{
  ℕ, zero, suc, ◌+◌, ◌%◌, ◌^◌, Bool, true, false, ◌&&◌, Option, none, some, List, [], ◌∷◌, ◌++◌,
  ltb, leb, if◌then◌else◌,
}
use my_stream_out_app.Streamer.Media.{obtain, release}
use my_stream_out_app.Streamer.Session.{Session, Effect, gain, unref, Ran}

-- The counter is an unsigned int.
unfoldable pub next_count : ℕ → ℕ
next_count n = (n + 1) % 2 ^ 32

-- The number of the graph "periodic-<n>" that a dump of the state asks for.
unfoldable pub periodic_file : Session → Option ℕ
unfolding next_count
periodic_file s = elim s.handles.full_pipeline [
  | none ↦ none
  | some p ↦
      let n = next_count s.dot_dump_count in
      if s.flags.pipeline_dot_dump_enable && leb n 3 then some n else none
]

-- The appsrcs are kept alive while their properties are logged.
unfoldable pub dump_audio_video_pipeline : Session → Ran
unfolding next_count
dump_audio_video_pipeline s = elim s.handles.full_pipeline [
  | none ↦ (s, [])
  | some p ↦ (
    record s {
      dot_dump_count =
          if s.flags.pipeline_dot_dump_enable
          then next_count s.dot_dump_count
          else s.dot_dump_count;
    },
    gain p
        ∷ (obtain s.handles.appsrc
            ++ (obtain s.handles.audio_appsrc
                ++ (release s.handles.appsrc
                    ++ (release s.handles.audio_appsrc ++ (unref p ∷ []))))),
  )
]

-- nativeDumpPipelineNow asks for its own graph "on-demand" and then dumps like the timer.
unfoldable pub dump_pipeline_now : Session → Ran
dump_pipeline_now s = elim s.handles.full_pipeline [
  | none ↦ (s, [])
  | some p ↦ let (s', es) = dump_audio_video_pipeline s in (s', gain p ∷ (es ++ (unref p ∷ [])))
]

-- pick_perf_cpu: `online` says whether a core's file can be read and holds a number that is not 0.
unfoldable pub pick_perf_cpu : ℕ → (ℕ → Bool) → ℕ
pick_perf_cpu zero online = 0
pick_perf_cpu (suc i) online =
    let rest = pick_perf_cpu i online in if ltb 0 i && online i then i else rest
