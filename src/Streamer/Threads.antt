-- ===== src/Streamer/Threads.antt =====
-- The calls of app/src/main/cpp/camera2_gst_streamer.cpp that give s_lock back before they have ended,
-- cut where they do, and any interleaving of their parts with the steps of other threads. What such a
-- call keeps in local variables while it is under way is a `Thread`. The properties that a play request
-- sets on the elements are in Play: no part here reads them.
pub mod Alone
pub mod Balance
pub mod Drain
pub mod Stale
use my_stream_out_app.Base.{
  ℕ, ◌≡◌, Bool, false, Option, none, some, List, [], ◌∷◌, ◌++◌, if◌then◌else◌,
}
use my_stream_out_app.Streamer.Session.{Session, StreamMode, Effect, Ran, gain, unref, set_reusable}
use my_stream_out_app.Streamer.Audio.{Smoothing}
use my_stream_out_app.Streamer.Media.{
  MediaBin, has_video, find_video, force_clock, obtain, release, rtcp_feedback, set_up_video,
  configure_commit, on_media_configure,
}
use my_stream_out_app.Streamer.Play.{
  PlayRequest, Media, CachesOne, cache_pipeline, recalculate, on_client_play_request,
}
use my_stream_out_app.Streamer.Dump.{next_count, dump_audio_video_pipeline, dump_pipeline_now}
use my_stream_out_app.Streamer.Stop.{
  Stopping, stopping, stop_locked, stop_rest, gst_pipeline_destroy,
}
use my_stream_out_app.Streamer.Lifetime.{Step}

-- The calls, with the answers that they get.
pub data Call : Type 0 where
  stops : Call
  configures : MediaBin → Call
  plays : PlayRequest → Media → Call
  dumps dumps_now : Call

-- Where a call is under way, with its local variables. `play_next` holds the pipeline; the dumps hold
-- the pipeline, then the appsrcs too, and the last pointer is the pipeline of nativeDumpPipelineNow.
pub data Thread : Type 0 where
  stop_next : Stopping → Thread
  caps_next commit_next : StreamMode → Option ℕ → MediaBin → Thread
  play_next : ℕ → Media → Thread
  on_demand_next : ℕ → Thread
  appsrcs_next : ℕ → Option ℕ → Thread
  walk_next : ℕ → Option ℕ → Option ℕ → Option ℕ → Thread

-- A part of a call: the session after it, what follows, and the calls that it made.
pub record Part : Type 0 where
  pub session : Session
  pub next : Option Thread
  pub effects : List Effect

abbrev pub ends : Session → List Effect → Part
ends s es = record { session = s; next = none; effects = es }

abbrev pub goes_on : Session → Thread → List Effect → Part
goes_on s t es = record { session = s; next = some t; effects = es }

-- on_media_configure up to the test of the appsrc: it reads the mode under the lock.
unfoldable pub configure_begin : Session → MediaBin → Part
configure_begin s m = elim m.bin [
  | none ↦ ends s []
  | some b ↦ elim (find_video s.format.stream_mode m) [
    | none ↦ ends s (force_clock b m ++ release (some b))
    | some found ↦ goes_on s (caps_next s.format.stream_mode found m) (
        force_clock b m
        ++ (obtain found
            ++ ((if has_video s.format.stream_mode then rtcp_feedback s.flags m else [])
                ++ release (some b))))
  ]
]

-- on_client_play_request up to the end of its lock section, with the parent pipeline.
unfoldable pub play_begin : Session → Media → ℕ → Option (ℕ × Bool) → Part
play_begin s media u none = ends s (gain u ∷ unref u ∷ [])
play_begin s media u (some (p, is_bin)) =
    if is_bin
    then goes_on (cache_pipeline s p).0 (play_next p media)
        (gain u ∷ gain p ∷ unref u ∷ (cache_pipeline s p).1)
    else ends s (gain u ∷ gain p ∷ unref u ∷ unref p ∷ [])

-- dump_audio_video_pipeline up to the end of its first lock section; `o` is what its caller holds.
unfoldable pub dump_begin : Session → Option ℕ → Part
dump_begin s o = elim s.handles.full_pipeline [
  | none ↦ ends s (release o)
  | some p ↦ goes_on s (appsrcs_next p o) (gain p ∷ [])
]

-- nativeDumpPipelineNow up to the end of its lock section.
unfoldable pub dump_now_begin : Session → Part
dump_now_begin s = elim s.handles.full_pipeline [
  | none ↦ ends s []
  | some p ↦ goes_on s (on_demand_next p) (gain p ∷ [])
]

-- A call's first part.
unfoldable pub begin : Session → Call → Part
unfolding configure_begin play_begin stop_locked dump_begin dump_now_begin
begin s stops = goes_on (stop_locked s).0 (stop_next (stopping s)) (stop_locked s).1
begin s (configures m) = configure_begin s m
begin s (plays q media) =
    if q.has_media
    then elim q.user_bin [ none ↦ ends s [] | some u ↦ play_begin s media u q.parent ]
    else ends s []
begin s dumps = dump_begin s none
begin s dumps_now = dump_now_begin s

-- on_media_configure from the test of the appsrc to its last lock section.
abbrev pub configure_caps : Session → StreamMode → Option ℕ → MediaBin → Part
configure_caps s mode found m =
    goes_on s (commit_next mode found m) (set_up_video s.format found ++ (set_reusable false ∷ []))

-- The end of on_client_play_request, after the two passes.
abbrev pub play_end : Session → Media → ℕ → Part
play_end s media p = ends s (recalculate p media ++ (unref p ∷ []))

-- dump_audio_video_pipeline, its second lock section.
abbrev pub appsrcs_part : Session → ℕ → Option ℕ → Part
appsrcs_part s p o =
    goes_on s (walk_next p s.handles.appsrc s.handles.audio_appsrc o)
      (obtain s.handles.appsrc ++ obtain s.handles.audio_appsrc)

-- The rest of it, and of its caller.
abbrev pub dump_end : Session → ℕ → Option ℕ → Option ℕ → Option ℕ → Part
dump_end s p v a o =
    ends
      (record s {
        dot_dump_count =
            if s.flags.pipeline_dot_dump_enable
            then next_count s.dot_dump_count
            else s.dot_dump_count;
      })
      (release v ++ (release a ++ (unref p ∷ release o)))

-- The next part of a call that is under way, with the session as it is by then.
unfoldable pub resume : Session → Thread → Part
unfolding stop_rest dump_begin
resume s (stop_next k) = ends (stop_rest s k).0 (stop_rest s k).1
resume s (caps_next mode found m) = configure_caps s mode found m
resume s (commit_next mode found m) =
    ends (configure_commit s mode found m).0 (configure_commit s mode found m).1
resume s (play_next p media) = play_end s media p
resume s (on_demand_next o) = dump_begin s (some o)
resume s (appsrcs_next p o) = appsrcs_part s p o
resume s (walk_next p v a o) = dump_end s p v a o

-- The calls as one step each.
abbrev pub whole : Session → Call → Ran
whole s stops = gst_pipeline_destroy s
whole s (configures m) = on_media_configure s m
whole s (plays q media) =
    ((on_client_play_request s q media).session, (on_client_play_request s q media).effects)
whole s dumps = dump_audio_video_pipeline s
whole s dumps_now = dump_pipeline_now s

-- A play request finds no pipeline cached but its own.
abbrev pub Fits : Session → Call → Type 0
Fits s (plays q media) = CachesOne s q
Fits s _ = Unit

abbrev pub add : Option Thread → List Thread → List Thread
add none ts = ts
add (some t) ts = t ∷ ts

-- One part of one thread, or a step that runs at once.
pub data Move (m : Smoothing) (s : Session) (ts : List Thread)
    : Session → List Thread → List Effect → Type 0 where
  at_once : {t : Session} {es : List Effect} → Step m s (t, es) → Move m s ts t ts es
  begins :
      (c : Call)
      → Fits s c
      → Move m s ts (begin s c).session (add (begin s c).next ts) (begin s c).effects
  resumes :
      (before : List Thread) (t : Thread) (after : List Thread)
      → ts ≡ before ++ (t ∷ after)
      → Move m s ts
          (resume s t).session
          (before ++ add (resume s t).next after)
          (resume s t).effects

-- Any number of moves, with the calls that they made.
pub data Moves (m : Smoothing) (s : Session) (ts : List Thread)
    : Session → List Thread → List Effect → Type 0 where
  stay : Moves m s ts s ts []
  move :
      {t u : Session} {us vs : List Thread} {es es' all : List Effect}
      → Moves m s ts t us es
      → Move m t us u vs es'
      → all ≡ es ++ es'
      → Moves m s ts u vs all
