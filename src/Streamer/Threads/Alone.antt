-- ===== src/Streamer/Threads/Alone.antt =====
-- The parts of a call with nothing in between.
use my_stream_out_app.Base.{
  ℕ, zero, suc, ◌≡◌, refl, inl, inr, none, some, [], ◌∷◌, ◌++◌, arith, Option-cases,
}
use mathlib.Core.List.{append_assoc}
use my_stream_out_app.Streamer.Session.{Session, Ran, unref}
use my_stream_out_app.Streamer.Media.{
  MediaBin, find_video, configure_found, on_media_configure, release, obtain,
}
use my_stream_out_app.Streamer.Play.{
  PlayRequest, Media, play_pipeline, play_in, on_client_play_request,
}
use my_stream_out_app.Streamer.Dump.{dump_audio_video_pipeline, dump_pipeline_now}
use my_stream_out_app.Streamer.Stop.{gst_pipeline_destroy}
use my_stream_out_app.Streamer.Threads.{
  Call, stops, configures, plays, dumps, dumps_now, Part, configure_begin, play_begin, dump_begin,
  dump_now_begin, begin, resume, whole,
}

-- At most `n` more parts.
abbrev finish : ℕ → Part → Ran
finish zero r = (r.session, r.effects)
finish (suc n) r = elim r.next [
  | none ↦ (r.session, r.effects)
  | some t ↦ let (s, es) = finish n (resume r.session t) in (s, r.effects ++ es)
]

-- No call has more than four parts.
unfoldable alone : Session → Call → Ran
unfolding begin resume
alone s c = finish 3 (begin s c)

alone-configures : (s : Session) (m : MediaBin) → alone s (configures m) ≡ on_media_configure s m
unfolding alone begin configure_begin resume on_media_configure configure_found
alone-configures s m = elim (Option-cases m.bin) [
  | inl n ↦ simp (n, on_media_configure, alone, begin, configure_begin) refl
  | inr (b, n) ↦ elim (Option-cases (find_video s.format.stream_mode m)) [
    | inl e ↦ simp (n, e, on_media_configure, alone, begin, configure_begin) refl
    | inr (x, e) ↦
        simp
          (
            n, e, on_media_configure, configure_found, alone, begin, configure_begin, resume,
            append_assoc,
          )
          refl
  ]
]

alone-plays :
    (s : Session) (q : PlayRequest) (media : Media)
    → alone s (plays q media) ≡ whole s (plays q media)
unfolding alone begin play_begin resume on_client_play_request play_in play_pipeline
alone-plays s q media = ground arith

alone-dumps : (s : Session) → alone s dumps ≡ dump_audio_video_pipeline s
unfolding alone begin resume dump_begin dump_now_begin dump_audio_video_pipeline
alone-dumps s = elim (Option-cases s.handles.full_pipeline) [
  | inl n ↦ ground arith
  | inr (p, n) ↦ ground (
    arith,
    append_assoc (obtain s.handles.appsrc) (obtain s.handles.audio_appsrc)
        (release s.handles.appsrc ++ (release s.handles.audio_appsrc ++ (unref p ∷ []))),
  )
]

alone-dumps_now : (s : Session) → alone s dumps_now ≡ dump_pipeline_now s
unfolding alone begin resume dump_begin dump_now_begin dump_audio_video_pipeline dump_pipeline_now
alone-dumps_now s = elim (Option-cases s.handles.full_pipeline) [
  | inl n ↦ ground arith
  | inr (p, n) ↦ rw (n) (simp (append_assoc) refl)
]

-- A call whose parts run with nothing in between leaves the session, and makes the calls in the order,
-- of the call as one step, whatever call it is and on every branch: cutting it where it gives the lock
-- back changes nothing.
alone-whole : (s : Session) (c : Call) → alone s c ≡ whole s c
unfolding alone begin resume gst_pipeline_destroy
alone-whole s stops = refl
alone-whole s (configures m) = alone-configures s m
alone-whole s (plays q media) = alone-plays s q media
alone-whole s dumps = alone-dumps s
alone-whole s dumps_now = alone-dumps_now s
