-- ===== src/Streamer/Threads/Stale.antt =====
-- A play request that comes between the two parts of a stop, and the pipeline that it caches.
use my_stream_out_app.Base.{
  ℕ, ◌+◌, ◌≡◌, ◌≢◌, refl, ap, ◌∙◌, inl, inr, true, false, none, some, List, [], ◌∷◌, arith, ◌==◌,
  Bool-cases,
}
use my_stream_out_app.Base.Text.{Text}
use my_stream_out_app.Streamer.Session.{Session, Effect}
use my_stream_out_app.Streamer.Audio.{Smoothing}
use my_stream_out_app.Streamer.Play.{
  PlayRequest, Media, cache_pipeline, play_pipeline, play_in, on_client_play_request,
}
use my_stream_out_app.Streamer.Server.{Boot, gst_pipeline_init}
use my_stream_out_app.Streamer.Server.Start.{IsComplete, gst_pipeline_init_success}
use my_stream_out_app.Streamer.Stop.{stopping, stop_locked, stop_rest}
use my_stream_out_app.Streamer.Ledger.{
  same, owns, holds, gained, used_up, gained-append, used_up-append,
}
use my_stream_out_app.Streamer.Lifetime.{init}
use my_stream_out_app.Streamer.Lifetime.Serial.Changes.{gst_pipeline_init-SameMedia}
use my_stream_out_app.Streamer.Threads.{
  stops, plays, stop_next, play_next, play_begin, begin, resume, add, Moves, stay, move, at_once,
  begins, resumes,
}

-- A play request that gets as far as this pipeline.
pub record IsFor (q : PlayRequest) (u p : ℕ) : Type 0 where
  pub media_there : q.has_media ≡ true
  pub bin_there : q.user_bin ≡ some u
  pub parent_there : q.parent ≡ some (p, true)

-- The reference to the pipeline `x` is lost.
abbrev pub LosesOne : ℕ → ℕ → Session → Session → List Effect → Type 0
LosesOne o x s s' es =
    holds o s.handles + gained o es ≡ holds o s'.handles + used_up o es + same o x

cache-LosesOne :
    (o : ℕ) (s : Session) (x y : ℕ)
    → s.handles.full_pipeline ≡ some x
    → x ≢ y
    → LosesOne o x s (cache_pipeline s y).0 (cache_pipeline s y).1
unfolding cache_pipeline
cache-LosesOne o s x y e d =
    let other : (x == y) ≡ false = ground arith in
    simp (e, other, cache_pipeline) (omega (arith, ap (owns o) e))

-- The caller's reference to its own pipeline is given up in the end.
play_pipeline-loses :
    (o : ℕ) (s : Session) (q : PlayRequest) (media : Media) (x y : ℕ)
    → s.handles.full_pipeline ≡ some x
    → x ≢ y
    → let r = play_pipeline s q media y in
      holds o s.handles + (same o y + gained o r.effects)
      ≡ holds o r.session.handles + used_up o r.effects + same o x
unfolding play_pipeline
play_pipeline-loses o s q media x y e d =
    let a = cache-LosesOne o s x y e d in
    elim (Bool-cases media.latency_recalc_done) [
      | inl f ↦ simp (f, gained-append, used_up-append, play_pipeline) (omega (arith, a))
      | inr f ↦ simp (f, gained-append, used_up-append, play_pipeline) (omega (arith, a))
    ]

-- A play request that finds another pipeline cached loses the reference to it.
play-LosesOne :
    (o : ℕ) (s : Session) (q : PlayRequest) (media : Media) (u x y : ℕ)
    → IsFor q u y
    → s.handles.full_pipeline ≡ some x
    → x ≢ y
    → let r = on_client_play_request s q media in LosesOne o x s r.session r.effects
unfolding on_client_play_request play_in
play-LosesOne o s q media u x y i e d =
    simp (i.media_there, i.bin_there, i.parent_there, on_client_play_request, play_in)
      (omega (arith, play_pipeline-loses o s q media x y e d))

-- The request's first part, with nothing cached.
play_begins :
    (s : Session) (q : PlayRequest) (media : Media) (u x : ℕ)
    → IsFor q u x
    → s.handles.full_pipeline ≡ none
    → ((begin s (plays q media)).next ≡ some (play_next x media))
      × ((begin s (plays q media)).session
          ≡ record s { handles = record s.handles { full_pipeline = some x } })
unfolding begin play_begin cache_pipeline
play_begins s q media u x i e =
    simp (i.media_there, i.bin_there, i.parent_there, e, begin, play_begin, cache_pipeline)
      (refl, refl)

-- From whatever state: a stop gives the lock back after its first part, a play request then begins, the
-- stop ends, the play request ends, and a start follows, whose constructors all answer and whose thread
-- can be created. These are moves that the threads can make, and then the new server runs and the
-- pipeline of the play request is still cached, which the end of the stop has not cleared; the first play
-- request for another pipeline, of the new server, loses the reference to the old one for good, and to
-- no other object.
pub stale_pipeline :
    (m : Smoothing) (s0 : Session) (b : Boot) (p : Text) (c l v f n src : ℕ) (q q' : PlayRequest)
    (media media' : Media) (u u' x y : ℕ)
    → b.thread_ok ≡ true
    → IsComplete b p c l v f n src
    → IsFor q u x
    → IsFor q' u' y
    → x ≢ y
    → let s1 = (stop_locked s0).0 in
      let s2 = (begin s1 (plays q media)).session in
      let s3 = (stop_rest s2 (stopping s0)).0 in
      let s4 = (resume s3 (play_next x media)).session in
      let s5 = (gst_pipeline_init s4 b).session in
      ((es : List Effect) × Moves m s0 [] s5 [] es)
      × (s5.handles.server ≡ some v)
      × (s5.handles.full_pipeline ≡ some x)
      × ((o : ℕ)
          → let r = on_client_play_request s5 q' media' in LosesOne o x s5 r.session r.effects)
unfolding begin resume stop_locked stop_rest
stale_pipeline m s0 b p c l v f n src q q' media media' u u' x y ok made i i' d =
    let stop_thread = stop_next (stopping s0) in
    let s1 = (stop_locked s0).0 in
    let (n2, e2) = play_begins s1 q media u x i refl in
    let s3 = (stop_rest (begin s1 (plays q media)).session (stopping s0)).0 in
    let r = gst_pipeline_init s3 b in
    let started =
      gst_pipeline_init_success s3 b p c l v f n src (ap (λ t. t.handles.server) e2) made ok in
    let cached : r.session.handles.full_pipeline ≡ some x =
      (gst_pipeline_init-SameMedia s3 b).2 ∙ ap (λ t. t.handles.full_pipeline) e2 in
    (
      (
        _,
        move
            (move
              (move
                (move (move stay (begins stops tt) refl) (begins (plays q media) (λ k e. inl refl))
                  refl)
                (resumes (play_next x media ∷ []) stop_thread []
                  (ap (λ t. add t (stop_thread ∷ [])) n2))
                refl)
              (resumes [] (play_next x media) [] refl) refl)
            (at_once (init b ok)) refl,
      ),
      started.0,
      cached,
      λ o. play-LosesOne o r.session q' media' u' x y i' cached d,
    )
