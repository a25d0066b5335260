-- ===== src/Streamer/Video/Clock.antt =====
-- The presentation times of a session's video frames.
use my_stream_out_app.Base.{
  ℕ, ◌-◌, ◌*◌, ◌^◌, ◌<◌, ◌≡◌, refl, Bool, true, not, ◌&&◌, List, [], ◌∷◌, map, ap₂, arith, All,
  if◌then◌else◌, ◌++◌, ◌∙◌, ap, some,
}
use my_stream_out_app.Base.Int.{pos_part, is_positive}
use my_stream_out_app.Streamer.Session.{Session, Timeline, Buffer, Effect, clock_time_none}
use my_stream_out_app.Streamer.Video.{
  Frame, Memory, direct, stamp_video, payload, pin_encoder, push_to, push_encoded_buffer,
}
use my_stream_out_app.Streamer.Video.Gate.{pushed}

-- Direct buffers that are pushed one after the other, with nothing in between.
pub push_all : Session → List (Frame × Memory) → List Effect
push_all s [] = []
push_all s ((f, m) ∷ fs) =
    let (s', es) = push_encoded_buffer s f (direct m) true in es ++ push_all s' fs

-- The stamps of the frames that are pushed one after the other.
pub stamps : Timeline → List Frame → List ℕ
stamps t [] = []
stamps t (f ∷ fs) = (stamp_video t f).1 ∷ stamps (stamp_video t f).0 fs

-- Frames that get a stamp of their own.
abbrev pub is_timed : Frame → Bool
is_timed f = not f.is_csd && is_positive f.pts_us

-- The capture time fits a GstClockTime, below the value that means "none".
abbrev pub Fits : Frame → Type 0
Fits f = pos_part f.pts_us * 1000 < 2 ^ 64 - 1

-- The time since the frame at `u` microseconds, in nanoseconds.
abbrev pub relative : ℕ → Frame → ℕ
relative u f = if is_timed f then (pos_part f.pts_us - u) * 1000 else clock_time_none

stamp_relative :
    (u : ℕ) (t : Timeline) (f : Frame)
    → u * 1000 < 2 ^ 64 - 1
    → t.pts_base ≡ u * 1000
    → Fits f
    → ((stamp_video t f).1 ≡ relative u f) × ((stamp_video t f).0.pts_base ≡ u * 1000)
unfolding stamp_video
stamp_relative u t f h b fits = ground arith

stamps_after :
    (u : ℕ) (t : Timeline) (fs : List Frame)
    → u * 1000 < 2 ^ 64 - 1
    → t.pts_base ≡ u * 1000
    → All Fits fs
    → stamps t fs ≡ map (relative u) fs
unfolding stamps
stamps_after u t [] h b fits = refl
stamps_after u t (f ∷ fs) h b fits =
    let step = stamp_relative u t f h b fits.0 in
    ap₂ ◌∷◌ step.0 (stamps_after u (stamp_video t f).0 fs h step.1 fits.1)

stamp_first :
    (t : Timeline) (f : Frame)
    → t.pts_base ≡ clock_time_none
    → is_timed f ≡ true
    → Fits f
    → ((stamp_video t f).1 ≡ relative (pos_part f.pts_us) f)
      × ((stamp_video t f).0.pts_base ≡ pos_part f.pts_us * 1000)
unfolding stamp_video
stamp_first t f b timed fits = ground arith

stamps_fresh :
    (t : Timeline) (f : Frame) (fs : List Frame)
    → t.pts_base ≡ clock_time_none
    → is_timed f ≡ true
    → Fits f
    → All Fits fs
    → stamps t (f ∷ fs) ≡ 0 ∷ map (relative (pos_part f.pts_us)) fs
unfolding stamps
stamps_fresh t f fs b timed fit fits =
    let first = stamp_first t f b timed fit in
    ap₂ ◌∷◌ (ground (arith, first))
      (stamps_after (pos_part f.pts_us) (stamp_video t f).0 fs fit first.1 fits)

-- The stamps of the buffers that were pushed.
abbrev pub pts_of : List Effect → List ℕ
pts_of es = map (λ (b : ℕ × Buffer). b.1.pts) (pushed es)

abbrev pub frames : List (Frame × Memory) → List Frame
frames = map (λ (b : Frame × Memory). b.0)

-- One push while data is wanted.
push_stamped :
    (s : Session) (f : Frame) (m : Memory) (es : List Effect) (src : ℕ)
    → s.handles.appsrc ≡ some src
    → s.gates.need_data ≡ true
    → let (s', es') = push_encoded_buffer s f (direct m) true in
      (pts_of (es' ++ es) ≡ (stamp_video s.timeline f).1 ∷ pts_of es)
      × (s'.timeline ≡ (stamp_video s.timeline f).0)
      × (s'.gates.need_data ≡ true)
      × (s'.handles.appsrc ≡ some src)
unfolding push_encoded_buffer push_to pin_encoder payload
push_stamped s f m es src a n = ground arith

pts_of-push_all :
    (s : Session) (fs : List (Frame × Memory)) (src : ℕ)
    → s.handles.appsrc ≡ some src
    → s.gates.need_data ≡ true
    → pts_of (push_all s fs) ≡ stamps s.timeline (frames fs)
unfolding push_all stamps
pts_of-push_all s [] src a n = refl
pts_of-push_all s ((f, m) ∷ fs) src a n =
    let s' = (push_encoded_buffer s f (direct m) true).0 in
    let step = push_stamped s f m (push_all s' fs) src a n in
    step.0
    ∙ ap (◌∷◌ (stamp_video s.timeline f).1)
        (pts_of-push_all s' fs src step.3 step.2 ∙ ap (λ t. stamps t (frames fs)) step.1)

-- Frames pushed one after the other into an appsrc that wants data, on a timeline with no base: the
-- first, a timed frame, is stamped 0; every later timed frame is stamped with the nanoseconds since
-- it (0 if captured earlier), and a parameter set or a frame with no capture time gets no stamp. The
-- capture times are below 2 ^ 64 - 1 ns.
pub pts_of-push_all_fresh :
    (s : Session) (f : Frame) (m : Memory) (fs : List (Frame × Memory)) (src : ℕ)
    → s.handles.appsrc ≡ some src
    → s.gates.need_data ≡ true
    → s.timeline.pts_base ≡ clock_time_none
    → is_timed f ≡ true
    → Fits f
    → All Fits (frames fs)
    → pts_of (push_all s ((f, m) ∷ fs)) ≡ 0 ∷ map (relative (pos_part f.pts_us)) (frames fs)
pts_of-push_all_fresh s f m fs src a n b timed fit fits =
    pts_of-push_all s ((f, m) ∷ fs) src a n ∙ stamps_fresh s.timeline f (frames fs) b timed fit fits
