-- ===== src/Streamer/Audio/Sync.antt =====
-- The audio clock against the video clock.
use my_stream_out_app.Base.{ℕ, ◌+◌, ◌≤◌, ◌<◌, ◌≡◌, ◌≢◌, ◌⊎◌, true, some, arith}
use my_stream_out_app.Base.Int.{ℤ, is_positive}
use my_stream_out_app.Streamer.Session.{Timeline, Format, clock_time_none}
use my_stream_out_app.Streamer.Video.{Frame, stamp_video, to_ns, since}
use my_stream_out_app.Streamer.Audio.{Smoothing, Stamp, instant_offset, update_ema, stamp_audio}

-- A timeline as the pushes leave it: a base comes with a video stamp, no stamp is the value that
-- means "none" by accident, and the smoothed offset is unset or at most half a second.
pub record IsValid (t : Timeline) : Type 0 where
  pub anchored : (t.pts_base ≡ clock_time_none) ⊎ (t.last_video_pts_ns < clock_time_none)
  pub bounded : (t.av_offset_ema ≡ clock_time_none) ⊎ (t.av_offset_ema ≤ 500000000)

-- The offset is between 0 and half a second.
pub instant_offset_bound : (raw last : ℕ) → instant_offset raw last ≤ 500000000
unfolding instant_offset
instant_offset_bound raw last = ground arith

mix_bound : (m : Smoothing) (a b : ℕ) → a ≤ 500000000 → b ≤ 500000000 → m.mix a b ≤ 500000000
mix_bound m a b ha hb = omega (arith, m.mix_bounds a b ha hb)

pub update_ema_bound :
    (m : Smoothing) (t : Timeline) (raw : ℕ)
    → (t.av_offset_ema ≡ clock_time_none) ⊎ (t.av_offset_ema ≤ 500000000)
    → (update_ema m t raw ≡ clock_time_none) ⊎ (update_ema m t raw ≤ 500000000)
unfolding update_ema
update_ema_bound m t raw h = ground (
  arith,
  instant_offset_bound raw t.last_video_pts_ns,
  mix_bound m (instant_offset raw t.last_video_pts_ns) t.av_offset_ema,
)

update_ema_set :
    (m : Smoothing) (t : Timeline) (raw : ℕ)
    → t.last_video_pts_ns < clock_time_none
    → (t.av_offset_ema ≡ clock_time_none) ⊎ (t.av_offset_ema ≤ 500000000)
    → update_ema m t raw ≤ 500000000
unfolding update_ema
update_ema_set m t raw l h = ground (
  arith,
  instant_offset_bound raw t.last_video_pts_ns,
  mix_bound m (instant_offset raw t.last_video_pts_ns) t.av_offset_ema,
)

pub stamp_video-IsValid : (t : Timeline) (f : Frame) → IsValid t → IsValid (stamp_video t f).0
unfolding stamp_video
stamp_video-IsValid t f v = ground arith

pub stamp_audio-IsValid :
    (m : Smoothing) (t : Timeline) (f : Format) (pts_us : ℤ) (size : ℕ) {st : Stamp}
    → IsValid t
    → stamp_audio m t f pts_us size ≡ some st
    → IsValid st.timeline
unfolding stamp_audio
stamp_audio-IsValid m t f pts_us size v e =
    ground (arith, update_ema_bound m t (since t.pts_base (to_ns pts_us)) v.bounded)

-- On a valid timeline with a base, a timed audio buffer is stamped no later than its raw time since
-- the base and at most half a second earlier.
pub stamp_audio_shift :
    (m : Smoothing) (t : Timeline) (f : Format) (pts_us : ℤ) (size : ℕ) {st : Stamp}
    → IsValid t
    → t.pts_base ≢ clock_time_none
    → is_positive pts_us ≡ true
    → stamp_audio m t f pts_us size ≡ some st
    → (st.pts ≤ since t.pts_base (to_ns pts_us))
      × (since t.pts_base (to_ns pts_us) ≤ st.pts + 500000000)
unfolding stamp_audio
stamp_audio_shift m t f pts_us size v b p e =
    ground (arith, update_ema_set m t (since t.pts_base (to_ns pts_us)))
