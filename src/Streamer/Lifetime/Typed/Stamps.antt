-- ===== src/Streamer/Lifetime/Typed/Stamps.antt =====
-- The timeline over the stamps that the pushes give.
use my_stream_out_app.Base.{
  ℕ, ◌^◌, ◌<◌, ◌≤◌, ◌≡◌, ◌⊎◌, inl, refl, Bool, false, not, ◌&&◌, ◌==◌, arith, some,
}
use my_stream_out_app.Base.Int.{ℤ}
use my_stream_out_app.Streamer.Session.{Timeline, Format, clock_time_none, no_timeline}
use my_stream_out_app.Streamer.Video.{Frame, to_ns, since, stamp_video}
use my_stream_out_app.Streamer.Audio.Sync.{update_ema_bound}
use my_stream_out_app.Streamer.Audio.{Smoothing, update_ema, Stamp, stamp_audio}

abbrev pub is_none : ℕ → Bool
is_none t = t == clock_time_none

-- The times are words of 64 bits; the base and the last video time are set together; and the smoothed
-- offset is set only after them and is at most 500 ms.
pub record IsTimed (t : Timeline) : Type 0 where
  pub base_word : t.pts_base < 2 ^ 64
  pub last_word : t.last_video_pts_ns < 2 ^ 64
  pub together : is_none t.pts_base ≡ is_none t.last_video_pts_ns
  pub offset_after : (is_none t.last_video_pts_ns && not (is_none t.av_offset_ema)) ≡ false
  pub offset_range : (t.av_offset_ema ≡ clock_time_none) ⊎ (t.av_offset_ema ≤ 500000000)

pub no_timeline-IsTimed : IsTimed no_timeline
no_timeline-IsTimed = record {
  base_word = omega arith;
  last_word = omega arith;
  together = refl;
  offset_after = refl;
  offset_range = inl refl;
}

to_ns-lt : (us : ℤ) → to_ns us < clock_time_none
to_ns-lt us = omega arith

since-le : (base ns : ℕ) → since base ns ≤ ns
since-le base ns = ground arith

pub stamp_video-IsTimed : (t : Timeline) (f : Frame) → IsTimed t → IsTimed (stamp_video t f).0
unfolding stamp_video
stamp_video-IsTimed t f h = ground arith

update_ema_late :
    (m : Smoothing) (t : Timeline) (raw : ℕ)
    → (is_none t.last_video_pts_ns && not (is_none t.av_offset_ema)) ≡ false
    → (is_none t.last_video_pts_ns && not (is_none (update_ema m t raw))) ≡ false
unfolding update_ema
update_ema_late m t raw h = ground arith

pub stamp_audio-IsTimed :
    (m : Smoothing) (t : Timeline) (f : Format) (pts_us : ℤ) (size : ℕ) (st : Stamp)
    → IsTimed t
    → stamp_audio m t f pts_us size ≡ some st
    → IsTimed st.timeline
unfolding stamp_audio
stamp_audio-IsTimed m t f pts_us size st h e = ground (
  arith,
  update_ema_bound m t (since t.pts_base (to_ns pts_us)) h.offset_range,
  update_ema_late m t (since t.pts_base (to_ns pts_us)) h.offset_after,
)
