-- ===== src/Streamer/Audio.antt =====
-- nativePushAudioBuffer of app/src/main/cpp/camera2_gst_streamer.cpp: one audio buffer is copied,
-- stamped on the video timeline and pushed. `none` is a division by zero, which C++ leaves
-- undefined. The products of `double` values enter as a parameter with the error bound that they
-- have.
pub mod Sync
pub mod Convergence
pub mod Faults
use Prim.Native.Nat.{min}
use my_stream_out_app.Base.{
  ℕ, zero, suc, ◌+◌, ◌-◌, ◌*◌, ◌/◌, ◌%◌, ◌^◌, ◌≤◌, Bool, true, false, not, ◌&&◌, Option, none, some,
  List, [], ◌∷◌, ltb, ◌==◌, if◌then◌else◌,
}
use my_stream_out_app.Base.Int.{
  ℤ, pos, negsuc, pos_part, is_positive, to_unsigned, signed64, minus_ℤ,
}
use my_stream_out_app.Streamer.Session.{
  Session, Timeline, Format, Buffer, Effect, push, Ran, clock_time_none,
}
use my_stream_out_app.Streamer.Video.{ByteBuffer, payload, to_ns, since}

-- (GstClockTime)(AV_OFFSET_ALPHA * a + (1.0 - AV_OFFSET_ALPHA) * b) in `double` arithmetic, for
-- a and b up to half a second: the exact 0.15 a + 0.85 b is a multiple of 0.01 and the rounding
-- errors are below 1e-6, so truncation gives a whole number at most the exact value and at most 1
-- below it.
pub record Smoothing : Type 0 where
  pub mix : ℕ → ℕ → ℕ
  pub mix_bounds :
      (a b : ℕ)
      → a ≤ 500000000
      → b ≤ 500000000
      → (100 * mix a b ≤ 15 * a + 85 * b) × (15 * a + 85 * b ≤ 100 * mix a b + 100)

-- The clamp of `instant_offset_ns` to [0, 500 ms].
abbrev pub clamp_offset : ℤ → ℕ
clamp_offset (pos n) = min n 500000000
clamp_offset (negsuc n) = 0

-- (gint64) raw_audio_pts - (gint64) s_last_video_pts_ns, clamped
unfoldable pub instant_offset : ℕ → ℕ → ℕ
instant_offset raw last = clamp_offset (minus_ℤ (signed64 raw) (signed64 last))

unfoldable pub update_ema : Smoothing → Timeline → ℕ → ℕ
update_ema m t raw =
    if t.last_video_pts_ns == clock_time_none
    then t.av_offset_ema
    else if t.av_offset_ema == clock_time_none
    then instant_offset raw t.last_video_pts_ns
    else m.mix (instant_offset raw t.last_video_pts_ns) t.av_offset_ema

-- The raw time shifted back by the smoothed offset.
abbrev pub correct : ℕ → ℕ → ℕ
correct ema raw = if not (ema == clock_time_none) && ltb ema raw then raw - ema else 0

-- a / b on guint64
abbrev pub divide : ℕ → ℕ → Option ℕ
divide a b = if b == 0 then none else some (a / b)

-- (s_audio_channels > 0) ? s_audio_channels : 1
abbrev pub channel_count : Format → ℕ
channel_count f = if is_positive f.audio_channels then pos_part f.audio_channels else 1

unfoldable pub audio_duration : Format → ℕ → Option ℕ
audio_duration f size =
    let samples = if f.audio_raw_pcm then size / (2 * channel_count f) else 1024 in
    divide ((samples * 1000000000) % 2 ^ 64) (to_unsigned 64 f.audio_sample_rate)

pub record Stamp : Type 0 where
  pub timeline : Timeline
  pub pts : ℕ
  pub duration : ℕ

unfoldable pub stamp_audio : Smoothing → Timeline → Format → ℤ → ℕ → Option Stamp
stamp_audio m t f pts_us size =
    if is_positive pts_us && not (t.pts_base == clock_time_none)
    then (let raw = since t.pts_base (to_ns pts_us) in
        let ema = update_ema m t raw in
        elim (audio_duration f size) [
          | none ↦ none
          | some d ↦ some (record {
            timeline = record t { av_offset_ema = ema; audio_push_count = t.audio_push_count + 1 };
            pts = correct ema raw;
            duration = d;
          })
        ])
    else some (record { timeline = t; pts = clock_time_none; duration = clock_time_none })

abbrev pub audio_buffer : List ℕ → Stamp → Buffer
audio_buffer bytes st = record {
  bytes = bytes;
  pts = st.pts;
  duration = st.duration;
  delta_unit = false;
}

-- From the copy to the end.
unfoldable pub push_audio_to : Smoothing → ℕ → Session → List ℕ → ℕ → ℤ → Option Ran
push_audio_to m src s bytes size pts_us = elim (stamp_audio m s.timeline s.format pts_us size) [
  | none ↦ none
  | some st ↦ some (record s { timeline = st.timeline }, push src (audio_buffer bytes st) ∷ [])
]

unfoldable pub push_audio_buffer : Smoothing → Session → ByteBuffer → ℕ → ℕ → ℤ → Bool → Option Ran
push_audio_buffer m s buf offset size pts_us map_ok = elim s.handles.audio_appsrc [
  | none ↦ some (s, [])
  | some src ↦
      if s.gates.audio_need_data
      then elim (payload buf offset size) [
        | none ↦ some (s, [])
        | some bytes ↦ if map_ok then push_audio_to m src s bytes size pts_us else some (s, [])
      ]
      else some (s, [])
]
