-- ===== src/Streamer/Audio/Faults.antt =====
-- When an audio push divides by zero, and when it leaves its buffer without a stamp.
use my_stream_out_app.Base.{ℕ, ◌≡◌, ◌≢◌, Bool, true, false, none, some, List, [], ◌∷◌, arith}
use my_stream_out_app.Base.Int.{ℤ, pos, is_positive, to_unsigned}
use my_stream_out_app.Streamer.Session.{Session, push, clock_time_none}
use my_stream_out_app.Streamer.Video.{ByteBuffer, payload}
use my_stream_out_app.Streamer.Audio.{
  Smoothing, stamp_audio, audio_duration, push_audio_to, push_audio_buffer,
}

-- With a sample rate that is not 0 an audio push never divides by zero.
pub push_audio_buffer_total :
    (m : Smoothing) (s : Session) (buf : ByteBuffer) (offset size : ℕ) (pts_us : ℤ) (map_ok : Bool)
    → to_unsigned 64 s.format.audio_sample_rate ≢ 0
    → push_audio_buffer m s buf offset size pts_us map_ok ≢ none
unfolding push_audio_buffer push_audio_to stamp_audio audio_duration
push_audio_buffer_total m s buf offset size pts_us map_ok r = ground arith

-- With sample rate 0, the first timed audio buffer after a video frame divides by zero.
pub push_audio_buffer_zero_rate :
    (m : Smoothing) (s : Session) (buf : ByteBuffer) (offset size src : ℕ) (pts_us : ℤ)
    (bytes : List ℕ)
    → s.format.audio_sample_rate ≡ pos 0
    → s.handles.audio_appsrc ≡ some src
    → s.gates.audio_need_data ≡ true
    → payload buf offset size ≡ some bytes
    → s.timeline.pts_base ≢ clock_time_none
    → is_positive pts_us ≡ true
    → push_audio_buffer m s buf offset size pts_us true ≡ none
unfolding push_audio_buffer push_audio_to stamp_audio audio_duration
push_audio_buffer_zero_rate m s buf offset size src pts_us bytes r a n e b p = ground arith

-- Until a video frame has set the base, an audio buffer that is wanted is pushed with no stamp and no
-- duration, and the session stays as it was.
pub push_audio_buffer_no_base :
    (m : Smoothing) (s : Session) (buf : ByteBuffer) (offset size src : ℕ) (pts_us : ℤ)
    (bytes : List ℕ)
    → s.handles.audio_appsrc ≡ some src
    → s.gates.audio_need_data ≡ true
    → payload buf offset size ≡ some bytes
    → s.timeline.pts_base ≡ clock_time_none
    → push_audio_buffer m s buf offset size pts_us true
      ≡ some (
        s,
        push src (record {
          bytes = bytes;
          pts = clock_time_none;
          duration = clock_time_none;
          delta_unit = false;
        })
            ∷ [],
      )
unfolding push_audio_buffer push_audio_to stamp_audio
push_audio_buffer_no_base m s buf offset size src pts_us bytes a n e b = ground arith
