-- ===== src/Tests/Audio.antt =====
-- Audio stamps, the smoothed offset, the audio configuration and the Opus probes.
use my_stream_out_app.Base.{
  ℕ, suc, zero, ◌+◌, ◌*◌, ◌≤◌, ◌≡◌, refl, inr, true, some, List, [], ◌∷◌, All, arith,
}
use my_stream_out_app.Base.Int.{pos}
use my_stream_out_app.Streamer.Session.{initial}
use my_stream_out_app.Streamer.Video.{since, to_ns}
use my_stream_out_app.Streamer.Audio.{
  Stamp, stamp_audio, audio_duration, update_ema, instant_offset,
}
use my_stream_out_app.Streamer.Audio.Sync.{stamp_audio_shift}
use my_stream_out_app.Streamer.Audio.Convergence.{Ahead, ema_after, distance, ema_after_settles}
use my_stream_out_app.Streamer.Aac.{aac_asc}
use my_stream_out_app.Streamer.Aac.Config.{decode_asc, freq_of_index, decode_asc-aac_asc}
use my_stream_out_app.Opus.Refines.{
  reports, intended_reports, switched_on, reports-intended_reports,
}
use my_stream_out_app.Opus.{initial_stats}
use my_stream_out_app.Opus.Window.{
  IsValid, IsFair, Event, sink, src, switch, step, run, run-step-IsFair,
}
use my_stream_out_app.Tests.Samples.{mix15, running}

-- 1.3 s of capture time on a base of 1 s: 300 ms, less an offset that moves from 200 ms to 215 ms.
abbrev shifted : Stamp
shifted = record {
  timeline = record running { av_offset_ema = 170000000; audio_push_count = 1 };
  pts = 130000000;
  duration = 23219954;
}

stamp_audio_shift_example :
    (shifted.pts ≤ since 1000000000 (to_ns (pos 1300000)))
    × (since 1000000000 (to_ns (pos 1300000)) ≤ shifted.pts + 500000000)
unfolding stamp_audio audio_duration update_ema instant_offset
stamp_audio_shift_example =
    stamp_audio_shift mix15 running initial.format (pos 1300000) 512
      (record { anchored = inr (omega arith); bounded = inr (omega arith) }) (ground arith) refl
      refl

-- As many buffers, each 40 ms ahead of a video frame stamped 1 s.
abbrev ahead : ℕ → List (ℕ × ℕ)
ahead zero = []
ahead (suc n) = (1000000000, 1040000000) ∷ ahead n

ahead-All : (n : ℕ) → All (Ahead 40000000) (ahead n)
ahead-All zero = tt
ahead-All (suc n) = ((omega arith, omega arith), ahead-All n)

ema_after_settles_example :
    100 * distance (ema_after mix15 running (ahead 29)) 40000000 ≤ distance 200000000 40000000 + 700
ema_after_settles_example =
    ema_after_settles mix15 running 40000000 (ahead 29) (omega arith) (omega arith) (ahead-All 29)
      refl

decode_asc-aac_asc_example :
    decode_asc (aac_asc (pos 44100) (pos 2))
    ≡ some (record { object_type = 2; freq_index = 4; channels = 2; rest = 0 })
unfolding freq_of_index
decode_asc-aac_asc_example = decode_asc-aac_asc 4 44100 2 refl (omega arith)

-- The probes are switched on, a buffer goes in, and one comes out.
abbrev one_frame : List Event
one_frame = switch true ∷ sink (some 0) 5 ∷ []

run-step-IsFair_example :
    let s = run initial_stats one_frame in IsValid s × IsFair (step s (src true 9)).1
run-step-IsFair_example = run-step-IsFair one_frame (src true 9)

-- Two buffers come in and go out.
abbrev two_frames : List Event
two_frames = sink (some 0) 5 ∷ sink (some 20) 7 ∷ src true 9 ∷ src true 12 ∷ []

reports-intended_reports_example :
    reports switched_on two_frames
    ≡ intended_reports (record { waiting = []; window = [] }) two_frames
reports-intended_reports_example =
    reports-intended_reports two_frames (omega arith, omega arith, (omega arith, omega arith, tt))
