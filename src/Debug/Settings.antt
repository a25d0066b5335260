-- ===== src/Debug/Settings.antt =====
-- The values that the debug commands let through to Java.
use my_stream_out_app.Base.{
  ℕ, ◌-◌, ◌^◌, ◌≤◌, ◌<◌, ◌≡◌, inl, inr, refl, false, none, some, [], arith, Bool-cases,
  if◌then◌else◌, leb, leb→le, lt→ltb,
}
use my_stream_out_app.Base.Int.{ℤ, pos, negsuc, is_positive, to_int32_small, to_int32_big}
use my_stream_out_app.Base.Text.{Text, codes, strtol}
use my_stream_out_app.Debug.Jni.{Java, set_int}
use my_stream_out_app.Debug.{
  dbg_set_stream_mode, dbg_set_audio_sample_rate, mode_number, in_mode_range,
}

from_mode :
    (z : ℤ) (j : Java)
    → (if in_mode_range z then some (set_int (codes "setStreamMode") z) else none) ≡ some j
    → (n : ℕ) × ((j ≡ set_int (codes "setStreamMode") (pos n)) × (n ≤ 2))
from_mode (negsuc n) j h = absurd (ground arith)
from_mode (pos n) j h = elim (Bool-cases (leb n 2)) [
  | inl e ↦ (n, (ground arith, leb→le n 2 e))
  | inr e ↦ absurd (ground arith)
]

-- A stream mode that reaches Java is 0, 1 or 2.
pub dbg_set_stream_mode_range :
    (s : Text) (j : Java)
    → dbg_set_stream_mode s ≡ some j
    → (n : ℕ) × ((j ≡ set_int (codes "setStreamMode") (pos n)) × (n ≤ 2))
unfolding dbg_set_stream_mode
dbg_set_stream_mode_range s j h = from_mode (mode_number s) j h

-- A positive number below 2^31 with nothing behind it is the rate that Java gets.
pub dbg_set_audio_sample_rate_exact :
    (s : Text) (n : ℕ)
    → strtol s ≡ (pos n, [])
    → 0 < n
    → n < 2 ^ 31
    → dbg_set_audio_sample_rate s ≡ some (set_int (codes "setAudioSampleRate") (pos n))
unfolding dbg_set_audio_sample_rate
dbg_set_audio_sample_rate_exact s n e p l =
    simp (e, lt→ltb 0 n p, to_int32_small n l, dbg_set_audio_sample_rate) refl

-- From 2^31 to 2^32 - 1 the rate passes the test for a positive number, and Java gets a negative one.
pub dbg_set_audio_sample_rate_wraps :
    (s : Text) (n : ℕ)
    → strtol s ≡ (pos n, [])
    → 2 ^ 31 ≤ n
    → n < 2 ^ 32
    → (z : ℤ) × ((dbg_set_audio_sample_rate s ≡ some (set_int (codes "setAudioSampleRate") z))
        × (is_positive z ≡ false))
unfolding dbg_set_audio_sample_rate
dbg_set_audio_sample_rate_wraps s n e p l = (
  negsuc (2 ^ 32 - 1 - n),
  (simp (e, lt→ltb 0 n (omega arith), to_int32_big n p l, dbg_set_audio_sample_rate) refl, refl),
)
