-- ===== src/Streamer/Aac.antt =====
-- The AudioSpecificConfig that on_media_configure of app/src/main/cpp/camera2_gst_streamer.cpp puts
-- into the caps of an AAC appsrc.
pub mod Config
use Prim.Native.Nat.{bit_or}
use my_stream_out_app.Base.{
  ℕ, ◌*◌, ◌/◌, ◌%◌, ◌^◌, Option, none, some, List, [], ◌∷◌, ◌==◌, if◌then◌else◌,
}
use my_stream_out_app.Base.Int.{ℤ, pos, negsuc, to_unsigned}

-- The index of a rate, `none` for -1.
unfoldable pub aac_freq_index : ℤ → Option ℕ
aac_freq_index (negsuc n) = none
aac_freq_index (pos r) =
    if r == 96000
    then some 0
    else if r == 88200
    then some 1
    else if r == 64000
    then some 2
    else if r == 48000
    then some 3
    else if r == 44100
    then some 4
    else if r == 32000
    then some 5
    else if r == 24000
    then some 6
    else if r == 22050
    then some 7
    else if r == 16000
    then some 8
    else if r == 12000
    then some 9
    else if r == 11025
    then some 10
    else if r == 8000
    then some 11
    else none

-- An unsupported rate falls back to 44100 Hz.
unfoldable pub asc_freq_index : ℤ → ℕ
unfolding aac_freq_index
asc_freq_index rate = elim (aac_freq_index rate) [ none ↦ 4 | some i ↦ i ]

-- (guint16)((2 << 11) | (a_freq_idx << 7) | (a_ch << 3))
unfoldable pub asc16 : ℕ → ℤ → ℕ
asc16 idx ch = bit_or (bit_or (2 * 2 ^ 11) (idx * 2 ^ 7)) (to_unsigned 32 ch * 2 ^ 3) % 2 ^ 16

-- The two bytes, high byte first.
unfoldable pub aac_asc : ℤ → ℤ → List ℕ
unfolding asc16 asc_freq_index
aac_asc rate ch = let w = asc16 (asc_freq_index rate) ch in (w / 2 ^ 8) ∷ (w % 2 ^ 8) ∷ []
