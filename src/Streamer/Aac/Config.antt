-- ===== src/Streamer/Aac/Config.antt =====
-- The AudioSpecificConfig against a decoder, as ISO/IEC 14496-3 lays it out.
use my_stream_out_app.Base.{
  ℕ, ◌+◌, ◌*◌, ◌/◌, ◌%◌, ◌^◌, ◌<◌, ◌≡◌, refl, true, Option, none, some, List, [], ◌∷◌,
  if◌then◌else◌, arith, ==_iff, ◌==◌, all_below, all_below→,
}
use my_stream_out_app.Base.Int.{ℤ, pos}
use my_stream_out_app.Streamer.Aac.{aac_freq_index, asc_freq_index, asc16, aac_asc}

-- objectType(5) | freqIdx(4) | channels(4) | 0(3)
pub record Asc : Type 0 where
  pub object_type : ℕ
  pub freq_index : ℕ
  pub channels : ℕ
  pub rest : ℕ

-- The fields of two bytes.
pub decode_asc : List ℕ → Option Asc
decode_asc (hi ∷ lo ∷ []) =
    let w = hi * 2 ^ 8 + lo in
    some (record {
      object_type = w / 2 ^ 11;
      freq_index = w / 2 ^ 7 % 2 ^ 4;
      channels = w / 2 ^ 3 % 2 ^ 4;
      rest = w % 2 ^ 3;
    })
decode_asc _ = none

-- Table 1.16: the rate of an index.
unfoldable pub freq_of_index : ℕ → Option ℕ
freq_of_index i =
    if i == 0
    then some 96000
    else if i == 1
    then some 88200
    else if i == 2
    then some 64000
    else if i == 3
    then some 48000
    else if i == 4
    then some 44100
    else if i == 5
    then some 32000
    else if i == 6
    then some 24000
    else if i == 7
    then some 22050
    else if i == 8
    then some 16000
    else if i == 9
    then some 12000
    else if i == 10
    then some 11025
    else if i == 11
    then some 8000
    else none

asc_freq_index-freq_of_index : (i r : ℕ) → freq_of_index i ≡ some r → asc_freq_index (pos r) ≡ i
unfolding asc_freq_index aac_freq_index freq_of_index
asc_freq_index-freq_of_index i r e = ground arith

asc16_table :
    all_below 16 (λ i. all_below 16 (λ c. asc16 i (pos c) == 4096 + 128 * i + 8 * c)) ≡ true
unfolding all_below asc16
asc16_table = refl

asc16_sum : (i c : ℕ) → i < 16 → c < 16 → asc16 i (pos c) ≡ 4096 + 128 * i + 8 * c
asc16_sum i c hi hc = (==_iff _ _).0 (all_below→ 16 _ c (all_below→ 16 _ i asc16_table hi) hc)

asc_freq_index-lt : (rate : ℤ) → asc_freq_index rate < 12
unfolding asc_freq_index aac_freq_index
asc_freq_index-lt rate = ground arith

-- For fewer than 16 channels the two bytes read back as AAC-LC (object type 2), an index below 12,
-- the channel count, and zero bits.
decode_asc-aac_asc_any :
    (rate : ℤ) (ch : ℕ)
    → ch < 16
    → decode_asc (aac_asc rate (pos ch))
      ≡ some (record { object_type = 2; freq_index = asc_freq_index rate; channels = ch; rest = 0 })
unfolding decode_asc aac_asc
decode_asc-aac_asc_any rate ch h =
    rw (asc16_sum (asc_freq_index rate) ch (omega (arith, asc_freq_index-lt rate)) h)
      (ground (arith, asc_freq_index-lt rate))

-- For the rate at index i of the standard's table and fewer than 16 channels, the two bytes read back
-- as AAC-LC (object type 2), index i, the channel count, and zero bits.
pub decode_asc-aac_asc :
    (i r ch : ℕ)
    → freq_of_index i ≡ some r
    → ch < 16
    → decode_asc (aac_asc (pos r) (pos ch))
      ≡ some (record { object_type = 2; freq_index = i; channels = ch; rest = 0 })
decode_asc-aac_asc i r ch e h =
    rw (← asc_freq_index-freq_of_index i r e) (decode_asc-aac_asc_any (pos r) ch h)
