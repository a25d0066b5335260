-- ===== src/Streamer/Audio/Convergence.antt =====
-- The smoothed offset while the offset is constant.
use native.Mathlib.Nat.{pow-suc}
use my_stream_out_app.Base.{
  ℕ, suc, ◌+◌, ◌-◌, ◌*◌, ◌^◌, ◌≤◌, ◌<◌, ◌≡◌, List, [], ◌∷◌, All, length, arith,
}
use my_stream_out_app.Streamer.Session.{Timeline}
use my_stream_out_app.Streamer.Audio.{Smoothing, instant_offset, update_ema}

-- The offset after audio buffers that arrive one after the other, each given with the stamp of the
-- video frame before it and its own raw time.
pub ema_after : Smoothing → Timeline → List (ℕ × ℕ) → ℕ
ema_after m t [] = t.av_offset_ema
ema_after m t ((last, raw) ∷ obs) =
    let t' = record t { last_video_pts_ns = last } in
    ema_after m (record t' { av_offset_ema = update_ema m t' raw }) obs

-- An audio buffer `d` nanoseconds ahead of the video frame before it.
abbrev pub Ahead : ℕ → ℕ × ℕ → Type 0
Ahead d (last, raw) = (raw ≡ last + d) × (raw < 2 ^ 63)

abbrev pub distance : ℕ → ℕ → ℕ
distance a b = (a - b) + (b - a)

instant_offset_ahead :
    (d last raw : ℕ) → d ≤ 500000000 → raw ≡ last + d → raw < 2 ^ 63 → instant_offset raw last ≡ d
unfolding instant_offset
instant_offset_ahead d last raw h e l = ground arith

update_ema_ahead :
    (m : Smoothing) (t : Timeline) (d last raw : ℕ)
    → d ≤ 500000000
    → t.av_offset_ema ≤ 500000000
    → raw ≡ last + d
    → raw < 2 ^ 63
    → update_ema m (record t { last_video_pts_ns = last }) raw ≡ m.mix d t.av_offset_ema
unfolding update_ema
update_ema_ahead m t d last raw h e r l = ground (arith, instant_offset_ahead d last raw)

-- The excess of the error over 7 ns shrinks by 15% with each observation.
mix_contracts :
    (m : Smoothing) (d e : ℕ)
    → d ≤ 500000000
    → e ≤ 500000000
    → (100 * (distance (m.mix d e) d - 7) ≤ 85 * (distance e d - 7)) × (m.mix d e ≤ 500000000)
mix_contracts m d e hd he = omega (arith, m.mix_bounds d e hd he)

scale : (k a b : ℕ) → a ≤ b → k * a ≤ k * b
scale k a b h = grind arith

chain_step :
    (n x y z : ℕ) → 100 ^ n * x ≤ 85 ^ n * y → 100 * y ≤ 85 * z → 100 ^ suc n * x ≤ 85 ^ suc n * z
chain_step n x y z h k =
    rw (pow-suc 100 n, pow-suc 85 n) (omega (arith, scale (85 ^ n) (100 * y) (85 * z) k))

ema_after_contracts :
    (m : Smoothing) (t : Timeline) (d : ℕ) (obs : List (ℕ × ℕ))
    → d ≤ 500000000
    → t.av_offset_ema ≤ 500000000
    → All (Ahead d) obs
    → 100 ^ length obs * (distance (ema_after m t obs) d - 7)
      ≤ 85 ^ length obs * (distance t.av_offset_ema d - 7)
unfolding ema_after
ema_after_contracts m t d [] hd he h = omega arith
ema_after_contracts m t d ((last, raw) ∷ obs) hd he (now, later) =
    let t' = record (record t { last_video_pts_ns = last }) {
      av_offset_ema = m.mix d t.av_offset_ema;
    } in
    let shrink = mix_contracts m d t.av_offset_ema hd he in
    rw (update_ema_ahead m t d last raw hd he now.0 now.1) (
      chain_step (length obs) (distance (ema_after m t' obs) d - 7)
        (distance t'.av_offset_ema d - 7) (distance t.av_offset_ema d - 7)
        (ema_after_contracts m t' d obs hd shrink.1 later) shrink.0)

-- After 29 audio buffers that run at most half a second ahead of the video by the same offset, the
-- smoothed offset, half a second at most before them, has come within 1% of its first error, plus
-- 7 ns, of that offset.
pub ema_after_settles :
    (m : Smoothing) (t : Timeline) (d : ℕ) (obs : List (ℕ × ℕ))
    → d ≤ 500000000
    → t.av_offset_ema ≤ 500000000
    → All (Ahead d) obs
    → length obs ≡ 29
    → 100 * distance (ema_after m t obs) d ≤ distance t.av_offset_ema d + 700
ema_after_settles m t d obs hd he h n =
    omega (arith, rw n at (ema_after_contracts m t d obs hd he h))
