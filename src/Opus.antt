-- ===== src/Opus.antt =====
-- The Opus latency probes of app/src/main/cpp/camera2_gst_streamer.cpp: opus_probe_reset,
-- opus_enc_sink_probe, opus_enc_src_probe and Cam2Streamer_SetAudioLatencyDebug. Times are monotonic
-- microseconds, which start at 0 or above; `std::map` is a list that is sorted by its keys.
pub mod Window
pub mod Intended
pub mod Arrivals
pub mod Refines
use my_stream_out_app.Base.{
  ℕ, ◌+◌, ◌-◌, ◌^◌, Bool, true, false, not, ◌&&◌, Option, none, some, List, [], ◌∷◌, length, ltb,
  leb, ◌==◌, if◌then◌else◌,
}
use my_stream_out_app.Streamer.Session.{clock_time_none}

pub record Stats : Type 0 where
  pub enc_in : List (ℕ × ℕ)
  pub lat_min_us : ℕ
  pub lat_max_us : ℕ
  pub lat_sum_us : ℕ
  pub lat_count : ℕ
  pub debug : Bool

abbrev pub max_int64 : ℕ
max_int64 = 2 ^ 63 - 1

-- A window with no measurement.
abbrev pub fresh_window : Stats → Stats
fresh_window s = record s { lat_min_us = max_int64; lat_max_us = 0; lat_sum_us = 0; lat_count = 0 }

abbrev pub probe_reset : Stats → Stats
probe_reset s = record (fresh_window s) { enc_in = [] }

abbrev pub initial_stats : Stats
initial_stats = record {
  enc_in = [];
  lat_min_us = max_int64;
  lat_max_us = 0;
  lat_sum_us = 0;
  lat_count = 0;
  debug = false;
}

-- `map[key] = value`
unfoldable pub put : ℕ → ℕ → List (ℕ × ℕ) → List (ℕ × ℕ)
put k v [] = (k, v) ∷ []
put k v ((k', v') ∷ m) =
    let rest = put k v m in
    if ltb k k' then (k, v) ∷ ((k', v') ∷ m) else if k == k' then (k, v) ∷ m else (k', v') ∷ rest

-- while (size > 64) erase(begin)
unfoldable pub cap : List (ℕ × ℕ) → List (ℕ × ℕ)
cap [] = []
cap (e ∷ m) = let rest = cap m in if ltb 64 (length (e ∷ m)) then rest else e ∷ m

unfoldable pub enc_sink_probe : Stats → Option ℕ → ℕ → Stats
unfolding put cap
enc_sink_probe s none now = s
enc_sink_probe s (some pts) now =
    if s.debug && not (pts == clock_time_none)
    then record s { enc_in = cap (put pts now s.enc_in) }
    else s

-- What a full window prints, in microseconds.
pub record Report : Type 0 where
  pub mn : ℕ
  pub mx : ℕ
  pub sum : ℕ
  pub n : ℕ

abbrev pub lower : ℕ → ℕ → ℕ
lower a b = if ltb a b then a else b

abbrev pub upper : ℕ → ℕ → ℕ
upper a b = if ltb b a then a else b

-- One latency is added; a full window is reported and starts again.
unfoldable pub measure : Stats → ℕ → Stats × Option Report
measure s lat =
    let s' = record s {
      lat_min_us = lower lat s.lat_min_us;
      lat_max_us = upper lat s.lat_max_us;
      lat_sum_us = s.lat_sum_us + lat;
      lat_count = s.lat_count + 1;
    } in
    if leb 100 s'.lat_count
    then (
      fresh_window s',
      some (record {
        mn = s'.lat_min_us;
        mx = s'.lat_max_us;
        sum = s'.lat_sum_us;
        n = s'.lat_count;
      }),
    )
    else (s', none)

-- A latency below 0 counts as 0.
unfoldable pub enc_src_probe : Stats → Bool → ℕ → Stats × Option Report
unfolding measure
enc_src_probe s has_buffer now =
    if s.debug && has_buffer
    then elim s.enc_in [
      | [] ↦ (s, none)
      | e ∷ rest ↦ measure (record s { enc_in = rest }) (now - e.1)
    ]
    else (s, none)

unfoldable pub set_audio_latency_debug : Stats → Bool → Stats
set_audio_latency_debug s on = record (if on && not s.debug then probe_reset s else s) {
  debug = on;
}
