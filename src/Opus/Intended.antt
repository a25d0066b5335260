-- ===== src/Opus/Intended.antt =====
-- What the probes are meant to measure: a queue of arrival times and a window of latencies.
use my_stream_out_app.Base.{
  ℕ, ◌+◌, ◌-◌, ◌≤◌, ◌<◌, ◌≡◌, true, false, Option, none, some, List, [], ◌∷◌, ◌++◌, map, All,
  length, drop, leb, if◌then◌else◌,
}
use my_stream_out_app.Streamer.Session.{clock_time_none}
use my_stream_out_app.Opus.{Stats, Report, max_int64, lower, upper}
use my_stream_out_app.Opus.Window.{Event, sink, src, switch, restart}

-- The arrival times that wait, oldest first, and the latencies of the window, newest first.
pub record Measured : Type 0 where
  pub waiting : List ℕ
  pub window : List ℕ

abbrev pub least : List ℕ → ℕ
least [] = max_int64
least (x ∷ xs) = lower x (least xs)

abbrev pub greatest : List ℕ → ℕ
greatest [] = 0
greatest (x ∷ xs) = upper x (greatest xs)

abbrev pub sum_of : List ℕ → ℕ
sum_of [] = 0
sum_of (x ∷ xs) = sum_of xs + x

-- The newest 64 of a list.
abbrev pub newest {ℓ} : {A : Type ℓ} → List A → List A
newest xs = drop (length xs - 64) xs

-- A full window is reported.
abbrev pub add_latency : List ℕ → List ℕ → Measured × Option Report
add_latency q w =
    if leb 100 (length w)
    then (
      record { waiting = q; window = [] },
      some (record { mn = least w; mx = greatest w; sum = sum_of w; n = length w }),
    )
    else (record { waiting = q; window = w }, none)

abbrev pub take_out : List ℕ → List ℕ → ℕ → Measured × Option Report
take_out [] w now = (record { waiting = []; window = w }, none)
take_out (t ∷ q) w now = add_latency q ((now - t) ∷ w)

-- What an event ought to do while the probes are on: a stamped buffer that comes in waits, with at
-- most 64 others, and a buffer that goes out is the oldest that waits.
abbrev pub intended : Measured → Event → Measured × Option Report
intended a (sink none now) = (a, none)
intended a (sink (some pts) now) = (record a { waiting = newest (a.waiting ++ (now ∷ [])) }, none)
intended a (src false now) = (a, none)
intended a (src true now) = take_out a.waiting a.window now
intended a (switch on) = (a, none)
intended a restart = (record { waiting = []; window = [] }, none)

-- Buffers come in by rising times from `lo` on, and the probes stay on.
abbrev pub Rising : ℕ → List Event → Type 0
Rising lo [] = Unit
Rising lo (sink none now ∷ es) = Rising lo es
Rising lo (sink (some pts) now ∷ es) = (lo ≤ pts) × (pts < clock_time_none) × Rising (pts + 1) es
Rising lo (src b now ∷ es) = Rising lo es
Rising lo (switch on ∷ es) = (on ≡ true) × Rising lo es
Rising lo (restart ∷ es) = Rising lo es

abbrev pub Below : ℕ → List (ℕ × ℕ) → Type 0
Below lo = All (λ (e : ℕ × ℕ). e.0 < lo)

abbrev pub arrivals : List (ℕ × ℕ) → List ℕ
arrivals = map (λ (e : ℕ × ℕ). e.1)

-- The probes' state stands for a queue and a window.
pub record Stands (s : Stats) (a : Measured) : Type 0 where
  pub is_on : s.debug ≡ true
  pub same_waiting : arrivals s.enc_in ≡ a.waiting
  pub same_count : s.lat_count ≡ length a.window
  pub same_sum : s.lat_sum_us ≡ sum_of a.window
  pub same_min : s.lat_min_us ≡ least a.window
  pub same_max : s.lat_max_us ≡ greatest a.window
