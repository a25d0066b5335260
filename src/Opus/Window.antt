-- ===== src/Opus/Window.antt =====
-- What the Opus probes keep true of their map and their window.
use my_stream_out_app.Base.{
  ℕ, ◌+◌, ◌-◌, ◌*◌, ◌≤◌, ◌<◌, ◌≡◌, refl, inl, inr, Bool, true, Option, none, some, List, [], ◌∷◌,
  length, leb, leb→le, arith, not, ◌&&◌, ◌==◌, Bool-cases,
}
use my_stream_out_app.Streamer.Session.{clock_time_none}
use my_stream_out_app.Opus.{
  Stats, Report, initial_stats, put, cap, enc_sink_probe, lower, upper, measure, enc_src_probe,
  set_audio_latency_debug, probe_reset,
}

-- At most 64 arrivals wait, a window has fewer than 100 measurements, and their sum lies between as
-- many times the least and as many times the greatest.
pub record IsValid (s : Stats) : Type 0 where
  pub few_waiting : length s.enc_in ≤ 64
  pub not_full : s.lat_count < 100
  pub at_least : s.lat_count * s.lat_min_us ≤ s.lat_sum_us
  pub at_most : s.lat_sum_us ≤ s.lat_count * s.lat_max_us

length-cap : (m : List (ℕ × ℕ)) → length (cap m) ≤ 64
unfolding cap
length-cap [] = omega arith
length-cap (e ∷ m) = ground (arith, length-cap m)

-- What a report says of its window: 100 measurements, whose average lies between the least and the
-- greatest.
abbrev pub IsFair : Option Report → Type 0
IsFair none = Unit
IsFair (some r) = (r.n ≡ 100) × (100 * r.mn ≤ r.sum) × (r.sum ≤ 100 * r.mx)

bound_below : (n a b lat sum : ℕ) → n * a ≤ sum → b ≤ a → b ≤ lat → (n + 1) * b ≤ sum + lat
bound_below n a b lat sum h k l = grind arith

bound_above : (n a b lat sum : ℕ) → sum ≤ n * a → a ≤ b → lat ≤ b → sum + lat ≤ (n + 1) * b
bound_above n a b lat sum h k l = grind arith

lower_le : (a b : ℕ) → (lower a b ≤ a) × (lower a b ≤ b)
lower_le a b = ground arith

upper_le : (a b : ℕ) → (a ≤ upper a b) × (b ≤ upper a b)
upper_le a b = ground arith

measure-IsValid :
    (s : Stats) (lat : ℕ) → IsValid s → let (s', r) = measure s lat in IsValid s' × IsFair r
unfolding measure
measure-IsValid s lat v =
    let lo =
      bound_below s.lat_count s.lat_min_us (lower lat s.lat_min_us) lat s.lat_sum_us v.at_least
        (lower_le lat s.lat_min_us).1 (lower_le lat s.lat_min_us).0 in
    let hi =
      bound_above s.lat_count s.lat_max_us (upper lat s.lat_max_us) lat s.lat_sum_us v.at_most
        (upper_le lat s.lat_max_us).1 (upper_le lat s.lat_max_us).0 in
    let full : leb 100 (s.lat_count + 1) ≡ true
        → IsFair (
            some (record {
              mn = lower lat s.lat_min_us;
              mx = upper lat s.lat_max_us;
              sum = s.lat_sum_us + lat;
              n = s.lat_count + 1;
            })) =
      λ e.
        let q : s.lat_count + 1 ≡ 100 = omega (arith, v.not_full, leb→le 100 (s.lat_count + 1) e) in
        (q, rw (q) at lo, rw (q) at hi) in
    elim (Bool-cases (leb 100 (s.lat_count + 1))) [
      | inl e ↦
          simp (e, measure)
            (
              record {
                few_waiting = v.few_waiting;
                not_full = omega arith;
                at_least = omega arith;
                at_most = omega arith;
              },
              full e,
            )
      | inr e ↦
          simp (e, measure)
            (
              record {
                few_waiting = v.few_waiting;
                not_full = ground arith;
                at_least = lo;
                at_most = hi;
              },
              tt,
            )
    ]

-- One call of a probe or of the debug switch, or a media that is configured with an Opus encoder.
pub data Event : Type 0 where
  sink : Option ℕ → ℕ → Event
  src : Bool → ℕ → Event
  switch : Bool → Event
  restart : Event

abbrev pub step : Stats → Event → Stats × Option Report
step s (sink pts now) = (enc_sink_probe s pts now, none)
step s (src has_buffer now) = enc_src_probe s has_buffer now
step s (switch on) = (set_audio_latency_debug s on, none)
step s restart = (probe_reset s, none)

abbrev pub run : Stats → List Event → Stats
run s [] = s
run s (e ∷ es) = run (step s e).0 es

popped :
    (s : Stats) (has_buffer : Bool) (now : ℕ) (m : List (ℕ × ℕ))
    → s.enc_in ≡ m
    → IsValid s
    → (s.debug && has_buffer) ≡ true
    → let (s', r) = enc_src_probe s has_buffer now in IsValid s' × IsFair r
unfolding enc_src_probe
popped s has_buffer now [] q v e = simp (e, q, enc_src_probe) (v, tt)
popped s has_buffer now (x ∷ m) q v e =
    simp (e, q, enc_src_probe)
      (measure-IsValid (record s { enc_in = m }) (now - x.1)
        (record {
          few_waiting = omega (arith, rw (q) at v.few_waiting);
          not_full = v.not_full;
          at_least = v.at_least;
          at_most = v.at_most;
        }))

src-IsValid :
    (s : Stats) (has_buffer : Bool) (now : ℕ) (m : List (ℕ × ℕ))
    → s.enc_in ≡ m
    → IsValid s
    → let (s', r) = enc_src_probe s has_buffer now in IsValid s' × IsFair r
unfolding enc_src_probe
src-IsValid s has_buffer now m q v = elim (Bool-cases (s.debug && has_buffer)) [
  | inr e ↦ simp (e, enc_src_probe) (v, tt)
  | inl e ↦ popped s has_buffer now m q v e
]

step-IsValid : (s : Stats) (e : Event) → IsValid s → let (s', r) = step s e in IsValid s' × IsFair r
unfolding enc_sink_probe enc_src_probe set_audio_latency_debug
step-IsValid s (sink none now) v = (v, tt)
step-IsValid s (sink (some pts) now) v =
    elim (Bool-cases (s.debug && not (pts == clock_time_none))) [
      | inl e ↦
          simp (e, enc_sink_probe)
            (
              record {
                few_waiting = length-cap (put pts now s.enc_in);
                not_full = v.not_full;
                at_least = v.at_least;
                at_most = v.at_most;
              },
              tt,
            )
      | inr e ↦ simp (e, enc_sink_probe) (v, tt)
    ]
step-IsValid s (src has_buffer now) v = src-IsValid s has_buffer now s.enc_in refl v
step-IsValid s restart v = (
  record {
    few_waiting = omega arith;
    not_full = omega arith;
    at_least = omega arith;
    at_most = omega arith;
  },
  tt,
)
step-IsValid s (switch on) v = elim (Bool-cases (on && not s.debug)) [
  | inl e ↦
      simp (e, set_audio_latency_debug)
        (
          record {
            few_waiting = omega arith;
            not_full = omega arith;
            at_least = omega arith;
            at_most = omega arith;
          },
          tt,
        )
  | inr e ↦
      simp (e, set_audio_latency_debug)
        (
          record {
            few_waiting = v.few_waiting;
            not_full = v.not_full;
            at_least = v.at_least;
            at_most = v.at_most;
          },
          tt,
        )
]

run-IsValid : (s : Stats) (es : List Event) → IsValid s → IsValid (run s es)
run-IsValid s [] v = v
run-IsValid s (e ∷ es) v = run-IsValid (step s e).0 es (step-IsValid s e v).0

-- After any sequence of probe calls, switches and restarts from the start, at most 64 arrivals wait and the
-- window is not full, and whatever the next call reports is a window of exactly 100 measurements
-- whose average lies between its least and its greatest.
pub run-step-IsFair :
    (es : List Event) (e : Event) → let s = run initial_stats es in IsValid s × IsFair (step s e).1
run-step-IsFair es e =
    let v = run-IsValid initial_stats es (record {
      few_waiting = omega arith;
      not_full = omega arith;
      at_least = omega arith;
      at_most = omega arith;
    }) in
    (v, (step-IsValid (run initial_stats es) e v).1)
