-- ===== src/Opus/Refines.antt =====
-- The probes' reports against those of the queue and the window.
use my_stream_out_app.Base.{
  ℕ, suc, ◌+◌, ◌-◌, ◌≤◌, ◌<◌, ◌≡◌, refl, ap, ap₂, ◌∙◌, sym, Bool, true, false, Option, none, some,
  List, [], ◌∷◌, ◌++◌, length, leb, ◌==◌, arith, Bool-cases, inl, inr,
}
use mathlib.Core.Path.{subst}
use my_stream_out_app.Streamer.Session.{clock_time_none}
use my_stream_out_app.Opus.{
  Stats, Report, initial_stats, put, cap, enc_sink_probe, lower, upper, measure, enc_src_probe,
  set_audio_latency_debug, probe_reset,
}
use my_stream_out_app.Opus.Window.{Event, sink, src, switch, restart, step}
use my_stream_out_app.Opus.Intended.{
  Measured, least, greatest, sum_of, newest, add_latency, take_out, intended, Rising, Below,
  arrivals, Stands,
}
use my_stream_out_app.Opus.Arrivals.{
  put-Below, cap-newest, arrivals-append, arrivals-newest, Below-append, Below-drop,
}

-- What a call reports, and how its states stand to each other.
abbrev Agrees : Stats × Option Report → Measured × Option Report → Type 0
Agrees (s, r) (a, r') = (r ≡ r') × Stands s a

abbrev report_of : ℕ → ℕ → ℕ → ℕ → Option Report
report_of a b c k = some (record { mn = a; mx = b; sum = c; n = k })

report_equal :
    (s : Stats) (w : List ℕ) (lat : ℕ)
    → s.lat_count ≡ length w
    → s.lat_sum_us ≡ sum_of w
    → s.lat_min_us ≡ least w
    → s.lat_max_us ≡ greatest w
    → report_of
        (lower lat s.lat_min_us)
        (upper lat s.lat_max_us)
        (s.lat_sum_us + lat)
        (s.lat_count + 1)
      ≡ report_of (least (lat ∷ w)) (greatest (lat ∷ w)) (sum_of (lat ∷ w)) (length (lat ∷ w))
report_equal s w lat c t l g =
    let k : s.lat_count + 1 ≡ suc (length w) = omega (arith, c) in rw (k, t, l, g) refl

measure-Agrees :
    (s : Stats) (q w : List ℕ) (lat : ℕ)
    → Stands s (record { waiting = q; window = w })
    → Agrees (measure s lat) (add_latency q (lat ∷ w)) × ((measure s lat).0.enc_in ≡ s.enc_in)
unfolding measure
measure-Agrees s q w lat h = elim (Bool-cases (leb 100 (s.lat_count + 1))) [
  | inl e ↦
      let e' : leb 100 (suc (length w)) ≡ true = ground (arith, h.same_count) in
      simp (e, e', measure)
        (
          (
            report_equal s w lat h.same_count h.same_sum h.same_min h.same_max,
            record {
              is_on = h.is_on;
              same_waiting = h.same_waiting;
              same_count = refl;
              same_sum = refl;
              same_min = refl;
              same_max = refl;
            },
          ),
          refl,
        )
  | inr e ↦
      let e' : leb 100 (suc (length w)) ≡ false = ground (arith, h.same_count) in
      simp (e, e', measure)
        (
          (
            refl,
            record {
              is_on = h.is_on;
              same_waiting = h.same_waiting;
              same_count = omega (arith, h.same_count);
              same_sum = omega (arith, h.same_sum);
              same_min = ap (lower lat) h.same_min;
              same_max = ap (upper lat) h.same_max;
            },
          ),
          refl,
        )
]

sink-Agrees :
    (s : Stats) (a : Measured) (lo pts now : ℕ)
    → Stands s a
    → Below lo s.enc_in
    → lo ≤ pts
    → pts < clock_time_none
    → Stands (enc_sink_probe s (some pts) now) (intended a (sink (some pts) now)).0
      × Below (pts + 1) (enc_sink_probe s (some pts) now).enc_in
unfolding enc_sink_probe
sink-Agrees s a lo pts now h b l u =
    let fresh : (pts == clock_time_none) ≡ false = ground arith in
    let kept : cap (put pts now s.enc_in) ≡ newest (s.enc_in ++ ((pts, now) ∷ [])) =
      cap-newest (put pts now s.enc_in) ∙ ap newest (put-Below pts now lo s.enc_in b l) in
    simp (h.is_on, fresh, kept, enc_sink_probe)
      (
        record {
          is_on = refl;
          same_waiting =
              arrivals-newest (s.enc_in ++ ((pts, now) ∷ []))
              ∙ ap newest
                  (arrivals-append s.enc_in pts now ∙ ap (λ q. q ++ (now ∷ [])) h.same_waiting);
          same_count = h.same_count;
          same_sum = h.same_sum;
          same_min = h.same_min;
          same_max = h.same_max;
        },
        Below-drop (pts + 1) (length (s.enc_in ++ ((pts, now) ∷ [])) - 64)
            (s.enc_in ++ ((pts, now) ∷ [])) (Below-append lo pts now s.enc_in b l),
      )

src-Agrees :
    (s : Stats) (a : Measured) (lo now : ℕ) (m : List (ℕ × ℕ))
    → s.enc_in ≡ m
    → Stands s a
    → Below lo m
    → Agrees (enc_src_probe s true now) (take_out a.waiting a.window now)
      × Below lo (enc_src_probe s true now).0.enc_in
unfolding enc_src_probe
src-Agrees s a lo now [] e h b =
    let q : a.waiting ≡ [] = sym h.same_waiting ∙ ap arrivals e in
    simp (h.is_on, e, q, enc_src_probe)
      (
        (
          refl,
          record {
            is_on = h.is_on;
            same_waiting = ap arrivals e;
            same_count = h.same_count;
            same_sum = h.same_sum;
            same_min = h.same_min;
            same_max = h.same_max;
          },
        ),
        tt,
      )
src-Agrees s a lo now (x ∷ m) e h (b, bs) =
    let q : a.waiting ≡ x.1 ∷ arrivals m = sym h.same_waiting ∙ ap arrivals e in
    let s1 = record s { enc_in = m; debug = true } in
    let (r, k) = measure-Agrees s1 (arrivals m) a.window (now - x.1) (record {
      is_on = refl;
      same_waiting = refl;
      same_count = h.same_count;
      same_sum = h.same_sum;
      same_min = h.same_min;
      same_max = h.same_max;
    }) in
    simp (h.is_on, e, q, enc_src_probe) (r, subst (Below lo) (sym k) bs)

-- The reports of the probes over a list of events, one for each event.
abbrev pub reports : Stats → List Event → List (Option Report)
reports s [] = []
reports s (e ∷ es) = (step s e).1 ∷ reports (step s e).0 es

abbrev pub intended_reports : Measured → List Event → List (Option Report)
intended_reports a [] = []
intended_reports a (e ∷ es) = (intended a e).1 ∷ intended_reports (intended a e).0 es

-- An event that changes nothing.
skipped :
    (s : Stats) (e : Event) (es : List Event) (rs : List (Option Report))
    → step s e ≡ (s, none)
    → reports s es ≡ rs
    → reports s (e ∷ es) ≡ none ∷ rs
skipped s e es rs p q = ap (λ (r : Stats × Option Report). r.1 ∷ reports r.0 es) p ∙ ap (◌∷◌ none) q

sink_nothing : (s : Stats) (now : ℕ) → step s (sink none now) ≡ (s, none)
unfolding enc_sink_probe
sink_nothing s now = refl

src_nothing : (s : Stats) (now : ℕ) → s.debug ≡ true → step s (src false now) ≡ (s, none)
unfolding enc_src_probe
src_nothing s now h = simp (h, enc_src_probe) refl

switch_again : (s : Stats) (on : Bool) → s.debug ≡ true → on ≡ true → step s (switch on) ≡ (s, none)
unfolding set_audio_latency_debug
switch_again s on h o =
    simp (h, o, set_audio_latency_debug) (ap (λ b. (record s { debug = b }, none)) (sym h))

reports-Stands :
    (s : Stats) (a : Measured) (lo : ℕ) (es : List Event)
    → Stands s a
    → Below lo s.enc_in
    → Rising lo es
    → reports s es ≡ intended_reports a es
reports-Stands s a lo [] h b r = refl
reports-Stands s a lo (sink none now ∷ es) h b r =
    skipped s (sink none now) es (intended_reports a es) (sink_nothing s now)
      (reports-Stands s a lo es h b r)
reports-Stands s a lo (sink (some pts) now ∷ es) h b (l, u, r) =
    let (h', b') = sink-Agrees s a lo pts now h b l u in
    ap (◌∷◌ none) (reports-Stands _ _ (pts + 1) es h' b' r)
reports-Stands s a lo (src false now ∷ es) h b r =
    skipped s (src false now) es (intended_reports a es) (src_nothing s now h.is_on)
      (reports-Stands s a lo es h b r)
reports-Stands s a lo (src true now ∷ es) h b r =
    let (g, b') = src-Agrees s a lo now s.enc_in refl h b in
    ap₂ ◌∷◌ g.0 (reports-Stands _ _ lo es g.1 b' r)
reports-Stands s a lo (switch on ∷ es) h b (o, r) =
    skipped s (switch on) es (intended_reports a es) (switch_again s on h.is_on o)
      (reports-Stands s a lo es h b r)
reports-Stands s a lo (restart ∷ es) h b r = ap (◌∷◌ none) (
    reports-Stands (probe_reset s) (record { waiting = []; window = [] }) lo es
      (record {
        is_on = h.is_on;
        same_waiting = refl;
        same_count = refl;
        same_sum = refl;
        same_min = refl;
        same_max = refl;
      })
      tt r)

-- The probes switched on in the initial state.
abbrev pub switched_on : Stats
switched_on = record initial_stats { debug = true }

-- While the probes are on and buffers come in by rising times, the probes report just what a queue and
-- a list of latencies would: each buffer that goes out is paired with the oldest of the newest 64
-- arrivals that wait, and every 100 latencies their least, greatest, sum and number are reported.
pub reports-intended_reports :
    (es : List Event)
    → Rising 0 es
    → reports switched_on es ≡ intended_reports (record { waiting = []; window = [] }) es
reports-intended_reports es r =
    reports-Stands switched_on (record { waiting = []; window = [] }) 0 es
      (record {
        is_on = refl;
        same_waiting = refl;
        same_count = refl;
        same_sum = refl;
        same_min = refl;
        same_max = refl;
      })
      tt r
