-- ===== src/Streamer/Play/Live.antt =====
-- What both passes make of an element.
use my_stream_out_app.Base.{
  ℕ, ◌≡◌, Bool, true, false, Option, none, some, List, [], ◌∷◌, map, All, ◌==◌, arith,
}
use my_stream_out_app.Streamer.Play.{Element, relax, configure_rtp, has}
use my_stream_out_app.Streamer.Play.Scan.{tuned}

abbrev is_on : Option Bool → Bool
is_on none = false
is_on (some b) = b

abbrev is_zero : Option ℕ → Bool
is_zero none = true
is_zero (some n) = n == 0

-- What an element must look like in a live transmitter: a sink with `sync` neither paces its packets
-- nor waits for preroll nor drops late ones; what can report lost packets does not, and adds no
-- latency; NTP times count from 1900.
abbrev pub IsLive : Element → Type 0
IsLive e =
    (is_on e.sync ≡ false)
    × (has e.sync ≡ true → (is_on e.async ≡ false) × (is_zero e.processing_deadline ≡ true))
    × (is_on e.do_lost ≡ false)
    × (has e.do_lost ≡ true → is_zero e.latency ≡ true)
    × (is_zero e.ntp_time_source ≡ true)

tuned-IsLive : (b : Bool) (e : Element) → IsLive (tuned b e)
unfolding relax configure_rtp
tuned-IsLive b e = ground arith

pub map-tuned-IsLive : (b : Bool) (es : List Element) → All IsLive (map (tuned b) es)
map-tuned-IsLive b [] = tt
map-tuned-IsLive b (e ∷ es) = (tuned-IsLive b e, map-tuned-IsLive b es)
