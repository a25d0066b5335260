-- ===== src/Streamer/Play/Once.antt =====
-- How often the latency is recalculated.
use my_stream_out_app.Base.{
  ℕ, ◌+◌, ◌≡◌, Bool, false, ◌&&◌, ◌||◌, Option, none, some, List, [], ◌∷◌, ◌++◌, arith,
  if◌then◌else◌,
}
use my_stream_out_app.Streamer.Session.{Session, Effect, recalculate_latency}
use my_stream_out_app.Streamer.Play.{
  Media, PlayRequest, cache_pipeline, play_pipeline, play_in, on_client_play_request, has,
}

-- The recalculations among the calls.
abbrev pub recalculations : List Effect → ℕ
recalculations [] = 0
recalculations (recalculate_latency p ∷ es) = 1 + recalculations es
recalculations (_ ∷ es) = recalculations es

abbrev is_bin : Option (ℕ × Bool) → Bool
is_bin none = false
is_bin (some (p, b)) = b

-- The request gets as far as the pipeline.
abbrev pub reaches_pipeline : PlayRequest → Bool
reaches_pipeline q = q.has_media && (has q.user_bin && is_bin q.parent)

abbrev pub any_reaches : List PlayRequest → Bool
any_reaches [] = false
any_reaches (q ∷ qs) = reaches_pipeline q || any_reaches qs

-- The calls that requests of several clients on one media make, one after the other.
pub play_all : Session → List PlayRequest → Media → List Effect
play_all s [] m = []
play_all s (q ∷ qs) m =
    let r = on_client_play_request s q m in r.effects ++ play_all r.session qs r.media

recalculations-append :
    (xs ys : List Effect) → recalculations (xs ++ ys) ≡ recalculations xs + recalculations ys
recalculations-append [] ys = omega arith
recalculations-append (x ∷ xs) ys = ground (arith, recalculations-append xs ys)

one_request :
    (s : Session) (q : PlayRequest) (m : Media)
    → let r = on_client_play_request s q m in
      (recalculations r.effects
        ≡ (if m.latency_recalc_done then 0 else if reaches_pipeline q then 1 else 0))
      × (r.media.latency_recalc_done ≡ (m.latency_recalc_done || reaches_pipeline q))
unfolding on_client_play_request play_in play_pipeline cache_pipeline
one_request s q m = ground arith

-- However many clients send play requests to one media whose latency has not been recalculated, it is
-- recalculated exactly once if one of the requests gets as far as the pipeline, and otherwise never.
pub recalculations-play_all :
    (s : Session) (qs : List PlayRequest) (m : Media)
    → recalculations (play_all s qs m)
      ≡ (if m.latency_recalc_done then 0 else if any_reaches qs then 1 else 0)
unfolding play_all
recalculations-play_all s [] m = ground arith
recalculations-play_all s (q ∷ qs) m =
    let r = on_client_play_request s q m in
    let rest = recalculations-play_all r.session qs r.media in
    let one = one_request s q m in
    ground (arith, one, rest, recalculations-append r.effects (play_all r.session qs r.media))
