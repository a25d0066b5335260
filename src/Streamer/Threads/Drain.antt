-- ===== src/Streamer/Threads/Drain.antt =====
-- What a stop leaves once the calls that were under way have ended.
use my_stream_out_app.Base.{ℕ, ◌≡◌, List, [], ◌++◌, arith}
use my_stream_out_app.Streamer.Session.{Session, Effect, initial}
use my_stream_out_app.Streamer.Audio.{Smoothing}
use my_stream_out_app.Streamer.Stop.{stop_locked, stop_rest, gst_pipeline_destroy}
use my_stream_out_app.Streamer.Ledger.{gained, used_up}
use my_stream_out_app.Streamer.Lifetime.{destroy}
use my_stream_out_app.Streamer.Threads.{at_once, Moves, move}
use my_stream_out_app.Streamer.Threads.Balance.{Moves-balance}

-- However the parts of calls have come between each other and between whole steps from the initial
-- state on (each start can create its thread, and a play request finds no pipeline cached but its own):
-- when no call is under way and a stop then runs with nothing in between, every reference to every
-- object has been given up, and none of them twice.
pub Moves-destroy_releases :
    (o : ℕ) (m : Smoothing) (s : Session) (es all : List Effect)
    → Moves m initial [] s [] es
    → all ≡ es ++ (gst_pipeline_destroy s).1
    → gained o all ≡ used_up o all
unfolding gst_pipeline_destroy stop_locked stop_rest
Moves-destroy_releases o m s es all h e =
    omega (arith, Moves-balance o m (gst_pipeline_destroy s).0 [] all (move h (at_once destroy) e))
