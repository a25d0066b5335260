-- ===== src/Streamer/Lifetime/Between.antt =====
-- Steps of other threads between the two parts of a stop: the lock is free and the main loop may still
-- run callbacks.
use my_stream_out_app.Base.{ℕ, ◌+◌, ◌≡◌, refl, true, none, some, List, ◌++◌, arith, inr}
use my_stream_out_app.Streamer.Session.{Session, Effect, initial}
use my_stream_out_app.Streamer.Audio.{Smoothing}
use my_stream_out_app.Streamer.Media.{MediaBin, has_video, on_media_configure}
use my_stream_out_app.Streamer.Media.Reconnect.{on_media_configure-appsrc}
use my_stream_out_app.Streamer.Stop.{stopping, stop_locked, stop_rest}
use my_stream_out_app.Streamer.Ledger.{holds, gained, used_up, gained-append, used_up-append}
use my_stream_out_app.Streamer.Lifetime.{Run}
use my_stream_out_app.Streamer.Lifetime.Settled.{IsSettled, on_media_configure-Keeps}
use my_stream_out_app.Streamer.Lifetime.Balance.{Run-Sound, initial-IsSettled}

-- Both parts of a stop together account for the references of the state before it and for those that
-- the state in between gains.
stop_counts :
    (o : ℕ) (s t : Session)
    → let es = (stop_locked s).1 in
      let (u, es') = stop_rest t (stopping s) in
      (holds o s.handles + (gained o es + gained o es') ≡ used_up o es + used_up o es')
      × (holds o u.handles ≡ holds o t.handles)
      × (holds o (stop_locked s).0.handles ≡ 0)
unfolding stop_locked stop_rest
stop_counts o s t = ground arith

stop_locked-IsSettled : (s : Session) → IsSettled (stop_locked s).0
unfolding stop_locked
stop_locked-IsSettled s =
    inr (record { no_server = refl; no_loop = refl; no_context = refl; no_timer = refl })

-- After a run from the initial state, whatever run of other threads' steps comes between the part of a
-- stop that holds the lock and the rest of it (in both runs each start can create its thread, and a
-- play request finds no pipeline cached but its own), no reference is lost or given up twice: those that have not
-- been given up at the end are exactly those of the pointers that the steps in between have set.
pub Run-between :
    (o : ℕ) (m : Smoothing) (s t : Session) (es es' all : List Effect)
    → Run m initial s es
    → Run m (stop_locked s).0 t es'
    → all ≡ es ++ ((stop_locked s).1 ++ (es' ++ (stop_rest t (stopping s)).1))
    → gained o all ≡ holds o (stop_rest t (stopping s)).0.handles + used_up o all
Run-between o m s t es es' all h k e =
    let (a, i) = Run-Sound o m initial s es h initial-IsSettled in
    let (b, j) = Run-Sound o m (stop_locked s).0 t es' k (stop_locked-IsSettled s) in
    let c = stop_counts o s t in
    rw (e) (simp (gained-append, used_up-append) (omega (arith, a, b, c.0, c.1, c.2)))

-- A media with a video appsrc that is configured between the two parts of a stop, in a mode with
-- video, leaves its appsrc cached and open for frames after the stop, with no server.
pub stop_configure_leaves :
    (s : Session) (m : MediaBin) (b v : ℕ)
    → has_video s.format.stream_mode ≡ true
    → m.bin ≡ some b
    → m.src ≡ some v
    → let t = (on_media_configure (stop_locked s).0 m).0 in
      let u = (stop_rest t (stopping s)).0 in
      (u.handles.server ≡ none) × (u.handles.appsrc ≡ some v) × (u.gates.need_data ≡ true)
unfolding stop_locked stop_rest
stop_configure_leaves s m b v h eb ev =
    let s1 = (stop_locked s).0 in
    let (a, g) = on_media_configure-appsrc s1 m b v h eb ev in
    ((on_media_configure-Keeps s1 m).0, a, g)
