-- ===== src/Streamer/Media/Restart.antt =====
-- The video clock after a reconnection.
use my_stream_out_app.Base.{ℕ, ◌≡◌, true, some, List, ◌∷◌, map, All, ap}
use my_stream_out_app.Base.Int.{pos_part}
use my_stream_out_app.Streamer.Session.{Session}
use my_stream_out_app.Streamer.Video.{Frame, Memory}
use my_stream_out_app.Streamer.Video.Clock.{
  push_all, pts_of, frames, relative, is_timed, Fits, pts_of-push_all_fresh,
}
use my_stream_out_app.Streamer.Media.{MediaBin, has_video, on_media_configure, on_media_unprepared}
use my_stream_out_app.Streamer.Media.Reconnect.{on_media_unprepared_configure}

-- When a media is unprepared and the next one is configured with a video appsrc, in a mode with
-- video, the next client's video starts at 0, whatever the last session did: with frames pushed one
-- after the other, the first of them a timed one, the first is stamped 0, every later timed frame with
-- the nanoseconds since it (0 if captured earlier), and a parameter set or a frame with no capture time
-- gets no stamp. The capture times are below 2 ^ 64 - 1 ns.
pub pts_of-push_all_reconnected :
    (s : Session) (m : MediaBin) (b v : ℕ) (f : Frame) (mem : Memory) (fs : List (Frame × Memory))
    → has_video s.format.stream_mode ≡ true
    → m.bin ≡ some b
    → m.src ≡ some v
    → is_timed f ≡ true
    → Fits f
    → All Fits (frames fs)
    → let s' = (on_media_configure (on_media_unprepared s).0 m).0 in
      pts_of (push_all s' ((f, mem) ∷ fs)) ≡ 0 ∷ map (relative (pos_part f.pts_us)) (frames fs)
pts_of-push_all_reconnected s m b v f mem fs h eb ev timed fit fits =
    let s' = (on_media_configure (on_media_unprepared s).0 m).0 in
    let r = on_media_unprepared_configure s m b v h eb ev in
    pts_of-push_all_fresh s' f mem fs v r.0 r.2 (ap (λ t. t.pts_base) r.5) timed fit fits
