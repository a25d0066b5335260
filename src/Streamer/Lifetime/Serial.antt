-- ===== src/Streamer/Lifetime/Serial.antt =====
-- The order in which GStreamer's main loop runs the media callbacks: as the source says of it,
-- "unprepared(old) -> configure(new) -> play-request(new)", so that one media is alive at a time; any
-- other steps may come between.
pub mod Changes
pub mod Pointers
pub mod Frames
use my_stream_out_app.Base.{ℕ, ◌≡◌, ◌⊎◌, Bool, true, false, Option, none, some, List, [], ◌++◌}
use my_stream_out_app.Streamer.Session.{Session, Effect}
use my_stream_out_app.Streamer.Audio.{Smoothing}
use my_stream_out_app.Streamer.Media.{MediaBin, on_media_configure, on_media_unprepared}
use my_stream_out_app.Streamer.Play.{PlayRequest, Media, on_client_play_request}
use my_stream_out_app.Streamer.Stop.{gst_pipeline_destroy}
use my_stream_out_app.Streamer.Lifetime.{
  Step, init, destroy, configure, prepared, unprepared, play, video, audio, connected, closed,
  consume, setting, need_data, enough_data, audio_need_data, audio_enough_data, cpu, dump, dump_now,
  command,
}

-- The media that is alive: its pipeline and the elements that lookups by name find in it.
pub record Live : Type 0 where
  pub pipeline : ℕ
  pub src : Option ℕ
  pub audio_src : Option ℕ

abbrev pub live_media : ℕ → MediaBin → Live
live_media p bin = record { pipeline = p; src = bin.src; audio_src = bin.audio }

abbrev pub live_pipeline : Option Live → Option ℕ
live_pipeline none = none
live_pipeline (some l) = some l.pipeline

abbrev pub live_src : Option Live → Option ℕ
live_src none = none
live_src (some l) = l.src

abbrev pub live_audio : Option Live → Option ℕ
live_audio none = none
live_audio (some l) = l.audio_src

-- The steps whose order is GStreamer's, and the stop.
abbrev pub is_ordered :
    {m : Smoothing} {s : Session} {es : Session × List Effect} → Step m s es → Bool
is_ordered destroy = true
is_ordered (configure bin) = true
is_ordered unprepared = true
is_ordered (play q media e) = true
is_ordered _ = false

-- A step in that order, with the media that is alive before and after it. A play request is one for
-- the media that is alive. A stop takes the media down with the server.
pub data Serial (m : Smoothing) (live : Option Live) (s : Session)
    : Option Live → Session → List Effect → Type 0 where
  comes :
      (bin : MediaBin) (p : ℕ)
      → live ≡ none
      → Serial m live s
          (some (live_media p bin))
          (on_media_configure s bin).0
          (on_media_configure s bin).1
  plays :
      (q : PlayRequest) (media : Media) (l : Live)
      → live ≡ some l
      → ((p : ℕ) → q.parent ≡ some (p, true) → p ≡ l.pipeline)
      → Serial m live s live
          (on_client_play_request s q media).session
          (on_client_play_request s q media).effects
  goes : Serial m live s none (on_media_unprepared s).0 (on_media_unprepared s).1
  ends : Serial m live s none (gst_pipeline_destroy s).0 (gst_pipeline_destroy s).1
  other :
      {t : Session} {es : List Effect}
      → (st : Step m s (t, es)) → is_ordered st ≡ false
      → Serial m live s live t es

-- Any number of such steps, with the calls that they made.
pub data Serials (m : Smoothing) (live : Option Live) (s : Session)
    : Option Live → Session → List Effect → Type 0 where
  start : Serials m live s live s []
  next :
      {live' live'' : Option Live} {t u : Session} {es es' all : List Effect}
      → Serials m live s live' t es
      → Serial m live' t live'' u es'
      → all ≡ es ++ es'
      → Serials m live s live'' u all
