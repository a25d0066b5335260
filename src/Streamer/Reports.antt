-- ===== src/Streamer/Reports.antt =====
-- The status reports of app/src/main/cpp/camera2_gst_streamer.cpp on their way to Java, through
-- streamout_status_fb of app/src/main/cpp/jniMock.cpp.
pub mod Ready
use my_stream_out_app.Base.{ℕ, some, List, [], ◌∷◌, ◌++◌}
use my_stream_out_app.Base.Int.{ℤ, pos}
use my_stream_out_app.Base.Text.{Text, codes}
use my_stream_out_app.Base.Decimal.{decimal_int}
use my_stream_out_app.Entry.{Globals, StatusAnswers, Event, streamout_status_fb}
use my_stream_out_app.Streamer.Session.{
  StreamStatus, unspecified, ready, client_connected, stopped, Effect, status,
}
use my_stream_out_app.Streamer.Dump.Dot.{snprintf}

-- Cam2Streamer_status_enum as numbers
abbrev pub status_code : StreamStatus → ℤ
status_code unspecified = pos 0
status_code ready = pos 1
status_code client_connected = pos 2
status_code stopped = pos 3

-- port_str
unfoldable pub port_text : ℤ → Text
unfolding decimal_int
port_text port = snprintf 16 (decimal_int port)

abbrev pub ready_prefix : Text
ready_prefix = codes "Stream is ready on rtsp://<device-ip>:"

-- The text of a report; `port` is the port of the start. No report has the first status.
unfoldable pub status_info : ℤ → StreamStatus → Text
unfolding port_text
status_info port unspecified = []
status_info port ready = snprintf 128 (ready_prefix ++ (port_text port ++ codes "/camera.sdp"))
status_info port client_connected = codes "RTSP client connected"
status_info port stopped = codes "Stream is destroyed"

-- The calls of the Java virtual machine for the reports among some effects.
unfoldable pub notify : Globals → StatusAnswers → ℤ → List Effect → List Event
unfolding status_info
notify g v port [] = []
notify g v port (status x ∷ es) =
    streamout_status_fb g v (pos 0) (status_code x) (some (status_info port x))
    ++ notify g v port es
notify g v port (_ ∷ es) = notify g v port es
