-- ===== src/Streamer/Buffers.antt =====
-- The GstBuffer and the borrowed Java array of nativePushEncodedBuffer and nativePushAudioBuffer of
-- app/src/main/cpp/camera2_gst_streamer.cpp. A push that Video and Audio describe takes a buffer, which
-- it hands over or gives up, and the elements of an array, which it gives back.
pub mod Owners
use my_stream_out_app.Base.{Bool, true, false, not, ◌&&◌, none, some, List, [], ◌∷◌, if◌then◌else◌}
use my_stream_out_app.Streamer.Session.{Session}
use my_stream_out_app.Streamer.Video.{Frame, ByteBuffer, direct, array_backed, opaque}

-- `hand_over` is gst_app_src_push_buffer, which takes the buffer over whatever it returns.
pub data BufferEvent : Type 0 where
  take_elements give_elements new_buffer map_buffer unmap_buffer : BufferEvent
  unref_buffer hand_over : BufferEvent

-- From the lookup of the data to the end; `gst_buffer_map` may fail.
unfoldable pub copy_calls : ByteBuffer → Bool → List BufferEvent
copy_calls (direct m) true = new_buffer ∷ map_buffer ∷ unmap_buffer ∷ hand_over ∷ []
copy_calls (direct m) false = new_buffer ∷ unref_buffer ∷ []
copy_calls (array_backed m) true =
    take_elements ∷ new_buffer ∷ map_buffer ∷ unmap_buffer ∷ give_elements ∷ hand_over ∷ []
copy_calls (array_backed m) false = take_elements ∷ new_buffer ∷ unref_buffer ∷ give_elements ∷ []
copy_calls opaque map_ok = []

-- nativePushEncodedBuffer
unfoldable pub video_calls : Session → Frame → ByteBuffer → Bool → List BufferEvent
unfolding copy_calls
video_calls s f buf map_ok = elim s.handles.appsrc [
  | none ↦ []
  | some src ↦
      if not s.gates.need_data && (not f.is_csd && not f.is_key_frame)
      then []
      else copy_calls buf map_ok
]

-- nativePushAudioBuffer, where it does not divide by zero.
unfoldable pub audio_calls : Session → ByteBuffer → Bool → List BufferEvent
unfolding copy_calls
audio_calls s buf map_ok = elim s.handles.audio_appsrc [
  | none ↦ []
  | some src ↦ if s.gates.audio_need_data then copy_calls buf map_ok else []
]
