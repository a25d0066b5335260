-- ===== src/Streamer/Buffers/Owners.antt =====
-- Who owns the buffer in the end.
use my_stream_out_app.Base.{ℕ, ◌+◌, ◌≡◌, Bool, some, List, [], ◌∷◌, arith, length}
use my_stream_out_app.Base.Int.{ℤ}
use my_stream_out_app.Streamer.Session.{Session, Ran}
use my_stream_out_app.Streamer.Video.{
  Frame, ByteBuffer, payload, pin_encoder, push_to, push_encoded_buffer,
}
use my_stream_out_app.Streamer.Video.Gate.{pushed}
use my_stream_out_app.Streamer.Audio.{Smoothing, push_audio_to, push_audio_buffer}
use my_stream_out_app.Streamer.Buffers.{
  BufferEvent, take_elements, give_elements, new_buffer, unref_buffer, hand_over, video_calls,
  audio_calls,
}

abbrev pub buffers_made : List BufferEvent → ℕ
buffers_made [] = 0
buffers_made (new_buffer ∷ es) = 1 + buffers_made es
buffers_made (_ ∷ es) = buffers_made es

abbrev pub buffers_given_up : List BufferEvent → ℕ
buffers_given_up [] = 0
buffers_given_up (unref_buffer ∷ es) = 1 + buffers_given_up es
buffers_given_up (_ ∷ es) = buffers_given_up es

abbrev pub handed_over : List BufferEvent → ℕ
handed_over [] = 0
handed_over (hand_over ∷ es) = 1 + handed_over es
handed_over (_ ∷ es) = handed_over es

abbrev pub arrays_taken : List BufferEvent → ℕ
arrays_taken [] = 0
arrays_taken (take_elements ∷ es) = 1 + arrays_taken es
arrays_taken (_ ∷ es) = arrays_taken es

abbrev pub arrays_given_back : List BufferEvent → ℕ
arrays_given_back [] = 0
arrays_given_back (give_elements ∷ es) = 1 + arrays_given_back es
arrays_given_back (_ ∷ es) = arrays_given_back es

-- Every buffer is given up or handed over, as many are handed over as are pushed, and every array is
-- given back.
abbrev pub Accounts : List BufferEvent → ℕ → Type 0
Accounts es pushes =
    (buffers_made es ≡ buffers_given_up es + handed_over es)
    × (handed_over es ≡ pushes)
    × (arrays_taken es ≡ arrays_given_back es)

video_calls-Accounts :
    (s : Session) (f : Frame) (buf : ByteBuffer) (map_ok : Bool)
    → Accounts (video_calls s f buf map_ok) (length (pushed (push_encoded_buffer s f buf map_ok).1))
unfolding video_calls push_encoded_buffer push_to pin_encoder payload
video_calls-Accounts s f buf map_ok = ground arith

audio_calls-Accounts :
    (m : Smoothing) (s : Session) (buf : ByteBuffer) (offset size : ℕ) (pts_us : ℤ) (map_ok : Bool)
    (r : Ran)
    → push_audio_buffer m s buf offset size pts_us map_ok ≡ some r
    → Accounts (audio_calls s buf map_ok) (length (pushed r.1))
unfolding audio_calls push_audio_buffer push_audio_to payload
audio_calls-Accounts m s buf offset size pts_us map_ok r e = ground arith

-- A push of video, and a push of audio that does not divide by zero, whatever the state, the kind of
-- the ByteBuffer and the answer of gst_buffer_map: every GstBuffer that is made is given up or handed
-- over, as many are handed over as the push is said to push, and the elements of an array are given
-- back if they were taken.
pub pushes-Accounts :
    (m : Smoothing) (s : Session) (f : Frame) (buf : ByteBuffer) (offset size : ℕ) (pts_us : ℤ)
    (map_ok : Bool) (r : Ran)
    → push_audio_buffer m s buf offset size pts_us map_ok ≡ some r
    → Accounts (video_calls s f buf map_ok) (length (pushed (push_encoded_buffer s f buf map_ok).1))
      × Accounts (audio_calls s buf map_ok) (length (pushed r.1))
pushes-Accounts m s f buf offset size pts_us map_ok r e = (
  video_calls-Accounts s f buf map_ok,
  audio_calls-Accounts m s buf offset size pts_us map_ok r e,
)
