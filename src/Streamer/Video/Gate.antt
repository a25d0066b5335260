-- ===== src/Streamer/Video/Gate.antt =====
-- Which frames reach the appsrc.
use my_stream_out_app.Base.{
  ℕ, ◌≡◌, Bool, true, not, ◌||◌, some, List, [], ◌∷◌, arith, if◌then◌else◌,
}
use my_stream_out_app.Streamer.Session.{Session, Buffer, Effect, push}
use my_stream_out_app.Streamer.Video.{
  Frame, ByteBuffer, payload, stamp_video, pin_encoder, push_to, push_encoded_buffer, video_buffer,
}

-- The buffers that a call pushed, with the element that took each.
abbrev pub pushed : List Effect → List (ℕ × Buffer)
pushed [] = []
pushed (push src b ∷ es) = (src, b) ∷ pushed es
pushed (_ ∷ es) = pushed es

-- An appsrc that asked for no data takes only parameter sets and key frames.
abbrev pub is_held_back : Session → Frame → Bool
is_held_back s f = not (s.gates.need_data || (f.is_csd || f.is_key_frame))

-- With an appsrc in place and a readable buffer, a frame that is held back pushes nothing, leaves
-- the timeline alone and files a keyframe request; any other frame is pushed exactly once, with its
-- bytes and its stamp, and leaves the gates alone.
pub push-is_held_back :
    (s : Session) (f : Frame) (buf : ByteBuffer) (src : ℕ) (bytes : List ℕ)
    → s.handles.appsrc ≡ some src
    → payload buf f.offset f.size ≡ some bytes
    → let held = is_held_back s f in
      let (t, pts) = stamp_video s.timeline f in
      let (s', es) = push_encoded_buffer s f buf true in
      (pushed es ≡ (if held then [] else (src, video_buffer f bytes pts) ∷ []))
      × (s'.timeline ≡ (if held then s.timeline else t))
      × (s'.gates ≡ record s.gates { request_keyframe = held || s.gates.request_keyframe })
      × (s'.handles ≡ s.handles)
unfolding push_encoded_buffer push_to pin_encoder
push-is_held_back s f buf src bytes a e = ground arith
