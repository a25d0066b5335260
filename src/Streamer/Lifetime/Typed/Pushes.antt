-- ===== src/Streamer/Lifetime/Typed/Pushes.antt =====
-- The numbers of the session over the pushes of video and of audio.
use my_stream_out_app.Base.{ℕ, ◌≡◌, inl, inr, Bool, some, List, arith, Option-cases}
use my_stream_out_app.Base.Int.{ℤ}
use my_stream_out_app.Streamer.Session.{Session, Ran}
use my_stream_out_app.Streamer.Video.{
  Frame, ByteBuffer, payload, stamp_video, pin_encoder, push_to, push_encoded_buffer,
}
use my_stream_out_app.Streamer.Audio.{Smoothing, stamp_audio, push_audio_to, push_audio_buffer}
use my_stream_out_app.Streamer.Lifetime.Typed.Stamps.{stamp_video-IsTimed, stamp_audio-IsTimed}
use my_stream_out_app.Streamer.Lifetime.Typed.{IsTyped, Alike, Alike-IsTyped, restamped}

pin_encoder-Alike : (s : Session) → Alike s (pin_encoder s).0
unfolding pin_encoder
pin_encoder-Alike s = ground arith

push_to-IsTyped :
    (src : ℕ) (s : Session) (f : Frame) (buf : ByteBuffer) (map_ok : Bool)
    → IsTyped s
    → IsTyped (push_to src s f buf map_ok).0
unfolding push_to
push_to-IsTyped src s f buf map_ok h =
    ground
      (arith, restamped s (stamp_video s.timeline f).0 (stamp_video-IsTimed s.timeline f h.timed) h)

pub push_encoded_buffer-IsTyped :
    (s : Session) (f : Frame) (buf : ByteBuffer) (map_ok : Bool)
    → IsTyped s
    → IsTyped (push_encoded_buffer s f buf map_ok).0
unfolding push_encoded_buffer
push_encoded_buffer-IsTyped s f buf map_ok h = elim (Option-cases s.handles.appsrc) [
  | inl e ↦ simp (e, push_encoded_buffer) h
  | inr (src, e) ↦
      simp (e, push_encoded_buffer)
        (push_to-IsTyped src (pin_encoder s).0 f buf map_ok
          (Alike-IsTyped s (pin_encoder s).0 (pin_encoder-Alike s) h))
]

push_audio_to-IsTyped :
    (m : Smoothing) (src : ℕ) (s : Session) (bytes : List ℕ) (size : ℕ) (pts_us : ℤ) (r : Ran)
    → IsTyped s
    → push_audio_to m src s bytes size pts_us ≡ some r
    → IsTyped r.0
unfolding push_audio_to
push_audio_to-IsTyped m src s bytes size pts_us r h e =
    elim (Option-cases (stamp_audio m s.timeline s.format pts_us size)) [
      | inl n ↦ ground arith
      | inr (st, n) ↦ ground (
        arith,
        restamped s st.timeline (stamp_audio-IsTimed m s.timeline s.format pts_us size st h.timed n)
            h,
      )
    ]

pub push_audio_buffer-IsTyped :
    (m : Smoothing) (s : Session) (buf : ByteBuffer) (offset size : ℕ) (pts_us : ℤ) (map_ok : Bool)
    (r : Ran)
    → IsTyped s
    → push_audio_buffer m s buf offset size pts_us map_ok ≡ some r
    → IsTyped r.0
unfolding push_audio_buffer
push_audio_buffer-IsTyped m s buf offset size pts_us map_ok r h e =
    elim (Option-cases s.handles.audio_appsrc) [
      | inl n ↦ ground arith
      | inr (src, n) ↦ elim (Option-cases (payload buf offset size)) [
        | inl b ↦ ground arith
        | inr (bytes, b) ↦ ground (arith, push_audio_to-IsTyped m src s bytes size pts_us r h)
      ]
    ]
