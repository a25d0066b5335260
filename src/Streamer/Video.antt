-- ===== src/Streamer/Video.antt =====
-- nativePushEncodedBuffer of app/src/main/cpp/camera2_gst_streamer.cpp: one encoded video frame is
-- copied, stamped and pushed. The calls outside the repository answer through `ByteBuffer` and
-- `map_ok`; logging is left out; the one GstBuffer and a borrowed array are in Buffers.
pub mod Gate
pub mod Clock
use my_stream_out_app.Base.{
  ℕ, zero, suc, ◌+◌, ◌-◌, ◌*◌, ◌%◌, ◌^◌, Bool, true, false, not, ◌&&◌, Option, none, some, List, [],
  ◌∷◌, ◌++◌, leb, ◌==◌, if◌then◌else◌,
}
use my_stream_out_app.Base.Int.{ℤ, pos_part, is_positive}
use my_stream_out_app.Streamer.Session.{
  Session, Timeline, Buffer, Effect, gain, unref, push, pin_thread, Ran, clock_time_none,
}

-- The arguments of the call, the buffer apart.
pub record Frame : Type 0 where
  pub offset : ℕ
  pub size : ℕ
  pub pts_us : ℤ
  pub is_key_frame : Bool
  pub is_csd : Bool

-- The bytes from an address on.
abbrev pub Memory : Type 0
Memory = ℕ → ℕ

-- `memcpy` checks no capacity: it reads as many bytes as it is told to.
abbrev pub read : Memory → ℕ → ℕ → List ℕ
read m i zero = []
read m i (suc n) = m i ∷ read m (i + 1) n

-- A java.nio.ByteBuffer: its memory, or its backing array, or neither (no method `array`).
pub data ByteBuffer : Type 0 where
  direct array_backed : Memory → ByteBuffer
  opaque : ByteBuffer

-- The bytes that `memcpy` copies; `none` is the early return.
unfoldable pub payload : ByteBuffer → ℕ → ℕ → Option (List ℕ)
payload (direct m) offset size = some (read m offset size)
payload (array_backed m) offset size = some (read m offset size)
payload opaque offset size = none

-- (GstClockTime) pts_us * GST_USECOND
abbrev pub to_ns : ℤ → ℕ
to_ns us = (pos_part us * 1000) % 2 ^ 64

-- (pts_ns >= base) ? (pts_ns - base) : 0
abbrev pub since : ℕ → ℕ → ℕ
since base ns = if leb base ns then ns - base else 0

-- The presentation time of a frame, and the timeline after it.
unfoldable pub stamp_video : Timeline → Frame → Timeline × ℕ
stamp_video t f =
    if not f.is_csd && is_positive f.pts_us
    then (let ns = to_ns f.pts_us in
        let base = if t.pts_base == clock_time_none then ns else t.pts_base in
        (
          record t {
            pts_base = base;
            last_video_pts_ns = since base ns;
            video_push_count = t.video_push_count + 1;
          },
          since base ns,
        ))
    else (t, clock_time_none)

-- The encoder callback thread is pinned on its first push.
unfoldable pub pin_encoder : Session → Ran
pin_encoder s = elim s.perf_cpu [
  | none ↦ (s, [])
  | some cpu ↦
      if s.flags.cpu_affinity_enable && not s.encoder_pinned
      then (record s { encoder_pinned = true }, pin_thread cpu ∷ [])
      else (s, [])
]

-- The frame as it is handed to the appsrc.
abbrev pub video_buffer : Frame → List ℕ → ℕ → Buffer
video_buffer f bytes pts = record {
  bytes = bytes;
  pts = pts;
  duration = clock_time_none;
  delta_unit = not f.is_key_frame && not f.is_csd;
}

-- From the flow-control test to the end. `gst_buffer_map` may fail.
unfoldable pub push_to : ℕ → Session → Frame → ByteBuffer → Bool → Ran
push_to src s f buf map_ok =
    if not s.gates.need_data && (not f.is_csd && not f.is_key_frame)
    then (record s { gates = record s.gates { request_keyframe = true } }, [])
    else elim (payload buf f.offset f.size) [
      | none ↦ (s, [])
      | some bytes ↦
          if map_ok
          then (let (t, pts) = stamp_video s.timeline f in
              (record s { timeline = t }, push src (video_buffer f bytes pts) ∷ []))
          else (s, [])
    ]

unfoldable pub push_encoded_buffer : Session → Frame → ByteBuffer → Bool → Ran
push_encoded_buffer s f buf map_ok = elim s.handles.appsrc [
  | none ↦ (s, [])
  | some src ↦
      let (s1, pinned) = pin_encoder s in
      let (s2, pushed) = push_to src s1 f buf map_ok in (s2, pinned ++ pushed)
]
