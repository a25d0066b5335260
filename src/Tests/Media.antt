-- ===== src/Tests/Media.antt =====
-- Video frames, media that come and go, and the dumps.
use my_stream_out_app.Base.{
  ◌≡◌, refl, true, false, ◌||◌, none, some, [], ◌∷◌, map, arith, length, if◌then◌else◌,
}
use my_stream_out_app.Streamer.Session.{no_timeline}
use my_stream_out_app.Streamer.Video.{
  direct, array_backed, payload, stamp_video, video_buffer, push_encoded_buffer,
}
use my_stream_out_app.Streamer.Video.Gate.{pushed, is_held_back, push-is_held_back}
use my_stream_out_app.Streamer.Video.Clock.{push_all, pts_of, frames, relative}
use my_stream_out_app.Streamer.Media.{has_audio, within, on_media_configure, on_media_unprepared}
use my_stream_out_app.Streamer.Media.Restart.{pts_of-push_all_reconnected}
use my_stream_out_app.Streamer.Media.Reconnect.{on_media_unprepared_configure}
use my_stream_out_app.Streamer.Audio.{push_audio_buffer}
use my_stream_out_app.Streamer.Buffers.{video_calls, audio_calls}
use my_stream_out_app.Streamer.Buffers.Owners.{Accounts, pushes-Accounts}
use my_stream_out_app.Base.Int.{pos}
use my_stream_out_app.Tests.Samples.{mix15, key_frame, next_frame, bytes, live, full_live, media}

push-is_held_back_example :
    let held = is_held_back full_live next_frame in
    let (t, pts) = stamp_video full_live.timeline next_frame in
    let (s', es) = push_encoded_buffer full_live next_frame (direct bytes) true in
    (pushed es ≡ (if held then [] else (22, video_buffer next_frame (7 ∷ 8 ∷ []) pts) ∷ []))
    × (s'.timeline ≡ (if held then full_live.timeline else t))
    × (s'.gates
        ≡ record full_live.gates { request_keyframe = held || full_live.gates.request_keyframe })
    × (s'.handles ≡ full_live.handles)
unfolding payload
push-is_held_back_example =
    push-is_held_back full_live next_frame (direct bytes) 22 (7 ∷ 8 ∷ []) refl refl

pts_of-push_all_reconnected_example :
    let s' = (on_media_configure (on_media_unprepared live).0 media).0 in
    pts_of (push_all s' ((key_frame, bytes) ∷ (next_frame, bytes) ∷ []))
    ≡ 0 ∷ map (relative 1000000) (frames ((next_frame, bytes) ∷ []))
pts_of-push_all_reconnected_example =
    pts_of-push_all_reconnected live media 20 22 key_frame bytes ((next_frame, bytes) ∷ []) refl
      refl refl refl (omega arith) (omega arith, tt)

on_media_unprepared_configure_example :
    let s' = (on_media_configure (on_media_unprepared live).0 media).0 in
    (s'.handles.appsrc ≡ some 22)
    × (s'.handles.audio_appsrc
        ≡ (if has_audio live.format.stream_mode then within media.bin2 media.audio else none))
    × (s'.gates.need_data ≡ true)
    × (s'.gates.request_keyframe ≡ true)
    × (s'.gates.audio_need_data ≡ false)
    × (s'.timeline ≡ no_timeline)
on_media_unprepared_configure_example =
    on_media_unprepared_configure live media 20 22 refl refl refl

-- A push from an array whose buffer cannot be mapped.
pushes-Accounts_example :
    Accounts
      (video_calls full_live next_frame (array_backed bytes) false)
      (length (pushed (push_encoded_buffer full_live next_frame (array_backed bytes) false).1))
    × Accounts (audio_calls full_live (array_backed bytes) false) 0
unfolding payload push_audio_buffer
pushes-Accounts_example =
    pushes-Accounts mix15 full_live next_frame (array_backed bytes) 0 2 (pos 5) false
      (full_live, []) refl
