-- ===== src/Tests/Lifetime.antt =====
-- One lifetime: a start, a client, a key frame and the end.
use my_stream_out_app.Base.{◌≡◌, ◌⊎◌, refl, true, false, List, [], ◌++◌}
use my_stream_out_app.Streamer.Session.{Session, Effect, initial}
use my_stream_out_app.Streamer.Video.{direct, push_encoded_buffer}
use my_stream_out_app.Streamer.Media.{on_media_configure}
use my_stream_out_app.Streamer.Server.{gst_pipeline_init}
use my_stream_out_app.Streamer.Controls.{on_client_connected, consume_keyframe_request}
use my_stream_out_app.Streamer.Lifetime.{Step, Run, start, next, init, configure, video, consume}
use my_stream_out_app.Streamer.Lifetime.Typed.{IsTyped}
use my_stream_out_app.Streamer.Lifetime.Typed.Steps.{Run-IsTyped}
use my_stream_out_app.Streamer.Lifetime.Keyframe.{IsPending, is_consume, Step-IsPending}
use my_stream_out_app.Tests.Samples.{mix15, full_boot, media, key_frame, bytes, live}

abbrev started : Session
started = (gst_pipeline_init initial full_boot).session

abbrev start_calls : List Effect
start_calls = (gst_pipeline_init initial full_boot).effects

abbrev configured : Session
configured = (on_media_configure started media).0

abbrev configure_calls : List Effect
configure_calls = start_calls ++ (on_media_configure started media).1

abbrev pushed_one : Session
pushed_one = (push_encoded_buffer configured key_frame (direct bytes) true).0

abbrev push_calls : List Effect
push_calls = configure_calls ++ (push_encoded_buffer configured key_frame (direct bytes) true).1

abbrev lifetime : Run mix15 initial pushed_one push_calls
lifetime =
    next (next (next start (init full_boot refl) refl) (configure media) refl)
      (video key_frame (direct bytes) true) refl

Run-IsTyped_example : IsTyped pushed_one
Run-IsTyped_example = Run-IsTyped mix15 pushed_one push_calls lifetime

-- The session of a client that has just connected.
abbrev waiting : Session
waiting = (on_client_connected live).0

abbrev taken : Step mix15 waiting ((consume_keyframe_request waiting).0, [])
taken = consume

Step-IsPending_example :
    ((is_consume taken ≡ false) × IsPending (consume_keyframe_request waiting).0)
    ⊎ ((is_consume taken ≡ true)
        × (consume_keyframe_request waiting ≡ ((consume_keyframe_request waiting).0, true))
        × ((consume_keyframe_request waiting).0.gates.request_keyframe ≡ false))
unfolding on_client_connected
Step-IsPending_example =
    Step-IsPending mix15 waiting ((consume_keyframe_request waiting).0, []) taken refl
