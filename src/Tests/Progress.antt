-- ===== src/Tests/Progress.antt =====
-- Frames that get through, and a start that fails.
use my_stream_out_app.Base.{◌+◌, ◌≡◌, ◌≤◌, refl, true, false, some, List, [], ◌∷◌, ◌++◌}
use my_stream_out_app.Streamer.Session.{Session, Effect, initial}
use my_stream_out_app.Streamer.Video.{
  direct, payload, stamp_video, video_buffer, push_encoded_buffer,
}
use my_stream_out_app.Streamer.Video.Gate.{pushed}
use my_stream_out_app.Streamer.Media.{on_media_configure}
use my_stream_out_app.Streamer.Detect.{detect_format}
use my_stream_out_app.Streamer.Server.{Boot, gst_pipeline_init}
use my_stream_out_app.Streamer.Controls.{apply_setting, periodic_dump_enable, cb_src_enough_data}
use my_stream_out_app.Streamer.Ledger.{holds, gained, used_up, timers}
use my_stream_out_app.Streamer.Lifetime.{Run, setting, enough_data}
use my_stream_out_app.Streamer.Lifetime.Failing.{
  step, start_fails, none_yet, one_more, Attempts-balance,
}
use my_stream_out_app.Streamer.Lifetime.Progress.{at_once, later, Calm-push, Run-streams}
use my_stream_out_app.Tests.Samples.{mix15, full_boot, pipeline_text, media, key_frame, bytes, live}

-- A configured media whose appsrc has enough.
abbrev choked : Session
choked = cb_src_enough_data (on_media_configure live media).0

Calm-push_example :
    pushed (push_encoded_buffer choked key_frame (direct bytes) true).1
    ≡ (22, video_buffer key_frame (8 ∷ 9 ∷ []) (stamp_video choked.timeline key_frame).1) ∷ []
unfolding payload
Calm-push_example =
    Calm-push mix15 live choked media 20 22 key_frame (direct bytes) (8 ∷ 9 ∷ []) refl refl refl
      (later at_once enough_data refl) refl refl

Run-streams_example :
    (t : Session) × (es : List Effect) × Run mix15 choked t es
    × (t.handles.server ≡ some 3)
    × (pushed (push_encoded_buffer t key_frame (direct bytes) true).1
        ≡ (22, video_buffer key_frame (8 ∷ 9 ∷ []) (stamp_video t.timeline key_frame).1) ∷ [])
unfolding payload detect_format
Run-streams_example =
    Run-streams mix15 choked full_boot pipeline_text 1 2 3 4 5 6 media 20 22 key_frame
      (direct bytes) (8 ∷ 9 ∷ [])
      (record {
        pipeline_made = refl;
        context_made = refl;
        loop_made = refl;
        server_made = refl;
        factory_made = refl;
        mounts_made = refl;
        source_made = refl;
      })
      refl refl refl refl refl refl

abbrev no_thread : Boot
no_thread = record full_boot { thread_ok = false }

-- The dump timer is switched on, and two starts fail.
abbrev dumping : Session
dumping = apply_setting initial (periodic_dump_enable true)

abbrev first_try : Session
first_try = (gst_pipeline_init dumping no_thread).session

abbrev second_try : Session
second_try = (gst_pipeline_init first_try no_thread).session

abbrev tries : List Effect
tries =
    (gst_pipeline_init dumping no_thread).effects ++ (gst_pipeline_init first_try no_thread).effects

Attempts-balance_example :
    (holds 10 second_try.handles + used_up 10 tries ≤ gained 10 tries)
    × (gained 10 tries ≤ holds 10 second_try.handles + used_up 10 tries + timers 10 tries)
Attempts-balance_example = Attempts-balance 10 mix15 second_try tries (
    one_more
      (one_more (one_more none_yet (step (setting (periodic_dump_enable true))) refl)
        (start_fails no_thread refl) refl)
      (start_fails no_thread refl) refl)
