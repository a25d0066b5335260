-- ===== src/Tests/Server.antt =====
-- Starts that succeed and fail, and the pipeline text.
use my_stream_out_app.Base.{ℕ, ◌+◌, ◌≡◌, ◌⊎◌, ◌↔◌, refl, Bool, true, false, none, some}
use my_stream_out_app.Base.Text.{codes}
use my_stream_out_app.Streamer.Session.{Session, initial, no_timeline}
use my_stream_out_app.Streamer.Detect.{detect_format, detect_mode}
use my_stream_out_app.Streamer.Detect.Tokens.{OccursAt, detect_mode_iff}
use my_stream_out_app.Streamer.Media.{has_video, has_audio}
use my_stream_out_app.Streamer.Server.{Boot, gst_pipeline_init}
use my_stream_out_app.Streamer.Server.Start.{
  IsComplete, AllMade, gst_pipeline_init_iff, gst_pipeline_init_success,
}
use my_stream_out_app.Streamer.Ledger.{owns, holds, gained, used_up}
use my_stream_out_app.Streamer.Ledger.Timer.{gst_pipeline_init_loses_timer}
use my_stream_out_app.Tests.Samples.{pipeline_text, full_boot}

abbrev made : (b : Bool) → IsComplete (record full_boot { thread_ok = b }) pipeline_text 1 2 3 4 5 6
made b = record {
  pipeline_made = refl;
  context_made = refl;
  loop_made = refl;
  server_made = refl;
  factory_made = refl;
  mounts_made = refl;
  source_made = refl;
}

-- The thread cannot be created.
abbrev no_thread : Boot
no_thread = record full_boot { thread_ok = false }

-- The dump timer is switched on.
abbrev timed : Session
timed = record initial { flags = record initial.flags { periodic_dump_enable = true } }

-- The session after a start that failed with the timer on.
abbrev left_over : Session
left_over = record timed { handles = record timed.handles { periodic_source = some 11 } }

gst_pipeline_init_iff_example :
    ((gst_pipeline_init initial full_boot).result ≡ true)
    ↔ ((initial.handles.server ≡ none) × (AllMade full_boot × (full_boot.thread_ok ≡ true)))
gst_pipeline_init_iff_example = gst_pipeline_init_iff initial full_boot

gst_pipeline_init_success_example :
    let s' = (gst_pipeline_init initial full_boot).session in
    (s'.handles.server ≡ some 3)
    × (s'.handles.loop ≡ some 2)
    × (s'.handles.context ≡ some 1)
    × (s'.format ≡ detect_format pipeline_text)
    × (s'.timeline ≡ no_timeline)
    × (s'.gates.need_data ≡ true)
    × (s'.gates.audio_need_data ≡ true)
    × (s'.gates.media_prepared ≡ false)
    × (s'.client_count ≡ 0)
    × (s'.flags ≡ initial.flags)
    × (s'.handles.appsrc ≡ none)
    × (s'.handles.audio_appsrc ≡ none)
    × (s'.handles.full_pipeline ≡ none)
gst_pipeline_init_success_example =
    gst_pipeline_init_success initial full_boot pipeline_text 1 2 3 4 5 6 refl (made true) refl

gst_pipeline_init_loses_timer_example :
    let r = gst_pipeline_init left_over full_boot in
    holds 11 left_over.handles + gained 11 r.effects
    ≡ holds 11 r.session.handles + used_up 11 r.effects + owns 11 left_over.handles.periodic_source
gst_pipeline_init_loses_timer_example =
    gst_pipeline_init_loses_timer 11 left_over full_boot pipeline_text 1 2 3 4 5 6 refl refl refl
      (made true) refl

detect_mode_iff_example :
    ((has_video (detect_mode pipeline_text) ≡ true)
      ↔ ((i : ℕ) × OccursAt pipeline_text (codes "name=src") i))
    × ((has_audio (detect_mode pipeline_text) ≡ true) ↔ (
        ((i : ℕ) × OccursAt pipeline_text (codes "name=audio") i)
        ⊎ ¬ ((i : ℕ) × OccursAt pipeline_text (codes "name=src") i)))
detect_mode_iff_example = detect_mode_iff pipeline_text
