-- ===== src/Tests/Threads.antt =====
-- A stop that comes between the parts of a media that is configured.
use my_stream_out_app.Base.{ℕ, ◌≡◌, ◌+◌, refl, arith, true, false, none, some, List, [], ◌∷◌, ◌++◌}
use my_stream_out_app.Streamer.Session.{Session, Effect, initial}
use my_stream_out_app.Streamer.Server.{
  gst_pipeline_init, boot, serve, mount, listen, launch, commit, set_timer,
}
use my_stream_out_app.Streamer.Detect.{detect_format}
use my_stream_out_app.Streamer.Stop.{gst_pipeline_destroy, stopping, stop_locked, stop_rest}
use my_stream_out_app.Streamer.Ledger.{holds, gained, used_up}
use my_stream_out_app.Streamer.Lifetime.{init}
use my_stream_out_app.Streamer.Threads.{
  stops, configures, plays, play_next, Thread, stop_next, caps_next, commit_next, Part, begin,
  resume, Moves, stay, move, at_once, begins, resumes,
}
use my_stream_out_app.Streamer.Threads.Balance.{keep_all, Moves-balance}
use my_stream_out_app.Streamer.Threads.Drain.{Moves-destroy_releases}
use my_stream_out_app.Streamer.Play.{PlayRequest, Media, on_client_play_request}
use my_stream_out_app.Streamer.Server.Start.{IsComplete}
use my_stream_out_app.Streamer.Threads.Stale.{IsFor, LosesOne, stale_pipeline}
use my_stream_out_app.Tests.Samples.{mix15, full_boot, pipeline_text, media, live}

abbrev started : Session
started = (gst_pipeline_init initial full_boot).session

abbrev start_calls : List Effect
start_calls = (gst_pipeline_init initial full_boot).effects

-- The media's thread looks its appsrc up and gives the lock back; a stop begins.
abbrev looked : Part
looked = begin started (configures media)

abbrev stopped_part : Part
stopped_part = begin looked.session stops

abbrev stop_thread : Thread
stop_thread = stop_next (stopping looked.session)

abbrev media_thread : Thread
media_thread = caps_next looked.session.format.stream_mode (some 22) media

abbrev calls : List Effect
calls = start_calls ++ (looked.effects ++ stopped_part.effects)

interleaved : Moves mix15 initial [] stopped_part.session (stop_thread ∷ media_thread ∷ []) calls
unfolding begin gst_pipeline_init boot serve mount listen launch commit detect_format set_timer
interleaved =
    move (move (move stay (at_once (init full_boot refl)) refl) (begins (configures media) tt) refl)
      (begins stops tt) refl

Moves-balance_example :
    gained 22 calls
    ≡ holds 22 stopped_part.session.handles
      + (keep_all 22 (stop_thread ∷ media_thread ∷ []) + used_up 22 calls)
Moves-balance_example =
    Moves-balance 22 mix15 stopped_part.session (stop_thread ∷ media_thread ∷ []) calls interleaved

-- The stop goes on and ends; then the media's thread stores its appsrc.
abbrev joined : Part
joined = resume stopped_part.session stop_thread

abbrev caps_set : Part
caps_set = resume joined.session media_thread

abbrev commit_thread : Thread
commit_thread = commit_next looked.session.format.stream_mode (some 22) media

abbrev stored : Part
stored = resume caps_set.session commit_thread

abbrev all_calls : List Effect
all_calls = ((calls ++ joined.effects) ++ caps_set.effects) ++ stored.effects

all_ended : Moves mix15 initial [] stored.session [] all_calls
unfolding resume
all_ended =
    move
      (move (move interleaved (resumes [] stop_thread (media_thread ∷ []) refl) refl)
        (resumes [] media_thread [] refl) refl)
      (resumes [] commit_thread [] refl) refl

Moves-destroy_releases_example :
    gained 22 (all_calls ++ (gst_pipeline_destroy stored.session).1)
    ≡ used_up 22 (all_calls ++ (gst_pipeline_destroy stored.session).1)
Moves-destroy_releases_example =
    Moves-destroy_releases 22 mix15 stored.session all_calls
      (all_calls ++ (gst_pipeline_destroy stored.session).1) all_ended refl

-- A client asks to play the pipeline 9 of the old server, and one the pipeline 30 of the next.
abbrev request : ℕ → PlayRequest
request p = record {
  has_media = true;
  user_bin = some 20;
  parent = some (p, true);
  first_pass = none;
  second_pass = none;
}

abbrev fresh : Media
fresh = record { elements = []; latency_recalc_done = false }

all_made : IsComplete full_boot pipeline_text 1 2 3 4 5 6
all_made = record {
  pipeline_made = refl;
  context_made = refl;
  loop_made = refl;
  server_made = refl;
  factory_made = refl;
  mounts_made = refl;
  source_made = refl;
}

asks : (p : ℕ) → IsFor (request p) 20 p
asks p = record { media_there = refl; bin_there = refl; parent_there = refl }

stale_pipeline_example :
    let s1 = (stop_locked live).0 in
    let s2 = (begin s1 (plays (request 9) fresh)).session in
    let s3 = (stop_rest s2 (stopping live)).0 in
    let s4 = (resume s3 (play_next 9 fresh)).session in
    let s5 = (gst_pipeline_init s4 full_boot).session in
    ((es : List Effect) × Moves mix15 live [] s5 [] es)
    × (s5.handles.server ≡ some 3)
    × (s5.handles.full_pipeline ≡ some 9)
    × ((o : ℕ)
        → let r = on_client_play_request s5 (request 30) fresh in
          LosesOne o 9 s5 r.session r.effects)
stale_pipeline_example =
    stale_pipeline mix15 live full_boot pipeline_text 1 2 3 4 5 6 (request 9) (request 30) fresh
      fresh 20 20 9 30 refl all_made (asks 9) (asks 30) (omega arith)
