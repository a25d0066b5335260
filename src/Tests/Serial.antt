-- ===== src/Tests/Serial.antt =====
-- A media that comes, is played and gets a frame.
use my_stream_out_app.Base.{
  ℕ, Bool, ◌≡◌, refl, true, false, none, some, Option, List, [], ◌++◌, sym, ap,
}
use my_stream_out_app.Base.Int.{pos}
use my_stream_out_app.Streamer.Session.{Session, Effect, Ran, initial}
use my_stream_out_app.Streamer.Video.{direct, payload, push_encoded_buffer}
use my_stream_out_app.Streamer.Audio.{stamp_audio, push_audio_to, push_audio_buffer}
use my_stream_out_app.Streamer.Media.{
  on_media_configure, configure_found, configure_commit, configure_audio, install_video,
}
use my_stream_out_app.Streamer.Play.{PlayRequest, Media, on_client_play_request}
use my_stream_out_app.Streamer.Server.{gst_pipeline_init}
use my_stream_out_app.Streamer.Stop.{gst_pipeline_destroy}
use my_stream_out_app.Streamer.Ledger.{gained, used_up}
use my_stream_out_app.Streamer.Reports.Ready.{statuses}
use my_stream_out_app.Streamer.Lifetime.Failing.{step, none_yet, one_more}
use my_stream_out_app.Streamer.Lifetime.{init, destroy, video}
use my_stream_out_app.Streamer.Lifetime.Serial.{
  Live, live_media, comes, plays, other, Serials, start, next,
}
use my_stream_out_app.Streamer.Lifetime.Serial.Pointers.{Follows, Serials-Follows}
use my_stream_out_app.Streamer.Lifetime.Serial.Frames.{
  AllTo, Serials-pushes, Serials-destroy_releases,
}
use my_stream_out_app.Streamer.Lifetime.Statuses.{heard, is_up}
use my_stream_out_app.Streamer.Lifetime.Statuses.Heard.{Attempts-IsHeard}
use my_stream_out_app.Tests.Samples.{mix15, full_boot, media, key_frame, bytes}

abbrev started : Session
started = (gst_pipeline_init initial full_boot).session

abbrev configured : Session
configured = (on_media_configure started media).0

abbrev alive : Live
alive = live_media 9 media

-- A client asks to play the media, in the pipeline 9.
abbrev request : PlayRequest
request = record {
  has_media = true;
  user_bin = some 20;
  parent = some (9, true);
  first_pass = none;
  second_pass = none;
}

abbrev fresh : Media
fresh = record { elements = []; latency_recalc_done = false }

abbrev played : Session
played = (on_client_play_request configured request fresh).session

abbrev pushed_one : Session
pushed_one = (push_encoded_buffer played key_frame (direct bytes) true).0

abbrev calls : List Effect
calls =
    (((gst_pipeline_init initial full_boot).effects ++ (on_media_configure started media).1)
      ++ (on_client_play_request configured request fresh).effects)
    ++ (push_encoded_buffer played key_frame (direct bytes) true).1

history : Serials mix15 none initial (some alive) pushed_one calls
history =
    next
      (next (next (next start (other (init full_boot refl) refl) refl) (comes media 9 refl) refl)
        (plays request fresh alive refl (λ p e. ap (λ x. number x) (sym e))) refl)
      (other (video key_frame (direct bytes) true) refl) refl
  where
    number : Option (ℕ × Bool) → ℕ
    number none = 9
    number (some (p, b)) = p

Serials-Follows_example : Follows (some alive) pushed_one
Serials-Follows_example = Serials-Follows mix15 (some alive) pushed_one calls history

Serials-destroy_releases_example :
    gained 9 (calls ++ (gst_pipeline_destroy pushed_one).1)
    ≡ used_up 9 (calls ++ (gst_pipeline_destroy pushed_one).1)
Serials-destroy_releases_example =
    Serials-destroy_releases 9 mix15 (some alive) pushed_one calls
      (calls ++ (gst_pipeline_destroy pushed_one).1) history refl

-- A media that has just come, with the default format.
abbrev first_media : Session
first_media = (on_media_configure initial media).0

abbrev audio_push : Option Ran
audio_push = push_audio_buffer mix15 first_media (direct bytes) 0 2 (pos 1000000) true

abbrev ran : Option Ran → Ran
ran none = (first_media, [])
ran (some r) = r

-- The server is stopped.
abbrev run_calls : List Effect
run_calls = (gst_pipeline_init initial full_boot).effects ++ (gst_pipeline_destroy started).1

Attempts-IsHeard_example :
    heard false (statuses run_calls) ≡ some (is_up (gst_pipeline_destroy started).0)
Attempts-IsHeard_example =
    Attempts-IsHeard mix15 (gst_pipeline_destroy started).0 run_calls
      (one_more (one_more none_yet (step (init full_boot refl)) refl) (step destroy) refl)

Serials-pushes_example :
    AllTo (some 22) (push_encoded_buffer first_media key_frame (direct bytes) true).1
    × AllTo (some 25) (ran audio_push).1
unfolding push_audio_buffer push_audio_to stamp_audio payload on_media_configure configure_found
    configure_commit configure_audio install_video
Serials-pushes_example =
    Serials-pushes mix15 (some alive) first_media (on_media_configure initial media).1
      (next start (comes media 9 refl) refl) key_frame (direct bytes) true (direct bytes) 0 2
      (pos 1000000) true (ran audio_push) refl
