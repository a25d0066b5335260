-- ===== src/Tests/Play.antt =====
-- Play requests of two clients on one media.
use my_stream_out_app.Base.{
  ◌≡◌, refl, true, false, none, some, List, [], All, ◌∷◌, map, if◌then◌else◌, all_below, all_below→,
}
use my_stream_out_app.Base.Int.{pos}
use my_stream_out_app.Base.Text.{codes}
use my_stream_out_app.Streamer.Session.{gain, unref}
use my_stream_out_app.Streamer.Play.{
  Element, Answer, element, resync, done, Media, PlayRequest, on_client_play_request,
}
use my_stream_out_app.Streamer.Play.Live.{IsLive}
use my_stream_out_app.Streamer.Play.Scan.{IsScanned, Covers, is_visited, tuned}
use my_stream_out_app.Streamer.Play.Tuned.{
  on_client_play_request_tunes, on_client_play_request_again,
}
use my_stream_out_app.Streamer.Play.Once.{
  play_all, recalculations, any_reaches, recalculations-play_all,
}
use my_stream_out_app.Tests.Samples.{live}

abbrev plain : Element
plain = record {
  type_name = codes "GstRtpH265Pay";
  ts_offset = none;
  sync = none;
  async = none;
  processing_deadline = none;
  do_lost = none;
  buffer_mode = none;
  latency = none;
  ntp_time_source = none;
  size_time = none;
}

abbrev sink : Element
sink = record plain {
  type_name = codes "GstAppSink";
  ts_offset = some (pos 0);
  sync = some true;
  async = some true;
  processing_deadline = some 20000000;
}

abbrev rtpbin : Element
rtpbin = record plain {
  type_name = codes "GstRtpBin";
  do_lost = some true;
  buffer_mode = some 1;
  latency = some 200;
}

abbrev fresh_media : Media
fresh_media = record { elements = sink ∷ rtpbin ∷ []; latency_recalc_done = false }

-- The pipeline changes while the first pass runs.
abbrev first_answers : List Answer
first_answers = element 0 ∷ resync ∷ element 0 ∷ element 1 ∷ done ∷ []

abbrev second_answers : List Answer
second_answers = element 0 ∷ element 1 ∷ done ∷ []

first_answers-Covers : Covers 2 first_answers
unfolding all_below
first_answers-Covers i l = all_below→ 2 (λ j. is_visited j first_answers) i refl l

abbrev request : PlayRequest
request = record {
  has_media = true;
  user_bin = some 20;
  parent = some (9, true);
  first_pass = some first_answers;
  second_pass = some second_answers;
}

second_answers-Covers : Covers 2 second_answers
unfolding all_below
second_answers-Covers i l = all_below→ 2 (λ j. is_visited j second_answers) i refl l

request-IsScanned : IsScanned request 2 20 9 first_answers second_answers
request-IsScanned = record {
  media_found = refl;
  bin_found = refl;
  parent_found = refl;
  first_found = refl;
  second_found = refl;
  first_covers = first_answers-Covers;
  second_covers = second_answers-Covers;
}

on_client_play_request_tunes_example :
    let r = on_client_play_request live request fresh_media in
    (r.session.handles.full_pipeline ≡ some 9)
    × (r.media ≡ record {
      elements = map (tuned live.flags.rtpbin_buffer_mode_none) fresh_media.elements;
      latency_recalc_done = true;
    })
    × All IsLive r.media.elements
on_client_play_request_tunes_example =
    on_client_play_request_tunes live request fresh_media 20 9 first_answers second_answers
      request-IsScanned

recalculations-play_all_example :
    recalculations (play_all live (request ∷ request ∷ []) fresh_media) ≡ (
      if fresh_media.latency_recalc_done
      then 0
      else if any_reaches (request ∷ request ∷ [])
      then 1
      else 0)
recalculations-play_all_example = recalculations-play_all live (request ∷ request ∷ []) fresh_media

-- A second client, while the same media is alive.
on_client_play_request_again_example :
    let r = on_client_play_request live request fresh_media in
    let r' = on_client_play_request r.session request r.media in
    (r'.session ≡ r.session)
    × (r'.media ≡ r.media)
    × (r'.effects ≡ gain 20 ∷ gain 9 ∷ unref 20 ∷ unref 9 ∷ [])
on_client_play_request_again_example =
    on_client_play_request_again live request request fresh_media 20 20 9 first_answers
      second_answers first_answers second_answers request-IsScanned request-IsScanned
