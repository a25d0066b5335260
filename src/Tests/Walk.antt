-- ===== src/Tests/Walk.antt =====
-- A walk over a pipeline that changes on the way.
use my_stream_out_app.Base.{◌≡◌, refl, true, none, some, List, [], ◌∷◌, ◌++◌, length}
use my_stream_out_app.Base.Text.{codes, strstr, has_prefix}
use my_stream_out_app.Streamer.Dump.Walk.{
  pad, no_pad, stop, Seen, WalkAnswer, found, no_element, resync, finished, video, WalkEvent,
  DumpAnswers, tag_of, dump_log,
}
use my_stream_out_app.Streamer.Dump.Walk.Freed.{IsBalanced}
use my_stream_out_app.Streamer.Dump.Walk.Listed.{come_up, listed, totals, enumerate}
use my_stream_out_app.Streamer.Dump.Walk.Numbered.{dump_log-listed}
use my_stream_out_app.Tests.Samples.{live}

-- The payloader of the Opus audio.
abbrev opus_pay : Seen
opus_pay = record {
  name = codes "pay1";
  type_name = codes "GstRtpOPUSPay";
  state = codes "PLAYING";
  pads = some (pad (codes "src") true (some (codes "application/x-rtp")) ∷ no_pad ∷ stop ∷ []);
}

abbrev queue : Seen
queue = record {
  name = codes "q";
  type_name = codes "GstQueue";
  state = codes "PAUSED";
  pads = none;
}

-- It is shown as an element of the video.
opus_pay-tag_of : tag_of opus_pay ≡ video
unfolding tag_of strstr has_prefix
opus_pay-tag_of = refl

abbrev before_end : List WalkAnswer
before_end = found opus_pay ∷ resync ∷ no_element ∷ found opus_pay ∷ found queue ∷ []

abbrev names : DumpAnswers
names = record { appsrc_name = codes "src"; audio_appsrc_name = codes "audiosrc"; elements = none }

-- The element that comes up again after the resync is counted twice.
dump_log-listed_example :
    ((es : List WalkEvent) × (dump_log live
          (record names { elements = some (before_end ++ (finished ∷ [])) })
        ≡ some es)
      × (listed es ≡ enumerate 1 (come_up before_end))
      × (totals es ≡ length (come_up before_end) ∷ [])
      × IsBalanced es)
    × (dump_log live (record names { elements = some before_end }) ≡ none)
dump_log-listed_example =
    dump_log-listed live names 9 before_end [] refl (refl, (refl, (refl, (refl, (refl, tt)))))
