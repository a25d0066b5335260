-- ===== src/Tests/Feedback.antt =====
-- An SDP with a video and an audio section, and caps on their way.
use my_stream_out_app.Base.{◌≡◌, refl, true, false, none, some, List, [], ◌∷◌, ◌++◌}
use my_stream_out_app.Base.Text.{codes}
use my_stream_out_app.Streamer.Feedback.{
  SdpMedia, setup_sdp, CapsFields, no_event, other_event, caps_event, pass_all, other,
}
use my_stream_out_app.Streamer.Feedback.Offer.{OfferedEach, setup_sdp-OfferedEach}
use my_stream_out_app.Streamer.Feedback.Caps.{last_caps, EachWithFeedback, pass_all_first}

abbrev sections : List SdpMedia
sections =
    record {
      media = some (codes "video");
      proto = some (codes "RTP/AVPF");
      formats = codes "97" ∷ [];
      attributes = (codes "rtpmap", codes "97 H265/90000") ∷ [];
    }
    ∷ record {
      media = some (codes "audio");
      proto = some (codes "RTP/AVPF");
      formats = [];
      attributes = [];
    }
    ∷ []

setup_sdp-OfferedEach_example :
    (ms' : List SdpMedia) × ((setup_sdp (some sections) ≡ some ms') × OfferedEach sections ms')
setup_sdp-OfferedEach_example = setup_sdp-OfferedEach sections

abbrev rtp_caps : CapsFields
rtp_caps = ((codes "payload", other 96) ∷ []) ∷ []

pass_all_first_example :
    (d' : CapsFields) × EachWithFeedback rtp_caps d'
    × (pass_all
          (record { probed = true; sticky = none })
          ((other_event 1 ∷ no_event ∷ []) ++ (caps_event rtp_caps ∷ (other_event 2 ∷ [])))
        ≡ (
          record { probed = false; sticky = last_caps (some d') (other_event 2 ∷ []) },
          (other_event 1 ∷ no_event ∷ []) ++ (caps_event d' ∷ (other_event 2 ∷ [])),
        ))
pass_all_first_example =
    pass_all_first none rtp_caps (other_event 1 ∷ no_event ∷ []) (other_event 2 ∷ [])
      (refl, (refl, tt))
