-- ===== src/Streamer/Feedback.antt =====
-- How app/src/main/cpp/camera2_gst_streamer.cpp offers RTCP feedback: cres_rtsp_media_setup_sdp puts
-- attributes into the finished SDP, and pay0_add_rtcp_fb_probe fields into the caps of the payloader.
pub mod Offer
pub mod Caps
use my_stream_out_app.Base.{
  ℕ, Bool, true, false, not, ◌&&◌, Option, none, some, List, [], ◌∷◌, ◌++◌, map, if◌then◌else◌,
}
use my_stream_out_app.Base.Text.{Text, codes, str_eq, strstr, contains}

-- One m= section: its media, its profile, its payload types and its a= attributes.
pub record SdpMedia : Type 0 where
  pub media : Option Text
  pub proto : Option Text
  pub formats : List Text
  pub attributes : List (Text × Text)

abbrev pub is_video : SdpMedia → Bool
is_video m = elim m.media [ none ↦ false | some t ↦ str_eq t (codes "video") ]

unfoldable pub is_avpf : SdpMedia → Bool
unfolding strstr
is_avpf m = elim m.proto [ none ↦ false | some t ↦ contains t (codes "AVPF") ]

-- The first payload type; 96 if there is none or it is empty.
abbrev pub payload_type : List Text → Text
payload_type ((c ∷ t) ∷ fs) = c ∷ t
payload_type _ = codes "96"

abbrev pub rtcp_fb : Text
rtcp_fb = codes "rtcp-fb"

abbrev pub feedback : Text → List (Text × Text)
feedback pt =
    (rtcp_fb, pt ++ codes " nack")
    ∷ (rtcp_fb, pt ++ codes " nack pli")
    ∷ (rtcp_fb, pt ++ codes " nack fir")
    ∷ []

unfoldable pub inject : SdpMedia → SdpMedia
inject m =
    if is_video m
    then (if is_avpf m
        then record m { attributes = m.attributes ++ feedback (payload_type m.formats) }
        else m)
    else m

-- `base` is what the base class makes of the message, `none` where it returns FALSE.
unfoldable pub setup_sdp : Option (List SdpMedia) → Option (List SdpMedia)
setup_sdp base = elim base [ none ↦ none | some ms ↦ some (map inject ms) ]

-- A field's value in caps: a boolean, or anything else.
pub data Value : Type 0 where
  boolean : Bool → Value
  other : ℕ → Value

-- Caps have one or more structures of fields.
abbrev pub CapsFields : Type 0
CapsFields = List (List (Text × Value))

-- gst_structure_set: the field is replaced or added.
unfoldable pub set_field : Text → Value → List (Text × Value) → List (Text × Value)
set_field k v [] = (k, v) ∷ []
set_field k v ((k', v') ∷ fs) =
    let rest = set_field k v fs in if str_eq k' k then (k, v) ∷ fs else (k', v') ∷ rest

unfoldable pub add_feedback : CapsFields → CapsFields
unfolding set_field
add_feedback caps =
    map
      (λ fs. set_field (codes "rtcp-fb-nack-fir") (boolean true) (
        set_field (codes "rtcp-fb-nack-pli") (boolean true)
          (set_field (codes "rtcp-fb-nack") (boolean true) fs)))
      caps

-- What comes to the probe: no event, an event of another type, a CAPS event without caps, or with.
pub data PadEvent : Type 0 where
  no_event no_caps : PadEvent
  other_event : ℕ → PadEvent
  caps_event : CapsFields → PadEvent

-- Whether the probe is removed, the sticky caps of its pad, and the event that goes on.
pub record Probed : Type 0 where
  pub removed : Bool
  pub sticky : Option CapsFields
  pub event : PadEvent

-- The new event also takes the place of the sticky one.
unfoldable pub pay0_add_rtcp_fb_probe : Option CapsFields → PadEvent → Probed
pay0_add_rtcp_fb_probe sticky (caps_event c) = record {
  removed = true;
  sticky = some (add_feedback c);
  event = caps_event (add_feedback c);
}
pay0_add_rtcp_fb_probe sticky e = record { removed = false; sticky = sticky; event = e }

-- A pad: whether the probe is installed, and the caps of its sticky CAPS event.
pub record Pad : Type 0 where
  pub probed : Bool
  pub sticky : Option CapsFields

-- GStreamer stores an event on the pad before the probe sees it.
abbrev pub stored : Option CapsFields → PadEvent → Option CapsFields
stored c (caps_event d) = some d
stored c e = c

-- An event on its way through the pad.
unfoldable pub pass : Pad → PadEvent → Pad × PadEvent
unfolding pay0_add_rtcp_fb_probe
pass p e =
    let kept = stored p.sticky e in
    if p.probed
    then (let r = pay0_add_rtcp_fb_probe kept e in
        (record { probed = not r.removed; sticky = r.sticky }, r.event))
    else (record p { sticky = kept }, e)

pub pass_all : Pad → List PadEvent → Pad × List PadEvent
pass_all p [] = (p, [])
pass_all p (e ∷ es) = let (p1, e') = pass p e in let (p2, es') = pass_all p1 es in (p2, e' ∷ es')
