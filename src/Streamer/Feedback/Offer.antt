-- ===== src/Streamer/Feedback/Offer.antt =====
-- Which sections of the SDP offer feedback.
use my_stream_out_app.Base.{
  ℕ, Bool, ◌≡◌, refl, ap, ◌∙◌, true, false, Option, none, some, ◌⊎◌, Option-cases, List, [], ◌∷◌,
  ◌++◌, map, if◌then◌else◌, arith, Bool-cases, inl, inr,
}
use my_stream_out_app.Base.Text.{Text, codes, str_eq, str_eq→≡}
use my_stream_out_app.Streamer.Detect.Tokens.{OccursAt, contains_iff}
use my_stream_out_app.Streamer.Feedback.{
  SdpMedia, is_video, is_avpf, payload_type, rtcp_fb, feedback, inject, setup_sdp,
}

-- The values of a section's attributes of one name.
abbrev pub values_of : Text → List (Text × Text) → List Text
values_of k [] = []
values_of k ((k', v) ∷ xs) = let rest = values_of k xs in if str_eq k' k then v ∷ rest else rest

-- The attributes of other names.
abbrev pub others : Text → List (Text × Text) → List (Text × Text)
others k [] = []
others k ((k', v) ∷ xs) = let rest = others k xs in if str_eq k' k then rest else (k', v) ∷ rest

values_of-append :
    (k : Text) (xs ys : List (Text × Text))
    → values_of k (xs ++ ys) ≡ values_of k xs ++ values_of k ys
values_of-append k [] ys = refl
values_of-append k ((k', v) ∷ xs) ys = ground (arith, values_of-append k xs ys)

others-append :
    (k : Text) (xs ys : List (Text × Text)) → others k (xs ++ ys) ≡ others k xs ++ others k ys
others-append k [] ys = refl
others-append k ((k', v) ∷ xs) ys = ground (arith, others-append k xs ys)

-- Video on a profile in which "AVPF" occurs.
abbrev pub OffersFeedback : SdpMedia → Type 0
OffersFeedback m =
    (m.media ≡ some (codes "video"))
    × ((t : Text) × (i : ℕ) × (m.proto ≡ some t) × OccursAt t (codes "AVPF") i)

-- The first payload type, or 96 where there is none or it is empty.
abbrev pub IsFirstType : List Text → Text → Type 0
IsFirstType ((c ∷ t) ∷ fs) pt = pt ≡ c ∷ t
IsFirstType ([] ∷ fs) pt = pt ≡ codes "96"
IsFirstType [] pt = pt ≡ codes "96"

-- The feedback values of a section after the call against those before it.
abbrev pub Offers : SdpMedia → List Text → List Text → Type 0
Offers m before after =
    (OffersFeedback m
      × ((pt : Text) × IsFirstType m.formats pt
          × (after
              ≡ before
                ++ ((pt ++ codes " nack")
                    ∷ (pt ++ codes " nack pli")
                    ∷ (pt ++ codes " nack fir")
                    ∷ []))))
    ⊎ (¬ OffersFeedback m × (after ≡ before))

-- A section after the call against the one before it.
pub record IsOffered (m m' : SdpMedia) : Type 0 where
  pub same_media : m'.media ≡ m.media
  pub same_proto : m'.proto ≡ m.proto
  pub same_formats : m'.formats ≡ m.formats
  pub same_others : others (codes "rtcp-fb") m'.attributes ≡ others (codes "rtcp-fb") m.attributes
  pub offers :
      Offers m
        (values_of (codes "rtcp-fb") m.attributes)
        (values_of (codes "rtcp-fb") m'.attributes)

-- A section by its media.
is_video-media :
    (x : Option Text) (m : SdpMedia)
    → is_video (record m { media = x }) ≡ true
    → x ≡ some (codes "video")
is_video-media none m h = absurd (ground arith)
is_video-media (some t) m h = ap some (str_eq→≡ t (codes "video") h)

media-is_video : (m : SdpMedia) → m.media ≡ some (codes "video") → is_video m ≡ true
unfolding str_eq
media-is_video m h = ap (λ x. is_video (record m { media = x })) h

is_avpf-occurs :
    (m : SdpMedia)
    → is_avpf m ≡ true
    → (t : Text) × (i : ℕ) × (m.proto ≡ some t) × OccursAt t (codes "AVPF") i
unfolding is_avpf
is_avpf-occurs m h = elim (Option-cases m.proto) [
  | inl n ↦ absurd (ground arith)
  | inr (t, n) ↦
      let (i, e) = (contains_iff t (codes "AVPF")).0 (simp (n, is_avpf) at h) in (t, i, n, e)
]

occurs-is_avpf :
    (m : SdpMedia) (t : Text) (i : ℕ)
    → m.proto ≡ some t
    → OccursAt t (codes "AVPF") i
    → is_avpf m ≡ true
unfolding is_avpf
occurs-is_avpf m t i n e = simp (n, is_avpf) ((contains_iff t (codes "AVPF")).1 (i, e))

payload_type-IsFirstType : (fs : List Text) → IsFirstType fs (payload_type fs)
payload_type-IsFirstType [] = refl
payload_type-IsFirstType ([] ∷ fs) = refl
payload_type-IsFirstType ((c ∷ t) ∷ fs) = refl

feedback_values :
    (pt : Text)
    → (values_of rtcp_fb (feedback pt)
        ≡ (pt ++ codes " nack") ∷ (pt ++ codes " nack pli") ∷ (pt ++ codes " nack fir") ∷ [])
      × (others rtcp_fb (feedback pt) ≡ [])
unfolding str_eq
feedback_values pt = (refl, refl)

append_nil {ℓ} : {A : Type ℓ} (xs : List A) → xs ++ [] ≡ xs
append_nil [] = refl
append_nil (x ∷ xs) = ap (◌∷◌ x) (append_nil xs)

unchanged : (m : SdpMedia) → ¬ OffersFeedback m → IsOffered m m
unchanged m n = record {
  same_media = refl;
  same_proto = refl;
  same_formats = refl;
  same_others = refl;
  offers = inr (n, refl);
}

changed :
    (m : SdpMedia)
    → OffersFeedback m
    → IsOffered m (record m { attributes = m.attributes ++ feedback (payload_type m.formats) })
changed m y =
    let pt = payload_type m.formats in
    record {
      same_media = refl;
      same_proto = refl;
      same_formats = refl;
      same_others =
          others-append rtcp_fb m.attributes (feedback pt)
          ∙ ap (λ x. others rtcp_fb m.attributes ++ x) (feedback_values pt).1
          ∙ append_nil (others rtcp_fb m.attributes);
      offers = inl (
        y,
        (
          pt,
          payload_type-IsFirstType m.formats,
          values_of-append rtcp_fb m.attributes (feedback pt)
              ∙ ap (λ x. values_of rtcp_fb m.attributes ++ x) (feedback_values pt).0,
        ),
      );
    }

differ : (b : Bool) → b ≡ true → b ≡ false → ⊥
differ b h k = ground arith

inject-IsOffered : (m : SdpMedia) → IsOffered m (inject m)
unfolding inject
inject-IsOffered m = elim (Bool-cases (is_video m)) [
  | inr e ↦ simp (e, inject) (unchanged m (λ y. differ (is_video m) (media-is_video m y.0) e))
  | inl e ↦ elim (Bool-cases (is_avpf m)) [
    | inr e' ↦
        simp (e, e', inject)
          (unchanged m (λ (v, (t, i, n, o)). differ (is_avpf m) (occurs-is_avpf m t i n o) e'))
    | inl e' ↦ simp (e, e', inject) (changed m (is_video-media m.media m e, is_avpf-occurs m e'))
  ]
]

-- Section by section.
abbrev pub OfferedEach : List SdpMedia → List SdpMedia → Type 0
OfferedEach [] [] = Unit
OfferedEach (m ∷ ms) (m' ∷ ms') = IsOffered m m' × OfferedEach ms ms'
OfferedEach _ _ = ⊥

map-inject : (ms : List SdpMedia) → OfferedEach ms (map inject ms)
map-inject [] = tt
map-inject (m ∷ ms) = (inject-IsOffered m, map-inject ms)

-- When the base class makes an SDP, the call gives one with the same sections: each keeps its media,
-- its profile, its payload types and its other attributes; if its media is "video" and "AVPF" occurs in
-- its profile, its values of "rtcp-fb" are those it had and NACK, PLI and FIR under its first payload
-- type (96 if there is none or it is empty), and otherwise those it had.
pub setup_sdp-OfferedEach :
    (ms : List SdpMedia)
    → (ms' : List SdpMedia) × ((setup_sdp (some ms) ≡ some ms') × OfferedEach ms ms')
unfolding setup_sdp
setup_sdp-OfferedEach ms = (map inject ms, (refl, map-inject ms))
