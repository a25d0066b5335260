-- ===== src/Streamer/Feedback/Caps.antt =====
-- The payloader's pad with the probe on it.
use my_stream_out_app.Base.{
  ◌≡◌, refl, sym, ap, ◌∙◌, ◌⊎◌, inl, inr, Bool, true, false, Bool-cases, if◌then◌else◌, Option,
  none, some, List, [], ◌∷◌, ◌++◌, arith, All,
}
use my_stream_out_app.Base.Text.{Text, codes, str_eq, str_eq→≡}
use my_stream_out_app.Streamer.Feedback.{
  Value, boolean, set_field, CapsFields, add_feedback, PadEvent, no_event, no_caps, other_event,
  caps_event, pay0_add_rtcp_fb_probe, pass, pass_all,
}

-- The value of a field.
abbrev pub field : Text → List (Text × Value) → Option Value
field k [] = none
field k ((k', v) ∷ fs) = let rest = field k fs in if str_eq k' k then some v else rest

-- The names of the three feedback fields.
abbrev pub IsFeedback : Text → Type 0
IsFeedback k =
    (k ≡ codes "rtcp-fb-nack") ⊎ (k ≡ codes "rtcp-fb-nack-pli") ⊎ (k ≡ codes "rtcp-fb-nack-fir")

-- A structure with the three feedback fields true, and every other field as in another structure.
pub record WithFeedback (fs fs' : List (Text × Value)) : Type 0 where
  pub nack : field (codes "rtcp-fb-nack") fs' ≡ some (boolean true)
  pub pli : field (codes "rtcp-fb-nack-pli") fs' ≡ some (boolean true)
  pub fir : field (codes "rtcp-fb-nack-fir") fs' ≡ some (boolean true)
  pub same_others : (k : Text) → IsFeedback k ⊎ (field k fs' ≡ field k fs)

-- Structure by structure.
abbrev pub EachWithFeedback : CapsFields → CapsFields → Type 0
EachWithFeedback [] [] = Unit
EachWithFeedback (fs ∷ d) (fs' ∷ d') = WithFeedback fs fs' × EachWithFeedback d d'
EachWithFeedback _ _ = ⊥

str_eq_refl : (t : Text) → str_eq t t ≡ true
unfolding str_eq
str_eq_refl [] = refl
str_eq_refl (c ∷ t) = ground (arith, str_eq_refl t)

field-set_field :
    (k : Text) (v : Value) (fs : List (Text × Value)) → field k (set_field k v fs) ≡ some v
unfolding set_field
field-set_field k v [] = simp (str_eq_refl k) refl
field-set_field k v ((k', v') ∷ fs) = elim (Bool-cases (str_eq k' k)) [
  | inl e ↦ simp (e, str_eq_refl k) refl
  | inr e ↦ simp (e) (field-set_field k v fs)
]

field-set_other :
    (k j : Text) (v : Value) (fs : List (Text × Value))
    → str_eq j k ≡ false
    → field k (set_field j v fs) ≡ field k fs
unfolding set_field
field-set_other k j v [] h = simp (h) refl
field-set_other k j v ((k', v') ∷ fs) h = elim (Bool-cases (str_eq k' j)) [
  | inl e ↦
      let same : str_eq k' k ≡ false = ap (λ t. str_eq t k) (str_eq→≡ k' j e) ∙ h in
      simp (e, h, same) refl
  | inr e ↦ simp (e, field-set_other k j v fs h) refl
]

abbrev with_fields : List (Text × Value) → List (Text × Value)
with_fields fs = set_field (codes "rtcp-fb-nack-fir") (boolean true) (
    set_field (codes "rtcp-fb-nack-pli") (boolean true)
      (set_field (codes "rtcp-fb-nack") (boolean true) fs))

other_fields :
    (fs : List (Text × Value)) (k : Text) → IsFeedback k ⊎ (field k (with_fields fs) ≡ field k fs)
other_fields fs k = elim (Bool-cases (str_eq (codes "rtcp-fb-nack") k)) [
  | inl e ↦ inl (inl (sym (str_eq→≡ (codes "rtcp-fb-nack") k e)))
  | inr n ↦ elim (Bool-cases (str_eq (codes "rtcp-fb-nack-pli") k)) [
    | inl e ↦ inl (inr (inl (sym (str_eq→≡ (codes "rtcp-fb-nack-pli") k e))))
    | inr p ↦ elim (Bool-cases (str_eq (codes "rtcp-fb-nack-fir") k)) [
      | inl e ↦ inl (inr (inr (sym (str_eq→≡ (codes "rtcp-fb-nack-fir") k e))))
      | inr f ↦ inr (
          field-set_other k (codes "rtcp-fb-nack-fir") (boolean true) _ f
          ∙ field-set_other k (codes "rtcp-fb-nack-pli") (boolean true) _ p
          ∙ field-set_other k (codes "rtcp-fb-nack") (boolean true) fs n)
    ]
  ]
]

with_fields-WithFeedback : (fs : List (Text × Value)) → WithFeedback fs (with_fields fs)
unfolding str_eq
with_fields-WithFeedback fs = record {
  nack =
      field-set_other (codes "rtcp-fb-nack") (codes "rtcp-fb-nack-fir") (boolean true) _ refl
      ∙ field-set_other (codes "rtcp-fb-nack") (codes "rtcp-fb-nack-pli") (boolean true) _ refl
      ∙ field-set_field (codes "rtcp-fb-nack") (boolean true) fs;
  pli =
      field-set_other (codes "rtcp-fb-nack-pli") (codes "rtcp-fb-nack-fir") (boolean true) _ refl
      ∙ field-set_field (codes "rtcp-fb-nack-pli") (boolean true) _;
  fir = field-set_field (codes "rtcp-fb-nack-fir") (boolean true) _;
  same_others = other_fields fs;
}

add_feedback-Each : (d : CapsFields) → EachWithFeedback d (add_feedback d)
unfolding add_feedback
add_feedback-Each [] = tt
add_feedback-Each (fs ∷ d) = (with_fields-WithFeedback fs, add_feedback-Each d)

-- An event that carries no caps.
abbrev pub is_plain : PadEvent → Bool
is_plain (caps_event c) = false
is_plain e = true

-- The caps of the last event that carries some, or else what was stored before.
abbrev pub last_caps : Option CapsFields → List PadEvent → Option CapsFields
last_caps c [] = c
last_caps c (caps_event d ∷ es) = last_caps (some d) es
last_caps c (_ ∷ es) = last_caps c es

-- A pad without a probe only remembers the caps.
pass_all_bare :
    (c : Option CapsFields) (es : List PadEvent)
    → pass_all (record { probed = false; sticky = c }) es
      ≡ (record { probed = false; sticky = last_caps c es }, es)
unfolding pass pass_all
pass_all_bare c [] = refl
pass_all_bare c (no_event ∷ es) = ap (λ r. (r.0, no_event ∷ r.1)) (pass_all_bare c es)
pass_all_bare c (no_caps ∷ es) = ap (λ r. (r.0, no_caps ∷ r.1)) (pass_all_bare c es)
pass_all_bare c (other_event n ∷ es) = ap (λ r. (r.0, other_event n ∷ r.1)) (pass_all_bare c es)
pass_all_bare c (caps_event d ∷ es) =
    ap (λ r. (r.0, caps_event d ∷ r.1)) (pass_all_bare (some d) es)

-- With the function that sets the fields.
pass_all_augmented :
    (c : Option CapsFields) (d : CapsFields) (before after : List PadEvent)
    → All (λ e. is_plain e ≡ true) before
    → pass_all (record { probed = true; sticky = c }) (before ++ (caps_event d ∷ after)) ≡ (
      record { probed = false; sticky = last_caps (some (add_feedback d)) after },
      before ++ (caps_event (add_feedback d) ∷ after),
    )
unfolding pass pass_all pay0_add_rtcp_fb_probe
pass_all_augmented c d [] after h =
    ap (λ r. (r.0, caps_event (add_feedback d) ∷ r.1)) (pass_all_bare (some (add_feedback d)) after)
pass_all_augmented c d (no_event ∷ es) after h =
    ap (λ r. (r.0, no_event ∷ r.1)) (pass_all_augmented c d es after h.1)
pass_all_augmented c d (no_caps ∷ es) after h =
    ap (λ r. (r.0, no_caps ∷ r.1)) (pass_all_augmented c d es after h.1)
pass_all_augmented c d (other_event n ∷ es) after h =
    ap (λ r. (r.0, other_event n ∷ r.1)) (pass_all_augmented c d es after h.1)
pass_all_augmented c d (caps_event x ∷ es) after h = absurd (ground (arith, h.0))

-- Whatever events come first, the first CAPS event with caps goes on with caps of as many structures,
-- each with "rtcp-fb-nack", "rtcp-fb-nack-pli" and "rtcp-fb-nack-fir" true and every other field as it
-- was; every event before and after it goes on as it came, and the pad's sticky caps are the augmented
-- ones until another CAPS event comes. The probe is gone then.
pub pass_all_first :
    (c : Option CapsFields) (d : CapsFields) (before after : List PadEvent)
    → All (λ e. is_plain e ≡ true) before
    → (d' : CapsFields) × EachWithFeedback d d'
      × (pass_all (record { probed = true; sticky = c }) (before ++ (caps_event d ∷ after)) ≡ (
        record { probed = false; sticky = last_caps (some d') after },
        before ++ (caps_event d' ∷ after),
      ))
pass_all_first c d before after h =
    (add_feedback d, add_feedback-Each d, pass_all_augmented c d before after h)
