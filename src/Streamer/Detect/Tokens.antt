-- ===== src/Streamer/Detect/Tokens.antt =====
-- What nativeGstPipelineInit reads off a pipeline text.
use my_stream_out_app.Base.{
  ℕ, zero, suc, ◌≡◌, ◌↔◌, ◌⊎◌, refl, Bool, true, false, some, [], ◌∷◌, arith, Bool-cases,
  Option-cases, drop, inl, inr,
}
use my_stream_out_app.Base.Text.{Text, codes, has_prefix, strstr, contains}
use my_stream_out_app.Streamer.Media.{has_video, has_audio}
use my_stream_out_app.Streamer.Detect.{detect_mode}

-- Where a text occurs: with it in front, after that many characters.
abbrev pub OccursAt : Text → Text → ℕ → Type 0
OccursAt s p i = has_prefix (drop i s) p ≡ true

strstr-some : (s p r : Text) → strstr s p ≡ some r → (i : ℕ) × ((r ≡ drop i s) × OccursAt s p i)
unfolding strstr
strstr-some [] p r h = elim (Bool-cases (has_prefix [] p)) [
  | inl e ↦ (0, (ground arith, e))
  | inr e ↦ absurd (ground arith)
]
strstr-some (a ∷ s) p r h = elim (Bool-cases (has_prefix (a ∷ s) p)) [
  | inl e ↦ (0, (ground arith, e))
  | inr e ↦ let (i, (x, y)) = strstr-some s p r (ground arith) in (suc i, (x, y))
]

contains_from : (s p : Text) (i : ℕ) → OccursAt s p i → contains s p ≡ true
unfolding strstr
contains_from [] p zero h = ground arith
contains_from [] p (suc i) h = ground arith
contains_from (a ∷ s) p zero h = ground arith
contains_from (a ∷ s) p (suc i) h = ground (arith, contains_from s p i h)

pub contains_iff : (s p : Text) → (contains s p ≡ true) ↔ ((i : ℕ) × OccursAt s p i)
contains_iff s p = (
  λ h. elim (Option-cases (strstr s p)) [
    | inl e ↦ absurd (ground arith)
    | inr (r, e) ↦ let (i, (x, y)) = strstr-some s p r e in (i, y)
  ],
  λ (i, h). contains_from s p i h,
)

clash : (b : Bool) → b ≡ true → b ≡ false → ⊥
clash b h k = ground arith

-- The stream has video exactly if `name=src` occurs somewhere in the pipeline text, and it has audio
-- exactly if `name=audio` occurs in it or `name=src` does not.
pub detect_mode_iff :
    (p : Text)
    → ((has_video (detect_mode p) ≡ true) ↔ ((i : ℕ) × OccursAt p (codes "name=src") i))
      × ((has_audio (detect_mode p) ≡ true) ↔ (
          ((i : ℕ) × OccursAt p (codes "name=audio") i)
          ⊎ ¬ ((i : ℕ) × OccursAt p (codes "name=src") i)))
unfolding detect_mode
detect_mode_iff p =
    let (va, vb) = contains_iff p (codes "name=src") in
    let (aa, ab) = contains_iff p (codes "name=audio") in
    elim (Bool-cases (contains p (codes "name=src"))) [
      | inl e ↦ elim (Bool-cases (contains p (codes "name=audio"))) [
        | inl e' ↦ simp (e, e', detect_mode) ((λ h. va e, λ h. refl), (λ h. inl (aa e'), λ h. refl))
        | inr e' ↦
            simp (e, e', detect_mode)
              (
                (λ h. va e, λ h. refl),
                (
                  λ h. absurd (ground arith),
                  λ h. elim h [
                    | inl x ↦ absurd (clash (contains p (codes "name=audio")) (ab x) e')
                    | inr y ↦ absurd (y (va e))
                  ],
                ),
              )
      ]
      | inr e ↦
          simp (e, detect_mode)
            (
              (
                λ h. absurd (ground arith),
                λ x. absurd (clash (contains p (codes "name=src")) (vb x) e),
              ),
              (λ h. inr (λ x. clash (contains p (codes "name=src")) (vb x) e), λ h. refl),
            )
    ]
