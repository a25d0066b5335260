-- ===== src/Streamer/Play/Scan.antt =====
-- What a loop over an iterator does to each element.
use my_stream_out_app.Base.{
  ℕ, zero, suc, ◌<◌, ◌≡◌, refl, ap, ap₂, ◌∙◌, sym, Bool, true, false, ◌||◌, Option, none, some,
  List, [], ◌∷◌, map, length, ◌==◌, if◌then◌else◌, arith, ◌⊎◌, inl, inr,
}
use my_stream_out_app.Streamer.Play.{
  Element, Answer, element, no_element, resync, done, failed, modify, scan, relax, configure_rtp,
  PlayRequest, passes,
}

-- The entry with a number.
abbrev nth {ℓ} : {A : Type ℓ} → ℕ → List A → Option A
nth i [] = none
nth zero (x ∷ xs) = some x
nth (suc i) (x ∷ xs) = nth i xs

abbrev apply_if : Bool → (Element → Element) → Option Element → Option Element
apply_if b f none = none
apply_if b f (some e) = some (if b then f e else e)

nth-modify :
    (f : Element → Element) (i j : ℕ) (es : List Element)
    → nth i (modify f j es) ≡ apply_if (i == j) f (nth i es)
nth-modify f i j [] = refl
nth-modify f zero zero (e ∷ es) = refl
nth-modify f zero (suc j) (e ∷ es) = ground arith
nth-modify f (suc i) zero (e ∷ es) = ground arith
nth-modify f (suc i) (suc j) (e ∷ es) = ground (arith, nth-modify f i j es)

-- Whether an element comes up before the end.
abbrev pub is_visited : ℕ → List Answer → Bool
is_visited i [] = false
is_visited i (element j ∷ answers) = (i == j) || is_visited i answers
is_visited i (no_element ∷ answers) = is_visited i answers
is_visited i (resync ∷ answers) = is_visited i answers
is_visited i (done ∷ answers) = false
is_visited i (failed ∷ answers) = false

pub relax_idempotent : (e : Element) → relax (relax e) ≡ relax e
unfolding relax
relax_idempotent e = ground arith

pub configure_rtp_idempotent :
    (b : Bool) (e : Element) → configure_rtp b (configure_rtp b e) ≡ configure_rtp b e
unfolding configure_rtp
configure_rtp_idempotent b e = ground arith

both :
    (f : Element → Element) (b c : Bool) (o : Option Element)
    → ((e : Element) → f (f e) ≡ f e)
    → apply_if c f (apply_if b f o) ≡ apply_if (b || c) f o
both f b c none h = refl
both f true true (some e) h = ap some (h e)
both f true false (some e) h = refl
both f false c (some e) h = refl

-- However often the iterator starts again, an element is changed if and only if it comes up.
scan-nth :
    (f : Element → Element) (i : ℕ) (answers : List Answer) (es : List Element)
    → ((e : Element) → f (f e) ≡ f e)
    → nth i (scan f answers es) ≡ apply_if (is_visited i answers) f (nth i es)
unfolding scan
scan-nth f i [] es h = ground arith
scan-nth f i (element j ∷ answers) es h =
    scan-nth f i answers (modify f j es) h
    ∙ ap (apply_if (is_visited i answers) f) (nth-modify f i j es)
    ∙ both f (i == j) (is_visited i answers) (nth i es) h
scan-nth f i (no_element ∷ answers) es h = scan-nth f i answers es h
scan-nth f i (resync ∷ answers) es h = scan-nth f i answers es h
scan-nth f i (done ∷ answers) es h = ground arith
scan-nth f i (failed ∷ answers) es h = ground arith

nth_ext : (xs ys : List Element) → ((i : ℕ) → nth i xs ≡ nth i ys) → xs ≡ ys
nth_ext [] [] h = refl
nth_ext [] (y ∷ ys) h = ground (arith, h zero)
nth_ext (x ∷ xs) [] h = ground (arith, h zero)
nth_ext (x ∷ xs) (y ∷ ys) h = ap₂ ◌∷◌ (ground (arith, h zero)) (nth_ext xs ys (λ i. h (suc i)))

nth-map :
    (f : Element → Element) (i : ℕ) (es : List Element)
    → nth i (map f es) ≡ apply_if true f (nth i es)
nth-map f i [] = refl
nth-map f zero (e ∷ es) = refl
nth-map f (suc i) (e ∷ es) = nth-map f i es

nth_cases : (i : ℕ) (es : List Element) → (nth i es ≡ none) ⊎ (i < length es)
nth_cases i [] = inl refl
nth_cases zero (e ∷ es) = inr (omega arith)
nth_cases (suc i) (e ∷ es) = elim (nth_cases i es) [ inl h ↦ inl h | inr h ↦ inr (omega arith) ]

-- Each of so many elements comes up.
abbrev pub Covers : ℕ → List Answer → Type 0
Covers n answers = (i : ℕ) → i < n → is_visited i answers ≡ true

scan-map :
    (f : Element → Element) (answers : List Answer) (es : List Element)
    → ((e : Element) → f (f e) ≡ f e)
    → Covers (length es) answers
    → scan f answers es ≡ map f es
scan-map f answers es h c = nth_ext (scan f answers es) (map f es) λ i.
    scan-nth f i answers es h ∙ elim (nth_cases i es) [
      | inl e ↦
          ap (apply_if (is_visited i answers) f) e ∙ sym (nth-map f i es ∙ ap (apply_if true f) e)
      | inr l ↦ ap (λ b. apply_if b f (nth i es)) (c i l) ∙ sym (nth-map f i es)
    ]

pub length-map : (f : Element → Element) (es : List Element) → length (map f es) ≡ length es
length-map f [] = refl
length-map f (e ∷ es) = ap suc (length-map f es)

-- A request that reaches the pipeline `p`, whose iterators bring up each of `n` elements.
pub record IsScanned (q : PlayRequest) (n u p : ℕ) (first second : List Answer) : Type 0 where
  pub media_found : q.has_media ≡ true
  pub bin_found : q.user_bin ≡ some u
  pub parent_found : q.parent ≡ some (p, true)
  pub first_found : q.first_pass ≡ some first
  pub second_found : q.second_pass ≡ some second
  pub first_covers : Covers n first
  pub second_covers : Covers n second

-- What both passes make of an element.
abbrev pub tuned : Bool → Element → Element
tuned mode_none e = configure_rtp mode_none (relax e)

map-map : (f g : Element → Element) (es : List Element) → map f (map g es) ≡ map (λ e. f (g e)) es
map-map f g [] = refl
map-map f g (e ∷ es) = ap (◌∷◌ (f (g e))) (map-map f g es)

pub passes-map :
    (b : Bool) (q : PlayRequest) (es : List Element) (n u p : ℕ) (first second : List Answer)
    → length es ≡ n
    → IsScanned q n u p first second
    → passes b q es ≡ map (tuned b) es
unfolding passes
passes-map b q es n u p first second e i =
    simp
      (
        i.first_found,
        i.second_found,
        scan-map relax first es relax_idempotent (λ j l. i.first_covers j (omega (arith, e))),
        passes,
      )
      (scan-map (configure_rtp b) second (map relax es) (configure_rtp_idempotent b)
          (λ j l. i.second_covers j (omega (arith, e, length-map relax es)))
        ∙ map-map (configure_rtp b) relax es)
