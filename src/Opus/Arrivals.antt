-- ===== src/Opus/Arrivals.antt =====
-- The map of arrivals as a queue, while the keys rise.
use my_stream_out_app.Base.{
  ℕ, zero, suc, ◌+◌, ◌-◌, ◌≤◌, ◌≡◌, refl, ap, ◌∙◌, sym, false, List, [], ◌∷◌, ◌++◌, length, drop,
  ltb, ◌==◌, arith, Bool-cases, inl, inr,
}
use my_stream_out_app.Opus.{put, cap}
use my_stream_out_app.Opus.Intended.{newest, Below, arrivals}

pub put-Below :
    (k v lo : ℕ) (m : List (ℕ × ℕ)) → Below lo m → lo ≤ k → put k v m ≡ m ++ ((k, v) ∷ [])
unfolding put
put-Below k v lo [] h l = refl
put-Below k v lo ((k', v') ∷ m) (h, hs) l =
    let a : ltb k k' ≡ false = ground arith in
    let b : (k == k') ≡ false = ground arith in
    simp (a, b, put) (ap (◌∷◌ (k', v')) (put-Below k v lo m hs l))

pub cap-newest : (m : List (ℕ × ℕ)) → cap m ≡ newest m
unfolding cap
cap-newest [] = refl
cap-newest (e ∷ m) = elim (Bool-cases (ltb 64 (length (e ∷ m)))) [
  | inl h ↦
      let q : suc (length m) - 64 ≡ suc (length m - 64) = ground arith in
      simp (h, cap) (cap-newest m ∙ sym (ap (λ n. drop n (e ∷ m)) q))
  | inr h ↦
      let q : suc (length m) - 64 ≡ 0 = ground arith in
      simp (h, cap) (sym (ap (λ n. drop n (e ∷ m)) q))
]

arrivals-drop : (n : ℕ) (m : List (ℕ × ℕ)) → arrivals (drop n m) ≡ drop n (arrivals m)
arrivals-drop zero m = refl
arrivals-drop (suc n) [] = refl
arrivals-drop (suc n) (e ∷ m) = arrivals-drop n m

length-arrivals : (m : List (ℕ × ℕ)) → length (arrivals m) ≡ length m
length-arrivals [] = refl
length-arrivals (e ∷ m) = ap suc (length-arrivals m)

pub arrivals-append :
    (m : List (ℕ × ℕ)) (k v : ℕ) → arrivals (m ++ ((k, v) ∷ [])) ≡ arrivals m ++ (v ∷ [])
arrivals-append [] k v = refl
arrivals-append (e ∷ m) k v = ap (◌∷◌ e.1) (arrivals-append m k v)

pub arrivals-newest : (m : List (ℕ × ℕ)) → arrivals (newest m) ≡ newest (arrivals m)
arrivals-newest m =
    arrivals-drop (length m - 64) m ∙ ap (λ n. drop (n - 64) (arrivals m)) (sym (length-arrivals m))

pub Below-append :
    (lo k v : ℕ) (m : List (ℕ × ℕ)) → Below lo m → lo ≤ k → Below (k + 1) (m ++ ((k, v) ∷ []))
Below-append lo k v [] h l = (omega arith, tt)
Below-append lo k v (e ∷ m) (h, hs) l = (omega arith, Below-append lo k v m hs l)

pub Below-drop : (lo n : ℕ) (m : List (ℕ × ℕ)) → Below lo m → Below lo (drop n m)
Below-drop lo zero m h = h
Below-drop lo (suc n) [] h = tt
Below-drop lo (suc n) (e ∷ m) (h, hs) = Below-drop lo n m hs
