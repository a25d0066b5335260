-- ===== src/Streamer/Dump/Walk/Freed.antt =====
-- What a walk takes and gives back.
use my_stream_out_app.Base.{
  ℕ, ◌+◌, ◌≡◌, refl, inl, inr, none, some, List, [], ◌∷◌, ◌++◌, arith, Option-cases,
}
use my_stream_out_app.Streamer.Dump.Walk.{
  PadAnswer, pad, no_pad, stop, Seen, WalkEvent, new_iterator, free_iterator, get_caps, unref_caps,
  make_text, free_text, pad_lines, visit, properties,
}

pub data Resource : Type 0 where
  iterators caps texts : Resource

abbrev takes_one : WalkEvent → Resource → ℕ
takes_one new_iterator iterators = 1
takes_one get_caps caps = 1
takes_one make_text texts = 1
takes_one _ _ = 0

abbrev gives_one : WalkEvent → Resource → ℕ
gives_one free_iterator iterators = 1
gives_one unref_caps caps = 1
gives_one free_text texts = 1
gives_one _ _ = 0

-- How many of a kind the calls take, and how many they give back.
abbrev pub taken : Resource → List WalkEvent → ℕ
taken r [] = 0
taken r (e ∷ es) = takes_one e r + taken r es

abbrev pub given_back : Resource → List WalkEvent → ℕ
given_back r [] = 0
given_back r (e ∷ es) = gives_one e r + given_back r es

-- As much is given back as is taken.
abbrev pub IsBalanced : List WalkEvent → Type 0
IsBalanced es = (r : Resource) → taken r es ≡ given_back r es

taken-append :
    (r : Resource) (xs ys : List WalkEvent) → taken r (xs ++ ys) ≡ taken r xs + taken r ys
taken-append r [] ys = omega arith
taken-append r (x ∷ xs) ys = omega (arith, taken-append r xs ys)

given_back-append :
    (r : Resource) (xs ys : List WalkEvent)
    → given_back r (xs ++ ys) ≡ given_back r xs + given_back r ys
given_back-append r [] ys = omega arith
given_back-append r (x ∷ xs) ys = omega (arith, given_back-append r xs ys)

pub append-IsBalanced :
    (xs ys : List WalkEvent) → IsBalanced xs → IsBalanced ys → IsBalanced (xs ++ ys)
append-IsBalanced xs ys h k r =
    omega (arith, taken-append r xs ys, given_back-append r xs ys, h r, k r)

iterator_balance : (r : Resource) → takes_one new_iterator r ≡ gives_one free_iterator r
iterator_balance iterators = refl
iterator_balance caps = refl
iterator_balance texts = refl

-- What stands between the request for an iterator and its release, and after it.
pub bracket-IsBalanced :
    (es tail : List WalkEvent)
    → IsBalanced es
    → IsBalanced tail
    → IsBalanced (new_iterator ∷ (es ++ (free_iterator ∷ tail)))
bracket-IsBalanced es tail h k r = omega (
  arith,
  h r,
  k r,
  iterator_balance r,
  taken-append r es (free_iterator ∷ tail),
  given_back-append r es (free_iterator ∷ tail),
)

pad_lines-IsBalanced : (answers : List PadAnswer) → IsBalanced (pad_lines answers)
unfolding pad_lines
pad_lines-IsBalanced [] r = refl
pad_lines-IsBalanced (pad n linked none ∷ answers) r = omega (arith, pad_lines-IsBalanced answers r)
pad_lines-IsBalanced (pad n linked (some c) ∷ answers) iterators =
    omega (arith, pad_lines-IsBalanced answers iterators)
pad_lines-IsBalanced (pad n linked (some c) ∷ answers) caps =
    omega (arith, pad_lines-IsBalanced answers caps)
pad_lines-IsBalanced (pad n linked (some c) ∷ answers) texts =
    omega (arith, pad_lines-IsBalanced answers texts)
pad_lines-IsBalanced (no_pad ∷ answers) r = pad_lines-IsBalanced answers r
pad_lines-IsBalanced (stop ∷ answers) r = refl

pub visit-IsBalanced : (n : ℕ) (e : Seen) → IsBalanced (visit n e)
unfolding visit
visit-IsBalanced n e r = elim (Option-cases e.pads) [
  | inl h ↦ simp (h, visit) refl
  | inr (answers, h) ↦
      let es = new_iterator ∷ (pad_lines answers ++ (free_iterator ∷ [])) in
      let tail = properties e.name ∷ [] in
      simp (h, visit)
        (omega (
          arith,
          append-IsBalanced es tail
              (bracket-IsBalanced (pad_lines answers) [] (pad_lines-IsBalanced answers) (λ q. refl))
              (λ q. refl) r,
        ))
]
