-- ===== src/Debug/Tokens.antt =====
-- The tokens of a command string, and the name that a token stands for.
use my_stream_out_app.Base.{
  ℕ, ◌≡◌, ◌⊎◌, refl, ◌∙◌, ap, true, false, not, some, List, [], ◌∷◌, ◌++◌, arith, All, Bool-cases,
  inl, inr,
}
use my_stream_out_app.Base.Text.{Text, has_prefix}
use my_stream_out_app.Debug.{
  Command, is_delimiter, cons_token, continues, tokens, index_in, get_index, command_names,
}

-- A comma or a blank.
abbrev pub IsDelimiter : ℕ → Type 0
IsDelimiter c = (c ≡ b',') ⊎ (c ≡ b' ')

-- One or more characters with no delimiter among them.
abbrev pub IsWord : Text → Type 0
IsWord [] = ⊥
IsWord (c ∷ w) = All (λ x. ¬ IsDelimiter x) (c ∷ w)

-- Nothing, or a delimiter first.
abbrev pub IsCut : Text → Type 0
IsCut [] = Unit
IsCut (c ∷ s) = IsDelimiter c

-- A text that consists of these words, with delimiters between any two of them and perhaps before the
-- first and after the last.
pub data Spells : Text → List Text → Type 0 where
  only_gap : (d : Text) → All IsDelimiter d → Spells d []
  next_word :
      (d w s : Text) (ws : List Text)
      → All IsDelimiter d
      → IsWord w
      → IsCut s
      → Spells s ws
      → Spells (d ++ (w ++ s)) (w ∷ ws)

abbrev IsPlain : Text → Type 0
IsPlain = All (λ c. is_delimiter c ≡ false)

abbrev IsGap : Text → Type 0
IsGap = All (λ c. is_delimiter c ≡ true)

delimiter_true : (c : ℕ) → IsDelimiter c → is_delimiter c ≡ true
delimiter_true c h = ground arith

pub delimiter_false : (c : ℕ) → ¬ IsDelimiter c → is_delimiter c ≡ false
delimiter_false c h = elim (Bool-cases (is_delimiter c)) [
  | inr e ↦ e
  | inl e ↦ absurd (h (ground arith))
]

all-IsGap : (d : Text) → All IsDelimiter d → IsGap d
all-IsGap [] h = tt
all-IsGap (c ∷ d) (e, h) = (delimiter_true c e, all-IsGap d h)

all-IsPlain : (w : Text) → All (λ x. ¬ IsDelimiter x) w → IsPlain w
all-IsPlain [] h = tt
all-IsPlain (c ∷ w) (e, h) = (delimiter_false c e, all-IsPlain w h)

cut_continues : (s : Text) → IsCut s → continues s ≡ false
cut_continues [] h = refl
cut_continues (c ∷ s) h = ap not (delimiter_true c h)

tokens-gap : (d s : Text) → IsGap d → tokens (d ++ s) ≡ tokens s
unfolding tokens
tokens-gap [] s h = refl
tokens-gap (c ∷ d) s (e, h) = rw (e) (tokens-gap d s h)

tokens-step :
    (c : ℕ) (s : Text)
    → is_delimiter c ≡ false
    → tokens (c ∷ s) ≡ cons_token (continues s) c (tokens s)
unfolding tokens
tokens-step c s e = rw (e) refl

tokens-word :
    (c : ℕ) (w s : Text)
    → IsPlain (c ∷ w)
    → continues s ≡ false
    → tokens ((c ∷ w) ++ s) ≡ (c ∷ w) ∷ tokens s
tokens-word c [] s (e, h) g = tokens-step c s e ∙ ap (λ b. cons_token b c (tokens s)) g
tokens-word c (c' ∷ w) s (e, (e', h)) g =
    tokens-step c ((c' ∷ w) ++ s) e
    ∙ (ap (λ b. cons_token (not b) c (tokens ((c' ∷ w) ++ s))) e'
        ∙ ap (cons_token true c) (tokens-word c' w s (e', h) g))

gap_only : (d : Text) → IsGap d → tokens d ≡ []
unfolding tokens
gap_only [] h = refl
gap_only (c ∷ d) (e, h) = rw (e) (gap_only d h)

-- Splitting a text gives the words that it consists of.
pub tokens-Spells : (s : Text) (ws : List Text) → Spells s ws → tokens s ≡ ws
tokens-Spells _ _ (only_gap d h) = gap_only d (all-IsGap d h)
tokens-Spells _ _ (next_word d [] s ws h i c k) = absurd i
tokens-Spells _ _ (next_word d (a ∷ w) s ws h i c k) =
    tokens-gap d ((a ∷ w) ++ s) (all-IsGap d h)
    ∙ (tokens-word a w s (all-IsPlain (a ∷ w) i) (cut_continues s c)
        ∙ ap (λ ts. (a ∷ w) ∷ ts) (tokens-Spells s ws k))

-- A command's place in a table: its name starts with the text, and no name before it does.
pub record IsFirst (table : List (Text × Command)) (name : Text) (c : Command) : Type 0 where
  pub before : List (Text × Command)
  pub full_name : Text
  pub after : List (Text × Command)
  pub splits : table ≡ before ++ ((full_name, c) ∷ after)
  pub matches : has_prefix full_name name ≡ true
  pub misses : All (λ e. has_prefix e.0 name ≡ false) before

index_in-IsFirst :
    (table : List (Text × Command)) (name : Text) (c : Command)
    → index_in table name ≡ some c
    → IsFirst table name c
unfolding index_in
index_in-IsFirst [] name c h = absurd (ground arith)
index_in-IsFirst ((n, d) ∷ table) name c h = elim (Bool-cases (has_prefix n name)) [
  | inl e ↦ record {
    before = [];
    full_name = n;
    after = table;
    splits = (let q : d ≡ c = ground arith in ap (λ x. (n, x) ∷ table) q);
    matches = e;
    misses = tt;
  }
  | inr e ↦
      let i = index_in-IsFirst table name c (ground arith) in
      record {
        before = (n, d) ∷ i.before;
        full_name = i.full_name;
        after = i.after;
        splits = ap (λ t. (n, d) ∷ t) i.splits;
        matches = i.matches;
        misses = (e, i.misses);
      }
]

-- A command that is recognised is the first of the table whose name starts with the text: the text is
-- an abbreviation of that name and of none before it.
pub get_index-IsFirst :
    (name : Text) (c : Command) → get_index name ≡ some c → IsFirst command_names name c
unfolding get_index
get_index-IsFirst name c h = index_in-IsFirst command_names name c h
