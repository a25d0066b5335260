-- ===== src/Base/Text.antt =====
-- The C string functions that the sources call, over lists of byte values.
use Prim.Native.Char.{code}
use Prim.Native.String.{String}
use Prim.Native.Nat.{ℕ, ◌+◌, ◌-◌, ◌*◌, ◌^◌, min}
use mathlib.Core.Path.{◌≡◌, refl}
use mathlib.Core.Bool.{Bool, true, false, ◌&&◌, ◌||◌}
use mathlib.Core.Option.{Option, none, some}
use mathlib.Core.List.{List, [], ◌∷◌, ◌++◌, map}
use native.Mathlib.Omega.{arith}
use my_stream_out_app.Base.Tests.{leb, ◌==◌, if◌then◌else◌}
use my_stream_out_app.Base.Int.{ℤ, pos, negsuc, negate, to_int32}

-- The bytes before the terminating zero.
abbrev pub Text : Type 0
Text = List ℕ

-- The bytes of an ASCII literal.
abbrev pub codes : String → Text
codes String.[] = []
codes (String.◌∷◌ c s) = code c ∷ codes s

-- `strcmp(a, b) == 0`
unfoldable pub str_eq : Text → Text → Bool
str_eq [] [] = true
str_eq [] (b ∷ t) = false
str_eq (a ∷ s) [] = false
str_eq (a ∷ s) (b ∷ t) = a == b && str_eq s t

-- `strncmp(s, p, strlen(p)) == 0`
unfoldable pub has_prefix : Text → Text → Bool
has_prefix s [] = true
has_prefix [] (b ∷ p) = false
has_prefix (a ∷ s) (b ∷ p) = a == b && has_prefix s p

-- `strstr(s, p)`: the text from the first occurrence on.
unfoldable pub strstr : Text → Text → Option Text
unfolding has_prefix
strstr [] p = if has_prefix [] p then some [] else none
strstr (a ∷ s) p = let rest = strstr s p in if has_prefix (a ∷ s) p then some (a ∷ s) else rest

-- `strstr(s, p) != NULL`
abbrev pub contains : Text → Text → Bool
contains s p = elim (strstr s p) [ none ↦ false | some _ ↦ true ]

abbrev pub is_digit : ℕ → Bool
is_digit c = leb b'0' c && leb c b'9'

-- `isspace` in the C locale.
abbrev pub is_space : ℕ → Bool
is_space c = c == 32 || (leb 9 c && leb c 13)

-- `toupper` in the C locale.
unfoldable pub toupper : ℕ → ℕ
toupper c = if leb b'a' c && leb c b'z' then c - 32 else c

-- The digits at the front as a number, and what follows them.
unfoldable pub read_digits : ℕ → Text → ℕ × Text
read_digits acc [] = (acc, [])
read_digits acc (c ∷ s) =
    let rest = read_digits (acc * 10 + (c - b'0')) s in if is_digit c then rest else (acc, c ∷ s)

unfoldable pub skip_spaces : Text → Text
skip_spaces [] = []
skip_spaces (c ∷ s) = let rest = skip_spaces s in if is_space c then rest else c ∷ s

abbrev starts_with_digit : Text → Bool
starts_with_digit [] = false
starts_with_digit (c ∷ s) = is_digit c

-- The digits after an optional sign; `none` where there are none.
unfoldable pub read_magnitude : Text → Option (ℕ × Text)
unfolding read_digits
read_magnitude s = if starts_with_digit s then some (read_digits 0 s) else none

unfoldable pub read_signed : Text → Option (ℤ × Text)
unfolding read_magnitude
read_signed [] = none
read_signed (c ∷ s) =
    if c == b'-'
    then elim (read_magnitude s) [ none ↦ none | some (n, t) ↦ some (negate (pos n), t) ]
    else elim (read_magnitude (if c == b'+' then s else c ∷ s)) [
      | none ↦ none
      | some (n, t) ↦ some (pos n, t)
    ]

-- A `long` has 64 bits, and `strtol` stops at its ends.
abbrev pub clamp_long : ℤ → ℤ
clamp_long (pos n) = pos (min n (2 ^ 63 - 1))
clamp_long (negsuc n) = negsuc (min n (2 ^ 63 - 1))

-- `strtol(s, &end, 10)` as the value and the text at `end`: with no digits the value is 0 and
-- `end` is `s`.
unfoldable pub strtol : Text → ℤ × Text
unfolding read_signed skip_spaces
strtol s = elim (read_signed (skip_spaces s)) [
  | none ↦ (pos 0, s)
  | some (n, t) ↦ (clamp_long n, t)
]

-- `atoi(s)`, which is `(int) strtol(s, NULL, 10)`.
abbrev pub atoi : Text → ℤ
atoi s = to_int32 (strtol s).0

-- `strcasecmp(a, b) == 0`
abbrev pub str_case_eq : Text → Text → Bool
str_case_eq a b = str_eq (map toupper a) (map toupper b)

-- Equal texts are the same list.
pub str_eq→≡ : (s t : Text) → str_eq s t ≡ true → s ≡ t
unfolding str_eq
str_eq→≡ [] [] h = refl
str_eq→≡ [] (b ∷ t) h = ground arith
str_eq→≡ (a ∷ s) [] h = ground arith
str_eq→≡ (a ∷ s) (b ∷ t) h = ground (arith, str_eq→≡ s t)

pub has_prefix-append : (s t : Text) → has_prefix (s ++ t) s ≡ true
unfolding has_prefix
has_prefix-append [] [] = refl
has_prefix-append [] (b ∷ t) = refl
has_prefix-append (a ∷ s) t = ground (arith, has_prefix-append s t)
