-- ===== src/Base/Decimal.antt =====
-- `%d` and `%u`: numbers of 32 bits as decimal text.
use Prim.Native.Nat.{ℕ, zero, suc, ◌+◌, ◌*◌, ◌/◌, ◌%◌, ◌^◌, ◌<◌, ◌≤◌}
use mathlib.Core.Path.{◌≡◌, refl, ◌∙◌, ap}
use mathlib.Core.Logic.{inl, inr}
use mathlib.Core.Bool.{Bool, true, false}
use mathlib.Core.List.{[], ◌∷◌, ◌++◌}
use mathlib.Core.Option.{some}
use native.Mathlib.Omega.{arith}
use my_stream_out_app.Base.Tests.{ltb, ◌==◌, if◌then◌else◌, Bool-cases}
use my_stream_out_app.Base.Lists.{length}
use my_stream_out_app.Base.Int.{ℤ, pos, negsuc, to_int32_small}
use my_stream_out_app.Base.Text.{
  Text, is_digit, read_digits, read_magnitude, read_signed, skip_spaces, strtol, atoi,
}

-- At most so many digits, from the last on, before a text.
unfoldable pub digits : ℕ → ℕ → Text → Text
digits zero n s = s
digits (suc k) n s =
    let rest = digits k (n / 10) ((b'0' + n % 10) ∷ s) in
    if ltb n 10 then (b'0' + n % 10) ∷ s else rest

-- A number of 32 bits has at most ten.
unfoldable pub decimal : ℕ → Text
unfolding digits
decimal n = digits 10 n []

unfoldable pub decimal_int : ℤ → Text
decimal_int (pos n) = decimal n
decimal_int (negsuc n) = b'-' ∷ decimal (suc n)

abbrev pow10 : ℕ → ℕ
pow10 zero = 1
pow10 (suc k) = 10 * pow10 k

read_digit :
    (a d : ℕ) (s : Text) → d < 10 → read_digits a ((b'0' + d) ∷ s) ≡ read_digits (a * 10 + d) s
unfolding read_digits
read_digit a d s h =
    let e : is_digit (b'0' + d) ≡ true = ground arith in
    rw (e) (ap (λ x. read_digits (a * 10 + x) s) (omega arith))

read_digits-digits :
    (k n : ℕ) (s : Text) → n < pow10 k → read_digits 0 (digits k n s) ≡ read_digits n s
unfolding digits
read_digits-digits zero n s h = ap (λ x. read_digits x s) (omega arith)
read_digits-digits (suc k) n s h = elim (Bool-cases (ltb n 10)) [
  | inl e ↦
      let z : n % 10 ≡ n = ground arith in
      rw (e, z) (read_digit 0 n s (ground arith) ∙ ap (λ x. read_digits x s) (omega arith))
  | inr e ↦ rw (e) (
      read_digits-digits k (n / 10) ((b'0' + n % 10) ∷ s) (omega arith)
      ∙ read_digit (n / 10) (n % 10) s (omega arith)
      ∙ ap (λ x. read_digits x s) (omega arith))
]

digits-append : (k n : ℕ) (s t : Text) → digits k n s ++ t ≡ digits k n (s ++ t)
unfolding digits
digits-append zero n s t = refl
digits-append (suc k) n s t = elim (Bool-cases (ltb n 10)) [
  | inl e ↦ rw (e) refl
  | inr e ↦ rw (e) (digits-append k (n / 10) ((b'0' + n % 10) ∷ s) t)
]

-- The first character is a digit.
digits_first :
    (k n d : ℕ) (s : Text)
    → d < 10
    → (e : ℕ) × (t : Text) × (digits k n ((b'0' + d) ∷ s) ≡ (b'0' + e) ∷ t) × (e < 10)
unfolding digits
digits_first zero n d s h = (d, s, refl, h)
digits_first (suc k) n d s h = elim (Bool-cases (ltb n 10)) [
  | inl e ↦ (n % 10, (b'0' + d) ∷ s, rw (e) refl, omega arith)
  | inr e ↦
      let (c, t, q, l) = digits_first k (n / 10) (n % 10) ((b'0' + d) ∷ s) (omega arith) in
      (c, t, rw (e) q, l)
]

decimal_first :
    (n : ℕ) (s : Text) → (e : ℕ) × (t : Text) × (digits 10 n s ≡ (b'0' + e) ∷ t) × (e < 10)
unfolding digits
decimal_first n s = elim (Bool-cases (ltb n 10)) [
  | inl e ↦ (n % 10, s, rw (e) refl, omega arith)
  | inr e ↦
      let (c, t, q, l) = digits_first 9 (n / 10) (n % 10) s (omega arith) in (c, t, rw (e) q, l)
]

abbrev pub is_digit_first : Text → Bool
is_digit_first [] = false
is_digit_first (c ∷ s) = is_digit c

read_digits_end : (n : ℕ) (s : Text) → is_digit_first s ≡ false → read_digits n s ≡ (n, s)
unfolding read_digits
read_digits_end n [] h = refl
read_digits_end n (c ∷ s) h = rw (h) refl

-- A text that starts with a digit is read as digits.
skip_spaces_digit : (c : ℕ) (t : Text) → is_digit c ≡ true → skip_spaces (c ∷ t) ≡ c ∷ t
unfolding skip_spaces
skip_spaces_digit c t h = ground arith

read_signed_digit :
    (c : ℕ) (t : Text) (n : ℕ) (s : Text)
    → is_digit c ≡ true
    → read_digits 0 (c ∷ t) ≡ (n, s)
    → read_signed (c ∷ t) ≡ some (pos n, s)
unfolding read_signed read_magnitude
read_signed_digit c t n s h e =
    let mi : (c == b'-') ≡ false = ground arith in
    let pl : (c == b'+') ≡ false = ground arith in
    rw (mi) (rw (pl) (rw (h) (ap (λ (x : ℕ × Text). some (pos x.0, x.1)) (rw (h) at e))))

strtol_digits :
    (c : ℕ) (t : Text) (n : ℕ) (s : Text)
    → is_digit c ≡ true
    → read_digits 0 (c ∷ t) ≡ (n, s)
    → n < 2 ^ 31
    → strtol (c ∷ t) ≡ (pos n, s)
unfolding strtol
strtol_digits c t n s h e b =
    simp (skip_spaces_digit c t h, read_signed_digit c t n s h e, strtol)
      (ap (λ x. (pos x, s)) (omega arith))

-- Reading a number of up to ten digits that was printed gives it back, whatever follows but a digit.
pub atoi-decimal :
    (n : ℕ) (s : Text) → n < 2 ^ 31 → is_digit_first s ≡ false → atoi (decimal n ++ s) ≡ pos n
unfolding decimal
atoi-decimal n s b h =
    let (e, t, q, l) = decimal_first n s in
    let r : strtol (digits 10 n s) ≡ (pos n, s) = rw (q) (
      strtol_digits (b'0' + e) t n s (ground arith)
        (rw (← q) (read_digits-digits 10 n s (omega arith) ∙ read_digits_end n s h)) b) in
    rw (digits-append 10 n [] s, r) (to_int32_small n b)

pub length-digits : (k n : ℕ) (s : Text) → length (digits k n s) ≤ k + length s
unfolding digits
length-digits zero n s = omega arith
length-digits (suc k) n s = ground (arith, length-digits k (n / 10) ((b'0' + n % 10) ∷ s))

pub length-decimal : (n : ℕ) → length (decimal n) ≤ 10
unfolding decimal
length-decimal n = omega (arith, length-digits 10 n [])
