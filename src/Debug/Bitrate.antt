-- ===== src/Debug/Bitrate.antt =====
-- cam2_dbg_set_max_bitrate of app/src/main/cpp/cam2_streamout_debug.cpp: a number with the suffix K, M
-- or G.
use my_stream_out_app.Base.{
  ℕ, ◌*◌, ◌-◌, ◌^◌, ◌<◌, ◌≤◌, ◌≡◌, refl, Bool, false, ◌||◌, Option, none, some, [], ◌∷◌, ◌==◌,
  if◌then◌else◌, arith, ap, ◌∙◌,
}
use my_stream_out_app.Base.Int.{ℤ, pos, negsuc, to_int32, to_int32_small, to_int32_big}
use my_stream_out_app.Base.Text.{Text, codes}
use my_stream_out_app.Debug.Jni.{Java, set_int}

-- `double`, as far as the command uses it: `strtod` (`none` when it reads nothing, otherwise the value
-- and the text behind it), the product with a power of ten, the test against 0 and the cast to `long`.
-- Whole numbers below 2^53 are exact.
pub record Floating : Type 1 where
  pub Double : Type 0
  pub strtod : Text → Option (Double × Text)
  pub times : Double → ℕ → Double
  pub is_negative : Double → Bool
  pub to_long : Double → ℤ
  pub of_nat : ℕ → Double
  pub times_exact : (n k : ℕ) → n * k < 2 ^ 53 → times (of_nat n) k ≡ of_nat (n * k)
  pub is_negative_exact : (n : ℕ) → is_negative (of_nat n) ≡ false
  pub to_long_exact : (n : ℕ) → n < 2 ^ 53 → to_long (of_nat n) ≡ pos n

-- The switch on the character behind the number; only that one is looked at. `some none` is no
-- suffix.
unfoldable pub multiplier : Text → Option (Option ℕ)
multiplier [] = some none
multiplier (c ∷ s) =
    if c == b'k' || c == b'K'
    then some (some 1000)
    else if c == b'm' || c == b'M'
    then some (some 1000000)
    else if c == b'g' || c == b'G'
    then some (some 1000000000)
    else none

abbrev scale : (F : Floating) → F.Double → Option ℕ → F.Double
scale F v none = v
scale F v (some k) = F.times v k

unfoldable pub dbg_set_max_bitrate : Floating → Text → Option Java
dbg_set_max_bitrate F s = elim (F.strtod s) [
  | none ↦ none
  | some (v, rest) ↦ elim (multiplier rest) [
    | none ↦ none
    | some k ↦
        if F.is_negative (scale F v k)
        then none
        else some (set_int (codes "setMaxBitRate") (to_int32 (F.to_long (scale F v k))))
  ]
]

-- The factor that a suffix stands for.
abbrev pub factor : Option ℕ → ℕ
factor none = 1
factor (some k) = k

scale_exact :
    (F : Floating) (n : ℕ) (k : Option ℕ)
    → n * factor k < 2 ^ 53
    → scale F (F.of_nat n) k ≡ F.of_nat (n * factor k)
scale_exact F n none h = ap F.of_nat (omega arith)
scale_exact F n (some k) h = F.times_exact n k h

dbg_set_max_bitrate_value :
    (F : Floating) (s rest : Text) (n : ℕ) (k : Option ℕ)
    → F.strtod s ≡ some (F.of_nat n, rest)
    → multiplier rest ≡ some k
    → n * factor k < 2 ^ 53
    → dbg_set_max_bitrate F s
      ≡ some (set_int (codes "setMaxBitRate") (to_int32 (pos (n * factor k))))
unfolding dbg_set_max_bitrate
dbg_set_max_bitrate_value F s rest n k e m h =
    simp
      (
        e,
        m,
        scale_exact F n k h,
        F.is_negative_exact (n * factor k),
        F.to_long_exact (n * factor k) h,
        dbg_set_max_bitrate,
      )
      refl

-- A whole number with the suffix K, M, G or none, whose product is below 2^31, is the bit rate that
-- Java gets.
pub dbg_set_max_bitrate_exact :
    (F : Floating) (s rest : Text) (n : ℕ) (k : Option ℕ)
    → F.strtod s ≡ some (F.of_nat n, rest)
    → multiplier rest ≡ some k
    → n * factor k < 2 ^ 31
    → dbg_set_max_bitrate F s ≡ some (set_int (codes "setMaxBitRate") (pos (n * factor k)))
dbg_set_max_bitrate_exact F s rest n k e m h =
    dbg_set_max_bitrate_value F s rest n k e m (omega arith)
    ∙ ap (λ z. some (set_int (codes "setMaxBitRate") z)) (to_int32_small (n * factor k) h)

-- From 2^31 to 2^32 - 1 the product passes the test for a negative number, and Java gets a negative
-- bit rate.
pub dbg_set_max_bitrate_wraps :
    (F : Floating) (s rest : Text) (n : ℕ) (k : Option ℕ)
    → F.strtod s ≡ some (F.of_nat n, rest)
    → multiplier rest ≡ some k
    → 2 ^ 31 ≤ n * factor k
    → n * factor k < 2 ^ 32
    → dbg_set_max_bitrate F s
      ≡ some (set_int (codes "setMaxBitRate") (negsuc (2 ^ 32 - 1 - n * factor k)))
dbg_set_max_bitrate_wraps F s rest n k e m l h =
    dbg_set_max_bitrate_value F s rest n k e m (omega arith)
    ∙ ap (λ z. some (set_int (codes "setMaxBitRate") z)) (to_int32_big (n * factor k) l h)
