-- ===== src/Common/Text/Decimal.antt =====
-- `Display` and `FromStr` of `i64`, as the Rust standard library documents them.
use Prim.Native.Nat.{ℕ, zero, suc, ◌+◌, ◌-◌, ◌*◌, ◌/◌, ◌%◌, ◌^◌, ◌≤◌, ◌<◌}
use mathlib.Core.Path.{◌≡◌, refl, ap, sym, ◌∙◌, subst}
use mathlib.Core.Logic.{◌≢◌, ◌⊎◌}
use mathlib.Core.Bool.{◌&&◌}
use mathlib.Core.List.{[], ◌∷◌}
use native.Mathlib.Decide.{dec_lt}
use native.Mathlib.Nat.{pow-suc}
use native.Mathlib.Omega.{arith}
use ducklake_sdk.Common.Tests.{ltb, leb, nat_beq, if◌then◌else◌}
use ducklake_sdk.Common.Lists.{All}
use ducklake_sdk.Common.Int.{ℤ, pos, negsuc, IsI64}
use ducklake_sdk.Common.Text.{Text, codes, Lacks}

-- The digits of `n` in front of `out`. A number below 10 ^ fuel is written whole.
digits : ℕ → ℕ → Text → Text
digits zero n out = out
digits (suc fuel) n out =
    let more = digits fuel (n / 10) ((b'0' + n % 10) ∷ out) in
    if ltb n 10 then (b'0' + n % 10) ∷ out else more

-- Every `u64` has at most twenty digits.
unfoldable pub display_nat : ℕ → Text
unfolding digits
display_nat n = digits 20 n []

unfoldable pub display_i64 : ℤ → Text
display_i64 (pos n) = display_nat n
display_i64 (negsuc n) = b'-' ∷ display_nat (suc n)

-- `ParseIntError`.
pub data ParseIntError : Type 0 where
  empty invalid_digit pos_overflow neg_overflow : ParseIntError

unfoldable pub display_parse_int_error : ParseIntError → Text
display_parse_int_error empty = codes "cannot parse integer from empty string"
display_parse_int_error invalid_digit = codes "invalid digit found in string"
display_parse_int_error pos_overflow = codes "number too large to fit in target type"
display_parse_int_error neg_overflow = codes "number too small to fit in target type"

pub data IntResult : Type 0 where
  int : ℤ → IntResult
  int_error : ParseIntError → IntResult

pub data Magnitude : Type 0 where
  magnitude : ℕ → Magnitude
  bad_digit too_big : Magnitude

-- The digits read behind `n`. The value so far may not exceed `limit`.
scan : ℕ → Text → ℕ → Magnitude
scan limit [] n = magnitude n
scan limit (c ∷ s) n =
    if leb b'0' c && leb c b'9'
    then (if ltb limit (n * 10 + (c - b'0')) then too_big else scan limit s (n * 10 + (c - b'0')))
    else bad_digit

abbrev negated : ℕ → ℤ
negated zero = pos 0
negated (suc n) = negsuc n

abbrev to_pos : Magnitude → IntResult
to_pos (magnitude n) = int (pos n)
to_pos bad_digit = int_error invalid_digit
to_pos too_big = int_error pos_overflow

abbrev to_neg : Magnitude → IntResult
to_neg (magnitude n) = int (negated n)
to_neg bad_digit = int_error invalid_digit
to_neg too_big = int_error neg_overflow

abbrev digits_only : ℕ → (Magnitude → IntResult) → Text → IntResult
digits_only limit f [] = int_error invalid_digit
digits_only limit f (c ∷ s) = f (scan limit (c ∷ s) 0)

-- `str::parse::<i64>`: an optional sign, then at least one digit, within the range of `i64`.
unfoldable pub parse_i64 : Text → IntResult
unfolding scan
parse_i64 [] = int_error empty
parse_i64 (c ∷ s) =
    if nat_beq c b'-'
    then digits_only (2 ^ 63) to_neg s
    else if nat_beq c b'+'
    then digits_only (2 ^ 63 - 1) to_pos s
    else digits_only (2 ^ 63 - 1) to_pos (c ∷ s)

min_i64 : parse_i64 (codes "-9223372036854775808") ≡ int (negsuc 9223372036854775807)
unfolding parse_i64
min_i64 = refl

beyond_max_i64 : parse_i64 (codes "9223372036854775808") ≡ int_error pos_overflow
unfolding parse_i64 scan
beyond_max_i64 = refl

-- Reading the last digit of `n` behind the digits before it gives `n`.
scan_last :
    (limit n : ℕ) (out : Text)
    → n ≤ limit
    → scan limit ((b'0' + n % 10) ∷ out) (n / 10) ≡ scan limit out n
unfolding scan
scan_last limit n out h = ground arith

digits_small : (fuel n : ℕ) (out : Text) → n < 10 → digits (suc fuel) n out ≡ (b'0' + n % 10) ∷ out
unfolding digits
digits_small fuel n out h = ground arith

digits_large :
    (fuel n : ℕ) (out : Text)
    → 10 ≤ n
    → digits (suc fuel) n out ≡ digits fuel (n / 10) ((b'0' + n % 10) ∷ out)
unfolding digits
digits_large fuel n out h = ground arith

scan-digits :
    (limit fuel n : ℕ) (out : Text)
    → n < 10 ^ fuel
    → n ≤ limit
    → scan limit (digits fuel n out) 0 ≡ scan limit out n
scan-digits limit zero n out h k =
    let e : 0 ≡ n = omega arith in unfold digits in ap (scan limit out) e
scan-digits limit (suc fuel) n out h k = elim (dec_lt n 10) [
  | yes small ↦
      ap (λ t. scan limit t 0) (digits_small fuel n out small)
      ∙ (let e : n / 10 ≡ 0 = omega arith in
          ap (scan limit ((b'0' + n % 10) ∷ out)) (sym e) ∙ scan_last limit n out k)
  | no large ↦
      ap (λ t. scan limit t 0) (digits_large fuel n out (omega arith))
      ∙ scan-digits limit fuel (n / 10) ((b'0' + n % 10) ∷ out) (omega (arith, pow-suc 10 fuel))
          (omega arith)
      ∙ scan_last limit n out k
]

-- The written digits start with a digit, and hold nothing but digits.
abbrev IsDigit : ℕ → Type 0
IsDigit c = (b'0' ≤ c) × (c ≤ b'9')

digits-IsDigit : (fuel n : ℕ) (out : Text) → All IsDigit out → All IsDigit (digits fuel n out)
digits-IsDigit zero n out h = unfold digits in h
digits-IsDigit (suc fuel) n out h = elim (dec_lt n 10) [
  | yes small ↦ subst (All IsDigit) (sym (digits_small fuel n out small)) ((omega arith), h)
  | no large ↦
      subst (All IsDigit) (sym (digits_large fuel n out (omega arith)))
        (digits-IsDigit fuel (n / 10) ((b'0' + n % 10) ∷ out) ((omega arith), h))
]

digits-ne-nil : (fuel n c : ℕ) (out : Text) → digits fuel n (c ∷ out) ≢ []
digits-ne-nil zero n c out h = unfold digits in cc
digits-ne-nil (suc fuel) n c out h = elim (dec_lt n 10) [
  | yes small ↦ let e = sym (digits_small fuel n (c ∷ out) small) ∙ h in cc
  | no large ↦
      digits-ne-nil fuel (n / 10) (b'0' + n % 10) (c ∷ out)
        (sym (digits_large fuel n (c ∷ out) (omega arith)) ∙ h)
]

digits-suc-ne-nil : (fuel n : ℕ) → digits (suc fuel) n [] ≢ []
digits-suc-ne-nil fuel n h = elim (dec_lt n 10) [
  | yes small ↦ let e = sym (digits_small fuel n [] small) ∙ h in cc
  | no large ↦
      digits-ne-nil fuel (n / 10) (b'0' + n % 10) []
        (sym (digits_large fuel n [] (omega arith)) ∙ h)
]

display_nat-ne-nil : (n : ℕ) → display_nat n ≢ []
display_nat-ne-nil n h = digits-suc-ne-nil 19 n (unfold display_nat in h)

display_nat-IsDigit : (n : ℕ) → All IsDigit (display_nat n)
display_nat-IsDigit n = unfold display_nat in digits-IsDigit 20 n [] tt

scan_end : (limit n : ℕ) → scan limit [] n ≡ magnitude n
scan_end limit n = unfold scan in refl

scan-display_nat :
    (limit n : ℕ) → n < 10 ^ 20 → n ≤ limit → scan limit (display_nat n) 0 ≡ magnitude n
unfolding display_nat
scan-display_nat limit n h k = scan-digits limit 20 n [] h k ∙ scan_end limit n

IsDigit-Lacks : (c : ℕ) (s : Text) → (c < b'0') ⊎ (b'9' < c) → All IsDigit s → Lacks c s
IsDigit-Lacks c [] h k = tt
IsDigit-Lacks c (d ∷ s) h k = ((omega arith), IsDigit-Lacks c s h k.1)

-- A number holds no character but digits and the sign.
pub display_i64-Lacks :
    (c : ℕ) (n : ℤ) → (c < b'0') ⊎ (b'9' < c) → c ≢ b'-' → Lacks c (display_i64 n)
unfolding display_i64
display_i64-Lacks c (pos n) h k = IsDigit-Lacks c (display_nat n) h (display_nat-IsDigit n)
display_i64-Lacks c (negsuc n) h k =
    ((λ e. k (sym e)), IsDigit-Lacks c (display_nat (suc n)) h (display_nat-IsDigit (suc n)))

parse_digits : (t : Text) → t ≢ [] → All IsDigit t → parse_i64 t ≡ to_pos (scan (2 ^ 63 - 1) t 0)
parse_digits [] h k = absurd (h refl)
parse_digits (c ∷ s) h k = first c s k.0
  where
    first :
        (c : ℕ) (s : Text) → IsDigit c → parse_i64 (c ∷ s) ≡ to_pos (scan (2 ^ 63 - 1) (c ∷ s) 0)
    first c s d = unfold parse_i64 in ground arith

digits_only-cons :
    (limit : ℕ) (f : Magnitude → IntResult) (t : Text)
    → t ≢ []
    → digits_only limit f t ≡ f (scan limit t 0)
digits_only-cons limit f [] h = absurd (h refl)
digits_only-cons limit f (c ∷ s) h = refl

parse_minus : (t : Text) → parse_i64 (b'-' ∷ t) ≡ digits_only (2 ^ 63) to_neg t
parse_minus t = unfold parse_i64 in refl

-- Every `i64` is read back from its decimal print.
pub parse-display_i64 : (n : ℤ) → IsI64 n → parse_i64 (display_i64 n) ≡ int n
unfolding display_i64
parse-display_i64 (pos n) h =
    parse_digits (display_nat n) (display_nat-ne-nil n) (display_nat-IsDigit n)
    ∙ ap to_pos (scan-display_nat (2 ^ 63 - 1) n (omega arith) (omega arith))
parse-display_i64 (negsuc n) h =
    parse_minus (display_nat (suc n))
    ∙ digits_only-cons (2 ^ 63) to_neg (display_nat (suc n)) (display_nat-ne-nil (suc n))
    ∙ ap to_neg (scan-display_nat (2 ^ 63) (suc n) (omega arith) (omega arith))
