-- ===== src/Money/Signs.antt =====
-- Reading amounts back with their sign: the formatting helpers of server/internal/domain/billing.go.
use featuresignals_unified.Base.{
  ℕ, zero, suc, ◌+◌, ◌/◌, ◌%◌, ◌≡◌, refl, ap, ◌∙◌, inl, inr, Bool, true, false, ◌&&◌, ◌||◌,
  Bool-cases, [], ◌∷◌, ◌++◌, ltb, ◌==◌, length, arith, if◌then◌else◌,
}
use featuresignals_unified.Base.Int.{ℤ, pos, negsuc}
use featuresignals_unified.Base.Text.{Text}
use featuresignals_unified.Money.{
  digits_loop, nat_to_str, commas, format_int_with_commas, pad_two_digits, format_amount,
  format_paise_to_inr,
}
use featuresignals_unified.Money.Digits.{
  read, read-format_amount, nat_to_str-suc, format_int_with_commas-suc,
}

-- Minus signs (45).
or_false_intro : {a b : Bool} → a ≡ false → b ≡ false → a || b ≡ false
or_false_intro h k = rw (h, k) refl

or_false_left : (a b : Bool) → a || b ≡ false → a ≡ false
or_false_left false b h = refl
or_false_left true b h = h

or_false_right : (a b : Bool) → a || b ≡ false → b ≡ false
or_false_right false b h = h
or_false_right true false h = refl
or_false_right true true h = h

unfoldable pub has_minus : Text → Bool
has_minus [] = false
has_minus (c ∷ s) = c == 45 || has_minus s

has_minus-append :
    (s t : Text) → has_minus s ≡ false → has_minus t ≡ false → has_minus (s ++ t) ≡ false
unfolding has_minus
has_minus-append [] t h k = k
has_minus-append (c ∷ s) t h k =
    or_false_intro (or_false_left (c == 45) (has_minus s) h)
      (has_minus-append s t (or_false_right (c == 45) (has_minus s) h) k)

has_minus-digits_loop :
    (fuel n : ℕ) (buf : Text) → has_minus buf ≡ false → has_minus (digits_loop fuel n buf) ≡ false
unfolding digits_loop has_minus
has_minus-digits_loop zero n buf h = h
has_minus-digits_loop (suc fuel) n buf h = elim (Bool-cases (n == 0)) [
  | inl t ↦ rw t h
  | inr f ↦
      rw f (
        has_minus-digits_loop fuel (n / 10) ((48 + n % 10) ∷ buf) (or_false_intro (ground arith) h))
]

has_minus-nat_to_str : (n : ℕ) → has_minus (nat_to_str n) ≡ false
unfolding nat_to_str has_minus
has_minus-nat_to_str zero = refl
has_minus-nat_to_str (suc n) =
    ap has_minus (nat_to_str-suc n) ∙ has_minus-digits_loop (suc n) (suc n) [] refl

has_minus-commas : (s : Text) → has_minus s ≡ false → has_minus (commas s) ≡ false
unfolding commas has_minus
has_minus-commas [] h = refl
has_minus-commas (c ∷ s) h = elim (Bool-cases (ltb 0 (length s) && length s % 3 == 0)) [
  | inl t ↦ rw t (
      or_false_intro (or_false_left (c == 45) (has_minus s) h)
        (has_minus-commas s (or_false_right (c == 45) (has_minus s) h)))
  | inr f ↦ rw f (
      or_false_intro (or_false_left (c == 45) (has_minus s) h)
        (has_minus-commas s (or_false_right (c == 45) (has_minus s) h)))
]

has_minus-format_int_with_commas : (n : ℕ) → has_minus (format_int_with_commas n) ≡ false
unfolding format_int_with_commas has_minus
has_minus-format_int_with_commas zero = refl
has_minus-format_int_with_commas (suc n) =
    ap has_minus (format_int_with_commas-suc n)
    ∙ has_minus-commas (nat_to_str (suc n)) (has_minus-nat_to_str (suc n))

has_minus-pad_two_digits : (n : ℕ) → has_minus (pad_two_digits n) ≡ false
unfolding pad_two_digits has_minus
has_minus-pad_two_digits n = elim (Bool-cases (ltb n 10)) [
  | inl t ↦ rw t (has_minus-nat_to_str n)
  | inr f ↦ rw f (has_minus-nat_to_str n)
]

has_minus-format_amount : (n : ℕ) → has_minus (format_amount n) ≡ false
unfolding format_amount has_minus
has_minus-format_amount n =
    has_minus-append (format_int_with_commas (n / 100)) (46 ∷ pad_two_digits (n % 100))
      (has_minus-format_int_with_commas (n / 100)) (has_minus-pad_two_digits (n % 100))

-- The number that an amount writes, below zero when it has a minus sign.
unfoldable pub below_zero : ℕ → ℤ
below_zero zero = pos zero
below_zero (suc n) = negsuc n

unfoldable pub read_signed : Text → ℤ
unfolding has_minus read below_zero
read_signed s = if has_minus s then below_zero (read 0 s) else pos (read 0 s)

-- The amount in paise that FormatPaiseToINR writes is read back, with its sign, when the commas and the
-- point are passed over: no digit is lost, and the last two are always written.
pub read_signed-format_paise_to_inr : (z : ℤ) → read_signed (format_paise_to_inr z) ≡ z
unfolding read_signed format_paise_to_inr has_minus read below_zero
read_signed-format_paise_to_inr (pos n) =
    rw (has_minus-format_amount n) (ap pos (read-format_amount n))
read_signed-format_paise_to_inr (negsuc n) = ap below_zero (read-format_amount (suc n))
