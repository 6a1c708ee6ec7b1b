-- ===== src/Money/Digits.antt =====
-- Reading amounts back: the formatting helpers of server/internal/domain/billing.go.
use mathlib.Core.List.{append_assoc}
use featuresignals_unified.Base.{
  ℕ, zero, suc, ◌+◌, ◌-◌, ◌*◌, ◌/◌, ◌%◌, ◌≤◌, ◌<◌, ◌≡◌, refl, sym, ap, ◌∙◌, inl, inr, Bool, false,
  ◌&&◌, Bool-cases, [], ◌∷◌, ◌++◌, ltb, ◌==◌, length, arith, if◌then◌else◌,
}
use featuresignals_unified.Base.Text.{Text}
use featuresignals_unified.Money.{
  digits_loop, nat_to_str, commas, format_int_with_commas, pad_two_digits, format_amount,
}

-- The number that the digits of a text write, other bytes being passed over.
abbrev pub is_digit : ℕ → Bool
is_digit c = ltb 47 c && ltb c 58

unfoldable pub read : ℕ → Text → ℕ
read n [] = n
read n (c ∷ s) = read (if is_digit c then n * 10 + (c - 48) else n) s

read-append : (n : ℕ) (s t : Text) → read n (s ++ t) ≡ read (read n s) t
unfolding read
read-append n [] t = refl
read-append n (c ∷ s) t = read-append (if is_digit c then n * 10 + (c - 48) else n) s t

digits_loop-append :
    (fuel n : ℕ) (buf : Text) → digits_loop fuel n buf ≡ digits_loop fuel n [] ++ buf
unfolding digits_loop
digits_loop-append zero n buf = refl
digits_loop-append (suc fuel) n buf = elim (Bool-cases (n == 0)) [
  | inl t ↦ rw t refl
  | inr f ↦ rw f (
      digits_loop-append fuel (n / 10) ((48 + n % 10) ∷ buf)
      ∙ sym (append_assoc (digits_loop fuel (n / 10) []) ((48 + n % 10) ∷ []) buf)
      ∙ ap (λ x. x ++ buf) (sym (digits_loop-append fuel (n / 10) ((48 + n % 10) ∷ []))))
]

not_zero : (n : ℕ) → (suc n == 0) ≡ false
not_zero n = ground arith

digit_step : (n : ℕ) → read (n / 10) ((48 + n % 10) ∷ []) ≡ n
unfolding read
digit_step n = ground arith

read-digits_loop : (fuel n : ℕ) → n ≤ fuel → read 0 (digits_loop fuel n []) ≡ n
unfolding digits_loop read
read-digits_loop zero n h = (omega arith)
read-digits_loop (suc fuel) n h = elim (Bool-cases (n == 0)) [
  | inl t ↦ rw t (ground (arith, t))
  | inr f ↦ rw f (
      ap (read 0) (digits_loop-append fuel (n / 10) ((48 + n % 10) ∷ []))
      ∙ read-append 0 (digits_loop fuel (n / 10) []) ((48 + n % 10) ∷ [])
      ∙ ap (λ x. read x ((48 + n % 10) ∷ [])) (read-digits_loop fuel (n / 10) (ground (arith, f)))
      ∙ digit_step n)
]

pub nat_to_str-suc : (n : ℕ) → nat_to_str (suc n) ≡ digits_loop (suc n) (suc n) []
unfolding nat_to_str
nat_to_str-suc n = rw (not_zero n) refl

pub format_int_with_commas-suc :
    (n : ℕ) → format_int_with_commas (suc n) ≡ commas (nat_to_str (suc n))
unfolding format_int_with_commas
format_int_with_commas-suc n = rw (not_zero n) refl

read-nat_to_str : (n : ℕ) → read 0 (nat_to_str n) ≡ n
unfolding nat_to_str read
read-nat_to_str zero = refl
read-nat_to_str (suc n) =
    ap (read 0) (nat_to_str-suc n) ∙ read-digits_loop (suc n) (suc n) (omega arith)

read-commas : (n : ℕ) (s : Text) → read n (commas s) ≡ read n s
unfolding read commas
read-commas n [] = refl
read-commas n (c ∷ s) = elim (Bool-cases (ltb 0 (length s) && length s % 3 == 0)) [
  | inl t ↦ rw t (read-commas (if is_digit c then n * 10 + (c - 48) else n) s)
  | inr f ↦ rw f (read-commas (if is_digit c then n * 10 + (c - 48) else n) s)
]

read-format_int_with_commas : (n : ℕ) → read 0 (format_int_with_commas n) ≡ n
unfolding format_int_with_commas read
read-format_int_with_commas zero = refl
read-format_int_with_commas (suc n) =
    ap (read 0) (format_int_with_commas-suc n)
    ∙ read-commas 0 (nat_to_str (suc n))
    ∙ read-nat_to_str (suc n)

digits_loop-zero : (fuel : ℕ) (buf : Text) → digits_loop fuel 0 buf ≡ buf
unfolding digits_loop
digits_loop-zero zero buf = refl
digits_loop-zero (suc fuel) buf = refl

digits_loop_digit :
    (fuel n : ℕ) (buf : Text) → 0 < n → n < 10 → digits_loop (suc fuel) n buf ≡ (48 + n) ∷ buf
unfolding digits_loop
digits_loop_digit fuel n buf h k = elim (Bool-cases (n == 0)) [
  | inl t ↦ ground (arith, t)
  | inr f ↦ rw f (rw (small, rest) (digits_loop-zero fuel ((48 + n) ∷ buf)))
]
  where
    small : n / 10 ≡ 0
    small = omega arith

    rest : n % 10 ≡ n
    rest = omega arith

read_one : (n r : ℕ) (s : Text) → r < 10 → read n ((48 + r) ∷ s) ≡ read (n * 10 + r) s
unfolding read
read_one n r s h = ap (λ x. read x s) value
  where
    value : (if is_digit (48 + r) then n * 10 + ((48 + r) - 48) else n) ≡ n * 10 + r
    value = ground arith

read_pair :
    (m a b : ℕ) → a < 10 → b < 10 → read m ((48 + a) ∷ (48 + b) ∷ []) ≡ (m * 10 + a) * 10 + b
unfolding read
read_pair m a b h k = read_one m a ((48 + b) ∷ []) h ∙ read_one (m * 10 + a) b [] k

nat_to_str_digit : (r : ℕ) → r < 10 → nat_to_str r ≡ (48 + r) ∷ []
unfolding nat_to_str
nat_to_str_digit zero h = refl
nat_to_str_digit (suc r) h = nat_to_str-suc r ∙ digits_loop_digit r (suc r) [] (omega arith) h

digits_loop_two :
    (fuel n : ℕ)
    → 9 < n
    → n < 100
    → digits_loop (suc (suc fuel)) n [] ≡ (48 + n / 10) ∷ (48 + n % 10) ∷ []
unfolding digits_loop
digits_loop_two fuel n h k = elim (Bool-cases (n == 0)) [
  | inl t ↦ ground (arith, t)
  | inr f ↦ rw f (digits_loop_digit fuel (n / 10) ((48 + n % 10) ∷ []) (omega arith) (omega arith))
]

nat_to_str_two : (n : ℕ) → 9 < n → n < 100 → nat_to_str n ≡ (48 + n / 10) ∷ (48 + n % 10) ∷ []
nat_to_str_two zero h k = absurd (omega arith)
nat_to_str_two (suc zero) h k = absurd (omega arith)
nat_to_str_two (suc (suc n)) h k = nat_to_str-suc (suc n) ∙ digits_loop_two n (suc (suc n)) h k

read-pad_two_digits : (m n : ℕ) → n < 100 → read m (pad_two_digits n) ≡ m * 100 + n
unfolding pad_two_digits
read-pad_two_digits m n h = elim (Bool-cases (ltb n 10)) [
  | inl t ↦ rw t (
      ap (λ x. read m (48 ∷ x)) (nat_to_str_digit n (ground (arith, t)))
      ∙ read_pair m 0 n (omega arith) (ground (arith, t))
      ∙ omega arith)
  | inr f ↦ rw f (
      ap (read m) (nat_to_str_two n (ground (arith, f)) h)
      ∙ read_pair m (n / 10) (n % 10) (omega arith) (omega arith)
      ∙ omega arith)
]

pub read-format_amount : (n : ℕ) → read 0 (format_amount n) ≡ n
unfolding format_amount read
read-format_amount n =
    read-append 0 (format_int_with_commas (n / 100)) (46 ∷ pad_two_digits (n % 100))
    ∙ ap (λ x. read x (pad_two_digits (n % 100))) (read-format_int_with_commas (n / 100))
    ∙ read-pad_two_digits (n / 100) (n % 100) (omega arith)
    ∙ omega arith
