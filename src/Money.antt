-- ===== src/Money.antt =====
-- Amounts of money as text: the formatting helpers of server/internal/domain/billing.go. An amount is
-- an int64; the digits of `math.MinInt64`, whose negation is itself, are not covered.
mod Digits
mod Signs
mod Tests
use featuresignals_unified.Base.{
  ℕ, zero, suc, ◌+◌, ◌*◌, ◌/◌, ◌%◌, Bool, true, false, ◌&&◌, List, [], ◌∷◌, ◌++◌, ltb, ◌==◌, length,
  if◌then◌else◌,
}
use featuresignals_unified.Base.Int.{ℤ, pos, negsuc}
use featuresignals_unified.Base.Text.{Text, bytes}

-- The loop of intToStr, which writes the digits from the last to the first in front of `buf`. The
-- fuel is the number itself, which bounds its digits.
unfoldable pub digits_loop : ℕ → ℕ → Text → Text
digits_loop zero n buf = buf
digits_loop (suc fuel) n buf =
    let rest = digits_loop fuel (n / 10) ((48 + n % 10) ∷ buf) in if n == 0 then buf else rest

-- intToStr of a number that is not negative.
unfoldable pub nat_to_str : ℕ → Text
unfolding digits_loop
nat_to_str n = if n == 0 then bytes "0" else digits_loop n n []

-- intToStr
unfoldable pub int_to_str : ℤ → Text
unfolding nat_to_str
int_to_str (pos n) = nat_to_str n
int_to_str (negsuc n) = 45 ∷ nat_to_str (suc n)

-- The loop of formatIntWithCommas over the bytes of `s` from the last to the first: a comma (44) goes
-- in front of every third digit but the first that is written. Here the loop takes the bytes from the
-- first on; `length s` is then the number of bytes behind.
unfoldable pub commas : Text → Text
commas [] = []
commas (c ∷ s) =
    let rest = commas s in if ltb 0 (length s) && length s % 3 == 0 then c ∷ 44 ∷ rest else c ∷ rest

-- formatIntWithCommas of a number that is not negative, as its callers pass.
unfoldable pub format_int_with_commas : ℕ → Text
unfolding commas nat_to_str
format_int_with_commas n = if n == 0 then bytes "0" else commas (nat_to_str n)

unfoldable pub pad_two_digits : ℕ → Text
unfolding nat_to_str
pad_two_digits n = if ltb n 10 then 48 ∷ nat_to_str n else nat_to_str n

-- The whole units, a point (46), and two digits.
unfoldable pub format_amount : ℕ → Text
unfolding format_int_with_commas pad_two_digits
format_amount n = format_int_with_commas (n / 100) ++ 46 ∷ pad_two_digits (n % 100)

-- FormatPaiseToINR and FormatPaiseToUSD, which do the same.
unfoldable pub format_paise_to_inr : ℤ → Text
unfolding format_amount
format_paise_to_inr (pos n) = format_amount n
format_paise_to_inr (negsuc n) = 45 ∷ format_amount (suc n)

unfoldable pub format_paise_to_usd : ℤ → Text
unfolding format_amount
format_paise_to_usd (pos n) = format_amount n
format_paise_to_usd (negsuc n) = 45 ∷ format_amount (suc n)
