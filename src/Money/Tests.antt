-- ===== src/Money/Tests.antt =====
-- Tests and witnesses of the amounts of money.
use featuresignals_unified.Base.{◌≡◌, refl}
use featuresignals_unified.Base.Int.{pos, negsuc}
use featuresignals_unified.Base.Text.{bytes}
use featuresignals_unified.Money.{int_to_str, format_paise_to_inr, format_paise_to_usd}
use featuresignals_unified.Money.Signs.{read_signed, read_signed-format_paise_to_inr}

format_paise_to_inr_test : format_paise_to_inr (pos 199900) ≡ bytes "1,999.00"
unfolding format_paise_to_inr
format_paise_to_inr_test = refl

format_paise_to_inr_million_test : format_paise_to_inr (negsuc 123456708) ≡ bytes "-1,234,567.09"
unfolding format_paise_to_inr
format_paise_to_inr_million_test = refl

format_paise_to_usd_test : format_paise_to_usd (pos 2900) ≡ bytes "29.00"
unfolding format_paise_to_usd
format_paise_to_usd_test = refl

int_to_str_test : int_to_str (negsuc 41) ≡ bytes "-42"
unfolding int_to_str
int_to_str_test = refl

read_signed-format_paise_to_inr_example :
    read_signed (format_paise_to_inr (negsuc 123456708)) ≡ negsuc 123456708
read_signed-format_paise_to_inr_example = read_signed-format_paise_to_inr (negsuc 123456708)
