-- ===== src/Domain/Tests.antt =====
-- The theorems on the domain types at concrete texts and records.
use kfc_userapi.Prelude.{◌≡◌, refl, arith}
use kfc_userapi.Prelude.Text.{is_digit, AllDigits}
use kfc_userapi.Domain.Phone.{normalize_phone}
use kfc_userapi.Domain.Phone.Laws.{IsNormal, normalize_phone-IsNormal, normalize_phone_habits}
use kfc_userapi.Domain.Loyalty.{parse_member_code, qr_payload}
use kfc_userapi.Domain.Loyalty.Laws.{parse_member_code_reads}

normalize_phone-IsNormal_example : IsNormal (normalize_phone "8 (916) 123-45-67")
normalize_phone-IsNormal_example = normalize_phone-IsNormal "8 (916) 123-45-67"

sample_digits : AllDigits "9161234567"
unfolding is_digit
sample_digits = ground arith

normalize_phone_habits_example :
    (normalize_phone "9161234567" ≡ "+79161234567")
    × (normalize_phone "89161234567" ≡ "+79161234567")
    × (normalize_phone "+79161234567" ≡ "+79161234567")
normalize_phone_habits_example = normalize_phone_habits "9161234567" sample_digits refl refl

sample_code : AllDigits "123"
unfolding is_digit
sample_code = ground arith

parse_member_code_reads_example :
    (parse_member_code (qr_payload "123") ≡ "123")
    × (parse_member_code "123" ≡ "123")
    × AllDigits (parse_member_code " kfc 42 ")
parse_member_code_reads_example = parse_member_code_reads "123" " kfc 42 " sample_code
