-- ===== src/Domain/Phone.antt =====
-- NormalizePhone and MaskPhone of internal/domain/customer.go. The texts that are masked are
-- normalised numbers, where a byte is a code point.
pub mod Laws
use Prim.Native.Char.{Char, code}
use Prim.Native.String.{◌++◌}
use kfc_userapi.Prelude.{
  ℕ, zero, suc, ◌-◌, String, Bool, false, not, ◌&&◌, ◌||◌, ltb, eqb, if◌then◌else◌,
}
use kfc_userapi.Prelude.Text.{trim_space, digits, rune_count}

-- len(s) > 0 && s[0] == c
abbrev pub starts_with_code : ℕ → String → Bool
starts_with_code c String.[] = false
starts_with_code c (String.◌∷◌ d s) = eqb (code d) c

-- s[1:]
abbrev pub tail : String → String
tail String.[] = ""
tail (String.◌∷◌ c s) = s

-- the switch: national forms get the country code
unfoldable pub with_country : Bool → String → String
with_country plus d =
    if not plus && eqb (rune_count d) 11 && starts_with_code b'8' d
    then String.◌∷◌ "7" (tail d)
    else if not plus && eqb (rune_count d) 10 && starts_with_code b'9' d
    then String.◌∷◌ "7" d
    else d

unfoldable pub checked : String → String
checked d =
    if ltb (rune_count d) 10 || ltb 15 (rune_count d) || starts_with_code b'0' d
    then ""
    else String.◌∷◌ "+" d

unfoldable pub normalize_phone : String → String
unfolding with_country checked trim_space digits
normalize_phone raw = checked (with_country (starts_with_code b'+' (trim_space raw)) (digits raw))

-- s[:n] and s[n:]
unfoldable pub take : ℕ → String → String
take zero s = ""
take (suc n) String.[] = ""
take (suc n) (String.◌∷◌ c s) = String.◌∷◌ c (take n s)

unfoldable pub drop : ℕ → String → String
drop zero s = s
drop (suc n) String.[] = ""
drop (suc n) (String.◌∷◌ c s) = drop n s

unfoldable pub mask_phone : String → String
unfolding take drop
mask_phone p =
    if ltb (rune_count p) 8 then "***" else (take 5 p ++ "***") ++ drop (rune_count p - 4) p
