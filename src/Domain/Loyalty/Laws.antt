-- ===== src/Domain/Loyalty/Laws.antt =====
-- The reading of member codes, and what a kiosk is told of a member: internal/domain/loyalty.go.
use Prim.Native.String.{◌++◌}
use kfc_userapi.Prelude.{String, ◌≡◌, refl, arith}
use kfc_userapi.Prelude.Int.{ℤ}
use kfc_userapi.Prelude.Text.{
  trim_space, trim_prefix, digits, AllDigits, digits-AllDigits, digits_of_AllDigits, is_digit,
  is_space, strip_prefix-append, NoSpaces, NoSpaces-append, NoSpaces-of_AllDigits,
  trim_space_of_NoSpaces,
}
use kfc_userapi.Domain.Loyalty.{
  qr_prefix, parse_member_code, qr_payload, ProtoMember, for_kiosk, member_from_proto,
}

parse_member_code_lem :
    (raw : String) → parse_member_code raw ≡ digits (trim_prefix (trim_space raw) qr_prefix)
unfolding parse_member_code
parse_member_code_lem raw = refl

qr_prefix-NoSpaces : NoSpaces qr_prefix
unfolding is_space
qr_prefix-NoSpaces = ground arith

trim_prefix-append : (p s : String) → trim_prefix (p ++ s) p ≡ s
unfolding trim_prefix
trim_prefix-append p s = rw (trim_prefix, strip_prefix-append p s) refl

parse_member_code-qr_payload : (c : String) → AllDigits c → parse_member_code (qr_payload c) ≡ c
unfolding qr_payload
parse_member_code-qr_payload c h =
    rw
      (
        parse_member_code_lem (qr_prefix ++ c),
        trim_space_of_NoSpaces (qr_prefix ++ c)
            (NoSpaces-append qr_prefix c qr_prefix-NoSpaces (NoSpaces-of_AllDigits c h)),
        trim_prefix-append qr_prefix c,
      )
      (digits_of_AllDigits c h)

trim_prefix-digits : (c : String) → AllDigits c → trim_prefix c qr_prefix ≡ c
unfolding trim_prefix is_digit
trim_prefix-digits String.[] h = refl
trim_prefix-digits (String.◌∷◌ d s) h = ground arith

parse_member_code-typed : (c : String) → AllDigits c → parse_member_code c ≡ c
parse_member_code-typed c h =
    rw
      (
        parse_member_code_lem c,
        trim_space_of_NoSpaces c (NoSpaces-of_AllDigits c h),
        trim_prefix-digits c h,
      )
      (digits_of_AllDigits c h)

pub parse_member_code-AllDigits : (raw : String) → AllDigits (parse_member_code raw)
parse_member_code-AllDigits raw =
    rw (parse_member_code_lem raw) (digits-AllDigits (trim_prefix (trim_space raw) qr_prefix))

-- A code of digits is read back from its QR payload and from the keypad, and whatever else a
-- kiosk sends, only digits are passed on.
pub parse_member_code_reads :
    (c raw : String)
    → AllDigits c
    → (parse_member_code (qr_payload c) ≡ c)
      × (parse_member_code c ≡ c)
      × AllDigits (parse_member_code raw)
parse_member_code_reads c raw h =
    (parse_member_code-qr_payload c h, parse_member_code-typed c h, parse_member_code-AllDigits raw)

-- What a kiosk is told of a member does not depend on the phone, the email, the lifetime points
-- or the date of joining.
pub for_kiosk-private :
    (m : ProtoMember) (phone email : String) (lifetime created : ℤ)
    → for_kiosk (
        member_from_proto (record m {
          phone = phone;
          email = email;
          lifetime_points = lifetime;
          created_at = created;
        }))
      ≡ for_kiosk (member_from_proto m)
unfolding for_kiosk member_from_proto
for_kiosk-private m phone email lifetime created = refl
