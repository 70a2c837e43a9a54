-- ===== src/Domain/Phone/Laws.antt =====
-- What a normalised phone number looks like, and what a masked one shows.
use Prim.Native.Char.{code}
use Prim.Native.String.{◌++◌}
use text.Mathlib.TextLemmas.{nil-append, cons-append, append_assoc}
use kfc_userapi.Prelude.{
  ℕ, zero, suc, ◌+◌, ◌-◌, ◌≤◌, String, ◌≡◌, refl, ap, Bool, true, false, ◌⊎◌, inl, inr, arith,
  Bool-cases, ltb,
}
use kfc_userapi.Prelude.Text.{
  is_digit, is_space, trim_right, keep_right, trim_space, digits, rune_count, AllDigits,
  digits-AllDigits, digits_of_AllDigits, rune_count-append,
}
use kfc_userapi.Domain.Phone.{
  starts_with_code, with_country, checked, normalize_phone, take, drop, mask_phone,
}

-- ITU E.164: a plus sign and 10 to 15 digits, the first of them no zero.
pub record IsNumber (d : String) : Type 0 where
  pub numeric : AllDigits d
  pub at_least : 10 ≤ rune_count d
  pub at_most : rune_count d ≤ 15
  pub no_zero : starts_with_code b'0' d ≡ false

abbrev pub IsNormal : String → Type 0
IsNormal s = (s ≡ "") ⊎ ((d : String) × (s ≡ String.◌∷◌ "+" d) × IsNumber d)

with_country-AllDigits : (plus : Bool) (d : String) → AllDigits d → AllDigits (with_country plus d)
unfolding with_country is_digit
with_country-AllDigits true d h = h
with_country-AllDigits false String.[] h = h
with_country-AllDigits false (String.◌∷◌ c s) h = ground arith

checked-IsNormal : (d : String) → AllDigits d → IsNormal (checked d)
unfolding checked
checked-IsNormal d h = elim (Bool-cases (ltb (rune_count d) 10)) [
  | inl short ↦ inl (ground arith)
  | inr a ↦ elim (Bool-cases (ltb 15 (rune_count d))) [
    | inl long ↦ inl (ground arith)
    | inr b ↦ elim (Bool-cases (starts_with_code b'0' d)) [
      | inl z ↦ inl (rw (a, b, z) refl)
      | inr z ↦ inr (
        d,
        rw (a, b, z) refl,
        record { numeric = h; at_least = ground arith; at_most = ground arith; no_zero = z },
      )
    ]
  ]
]

-- Whatever a client sends, the normalised phone is empty or a plus sign with 10 to 15 digits, the
-- first of them no zero.
pub normalize_phone-IsNormal : (raw : String) → IsNormal (normalize_phone raw)
unfolding normalize_phone
normalize_phone-IsNormal raw =
    let plus = starts_with_code b'+' (trim_space raw) in
    checked-IsNormal (with_country plus (digits raw))
      (with_country-AllDigits plus (digits raw) (digits-AllDigits raw))

keep_right-plus : (s : String) → starts_with_code b'+' (trim_right (String.◌∷◌ "+" s)) ≡ true
unfolding trim_right
keep_right-plus s = at (trim_right s)
  where
    at : (t : String) → starts_with_code b'+' (keep_right "+" t) ≡ true
    at String.[] = refl
    at (String.◌∷◌ c t) = refl

trim_space-plus : (s : String) → starts_with_code b'+' (trim_space (String.◌∷◌ "+" s)) ≡ true
unfolding trim_space
trim_space-plus s = keep_right-plus s

with_country_plus : (d : String) → with_country true d ≡ d
unfolding with_country
with_country_plus d = refl

digits-plus : (s : String) → digits (String.◌∷◌ "+" s) ≡ digits s
unfolding digits
digits-plus s = refl

checked_of_IsNumber : (d : String) → IsNumber d → checked d ≡ String.◌∷◌ "+" d
unfolding checked
checked_of_IsNumber d h = rw h.no_zero (ground arith)

normalize_phone_lem :
    (raw : String)
    → normalize_phone raw
      ≡ checked (with_country (starts_with_code b'+' (trim_space raw)) (digits raw))
unfolding normalize_phone
normalize_phone_lem raw = refl

-- A number that is already normal stays as it is.
normalize_phone_of_IsNumber :
    (d : String) → IsNumber d → normalize_phone (String.◌∷◌ "+" d) ≡ String.◌∷◌ "+" d
normalize_phone_of_IsNumber d h =
    rw
      (
        normalize_phone_lem (String.◌∷◌ "+" d),
        trim_space-plus d,
        with_country_plus,
        digits-plus d,
        digits_of_AllDigits d h.numeric,
      )
      (checked_of_IsNumber d h)

normalize_phone-nil : normalize_phone "" ≡ ""
unfolding normalize_phone
normalize_phone-nil = refl

-- Normalising a number a second time changes nothing.
normalize_phone_idem : (raw : String) → normalize_phone (normalize_phone raw) ≡ normalize_phone raw
normalize_phone_idem raw = elim (normalize_phone-IsNormal raw) [
  | inl e ↦ rw e normalize_phone-nil
  | inr (d, e, h) ↦ rw e (normalize_phone_of_IsNumber d h)
]

trim_space-digits : (s : String) → AllDigits s → starts_with_code b'+' (trim_space s) ≡ false
unfolding trim_space is_digit is_space
trim_space-digits String.[] h = refl
trim_space-digits (String.◌∷◌ c s) h = rw no_space (kept (trim_right s))
  where
    no_space : is_space (code c) ≡ false
    no_space = ground arith

    kept : (u : String) → starts_with_code b'+' (keep_right c u) ≡ false
    kept String.[] = rw no_space (ground arith)
    kept (String.◌∷◌ d u) = ground arith

national-IsNumber : (d : String) → AllDigits d → rune_count d ≡ 10 → IsNumber (String.◌∷◌ "7" d)
unfolding is_digit
national-IsNumber d h n = record {
  numeric = (refl, h);
  at_least = omega arith;
  at_most = omega arith;
  no_zero = refl;
}

with_country_ten :
    (d : String)
    → rune_count d ≡ 10
    → starts_with_code b'9' d ≡ true
    → with_country false d ≡ String.◌∷◌ "7" d
unfolding with_country
with_country_ten d n nine = rw (n, nine) refl

with_country_eight :
    (d : String) → rune_count d ≡ 10 → with_country false (String.◌∷◌ "8" d) ≡ String.◌∷◌ "7" d
unfolding with_country
with_country_eight d n = rw n refl

-- Ten digits that begin with 9 may be sent alone, behind the trunk prefix 8, or in full behind
-- +7: all three are normalised to the number with +7.
pub normalize_phone_habits :
    (d : String)
    → AllDigits d
    → rune_count d ≡ 10
    → starts_with_code b'9' d ≡ true
    → (normalize_phone d ≡ String.◌∷◌ "+" (String.◌∷◌ "7" d))
      × (normalize_phone (String.◌∷◌ "8" d) ≡ String.◌∷◌ "+" (String.◌∷◌ "7" d))
      × (normalize_phone (String.◌∷◌ "+" (String.◌∷◌ "7" d)) ≡ String.◌∷◌ "+" (String.◌∷◌ "7" d))
unfolding is_digit
normalize_phone_habits d h n nine = (
  rw
      (
        normalize_phone_lem d,
        trim_space-digits d h,
        digits_of_AllDigits d h,
        with_country_ten d n nine,
      )
      (checked_of_IsNumber _ (national-IsNumber d h n)),
  rw
      (
        normalize_phone_lem (String.◌∷◌ "8" d),
        trim_space-digits (String.◌∷◌ "8" d) (refl, h),
        digits_of_AllDigits (String.◌∷◌ "8" d) (refl, h),
        with_country_eight d n,
      )
      (checked_of_IsNumber _ (national-IsNumber d h n)),
  normalize_phone_of_IsNumber (String.◌∷◌ "7" d) (national-IsNumber d h n),
)

take-append : (a t : String) (n : ℕ) → rune_count a ≡ n → take n (a ++ t) ≡ a
unfolding take
take-append String.[] t zero h = refl
take-append String.[] t (suc n) h = absurd (omega arith)
take-append (String.◌∷◌ c a) t zero h = absurd (omega arith)
take-append (String.◌∷◌ c a) t (suc n) h =
    rw (cons-append c a t) (ap (String.◌∷◌ c) (take-append a t n (omega arith)))

drop-append : (a t : String) (n : ℕ) → rune_count a ≡ n → drop n (a ++ t) ≡ t
unfolding drop
drop-append String.[] t zero h = nil-append t
drop-append String.[] t (suc n) h = absurd (omega arith)
drop-append (String.◌∷◌ c a) t zero h = absurd (omega arith)
drop-append (String.◌∷◌ c a) t (suc n) h = rw (cons-append c a t) (drop-append a t n (omega arith))

-- Of a number with at least nine characters the mask shows the first five and the last four, and
-- nothing of what stands between.
mask_phone-append :
    (first hidden last : String)
    → rune_count first ≡ 5
    → rune_count last ≡ 4
    → mask_phone ((first ++ hidden) ++ last) ≡ (first ++ "***") ++ last
unfolding mask_phone
mask_phone-append first hidden last h5 h4 = rw (long, take-append_first, drop-append_last) refl
  where
    whole : ℕ
    whole = rune_count ((first ++ hidden) ++ last)

    size : whole ≡ 5 + rune_count hidden + 4
    size = omega (arith, rune_count-append (first ++ hidden) last, rune_count-append first hidden)

    long : ltb whole 8 ≡ false
    long = rw size (ground arith)

    take-append_first : take 5 ((first ++ hidden) ++ last) ≡ first
    take-append_first =
        rw (append_assoc first hidden last) (take-append first (hidden ++ last) 5 h5)

    drop-append_last : drop (whole - 4) ((first ++ hidden) ++ last) ≡ last
    drop-append_last =
        drop-append (first ++ hidden) last (whole - 4)
          (omega (arith, size, rune_count-append first hidden))
