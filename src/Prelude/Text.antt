-- ===== src/Prelude/Text.antt =====
-- What the source uses of Go's `strings` and `utf8`, over texts as sequences of code points.
use Prim.Native.Nat.{ℕ, suc, ◌+◌}
use Prim.Native.Char.{Char, code}
use Prim.Native.String.{String, [], ◌∷◌, ◌++◌}
use mathlib.Core.Path.{◌≡◌, refl, ap, sym, ◌∙◌}
use mathlib.Core.Logic.{◌≢◌, inl, inr}
use mathlib.Core.Bool.{Bool, true, false, ◌&&◌, ◌||◌}
use mathlib.Core.Option.{Option, none, some}
use native.Mathlib.Omega.{arith}
use text.Mathlib.Text.{◌==◌}
use text.Mathlib.TextEquality.{eq_iff, Char-path}
use text.Mathlib.TextLemmas.{nil-append, cons-append}
use kfc_userapi.Prelude.Tests.{Bool-cases, leb, eqb, if◌then◌else◌}

-- '0' <= r && r <= '9'
unfoldable pub is_digit : ℕ → Bool
is_digit c = leb b'0' c && leb c b'9'

-- unicode.IsSpace
unfoldable pub is_space : ℕ → Bool
is_space c =
    (leb 9 c && leb c 13)
    || eqb c 0x20
    || eqb c 0x85
    || eqb c 0xa0
    || eqb c 0x1680
    || (leb 0x2000 c && leb c 0x200a)
    || eqb c 0x2028
    || eqb c 0x2029
    || eqb c 0x202f
    || eqb c 0x205f
    || eqb c 0x3000

unfoldable pub trim_left : String → String
unfolding is_space
trim_left [] = []
trim_left (c ∷ s) = if is_space (code c) then trim_left s else c ∷ s

-- A code point is kept on the right if it is no space or if something is kept behind it.
abbrev pub keep_right : Char → String → String
keep_right c [] = if is_space (code c) then [] else c ∷ []
keep_right c (d ∷ s) = c ∷ d ∷ s

unfoldable pub trim_right : String → String
unfolding is_space
trim_right [] = []
trim_right (c ∷ s) = keep_right c (trim_right s)

-- strings.TrimSpace
unfoldable pub trim_space : String → String
unfolding trim_left trim_right
trim_space s = trim_right (trim_left s)

-- utf8.RuneCountInString
abbrev pub rune_count : String → ℕ
rune_count [] = 0
rune_count (c ∷ s) = suc (rune_count s)

-- the length of a code point in UTF-8
abbrev pub byte_width : ℕ → ℕ
byte_width c = if leb c 0x7f then 1 else if leb c 0x7ff then 2 else if leb c 0xffff then 3 else 4

-- len of a string
abbrev pub byte_count : String → ℕ
byte_count [] = 0
byte_count (c ∷ s) = byte_width (code c) + byte_count s

-- the loop that keeps the digits of a text
unfoldable pub digits : String → String
unfolding is_digit
digits [] = []
digits (c ∷ s) = if is_digit (code c) then c ∷ digits s else digits s

abbrev pub AllDigits : String → Type 0
AllDigits [] = Unit
AllDigits (c ∷ s) = (is_digit (code c) ≡ true) × AllDigits s

pub digits-AllDigits : (s : String) → AllDigits (digits s)
unfolding digits
digits-AllDigits [] = tt
digits-AllDigits (c ∷ s) = ground (arith, digits-AllDigits s)

pub digits_of_AllDigits : (s : String) → AllDigits s → digits s ≡ s
unfolding digits
digits_of_AllDigits [] h = refl
digits_of_AllDigits (c ∷ s) h = ground (arith, digits_of_AllDigits s)

pub digits_idem : (s : String) → digits (digits s) ≡ digits s
digits_idem s = digits_of_AllDigits (digits s) (digits-AllDigits s)

pub rune_count-append : (s t : String) → rune_count (s ++ t) ≡ rune_count s + rune_count t
rune_count-append [] t = omega (arith, ap rune_count (nil-append t))
rune_count-append (c ∷ s) t =
    omega (arith, ap rune_count (cons-append c s t), rune_count-append s t)

-- The rest of a text behind a prefix, if it has that prefix.
unfoldable pub strip_prefix : String → String → Option String
strip_prefix [] s = some s
strip_prefix (c ∷ p) [] = none
strip_prefix (c ∷ p) (d ∷ s) = if eqb (code c) (code d) then strip_prefix p s else none

-- strings.HasPrefix
unfoldable pub has_prefix : String → String → Bool
unfolding strip_prefix
has_prefix s p = elim (strip_prefix p s) [ none ↦ false | some rest ↦ true ]

-- strings.TrimPrefix
unfoldable pub trim_prefix : String → String → String
unfolding strip_prefix
trim_prefix s p = elim (strip_prefix p s) [ none ↦ s | some rest ↦ rest ]

pub strip_prefix-append : (p s : String) → strip_prefix p (p ++ s) ≡ some s
unfolding strip_prefix
strip_prefix-append [] s = ap some (nil-append s)
strip_prefix-append (c ∷ p) s = rw (cons-append c p s) (ground (arith, strip_prefix-append p s))

some_one : {a b : String} → some a ≡ some b → a ≡ b
some_one h = cc

none-not-some : {a : String} → none ≡ some a → ⊥
none-not-some h = cc

eqb-path : (a b : ℕ) → eqb a b ≡ true → a ≡ b
eqb-path a b h = ground arith

pub strip_prefix-eq-some : (p s rest : String) → strip_prefix p s ≡ some rest → s ≡ p ++ rest
unfolding strip_prefix
strip_prefix-eq-some [] s rest h = some_one h ∙ sym (nil-append rest)
strip_prefix-eq-some (c ∷ p) [] rest h = absurd (none-not-some h)
strip_prefix-eq-some (c ∷ p) (d ∷ s) rest h = elim (Bool-cases (eqb (code c) (code d))) [
  | inl hit ↦
      let same : c ≡ d = Char-path c d (eqb-path (code c) (code d) hit) in
      ap (λ x. x ∷ s) (sym same)
      ∙ ap (λ x. c ∷ x) (strip_prefix-eq-some p s rest (rw hit at h))
      ∙ sym (cons-append c p rest)
  | inr miss ↦ absurd (none-not-some (rw miss at h))
]

abbrev pub NoSpaces : String → Type 0
NoSpaces [] = Unit
NoSpaces (c ∷ s) = (is_space (code c) ≡ false) × NoSpaces s

pub NoSpaces-append : (s t : String) → NoSpaces s → NoSpaces t → NoSpaces (s ++ t)
NoSpaces-append [] t h k = rw (nil-append t) k
NoSpaces-append (c ∷ s) t h k = rw (cons-append c s t) (h.0, NoSpaces-append s t h.1 k)

pub NoSpaces-of_AllDigits : (s : String) → AllDigits s → NoSpaces s
unfolding is_digit is_space
NoSpaces-of_AllDigits [] h = tt
NoSpaces-of_AllDigits (c ∷ s) h = (ground arith, NoSpaces-of_AllDigits s h.1)

keep_right_of_NoSpaces :
    (c : Char) (s : String) → is_space (code c) ≡ false → keep_right c s ≡ c ∷ s
keep_right_of_NoSpaces c [] h = rw h refl
keep_right_of_NoSpaces c (d ∷ s) h = refl

trim_right_of_NoSpaces : (s : String) → NoSpaces s → trim_right s ≡ s
unfolding trim_right
trim_right_of_NoSpaces [] h = refl
trim_right_of_NoSpaces (c ∷ s) h =
    rw (trim_right_of_NoSpaces s h.1) (keep_right_of_NoSpaces c s h.0)

trim_left_of_NoSpaces : (s : String) → NoSpaces s → trim_left s ≡ s
unfolding trim_left
trim_left_of_NoSpaces [] h = refl
trim_left_of_NoSpaces (c ∷ s) h = rw h.0 refl

pub trim_space_of_NoSpaces : (s : String) → NoSpaces s → trim_space s ≡ s
unfolding trim_space
trim_space_of_NoSpaces s h = rw (trim_left_of_NoSpaces s h) (trim_right_of_NoSpaces s h)

pub not_blank : (s : String) → s ≢ "" → (s == "") ≡ false
not_blank s h = elim (Bool-cases (s == "")) [
  | inl hit ↦ absurd (h ((eq_iff s "").0 hit))
  | inr miss ↦ miss
]
