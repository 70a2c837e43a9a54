-- ===== src/Live/Hub/Sets.antt =====
-- The hub's sets of subscribers: what is in them after a member was added or removed.
use kfc_userapi.Prelude.{
  ℕ, ◌<◌, String, ◌==◌, eq_iff, eq_refl, ◌≡◌, refl, sym, ap, ◌∙◌, inl, inr, true, false, not, ◌&&◌,
  ◌||◌, if◌then◌else◌, List, [], ◌∷◌, ◌++◌, eqb, Bool-cases, arith,
}
use kfc_userapi.Prelude.Lists.{length}
use kfc_userapi.Live.Hub.{has, remove, set_of, all_of, add_to, keep_set, remove_from}

-- No member twice.
abbrev pub Distinct : List ℕ → Type 0
Distinct [] = Unit
Distinct (x ∷ xs) = (has x xs ≡ false) × Distinct xs

pub has-append : (i : ℕ) (xs ys : List ℕ) → has i (xs ++ ys) ≡ (has i xs || has i ys)
has-append i [] ys = refl
has-append i (x ∷ xs) ys = ground (arith, has-append i xs ys)

pub has-remove : (i j : ℕ) (xs : List ℕ) → has j (remove i xs) ≡ (not (eqb i j) && has j xs)
has-remove i j [] = ground arith
has-remove i j (x ∷ xs) = ground (arith, has-remove i j xs)

pub remove-Distinct : (i : ℕ) (xs : List ℕ) → Distinct xs → Distinct (remove i xs)
remove-Distinct i [] h = tt
remove-Distinct i (x ∷ xs) h = ground (arith, remove-Distinct i xs h.1, has-remove i x xs)

pub append-Distinct :
    (xs ys : List ℕ)
    → Distinct xs
    → Distinct ys
    → ((i : ℕ) → has i xs ≡ true → has i ys ≡ false)
    → Distinct (xs ++ ys)
append-Distinct [] ys h k apart = k
append-Distinct (x ∷ xs) ys h k apart = (
  ground (arith, has-append x xs ys, apart x),
  append-Distinct xs ys h.1 k (λ i m. apart i (ground (arith, m))),
)

pub record IsApart (xs ys : List ℕ) : Type 0 where
  pub left : Distinct xs
  pub right : Distinct ys
  pub apart : (i : ℕ) → has i xs ≡ true → has i ys ≡ false

apart_cons :
    (x : ℕ) (xs ys : List ℕ)
    → has x (xs ++ ys) ≡ false
    → ((i : ℕ) → has i xs ≡ true → has i ys ≡ false)
    → (i : ℕ) → has i (x ∷ xs) ≡ true
    → has i ys ≡ false
apart_cons x xs ys h k i m = ground (arith, has-append x xs ys, k i)

pub append-IsApart : (xs ys : List ℕ) → Distinct (xs ++ ys) → IsApart xs ys
append-IsApart [] ys h = record { left = tt; right = h; apart = λ i m. cc }
append-IsApart (x ∷ xs) ys h =
    let rest = append-IsApart xs ys h.1 in
    record {
      left = (ground (arith, has-append x xs ys, h.0), rest.left);
      right = rest.right;
      apart = apart_cons x xs ys h.0 rest.apart;
    }

-- Tests on keys.
pub same_key : (a b c : String) → (a == b) ≡ true → (a == c) ≡ (b == c)
same_key a b c h = ap (λ x. x == c) ((eq_iff a b).0 h)

other_key : (a b c : String) → (a == b) ≡ false → (a == c) ≡ true → (b == c) ≡ false
other_key a b c h k = elim (Bool-cases (b == c)) [
  | inl hit ↦
      absurd (cc (h, eq_refl b, ap (λ x. x == b) ((eq_iff a c).0 k ∙ sym ((eq_iff b c).0 hit))))
  | inr miss ↦ miss
]

pub key_sym : (a b : String) → (a == b) ≡ false → (b == a) ≡ false
key_sym a b h = other_key a b a h (eq_refl a)

-- The sets as a map: none is empty, and a key has one set.
abbrev pub IsMap : List (String × List ℕ) → Type 0
IsMap [] = Unit
IsMap ((k, ids) ∷ sets) = (set_of k sets ≡ []) × (0 < length ids) × IsMap sets

pub set_of-add_to :
    (k key : String) (i : ℕ) (sets : List (String × List ℕ))
    → set_of k (add_to key i sets) ≡ (if key == k then i ∷ set_of k sets else set_of k sets)
set_of-add_to k key i [] = refl
set_of-add_to k key i ((k0, ids) ∷ sets) = elim (Bool-cases (k0 == key)) [
  | inl a ↦ elim (Bool-cases (k0 == k)) [
    | inl b ↦ rw (a, b) (rw (sym (same_key k0 key k a) ∙ b) refl)
    | inr b ↦ rw (a, b) (rw (sym (same_key k0 key k a) ∙ b) refl)
  ]
  | inr a ↦ elim (Bool-cases (k0 == k)) [
    | inl b ↦ rw (a, b) (rw (other_key k0 key k a b) refl)
    | inr b ↦ rw (a, b) (set_of-add_to k key i sets)
  ]
]

pub set_of-all_of :
    (i : ℕ) (k : String) (sets : List (String × List ℕ))
    → has i (set_of k sets) ≡ true
    → has i (all_of sets) ≡ true
set_of-all_of i k [] h = cc
set_of-all_of i k ((k0, ids) ∷ sets) h =
    ground (arith, has-append i ids (all_of sets), set_of-all_of i k sets)

pub all_of-add_to :
    (j : ℕ) (key : String) (i : ℕ) (sets : List (String × List ℕ))
    → has j (all_of (add_to key i sets)) ≡ (eqb i j || has j (all_of sets))
all_of-add_to j key i [] = refl
all_of-add_to j key i ((k0, ids) ∷ sets) = elim (Bool-cases (k0 == key)) [
  | inl a ↦ rw a refl
  | inr a ↦ rw a (
      ground (
        arith,
        has-append j ids (all_of sets),
        has-append j ids (all_of (add_to key i sets)),
        all_of-add_to j key i sets,
      ))
]

added_apart :
    (key : String) (i j : ℕ) (ids : List ℕ) (sets : List (String × List ℕ))
    → has i (ids ++ all_of sets) ≡ false
    → has j ids ≡ true
    → has j (all_of sets) ≡ false
    → has j (all_of (add_to key i sets)) ≡ false
added_apart key i j ids sets fresh m h =
    ground (arith, has-append i ids (all_of sets), all_of-add_to j key i sets)

pub add_to-Distinct :
    (key : String) (i : ℕ) (sets : List (String × List ℕ))
    → has i (all_of sets) ≡ false
    → Distinct (all_of sets)
    → Distinct (all_of (add_to key i sets))
add_to-Distinct key i [] fresh h = (refl, tt)
add_to-Distinct key i ((k0, ids) ∷ sets) fresh h = elim (Bool-cases (k0 == key)) [
  | inl a ↦ rw a (fresh, h)
  | inr a ↦ rw a (
      let parts = append-IsApart ids (all_of sets) h in
      append-Distinct ids (all_of (add_to key i sets)) parts.left
        (add_to-Distinct key i sets (ground (arith, has-append i ids (all_of sets), fresh))
          parts.right)
        (λ j m. added_apart key i j ids sets fresh m (parts.apart j m)))
]

pub add_to-IsMap :
    (key : String) (i : ℕ) (sets : List (String × List ℕ)) → IsMap sets → IsMap (add_to key i sets)
add_to-IsMap key i [] h = (refl, omega arith, tt)
add_to-IsMap key i ((k0, ids) ∷ sets) h = elim (Bool-cases (k0 == key)) [
  | inl a ↦ rw a (h.0, omega arith, h.2)
  | inr a ↦
      rw a
        (set_of-add_to k0 key i sets ∙ rw (key_sym k0 key a) h.0, h.1, add_to-IsMap key i sets h.2)
]

-- A set that lost its last member is gone.
set_of-keep_set :
    (k key : String) (ids : List ℕ) (sets : List (String × List ℕ))
    → set_of key sets ≡ []
    → set_of k (keep_set key ids sets) ≡ (if key == k then ids else set_of k sets)
set_of-keep_set k key [] sets h = elim (Bool-cases (key == k)) [
  | inl a ↦ rw a (rw (← (eq_iff key k).0 a) h)
  | inr a ↦ rw a refl
]
set_of-keep_set k key (x ∷ ids) sets h = refl

all_of-keep_set :
    (key : String) (ids : List ℕ) (sets : List (String × List ℕ))
    → all_of (keep_set key ids sets) ≡ ids ++ all_of sets
all_of-keep_set key [] sets = refl
all_of-keep_set key (x ∷ ids) sets = refl

keep_set-IsMap :
    (key : String) (ids : List ℕ) (sets : List (String × List ℕ))
    → set_of key sets ≡ []
    → IsMap sets
    → IsMap (keep_set key ids sets)
keep_set-IsMap key [] sets h k = k
keep_set-IsMap key (x ∷ ids) sets h k = (h, omega arith, k)

pub set_of-remove_from :
    (k key : String) (i : ℕ) (sets : List (String × List ℕ))
    → IsMap sets
    → set_of k (remove_from key i sets)
      ≡ (if key == k then remove i (set_of k sets) else set_of k sets)
set_of-remove_from k key i [] h = elim (Bool-cases (key == k)) [
  | inl a ↦ rw a refl
  | inr a ↦ rw a refl
]
set_of-remove_from k key i ((k0, ids) ∷ sets) h = elim (Bool-cases (k0 == key)) [
  | inl a ↦ elim (Bool-cases (k0 == k)) [
    | inl b ↦
        rw (a, b, sym (same_key k0 key k a) ∙ b)
          (set_of-keep_set k k0 (remove i ids) sets h.0 ∙ rw b refl)
    | inr b ↦
        rw (a, b, sym (same_key k0 key k a) ∙ b)
          (set_of-keep_set k k0 (remove i ids) sets h.0 ∙ rw b refl)
  ]
  | inr a ↦ elim (Bool-cases (k0 == k)) [
    | inl b ↦ rw (a, b, other_key k0 key k a b) refl
    | inr b ↦ rw (a, b) (set_of-remove_from k key i sets h.2)
  ]
]

pub remove_from-IsMap :
    (key : String) (i : ℕ) (sets : List (String × List ℕ))
    → IsMap sets
    → IsMap (remove_from key i sets)
remove_from-IsMap key i [] h = tt
remove_from-IsMap key i ((k0, ids) ∷ sets) h = elim (Bool-cases (k0 == key)) [
  | inl a ↦ rw a (keep_set-IsMap k0 (remove i ids) sets h.0 h.2)
  | inr a ↦ rw a (
    set_of-remove_from k0 key i sets h.2 ∙ rw (key_sym k0 key a) h.0,
    h.1,
    remove_from-IsMap key i sets h.2,
  )
]

gone_from_first :
    (i j : ℕ) (ids rest : List ℕ)
    → Distinct (ids ++ rest)
    → has i ids ≡ true
    → has j (remove i ids ++ rest) ≡ (not (eqb i j) && has j (ids ++ rest))
gone_from_first i j ids rest h m = ground (
  arith,
  has-append j ids rest,
  has-append j (remove i ids) rest,
  has-remove i j ids,
  (append-IsApart ids rest h).apart i m,
)

gone_from_rest :
    (i j : ℕ) (ids rest less : List ℕ)
    → Distinct (ids ++ rest)
    → has i rest ≡ true
    → has j less ≡ (not (eqb i j) && has j rest)
    → has j (ids ++ less) ≡ (not (eqb i j) && has j (ids ++ rest))
gone_from_rest i j ids rest less h m k =
    ground
      (arith, has-append j ids rest, has-append j ids less, (append-IsApart ids rest h).apart i)

not_has : (j : ℕ) (xs : List ℕ) → (has j xs ≡ true → ⊥) → has j xs ≡ false
not_has j xs h = elim (Bool-cases (has j xs)) [ inl hit ↦ absurd (h hit) | inr miss ↦ miss ]

remove-has : (i j : ℕ) (xs : List ℕ) → has j (remove i xs) ≡ true → has j xs ≡ true
remove-has i j xs h = ground (arith, has-remove i j xs)

left_in :
    (j : ℕ) (key : String) (i : ℕ) (sets : List (String × List ℕ))
    → has j (all_of (remove_from key i sets)) ≡ (not (eqb i j) && has j (all_of sets))
    → has j (all_of (remove_from key i sets)) ≡ true
    → has j (all_of sets) ≡ true
left_in j key i sets h k = ground arith

-- A channel that is in its set is nowhere else, so that removing it there removes it altogether.
pub all_of-remove_from :
    (j : ℕ) (key : String) (i : ℕ) (sets : List (String × List ℕ))
    → Distinct (all_of sets)
    → has i (set_of key sets) ≡ true
    → has j (all_of (remove_from key i sets)) ≡ (not (eqb i j) && has j (all_of sets))
all_of-remove_from j key i [] h m = cc
all_of-remove_from j key i ((k0, ids) ∷ sets) h m = elim (Bool-cases (k0 == key)) [
  | inl a ↦
      rw (a, all_of-keep_set k0 (remove i ids) sets)
        (gone_from_first i j ids (all_of sets) h (rw a at m))
  | inr a ↦ rw a (
      let here = rw a at m in
      gone_from_rest i j ids (all_of sets) (all_of (remove_from key i sets)) h
        (set_of-all_of i key sets here)
        (all_of-remove_from j key i sets (append-IsApart ids (all_of sets) h).right here))
]

shrunk_apart :
    (ids rest less : List ℕ)
    → Distinct (ids ++ rest)
    → ((j : ℕ) → has j less ≡ true → has j rest ≡ true)
    → Distinct less
    → Distinct (ids ++ less)
shrunk_apart ids rest less h k d =
    append-Distinct ids less (append-IsApart ids rest h).left d
      (λ j m. not_has j less (λ p. cc ((append-IsApart ids rest h).apart j m, k j p)))

pub remove_from-Distinct :
    (key : String) (i : ℕ) (sets : List (String × List ℕ))
    → has i (set_of key sets) ≡ true
    → Distinct (all_of sets)
    → Distinct (all_of (remove_from key i sets))
remove_from-Distinct key i [] m h = tt
remove_from-Distinct key i ((k0, ids) ∷ sets) m h = elim (Bool-cases (k0 == key)) [
  | inl a ↦
      rw (a, all_of-keep_set k0 (remove i ids) sets)
        (let parts = append-IsApart ids (all_of sets) h in
          append-Distinct (remove i ids) (all_of sets) (remove-Distinct i ids parts.left)
            parts.right (λ j p. parts.apart j (remove-has i j ids p)))
  | inr a ↦ rw a (
      let here = rw a at m in
      let parts = append-IsApart ids (all_of sets) h in
      shrunk_apart ids (all_of sets) (all_of (remove_from key i sets)) h
        (λ j p. left_in j key i sets (all_of-remove_from j key i sets parts.right here) p)
        (remove_from-Distinct key i sets here parts.right))
]
