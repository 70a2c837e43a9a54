-- ===== src/Trace.antt =====
-- Code that calls services and may fail: Go functions that return `(value, error)`. The log holds
-- all calls made so far, the latest first. What was called before a failure stays called.
use kfc_userapi.Prelude.{◌≡◌, refl, List, ◌∷◌}
use kfc_userapi.Domain.Errors.{GoError}
use kfc_userapi.Domain.Result.{Result, ok, err}

abbrev pub Trace {ℓ} : Type 0 → Type ℓ → Type ℓ
Trace E A = List E → Result A × List E

module _ {ℓ κ} {E : Type 0} {A : Type ℓ} {B : Type κ} where
  abbrev pub continue : Result A → (A → List E → Result B × List E) → List E → Result B × List E
  continue (ok a) f log = f a log
  continue (err e) f log = (err e, log)

  infixl 5 ◌>>=◌
  abbrev pub ◌>>=◌ :
      (List E → Result A × List E) → (A → List E → Result B × List E) → List E → Result B × List E
  ◌>>=◌ m f log = let (r, after) = m log in continue r f after

  -- Inversion of a chain that returns a value.
  continue-eq-ok :
      (r : Result A) (f : A → List E → Result B × List E) (log : List E) {b : B}
      → (continue r f log).0 ≡ ok b
      → (a : A) × (r ≡ ok a) × ((f a log).0 ≡ ok b)
  continue-eq-ok (ok a) f log h = (a, refl, h)
  continue-eq-ok (err e) f log h = cc

  pub bind-eq-ok :
      (m : List E → Result A × List E) (f : A → List E → Result B × List E) (log : List E) {b : B}
      → ((m >>= f) log).0 ≡ ok b
      → (a : A) × ((m log).0 ≡ ok a) × ((f a (m log).1).0 ≡ ok b)
  bind-eq-ok m f log h = continue-eq-ok (m log).0 f (m log).1 h

infixl 5 ◌>>◌
abbrev pub ◌>>◌ {ℓ} : {E : Type 0} {B : Type ℓ} → Trace E (Unit {0}) → Trace E B → Trace E B
m >> k = m >>= λ _. k

abbrev pub lift {ℓ} : {E : Type 0} {A : Type ℓ} → Result A → Trace E A
lift r log = (r, log)

abbrev pub map_error {ℓ} : {A : Type ℓ} → (GoError → GoError) → Result A → Result A
map_error f (ok a) = ok a
map_error f (err e) = err (f e)

pub map_error-eq-ok {ℓ} :
    {A : Type ℓ} (f : GoError → GoError) (r : Result A) {a : A} → map_error f r ≡ ok a → r ≡ ok a
map_error-eq-ok f (ok a) h = h
map_error-eq-ok f (err e) h = cc

-- A call, whose answer depends on the log before it, with its error translated.
abbrev pub call {ℓ} :
    {E : Type 0} {A : Type ℓ} → E → (List E → Result A) → (GoError → GoError) → Trace E A
call event answer f log = (map_error f (answer log), event ∷ log)

-- the error of a part, translated for the caller
abbrev pub or_else {ℓ} : {E : Type 0} {A : Type ℓ} → (GoError → GoError) → Trace E A → Trace E A
or_else f m log = let (r, after) = m log in (map_error f r, after)

-- a part whose error the code looks at, or drops
abbrev pub attempt {ℓ} : {E : Type 0} {A : Type ℓ} → Trace E A → Trace E (Result A)
attempt m log = let (r, after) = m log in (ok r, after)
