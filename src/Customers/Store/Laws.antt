-- ===== src/Customers/Store/Laws.antt =====
-- Codes in internal/repository/customer_auth_repo.go, by the commands that Redis is given.
use Prim.Native.String.{◌++◌}
use kfc_userapi.Prelude.{String, ◌≡◌, refl, ap, ◌∙◌, Option, none, some, ◌∷◌}
use kfc_userapi.Prelude.Int.{ℤ}
use kfc_userapi.Domain.Errors.{wrap}
use kfc_userapi.Domain.Result.{ok}
use kfc_userapi.Trace.{◌>>=◌, lift, map_error, map_error-eq-ok, bind-eq-ok, call}
use kfc_userapi.Customers.Calls.{LoginCode, get, time_to_live, set, Log, Calls, Backend}
use kfc_userapi.Customers.Store.{code_key_for, present, save_code, get_code}

pub present-eq-ok : (o : Option String) {v : String} → present o ≡ ok v → o ≡ some v
present-eq-ok none h = cc
present-eq-ok (some a) h = cc

module _ (env : Backend) (phone : String) where
  -- Redis has a code for the phone, and the log after the two reads.
  pub record IsHeld (log : Log) (stored : LoginCode) (ttl : ℤ) : Type 0 where
    pub value : String
    pub read : env.get log ("cust:code:" ++ phone) ≡ ok (some value)
    pub timed :
        env.time_to_live (get ("cust:code:" ++ phone) ∷ log) ("cust:code:" ++ phone) ≡ ok ttl
    pub decoded : env.decode_code value ≡ ok stored

  abbrev pub after_read : Log → Log
  after_read log = time_to_live ("cust:code:" ++ phone) ∷ get ("cust:code:" ++ phone) ∷ log

  abbrev decode : String → ℤ → Calls (LoginCode × ℤ)
  decode raw ttl = lift (map_error (wrap "decode login code") (env.decode_code raw)) >>= λ code.
      lift (ok (code, ttl))

  abbrev look : Option String → Calls (LoginCode × ℤ)
  look found = lift (present found) >>= λ raw.
      call (time_to_live (code_key_for phone)) (λ log. env.time_to_live log (code_key_for phone))
        (wrap "get login code ttl")
      >>= decode raw

  pub get_code-IsHeld :
      (log : Log) (stored : LoginCode) (ttl : ℤ)
      → (get_code env phone log).0 ≡ ok (stored, ttl)
      → IsHeld log stored ttl × ((get_code env phone log).1 ≡ after_read log)
  unfolding get_code
  get_code-IsHeld log stored ttl h =
      let key = code_key_for phone in
      let (found, e1, h1) =
        bind-eq-ok (call (get key) (λ l. env.get l key) (wrap "get login code")) look log h in
      let (raw, e2, h2) =
        bind-eq-ok (lift (present found))
          (λ raw.
            call (time_to_live key) (λ l. env.time_to_live l key) (wrap "get login code ttl")
            >>= decode raw)
          (get key ∷ log) h1 in
      let (left, e3, h3) =
        bind-eq-ok
          (call (time_to_live key) (λ l. env.time_to_live l key) (wrap "get login code ttl"))
          (decode raw) (get key ∷ log) h2 in
      let (code, e4, h4) =
        bind-eq-ok (lift (map_error (wrap "decode login code") (env.decode_code raw)))
          (λ code. lift (ok (code, left))) (time_to_live key ∷ get key ∷ log) h3 in
      let same_code : code ≡ stored = cc in
      let same_ttl : left ≡ ttl = cc in
      let held : IsHeld log stored ttl = record {
        value = raw;
        read = map_error-eq-ok _ _ e1 ∙ ap ok (present-eq-ok found e2);
        timed = map_error-eq-ok _ _ e3 ∙ ap ok same_ttl;
        decoded = map_error-eq-ok _ _ e4 ∙ ap ok same_code;
      } in
      (held, rw (held.read, held.timed, held.decoded) refl)

  pub IsHeld-get_code :
      (log : Log) (stored : LoginCode) (ttl : ℤ)
      → IsHeld log stored ttl
      → get_code env phone log ≡ (ok (stored, ttl), after_read log)
  unfolding get_code
  IsHeld-get_code log stored ttl held = rw (held.read, held.timed, held.decoded) refl

  pub save_code-eq-ok :
      (code : LoginCode) (ttl : ℤ) (log : Log) (u : Unit {0})
      → (save_code env phone code ttl log).0 ≡ ok u
      → (raw : String) × (env.encode_code code ≡ ok raw)
        × (env.set log ("cust:code:" ++ phone) raw ttl ≡ ok u)
        × ((save_code env phone code ttl log).1 ≡ set ("cust:code:" ++ phone) raw ttl ∷ log)
  unfolding save_code
  save_code-eq-ok code ttl log u h =
      let write : String → Calls (Unit {0}) = λ raw.
        call (set (code_key_for phone) raw ttl) (λ l. env.set l (code_key_for phone) raw ttl)
          (wrap "redis set") in
      let (raw, e, g) = bind-eq-ok (lift (env.encode_code code)) write log h in
      (raw, e, map_error-eq-ok _ _ g, rw e refl)

  pub save_code-log :
      (code : LoginCode) (ttl : ℤ) (log : Log) (raw : String)
      → env.encode_code code ≡ ok raw
      → (save_code env phone code ttl log).1 ≡ set ("cust:code:" ++ phone) raw ttl ∷ log
  unfolding save_code
  save_code-log code ttl log raw e = rw e refl
