-- ===== src/Devices/Auth/Laws.antt =====
-- `Pair` of internal/service/device_auth_service.go: who is paired, and what a wrong code leads to.
use kfc_userapi.Prelude.{
  String, ◌==◌, ◌≡◌, ◌≢◌, refl, ap, ◌∙◌, ◌⊎◌, inl, inr, true, false, not, ◌||◌, Option, none, some,
  [], ◌∷◌, Bool-cases,
}
use kfc_userapi.Prelude.Int.{ℤ, ◌+ℤ◌}
use kfc_userapi.Domain.Errors.{GoError, wrap, new_validation_error, new_internal_error}
use kfc_userapi.Domain.Result.{Result, ok, err, require, require-eq-ok}
use kfc_userapi.Domain.Device.{DeviceTokenClaims}
use kfc_userapi.Trace.{continue, ◌>>=◌, lift, map_error, map_error-eq-ok, bind-eq-ok, call, or_else}
use kfc_userapi.Devices.Calls.{
  PairingCodeData, del, get, new_uuid, read_clock, sign, Log, Calls, Backend,
}
use kfc_userapi.Devices.Codes.{
  code_key, meta_key, redis_del, delete_found, forget_serial, get_code, delete_code,
}
use kfc_userapi.Devices.Auth.{
  PairResult, invalid_code, active, device_claims, pair_result, issue, pair,
}

pub given : (s t : String) → not (s == "" || t == "") ≡ true → (s ≢ "") × (t ≢ "")
given s t h = (λ e. given_first (rw e at h), λ e. given_second s (rw e at h))
  where
    given_first : not ("" == "" || t == "") ≡ true → ⊥
    given_first k = cc

    given_second : (x : String) → not (x == "" || "" == "") ≡ true → ⊥
    given_second x k = elim (Bool-cases (x == "")) [
      | inl b ↦ let c : false ≡ true = rw b at k in cc
      | inr b ↦ let c : false ≡ true = rw b at k in cc
    ]

active-eq-ok :
    (o : Option (String × PairingCodeData)) (found : String × PairingCodeData)
    → active o ≡ ok found
    → o ≡ some found
unfolding new_validation_error
active-eq-ok none found h = cc
active-eq-ok (some (a, m)) found h = elim (Bool-cases (a == "")) [
  | inl b ↦ let k : err invalid_code ≡ ok found = rw b at h in cc
  | inr b ↦ let k : ok (a, m) ≡ ok found = rw b at h in cc
]

module _ (env : Backend) (serial code : String) where
  -- The code that was stored for the serial number matches; code and metadata were deleted before the
  -- token was signed; and the token is for the device, type and restaurant of the metadata.
  pub record IsPaired (log : Log) (r : PairResult) : Type 0 where
    pub serial_given : serial ≢ ""
    pub code_given : code ≢ ""
    pub code_hash : String
    pub meta : PairingCodeData
    pub stored : (get_code env serial log).0 ≡ ok (some (code_hash, meta))
    pub matches : env.hash_matches code_hash code ≡ true
    pub deleted_at : Log
    pub deleted : env.write deleted_at (del (code_key serial ∷ meta_key serial ∷ [])) ≡ ok tt
    pub at_delete : Log
    pub all_deleted : (delete_code env serial at_delete).0 ≡ ok tt
    pub deleted_after_lookup : at_delete ≡ (get_code env serial log).1
    pub signed_at : Log
    pub signed_after_delete :
        signed_at ≡ new_uuid ∷ read_clock ∷ (delete_code env serial at_delete).1
    pub token_id : String
    pub now : ℤ
    pub signed : env.sign signed_at (device_claims env meta serial token_id now) ≡ ok r.token
    pub device : r.device_id ≡ meta.device_id
    pub device_type : r.device_type ≡ meta.device_type
    pub restaurant : r.restaurant_id ≡ meta.restaurant_id
    pub expiry : r.expires_at ≡ now +ℤ env.token_ttl

  signed-eq-ok :
      (r : Result String) (f : GoError → GoError) (c claims : DeviceTokenClaims) (token : String)
      (log : Log)
      → (continue {B = DeviceTokenClaims × String} (map_error f r) (λ s l. (ok (c, s), l)) log).0
        ≡ ok (claims, token)
      → (c ≡ claims) × (r ≡ ok token)
  signed-eq-ok (ok s) f c claims token log h = (cc, cc)
  signed-eq-ok (err e) f c claims token log h = cc

  issue-eq-ok :
      (meta : PairingCodeData) (log : Log) (claims : DeviceTokenClaims) (token : String)
      → (issue env meta serial log).0 ≡ ok (claims, token)
      → (token_id : String) × (now : ℤ) × (device_claims env meta serial token_id now ≡ claims)
        × (env.sign (new_uuid ∷ read_clock ∷ log) (device_claims env meta serial token_id now)
            ≡ ok token)
  unfolding issue
  issue-eq-ok meta log claims token h =
      let l : Log = new_uuid ∷ read_clock ∷ log in
      let c = device_claims env meta serial (env.new_uuid (read_clock ∷ log)) (env.clock log) in
      let (same, signed) =
        signed-eq-ok (env.sign l c) (wrap "sign device token") c claims token (sign c ∷ l) h in
      (env.new_uuid (read_clock ∷ log), env.clock log, same, signed)

  deleted-eq-ok :
      (log : Log) (u : Unit {0})
      → (redis_del env (code_key serial ∷ meta_key serial ∷ []) log).0 ≡ ok u
      → (l : Log) × (env.write l (del (code_key serial ∷ meta_key serial ∷ [])) ≡ ok tt)
  deleted-eq-ok log u h = (log, map_error-eq-ok (wrap "redis del") _ h)

  delete_found-eq-ok :
      (o : Option String) (log : Log) (u : Unit {0})
      → (delete_found env serial o log).0 ≡ ok u
      → (l : Log) × (env.write l (del (code_key serial ∷ meta_key serial ∷ [])) ≡ ok tt)
  delete_found-eq-ok none log u h = deleted-eq-ok log u h
  delete_found-eq-ok (some json) log u h =
      let (_, _, g) = bind-eq-ok (forget_serial env serial (env.decode_meta json)) _ log h in
      deleted-eq-ok _ u g

  delete_code-eq-ok :
      (log : Log) (u : Unit {0})
      → (delete_code env serial log).0 ≡ ok u
      → (l : Log) × (env.write l (del (code_key serial ∷ meta_key serial ∷ [])) ≡ ok tt)
  unfolding delete_code
  delete_code-eq-ok log u h =
      let (o, _, g) =
        bind-eq-ok
          (call (get (meta_key serial)) (λ l. env.get l (meta_key serial))
            (wrap "get meta for delete"))
          (delete_found env serial) log h in
      delete_found-eq-ok o _ u g

module _ (env : Backend) (serial code : String) where
  abbrev issued : PairingCodeData → Calls PairResult
  issued meta =
      or_else (λ e. new_internal_error (wrap "issue token" e)) (issue env meta serial) >>= λ c.
      lift (ok (pair_result env c.0 c.1))

  abbrev consumed : PairingCodeData → Calls PairResult
  consumed meta = delete_code env serial >>= λ _. issued meta

  abbrev matched : String × PairingCodeData → Calls PairResult
  matched found =
      lift (require (env.hash_matches found.0 code) invalid_code) >>= λ _. consumed found.1

  abbrev looked_up : Option (String × PairingCodeData) → Calls PairResult
  looked_up o = lift (active o) >>= matched

  abbrev both_given : Result (Unit {0})
  both_given =
      require (not (serial == "" || code == ""))
        (new_validation_error "serial and code are required")

  pair_lem :
      (log : Log)
      → pair env serial code log ≡ (lift both_given >>= λ _. get_code env serial >>= looked_up) log
  unfolding pair
  pair_lem log = refl

  issued-eq-ok :
      (meta : PairingCodeData) (log : Log) (r : PairResult)
      → (issued meta log).0 ≡ ok r
      → (token_id : String) × (now : ℤ) × (env.sign
            (new_uuid ∷ read_clock ∷ log)
            (device_claims env meta serial token_id now)
          ≡ ok r.token)
        × (r ≡ pair_result env (device_claims env meta serial token_id now) r.token)
  issued-eq-ok meta log r h =
      let ((claims, token), e, g) =
        bind-eq-ok
          (or_else (λ e. new_internal_error (wrap "issue token" e)) (issue env meta serial))
          (λ c. lift (ok (pair_result env c.0 c.1))) log h in
      let (token_id, now, same, signed) =
        issue-eq-ok env serial code meta log claims token (map_error-eq-ok _ _ e) in
      let is_r : pair_result env claims token ≡ r = cc in
      rw (← is_r, ← same) (token_id, now, signed, refl)

  consumed-IsPaired :
      (log at_delete : Log) (code_hash : String) (meta : PairingCodeData) (r : PairResult)
      → (serial ≢ "") × (code ≢ "")
      → (get_code env serial log).0 ≡ ok (some (code_hash, meta))
      → env.hash_matches code_hash code ≡ true
      → at_delete ≡ (get_code env serial log).1
      → (consumed meta at_delete).0 ≡ ok r
      → IsPaired env serial code log r
  consumed-IsPaired log at_delete code_hash meta r full stored matches looked h =
      let (_, e, g) = bind-eq-ok (delete_code env serial) (λ _. issued meta) at_delete h in
      let (deleted_at, deleted) = delete_code-eq-ok env serial code at_delete _ e in
      let (token_id, now, signed, same) =
        issued-eq-ok meta (delete_code env serial at_delete).1 r g in
      record {
        serial_given = full.0;
        code_given = full.1;
        code_hash = code_hash;
        meta = meta;
        stored = stored;
        matches = matches;
        deleted_at = deleted_at;
        deleted = deleted;
        at_delete = at_delete;
        all_deleted = e;
        deleted_after_lookup = looked;
        signed_at = new_uuid ∷ read_clock ∷ (delete_code env serial at_delete).1;
        signed_after_delete = refl;
        token_id = token_id;
        now = now;
        signed = signed;
        device = ap (λ x. x.device_id) same;
        device_type = ap (λ x. x.device_type) same;
        restaurant = ap (λ x. x.restaurant_id) same;
        expiry = ap (λ x. x.expires_at) same;
      }

-- A device is paired only if it shows a code that matches the one stored for its serial number,
-- after that code and its metadata are deleted; its token is for the device, the type and the
-- restaurant that were stored, and lives for the configured time.
pub pair-IsPaired :
    (env : Backend) (serial code : String) (log : Log) (r : PairResult)
    → (pair env serial code log).0 ≡ ok r
    → IsPaired env serial code log r
pair-IsPaired env serial code log r h =
    let (_, e1, h1) =
      bind-eq-ok (lift (both_given env serial code))
        (λ _. get_code env serial >>= looked_up env serial code) log
        (rw (pair_lem env serial code log) at h) in
    let (o, e2, h2) = bind-eq-ok (get_code env serial) (looked_up env serial code) log h1 in
    let ((code_hash, meta), e3, h3) =
      bind-eq-ok (lift (active o)) (matched env serial code) (get_code env serial log).1 h2 in
    let (_, e4, h4) =
      bind-eq-ok (lift (require (env.hash_matches code_hash code) invalid_code))
        (λ _. consumed env serial code meta) (get_code env serial log).1 h3 in
    consumed-IsPaired env serial code log (get_code env serial log).1 code_hash meta r
      (given serial code (require-eq-ok _ _ e1)) (e2 ∙ ap ok (active-eq-ok o (code_hash, meta) e3))
      (require-eq-ok _ _ e4) refl h4

module _ (env : Backend) (serial code : String) where
  abbrev IsWrong : Result (Option (String × PairingCodeData)) → Type 0
  IsWrong x =
      (x ≡ ok none)
      ⊎ ((code_hash : String) × (meta : PairingCodeData) × (x ≡ ok (some (code_hash, meta)))
          × (env.hash_matches code_hash code ≡ false))
