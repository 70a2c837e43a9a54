-- ===== src/Startup/Validate/Laws.antt =====
-- Validate of internal/config/config.go: which configurations pass.
use mathlib.Core.List.{Memᴰ}
use kfc_userapi.Prelude.{
  ℕ, ◌≤◌, ◌<◌, String, ◌==◌, eq_iff, ◌≡◌, ◌≢◌, ◌↔◌, refl, inl, inr, Bool, true, false, not, ◌&&◌,
  ◌||◌, Option, none, some, List, [], ◌∷◌, ◌++◌, Bool-cases, ltb, arith,
}
use kfc_userapi.Prelude.Int.{ℤ, pos, negsuc}
use kfc_userapi.Prelude.Text.{byte_count}
use kfc_userapi.Startup.Settings.{Host}
use kfc_userapi.Startup.Config.{Config}
use kfc_userapi.Startup.Validate.{
  is_production, is_one_of, environments, log_levels, log_formats, log_outputs, in_range, errors_of,
  is_valid_port, port_checks, log_checks, secret_checks, validate,
}

module _ (host : Host) where
  -- The port is read as a number from 1 to 65535.
  pub record IsPort (port : String) : Type 0 where
    pub given : port ≢ ""
    pub number : ℕ
    pub reads : host.scan_int port ≡ some (pos number)
    pub from_one : 0 < number
    pub below : number < 65536

  pub record IsValidConfig (c : Config) : Type 0 where
    pub environment : Memᴰ c.app.environment environments
    pub level : Memᴰ c.logger.level log_levels
    pub format : Memᴰ c.logger.format log_formats
    pub output : Memᴰ c.logger.output log_outputs
    pub http_port : IsPort c.http.port
    pub redis_port : IsPort c.redis.port
    pub redis_host : c.redis.host ≢ ""
    pub device_secret : 32 ≤ byte_count c.jwt.device_secret
    pub customer_secret : 32 ≤ byte_count c.customer.jwt_secret
    pub secrets_differ : c.customer.jwt_secret ≢ c.jwt.device_secret
    pub silent : c.app.environment ≡ "production" → c.customer.dev_echo_code ≡ false

  equal_test : (a b : String) → a ≡ b → (a == b) ≡ true
  equal_test a b e = (eq_iff a b).1 e

  unequal_test : (a b : String) → a ≢ b → (a == b) ≡ false
  unequal_test a b d = elim (Bool-cases (a == b)) [
    | inl hit ↦ absurd (d ((eq_iff a b).0 hit))
    | inr miss ↦ miss
  ]

  unequal_of_test : (a b : String) → (a == b) ≡ false → a ≢ b
  unequal_of_test a b h e = cc (h, equal_test a b e)

  is_one_of-Mem : (v : String) (xs : List String) → is_one_of v xs ≡ true → Memᴰ v xs
  is_one_of-Mem v [] h = cc
  is_one_of-Mem v (x ∷ xs) h = elim (Bool-cases (v == x)) [
    | inl hit ↦ Memᴰ.head ((eq_iff v x).0 hit)
    | inr miss ↦ Memᴰ.tail (is_one_of-Mem v xs (rw miss at h))
  ]

  or_true : (a : Bool) {b : Bool} → b ≡ true → (a || b) ≡ true
  or_true true h = refl
  or_true false h = h

  Mem-is_one_of : (v : String) (xs : List String) → Memᴰ v xs → is_one_of v xs ≡ true
  Mem-is_one_of v [] m = elim m [ ]
  Mem-is_one_of v (x ∷ xs) (Memᴰ.head e) = rw (equal_test v x e) refl
  Mem-is_one_of v (x ∷ xs) (Memᴰ.tail m) = or_true (v == x) (Mem-is_one_of v xs m)

  in_range-pos :
      (o : Option ℤ) → in_range o ≡ true → (n : ℕ) × (o ≡ some (pos n)) × (0 < n) × (n < 65536)
  in_range-pos none h = cc
  in_range-pos (some (pos n)) h = (n, refl, ground arith, ground arith)
  in_range-pos (some (negsuc n)) h = ground arith

  range_of : (n : ℕ) → 0 < n → n < 65536 → in_range (some (pos n)) ≡ true
  range_of n h k = ground arith

  is_valid_port-IsPort : (port : String) → is_valid_port host port ≡ true → IsPort port
  unfolding is_valid_port
  is_valid_port-IsPort port h = elim (Bool-cases (port == "")) [
    | inl blank ↦ absurd (cc (rw blank at h))
    | inr some_text ↦
        let (n, reads, from_one, below) = in_range-pos (host.scan_int port) (rw some_text at h) in
        record {
          given = unequal_of_test port "" some_text;
          number = n;
          reads = reads;
          from_one = from_one;
          below = below;
        }
  ]

  IsPort-is_valid_port : (port : String) → IsPort port → is_valid_port host port ≡ true
  unfolding is_valid_port
  IsPort-is_valid_port port p =
      rw (unequal_test port "" p.given, p.reads) (range_of p.number p.from_one p.below)

  -- The checks of which none failed.
  abbrev Passed : List (Bool × String) → Type 0
  Passed [] = Unit
  Passed ((failed, message) ∷ checks) = (failed ≡ false) × Passed checks

  errors_of-Passed : (checks : List (Bool × String)) → errors_of checks ≡ [] → Passed checks
  errors_of-Passed [] h = tt
  errors_of-Passed ((true, message) ∷ checks) h = cc
  errors_of-Passed ((false, message) ∷ checks) h = (refl, errors_of-Passed checks h)

  Passed-errors_of : (checks : List (Bool × String)) → Passed checks → errors_of checks ≡ []
  Passed-errors_of [] p = refl
  Passed-errors_of ((failed, message) ∷ checks) p = rw p.0 (Passed-errors_of checks p.1)

  Passed-append : (xs ys : List (Bool × String)) → Passed (xs ++ ys) ↔ (Passed xs × Passed ys)
  Passed-append [] ys = (λ p. (tt, p), λ p. p.1)
  Passed-append (x ∷ xs) ys = (
    λ p. let (a, b) = (Passed-append xs ys).0 p.1 in ((p.0, a), b),
    λ p. (p.0.0, (Passed-append xs ys).1 (p.0.1, p.1)),
  )

  not-false : (b : Bool) → not b ≡ false → b ≡ true
  not-false true h = refl
  not-false false h = cc

  not-true : (b : Bool) → b ≡ true → not b ≡ false
  not-true true h = refl
  not-true false h = cc

  long_secret : (secret : String) → ltb (byte_count secret) 32 ≡ false → 32 ≤ byte_count secret
  long_secret secret h = ground arith

  secret_long : (secret : String) → 32 ≤ byte_count secret → ltb (byte_count secret) 32 ≡ false
  secret_long secret h = ground arith

  IsPort-iff : (port : String) → (not (is_valid_port host port) ≡ false) ↔ IsPort port
  IsPort-iff port = (
    λ h. is_valid_port-IsPort port (not-false (is_valid_port host port) h),
    λ p. not-true (is_valid_port host port) (IsPort-is_valid_port port p),
  )

  member_iff : (v : String) (xs : List String) → (not (is_one_of v xs) ≡ false) ↔ Memᴰ v xs
  member_iff v xs = (
    λ h. is_one_of-Mem v xs (not-false (is_one_of v xs) h),
    λ m. not-true (is_one_of v xs) (Mem-is_one_of v xs m),
  )

  module _ (c : Config) where
    -- Both orders of the ports check the same.
    ports-Passed :
        (http_first : Bool)
        → Passed (port_checks host http_first c) ↔ (IsPort c.http.port × IsPort c.redis.port)
    ports-Passed true = (
      λ p. ((IsPort-iff c.http.port).0 p.0, (IsPort-iff c.redis.port).0 p.1.0),
      λ p. ((IsPort-iff c.http.port).1 p.0, ((IsPort-iff c.redis.port).1 p.1, tt)),
    )
    ports-Passed false = (
      λ p. ((IsPort-iff c.http.port).0 p.1.0, (IsPort-iff c.redis.port).0 p.0),
      λ p. ((IsPort-iff c.redis.port).1 p.1, ((IsPort-iff c.http.port).1 p.0, tt)),
    )

    silent_of_test :
        (is_production c && c.customer.dev_echo_code) ≡ false
        → c.app.environment ≡ "production"
        → c.customer.dev_echo_code ≡ false
    silent_of_test h e = rw (equal_test c.app.environment "production" e) at h

    test_of_silent :
        (c.app.environment ≡ "production" → c.customer.dev_echo_code ≡ false)
        → (is_production c && c.customer.dev_echo_code) ≡ false
    test_of_silent h = elim (Bool-cases (c.app.environment == "production")) [
      | inl hit ↦ rw hit (h ((eq_iff c.app.environment "production").0 hit))
      | inr miss ↦ rw miss refl
    ]

    checked_config : (http_first : Bool) → validate host http_first c ≡ [] → IsValidConfig c
    unfolding validate
    checked_config http_first h =
        let passed =
          errors_of-Passed
            (log_checks host c ++ port_checks host http_first c ++ secret_checks host c) h in
        let (logs, rest) =
          (Passed-append (log_checks host c)
              (port_checks host http_first c ++ secret_checks host c)).0
            passed in
        let (ports, secrets) =
          (Passed-append (port_checks host http_first c) (secret_checks host c)).0 rest in
        let (http, redis) = (ports-Passed http_first).0 ports in
        record {
          environment = (member_iff c.app.environment environments).0 logs.0;
          level = (member_iff c.logger.level log_levels).0 logs.1.0;
          format = (member_iff c.logger.format log_formats).0 logs.1.1.0;
          output = (member_iff c.logger.output log_outputs).0 logs.1.1.1.0;
          http_port = http;
          redis_port = redis;
          redis_host = unequal_of_test c.redis.host "" secrets.0;
          device_secret = long_secret c.jwt.device_secret secrets.1.0;
          customer_secret = long_secret c.customer.jwt_secret secrets.1.1.0;
          secrets_differ =
              unequal_of_test c.customer.jwt_secret c.jwt.device_secret secrets.1.1.1.0;
          silent = silent_of_test secrets.1.1.1.1.0;
        }

    config_passes : (http_first : Bool) → IsValidConfig c → validate host http_first c ≡ []
    unfolding validate
    config_passes http_first v =
        Passed-errors_of
          (log_checks host c ++ port_checks host http_first c ++ secret_checks host c)
          ((Passed-append (log_checks host c)
              (port_checks host http_first c ++ secret_checks host c)).1
            (
              (
                (member_iff c.app.environment environments).1 v.environment,
                (
                  (member_iff c.logger.level log_levels).1 v.level,
                  (
                    (member_iff c.logger.format log_formats).1 v.format,
                    ((member_iff c.logger.output log_outputs).1 v.output, tt),
                  ),
                ),
              ),
              (Passed-append (port_checks host http_first c) (secret_checks host c)).1 (
                (ports-Passed http_first).1 (v.http_port, v.redis_port),
                (
                  unequal_test c.redis.host "" v.redis_host,
                  (
                    secret_long c.jwt.device_secret v.device_secret,
                    (
                      secret_long c.customer.jwt_secret v.customer_secret,
                      (
                        unequal_test c.customer.jwt_secret c.jwt.device_secret v.secrets_differ,
                        (test_of_silent v.silent, tt),
                      ),
                    ),
                  ),
                ),
              ),
            ))

-- A configuration passes the validation, in whichever order the ports are looked at, if and only
-- if its environment, log level, format and output are known ones, both ports are read as numbers
-- from 1 to 65535, the Redis host is given, both secrets have at least 32 bytes in UTF-8 and
-- differ, and in production the login code is not echoed.
pub validate-iff-IsValidConfig :
    (host : Host) (http_first : Bool) (c : Config)
    → (validate host http_first c ≡ []) ↔ IsValidConfig host c
validate-iff-IsValidConfig host http_first c =
    (checked_config host c http_first, config_passes host c http_first)
