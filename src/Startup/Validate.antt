-- ===== src/Startup/Validate.antt =====
-- Validate of internal/config/config.go, and Load with it.
pub mod Laws
use kfc_userapi.Prelude.{
  ℕ, String, ◌==◌, Bool, true, false, not, ◌&&◌, ◌||◌, Option, none, some, List, [], ◌∷◌, ◌++◌,
  if◌then◌else◌, ltb,
}
use kfc_userapi.Prelude.Int.{ℤ, pos, ltb_ℤ}
use kfc_userapi.Prelude.Text.{byte_count}
use kfc_userapi.Domain.Errors.{GoError}
use kfc_userapi.Domain.Result.{Result, ok, err}
use kfc_userapi.Startup.Settings.{Host, get_env}
use kfc_userapi.Startup.Config.{Config}
use kfc_userapi.Startup.Load.{load_config}

-- switch v { case …: return true }
abbrev pub is_one_of : String → List String → Bool
is_one_of v [] = false
is_one_of v (x ∷ xs) = v == x || is_one_of v xs

abbrev pub environments : List String
environments = "development" ∷ "staging" ∷ "production" ∷ []

abbrev pub log_levels : List String
log_levels = "debug" ∷ "info" ∷ "warn" ∷ "error" ∷ []

abbrev pub log_formats : List String
log_formats = "json" ∷ "text" ∷ []

abbrev pub log_outputs : List String
log_outputs = "stdout" ∷ "file" ∷ "both" ∷ []

abbrev pub is_valid_environment : String → Bool
is_valid_environment env = is_one_of env environments

abbrev pub is_valid_log_level : String → Bool
is_valid_log_level level = is_one_of level log_levels

abbrev pub is_valid_log_format : String → Bool
is_valid_log_format format = is_one_of format log_formats

abbrev pub is_valid_log_output : String → Bool
is_valid_log_output output = is_one_of output log_outputs

abbrev pub in_range : Option ℤ → Bool
in_range none = false
in_range (some n) = ltb_ℤ (pos 0) n && ltb_ℤ n (pos 65536)

abbrev pub is_production : Config → Bool
is_production c = c.app.environment == "production"

-- if failed { errs = append(errs, message) }, for each check in turn
abbrev pub errors_of : List (Bool × String) → List String
errors_of [] = []
errors_of ((failed, message) ∷ checks) =
    if failed then message ∷ errors_of checks else errors_of checks

module _ (host : Host) where
  unfoldable pub is_valid_port : String → Bool
  is_valid_port port = if port == "" then false else in_range (host.scan_int port)

  abbrev pub port_check : String → String → Bool × String
  port_check message port = (not (is_valid_port port), message)

  -- The loop over the ports; Go's map gives them in any order.
  abbrev pub port_checks : Bool → Config → List (Bool × String)
  port_checks true c =
      port_check "invalid HTTP_PORT" c.http.port ∷ port_check "invalid REDIS_PORT" c.redis.port ∷ []
  port_checks false c =
      port_check "invalid REDIS_PORT" c.redis.port ∷ port_check "invalid HTTP_PORT" c.http.port ∷ []

  abbrev pub log_checks : Config → List (Bool × String)
  log_checks c =
      (not (is_valid_environment c.app.environment), "invalid APP_ENV")
      ∷ (not (is_valid_log_level c.logger.level), "invalid LOG_LEVEL")
      ∷ (not (is_valid_log_format c.logger.format), "invalid LOG_FORMAT")
      ∷ (not (is_valid_log_output c.logger.output), "invalid LOG_OUTPUT")
      ∷ []

  abbrev pub secret_checks : Config → List (Bool × String)
  secret_checks c =
      (c.redis.host == "", "REDIS_HOST must not be empty")
      ∷ (
        ltb (byte_count c.jwt.device_secret) 32,
        "JWT_DEVICE_SECRET must be at least 32 characters",
      )
      ∷ (
        ltb (byte_count c.customer.jwt_secret) 32,
        "CUSTOMER_JWT_SECRET must be at least 32 characters",
      )
      ∷ (
        c.customer.jwt_secret == c.jwt.device_secret,
        "CUSTOMER_JWT_SECRET must differ from JWT_DEVICE_SECRET",
      )
      ∷ (
        is_production c && c.customer.dev_echo_code,
        "CUSTOMER_DEV_ECHO_CODE must be false in production",
      )
      ∷ []

  -- the errors that Validate collects
  unfoldable pub validate : Bool → Config → List String
  unfolding is_valid_port
  validate http_first c = errors_of (log_checks c ++ port_checks http_first c ++ secret_checks c)

-- Load: it panicked, the configuration is not valid, or it is loaded.
pub data Loaded : Type 0 where
  panicked : GoError → Loaded
  invalid : List String → Loaded
  loaded : Config → Loaded

abbrev pub when_valid : Config → List String → Loaded
when_valid c [] = loaded c
when_valid c (e ∷ errs) = invalid (e ∷ errs)

abbrev pub validated : Host → Bool → Result Config → Loaded
unfolding validate
validated host http_first (err e) = panicked e
validated host http_first (ok c) = when_valid c (validate host http_first c)

-- `before` is the environment that Load finds, and `after` the one that loadDotenv leaves.
unfoldable pub load : Host → Host → Bool → Loaded
unfolding get_env load_config validate
load before after http_first =
    validated after http_first (load_config after (get_env before "APP_ENV" "development"))
