-- ===== src/Startup/Settings.antt =====
-- The settings that are read from environment variables: internal/config/helper.go. A panic is an
-- error.
use Prim.Native.String.{◌++◌}
use kfc_userapi.Prelude.{
  String, ◌==◌, Bool, true, false, ◌||◌, Option, none, some, List, [], ◌∷◌, if◌then◌else◌,
}
use kfc_userapi.Prelude.Int.{ℤ}
use kfc_userapi.Prelude.Text.{trim_space}
use kfc_userapi.Domain.Errors.{plain}
use kfc_userapi.Domain.Result.{Result, ok, err}

-- os.Getenv and the parsers of Go: strings.ToLower, strings.Split at commas, strconv.ParseBool and
-- Atoi, time.ParseDuration, and `%d` of fmt.Sscanf. A text that is not parsed is `none`.
pub record Host : Type 0 where
  pub getenv : String → String
  pub to_lower : String → String
  pub split : String → List String
  pub parse_bool : String → Option Bool
  pub atoi : String → Option ℤ
  pub parse_duration : String → Option ℤ
  pub scan_int : String → Option ℤ

abbrev pub panic {ℓ} : {A : Type ℓ} → String → String → Result A
panic key what = err (plain ("environment variable " ++ key ++ " must be " ++ what))

-- if err != nil {panic(…) }
abbrev pub or_panic {ℓ} : {A : Type ℓ} → String → String → Option A → Result A
or_panic key what none = panic key what
or_panic key what (some a) = ok a

module _ (host : Host) where
  unfoldable pub get_env : String → String → String
  unfolding trim_space
  get_env key fallback = let v = trim_space (host.getenv key) in if v == "" then fallback else v

  abbrev pub is_yes : String → Bool
  is_yes v = v == "true" || v == "1" || v == "yes" || v == "on"

  abbrev pub is_no : String → Bool
  is_no v = v == "false" || v == "0" || v == "no" || v == "off"

  unfoldable pub get_env_bool : String → Bool → Result Bool
  unfolding trim_space
  get_env_bool key fallback =
      let trimmed = trim_space (host.getenv key) in
      let v = host.to_lower trimmed in
      if trimmed == ""
      then ok fallback
      else if is_yes v
      then ok true
      else if is_no v
      then ok false
      else or_panic key "a boolean" (host.parse_bool v)

  unfoldable pub get_env_duration : String → ℤ → Result ℤ
  unfolding trim_space
  get_env_duration key fallback =
      let v = trim_space (host.getenv key) in
      if v == "" then ok fallback else or_panic key "a valid duration" (host.parse_duration v)

  unfoldable pub get_env_int : String → ℤ → Result ℤ
  unfolding trim_space
  get_env_int key fallback =
      let v = trim_space (host.getenv key) in
      if v == "" then ok fallback else or_panic key "an integer" (host.atoi v)

  -- the loop of getEnvSlice
  abbrev pub non_empty : List String → List String
  unfolding trim_space
  non_empty [] = []
  non_empty (p ∷ parts) =
      let trimmed = trim_space p in
      if trimmed == "" then non_empty parts else trimmed ∷ non_empty parts

  unfoldable pub get_env_slice : String → List String → List String
  unfolding get_env
  get_env_slice key fallback =
      let raw = get_env key "" in if raw == "" then fallback else non_empty (host.split raw)
