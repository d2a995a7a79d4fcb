-- ===== src/Env.antt =====
-- Reading of the environment, which the config packages of the three services share: `os.Getenv` of
-- an unset variable is the empty text. The parsers of Go's strconv and time are parameters; a
-- duration is its number of nanoseconds, and a rate a whole number.
use doc_lens.Base.{
  ℤ, pos, String, Bool, Option, none, some, ◌==◌, string_eq, ltb_ℤ, if◌then◌else◌, trim_space,
}

abbrev pub Env : Type 0
Env = String → String

-- `strconv.Atoi`, `ParseInt`, `ParseFloat`, `ParseBool` and `time.ParseDuration`; errors are `none`.
pub record Parsers : Type 0 where
  pub atoi : String → Option ℤ
  pub parse_int : String → Option ℤ
  pub parse_float : String → Option ℤ
  pub parse_bool : String → Option Bool
  pub parse_duration : String → Option ℤ

abbrev pub or_fallback : {A : Type 0} → A → Option A → A
or_fallback fallback none = fallback
or_fallback fallback (some a) = a

-- The parsed value, where there is one that is positive.
abbrev pub or_positive : ℤ → Option ℤ → ℤ
or_positive fallback none = fallback
or_positive fallback (some n) = if ltb_ℤ (pos 0) n then n else fallback

-- `getenv`, and `env` of the gateway.
unfoldable pub get_env : Env → String → String → String
get_env env key fallback =
    let value = trim_space (env key) in if value == "" then fallback else value

-- `int64Env`; `envInt`, `envBool` and `envDuration` of the gateway, with their parsers.
unfoldable pub parsed_env : {A : Type 0} → Env → (String → Option A) → String → A → A
parsed_env env parse key fallback =
    let value = trim_space (env key) in
    if value == "" then fallback else or_fallback fallback (parse value)

-- `intEnv`, `floatEnv` and `durationEnv` of the document intake service, with their parsers.
unfoldable pub positive_env : Env → (String → Option ℤ) → String → ℤ → ℤ
positive_env env parse key fallback =
    let value = trim_space (env key) in
    if value == "" then fallback else or_positive fallback (parse value)
