-- ===== src/Config/Load.antt =====
-- The checks of Load, in its order. An error names the variable.
use Prim.Native.Char.{Char}
use ecosystem_complete.Prelude.{
  String, Option, none, some, List, [], ◌∷◌, ◌==◌, ℤ, pos, leb_ℤ, if◌then◌else◌,
}
use ecosystem_complete.Config.{
  Config, Loaded, ok, missing, invalid, DurationKey, key_name, set_duration, lookup, defaults,
  require, parse_bool, parse_log_level,
}

infixl 5 ◌>>=◌
abbrev pub ◌>>=◌ : Loaded → (Config → Loaded) → Loaded
ok cfg >>= f = f cfg
missing name >>= f = missing name
invalid name >>= f = invalid name

module _ (getenv : String → String) where
  module _ (parse_duration : String → Option ℤ) where
    -- One round of the loop over the durations
    unfoldable pub read_duration : DurationKey → Config → Loaded
    unfolding lookup
    read_duration key cfg =
        if lookup getenv (key_name key) == ""
        then ok cfg
        else elim (parse_duration (lookup getenv (key_name key))) [
          | none ↦ invalid (key_name key)
          | some d ↦ if leb_ℤ d (pos 0) then invalid (key_name key) else ok (set_duration key d cfg)
        ]

    unfoldable pub read_durations : List DurationKey → Config → Loaded
    unfolding read_duration
    read_durations [] cfg = ok cfg
    read_durations (key ∷ keys) cfg = read_duration key cfg >>= λ next. read_durations keys next

  unfoldable pub read_cookie_secure : (Char → Char) → Config → Loaded
  unfolding lookup parse_bool
  read_cookie_secure other cfg =
      if lookup getenv "COOKIE_SECURE" == ""
      then ok cfg
      else elim (parse_bool other (lookup getenv "COOKIE_SECURE")) [
        | none ↦ invalid "COOKIE_SECURE"
        | some b ↦ ok (record cfg { cookie_secure = b })
      ]

  unfoldable pub read_max_attempts : (String → Option ℤ) → Config → Loaded
  unfolding lookup
  read_max_attempts atoi cfg =
      if lookup getenv "LOGIN_MAX_ATTEMPTS" == ""
      then ok cfg
      else elim (atoi (lookup getenv "LOGIN_MAX_ATTEMPTS")) [
        | none ↦ invalid "LOGIN_MAX_ATTEMPTS"
        | some n ↦
            if leb_ℤ n (pos 0)
            then invalid "LOGIN_MAX_ATTEMPTS"
            else ok (record cfg { login_max_attempts = n })
      ]

  unfoldable pub read_auto_migrate : (Char → Char) → Config → Loaded
  unfolding lookup parse_bool
  read_auto_migrate other cfg =
      if lookup getenv "DB_AUTO_MIGRATE" == ""
      then ok cfg
      else elim (parse_bool other (lookup getenv "DB_AUTO_MIGRATE")) [
        | none ↦ invalid "DB_AUTO_MIGRATE"
        | some b ↦ ok (record cfg { auto_migrate = b })
      ]

  unfoldable pub read_log_level : (Char → Char) → Config → Loaded
  unfolding lookup parse_log_level
  read_log_level other cfg =
      if lookup getenv "LOG_LEVEL" == ""
      then ok cfg
      else elim (parse_log_level other (lookup getenv "LOG_LEVEL")) [
        | none ↦ invalid "LOG_LEVEL"
        | some level ↦ ok (record cfg { log_level = level })
      ]

  -- Load, with the order in which it visits the durations
  unfoldable pub load :
      (Char → Char) → (String → Option ℤ) → (String → Option ℤ) → List DurationKey → Loaded
  unfolding defaults require read_durations read_cookie_secure read_max_attempts read_auto_migrate
      read_log_level
  load other parse_duration atoi order =
      require (defaults getenv)
      >>= read_durations parse_duration order
      >>= read_cookie_secure other
      >>= read_max_attempts atoi
      >>= read_auto_migrate other
      >>= read_log_level other
