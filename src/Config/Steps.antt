-- ===== src/Config/Steps.antt =====
-- What each check of Load sets and leaves alone.
use Prim.Native.Char.{Char}
use ecosystem_complete.Prelude.{
  ◌≤◌, ◌≡◌, refl, ◌∙◌, String, Bool, true, false, ◌||◌, Option, none, some, List, [], ◌∷◌, arith,
  ◌==◌, ℤ, pos, ◌<ℤ◌, if◌then◌else◌,
}
use ecosystem_complete.Prelude.Text.{byte_length}
use ecosystem_complete.Database.{Duration}
use ecosystem_complete.Config.{
  Config, Loaded, ok, missing, invalid, DurationKey, key_name, duration_of, lookup, defaults,
  require, min_jwt_secret_length,
}
use ecosystem_complete.Config.Load.{
  ◌>>=◌, read_duration, read_durations, read_cookie_secure, read_max_attempts, read_auto_migrate,
  read_log_level,
}

abbrev same_key : DurationKey → DurationKey → Bool
same_key DurationKey.access_token_ttl DurationKey.access_token_ttl = true
same_key DurationKey.refresh_token_ttl DurationKey.refresh_token_ttl = true
same_key DurationKey.login_lock_duration DurationKey.login_lock_duration = true
same_key _ _ = false

abbrev pub visits : List DurationKey → DurationKey → Bool
visits [] key = false
visits (k ∷ keys) key = same_key k key || visits keys key

abbrev pub KeepsOthers : Config → Config → Type 0
KeepsOthers cfg cfg' = cfg' ≡ record cfg {
  access_token_ttl = cfg'.access_token_ttl;
  refresh_token_ttl = cfg'.refresh_token_ttl;
  login_lock_duration = cfg'.login_lock_duration;
}

-- The settings of the properties below stay as they are.
abbrev pub Keeps : Config → Config → Type 0
Keeps cfg cfg' =
    (cfg'.database_url ≡ cfg.database_url)
    × (cfg'.redis_addr ≡ cfg.redis_addr)
    × (cfg'.jwt_secret ≡ cfg.jwt_secret)
    × (cfg'.access_token_ttl ≡ cfg.access_token_ttl)
    × (cfg'.refresh_token_ttl ≡ cfg.refresh_token_ttl)
    × (cfg'.login_lock_duration ≡ cfg.login_lock_duration)
    × (pos 0 <ℤ cfg.login_max_attempts → pos 0 <ℤ cfg'.login_max_attempts)

-- Every duration that Load reads is positive.
abbrev pub IsPositive : Config → Type 0
IsPositive cfg =
    (pos 0 <ℤ cfg.access_token_ttl)
    × (pos 0 <ℤ cfg.refresh_token_ttl)
    × (pos 0 <ℤ cfg.login_lock_duration)

pub bind_ok :
    (m : Loaded) (f : Config → Loaded) {c : Config}
    → (m >>= f) ≡ ok c
    → (b : Config) × (m ≡ ok b) × (f b ≡ ok c)
bind_ok (ok b) f e = (b, refl, e)
bind_ok (missing name) f e = cc
bind_ok (invalid name) f e = cc

pub defaults-IsPositive :
    (getenv : String → String)
    → IsPositive (defaults getenv) × (pos 0 <ℤ (defaults getenv).login_max_attempts)
unfolding defaults
defaults-IsPositive getenv = ground arith

pub require_ok :
    (cfg a : Config)
    → require cfg ≡ ok a
    → (a ≡ cfg)
      × ((cfg.database_url == "") ≡ false)
      × ((cfg.redis_addr == "") ≡ false)
      × (min_jwt_secret_length ≤ byte_length cfg.jwt_secret)
unfolding require
require_ok cfg a e = ground arith

pub Keeps-duration :
    (key : DurationKey) (a b : Config) → Keeps a b → duration_of key b ≡ duration_of key a
Keeps-duration DurationKey.access_token_ttl a b k = k.3
Keeps-duration DurationKey.refresh_token_ttl a b k = k.4
Keeps-duration DurationKey.login_lock_duration a b k = k.5

pub Keeps-IsPositive : (a b : Config) → Keeps a b → IsPositive a → IsPositive b
Keeps-IsPositive a b k h = rw (k.3, k.4, k.5) h

pub Keeps-trans : (a b c : Config) → Keeps a b → Keeps b c → Keeps a c
Keeps-trans a b c k l =
    (l.0 ∙ k.0, l.1 ∙ k.1, l.2 ∙ k.2, l.3 ∙ k.3, l.4 ∙ k.4, l.5 ∙ k.5, λ h. l.6 (k.6 h))

module _ (getenv : String → String) (parse_duration : String → Option ℤ) where
  -- What a variable says of a duration, over a default.
  abbrev pub chosen : DurationKey → Duration → Duration
  chosen key fallback =
      if lookup getenv (key_name key) == ""
      then fallback
      else elim (parse_duration (lookup getenv (key_name key))) [ none ↦ fallback | some d ↦ d ]

  read_duration-chosen :
      (k key : DurationKey) (cfg cfg' : Config)
      → read_duration getenv parse_duration k cfg ≡ ok cfg'
      → duration_of key cfg'
        ≡ (if same_key k key then chosen key (duration_of key cfg) else duration_of key cfg)
  unfolding read_duration
  read_duration-chosen DurationKey.access_token_ttl key cfg cfg' e = ground arith
  read_duration-chosen DurationKey.refresh_token_ttl key cfg cfg' e = ground arith
  read_duration-chosen DurationKey.login_lock_duration key cfg cfg' e = ground arith

  read_duration_keeps :
      (k : DurationKey) (cfg cfg' : Config)
      → read_duration getenv parse_duration k cfg ≡ ok cfg'
      → KeepsOthers cfg cfg' × (IsPositive cfg → IsPositive cfg')
  unfolding read_duration
  read_duration_keeps DurationKey.access_token_ttl cfg cfg' e = (ground arith, λ h. ground arith)
  read_duration_keeps DurationKey.refresh_token_ttl cfg cfg' e = (ground arith, λ h. ground arith)
  read_duration_keeps DurationKey.login_lock_duration cfg cfg' e = (ground arith, λ h. ground arith)

  pub read_durations_ok :
      (keys : List DurationKey) (key : DurationKey) (cfg cfg' : Config)
      → read_durations getenv parse_duration keys cfg ≡ ok cfg'
      → (duration_of key cfg'
          ≡ (if visits keys key then chosen key (duration_of key cfg) else duration_of key cfg))
        × KeepsOthers cfg cfg'
        × (IsPositive cfg → IsPositive cfg')
  unfolding read_durations
  read_durations_ok [] key cfg cfg' e = (ground arith, ground arith, λ h. ground arith)
  read_durations_ok (k ∷ keys) key cfg cfg' e =
      let (mid, first, rest) = bind_ok (read_duration getenv parse_duration k cfg) _ e in
      let (same, positive) = read_duration_keeps k cfg mid first in
      let (set, same', positive') = read_durations_ok keys key mid cfg' rest in
      (
        ground (arith, set, read_duration-chosen k key cfg mid first),
        ground (arith, same, same'),
        λ h. positive' (positive h),
      )

  module _ (other : Char → Char) (atoi : String → Option ℤ) where
    pub read_cookie_secure-Keeps :
        (cfg a : Config) → read_cookie_secure getenv other cfg ≡ ok a → Keeps cfg a
    unfolding read_cookie_secure
    read_cookie_secure-Keeps cfg a e = (
      ground arith,
      ground arith,
      ground arith,
      ground arith,
      ground arith,
      ground arith,
      λ h. ground arith,
    )

    pub read_max_attempts-Keeps :
        (cfg a : Config) → read_max_attempts getenv atoi cfg ≡ ok a → Keeps cfg a
    unfolding read_max_attempts
    read_max_attempts-Keeps cfg a e = (
      ground arith,
      ground arith,
      ground arith,
      ground arith,
      ground arith,
      ground arith,
      λ h. ground arith,
    )

    pub read_auto_migrate-Keeps :
        (cfg a : Config) → read_auto_migrate getenv other cfg ≡ ok a → Keeps cfg a
    unfolding read_auto_migrate
    read_auto_migrate-Keeps cfg a e = (
      ground arith,
      ground arith,
      ground arith,
      ground arith,
      ground arith,
      ground arith,
      λ h. ground arith,
    )

    pub read_log_level-Keeps :
        (cfg a : Config) → read_log_level getenv other cfg ≡ ok a → Keeps cfg a
    unfolding read_log_level
    read_log_level-Keeps cfg a e = (
      ground arith,
      ground arith,
      ground arith,
      ground arith,
      ground arith,
      ground arith,
      λ h. ground arith,
    )
