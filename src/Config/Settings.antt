-- ===== src/Config/Settings.antt =====
-- What a configuration that Load accepts holds.
use Prim.Native.Char.{Char}
use ecosystem_complete.Prelude.{
  ◌≤◌, ◌≡◌, ap, ◌∙◌, String, true, false, Option, List, ◌==◌, ℤ, pos, ◌<ℤ◌, if◌then◌else◌,
}
use ecosystem_complete.Prelude.Text.{byte_length}
use ecosystem_complete.Config.{
  Config, Loaded, ok, DurationKey, duration_of, defaults, require, min_jwt_secret_length,
}
use ecosystem_complete.Config.Load.{
  ◌>>=◌, read_durations, read_cookie_secure, read_max_attempts, read_auto_migrate, read_log_level,
  load,
}
use ecosystem_complete.Config.Steps.{
  visits, chosen, IsPositive, bind_ok, defaults-IsPositive, Keeps-duration, Keeps-IsPositive,
  Keeps-trans, read_durations_ok, read_cookie_secure-Keeps, read_max_attempts-Keeps,
  read_auto_migrate-Keeps, read_log_level-Keeps, require_ok,
}

module _ (getenv : String → String) (parse_duration : String → Option ℤ) (other : Char → Char)
    (atoi : String → Option ℤ) where
  -- A configuration that Load accepts, in whatever order it visits the durations, names a database
  -- and a Redis server, has a secret of at least 32 bytes, positive durations and at least one login
  -- attempt. A duration that is visited is the variable's, or the default where it is blank.
  pub load_ok :
      (order : List DurationKey) (key : DurationKey) (cfg : Config)
      → load getenv other parse_duration atoi order ≡ ok cfg
      → visits order key ≡ true
      → ((cfg.database_url == "") ≡ false)
        × ((cfg.redis_addr == "") ≡ false)
        × (min_jwt_secret_length ≤ byte_length cfg.jwt_secret)
        × IsPositive cfg
        × (pos 0 <ℤ cfg.login_max_attempts)
        × (duration_of key cfg
            ≡ chosen getenv parse_duration key (duration_of key (defaults getenv)))
  unfolding load
  load_ok order key cfg e visited =
      let m1 : Loaded = require (defaults getenv) in
      let m2 : Loaded = m1 >>= read_durations getenv parse_duration order in
      let m3 : Loaded = m2 >>= read_cookie_secure getenv other in
      let m4 : Loaded = m3 >>= read_max_attempts getenv atoi in
      let m5 : Loaded = m4 >>= read_auto_migrate getenv other in
      let (e5, l5, p5) = bind_ok m5 (read_log_level getenv other) e in
      let (e4, l4, p4) = bind_ok m4 (read_auto_migrate getenv other) l5 in
      let (e3, l3, p3) = bind_ok m3 (read_max_attempts getenv atoi) l4 in
      let (e2, l2, p2) = bind_ok m2 (read_cookie_secure getenv other) l3 in
      let (e1, l1, p1) = bind_ok m1 (read_durations getenv parse_duration order) l2 in
      let (same, url, redis, secret) = require_ok (defaults getenv) e1 l1 in
      let (set, kept, positive) = read_durations_ok getenv parse_duration order key e1 e2 p1 in
      let k3 = read_cookie_secure-Keeps getenv parse_duration other atoi e2 e3 p2 in
      let k4 = read_max_attempts-Keeps getenv parse_duration other atoi e3 e4 p3 in
      let k5 = read_auto_migrate-Keeps getenv parse_duration other atoi e4 e5 p4 in
      let k6 = read_log_level-Keeps getenv parse_duration other atoi e5 cfg p5 in
      let k = Keeps-trans e2 e4 cfg (Keeps-trans e2 e3 e4 k3 k4) (Keeps-trans e4 e5 cfg k5 k6) in
      let url2 : cfg.database_url ≡ (defaults getenv).database_url =
        k.0 ∙ ap (λ (x : Config). x.database_url) kept ∙ ap (λ (x : Config). x.database_url) same in
      let redis2 : cfg.redis_addr ≡ (defaults getenv).redis_addr =
        k.1 ∙ ap (λ (x : Config). x.redis_addr) kept ∙ ap (λ (x : Config). x.redis_addr) same in
      let secret2 : cfg.jwt_secret ≡ (defaults getenv).jwt_secret =
        k.2 ∙ ap (λ (x : Config). x.jwt_secret) kept ∙ ap (λ (x : Config). x.jwt_secret) same in
      let tries : e2.login_max_attempts ≡ (defaults getenv).login_max_attempts =
        ap (λ (x : Config). x.login_max_attempts) kept
        ∙ ap (λ (x : Config). x.login_max_attempts) same in
      let start : IsPositive e1 = rw same (defaults-IsPositive getenv).0 in
      (
        ap (λ t. t == "") url2 ∙ url,
        ap (λ t. t == "") redis2 ∙ redis,
        rw secret2 secret,
        Keeps-IsPositive e2 cfg k (positive start),
        k.6 (rw tries (defaults-IsPositive getenv).1),
        Keeps-duration key e2 cfg k
            ∙ set
            ∙ ap
                (λ b.
                  if b
                  then chosen getenv parse_duration key (duration_of key e1)
                  else duration_of key e1)
                visited
            ∙ ap (λ c. chosen getenv parse_duration key (duration_of key c)) same,
      )
