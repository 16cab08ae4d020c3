-- ===== src/Session/Issuer.antt =====
-- The `Issuer` interface of signup, login and social, with what they rely on, and its implementation.
use ecosystem_complete.Prelude.{◌≡◌, String, arith}
use ecosystem_complete.Runtime.{Env, World}
use ecosystem_complete.Runtime.Exec.{Exec}
use ecosystem_complete.Session.{Error, Config, Tokens, Meta, issue}

pub record Issuer : Type 0 where
  pub issue : Env → String → Meta → Exec Error Tokens
  -- Nothing but the refresh tokens changes.
  pub issue_frame :
      (env : Env) (user_id : String) (meta : Meta) (w : World)
      → (issue env user_id meta w).1 ≡ record w {
        db = record w.db { refresh_tokens = (issue env user_id meta w).1.db.refresh_tokens };
      }

pub issue_frame_lem :
    (cfg : Config) (env : Env) (user_id : String) (meta : Meta) (w : World)
    → (issue env cfg user_id meta w).1 ≡ record w {
      db = record w.db { refresh_tokens = (issue env cfg user_id meta w).1.db.refresh_tokens };
    }
unfolding issue
issue_frame_lem cfg env user_id meta w = ground arith

-- session.New
abbrev pub session_issuer : Config → Issuer
session_issuer cfg = record {
  issue = λ env user_id meta. issue env cfg user_id meta;
  issue_frame = issue_frame_lem cfg;
}
