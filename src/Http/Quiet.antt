-- ===== src/Http/Quiet.antt =====
-- The methods of the services that put nothing on the mail queue: those that sign in, sign out, and read
-- or change accounts and roles.
use ecosystem_complete.Prelude.{◌≡◌, ap, String, Bool, Option, List, arith}
use ecosystem_complete.Audit.{Event}
use ecosystem_complete.Runtime.{Env, World}
use ecosystem_complete.Runtime.Exec.{Exec}
use ecosystem_complete.Session
use ecosystem_complete.Session.{Meta}
use ecosystem_complete.Session.Issuer.{Issuer}
use ecosystem_complete.Session.Rotate
use ecosystem_complete.Login
use ecosystem_complete.Signup
use ecosystem_complete.Signup.Verify
use ecosystem_complete.Social
use ecosystem_complete.Social.{Verdict}
use ecosystem_complete.Identity
use ecosystem_complete.Identity.Admin
use ecosystem_complete.Identity.Paging
use ecosystem_complete.Identity.Events

-- The action puts nothing on the mail queue, whatever it answers.
abbrev pub IsQuiet : {E A : Type 0} → Exec E A → Type 0
IsQuiet m = (w : World) → (m w).1.outbox ≡ w.outbox

module _ (env : Env) where
  pub refresh-IsQuiet :
      (cfg : Session.Config) (raw : String) (meta : Meta)
      → IsQuiet (Session.Rotate.refresh env cfg raw meta)
  unfolding Session.Rotate.refresh
  refresh-IsQuiet cfg raw meta w = ground arith

  pub logout-IsQuiet : (raw : String) → IsQuiet (Session.Rotate.logout env raw)
  unfolding Session.Rotate.logout
  logout-IsQuiet raw w = ground arith

  module _ (issuer : Issuer) where
    pub issue-IsQuiet : (user_id : String) (meta : Meta) → IsQuiet (issuer.issue env user_id meta)
    issue-IsQuiet user_id meta w =
        ap (λ (v : World). v.outbox) (issuer.issue_frame env user_id meta w)

    pub succeed-IsQuiet :
        (cfg : Login.Config) (user : Login.Account) (email : String) (meta : Meta)
        → IsQuiet (Login.succeed issuer cfg env user email meta)
    unfolding Login.succeed
    succeed-IsQuiet cfg user email meta w = grind (arith, issue-IsQuiet)

    pub login-IsQuiet :
        (cfg : Login.Config) (email password : String) (meta : Meta)
        → IsQuiet (Login.login issuer cfg env email password meta)
    unfolding Login.login
    login-IsQuiet cfg email password meta w = grind (arith, succeed-IsQuiet)

    pub verify-IsQuiet :
        (email code : String) (meta : Meta)
        → IsQuiet (Signup.Verify.verify issuer env email code meta)
    unfolding Signup.Verify.verify
    verify-IsQuiet email code meta w = grind (arith, issue-IsQuiet)

    pub social-IsQuiet :
        (verifier : String → String → Verdict) (provider id_token : String) (meta : Meta)
        → IsQuiet (Social.authenticate issuer verifier env provider id_token meta)
    unfolding Social.authenticate
    social-IsQuiet verifier provider id_token meta w = grind (arith, issue-IsQuiet)

  pub me-IsQuiet :
      (order : String → String → Bool) (user_id : String) → IsQuiet (Identity.me env order user_id)
  unfolding Identity.me
  me-IsQuiet order user_id w = ground arith

  pub user-IsQuiet :
      (order : String → String → Bool) (user_id : String)
      → IsQuiet (Identity.user env order user_id)
  unfolding Identity.user
  user-IsQuiet order user_id w = ground arith

  pub set_roles-IsQuiet :
      (actor target : String) (roles : List String) (meta : Event)
      → IsQuiet (Identity.Admin.set_roles env actor target roles meta)
  unfolding Identity.Admin.set_roles
  set_roles-IsQuiet actor target roles meta w = ground arith

  pub update_user-IsQuiet :
      (order : String → String → Bool) (actor target : String) (name status : Option String)
      (meta : Event)
      → IsQuiet (Identity.Admin.update_user env order actor target name status meta)
  unfolding Identity.Admin.update_user
  update_user-IsQuiet order actor target name status meta w = ground arith

  pub list_users-IsQuiet :
      (order ilike : String → String → Bool) (filter : Identity.Paging.UserFilter)
      → IsQuiet (Identity.Paging.list_users order ilike env filter)
  unfolding Identity.Paging.list_users
  list_users-IsQuiet order ilike filter w = ground arith

  pub list_events-IsQuiet :
      (filter : Identity.Events.AuditFilter)
      → IsQuiet (Identity.Events.list_audit_events env filter)
  unfolding Identity.Events.list_audit_events
  list_events-IsQuiet filter w = ground arith
