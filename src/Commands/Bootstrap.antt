-- ===== src/Commands/Bootstrap.antt =====
-- api/cmd/bootstrap/main.go: the command that grants the first role.
use ecosystem_complete.Prelude.{
  ◌≡◌, ◌∙◌, sym, ap, String, some, List, [], ◌∷◌, ◌==◌, arith, inl, inr, Option-cases, exists_where,
  length, if◌then◌else◌,
}
use ecosystem_complete.Prelude.Text.{to_lower}
use ecosystem_complete.Database.{User}
use ecosystem_complete.Runtime.{Env, Call, World}
use ecosystem_complete.Runtime.Exec.{
  Exec, Result, ok, raise, or_raise, attempt, query, lift, ◌>>=◌, ◌>>◌,
}
use ecosystem_complete.Audit.{event}
use ecosystem_complete.Config.{lookup, value_or}
use ecosystem_complete.Login.{by_email}
use ecosystem_complete.Identity
use ecosystem_complete.Identity.Capabilities.{holds}
use ecosystem_complete.Identity.Admin.{resolve_roles, store_roles, set_roles}
use ecosystem_complete.Identity.RoleChanges.{grants_by_id, set_roles_ok}

pub data Refusal : Type 0 where
  missing_variable : String → Refusal
  no_user : Refusal
  refused : Identity.Error → Refusal

module _ (env : Env) (getenv : String → String) where
  -- `strings.ToLower(strings.TrimSpace(os.Getenv("EMAIL")))`
  unfoldable pub wanted_email : String
  unfolding lookup to_lower
  wanted_email = to_lower env.lower_other (lookup getenv "EMAIL")

  unfoldable pub wanted_role : String
  unfolding value_or
  wanted_role = value_or getenv "ROLE" "SUPERADMIN"

  -- The part of run that has its variables; the pool is closed whatever happens.
  unfoldable pub grant : String → String → Exec Refusal (List String)
  unfolding by_email
  grant email role = do
    attempt env Call.open_pool tt
    found ← query env Call.find_user (by_email email)
    user ← or_raise found no_user
    lift refused (store_roles env user.id (role ∷ []))

  -- run
  unfoldable pub bootstrap : Exec Refusal (List String)
  unfolding lookup wanted_email wanted_role grant
  bootstrap =
      if lookup getenv "DATABASE_URL" == ""
      then raise (missing_variable "DATABASE_URL")
      else if wanted_email == ""
      then raise (missing_variable "EMAIL")
      else grant wanted_email wanted_role

store-set_roles :
    (env : Env) (user_id : String) (roles : List String) (w : World)
    → let (r, w') = store_roles env user_id roles w in
      let (r', w'') = set_roles env "" user_id roles (event "") w in (r' ≡ r) × (w''.db ≡ w'.db)
unfolding set_roles
store-set_roles env user_id roles w = (ground arith, ground arith)

module _ (env : Env) (getenv : String → String) (w : World) (names : List String) (w' : World) where
  bootstrap-store_roles :
      bootstrap env getenv w ≡ (ok names, w')
      → (u : User) × (by_email (wanted_email env getenv) w.db ≡ some u)
        × (store_roles env u.id (wanted_role env getenv ∷ []) w ≡ (ok names, w'))
  unfolding bootstrap
  bootstrap-store_roles e = elim (Option-cases (by_email (wanted_email env getenv) w.db)) [
    | inl nobody ↦ absurd (ground arith)
    | inr (u, found) ↦ (u, found, ground arith)
  ]

  -- The command that succeeds has found an account of the address, which is not deleted, and one live role
  -- of the name; afterwards the account holds what live roles with the id of this role grant, and nothing
  -- else, while everyone else holds what they held.
  pub bootstrap_ok :
      (v code : String)
      → bootstrap env getenv w ≡ (ok names, w')
      → (u : User) × (by_email (wanted_email env getenv) w.db ≡ some u)
        × (length (resolve_roles (wanted_role env getenv ∷ []) w.db) ≡ 1)
        × (holds v code w'.db ≡ (
            if v == u.id
            then exists_where
                (λ r. grants_by_id w.db code r.id)
                (resolve_roles (wanted_role env getenv ∷ []) w.db)
            else holds v code w.db))
  bootstrap_ok v code e =
      let (u, found, stored) = bootstrap-store_roles e in
      let roles = wanted_role env getenv ∷ [] in
      let (same, db) = store-set_roles env u.id roles w in
      let granted : set_roles env "" u.id roles (event "") w
          ≡ (ok names, (set_roles env "" u.id roles (event "") w).1) =
        ground (arith, same, stored) in
      let (valid, known, one, listed, held) =
        set_roles_ok env "" u.id roles (event "") w names _ v code granted in
      (
        u,
        found,
        one,
        ap (holds v code) (
              ap (λ (r : Result Identity.Error (List String) × World). r.1.db) (sym stored)
              ∙ sym db)
            ∙ held,
      )
