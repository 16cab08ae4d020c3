-- ===== src/Http/Admin.antt =====
-- admin.go: the handlers of the administration. strconv.Atoi is a parameter, of which the code takes the
-- number also where it answers an error.
use Prim.Native.Char.{Char}
use ecosystem_complete.Prelude.{
  ℕ, String, Bool, not, ◌&&◌, Option, none, some, List, [], ◌∷◌, ◌==◌, ℤ, pos, ltb, if◌then◌else◌,
}
use ecosystem_complete.Prelude.Text.{trim_space, to_lower, byte_length}
use ecosystem_complete.Prelude.Sort.{contains}
use ecosystem_complete.Runtime.{Env}
use ecosystem_complete.Runtime.Exec.{Result, ok, err, failed}
use ecosystem_complete.Audit.{Event, event}
use ecosystem_complete.Security.Quota.{Quota}
use ecosystem_complete.Password.{request_reset}
use ecosystem_complete.Invitation.{invite}
use ecosystem_complete.Identity
use ecosystem_complete.Identity.{UserSummary, user}
use ecosystem_complete.Identity.Admin.{update_user, set_roles}
use ecosystem_complete.Identity.Paging.{UserFilter, list_users}
use ecosystem_complete.Identity.Pages.{Page, normalize_paging}
use ecosystem_complete.Http.{
  Request, Reply, Handler, answer, reply, write_error, write_validation_error, internal_error,
  user_body, page_body,
}
use ecosystem_complete.Http.Sessions.{invalid_json, or_invalid, field}
use ecosystem_complete.Http.Accounts.{with_user, forgot_reply}

-- The query string of the user list
pub record UserQuery : Type 0 where
  pub page : String
  pub limit : String
  pub text : String
  pub status : String
  pub scope : String

pub record InviteRequest : Type 0 where
  pub email : String
  pub name : String

pub record UpdateUserRequest : Type 0 where
  pub name : Option String
  pub status : Option String

-- identity.UserScopes and validUserScope
unfoldable pub valid_user_scope : String → Bool
unfolding contains
valid_user_scope scope = contains ("admin" ∷ "app" ∷ "none" ∷ []) scope

-- validUserStatuses and validUserStatus
unfoldable pub valid_user_status : String → Bool
unfolding contains
valid_user_status status = contains ("ACTIVE" ∷ "INACTIVE" ∷ "SUSPENDED" ∷ []) status

-- paging
unfoldable pub paging : (String → ℤ) → UserQuery → ℕ × ℕ
unfolding normalize_paging
paging atoi q = normalize_paging (atoi q.page) (atoi q.limit)

abbrev pub not_found : Reply
not_found = write_error 404 "not_found"

abbrev pub request_event : Request → Event
request_event r = record (event "") { ip = r.ip; user_agent = r.user_agent }

unfoldable pub page_reply : Result Identity.Error (Page UserSummary) → Reply
page_reply (ok page) = record (answer 200) { body = page_body page }
page_reply _ = internal_error

-- What updateUser and the end of setRoles answer
unfoldable pub update_reply : Result Identity.Error UserSummary → Reply
update_reply (ok u) = record (answer 200) { body = user_body u }
update_reply (err Identity.not_found) = not_found
update_reply _ = internal_error

unfoldable pub updated_reply : Result Identity.Error UserSummary → Reply
updated_reply (ok u) = record (answer 200) { body = user_body u }
updated_reply _ = internal_error

unfoldable pub roles_refusal : Result Identity.Error (List String) → Option Reply
roles_refusal (ok _) = none
roles_refusal (err Identity.unknown_role) =
    some (write_validation_error (("roles", "unknown") ∷ []))
roles_refusal (err Identity.not_found) = some not_found
roles_refusal (failed _) = some internal_error

-- The checks of updateUser on its body, with the name that it goes on with.
unfoldable pub update_fields : UpdateUserRequest → List (String × String)
unfolding byte_length trim_space valid_user_status
update_fields body = elim body.name [
  | none ↦ elim body.status [
    | none ↦ ("name", "required") ∷ []
    | some status ↦ field (not (valid_user_status status)) "status" "invalid"
  ]
  | some name ↦
      if ltb 120 (byte_length (trim_space name))
      then ("name", "too_long") ∷ []
      else elim body.status [
        | none ↦ []
        | some status ↦ field (not (valid_user_status status)) "status" "invalid"
      ]
]

module _ (env : Env) (order : String → String → Bool) where
  -- adminHandlers.users
  unfoldable pub users : (String → String → Bool) → (String → ℤ) → UserQuery → Handler
  unfolding list_users paging valid_user_scope trim_space page_reply
  users ilike atoi q w =
      let scope = trim_space q.scope in
      let (page, limit) = paging atoi q in
      if not (scope == "") && not (valid_user_scope scope)
      then (write_validation_error (("scope", "invalid") ∷ []), w)
      else let filter : UserFilter = record {
        page = pos page;
        limit = pos limit;
        text = trim_space q.text;
        status = trim_space q.status;
        scope = scope;
      } in
        let (listed, w') = list_users order ilike env filter w in (page_reply listed, w')

  -- inviteUser
  unfoldable pub invite_user :
      (Char → Char) → (String → Bool) → String → Option InviteRequest → Handler
  unfolding invite trim_space to_lower
  invite_user lower_other valid_address origin none = reply invalid_json
  invite_user lower_other valid_address origin (some body) =
      let email = to_lower lower_other (trim_space body.email) in
      or_invalid (field (not (valid_address email)) "email" "invalid") λ w.
        let (done, w') = invite {E = Identity.Error} env origin email (trim_space body.name) w in
        elim done [
          | ok _ ↦ (answer 202, w')
          | err _ ↦ (internal_error, w')
          | failed _ ↦ (internal_error, w')
        ]

  -- resetUserPassword: no answer tells why there is nobody to mail.
  unfoldable pub reset_user_password : Quota → String → String → Handler
  unfolding user request_reset forgot_reply
  reset_user_password quota origin target w =
      if target == ""
      then (not_found, w)
      else let (found, w') = user env order target w in
        elim found [
          | err _ ↦ (not_found, w')
          | failed _ ↦ (not_found, w')
          | ok u ↦ elim u.email [
            | none ↦ (not_found, w')
            | some email ↦
                let (done, w'') = request_reset env quota origin email w' in
                (forgot_reply done, w'')
          ]
        ]

  -- adminHandlers.updateUser
  unfoldable pub update_account : Request → String → Option UpdateUserRequest → String → Handler
  unfolding update_user update_fields update_reply trim_space
  update_account r target body = with_user λ actor.
      if target == "" then reply not_found else elim body [
        | none ↦ reply invalid_json
        | some b ↦ or_invalid (update_fields b) λ w.
            let name : Option String = elim b.name [ none ↦ none | some n ↦ some (trim_space n) ] in
            let (updated, w') =
              update_user env order actor target name b.status (request_event r) w in
            (update_reply updated, w')
      ]

  -- adminHandlers.setRoles; a body without roles is some none.
  unfoldable pub assign_account_roles :
      Request → String → Option (Option (List String)) → String → Handler
  unfolding set_roles roles_refusal user updated_reply
  assign_account_roles r target body = with_user λ actor.
      if target == "" then reply not_found else elim body [
        | none ↦ reply invalid_json
        | some none ↦ reply (write_validation_error (("roles", "required") ∷ []))
        | some (some roles) ↦ λ w.
            let (assigned, w') = set_roles env actor target roles (request_event r) w in
            elim (roles_refusal assigned) [
              | some refusal ↦ (refusal, w')
              | none ↦ let (found, w'') = user env order target w' in (updated_reply found, w'')
            ]
      ]
