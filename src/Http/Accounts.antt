-- ===== src/Http/Accounts.antt =====
-- password.go, emailchange.go, social.go and the profile of identity.go: the handlers of accounts.
use Prim.Native.Char.{Char}
use ecosystem_complete.Prelude.{
  String, Bool, not, ◌&&◌, Option, none, some, [], ◌∷◌, ◌++◌, ◌==◌, ltb, if◌then◌else◌,
}
use ecosystem_complete.Prelude.Text.{trim_space, byte_length, to_upper}
use ecosystem_complete.Database.{whole_seconds}
use ecosystem_complete.Runtime.{Env}
use ecosystem_complete.Runtime.Exec.{Result, ok, err, failed}
use ecosystem_complete.Security.Quota.{Quota}
use ecosystem_complete.Session.{Tokens}
use ecosystem_complete.Session.Issuer.{Issuer}
use ecosystem_complete.Password
use ecosystem_complete.Password.{request_reset}
use ecosystem_complete.Password.Reset.{reset}
use ecosystem_complete.Password.Change.{change}
use ecosystem_complete.EmailChange
use ecosystem_complete.EmailChange.Verify.{verify}
use ecosystem_complete.Social
use ecosystem_complete.Social.{Verdict, authenticate}
use ecosystem_complete.Identity
use ecosystem_complete.Identity.{Me, me}
use ecosystem_complete.Http.{
  Request, Reply, Handler, CookieSettings, answer, reply, write_error, write_validation_error,
  internal_error, write_token_pair, me_body,
}
use ecosystem_complete.Http.Guards.{unauthorized}
use ecosystem_complete.Http.Sessions.{
  field, matches_code, min_password_length, invalid_json, or_invalid, request_meta,
}

-- `if userID, ok := userIDFrom(...); !ok`
abbrev pub with_user : (String → Handler) → String → Handler
with_user next user_id w = if user_id == "" then (unauthorized, w) else next user_id w

pub record ResetRequest : Type 0 where
  pub email : String
  pub code : String
  pub new_password : String

pub record ChangeRequest : Type 0 where
  pub current_password : String
  pub new_password : String

pub record EmailChangeRequest : Type 0 where
  pub new_email : String
  pub password : String

pub record SocialRequest : Type 0 where
  pub provider : String
  pub id_token : String
  pub device : String

unfoldable pub forgot_reply : Result Password.Error (Unit {0}) → Reply
forgot_reply (ok _) = answer 202
forgot_reply _ = internal_error

unfoldable pub reset_reply : Result Password.Error (Unit {0}) → Reply
reset_reply (ok _) = answer 200
reset_reply (err Password.invalid_code) = write_error 400 "invalid_code"
reset_reply (err Password.too_many_attempts) = write_error 429 "too_many_attempts"
reset_reply _ = internal_error

unfoldable pub change_reply : Result Password.Error (Unit {0}) → Reply
change_reply (ok _) = answer 200
change_reply (err Password.invalid_current_password) = write_error 400 "invalid_password"
change_reply _ = internal_error

unfoldable pub email_change_reply : Result EmailChange.Error (Unit {0}) → Reply
unfolding whole_seconds
email_change_reply (ok _) = answer 202
email_change_reply (err (EmailChange.too_many_requests d)) =
    record (write_error 429 "rate_limited") { retry_after = some (whole_seconds d) }
email_change_reply (err EmailChange.same_email) =
    write_validation_error (("new_email", "unchanged") ∷ [])
email_change_reply (err EmailChange.email_taken) = write_error 409 "email_unavailable"
email_change_reply (err EmailChange.invalid_password) = write_error 400 "invalid_password"
email_change_reply _ = internal_error

unfoldable pub email_verify_reply : Result EmailChange.Error (Unit {0}) → Reply
email_verify_reply (ok _) = answer 200
email_verify_reply (err EmailChange.invalid_code) = write_error 400 "invalid_code"
email_verify_reply (err EmailChange.too_many_attempts) = write_error 429 "too_many_attempts"
email_verify_reply (err EmailChange.email_taken) = write_error 409 "email_unavailable"
email_verify_reply _ = internal_error

-- The account of a valid token that is gone is unauthorized.
unfoldable pub me_reply : Result Identity.Error Me → Reply
me_reply (ok m) = record (answer 200) { body = me_body m }
me_reply (err Identity.not_found) = unauthorized
me_reply _ = internal_error

module _ (env : Env) where
  -- forgotPassword
  unfoldable pub forgot_password : Quota → String → (String → Bool) → Option String → Handler
  unfolding request_reset forgot_reply trim_space
  forgot_password quota origin valid_address none = reply invalid_json
  forgot_password quota origin valid_address (some email) =
      or_invalid (field (not (valid_address (trim_space email))) "email" "invalid")
        λ w. let (done, w') = request_reset env quota origin email w in (forgot_reply done, w')

  -- resetPassword
  unfoldable pub reset_password : (String → Bool) → Option ResetRequest → Handler
  unfolding reset reset_reply trim_space matches_code byte_length
  reset_password valid_address none = reply invalid_json
  reset_password valid_address (some body) =
      or_invalid
        (field (not (valid_address (trim_space body.email))) "email" "invalid"
          ++ field (not (matches_code body.code)) "code" "invalid"
          ++ field (ltb (byte_length body.new_password) min_password_length) "new_password"
              "too_short")
        λ w.
          let (done, w') = reset env body.email body.code body.new_password w in
          (reset_reply done, w')

  -- changePassword
  unfoldable pub change_password : Option ChangeRequest → String → Handler
  unfolding change change_reply byte_length
  change_password body = with_user λ user_id. elim body [
    | none ↦ reply invalid_json
    | some b ↦
        or_invalid
          (field (b.current_password == "") "current_password" "required"
            ++ field (ltb (byte_length b.new_password) min_password_length) "new_password"
                "too_short")
          λ w.
            let (done, w') = change env user_id b.current_password b.new_password w in
            (change_reply done, w')
  ]

  -- emailChangeHandlers.request
  unfoldable pub request_email_change :
      Quota → (String → Bool) → Option EmailChangeRequest → String → Handler
  unfolding EmailChange.request email_change_reply trim_space
  request_email_change quota valid_address body = with_user λ user_id. elim body [
    | none ↦ reply invalid_json
    | some b ↦
        or_invalid
          (field (not (valid_address (trim_space b.new_email))) "new_email" "invalid"
            ++ field (b.password == "") "password" "required")
          λ w.
            let (done, w') = EmailChange.request env quota user_id b.new_email b.password w in
            (email_change_reply done, w')
  ]

  -- emailChangeHandlers.verify
  unfoldable pub verify_email_change : Option String → String → Handler
  unfolding verify email_verify_reply matches_code
  verify_email_change body = with_user λ user_id. elim body [
    | none ↦ reply invalid_json
    | some code ↦
        or_invalid (field (not (matches_code code)) "code" "invalid")
          λ w. let (done, w') = verify env user_id code w in (email_verify_reply done, w')
  ]

  -- identityHandlers.me
  unfoldable pub show_me : (String → String → Bool) → String → Handler
  unfolding me me_reply
  show_me order =
      with_user λ user_id w. let (done, w') = me env order user_id w in (me_reply done, w')

  unfoldable pub social_reply : CookieSettings → Request → Result Social.Error Tokens → Reply
  unfolding write_token_pair
  social_reply c r (ok tokens) = write_token_pair env c r 200 tokens
  social_reply c r (err Social.unknown_provider) =
      write_validation_error (("provider", "not_configured") ∷ [])
  social_reply c r (err Social.invalid_token) = write_error 401 "invalid_token"
  social_reply c r (err (Social.session _)) = internal_error
  social_reply c r (failed _) = internal_error

  -- socialHandlers.login
  unfoldable pub social_login :
      CookieSettings
      → Request
      → Issuer
      → (String → String → Verdict)
      → (Char → Char)
      → Option SocialRequest
      → Handler
  unfolding authenticate social_reply trim_space to_upper
  social_login c r issuer verifier upper_other none = reply invalid_json
  social_login c r issuer verifier upper_other (some body) =
      let provider = to_upper upper_other (trim_space body.provider) in
      or_invalid
        (field (not (provider == "GOOGLE") && not (provider == "APPLE")) "provider" "invalid"
          ++ field (trim_space body.id_token == "") "id_token" "required")
        λ w.
          let meta = record (request_meta r) { device = trim_space body.device } in
          let (done, w') = authenticate issuer verifier env provider body.id_token meta w in
          (social_reply c r done, w')
