-- ===== src/Social.antt =====
-- api/internal/social: sign-in with a provider's token (service.go, postgres.go).
pub mod Providers
pub mod Outcomes
use ecosystem_complete.Prelude.{
  String, Bool, true, false, ◌&&◌, not, Option, none, some, List, [], ◌∷◌, ◌==◌, is_some,
  find_where, exists_where, if◌then◌else◌,
}
use ecosystem_complete.Database.{Db, User, UserIdentity, Status}
use ecosystem_complete.Runtime.{Env, Call, Value, text}
use ecosystem_complete.Runtime.Exec.{
  Exec, ok, failed, pure, raise, lift, query, begin_tx, tx_insert, commit_tx, with_rollback, ◌>>=◌,
  ◌>>◌,
}
use ecosystem_complete.Audit.{
  Event, event, record_event, event_social_login, event_social_login_failed,
  event_social_account_created,
}
use ecosystem_complete.Session
use ecosystem_complete.Session.{Tokens, Meta}
use ecosystem_complete.Session.Issuer.{Issuer}
use ecosystem_complete.UserTokens.{owns}

-- `session` passes on what the issuer answers.
pub data Error : Type 0 where
  invalid_token unknown_provider : Error
  session : Session.Error → Error

-- What a validated token proves.
pub record Identity : Type 0 where
  pub provider : String
  pub subject : String
  pub email : Option String
  pub email_verified : Bool
  pub name : Option String

-- What the Verifier interface answers.
pub data Verdict : Type 0 where
  proves : Identity → Verdict
  no_provider rejects : Verdict

-- PostgresStore.UserIDByIdentity
unfoldable pub find_identity : String → String → Db → Option UserIdentity
find_identity provider subject db =
    find_where
      (λ r. (r.provider == provider) && (r.subject == subject) && not (is_some r.deleted_at))
      db.identities

-- The partial unique index on provider and subject
abbrev pub identity_taken : String → String → Db → Bool
identity_taken provider subject db =
    exists_where
      (λ r. (r.provider == provider) && (r.subject == subject) && not (is_some r.deleted_at))
      db.identities

-- The partial unique index on tx_email, which admits any number of NULLs
unfoldable pub email_taken : Option String → Db → Bool
email_taken none db = false
email_taken (some email) db = exists_where (owns email) db.users

-- The rows that create inserts.
abbrev pub new_user : Env → Identity → Option String → User
new_user env i email = record {
  id = env.new_uuid;
  name = i.name;
  email = email;
  password_hash = none;
  email_verified_at = if i.email_verified && is_some email then some env.db_now else none;
  failed_attempts = 0;
  locked_until = none;
  status = Status.active;
  created_at = env.db_now;
  deleted_at = none;
}

abbrev pub new_identity : Env → Identity → UserIdentity
new_identity env i = record {
  user_id = env.new_uuid;
  provider = i.provider;
  subject = i.subject;
  email = i.email;
  deleted_at = none;
}

unfoldable pub add_user : User → Db → Db
add_user u db = record db { users = u ∷ db.users }

unfoldable pub add_identity : UserIdentity → Db → Db
add_identity r db = record db { identities = r ∷ db.identities }

-- The calls of one run of create.
pub record Calls : Type 0 where
  pub begin : Call
  pub user : Call
  pub identity : Call
  pub commit : Call

abbrev pub first_calls : Calls
first_calls = record {
  begin = Call.begin;
  user = Call.insert_user;
  identity = Call.insert_identity;
  commit = Call.commit;
}

abbrev pub second_calls : Calls
second_calls = record {
  begin = Call.begin_again;
  user = Call.insert_user_again;
  identity = Call.insert_identity_again;
  commit = Call.commit_again;
}

module _ (env : Env) where
  -- The INSERT of the user: false is the violation of the index on the address.
  unfoldable pub insert_user : Call → Identity → Option String → Exec Error Bool
  unfolding email_taken add_user
  insert_user c i email w = elim w.tx [
    | none ↦ (failed c, w)
    | some t ↦ elim (env.fails c) [
      | true ↦ (failed c, w)
      | false ↦ elim (email_taken email t) [
        | true ↦ (ok false, w)
        | false ↦ (ok true, record w { tx = some (add_user (new_user env i email) t) })
      ]
    ]
  ]

  -- PostgresStore.create
  unfoldable pub create : Calls → Identity → Option String → Exec Error Bool
  unfolding insert_user add_identity
  create calls i email = do
    begin_tx env calls.begin
    with_rollback (do
      inserted ← insert_user calls.user i email
      if not inserted then pure false else do
        tx_insert env calls.identity (identity_taken i.provider i.subject)
            (add_identity (new_identity env i))
        commit_tx env calls.commit
        pure true)

  -- PostgresStore.CreateUserWithIdentity. Without an address the second INSERT meets no index.
  unfoldable pub create_user_with_identity : Identity → Exec Error String
  unfolding create
  create_user_with_identity i = do
    created ← create first_calls i (if i.email_verified then i.email else none)
    if created then pure env.new_uuid else do create second_calls i none; pure env.new_uuid

abbrev noted : String → String → Meta → List (String × Value) → Event
noted name user_id meta metadata = record (event name) {
  user_id = user_id;
  ip = meta.ip;
  user_agent = meta.user_agent;
  metadata = metadata;
}

module _ (issuer : Issuer) (verifier : String → String → Verdict) (env : Env) where
  -- Where the identity is not known yet, the account is created.
  unfoldable pub resolve_user : Identity → Meta → Exec Error String
  unfolding find_identity create_user_with_identity
  resolve_user i meta = do
    found ← query env Call.user_id_by_identity (find_identity i.provider i.subject)
    elim found [
      | some row ↦ pure row.user_id
      | none ↦ do
        user_id ← create_user_with_identity env i
        record_event env
            (noted event_social_account_created user_id meta (("provider", text i.provider) ∷ []))
        pure user_id
    ]

  unfoldable pub sign_in : Identity → Meta → Exec Error Tokens
  unfolding resolve_user
  sign_in i meta = do
    user_id ← resolve_user i meta
    tokens ← lift session (issuer.issue env user_id meta)
    record_event env (noted event_social_login user_id meta (("provider", text i.provider) ∷ []))
    pure tokens

  unfoldable pub judge_token : String → Meta → Verdict → Exec Error Tokens
  unfolding sign_in
  judge_token provider meta no_provider = raise unknown_provider
  judge_token provider meta rejects = do
    record_event env (
        noted event_social_login_failed "" meta
          (("provider", text provider) ∷ ("reason", text "invalid_token") ∷ []))
    raise invalid_token
  judge_token provider meta (proves i) = sign_in i meta

  -- Service.Authenticate
  unfoldable pub authenticate : String → String → Meta → Exec Error Tokens
  unfolding judge_token
  authenticate provider id_token meta = judge_token provider meta (verifier provider id_token)
