-- ===== src/Session/Access.antt =====
-- Parse of session.go. The JWT library is a parameter: what it does with a key function, the accepted
-- methods, a clock and a token, none for any of its errors.
use ecosystem_complete.Prelude.{
  ◌≡◌, refl, inl, inr, ◌/◌, ◌*◌, String, Bool, true, false, not, Option, none, some, List, [], ◌∷◌,
  arith, ◌==◌, Bool-cases, exists_where, pos, negsuc, ◌+ℤ◌, if◌then◌else◌,
}
use ecosystem_complete.Prelude.Sort.{contains}
use ecosystem_complete.Database.{Time, before}
use ecosystem_complete.Runtime.{Env, World}
use ecosystem_complete.Runtime.Exec.{ok}
use ecosystem_complete.Session
use ecosystem_complete.Session.{
  Meta, Tokens, issue, sign_access, token_pair, store_refresh_token, new_refresh_token,
}

-- jwt.RegisteredClaims
pub record Claims : Type 0 where
  pub subject : String
  pub issuer : String
  pub issued_at : Time
  pub expires_at : Time
  pub id : String

-- ErrInvalidToken, ErrMissingSub
pub data Parsed : Type 0 where
  accepted : Claims → Parsed
  invalid_token missing_subject : Parsed

-- jwt.ParseWithClaims: the key for a token's method, the valid methods, the time, and the token; the
-- claims with the field Valid.
abbrev pub Library : Type 0
Library = (String → Option String) → List String → Time → String → Option (Claims × Bool)

-- The key function of Parse
unfoldable pub key_for : String → String → Option String
key_for secret algorithm = if not (algorithm == "HS256") then none else some secret

-- Issuer.Parse
unfoldable pub parse : Library → String → Time → String → Parsed
unfolding key_for
parse library secret now raw = elim (library (key_for secret) ("HS256" ∷ []) now raw) [
  | none ↦ invalid_token
  | some (claims, valid) ↦
      if not valid
      then invalid_token
      else if claims.subject == ""
      then missing_subject
      else accepted claims
]

-- The subject of RequireAuth, for a parser that is Parse
unfoldable pub subject_of : Library → String → Time → String → Option String
unfolding parse
subject_of library secret now raw = elim (parse library secret now raw) [
  | accepted claims ↦ some claims.subject
  | invalid_token ↦ none
  | missing_subject ↦ none
]

-- jwt.NewNumericDate: the whole second that holds the time, for a time after 1970
abbrev pub numeric_date : Time → Time
numeric_date (pos n) = pos (n / 1_000_000_000 * 1_000_000_000)
numeric_date (negsuc n) = negsuc n

-- What the library documents of a token that is signed with the secret by HS256: it reads the claims back
-- where the key function answers that secret for HS256 and HS256 is a valid method, and it accepts the
-- token exactly before its expiry.
abbrev pub ReadsBack : Library → String → String → Claims → Type 0
ReadsBack library secret raw claims =
    (keys : String → Option String) (methods : List String) (now : Time)
    → keys "HS256" ≡ some secret
    → contains methods "HS256" ≡ true
    → library keys methods now raw
      ≡ (if before now claims.expires_at then some (claims, true) else none)

-- The claims that signAccess signs, as the library keeps them.
abbrev pub access_claims : Env → Session.Config → String → Claims
access_claims env cfg user_id = record {
  subject = user_id;
  issuer = cfg.issuer;
  issued_at = numeric_date env.now;
  expires_at = numeric_date (env.now +ℤ cfg.access_ttl);
  id = env.new_jti;
}

-- The token that signAccess makes.
abbrev pub access_token : Env → Session.Config → String → String
access_token env cfg user_id =
    env.sign cfg.secret user_id cfg.issuer env.now (env.now +ℤ cfg.access_ttl) env.new_jti

parse-ReadsBack :
    (library : Library) (secret raw : String) (claims : Claims) (now : Time)
    → ReadsBack library secret raw claims
    → (claims.subject == "") ≡ false
    → parse library secret now raw
      ≡ (if before now claims.expires_at then accepted claims else invalid_token)
unfolding parse key_for contains exists_where
parse-ReadsBack library secret raw claims now law named =
    let read = law (key_for secret) ("HS256" ∷ []) now refl refl in
    elim (Bool-cases (before now claims.expires_at)) [
      | inl e ↦ rw (read, e, named, parse) refl
      | inr e ↦ rw (read, e, parse) refl
    ]

module _ (env : Env) (cfg : Session.Config) (user_id : String) (meta : Meta) (w : World) where
  issue-sign :
      (tokens : Tokens) (w' : World)
      → issue env cfg user_id meta w ≡ (ok tokens, w')
      → ((user_id == "") ≡ false) × (tokens.access_token ≡ access_token env cfg user_id)
  unfolding issue
  issue-sign tokens w' e = (ground arith, ground arith)

  -- Where the library reads back the token that was signed, Parse with the secret of the configuration
  -- accepts the access token that Issue answers with, as the user's and with the configured issuer, at any time before the whole second of its
  -- expiry, and refuses it as invalid from then on.
  pub parse-issue :
      (library : Library) (tokens : Tokens) (w' : World) (now : Time)
      → ReadsBack library cfg.secret (access_token env cfg user_id) (access_claims env cfg user_id)
      → issue env cfg user_id meta w ≡ (ok tokens, w')
      → parse library cfg.secret now tokens.access_token ≡ (
          if before now (numeric_date (env.now +ℤ cfg.access_ttl))
          then accepted (access_claims env cfg user_id)
          else invalid_token)
  parse-issue library tokens w' now law e =
      let (named, signed) = issue-sign tokens w' e in
      rw signed (parse-ReadsBack library cfg.secret _ (access_claims env cfg user_id) now law named)
