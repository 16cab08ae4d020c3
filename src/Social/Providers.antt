-- ===== src/Social/Providers.antt =====
-- social/oidc.go: what a provider's ID token proves. Discovery and the validation of signature, audience
-- and expiry are the OIDC library's: a parameter answers the claims, none for any of its errors.
use Prim.Native.Char.{Char}
use ecosystem_complete.Prelude.{
  ◌≡◌, String, Bool, false, Option, none, some, List, [], ◌∷◌, ◌==◌, arith, eq_iff, if◌then◌else◌,
}
use ecosystem_complete.Prelude.Text.{trim_space, to_lower, to_upper}
use ecosystem_complete.Social.{Identity, Verdict, proves, no_provider, rejects}

-- The JSON value of email_verified, where it is a boolean or a text
pub data Verified : Type 0 where
  boolean : Bool → Verified
  text : String → Verified
  other : Verified

pub record Claims : Type 0 where
  pub sub : String
  pub email : String
  pub email_verified : Verified
  pub name : String

-- Anything that is not clearly true is false.
unfoldable pub is_verified : Verified → Bool
is_verified (boolean b) = b
is_verified (text t) = t == "true"
is_verified other = false

-- The clientIDs of NewOIDCVerifier, "" for none
abbrev pub client_id : String → String → String → String
client_id google apple provider =
    if provider == "GOOGLE"
    then trim_space google
    else if provider == "APPLE"
    then trim_space apple
    else ""

module _ (lower_other upper_other : Char → Char) where
  -- The Identity of the claims
  unfoldable pub identity_of : String → Claims → Identity
  unfolding is_verified trim_space to_lower
  identity_of provider c = record {
    provider = provider;
    subject = c.sub;
    email = if c.email == "" then none else some (to_lower lower_other (trim_space c.email));
    email_verified = is_verified c.email_verified;
    name = if c.name == "" then none else some (trim_space c.name);
  }

  -- OIDCVerifier.Verify, as the Verifier that Authenticate asks
  unfoldable pub verify_token :
      String → String → (String → String → Option Claims) → String → String → Verdict
  unfolding identity_of trim_space to_upper
  verify_token google apple claims_of raw_provider id_token =
      let provider = to_upper upper_other (trim_space raw_provider) in
      if client_id google apple provider == ""
      then no_provider
      else elim (claims_of provider id_token) [
        | none ↦ rejects
        | some c ↦ if c.sub == "" then rejects else proves (identity_of provider c)
      ]

-- The issuers of NewOIDCVerifier, "" for none
abbrev pub issuer_of : String → String
issuer_of provider =
    if provider == "GOOGLE"
    then "https://accounts.google.com"
    else if provider == "APPLE"
    then "https://appleid.apple.com"
    else ""

module _ {V S : Type 0} (discover : String → S → Option V × S) where
  -- The map of verifiers
  abbrev pub Cache : Type 0
  Cache = List (String × V)

  unfoldable pub cached_verifier : String → Cache → Option V
  cached_verifier provider [] = none
  cached_verifier provider ((name, v) ∷ cache) =
      if name == provider then some v else cached_verifier provider cache

  -- verifierFor: the verifier of a provider, which is asked for its keys the first time. oidc.NewProvider,
  -- with the client id, is a parameter; the mutex makes the call one step.
  unfoldable pub verifier_for : String → Cache → S → Option V × Cache × S
  unfolding cached_verifier
  verifier_for provider cache s = elim (cached_verifier provider cache) [
    | some v ↦ (some v, cache, s)
    | none ↦
        let (discovered, s') = discover (issuer_of provider) s in
        elim discovered [ none ↦ (none, cache, s') | some v ↦ (some v, (provider, v) ∷ cache, s') ]
  ]

  -- A provider that has answered is not asked again: the next call answers the same and does nothing.
  pub verifier_for_twice :
      (provider : String) (cache cache' : Cache) (s s' s'' : S) (v : V)
      → verifier_for provider cache s ≡ (some v, cache', s')
      → verifier_for provider cache' s'' ≡ (some v, cache', s'')
  unfolding verifier_for
  verifier_for_twice provider cache cache' s s' s'' v e = ground (arith, eq_iff provider provider)
