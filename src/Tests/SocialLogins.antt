-- ===== src/Tests/SocialLogins.antt =====
-- Examples for Social.
use ecosystem_complete.Prelude.{
  ◌≡◌, refl, String, true, some, ◌==◌, if◌then◌else◌, find_where, exists_where,
}
use ecosystem_complete.Runtime.{World}
use ecosystem_complete.Runtime.Exec.{ok}
use ecosystem_complete.Session.{issue}
use ecosystem_complete.Social.{Identity, Verdict, authenticate}
use ecosystem_complete.Social.Outcomes.{Opens, authenticate_ok}
use ecosystem_complete.Tests.{env, issuer, world, meta, tokens}

-- An identity whose address is that of an account.
abbrev stranger : Identity
stranger = record {
  provider = "google";
  subject = "s1";
  email = some "a@x.com";
  email_verified = true;
  name = some "Ann";
}

abbrev verifier : String → String → Verdict
verifier provider id_token = if id_token == "good" then Verdict.proves stranger else Verdict.rejects

abbrev signed_in : World
signed_in = (authenticate issuer verifier env "google" "good" meta world).1

signs_in : authenticate issuer verifier env "google" "good" meta world ≡ (ok tokens, signed_in)
unfolding authenticate find_where exists_where issue
signs_in = refl

authenticate_ok_example :
    (i : Identity) × (verifier "google" "good" ≡ Verdict.proves i)
    × Opens issuer env i meta world signed_in
authenticate_ok_example =
    authenticate_ok issuer verifier env "google" "good" meta world signed_in tokens signs_in
