-- ===== src/Http.antt =====
-- api/internal/httpapi: requests and replies, and the cookies that carry a browser's session
-- (router.go, cookies.go). Http/Guards is authmw.go, Http/Sessions is auth.go.
pub mod Guards
pub mod Quiet
pub mod Silence
pub mod Sessions
pub mod Browsers
pub mod Accounts
pub mod Admin
pub mod Lists
pub mod Cors
pub mod Routes
pub mod Health
use ecosystem_complete.Prelude.{
  ℕ, String, Bool, true, false, not, Option, none, some, List, [], ◌∷◌, ℤ, ◌==◌, negsuc,
  exists_where, get_or, if◌then◌else◌,
}
use ecosystem_complete.Prelude.Text.{trim_space}
use ecosystem_complete.Prelude.Sort.{contains}
use ecosystem_complete.Runtime.{Env, Call, World, SecurityEvent}
use ecosystem_complete.Session.{Tokens}
use ecosystem_complete.Identity.{UserSummary, Me}
use ecosystem_complete.Identity.Catalogues.{Role, Permission}
use ecosystem_complete.Identity.Pages.{Page}

-- The parts of a request that the code reads. A header that is not sent is "".
pub record Request : Type 0 where
  pub http_method : String
  pub origin : String
  -- Access-Control-Request-Method
  pub requested_method : String
  pub authorization : String
  pub csrf_header : String
  pub refresh_cookie : Option String
  pub csrf_cookie : Option String
  pub user_agent : String
  -- clientIP
  pub ip : String

pub record Cookie : Type 0 where
  pub name : String
  pub value : String
  pub path : String
  pub max_age : ℤ
  pub http_only : Bool
  pub secure : Bool

-- tokenPairResponse
pub record TokenPair : Type 0 where
  pub access_token : String
  pub token_type : String
  pub expires_in : ℤ
  pub refresh_token : String
  pub refresh_expires_in : ℤ
  pub csrf_token : String

-- The bodies that are no token pair and no error
pub data Body : Type 0 where
  no_body : Body
  user_body : UserSummary → Body
  page_body : Page UserSummary → Body
  me_body : Me → Body
  roles_body : List Role → Body
  permissions_body : List Permission → Body
  events_body : Page SecurityEvent → Body

-- The status, the code of errorBody or "", the details' retry_after_seconds and fields, and what a
-- login sends.
pub record Reply : Type 0 where
  pub status : ℕ
  pub code : String
  pub retry_after : Option ℤ
  pub fields : List (String × String)
  pub pair : Option TokenPair
  pub cookies : List Cookie
  pub body : Body
  -- Access-Control-Allow-Origin, with credentials and Vary
  pub allow_origin : Option String
  -- the other headers of a preflight's answer
  pub allow_methods : Bool

abbrev pub answer : ℕ → Reply
answer status = record {
  status = status;
  code = "";
  retry_after = none;
  fields = [];
  pair = none;
  cookies = [];
  body = no_body;
  allow_origin = none;
  allow_methods = false;
}

-- writeError
abbrev pub write_error : ℕ → String → Reply
write_error status code = record (answer status) { code = code }

-- writeValidationError
abbrev pub write_validation_error : List (String × String) → Reply
write_validation_error fields = record (write_error 422 "validation_failed") { fields = fields }

abbrev pub internal_error : Reply
internal_error = write_error 500 "internal_error"

-- A handler's effects, and its reply.
abbrev pub Handler : Type 0
Handler = World → Reply × World

abbrev pub reply : Reply → Handler
reply r w = (r, w)

pub record CookieSettings : Type 0 where
  pub allowed_origins : List String
  pub secure : Bool

abbrev pub session_cookie : CookieSettings → String → String → ℤ → Bool → Cookie
session_cookie c name value max_age http_only = record {
  name = name;
  value = value;
  path = "/v1/auth";
  max_age = max_age;
  http_only = http_only;
  secure = c.secure;
}

-- cookieSettings.isBrowser
unfoldable pub is_browser : CookieSettings → Request → Bool
unfolding contains
is_browser c r = if r.origin == "" then false else contains c.allowed_origins r.origin

-- The cookies of setSession
abbrev pub session_cookies : CookieSettings → Tokens → String → List Cookie
session_cookies c tokens csrf =
    session_cookie c "refresh_token" tokens.refresh_token tokens.refresh_expires_in true
    ∷ session_cookie c "csrf_token" csrf tokens.refresh_expires_in false
    ∷ []

-- clearSession
abbrev pub cleared_cookies : CookieSettings → List Cookie
cleared_cookies c =
    session_cookie c "refresh_token" "" (negsuc 0) true
    ∷ session_cookie c "csrf_token" "" (negsuc 0) false
    ∷ []

-- What cookieSettings.presented answers: a token and whether it came from the cookie, or errCSRF.
pub data Presented : Type 0 where
  token : String → Bool → Presented
  csrf_error : Presented

-- A cookie's value, "" for none
abbrev pub cookie_value : Option String → String
cookie_value c = get_or c ""

-- cookieSettings.presented
unfoldable pub presented : Request → String → Presented
unfolding trim_space
presented r body_token =
    if not (trim_space body_token == "")
    then token (trim_space body_token) false
    else if cookie_value r.refresh_cookie == ""
    then token "" false
    else if cookie_value r.csrf_cookie == ""
    then csrf_error
    else if not (r.csrf_header == cookie_value r.csrf_cookie)
    then csrf_error
    else token (cookie_value r.refresh_cookie) true

-- The body of writeTokenPair
abbrev pub token_pair_response : Tokens → String → String → TokenPair
token_pair_response tokens refresh csrf = record {
  access_token = tokens.access_token;
  token_type = "Bearer";
  expires_in = tokens.expires_in;
  refresh_token = refresh;
  refresh_expires_in = tokens.refresh_expires_in;
  csrf_token = csrf;
}

-- writeTokenPair, with setSession
unfoldable pub write_token_pair : Env → CookieSettings → Request → ℕ → Tokens → Reply
unfolding is_browser
write_token_pair env c r status tokens =
    if not (is_browser c r)
    then record (answer status) { pair = some (token_pair_response tokens tokens.refresh_token "") }
    else if env.fails Call.rand_csrf
    then internal_error
    else record (answer status) {
      pair = some (token_pair_response tokens "" env.new_csrf);
      cookies = session_cookies c tokens env.new_csrf;
    }
