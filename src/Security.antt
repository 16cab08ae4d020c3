-- ===== src/Security.antt =====
-- api/internal/security: the primitives that the flows share, and the normalisation of addresses
-- that each service repeats.
pub mod Hashing
pub mod Code
pub mod Quota
use Prim.Native.Char.{Char}
use ecosystem_complete.Prelude.{String}
use ecosystem_complete.Prelude.Text.{trim_space, to_lower}
use ecosystem_complete.Runtime.{Env}

-- normalizeEmail of signup, login and password, normalize of emailchange
unfoldable pub normalize_email : Env → String → String
unfolding trim_space to_lower
normalize_email env email = to_lower env.lower_other (trim_space email)
