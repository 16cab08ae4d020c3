-- ===== src/Security/Hashing.antt =====
-- HashPassword and VerifyPassword of security/password.go. Argon2id, base64, fmt.Sscanf and
-- subtle.ConstantTimeCompare are parameters.
use ecosystem_complete.Prelude.{
  ℕ, ◌≡◌, ap, ◌∙◌, String, Bool, true, not, Option, none, some, List, [], ◌∷◌, arith, ◌==◌, eqb,
  if◌then◌else◌,
}
use ecosystem_complete.Prelude.Split.{split_on, join_with, lacks, all_lack, split-join}

-- Memory in KiB, time and threads
pub record Cost : Type 0 where
  pub memory : ℕ
  pub time : ℕ
  pub threads : ℕ

abbrev pub argon_cost : Cost
argon_cost = record { memory = 65_536; time = 1; threads = 4 }

abbrev pub argon_key_length : ℕ
argon_key_length = 32

-- argon2.Version
abbrev pub argon_version : ℕ
argon_version = 19

pub record Library (Bytes : Type 0) : Type 0 where
  -- argon2.IDKey of password, salt, cost and key length
  pub id_key : String → Bytes → Cost → ℕ → Bytes
  -- base64.RawStdEncoding
  pub encode : Bytes → String
  pub decode : String → Option Bytes
  pub size : Bytes → ℕ
  pub equal : Bytes → Bytes → Bool
  -- fmt.Sscanf with "v=%d", and with "m=%d,t=%d,p=%d"
  pub scan_version : String → Option ℕ
  pub scan_cost : String → Option Cost

module _ {Bytes : Type 0} (library : Library Bytes) where
  open library use {id_key, encode, decode, size, equal, scan_version, scan_cost}

  -- HashPassword, of the salt that it reads
  unfoldable pub hash_password : Bytes → String → String
  unfolding join_with
  hash_password salt plain = join_with "$" (
      "argon2id"
      ∷ "v=19"
      ∷ "m=65536,t=1,p=4"
      ∷ encode salt
      ∷ encode (id_key plain salt argon_cost argon_key_length)
      ∷ [])

  -- VerifyPassword after the parts are counted; none for errInvalidHash
  unfoldable pub verify_parts : List String → String → Option Bool
  verify_parts (kind ∷ version ∷ cost ∷ salt ∷ key ∷ []) plain =
      if not (kind == "argon2id") then none else elim (scan_version version) [
        | none ↦ none
        | some v ↦ if not (eqb v argon_version) then none else elim (scan_cost cost) [
          | none ↦ none
          | some c ↦ elim (decode salt) [
            | none ↦ none
            | some s ↦ elim (decode key) [
              | none ↦ none
              | some want ↦ some (equal (id_key plain s c (size want)) want)
            ]
          ]
        ]
      ]
  verify_parts _ plain = none

  -- VerifyPassword
  unfoldable pub verify_password : String → String → Option Bool
  unfolding split_on verify_parts
  verify_password encoded plain = verify_parts (split_on 36 encoded) plain

  -- What base64 and Sscanf are documented to do
  pub record IsSound : Type 0 where
    pub decodes : (b : Bytes) → decode (encode b) ≡ some b
    pub no_dollar : (b : Bytes) → lacks 36 (encode b) ≡ true
    pub scans_version : scan_version "v=19" ≡ some 19
    pub scans_cost : scan_cost "m=65536,t=1,p=4" ≡ some argon_cost
    pub key_size : (p : String) (s : Bytes) (c : Cost) (n : ℕ) → size (id_key p s c n) ≡ n

  parts_lack :
      IsSound
      → (salt key : Bytes)
      → all_lack 36 ("argon2id" ∷ "v=19" ∷ "m=65536,t=1,p=4" ∷ encode salt ∷ encode key ∷ []) ≡ true
  unfolding all_lack lacks
  parts_lack sound salt key = ground (arith, sound.no_dollar salt, sound.no_dollar key)

  verify_parts_lem :
      IsSound
      → (salt : Bytes) (plain guess : String)
      → let key = id_key plain salt argon_cost argon_key_length in
        verify_parts ("argon2id" ∷ "v=19" ∷ "m=65536,t=1,p=4" ∷ encode salt ∷ encode key ∷ []) guess
        ≡ some (equal (id_key guess salt argon_cost argon_key_length) key)
  unfolding verify_parts
  verify_parts_lem sound salt plain guess = rw (
    sound.scans_version,
    sound.scans_cost,
    sound.decodes salt,
    sound.decodes (id_key plain salt argon_cost argon_key_length),
    sound.key_size plain salt argon_cost argon_key_length,
    verify_parts,
  )

  -- A stored hash is read back: a guess is judged by whether its key, under the salt and the cost that the
  -- hash was made with, is the password's key. The library is sound where base64 decodes what it has
  -- encoded and writes no dollar sign, Sscanf reads the version and the cost that were printed, and a key
  -- is as long as asked for.
  pub verify_password-hash_password :
      IsSound
      → (salt : Bytes) (plain guess : String)
      → verify_password (hash_password salt plain) guess
        ≡ some (
            equal
              (id_key guess salt argon_cost argon_key_length)
              (id_key plain salt argon_cost argon_key_length))
  unfolding verify_password hash_password
  verify_password-hash_password sound salt plain guess =
      ap (λ parts. verify_parts parts guess)
        (split-join "$" "argon2id" _
          (parts_lack sound salt (id_key plain salt argon_cost argon_key_length)))
      ∙ verify_parts_lem sound salt plain guess
