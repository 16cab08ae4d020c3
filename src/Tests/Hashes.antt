-- ===== src/Tests/Hashes.antt =====
-- An example for Security/Hashing: bytes are lists of bits, and a key repeats one bit of the password.
use Prim.Native.Char.{code}
use Prim.Native.String.{[] as nil, ◌∷◌ as cons}
use ecosystem_complete.Prelude.{
  ℕ, zero, suc, ◌≡◌, refl, ap, String, Bool, true, false, some, List, [], ◌∷◌, ◌==◌, eqb, length,
}
use ecosystem_complete.Prelude.Split.{lacks}
use ecosystem_complete.Security.Hashing.{
  Library, argon_cost, argon_key_length, hash_password, verify_password, IsSound,
  verify_password-hash_password,
}

unfoldable bits : ℕ → Bool → List Bool
bits zero b = []
bits (suc n) b = b ∷ bits n b

unfoldable write_bits : List Bool → String
write_bits [] = nil
write_bits (true ∷ b) = cons "a" (write_bits b)
write_bits (false ∷ b) = cons "b" (write_bits b)

unfoldable read_bits : String → List Bool
read_bits nil = []
read_bits (cons c s) = eqb (code c) 97 ∷ read_bits s

unfoldable same_bits : List Bool → List Bool → Bool
same_bits [] [] = true
same_bits (true ∷ a) (true ∷ b) = same_bits a b
same_bits (false ∷ a) (false ∷ b) = same_bits a b
same_bits _ _ = false

abbrev library : Library (List Bool)
library = record {
  id_key = λ p salt cost n. bits n (p == "secret");
  encode = write_bits;
  decode = λ t. some (read_bits t);
  size = length;
  equal = same_bits;
  scan_version = λ t. some 19;
  scan_cost = λ t. some argon_cost;
}

read_bits-write_bits : (b : List Bool) → read_bits (write_bits b) ≡ b
unfolding read_bits write_bits
read_bits-write_bits [] = refl
read_bits-write_bits (true ∷ b) = ap (λ rest. true ∷ rest) (read_bits-write_bits b)
read_bits-write_bits (false ∷ b) = ap (λ rest. false ∷ rest) (read_bits-write_bits b)

write_bits-lacks : (b : List Bool) → lacks 36 (write_bits b) ≡ true
unfolding lacks write_bits
write_bits-lacks [] = refl
write_bits-lacks (true ∷ b) = write_bits-lacks b
write_bits-lacks (false ∷ b) = write_bits-lacks b

length-bits : (n : ℕ) (b : Bool) → length (bits n b) ≡ n
unfolding bits
length-bits zero b = refl
length-bits (suc n) b = ap suc (length-bits n b)

sound : IsSound library
sound = record {
  decodes = λ b. ap some (read_bits-write_bits b);
  no_dollar = write_bits-lacks;
  scans_version = refl;
  scans_cost = refl;
  key_size = λ p s c n. length-bits n (p == "secret");
}

verify_password-hash_password_example :
    verify_password library (hash_password library (true ∷ []) "secret") "guess"
    ≡ some (same_bits (bits argon_key_length false) (bits argon_key_length true))
verify_password-hash_password_example =
    verify_password-hash_password library sound (true ∷ []) "secret" "guess"
