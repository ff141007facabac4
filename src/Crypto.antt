-- ===== src/Crypto.antt =====
-- libsodium, which the code calls and does not implement: its functions are the fields of a
-- record that the modules take as a parameter, with the sizes and the laws it documents.
use whosecoin_core.Base.{ℕ, ◌≡◌, Bool, true, Option, some, List, length}

abbrev pub crypto_generichash_bytes : ℕ
crypto_generichash_bytes = 32

abbrev pub crypto_sign_public_key_bytes : ℕ
crypto_sign_public_key_bytes = 32

abbrev pub crypto_sign_bytes : ℕ
crypto_sign_bytes = 64

abbrev pub crypto_vrf_public_key_bytes : ℕ
crypto_vrf_public_key_bytes = 32

abbrev pub crypto_vrf_proof_bytes : ℕ
crypto_vrf_proof_bytes = 80

abbrev pub crypto_vrf_output_bytes : ℕ
crypto_vrf_output_bytes = 64

pub record Crypto : Type 1 where
  -- BLAKE2b with a 32-byte output
  pub generichash : List ℕ → List ℕ
  pub length-generichash : (m : List ℕ) → length (generichash m) ≡ crypto_generichash_bytes
  -- a public key and the secret key that was generated with it
  pub IsKeyPair : List ℕ → List ℕ → Type 0
  -- `sign_detached message secret_key` and `sign_verify_detached signature message public_key`
  pub sign_detached : List ℕ → List ℕ → List ℕ
  pub length-sign_detached : (m sk : List ℕ) → length (sign_detached m sk) ≡ crypto_sign_bytes
  pub sign_verify_detached : List ℕ → List ℕ → List ℕ → Bool
  pub verify-sign :
      (m pk sk : List ℕ) → IsKeyPair pk sk → sign_verify_detached (sign_detached m sk) m pk ≡ true
  -- `vrf_prove secret_key message`, `vrf_proof_to_hash proof`, and `vrf_verify public_key proof
  -- message`, whose result is the output of the proof if it verifies
  pub vrf_prove : List ℕ → List ℕ → List ℕ
  pub vrf_proof_to_hash : List ℕ → List ℕ
  pub vrf_verify : List ℕ → List ℕ → List ℕ → Option (List ℕ)
  pub vrf_verify-prove :
      (m pk sk : List ℕ)
      → IsKeyPair pk sk
      → vrf_verify pk (vrf_prove sk m) m ≡ some (vrf_proof_to_hash (vrf_prove sk m))
