-- ===== src/Examples/Toy.antt =====
-- A concrete instance of the cryptographic interface, in which a key pair is a key twice. It is
-- there to show that the laws can hold together; it hides nothing.
use whosecoin_core.Base.{
  ℕ, ◌+◌, ◌≡◌, Bool, true, Option, none, some, List, length, is_zero, if◌then◌else◌,
}
use whosecoin_core.Bytes.{be_bytes, from_be, length-be_bytes, memcmp, memcmp_refl}
use whosecoin_core.Crypto.{Crypto}

unfoldable pub toy_sign : List ℕ → List ℕ → List ℕ
toy_sign m sk = be_bytes 64 (from_be 0 m + from_be 0 sk)

unfoldable pub toy_verify : List ℕ → List ℕ → List ℕ → Bool
unfolding toy_sign
toy_verify sig m pk = is_zero (memcmp 64 sig (toy_sign m pk))

unfoldable pub toy_prove : List ℕ → List ℕ → List ℕ
toy_prove sk m = be_bytes 80 (from_be 0 m + from_be 0 sk)

unfoldable pub toy_vrf_verify : List ℕ → List ℕ → List ℕ → Option (List ℕ)
unfolding toy_prove
toy_vrf_verify pk proof m =
    if is_zero (memcmp 80 proof (toy_prove pk m))
    then some (be_bytes 64 (from_be 0 proof))
    else none

pub toy_verify-sign : (m pk sk : List ℕ) → pk ≡ sk → toy_verify (toy_sign m sk) m pk ≡ true
unfolding toy_verify
toy_verify-sign m pk sk e = rw e (rw (memcmp_refl 64 (toy_sign m sk)))

pub toy_vrf_verify-prove :
    (m pk sk : List ℕ)
    → pk ≡ sk
    → toy_vrf_verify pk (toy_prove sk m) m ≡ some (be_bytes 64 (from_be 0 (toy_prove sk m)))
unfolding toy_vrf_verify
toy_vrf_verify-prove m pk sk e = rw e (rw (memcmp_refl 80 (toy_prove sk m)))

pub length-toy_sign : (m sk : List ℕ) → length (toy_sign m sk) ≡ 64
unfolding toy_sign
length-toy_sign m sk = length-be_bytes 64 (from_be 0 m + from_be 0 sk)

abbrev pub toy : Crypto
toy = record {
  generichash = λ m. be_bytes 32 (from_be 0 m);
  length-generichash = λ m. length-be_bytes 32 (from_be 0 m);
  IsKeyPair = λ pk sk. pk ≡ sk;
  sign_detached = toy_sign;
  length-sign_detached = length-toy_sign;
  sign_verify_detached = toy_verify;
  verify-sign = toy_verify-sign;
  vrf_prove = toy_prove;
  vrf_proof_to_hash = λ p. be_bytes 64 (from_be 0 p);
  vrf_verify = toy_vrf_verify;
  vrf_verify-prove = toy_vrf_verify-prove;
}
