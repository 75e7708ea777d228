-- ===== src/Protocol/Outer.antt =====
-- pkg/protocol/outer.go and the table of pkg/crypto/registry/encryption.go: the packet around an
-- encrypted inner payload.
pub mod RoundTrip
pub mod Tests
use sdsyslog.Common.{
  ℕ, ◌+◌, Bool, not, Option, none, some, List, [], ◌∷◌, ◌++◌, ◌==◌, leb, if◌then◌else◌, length,
  take, drop, Result, ok, err, guard, ◌>>=◌, ◌>>◌,
}
use sdsyslog.Common.Words.{Bytes}
use sdsyslog.Protocol.{
  Error, protocol_violation, unknown_suite, crypto_failure, min_inner_payload_len,
}

abbrev pub suite_id_len : ℕ
suite_id_len = 1

pub record SuiteInfo : Type 0 where
  pub key_size : ℕ
  pub nonce_size : ℕ
  pub cipher_overhead : ℕ

-- The suite for tests, and curve25519 with chacha20poly1305.
unfoldable pub get_suite_info : ℕ → Option SuiteInfo
get_suite_info id =
    if id == 0
    then some (record { key_size = 6; nonce_size = 5; cipher_overhead = 0 })
    else if id == 1
    then some (record { key_size = 32; nonce_size = 12; cipher_overhead = 16 })
    else none

-- What an encryption yields.
pub record Sealed : Type 0 where
  pub ciphertext : Bytes
  pub ephemeral_pub : Bytes
  pub nonce : Bytes

-- wrappers.EncryptInnerPayload and DecryptInnerPayload: two variables that the program sets to
-- closures over its keys. They take the suite, and may fail.
pub record Cipher : Type 0 where
  pub encrypt : Bytes → ℕ → Option Sealed
  pub decrypt : Sealed → ℕ → Option Bytes

unfoldable pub suite_of : ℕ → Result Error SuiteInfo
suite_of id = elim (get_suite_info id) [ none ↦ err unknown_suite | some suite ↦ ok suite ]

pub or_crypto_failure : {A : Type 0} → Option A → Result Error A
or_crypto_failure none = err crypto_failure
or_crypto_failure (some a) = ok a

pub construct_outer_payload : Cipher → Bytes → ℕ → Result Error Bytes
construct_outer_payload cipher inner suite_id = do
  guard (not (length inner == 0)) protocol_violation
  suite ← suite_of suite_id
  sealed ← or_crypto_failure (cipher.encrypt inner suite_id)
  guard (length sealed.ephemeral_pub == suite.key_size) protocol_violation
  guard (length sealed.nonce == suite.nonce_size) protocol_violation
  ok (suite_id ∷ (sealed.ephemeral_pub ++ (sealed.nonce ++ sealed.ciphertext)))

-- The fields of a packet, by the sizes of its suite.
unfoldable pub cut_sealed : SuiteInfo → Bytes → Sealed
cut_sealed suite rest = record {
  ciphertext = drop suite.nonce_size (drop suite.key_size rest);
  ephemeral_pub = take suite.key_size rest;
  nonce = take suite.nonce_size (drop suite.key_size rest);
}

pub deconstruct_outer_payload : Cipher → Bytes → Result Error Bytes
deconstruct_outer_payload cipher [] = err protocol_violation
deconstruct_outer_payload cipher (suite_id ∷ rest) = do
  suite ← suite_of suite_id
  guard (leb (suite_id_len + suite.key_size + suite.nonce_size) (suite_id_len + length rest))
      protocol_violation
  let sealed = cut_sealed suite rest
  guard (leb (min_inner_payload_len + suite.cipher_overhead) (length sealed.ciphertext))
      protocol_violation
  or_crypto_failure (cipher.decrypt sealed suite_id)
