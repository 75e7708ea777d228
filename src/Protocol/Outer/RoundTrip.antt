-- ===== src/Protocol/Outer/RoundTrip.antt =====
-- pkg/protocol/outer.go: a packet is opened again, and its size.
use sdsyslog.Common.{
  ℕ, ◌+◌, ◌≤◌, ◌≡◌, some, ◌∷◌, ◌++◌, arith, length, length-append, take-append_eq, drop-append_eq,
  leb-true, eq_zero-false, eq-true, ok,
}
use sdsyslog.Common.Words.{Bytes}
use sdsyslog.Protocol.Outer.{
  SuiteInfo, get_suite_info, Sealed, Cipher, suite_of, or_crypto_failure, construct_outer_payload,
  cut_sealed, deconstruct_outer_payload,
}

-- An encryption has the sizes of its suite, and is decrypted to what was encrypted. Nothing is asked of
-- suite 0, which is for tests.
pub record IsCipher (cipher : Cipher) : Type 0 where
  pub sizes :
      (inner : Bytes) (id : ℕ) (suite : SuiteInfo) (sealed : Sealed)
      → 1 ≤ id
      → get_suite_info id ≡ some suite
      → cipher.encrypt inner id ≡ some sealed
      → (length sealed.ephemeral_pub ≡ suite.key_size)
        × (length sealed.nonce ≡ suite.nonce_size)
        × (length sealed.ciphertext ≡ length inner + suite.cipher_overhead)
  pub opens :
      (inner : Bytes) (id : ℕ) (sealed : Sealed)
      → 1 ≤ id
      → cipher.encrypt inner id ≡ some sealed
      → cipher.decrypt sealed id ≡ some inner

cut_sealed-append :
    (suite : SuiteInfo) (sealed : Sealed)
    → length sealed.ephemeral_pub ≡ suite.key_size
    → length sealed.nonce ≡ suite.nonce_size
    → cut_sealed suite (sealed.ephemeral_pub ++ (sealed.nonce ++ sealed.ciphertext)) ≡ sealed
unfolding cut_sealed
cut_sealed-append suite sealed k n = rw (
  take-append_eq suite.key_size sealed.ephemeral_pub (sealed.nonce ++ sealed.ciphertext) k,
  drop-append_eq suite.key_size sealed.ephemeral_pub (sealed.nonce ++ sealed.ciphertext) k,
  take-append_eq suite.nonce_size sealed.nonce sealed.ciphertext n,
  drop-append_eq suite.nonce_size sealed.nonce sealed.ciphertext n,
)

pub suite_of_known :
    (id : ℕ) (suite : SuiteInfo) → get_suite_info id ≡ some suite → suite_of id ≡ ok suite
unfolding suite_of
suite_of_known id suite e = rw (e, suite_of)

-- An inner payload of the smallest length at least, that the cipher encrypts for a suite that is
-- known and not the one for tests, is put in a packet, which is opened to the same payload. The packet is as long as the
-- payload and what the suite adds.
pub deconstruct-construct_outer :
    (cipher : Cipher) (inner : Bytes) (id : ℕ) (suite : SuiteInfo) (sealed : Sealed)
    → IsCipher cipher
    → 1 ≤ id
    → get_suite_info id ≡ some suite
    → cipher.encrypt inner id ≡ some sealed
    → 41 ≤ length inner
    → (packet : Bytes) × (construct_outer_payload cipher inner id ≡ ok packet)
      × (deconstruct_outer_payload cipher packet ≡ ok inner)
      × (length packet
          ≡ 1 + suite.key_size + suite.nonce_size + suite.cipher_overhead + length inner)
unfolding construct_outer_payload deconstruct_outer_payload or_crypto_failure
deconstruct-construct_outer cipher inner id suite sealed law used known encrypted long =
    let (k, n, c) = law.sizes inner id suite sealed used known encrypted in
    let rest = sealed.ephemeral_pub ++ (sealed.nonce ++ sealed.ciphertext) in
    let size1 = length-append sealed.ephemeral_pub (sealed.nonce ++ sealed.ciphertext) in
    let size2 = length-append sealed.nonce sealed.ciphertext in
    (
      id ∷ rest,
      rw (eq_zero-false (length inner) (omega arith), suite_of_known id suite known)
          (rw (encrypted, or_crypto_failure)
            (rw (k, n, eq-true suite.key_size, eq-true suite.nonce_size))),
      rw (
        suite_of_known id suite known,
        leb-true (1 + suite.key_size + suite.nonce_size) (1 + length rest) (omega arith),
        cut_sealed-append suite sealed k n,
        leb-true (41 + suite.cipher_overhead) (length sealed.ciphertext) (omega arith),
        law.opens inner id sealed used encrypted,
      ),
      omega arith,
    )
