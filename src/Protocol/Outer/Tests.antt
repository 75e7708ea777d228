-- ===== src/Protocol/Outer/Tests.antt =====
-- pkg/crypto/registry/encryption.go: a cipher of suite 1, and the suite for tests, which passes its payload through.
use sdsyslog.Common.{
  ◌-◌, ◌++◌, take, take-append_eq, length-append, ap, some_injective, ℕ, ◌+◌, ◌≡◌, refl, Option,
  none, some, [], ◌∷◌, ◌&&◌, ◌==◌, if◌then◌else◌, replicate, arith, length, ok, err, Bool-cases,
  inl, inr,
}
use sdsyslog.Common.Words.{Bytes, bytes_equal}
use sdsyslog.Protocol.{protocol_violation}
use sdsyslog.Protocol.Outer.{
  or_crypto_failure, SuiteInfo, cut_sealed, suite_of, Sealed, Cipher, get_suite_info,
  construct_outer_payload, deconstruct_outer_payload,
}
use sdsyslog.Protocol.Outer.RoundTrip.{IsCipher, deconstruct-construct_outer}

-- "public" and "nonce".
abbrev test_pub : Bytes
test_pub = 112 ∷ 117 ∷ 98 ∷ 108 ∷ 105 ∷ 99 ∷ []

abbrev test_nonce : Bytes
test_nonce = 110 ∷ 111 ∷ 110 ∷ 99 ∷ 101 ∷ []

abbrev pub sealed_as : Bytes → Sealed
sealed_as inner = record { ciphertext = inner; ephemeral_pub = test_pub; nonce = test_nonce }

abbrev encrypt_test : Bytes → ℕ → Option Sealed
encrypt_test inner id = if id == 0 then some (sealed_as inner) else none

abbrev decrypt_test : Sealed → ℕ → Option Bytes
decrypt_test s id =
    if (id == 0) && (bytes_equal s.ephemeral_pub test_pub && bytes_equal s.nonce test_nonce)
    then some s.ciphertext
    else none

abbrev pub test_cipher : Cipher
test_cipher = record { encrypt = encrypt_test; decrypt = decrypt_test }

-- A cipher of suite 1 that hides nothing: it only has the sizes of the suite.
abbrev pub padded : Bytes → Sealed
padded inner = record {
  ciphertext = inner ++ replicate 16 0;
  ephemeral_pub = replicate 32 1;
  nonce = replicate 12 2;
}

abbrev encrypt_toy : Bytes → ℕ → Option Sealed
encrypt_toy inner id = if id == 1 then some (padded inner) else none

abbrev decrypt_toy : Sealed → ℕ → Option Bytes
decrypt_toy s id = if id == 1 then some (take (length s.ciphertext - 16) s.ciphertext) else none

abbrev pub toy_cipher : Cipher
toy_cipher = record { encrypt = encrypt_toy; decrypt = decrypt_toy }

abbrev pub toy_suite : SuiteInfo
toy_suite = record { key_size = 32; nonce_size = 12; cipher_overhead = 16 }

encrypt_toy-some :
    (inner : Bytes) (id : ℕ) (sealed : Sealed)
    → encrypt_toy inner id ≡ some sealed
    → (id ≡ 1) × (padded inner ≡ sealed)
encrypt_toy-some inner id sealed e = elim (Bool-cases (id == 1)) [
  | inl one ↦ (ground arith, some_injective (rw one at e))
  | inr other ↦ let gone = rw other at e in cc
]

pub toy_cipher-IsCipher : IsCipher toy_cipher
unfolding get_suite_info
toy_cipher-IsCipher = record {
  sizes = λ inner id suite sealed used known e.
      let (one, same) = encrypt_toy-some inner id sealed e in
      let the_suite : toy_suite ≡ suite = some_injective (rw one at known) in
      rw (← same, ← the_suite) (refl, refl, length-append inner (replicate 16 0));
  opens = λ inner id sealed used e.
      let (one, same) = encrypt_toy-some inner id sealed e in
      let size = length-append inner (replicate 16 0) in
      let kept =
        take-append_eq (length (inner ++ replicate 16 0) - 16) inner (replicate 16 0)
          (omega (arith, size)) in
      rw (one, ← same) (ap some kept);
}

abbrev inner : Bytes
inner = replicate 41 9

deconstruct-construct_outer_example :
    (packet : Bytes) × (construct_outer_payload toy_cipher inner 1 ≡ ok packet)
    × (deconstruct_outer_payload toy_cipher packet ≡ ok inner)
    × (length packet ≡ 1 + 32 + 12 + 16 + 41)
deconstruct-construct_outer_example =
    deconstruct-construct_outer toy_cipher inner 1 toy_suite (padded inner) toy_cipher-IsCipher
      (omega arith) (unfold get_suite_info in refl) refl (omega arith)

-- A packet of the suite for tests is opened too.
suite_zero_opened :
    deconstruct_outer_payload test_cipher (0 ∷ (test_pub ++ (test_nonce ++ inner))) ≡ ok inner
unfolding deconstruct_outer_payload suite_of get_suite_info cut_sealed bytes_equal or_crypto_failure
suite_zero_opened = refl

short_packet : deconstruct_outer_payload test_cipher (0 ∷ replicate 20 1) ≡ err protocol_violation
unfolding deconstruct_outer_payload suite_of get_suite_info cut_sealed
short_packet = refl
