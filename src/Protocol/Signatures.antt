-- ===== src/Protocol/Signatures.antt =====
-- pkg/protocol/payload.go: SerializeSignature, the bytes that a sender signs for its identity.
mod Tests
use sdsyslog.Common.{
  ℕ, ◌^◌, ◌<◌, ◌≡◌, refl, sym, ap, ◌∙◌, List, [], ◌∷◌, ◌++◌, arith, take, drop, take-append_eq,
  drop-append_eq,
}
use sdsyslog.Common.Words.{Bytes, be_bytes, be_value, length-be_bytes, be_value-be_bytes}

-- "D3P-ID-SIG".
abbrev pub identity_signature_context : Bytes
identity_signature_context = 68 ∷ 51 ∷ 80 ∷ 45 ∷ 73 ∷ 68 ∷ 45 ∷ 83 ∷ 73 ∷ 71 ∷ []

unfoldable pub serialize_signature : Bytes → ℕ → ℕ → Bytes
serialize_signature hostname host_id timestamp =
    identity_signature_context ++ (be_bytes 8 timestamp ++ (be_bytes 4 host_id ++ hostname))

-- The parts of what follows the context.
after_context :
    (hostname : Bytes) (host_id timestamp : ℕ)
    → drop 10 (serialize_signature hostname host_id timestamp)
      ≡ be_bytes 8 timestamp ++ (be_bytes 4 host_id ++ hostname)
unfolding serialize_signature
after_context hostname host_id timestamp = refl

timestamp_signed :
    (hostname : Bytes) (host_id timestamp : ℕ)
    → timestamp < 256 ^ 8
    → be_value (take 8 (drop 10 (serialize_signature hostname host_id timestamp))) ≡ timestamp
timestamp_signed hostname host_id timestamp h = rw (
  after_context hostname host_id timestamp,
  take-append_eq 8 (be_bytes 8 timestamp) (be_bytes 4 host_id ++ hostname)
      (length-be_bytes 8 timestamp),
  be_value-be_bytes 8 timestamp h,
)

host_part :
    (hostname : Bytes) (host_id timestamp : ℕ)
    → drop 8 (drop 10 (serialize_signature hostname host_id timestamp))
      ≡ be_bytes 4 host_id ++ hostname
host_part hostname host_id timestamp = rw (after_context hostname host_id timestamp) (
    drop-append_eq 8 (be_bytes 8 timestamp) (be_bytes 4 host_id ++ hostname)
      (length-be_bytes 8 timestamp))

host_id_signed :
    (hostname : Bytes) (host_id timestamp : ℕ)
    → host_id < 256 ^ 4
    → be_value (take 4 (drop 8 (drop 10 (serialize_signature hostname host_id timestamp))))
      ≡ host_id
host_id_signed hostname host_id timestamp h = rw (
  host_part hostname host_id timestamp,
  take-append_eq 4 (be_bytes 4 host_id) hostname (length-be_bytes 4 host_id),
  be_value-be_bytes 4 host_id h,
)

hostname_signed :
    (hostname : Bytes) (host_id timestamp : ℕ)
    → drop 4 (drop 8 (drop 10 (serialize_signature hostname host_id timestamp))) ≡ hostname
hostname_signed hostname host_id timestamp =
    rw (host_part hostname host_id timestamp)
      (drop-append_eq 4 (be_bytes 4 host_id) hostname (length-be_bytes 4 host_id))

-- The bytes that SerializeSignature makes, with the host id among them, determine the identity: where
-- the numbers fit their widths, two identities with the same bytes have the same hostname, host id
-- and time.
pub serialize_signature-injective :
    (name name' : Bytes) (id id' time time' : ℕ)
    → id < 256 ^ 4
    → id' < 256 ^ 4
    → time < 256 ^ 8
    → time' < 256 ^ 8
    → serialize_signature name id time ≡ serialize_signature name' id' time'
    → (name ≡ name') × (id ≡ id') × (time ≡ time')
serialize_signature-injective name name' id id' time time' i i' t t' e = (
  sym (hostname_signed name id time)
      ∙ ap (λ bs. drop 4 (drop 8 (drop 10 bs))) e
      ∙ hostname_signed name' id' time',
  sym (host_id_signed name id time i)
      ∙ ap (λ bs. be_value (take 4 (drop 8 (drop 10 bs)))) e
      ∙ host_id_signed name' id' time' i',
  sym (timestamp_signed name id time t)
      ∙ ap (λ bs. be_value (take 8 (drop 10 bs))) e
      ∙ timestamp_signed name' id' time' t',
)
