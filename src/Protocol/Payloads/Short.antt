-- ===== src/Protocol/Payloads/Short.antt =====
-- pkg/protocol/payload.go: the smallest context section that ConstructPayload accepts.
use sdsyslog.Common.{
  if◌then◌else◌, ℕ, ◌+◌, ◌≤◌, ◌≡◌, refl, Bool, true, false, not, [], ◌∷◌, arith, length, leb,
  Result, ok, err, guard, ◌>>=◌, ◌>>◌, ◌==◌, ◌&&◌,
}
use sdsyslog.Common.Words.{Bytes}
use sdsyslog.Protocol.Inner.{get_signature_info}
use sdsyslog.Protocol.{min_signature_len, Error, invalid_payload, ContextWireFormat}
use sdsyslog.Protocol.Values.{Value}
use sdsyslog.Protocol.Fragments.{Payload}
use sdsyslog.Protocol.Payloads.{
  clean_field, clean_fields, sort_fields, insert_field, total_ctx_len, construct_context,
  construct_signature, construct_payload, fitting_signature, max_signature_len,
}

abbrev Invalid : {A : Type 0} → Result Error A → Type 0
Invalid r = r ≡ err invalid_payload

-- A value, or the error for an invalid payload.
data Checks {A : Type 0} : Result Error A → Type 0 where
  passes : (a : A) → Checks (ok a)
  fails : Checks (err invalid_payload)

guard-Checks :
    {A : Type 0} (b : Bool) (m : Result Error A) → Checks m → Checks (guard b invalid_payload >> m)
guard-Checks true m c = c
guard-Checks false m c = fails

if-Checks :
    {A : Type 0} (b : Bool) (m n : Result Error A)
    → Checks m
    → Checks n
    → Checks (if b then m else n)
if-Checks true m n c d = c
if-Checks false m n c d = d

construct_signature-Checks : (p : Payload) (sig_id : ℕ) → Checks (construct_signature p sig_id)
unfolding construct_signature
construct_signature-Checks p sig_id = if-Checks (sig_id == 0) _ _ (passes []) (
    guard-Checks (not (length p.signature == 0)) _ (
      guard-Checks
        (fitting_signature (length p.signature) (get_signature_info sig_id)
          && (sig_id == p.signature_id))
        _
        (guard-Checks
          (leb min_signature_len (length p.signature) && leb (length p.signature) max_signature_len)
          _ (passes p.signature))))

guard-Invalid :
    {A : Type 0} (b : Bool) (m : Result Error A)
    → Invalid m
    → Invalid (guard b invalid_payload >> m)
guard-Invalid true m e = e
guard-Invalid false m e = refl

after-Invalid :
    {A B : Type 0} (m : Result Error A) (k : A → Result Error B)
    → Checks m
    → ((a : A) → Invalid (k a))
    → Invalid (m >>= k)
after-Invalid (ok a) k c h = h a
after-Invalid (err e) k fails h = refl

construct_context-short :
    (key : Bytes) (value : Value) (c : ContextWireFormat)
    → clean_field (key, value) ≡ ok c
    → length c.key + length c.value ≤ 4
    → Invalid (construct_context ((key, value) ∷ []))
unfolding construct_context clean_fields sort_fields insert_field total_ctx_len
construct_context-short key value c e h =
    let short : leb 10 (5 + length c.key + length c.value + 0) ≡ false = ground arith in
    rw (e, short)

-- A message with one custom field whose key and value have four bytes or less together is refused,
-- though its field is clean and its section could be written: the section's length and its end are in
-- the least length that is asked for, and not in the length that is compared with it.
pub construct_payload-short :
    (p : Payload) (sig_id : ℕ) (key : Bytes) (value : Value) (c : ContextWireFormat)
    → p.custom_fields ≡ (key, value) ∷ []
    → clean_field (key, value) ≡ ok c
    → length c.key + length c.value ≤ 4
    → construct_payload p sig_id ≡ err invalid_payload
unfolding construct_payload
construct_payload-short p sig_id key value c one e h = guard-Invalid (not (p.host_id == 0)) _ (
    guard-Invalid (not (p.msg_id == 0)) _ (
      guard-Invalid (leb p.message_seq p.message_seq_max) _ (
        after-Invalid (construct_signature p sig_id) _ (construct_signature-Checks p sig_id)
          λ signature. rw (one, construct_context-short key value c e h))))
