-- ===== src/Protocol/Overhead/Exact.antt =====
-- pkg/protocol/payload.go: the overhead against the size of the packet itself.
use sdsyslog.Common.{ℕ, ◌+◌, ◌≡◌, refl, List, [], ◌∷◌, arith, length, some, ok}
use sdsyslog.Common.Words.{Bytes}
use sdsyslog.Protocol.{ContextWireFormat, InnerWireFormat}
use sdsyslog.Protocol.Values.{Value, serialize_any_value}
use sdsyslog.Protocol.Inner.{write_context_field, context_buffer}
use sdsyslog.Protocol.Inner.Shape.{wire_bytes, length-wire_bytes, length-write_context_field}
use sdsyslog.Protocol.Fragments.{Payload}
use sdsyslog.Protocol.Outer.{SuiteInfo, get_suite_info}
use sdsyslog.Protocol.Outer.RoundTrip.{suite_of_known}
use sdsyslog.Protocol.Overhead.{
  min_inner_payload_len_fixed_only, data_length, custom_length, calculate_protocol_overhead,
}

-- The wire fields of custom fields, one by one.
abbrev pub Serialized : List (Bytes × Value) → List ContextWireFormat → Type 0
Serialized [] [] = Unit
Serialized ((key, value) ∷ fields) (c ∷ cs) =
    (c.key ≡ key) × (serialize_any_value value ≡ ok (c.val_type, c.value)) × Serialized fields cs
Serialized _ _ = ⊥

custom_length-context_buffer :
    (fields : List (Bytes × Value)) (cs : List ContextWireFormat)
    → Serialized fields cs
    → custom_length fields ≡ ok (length (context_buffer cs))
unfolding custom_length data_length context_buffer
custom_length-context_buffer [] [] h = refl
custom_length-context_buffer ((key, value) ∷ fields) (c ∷ cs) (k, v, rest) =
    let size = length-write_context_field c (context_buffer cs) in
    let total : 1 + 1 + 1 + 1 + 1 + length c.key + length c.value + length (context_buffer cs)
        ≡ length (write_context_field c (context_buffer cs)) =
      omega arith in
    rw (v, custom_length-context_buffer fields cs rest) (rw (← k, total))
custom_length-context_buffer [] (c ∷ cs) h = absurd h
custom_length-context_buffer (field ∷ fields) [] h = absurd h

-- A wire record of a message: what the overhead counts has the same length in both.
pub record Counted (p : Payload) (f : InnerWireFormat) : Type 0 where
  pub hostname_kept : length f.hostname ≡ length p.hostname
  pub signature_kept : length f.signature ≡ length p.signature
  pub fields_kept : Serialized p.custom_fields f.context_fields

-- For a suite that is known, and a wire record whose hostname and signature have the message's lengths
-- and whose fields have its keys and its serialised values, so that nothing was cleaned, cut or
-- replaced by a placeholder: the overhead is that of the packet and three bytes more, since the length
-- and the terminator of the context section are counted twice.
pub calculate_protocol_overhead-wire_bytes :
    (id : ℕ) (suite : SuiteInfo) (p : Payload) (f : InnerWireFormat) (padding : Bytes)
    → get_suite_info id ≡ some suite
    → Counted p f
    → (overhead : ℕ) × (calculate_protocol_overhead id p ≡ ok overhead)
      × (1
            + suite.key_size
            + suite.nonce_size
            + suite.cipher_overhead
            + length (wire_bytes f padding)
            + 3
          ≡ overhead + length padding + length f.body)
unfolding calculate_protocol_overhead
calculate_protocol_overhead-wire_bytes id suite p f padding known c =
    let size = length-wire_bytes f padding in
    let host = c.hostname_kept in
    let sig = c.signature_kept in
    (
      1
          + suite.key_size
          + suite.nonce_size
          + suite.cipher_overhead
          + min_inner_payload_len_fixed_only
          + (length p.hostname
              + length p.signature
              + length (context_buffer f.context_fields)
              + (2 + 1)),
      rw (
        suite_of_known id suite known,
        custom_length-context_buffer p.custom_fields f.context_fields c.fields_kept,
      ),
      omega arith,
    )
