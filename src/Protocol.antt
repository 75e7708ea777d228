-- ===== src/Protocol.antt =====
-- pkg/protocol: the constants of consts.go, the wire types of types.go, and the errors.
-- The children model the serialisers, the fragmenter and the typed context values.
pub mod Wire
pub mod Inner
pub mod Values
pub mod Fragments
pub mod Outer
pub mod Signatures
pub mod Overhead
pub mod Sizes
pub mod Payloads
pub mod Messages
use sdsyslog.Common.{ℕ, ◌+◌, List}
use sdsyslog.Common.Words.{Bytes}

-- An error is the first sentinel of consts.go that it wraps; `plain` wraps none of them. `panics`
-- is a run-time panic, and `stuck` no Go value: a loop of the model ran out of fuel.
pub data Error : Type 0 where
  invalid_payload protocol_violation serialization fragmentation : Error
  unknown_suite unknown_signature_suite invalid_context_field crypto_failure : Error
  plain panics stuck : Error

abbrev pub terminator_byte : ℕ
terminator_byte = 0

abbrev pub custom_fields_empty_marker : ℕ
custom_fields_empty_marker = 1

abbrev pub min_hostname_len : ℕ
min_hostname_len = 1

abbrev pub max_hostname_len : ℕ
max_hostname_len = 255

abbrev pub min_signature_len : ℕ
min_signature_len = 0

abbrev pub max_ctx_section_len : ℕ
max_ctx_section_len = 65535

abbrev pub max_data_len : ℕ
max_data_len = 65535

abbrev pub min_padding_len : ℕ
min_padding_len = 10

abbrev pub max_padding_len : ℕ
max_padding_len = 60

-- The sum that consts.go writes out, field by field.
abbrev pub min_inner_payload_len : ℕ
min_inner_payload_len = 4 + 4 + 2 + 2 + 8 + 2 + 1 + 1 + 1 + 1 + 1 + 1 + 2 + 1 + 10

pub record ContextWireFormat : Type 0 where
  pub key : Bytes
  pub val_type : ℕ
  pub value : Bytes

-- `data` is a word of the language; the field is `body`.
pub record InnerWireFormat : Type 0 where
  pub host_id : ℕ
  pub msg_id : ℕ
  pub message_seq : ℕ
  pub message_seq_max : ℕ
  pub timestamp : ℕ
  pub hostname : Bytes
  pub signature_id : ℕ
  pub signature : Bytes
  pub context_fields : List ContextWireFormat
  pub body : Bytes
  pub padding_len : ℕ
