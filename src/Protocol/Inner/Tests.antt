-- ===== src/Protocol/Inner/Tests.antt =====
-- pkg/protocol/inner.go: a payload with one context field, run.
use sdsyslog.Protocol.Wire.{read_byte, read_terminator, read_full, read_uint}
use sdsyslog.Common.{length, ◌≡◌, refl, inl, some, [], ◌∷◌, ◌++◌, replicate, arith, All, ok, err}
use sdsyslog.Common.Words.{be_bytes, be_value, Bytes, IsByte}
use sdsyslog.Protocol.{InnerWireFormat, plain}
use sdsyslog.Protocol.Inner.{
  read_data, read_context_field, read_context_fields, read_context_section, read_context,
  read_signature_field, get_signature_info, signature_suite, read_signature, read_hostname,
  read_header, write_data, write_context, write_signature, write_hostname, write_header,
  random_padding, write_context_field, context_buffer, construct_inner_payload,
  deconstruct_inner_payload,
}
use sdsyslog.Protocol.Inner.Shape.{IsWire, wire_bytes}
use sdsyslog.Protocol.Inner.RoundTrip.{deconstruct-construct}
use sdsyslog.Protocol.Inner.Canonical.{construct-deconstruct}

abbrev sample : InnerWireFormat
sample = record {
  host_id = 7;
  msg_id = 70000;
  message_seq = 1;
  message_seq_max = 2;
  timestamp = 99;
  hostname = 104 ∷ [];
  signature_id = 0;
  signature = [];
  context_fields = record { key = 97 ∷ []; val_type = 8; value = 98 ∷ 99 ∷ [] } ∷ [];
  body = 120 ∷ 121 ∷ [];
  padding_len = 10;
}

abbrev drawn : Bytes
drawn = replicate 10 5

-- What the writer makes of it.
abbrev sample_bytes : Bytes
sample_bytes =
    0 ∷ 0 ∷ 0 ∷ 7 ∷ 0 ∷ 1 ∷ 17 ∷ 112 ∷ 0 ∷ 1 ∷ 0 ∷ 2 ∷ 0 ∷ 0 ∷ 0 ∷ 0 ∷ 0 ∷ 0 ∷ 0 ∷ 99 ∷ 1 ∷ 104 ∷ 0
    ∷ 0 ∷ 0 ∷ 0 ∷ 8 ∷ 1 ∷ 97 ∷ 0 ∷ 8 ∷ 2 ∷ 98 ∷ 99 ∷ 0 ∷ 0 ∷ 0 ∷ 2 ∷ 120 ∷ 121 ∷ drawn

sample_written : construct_inner_payload (λ n. some (replicate n 5)) sample ≡ ok sample_bytes
unfolding construct_inner_payload context_buffer write_context_field random_padding write_header
    be_bytes write_hostname write_signature write_context write_data
sample_written = refl

sample_read : deconstruct_inner_payload sample_bytes ≡ ok sample
unfolding deconstruct_inner_payload read_header read_uint read_hostname be_value read_full
    read_terminator read_signature signature_suite get_signature_info read_signature_field
    read_context read_context_section read_context_fields read_context_field read_byte read_data
sample_read = refl

-- A terminator that is missing is refused.
bad_terminator :
    deconstruct_inner_payload (replicate 20 0 ++ 1 ∷ 104 ∷ 1 ∷ replicate 20 0) ≡ err plain
unfolding deconstruct_inner_payload read_header read_uint read_hostname be_value read_full
    read_terminator
bad_terminator = refl

sample_bytes-IsByte : All IsByte sample_bytes
sample_bytes-IsByte = omega arith

sample-IsWire : IsWire sample
sample-IsWire = record {
  header = record {
    host_id_fits = omega arith;
    msg_id_fits = omega arith;
    message_seq_fits = omega arith;
    message_seq_max_fits = omega arith;
    timestamp_fits = omega arith;
  };
  hostname_some = omega arith;
  hostname_fits = omega arith;
  signature_fits = inl (refl, refl);
  fields_fit = (record { key_fits = omega arith; value_fits = omega arith }, tt);
  context_fits = unfold context_buffer write_context_field in omega arith;
  body_some = omega arith;
  body_fits = omega arith;
}

deconstruct-construct_example :
    (payload : Bytes) × (construct_inner_payload (λ n. some (replicate n 5)) sample ≡ ok payload)
    × (deconstruct_inner_payload payload ≡ ok sample)
deconstruct-construct_example =
    deconstruct-construct (λ n. some (replicate n 5)) sample drawn sample-IsWire refl refl
      (omega arith)

construct-deconstruct_example :
    (padding : Bytes) × (sample_bytes ≡ wire_bytes sample padding)
    × (length padding ≡ sample.padding_len)
    × IsWire sample
construct-deconstruct_example = construct-deconstruct sample_bytes sample_bytes-IsByte sample_read
