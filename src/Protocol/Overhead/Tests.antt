-- ===== src/Protocol/Overhead/Tests.antt =====
-- pkg/protocol/payload.go: the overhead of a message with one field, in the suite for tests.
use sdsyslog.Common.{ℕ, ◌+◌, ◌≡◌, refl, [], ◌∷◌, length, replicate, ok}
use sdsyslog.Protocol.{InnerWireFormat}
use sdsyslog.Protocol.Values.{clean_bytes, text, serialize_any_value}
use sdsyslog.Protocol.Inner.Shape.{wire_bytes}
use sdsyslog.Protocol.Fragments.{Payload}
use sdsyslog.Protocol.Outer.{suite_of, SuiteInfo, get_suite_info}
use sdsyslog.Protocol.Overhead.{custom_length, calculate_protocol_overhead}
use sdsyslog.Protocol.Overhead.Exact.{Counted, calculate_protocol_overhead-wire_bytes}

abbrev message : Payload
message = record {
  remote_ip = [];
  host_id = 7;
  msg_id = 8;
  message_seq = 0;
  message_seq_max = 0;
  timestamp = 99;
  hostname = 104 ∷ 105 ∷ [];
  signature_id = 0;
  signature = [];
  custom_fields = (97 ∷ [], text (98 ∷ 99 ∷ [])) ∷ [];
  body = 1 ∷ 2 ∷ 3 ∷ [];
  padding_len = 10;
}

abbrev wire : InnerWireFormat
wire = record {
  host_id = 7;
  msg_id = 8;
  message_seq = 0;
  message_seq_max = 0;
  timestamp = 99;
  hostname = 104 ∷ 105 ∷ [];
  signature_id = 0;
  signature = [];
  context_fields = record { key = 97 ∷ []; val_type = 8; value = 98 ∷ 99 ∷ [] } ∷ [];
  body = 1 ∷ 2 ∷ 3 ∷ [];
  padding_len = 10;
}

abbrev test_suite : SuiteInfo
test_suite = record { key_size = 6; nonce_size = 5; cipher_overhead = 0 }

overhead_54 : calculate_protocol_overhead 0 message ≡ ok 54
unfolding calculate_protocol_overhead suite_of get_suite_info custom_length serialize_any_value
    clean_bytes
overhead_54 = refl

wire-Counted : Counted message wire
unfolding serialize_any_value clean_bytes
wire-Counted = record {
  hostname_kept = refl;
  signature_kept = refl;
  fields_kept = (refl, refl, tt);
}

calculate_protocol_overhead-wire_bytes_example :
    (overhead : ℕ) × (calculate_protocol_overhead 0 message ≡ ok overhead)
    × (1 + 6 + 5 + 0 + length (wire_bytes wire (replicate 10 1)) + 3 ≡ overhead + 10 + 3)
calculate_protocol_overhead-wire_bytes_example =
    calculate_protocol_overhead-wire_bytes 0 test_suite message wire (replicate 10 1)
      (unfold get_suite_info in refl) wire-Counted
