-- ===== src/Protocol/Payloads/Tests.antt =====
-- pkg/protocol/payload.go: a signed payload, and messages with one custom field.
use sdsyslog.Common.{◌≡◌, refl, none, some, List, [], ◌∷◌, ◌++◌, inr, arith, ok, err, if◌then◌else◌}
use sdsyslog.Common.Words.{Bytes, bytes_equal}
use sdsyslog.Protocol.{InnerWireFormat, invalid_payload}
use sdsyslog.Protocol.Values.{Value, text, serialize_any_value, clean_bytes, utf8_valid}
use sdsyslog.Protocol.Fragments.{Payload, field_of}
use sdsyslog.Protocol.Payloads.{
  clean_string_to_bytes, check_fields, Keys, host_prefix_unverified, strip_markers,
  is_printable_ascii, clean_field, construct_signature, construct_payload, deconstruct_payload,
  marked_hostname, validated_payload,
}
use sdsyslog.Protocol.Payloads.Trust.{Validated, deconstruct_payload-Validated}
use sdsyslog.Protocol.Payloads.Short.{construct_payload-short}
use sdsyslog.Protocol.Payloads.Fields.{section_len}
use sdsyslog.Protocol.Payloads.Passing.{IsSendable, received_payload, deconstruct-construct_payload}

abbrev with_fields : List (Bytes × Value) → Payload
with_fields fields = record {
  remote_ip = [];
  host_id = 7;
  msg_id = 8;
  message_seq = 0;
  message_seq_max = 1;
  timestamp = 5000001;
  hostname = 104 ∷ 49 ∷ [];
  signature_id = 0;
  signature = [];
  custom_fields = fields;
  body = 1 ∷ 2 ∷ [];
  padding_len = 10;
}

-- The host "h" is pinned with the key 9, under which the signature 9 is good.
abbrev keys : Keys
keys = record {
  lookup_pinned_sender = λ name. if bytes_equal name (104 ∷ []) then some (9 ∷ []) else none;
  verify_signature = λ key message sig id. some (bytes_equal sig key);
}

abbrev signed : Bytes → InnerWireFormat
signed signature = record {
  host_id = 7;
  msg_id = 8;
  message_seq = 1;
  message_seq_max = 1;
  timestamp = 0;
  hostname = 104 ∷ [];
  signature_id = 1;
  signature = signature;
  context_fields = [];
  body = 1 ∷ [];
  padding_len = 10;
}

signed_accepted :
    deconstruct_payload keys (signed (9 ∷ []))
    ≡ ok (validated_payload (signed (9 ∷ [])) (104 ∷ []) [])
unfolding deconstruct_payload is_printable_ascii marked_hostname bytes_equal check_fields
signed_accepted = refl

forged_refused : deconstruct_payload keys (signed (8 ∷ [])) ≡ err invalid_payload
unfolding deconstruct_payload is_printable_ascii marked_hostname bytes_equal
forged_refused = refl

deconstruct_payload-Validated_example :
    Validated keys (signed (9 ∷ [])) (validated_payload (signed (9 ∷ [])) (104 ∷ []) [])
deconstruct_payload-Validated_example =
    deconstruct_payload-Validated keys (signed (9 ∷ []))
      (validated_payload (signed (9 ∷ [])) (104 ∷ []) []) signed_accepted

-- Removal is a single pass, so a marker can appear by it: "[UNK[UNVERIFIED]NOWN]".
marker_left :
    strip_markers (91 ∷ 85 ∷ 78 ∷ 75 ∷ (host_prefix_unverified ++ 78 ∷ 79 ∷ 87 ∷ 78 ∷ 93 ∷ []))
    ≡ 91 ∷ 85 ∷ 78 ∷ 75 ∷ 78 ∷ 79 ∷ 87 ∷ 78 ∷ 93 ∷ []
unfolding strip_markers
marker_left = refl

-- "a" with "b".
construct_payload-short_example :
    construct_payload (with_fields ((97 ∷ [], text (98 ∷ [])) ∷ [])) 0 ≡ err invalid_payload
unfolding clean_field clean_bytes serialize_any_value utf8_valid
construct_payload-short_example =
    construct_payload-short (with_fields ((97 ∷ [], text (98 ∷ [])) ∷ [])) 0 (97 ∷ [])
      (text (98 ∷ [])) (record { key = 97 ∷ []; val_type = 8; value = 98 ∷ [] }) refl refl
      (omega arith)

-- "key" with "val".
abbrev one_field : List (Bytes × Value)
one_field = (107 ∷ 101 ∷ 121 ∷ [], text (118 ∷ 97 ∷ 108 ∷ [])) ∷ []

one_field-IsSendable : IsSendable (with_fields one_field)
unfolding is_printable_ascii strip_markers serialize_any_value clean_bytes utf8_valid field_of
    section_len clean_string_to_bytes
one_field-IsSendable = record {
  host_some = omega arith;
  host_fits = omega arith;
  msg_some = omega arith;
  msg_fits = omega arith;
  seq_bounded = omega arith;
  seq_fits = omega arith;
  time_fits = omega arith;
  name_some = omega arith;
  fields_pass = (
    record {
      key_some = omega arith;
      key_short = omega arith;
      key_printable = refl;
      storable = refl;
      value_type = 8;
      value_bytes = 118 ∷ 97 ∷ 108 ∷ [];
      serialized = refl;
      value_some = omega arith;
      value_short = omega arith;
    },
    tt,
  );
  keys_distinct = (refl, tt);
  section_fits = inr (omega arith, omega arith);
  body_some = omega arith;
  padding_low = omega arith;
  padding_high = omega arith;
}

deconstruct-construct_payload_example :
    (f : InnerWireFormat) × (construct_payload (with_fields one_field) 0 ≡ ok f)
    × (deconstruct_payload keys f
        ≡ ok (
            received_payload
              (with_fields one_field)
              0
              []
              (host_prefix_unverified ++ 104 ∷ 49 ∷ [])))
unfolding construct_signature marked_hostname bytes_equal clean_string_to_bytes
deconstruct-construct_payload_example =
    deconstruct-construct_payload keys (with_fields one_field) 0 []
      (host_prefix_unverified ++ 104 ∷ 49 ∷ []) one_field-IsSendable refl refl
