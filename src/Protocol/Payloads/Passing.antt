-- ===== src/Protocol/Payloads/Passing.antt =====
-- pkg/protocol/payload.go: what the receiver reads of a payload that the sender made a wire record of.
use sdsyslog.Common.{
  ◌*◌, ℕ, ◌/◌, ◌%◌, ◌^◌, ◌≤◌, ◌<◌, ◌≡◌, refl, ◌⊎◌, Option, none, some, List, [], map, arith, length,
  leb-true, eq_zero-false, ok,
}
use sdsyslog.Common.Words.{Bytes}
use sdsyslog.Protocol.{ContextWireFormat, InnerWireFormat}
use sdsyslog.Protocol.Fragments.{Payload}
use sdsyslog.Protocol.Payloads.{
  clean_string_to_bytes, Keys, strip_markers, unix_milli, time_of_milli, construct_signature,
  construct_context, construct_payload, sort_fields, marked_hostname, on_sender,
  deconstruct_payload,
}
use sdsyslog.Protocol.Payloads.OneField.{clean_string_to_bytes-printable}
use sdsyslog.Protocol.Payloads.Fields.{
  AllPassing, DistinctKeys, section_len, carried_field, SectionFits, fields_passed,
}

-- The hostname without trust markers, cleaned, as it is sent.
abbrev pub sent_hostname : Payload → Bytes
sent_hostname p = clean_string_to_bytes (strip_markers p.hostname) 255

-- A payload with ids that are not 0 and fit their fields, a number up to its last number, a time that
-- fits, something left of its hostname, fields that the receiver reads as the sender's, each key once,
-- in a section of 10 to 65535 bytes or none, and with data and a padding.
pub record IsSendable (p : Payload) : Type 0 where
  pub host_some : 1 ≤ p.host_id
  pub host_fits : p.host_id < 2 ^ 32
  pub msg_some : 1 ≤ p.msg_id
  pub msg_fits : p.msg_id < 2 ^ 32
  pub seq_bounded : p.message_seq ≤ p.message_seq_max
  pub seq_fits : p.message_seq_max < 2 ^ 16
  pub time_fits : p.timestamp / 1000000 < 2 ^ 64
  pub name_some : 1 ≤ length (sent_hostname p)
  pub fields_pass : AllPassing p.custom_fields
  pub keys_distinct : DistinctKeys p.custom_fields
  pub section_fits :
      (p.custom_fields ≡ [])
      ⊎ ((10 ≤ section_len p.custom_fields) × (section_len p.custom_fields ≤ 65535))
  pub body_some : 1 ≤ length p.body
  pub padding_low : 10 ≤ p.padding_len
  pub padding_high : p.padding_len ≤ 60

-- The wire record of a payload.
abbrev pub wire_record : Payload → ℕ → Bytes → List ContextWireFormat → InnerWireFormat
wire_record p sig_id signature cs = record {
  host_id = p.host_id;
  msg_id = p.msg_id;
  message_seq = p.message_seq;
  message_seq_max = p.message_seq_max;
  timestamp = unix_milli p.timestamp;
  hostname = sent_hostname p;
  signature_id = sig_id;
  signature = signature;
  context_fields = cs;
  body = p.body;
  padding_len = p.padding_len;
}

-- The payload that a receiver makes of it: the time is in whole milliseconds.
abbrev pub received_payload : Payload → ℕ → Bytes → Bytes → Payload
received_payload p sig_id signature name = record p {
  remote_ip = [];
  timestamp = p.timestamp / 1000000 * 1000000;
  hostname = name;
  signature_id = sig_id;
  signature = signature;
  custom_fields = map carried_field (sort_fields p.custom_fields);
}

unix_milli_back :
    (time : ℕ)
    → time / 1000000 < 2 ^ 64
    → time_of_milli (unix_milli time) ≡ time / 1000000 * 1000000
unfolding unix_milli time_of_milli
unix_milli_back time fits = omega arith

constructed :
    (p : Payload) (sig_id : ℕ) (signature : Bytes) (cs : List ContextWireFormat)
    → IsSendable p
    → construct_signature p sig_id ≡ ok signature
    → construct_context p.custom_fields ≡ ok cs
    → construct_payload p sig_id ≡ ok (wire_record p sig_id signature cs)
unfolding construct_payload
constructed p sig_id signature cs s sig ctx =
    let host : p.host_id % 2 ^ 32 ≡ p.host_id = omega (arith, s.host_fits) in
    let msg : p.msg_id % 2 ^ 32 ≡ p.msg_id = omega (arith, s.msg_fits) in
    let seq : p.message_seq % 2 ^ 16 ≡ p.message_seq = omega (arith, s.seq_bounded, s.seq_fits) in
    let seq_max : p.message_seq_max % 2 ^ 16 ≡ p.message_seq_max = omega (arith, s.seq_fits) in
    rw (
      eq_zero-false p.host_id s.host_some,
      eq_zero-false p.msg_id s.msg_some,
      leb-true p.message_seq p.message_seq_max s.seq_bounded,
      sig,
      ctx,
      leb-true 10 p.padding_len s.padding_low,
      leb-true p.padding_len 60 s.padding_high,
      host,
      msg,
      seq,
      seq_max,
    )

-- The sender's trust hangs on nothing of the context section.
on_sender_same :
    (keys : Keys) (p : Payload) (sig_id : ℕ) (signature name : Bytes) (cs : List ContextWireFormat)
    (o : Option Bytes)
    → on_sender keys (wire_record p sig_id signature cs) name o
      ≡ on_sender keys (wire_record p sig_id signature []) name o
unfolding on_sender
on_sender_same keys p sig_id signature name cs none = refl
on_sender_same keys p sig_id signature name cs (some key) = refl

-- With the context section that is sent.
pub payload_passed :
    (keys : Keys) (p : Payload) (sig_id : ℕ) (signature name : Bytes)
    → IsSendable p
    → construct_signature p sig_id ≡ ok signature
    → marked_hostname keys (wire_record p sig_id signature []) ≡ ok name
    → (cs : List ContextWireFormat) × (construct_payload p sig_id
        ≡ ok (wire_record p sig_id signature cs))
      × (deconstruct_payload keys (wire_record p sig_id signature cs)
          ≡ ok (received_payload p sig_id signature name))
      × SectionFits cs
unfolding deconstruct_payload marked_hostname
payload_passed keys p sig_id signature name s sig trust =
    let (printable, short) = clean_string_to_bytes-printable (strip_markers p.hostname) 255 in
    let (cs, made, read, fits) =
      fields_passed p.custom_fields s.fields_pass s.keys_distinct s.section_fits in
    (
      cs,
      constructed p sig_id signature cs s sig made,
      rw (
        eq_zero-false p.host_id s.host_some,
        eq_zero-false p.msg_id s.msg_some,
        leb-true p.message_seq p.message_seq_max s.seq_bounded,
        eq_zero-false (length (sent_hostname p)) s.name_some,
        leb-true (length (sent_hostname p)) 255 short,
        printable,
        on_sender_same keys p sig_id signature (strip_markers (sent_hostname p)) cs,
        trust,
        read,
        eq_zero-false (length p.body) s.body_some,
        leb-true 10 p.padding_len s.padding_low,
        leb-true p.padding_len 60 s.padding_high,
        unix_milli_back p.timestamp s.time_fits,
      ),
      fits,
    )

-- A payload with ids that are not 0 and fit their fields, a number up to its last number, a time that
-- fits, a printable character in its hostname beside the trust markers, custom fields of clean and
-- different keys and of values that can be stored in 1 to 255 bytes, which take 10 to 65535 bytes
-- together or are none, with data, and with a padding of 10 to 60 bytes, is made a wire record with a
-- signature that is passed on. The receiver, where it accepts the sender, makes of it the payload: its
-- numbers and data, its time in whole milliseconds, the hostname that it accepts for the cleaned one,
-- with the marker of its trust, and the custom fields as they are carried, in the order of their keys.
pub deconstruct-construct_payload :
    (keys : Keys) (p : Payload) (sig_id : ℕ) (signature name : Bytes)
    → IsSendable p
    → construct_signature p sig_id ≡ ok signature
    → marked_hostname keys (wire_record p sig_id signature []) ≡ ok name
    → (f : InnerWireFormat) × (construct_payload p sig_id ≡ ok f)
      × (deconstruct_payload keys f ≡ ok (received_payload p sig_id signature name))
deconstruct-construct_payload keys p sig_id signature name s sig trust =
    let (cs, made, read, _) = payload_passed keys p sig_id signature name s sig trust in
    (wire_record p sig_id signature cs, made, read)
