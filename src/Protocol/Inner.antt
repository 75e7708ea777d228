-- ===== src/Protocol/Inner.antt =====
-- pkg/protocol/inner.go: the inner payload, section by section in the order of the source. A
-- writer returns the bytes that the source appends to its buffer, and a reader takes them off.
pub mod Shape
pub mod RoundTrip
pub mod Reads
pub mod ContextReads
pub mod Canonical
mod Tests
use sdsyslog.Common.{
  ℕ, zero, suc, ◌≡◌, Bool, true, false, not, ◌&&◌, Option, none, some, List, [], ◌∷◌, ◌++◌, leb,
  ltb, ◌==◌, ◌%◌, if◌then◌else◌, length, Result, ok, err, guard, ◌>>=◌, ◌>>◌,
}
use sdsyslog.Common.Words.{Bytes, be_bytes}
use sdsyslog.Protocol.{
  Error, protocol_violation, serialization, unknown_signature_suite, plain, stuck,
  ContextWireFormat, InnerWireFormat, terminator_byte, custom_fields_empty_marker, min_hostname_len,
  max_hostname_len, min_signature_len, max_ctx_section_len, max_data_len, min_inner_payload_len,
}
use sdsyslog.Protocol.Wire.{read_full, read_uint, read_byte, read_terminator}

-- uint8(len(xs)).
abbrev pub length_byte : Bytes → ℕ
length_byte xs = length xs % 256

-- pkg/crypto/registry/signing.go: the smallest and largest signature length of a suite.
pub record SigInfo : Type 0 where
  pub min_signature_length : ℕ
  pub max_signature_length : ℕ

unfoldable pub get_signature_info : ℕ → Option SigInfo
get_signature_info id =
    if id == 0
    then some (record { min_signature_length = 0; max_signature_length = 0 })
    else if id == 1
    then some (record { min_signature_length = 64; max_signature_length = 64 })
    else none

-- HEADER and the timestamp.
unfoldable pub write_header : InnerWireFormat → Bytes → Bytes
write_header f rest =
    be_bytes 4 f.host_id
    ++ (be_bytes 4 f.msg_id
        ++ (be_bytes 2 f.message_seq
            ++ (be_bytes 2 f.message_seq_max ++ (be_bytes 8 f.timestamp ++ rest))))

unfoldable pub write_hostname : Bytes → Bytes → Bytes
write_hostname name rest = length_byte name ∷ (name ++ (terminator_byte ∷ rest))

unfoldable pub write_signature : ℕ → Bytes → Bytes → Bytes
write_signature id sig rest =
    id ∷ length_byte sig ∷ ((if ltb min_signature_len (length sig) then sig else []) ++ rest)

unfoldable pub write_context_field : ContextWireFormat → Bytes → Bytes
write_context_field c rest =
    length_byte c.key
    ∷ (c.key
        ++ (terminator_byte
            ∷ c.val_type
            ∷ length_byte c.value
            ∷ (c.value ++ (terminator_byte ∷ rest))))

unfoldable pub context_buffer : List ContextWireFormat → Bytes
context_buffer [] = []
context_buffer (c ∷ cs) = write_context_field c (context_buffer cs)

unfoldable pub write_context : Bytes → Bytes → Bytes
write_context buffer rest =
    if ltb 0 (length buffer)
    then be_bytes 2 (length buffer % 65536) ++ (buffer ++ (terminator_byte ∷ rest))
    else be_bytes 2 custom_fields_empty_marker ++ (terminator_byte ∷ rest)

unfoldable pub write_data : Bytes → Bytes → Bytes
write_data body rest = be_bytes 2 (length body % 65536) ++ (body ++ rest)

-- `rand` is crypto/rand: io.ReadFull fills a buffer of the length asked for, or fails.
pub random_padding : (ℕ → Option Bytes) → ℕ → Result Error Bytes
random_padding rand n = elim (rand n) [ none ↦ err plain | some padding ↦ ok padding ]

pub construct_inner_payload : (ℕ → Option Bytes) → InnerWireFormat → Result Error Bytes
construct_inner_payload rand f = do
  guard (leb min_hostname_len (length f.hostname)) protocol_violation
  let buffer = context_buffer f.context_fields
  guard (leb (length buffer) max_ctx_section_len) protocol_violation
  guard (not (length f.body == 0)) protocol_violation
  guard (leb (length f.body) max_data_len) protocol_violation
  padding ← random_padding rand f.padding_len
  ok (
      write_header f (
        write_hostname f.hostname (
          write_signature f.signature_id f.signature
            (write_context buffer (write_data f.body padding)))))

pub record Header : Type 0 where
  pub host_id : ℕ
  pub msg_id : ℕ
  pub message_seq : ℕ
  pub message_seq_max : ℕ
  pub timestamp : ℕ

unfoldable pub read_header : Bytes → Result Error (Header × Bytes)
read_header b0 = do
  (host_id, b1) ← read_uint 4 b0
  (msg_id, b2) ← read_uint 4 b1
  (message_seq, b3) ← read_uint 2 b2
  (message_seq_max, b4) ← read_uint 2 b3
  (timestamp, b5) ← read_uint 8 b4
  ok (
    record {
      host_id = host_id;
      msg_id = msg_id;
      message_seq = message_seq;
      message_seq_max = message_seq_max;
      timestamp = timestamp;
    },
    b5,
  )

unfoldable pub read_hostname : Bytes → Result Error (Bytes × Bytes)
read_hostname b0 = do
  (hostname_len, b1) ← read_uint 1 b0
  guard (not (hostname_len == 0)) protocol_violation
  guard (leb hostname_len max_hostname_len) protocol_violation
  (hostname, b2) ← read_full hostname_len b1
  b3 ← read_terminator b2
  ok (hostname, b3)

-- The signature field is read where its length is not 0.
unfoldable pub read_signature_field : SigInfo → ℕ → Bytes → Result Error (Bytes × Bytes)
read_signature_field suite sig_len b0 =
    if ltb 0 sig_len
    then guard (leb sig_len suite.max_signature_length && leb suite.min_signature_length sig_len)
        protocol_violation
      >> read_full sig_len b0
    else ok ([], b0)

pub signature_suite : ℕ → Result Error SigInfo
signature_suite id = elim (get_signature_info id) [
  | none ↦ err unknown_signature_suite
  | some suite ↦ ok suite
]

unfoldable pub read_signature : Bytes → Result Error (ℕ × Bytes × Bytes)
read_signature b0 = do
  (sig_id, b1) ← read_uint 1 b0
  suite ← signature_suite sig_id
  (sig_len, b2) ← read_uint 1 b1
  guard (not ((sig_id == 0) && ltb 0 sig_len)) protocol_violation
  guard (not (ltb 0 sig_id && (sig_len == 0))) protocol_violation
  (signature, b3) ← read_signature_field suite sig_len b2
  ok (sig_id, signature, b3)

-- One field of the context section, after its first byte.
unfoldable pub read_context_field : ℕ → Bytes → Result Error (ContextWireFormat × Bytes)
read_context_field key_len b0 = do
  (key, b1) ← read_full key_len b0
  b2 ← read_terminator b1
  (val_type, b3) ← read_byte b2
  (val_len, b4) ← read_byte b3
  (value, b5) ← read_full val_len b4
  b6 ← read_terminator b5
  ok (record { key = key; val_type = val_type; value = value }, b6)

-- The loop over the section: it ends where no byte is left.
unfoldable pub read_context_fields : ℕ → Bytes → Result Error (List ContextWireFormat)
read_context_fields fuel [] = ok []
read_context_fields zero (key_len ∷ bs) = err stuck
read_context_fields (suc fuel) (key_len ∷ bs) = do
  (field, rest) ← read_context_field key_len bs
  fields ← read_context_fields fuel rest
  ok (field ∷ fields)

-- The fields of a section that is there. Each round of the loop takes five bytes at least, so the
-- length of the section is enough fuel.
unfoldable pub read_context_section : ℕ → Bytes → Result Error (List ContextWireFormat × Bytes)
read_context_section ctx_sec_len b0 = do
  (section, b1) ← read_full ctx_sec_len b0
  fields ← read_context_fields (length section) section
  ok (fields, b1)

unfoldable pub read_context : Bytes → Result Error (List ContextWireFormat × Bytes)
read_context b0 = do
  (ctx_sec_len, b1) ← read_uint 2 b0
  guard (not (ctx_sec_len == 0)) protocol_violation
  (fields, b2) ←
      (if ctx_sec_len == custom_fields_empty_marker
        then ok ([], b1)
        else read_context_section ctx_sec_len b1)
  b3 ← read_terminator b2
  ok (fields, b3)

-- The source's check of `len(fields.Data)`, which is still 0 there, never fails.
unfoldable pub read_data : Bytes → Result Error (Bytes × Bytes)
read_data b0 = do
  (data_len, b1) ← read_uint 2 b0
  guard (not (data_len == 0)) protocol_violation
  guard (leb data_len (length b1)) protocol_violation
  read_full data_len b1

pub deconstruct_inner_payload : Bytes → Result Error InnerWireFormat
deconstruct_inner_payload payload = do
  guard (leb min_inner_payload_len (length payload)) protocol_violation
  (header, b1) ← read_header payload
  (hostname, b2) ← read_hostname b1
  (signature_id, signature, b3) ← read_signature b2
  (context_fields, b4) ← read_context b3
  (body, b5) ← read_data b4
  ok (record {
    host_id = header.host_id;
    msg_id = header.msg_id;
    message_seq = header.message_seq;
    message_seq_max = header.message_seq_max;
    timestamp = header.timestamp;
    hostname = hostname;
    signature_id = signature_id;
    signature = signature;
    context_fields = context_fields;
    body = body;
    padding_len = length b5;
  })
