-- ===== src/Protocol/Inner/Shape.antt =====
-- The inner payloads of pkg/protocol/inner.go that fit their length fields, and their sizes.
use sdsyslog.Common.{
  lt→ltb, ℕ, ◌+◌, ◌^◌, ◌%◌, ◌≤◌, ◌<◌, ◌≡◌, ◌⊎◌, [], ◌∷◌, ◌++◌, arith, length, length-append, All,
}
use sdsyslog.Common.Words.{Bytes, be_bytes, length-be_bytes}
use sdsyslog.Protocol.{ContextWireFormat, InnerWireFormat}
use sdsyslog.Protocol.Inner.{
  Header, length_byte, write_header, write_hostname, write_signature, write_context_field,
  context_buffer, write_context, write_data,
}

-- The words of the header fit the width that they are written in.
pub record HeaderFits (f : InnerWireFormat) : Type 0 where
  pub host_id_fits : f.host_id < 256 ^ 4
  pub msg_id_fits : f.msg_id < 256 ^ 4
  pub message_seq_fits : f.message_seq < 256 ^ 2
  pub message_seq_max_fits : f.message_seq_max < 256 ^ 2
  pub timestamp_fits : f.timestamp < 256 ^ 8

-- The suite with no signature, or ed25519.
abbrev pub SignatureFits : ℕ → Bytes → Type 0
SignatureFits id sig = ((id ≡ 0) × (length sig ≡ 0)) ⊎ ((id ≡ 1) × (length sig ≡ 64))

pub record FieldFits (c : ContextWireFormat) : Type 0 where
  pub key_fits : length c.key ≤ 255
  pub value_fits : length c.value ≤ 255

-- What the senders of the program hand to ConstructInnerPayload.
pub record IsWire (f : InnerWireFormat) : Type 0 where
  pub header : HeaderFits f
  pub hostname_some : 1 ≤ length f.hostname
  pub hostname_fits : length f.hostname ≤ 255
  pub signature_fits : SignatureFits f.signature_id f.signature
  pub fields_fit : All FieldFits f.context_fields
  pub context_fits : length (context_buffer f.context_fields) ≤ 65535
  pub body_some : 1 ≤ length f.body
  pub body_fits : length f.body ≤ 65535

pub length_byte_small : (xs : Bytes) → length xs ≤ 255 → length_byte xs ≡ length xs
length_byte_small xs h = omega arith

-- A field takes five bytes beside its key and value, so no section has the length of the marker.
pub length-write_context_field :
    (c : ContextWireFormat) (rest : Bytes)
    → length (write_context_field c rest) ≡ length c.key + length c.value + length rest + 5
unfolding write_context_field
length-write_context_field c rest = omega (
  arith,
  length-append c.key (0 ∷ c.val_type ∷ length_byte c.value ∷ (c.value ++ (0 ∷ rest))),
  length-append c.value (0 ∷ rest),
)

-- What ConstructInnerPayload writes for a record that fits, with the padding drawn for it.
unfoldable pub wire_bytes : InnerWireFormat → Bytes → Bytes
wire_bytes f padding = write_header f (
    write_hostname f.hostname (
      write_signature f.signature_id f.signature
        (write_context (context_buffer f.context_fields) (write_data f.body padding))))

-- `omega` is given the length of each piece as it meets it.
pub length-write_header :
    (f : InnerWireFormat) (rest : Bytes) → length (write_header f rest) ≡ 20 + length rest
unfolding write_header
length-write_header f rest = omega (arith, length-append {0}, length-be_bytes)

pub length-write_hostname :
    (name rest : Bytes) → length (write_hostname name rest) ≡ 2 + length name + length rest
unfolding write_hostname
length-write_hostname name rest = omega (arith, length-append {0})

pub length-write_signature :
    (id : ℕ) (sig rest : Bytes)
    → length (write_signature id sig rest) ≡ 2 + length sig + length rest
unfolding write_signature
length-write_signature id [] rest = omega arith
length-write_signature id (x ∷ sig) rest =
    rw (lt→ltb 0 (length (x ∷ sig)) (omega arith)) (omega (arith, length-append sig rest))

pub length-write_context :
    (buffer rest : Bytes) → length (write_context buffer rest) ≡ 3 + length buffer + length rest
unfolding write_context
length-write_context [] rest = omega (arith, length-append {0}, length-be_bytes)
length-write_context (x ∷ buffer) rest = rw (lt→ltb 0 (length (x ∷ buffer)) (omega arith)) (
    omega (
      arith,
      length-append (be_bytes 2 (length (x ∷ buffer) % 65536)) (x ∷ (buffer ++ (0 ∷ rest))),
      length-append buffer (0 ∷ rest),
      length-be_bytes,
    ))

pub length-write_data :
    (body rest : Bytes) → length (write_data body rest) ≡ 2 + length body + length rest
unfolding write_data
length-write_data body rest = omega (arith, length-append {0}, length-be_bytes)

-- The size of an inner payload, field by field.
pub length-wire_bytes :
    (f : InnerWireFormat) (padding : Bytes)
    → length (wire_bytes f padding)
      ≡ 29
        + length f.hostname
        + length f.signature
        + length (context_buffer f.context_fields)
        + length f.body
        + length padding
unfolding wire_bytes
length-wire_bytes f padding = omega (
  arith, length-write_header, length-write_hostname, length-write_signature, length-write_context,
  length-write_data,
)

pub wire_bytes_long :
    (f : InnerWireFormat) (padding : Bytes)
    → IsWire f
    → 10 ≤ length padding
    → 41 ≤ length (wire_bytes f padding)
wire_bytes_long f padding w e = omega (arith, length-wire_bytes f padding)

abbrev pub header_of : InnerWireFormat → Header
header_of f = record {
  host_id = f.host_id;
  msg_id = f.msg_id;
  message_seq = f.message_seq;
  message_seq_max = f.message_seq_max;
  timestamp = f.timestamp;
}
