-- ===== src/Protocol/Inner/RoundTrip.antt =====
-- pkg/protocol/inner.go: what ConstructInnerPayload writes, DeconstructInnerPayload reads back.
use mathlib.Core.Path.{subst}
use sdsyslog.Common.{
  leb, Bool-cases, eq-false, lt→ltb, leb-true, eq_zero-false, ℕ, zero, suc, ◌%◌, ◌≤◌, ◌<◌, ◌≡◌,
  refl, ap, inl, inr, Option, some, List, [], ◌∷◌, ◌++◌, arith, length, length-append, All, ok,
}
use sdsyslog.Common.Words.{Bytes, be_bytes}
use sdsyslog.Protocol.{ContextWireFormat, InnerWireFormat}
use sdsyslog.Protocol.Wire.{
  read_full, read_uint, read_byte, read_terminator, read_full-append, read_uint-be_bytes,
}
use sdsyslog.Protocol.Inner.{
  get_signature_info, write_header, write_hostname, write_signature, write_context_field,
  context_buffer, write_context, write_data, random_padding, construct_inner_payload, read_header,
  read_hostname, read_signature_field, signature_suite, read_signature, read_context_field,
  read_context_fields, read_context_section, read_context, read_data, deconstruct_inner_payload,
}
use sdsyslog.Protocol.Inner.Shape.{
  HeaderFits, SignatureFits, FieldFits, IsWire, header_of, length_byte_small,
  length-write_context_field, wire_bytes, wire_bytes_long,
}

read_header-write_header :
    (f : InnerWireFormat) (rest : Bytes)
    → HeaderFits f
    → read_header (write_header f rest) ≡ ok (header_of f, rest)
unfolding read_header write_header
read_header-write_header f rest h = rw (
  read_uint-be_bytes 4 f.host_id _ h.host_id_fits,
  read_uint-be_bytes 4 f.msg_id _ h.msg_id_fits,
  read_uint-be_bytes 2 f.message_seq _ h.message_seq_fits,
  read_uint-be_bytes 2 f.message_seq_max _ h.message_seq_max_fits,
  read_uint-be_bytes 8 f.timestamp _ h.timestamp_fits,
)

-- A length byte is read back as one unsigned integer.
read_uint_one : (b : ℕ) (rest : Bytes) → b < 256 → read_uint 1 (b ∷ rest) ≡ ok (b, rest)
unfolding be_bytes
read_uint_one b rest h =
    let whole : b % 256 ≡ b = omega arith in
    subst (λ c. read_uint 1 (c ∷ rest) ≡ ok (b, rest)) whole
      (read_uint-be_bytes 1 b rest (omega arith))

read_terminator_zero : (rest : Bytes) → read_terminator (0 ∷ rest) ≡ ok rest
unfolding read_terminator
read_terminator_zero rest = refl

read_hostname-write_hostname :
    (name rest : Bytes)
    → 1 ≤ length name
    → length name ≤ 255
    → read_hostname (write_hostname name rest) ≡ ok (name, rest)
unfolding read_hostname write_hostname
read_hostname-write_hostname name rest lo hi = rw (
  length_byte_small name hi,
  read_uint_one (length name) _ (omega arith),
  eq_zero-false (length name) lo,
  leb-true (length name) 255 hi,
  read_full-append name,
  read_terminator_zero rest,
)

read_signature-write_signature :
    (id : ℕ) (sig rest : Bytes)
    → SignatureFits id sig
    → read_signature (write_signature id sig rest) ≡ ok (id, sig, rest)
unfolding read_signature write_signature signature_suite get_signature_info read_signature_field
read_signature-write_signature id [] rest (inl (e, l)) =
    rw (e, read_uint_one 0 (0 ∷ rest) (omega arith), read_uint_one 0 rest (omega arith))
read_signature-write_signature id (x ∷ sig) rest (inl (e, l)) = absurd (omega arith)
read_signature-write_signature id sig rest (inr (e, l)) =
    let field =
      subst (λ k. read_full k (sig ++ rest) ≡ ok (sig, rest)) l (read_full-append sig rest) in
    rw (e, l, read_uint_one 1 _ (omega arith), read_uint_one 64 _ (omega arith), field)

read_context_field-write_context_field :
    (c : ContextWireFormat) (rest : Bytes)
    → FieldFits c
    → (bs : Bytes) × (write_context_field c rest ≡ length c.key ∷ bs)
      × (read_context_field (length c.key) bs ≡ ok (c, rest))
      × (length rest < length bs)
unfolding read_context_field write_context_field
read_context_field-write_context_field c rest h = (
  c.key ++ (0 ∷ c.val_type ∷ length c.value ∷ (c.value ++ (0 ∷ rest))),
  rw (length_byte_small c.key h.key_fits, length_byte_small c.value h.value_fits),
  rw (read_full-append c.key) (unfold read_byte read_terminator in rw (read_full-append c.value)),
  omega (
    arith,
    length-append c.key (0 ∷ c.val_type ∷ length c.value ∷ (c.value ++ (0 ∷ rest))),
    length-append c.value (0 ∷ rest),
  ),
)

read_data-write_data :
    (body rest : Bytes)
    → 1 ≤ length body
    → length body ≤ 65535
    → read_data (write_data body rest) ≡ ok (body, rest)
unfolding read_data write_data
read_data-write_data body rest lo hi =
    let whole : length body % 65536 ≡ length body = omega arith in
    rw (
      whole,
      read_uint-be_bytes 2 (length body) _ (omega arith),
      eq_zero-false (length body) lo,
      leb-true (length body) (length (body ++ rest)) (omega (arith, length-append body rest)),
      read_full-append body,
    )

-- The loop reads back every list of fields, with the length of the section for fuel.
read_context_fields-context_buffer :
    (cs : List ContextWireFormat) (fuel : ℕ)
    → All FieldFits cs
    → length (context_buffer cs) ≤ fuel
    → read_context_fields fuel (context_buffer cs) ≡ ok cs
unfolding read_context_fields context_buffer
read_context_fields-context_buffer [] zero h l = refl
read_context_fields-context_buffer [] (suc fuel) h l = refl
read_context_fields-context_buffer (c ∷ cs) zero h l =
    let (bs, e, _, _) = read_context_field-write_context_field c (context_buffer cs) h.0 in
    absurd (omega (arith, ap length e))
read_context_fields-context_buffer (c ∷ cs) (suc fuel) h l =
    let (bs, e, r, shorter) = read_context_field-write_context_field c (context_buffer cs) h.0 in
    rw e (rw (r, read_context_fields-context_buffer cs fuel h.1 (omega (arith, ap length e))))

-- A section whose fields are read is read behind its length.
read_context_buffer :
    (buffer : Bytes) (cs : List ContextWireFormat) (rest : Bytes)
    → 5 ≤ length buffer
    → length buffer ≤ 65535
    → read_context_fields (length buffer) buffer ≡ ok cs
    → read_context (write_context buffer rest) ≡ ok (cs, rest)
unfolding read_context write_context read_context_section
read_context_buffer buffer cs rest lo hi fields =
    let whole : length buffer % 65536 ≡ length buffer = omega arith in
    rw (
      lt→ltb 0 (length buffer) (omega arith),
      whole,
      read_uint-be_bytes 2 (length buffer) _ (omega arith),
      eq_zero-false (length buffer) (omega arith),
      eq-false (length buffer) 1 (omega arith),
      read_full-append buffer,
      fields,
      read_terminator_zero rest,
    )

read_context-write_context :
    (cs : List ContextWireFormat) (rest : Bytes)
    → All FieldFits cs
    → length (context_buffer cs) ≤ 65535
    → read_context (write_context (context_buffer cs) rest) ≡ ok (cs, rest)
read_context-write_context [] rest h l =
    unfold read_context write_context context_buffer in
    rw (read_uint-be_bytes 2 1 _ (omega arith), read_terminator_zero rest)
read_context-write_context (c ∷ cs) rest h l =
    read_context_buffer (context_buffer (c ∷ cs)) (c ∷ cs) rest
      (unfold context_buffer in omega (arith, length-write_context_field c (context_buffer cs))) l
      (read_context_fields-context_buffer (c ∷ cs) _ h (omega arith))

-- A record that fits its length fields, whose padding is drawn at its length, of 10 bytes at least,
-- is serialised, and deserialised to itself: every field, the order of the context fields and the
-- length of the padding.
pub deconstruct-construct :
    (rand : ℕ → Option Bytes) (f : InnerWireFormat) (padding : Bytes)
    → IsWire f
    → rand f.padding_len ≡ some padding
    → length padding ≡ f.padding_len
    → 10 ≤ f.padding_len
    → (payload : Bytes) × (construct_inner_payload rand f ≡ ok payload)
      × (deconstruct_inner_payload payload ≡ ok f)
unfolding construct_inner_payload deconstruct_inner_payload wire_bytes random_padding
deconstruct-construct rand f padding w drawn size enough = (
  wire_bytes f padding,
  rw (
    leb-true 1 (length f.hostname) w.hostname_some,
    leb-true (length (context_buffer f.context_fields)) 65535 w.context_fits,
    eq_zero-false (length f.body) w.body_some,
    leb-true (length f.body) 65535 w.body_fits,
    drawn,
    random_padding,
  ),
  rw (leb-true 41 (length (wire_bytes f padding)) (wire_bytes_long f padding w (omega arith))) (
      rw (
        read_header-write_header f _ w.header,
        read_hostname-write_hostname f.hostname _ w.hostname_some w.hostname_fits,
        read_signature-write_signature f.signature_id f.signature _ w.signature_fits,
        read_context-write_context f.context_fields _ w.fields_fit w.context_fits,
        read_data-write_data f.body padding w.body_some w.body_fits,
        size,
      )),
)

-- Nothing shorter is read.
pub deconstruct_inner_payload-long :
    (payload : Bytes) (f : InnerWireFormat)
    → deconstruct_inner_payload payload ≡ ok f
    → 41 ≤ length payload
unfolding deconstruct_inner_payload
deconstruct_inner_payload-long payload f e = elim (Bool-cases (leb 41 (length payload))) [
  | inl long ↦ ground arith
  | inr short ↦ let refused = rw short at e in cc
]
