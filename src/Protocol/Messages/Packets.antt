-- ===== src/Protocol/Messages/Packets.antt =====
-- pkg/protocol/wrapper.go: one packet, through the three layers and back.
use sdsyslog.Common.{ℕ, ◌≤◌, ◌≡◌, Option, some, List, [], arith, length, ok}
use sdsyslog.Common.Words.{Bytes}
use sdsyslog.Protocol.{ContextWireFormat}
use sdsyslog.Protocol.Inner.Shape.{IsWire, SignatureFits}
use sdsyslog.Protocol.Inner.RoundTrip.{deconstruct-construct, deconstruct_inner_payload-long}
use sdsyslog.Protocol.Outer.{Cipher, Sealed, SuiteInfo, get_suite_info}
use sdsyslog.Protocol.Outer.RoundTrip.{IsCipher, deconstruct-construct_outer}
use sdsyslog.Protocol.Fragments.{Payload}
use sdsyslog.Protocol.Payloads.{
  Keys, unix_milli, construct_signature, marked_hostname, strip_markers,
}
use sdsyslog.Protocol.Payloads.Fields.{SectionFits}
use sdsyslog.Protocol.Payloads.OneField.{clean_string_to_bytes-printable}
use sdsyslog.Protocol.Payloads.Passing.{IsSendable, wire_record, received_payload, payload_passed}
use sdsyslog.Protocol.Messages.{pack, unpack}

-- The paddings are drawn at their lengths.
abbrev pub Pads : (ℕ → Option Bytes) → Type 0
Pads padding = (n : ℕ) → (bs : Bytes) × (padding n ≡ some bs) × (length bs ≡ n)

-- The encryption succeeds.
abbrev pub Encrypts : Cipher → ℕ → Type 0
Encrypts cipher crypto_suite =
    (inner : Bytes) → (sealed : Sealed) × (cipher.encrypt inner crypto_suite ≡ some sealed)

wire_record-IsWire :
    (p : Payload) (sig_id : ℕ) (signature : Bytes) (cs : List ContextWireFormat)
    → IsSendable p
    → SignatureFits sig_id signature
    → SectionFits cs
    → length p.body ≤ 65535
    → IsWire (wire_record p sig_id signature cs)
unfolding unix_milli
wire_record-IsWire p sig_id signature cs s sig section short = record {
  header = record {
    host_id_fits = s.host_fits;
    msg_id_fits = s.msg_fits;
    message_seq_fits = omega (arith, s.seq_bounded, s.seq_fits);
    message_seq_max_fits = s.seq_fits;
    timestamp_fits = omega arith;
  };
  hostname_some = s.name_some;
  hostname_fits = (clean_string_to_bytes-printable (strip_markers p.hostname) 255).1;
  signature_fits = sig;
  fields_fit = section.each_fits;
  context_fits = section.all_fit;
  body_some = s.body_some;
  body_fits = short;
}

-- A fragment that is sent under the signature, and whose sender the receiver takes by that name.
pub record IsPackable (keys : Keys) (sig_id : ℕ) (signature name : Bytes) (f : Payload)
    : Type 0 where
  pub sendable : IsSendable f
  pub signed : construct_signature f sig_id ≡ ok signature
  pub trusted : marked_hostname keys (wire_record f sig_id signature []) ≡ ok name
  pub short : length f.body ≤ 65535

module _ (cipher : Cipher) (keys : Keys) (crypto_suite : ℕ) (suite : SuiteInfo) (sig_id : ℕ)
    (signature name : Bytes) (law : IsCipher cipher) (used : 1 ≤ crypto_suite)
    (known : get_suite_info crypto_suite ≡ some suite) (encrypts : Encrypts cipher crypto_suite)
    (sig_fits : SignatureFits sig_id signature) where
  pub unpack-pack :
      (padding : ℕ → Option Bytes) (f : Payload)
      → Pads padding
      → IsPackable keys sig_id signature name f
      → (packet : Bytes) × (pack cipher padding crypto_suite sig_id f ≡ ok packet)
        × (unpack cipher keys packet ≡ ok (received_payload f sig_id signature name))
  unfolding pack unpack
  unpack-pack padding f pads p =
      let (cs, made, read, section) =
        payload_passed keys f sig_id signature name p.sendable p.signed p.trusted in
      let w = wire_record f sig_id signature cs in
      let wire = wire_record-IsWire f sig_id signature cs p.sendable sig_fits section p.short in
      let (bs, drawn, size) = pads f.padding_len in
      let (inner, inner_made, inner_read) =
        deconstruct-construct padding w bs wire drawn size p.sendable.padding_low in
      let (sealed, encrypted) = encrypts inner in
      let (packet, outer_made, outer_read, _) =
        deconstruct-construct_outer cipher inner crypto_suite suite sealed law used known encrypted
          (deconstruct_inner_payload-long inner w inner_read) in
      (packet, rw (made, inner_made) outer_made, rw (outer_read, inner_read) read)
