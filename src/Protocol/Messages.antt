-- ===== src/Protocol/Messages.antt =====
-- pkg/protocol/wrapper.go: a message is made into packets, and packets into a message.
pub mod Packets
pub mod RoundTrip
mod Tests
use sdsyslog.Common.{
  ℕ, suc, ◌%◌, ◌^◌, Bool, Option, none, some, List, [], ◌∷◌, ◌==◌, if◌then◌else◌, Result, ok, err,
  ◌>>=◌,
}
use sdsyslog.Common.Words.{Bytes, be_value}
use sdsyslog.Protocol.{Error, plain}
use sdsyslog.Protocol.Values.{Value}
use sdsyslog.Protocol.Inner.{construct_inner_payload, deconstruct_inner_payload}
use sdsyslog.Protocol.Outer.{
  Cipher, or_crypto_failure, construct_outer_payload, deconstruct_outer_payload,
}
use sdsyslog.Protocol.Signatures.{serialize_signature}
use sdsyslog.Protocol.Overhead.{calculate_protocol_overhead}
use sdsyslog.Protocol.Fragments.{Payload, fragment, defragment}
use sdsyslog.Protocol.Payloads.{Keys, unix_milli, construct_payload, deconstruct_payload}

pub record Message : Type 0 where
  pub timestamp : ℕ
  pub hostname : Bytes
  pub fields : List (Bytes × Value)
  pub body : Bytes

-- What crypto/rand yields for one message: four bytes for its number, a draw for the length of each
-- padding, and the padding of each fragment.
pub record Randomness : Type 0 where
  pub message_id : Option Bytes
  pub draws : ℕ → ℕ → Option ℕ
  pub paddings : ℕ → ℕ → Option Bytes

-- wrappers.CreateSignature, a variable that the program sets.
abbrev pub Signer : Type 0
Signer = Bytes → ℕ → Option Bytes

-- internal/crypto/random: FourByte.
unfoldable pub four_byte : Option Bytes → Result Error ℕ
four_byte none = err plain
four_byte (some b) = ok (be_value b)

-- The signature, made before the message is cut.
unfoldable pub create_signature : Signer → Message → ℕ → ℕ → Result Error Bytes
create_signature signer m host_id signature_suite =
    let signed = or_crypto_failure (
      signer (serialize_signature m.hostname (host_id % 2 ^ 32) (unix_milli m.timestamp))
        signature_suite) in
    if signature_suite == 0 then ok [] else signed

abbrev pub new_payload : Message → ℕ → ℕ → Bytes → ℕ → Payload
new_payload m host_id msg_id signature signature_suite = record {
  remote_ip = [];
  host_id = host_id;
  msg_id = msg_id;
  message_seq = 0;
  message_seq_max = 0;
  timestamp = m.timestamp;
  hostname = m.hostname;
  signature_id = signature_suite;
  signature = signature;
  custom_fields = m.fields;
  body = m.body;
  padding_len = 0;
}

-- One round of the loop of Create.
unfoldable pub pack : Cipher → (ℕ → Option Bytes) → ℕ → ℕ → Payload → Result Error Bytes
pack cipher padding crypto_suite signature_suite f = do
  payload ← construct_payload f signature_suite
  inner ← construct_inner_payload padding payload
  construct_outer_payload cipher inner crypto_suite

unfoldable pub pack_each :
    Cipher → (ℕ → ℕ → Option Bytes) → ℕ → ℕ → ℕ → List Payload → Result Error (List Bytes)
pack_each cipher paddings crypto_suite signature_suite index [] = ok []
pack_each cipher paddings crypto_suite signature_suite index (f ∷ fs) = do
  packet ← pack cipher (paddings index) crypto_suite signature_suite f
  rest ← pack_each cipher paddings crypto_suite signature_suite (suc index) fs
  ok (packet ∷ rest)

-- An error leaves out the packets that were made before it.
unfoldable pub create :
    Cipher → Signer → Randomness → Message → ℕ → ℕ → ℕ → ℕ → Result Error (List Bytes)
create cipher signer rand m host_id max_payload_size crypto_suite signature_suite = do
  msg_id ← four_byte rand.message_id
  signature ← create_signature signer m host_id signature_suite
  let p = new_payload m host_id msg_id signature signature_suite
  overhead ← calculate_protocol_overhead crypto_suite p
  fragments ← fragment rand.draws p max_payload_size overhead
  pack_each cipher rand.paddings crypto_suite signature_suite 0 fragments

-- One round of the loop of Extract.
unfoldable pub unpack : Cipher → Keys → Bytes → Result Error Payload
unpack cipher keys packet = do
  inner ← deconstruct_outer_payload cipher packet
  payload ← deconstruct_inner_payload inner
  deconstruct_payload keys payload

unfoldable pub unpack_each : Cipher → Keys → List Bytes → Result Error (List Payload)
unpack_each cipher keys [] = ok []
unpack_each cipher keys (packet ∷ packets) = do
  f ← unpack cipher keys packet
  fs ← unpack_each cipher keys packets
  ok (f ∷ fs)

abbrev pub message_of : Payload → Message
message_of p = record {
  timestamp = p.timestamp;
  hostname = p.hostname;
  fields = p.custom_fields;
  body = p.body;
}

-- Without packets there is no message, and no error.
unfoldable pub extract : Cipher → Keys → List Bytes → Result Error (Option (Message × ℕ))
extract cipher keys [] = ok none
extract cipher keys (packet ∷ packets) = do
  fragments ← unpack_each cipher keys (packet ∷ packets)
  p ← defragment fragments
  ok (some (message_of p, p.host_id))
