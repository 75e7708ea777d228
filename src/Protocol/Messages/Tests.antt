-- ===== src/Protocol/Messages/Tests.antt =====
-- pkg/protocol/wrapper.go: a message of three bytes, in packets that hold one of them.
use sdsyslog.Common.{
  ◌-◌, ℕ, ◌≡◌, refl, none, some, List, [], ◌∷◌, ◌++◌, inl, arith, ok, replicate, length-replicate,
}
use sdsyslog.Common.Words.{Bytes, be_value}
use sdsyslog.Protocol.Overhead.{calculate_protocol_overhead, custom_length}
use sdsyslog.Protocol.Fragments.{custom_fields_equal}
use sdsyslog.Protocol.Outer.{get_suite_info, suite_of}
use sdsyslog.Protocol.Outer.Tests.{toy_cipher, toy_cipher-IsCipher, toy_suite, padded}
use sdsyslog.Protocol.Payloads.{
  clean_string_to_bytes, sort_fields, marked_hostname, construct_signature, strip_markers,
  is_printable_ascii, Keys, host_prefix_unverified,
}
use sdsyslog.Protocol.Messages.{
  four_byte, create_signature, Message, Randomness, Signer, new_payload, create, extract,
}
use sdsyslog.Protocol.Messages.Packets.{IsPackable, Encrypts, Pads}
use sdsyslog.Protocol.Messages.RoundTrip.{one_byte, extract-create}

-- No sender is pinned.
abbrev keys : Keys
keys = record { lookup_pinned_sender = λ name. none; verify_signature = λ key message sig id. none }

abbrev signer : Signer
signer message id = none

-- The message number 8, and the largest paddings, of zeros.
abbrev rand : Randomness
rand = record {
  message_id = some (0 ∷ 0 ∷ 0 ∷ 8 ∷ []);
  draws = λ k bound. some (bound - 1);
  paddings = λ k n. some (replicate n 0);
}

abbrev message : Message
message = record {
  timestamp = 5000001;
  hostname = 104 ∷ 49 ∷ [];
  fields = [];
  body = 1 ∷ 2 ∷ 3 ∷ [];
}

abbrev name : Bytes
name = host_prefix_unverified ++ 104 ∷ 49 ∷ []

encrypts : Encrypts toy_cipher 1
encrypts inner = (padded inner, refl)

pads : (i : ℕ) → Pads (rand.paddings i)
pads i n = (replicate n 0, refl, length-replicate n 0)

one_byte-IsPackable : IsPackable keys 0 [] name (one_byte (new_payload message 7 8 [] 0))
unfolding is_printable_ascii strip_markers construct_signature marked_hostname clean_string_to_bytes
one_byte-IsPackable = record {
  sendable = record {
    host_some = omega arith;
    host_fits = omega arith;
    msg_some = omega arith;
    msg_fits = omega arith;
    seq_bounded = omega arith;
    seq_fits = omega arith;
    time_fits = omega arith;
    name_some = omega arith;
    fields_pass = tt;
    keys_distinct = tt;
    section_fits = inl refl;
    body_some = omega arith;
    padding_low = omega arith;
    padding_high = omega arith;
  };
  signed = refl;
  trusted = refl;
  short = omega arith;
}

extract-create_example :
    (packets : List Bytes) × (create toy_cipher signer rand message 7 156 1 0 ≡ ok packets)
    × (extract toy_cipher keys packets
        ≡ ok (some (record message { timestamp = 5000000; hostname = name }, 7)))
unfolding get_suite_info four_byte be_value create_signature calculate_protocol_overhead suite_of
    custom_length custom_fields_equal sort_fields
extract-create_example =
    extract-create toy_cipher keys 1 toy_suite 0 [] name toy_cipher-IsCipher (omega arith) refl
      encrypts (inl (refl, refl)) signer rand message 7 156 95 8 refl refl refl (omega arith)
      (omega arith) (λ k bound h. (bound - 1, refl, omega arith)) pads one_byte-IsPackable
      (omega arith) (omega arith) refl
