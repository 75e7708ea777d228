-- ===== src/Protocol/Payloads/Trust.antt =====
-- pkg/protocol/payload.go: what a payload that DeconstructPayload accepts is.
use sdsyslog.Common.{
  not, ◌≤◌, ◌≡◌, ◌≢◌, refl, Bool, true, false, Option, none, some, Bool-cases, inl, inr, List, [],
  ◌++◌, arith, length, ok, Yields, good, bad, Yields-intro, Yields-bind, Yields-guard, Yields-eq_ok,
  ◌==◌, leb,
}
use sdsyslog.Common.Words.{Bytes}
use sdsyslog.Protocol.{invalid_payload, max_hostname_len, InnerWireFormat}
use sdsyslog.Protocol.Values.{Value}
use sdsyslog.Protocol.Fragments.{Payload}
use sdsyslog.Protocol.Signatures.{serialize_signature}
use sdsyslog.Protocol.Payloads.{
  Keys, is_printable_ascii, validated_payload, padding_fits, host_prefix_unk_sig,
  host_prefix_unverified, strip_markers, on_verified, on_sender, marked_hostname, check_fields,
  deconstruct_payload,
}

-- What a hostname stands for: a pinned key under which the identity is signed, or the marker of a
-- sender whose key is not pinned, by whether there is a signature.
pub data Trust (keys : Keys) (f : InnerWireFormat) : Bytes → Type 0 where
  verified :
      (key : Bytes)
      → keys.lookup_pinned_sender (strip_markers f.hostname) ≡ some key
      → f.signature_id ≢ 0
      → keys.verify_signature key
          (serialize_signature (strip_markers f.hostname) f.host_id f.timestamp)
          f.signature
          f.signature_id
        ≡ some true
      → Trust keys f (strip_markers f.hostname)
  unverified :
      keys.lookup_pinned_sender (strip_markers f.hostname) ≡ none
      → f.signature_id ≡ 0
      → Trust keys f (host_prefix_unverified ++ strip_markers f.hostname)
  unknown :
      keys.lookup_pinned_sender (strip_markers f.hostname) ≡ none
      → f.signature_id ≢ 0
      → Trust keys f (host_prefix_unk_sig ++ strip_markers f.hostname)

on_verified-Trust :
    (keys : Keys) (f : InnerWireFormat) (key : Bytes)
    → keys.lookup_pinned_sender (strip_markers f.hostname) ≡ some key
    → f.signature_id ≢ 0
    → (o : Option Bool)
    → keys.verify_signature key
        (serialize_signature (strip_markers f.hostname) f.host_id f.timestamp)
        f.signature
        f.signature_id
      ≡ o
    → Yields (Trust keys f) (on_verified (strip_markers f.hostname) o)
unfolding on_verified
on_verified-Trust keys f key there signed none e = bad
on_verified-Trust keys f key there signed (some true) e = good (verified key there signed e)
on_verified-Trust keys f key there signed (some false) e = bad

on_sender-Trust :
    (keys : Keys) (f : InnerWireFormat) (o : Option Bytes)
    → keys.lookup_pinned_sender (strip_markers f.hostname) ≡ o
    → Yields (Trust keys f) (on_sender keys f (strip_markers f.hostname) o)
unfolding on_sender
on_sender-Trust keys f none e = elim (Bool-cases (f.signature_id == 0)) [
  | inl unsigned ↦ rw unsigned (good (unverified e (ground arith)))
  | inr signed ↦ rw signed (good (unknown e (ground arith)))
]
on_sender-Trust keys f (some key) e = elim (Bool-cases (f.signature_id == 0)) [
  | inl unsigned ↦ rw unsigned bad
  | inr signed ↦ rw signed (on_verified-Trust keys f key e (ground arith) _ refl)
]

-- A payload that is accepted from a wire record.
pub record Validated (keys : Keys) (f : InnerWireFormat) (v : Payload) : Type 0 where
  pub trust : Trust keys f v.hostname
  pub host_some : 1 ≤ v.host_id
  pub msg_some : 1 ≤ v.msg_id
  pub seq_bounded : v.message_seq ≤ v.message_seq_max
  pub body_some : 1 ≤ length v.body
  pub padding_low : 10 ≤ v.padding_len
  pub padding_high : v.padding_len ≤ 60
  pub same_seq : v.message_seq ≡ f.message_seq
  pub same_body : v.body ≡ f.body

Validated-payload :
    (keys : Keys) (f : InnerWireFormat) (hostname : Bytes) (fields : List (Bytes × Value))
    → Trust keys f hostname
    → not (f.host_id == 0) ≡ true
    → not (f.msg_id == 0) ≡ true
    → leb f.message_seq f.message_seq_max ≡ true
    → not (length f.body == 0) ≡ true
    → padding_fits f.padding_len ≡ true
    → Validated keys f (validated_payload f hostname fields)
Validated-payload keys f hostname fields trust host msg seq body padding = record {
  trust = trust;
  host_some = ground arith;
  msg_some = ground arith;
  seq_bounded = ground arith;
  body_some = ground arith;
  padding_low = ground arith;
  padding_high = ground arith;
  same_seq = refl;
  same_body = refl;
}

deconstruct_payload-Yields :
    (keys : Keys) (f : InnerWireFormat) → Yields (Validated keys f) (deconstruct_payload keys f)
unfolding deconstruct_payload marked_hostname
deconstruct_payload-Yields keys f =
    Yields-bind (Yields-guard (not (f.host_id == 0)) invalid_payload) λ _ host.
      Yields-bind (Yields-guard (not (f.msg_id == 0)) invalid_payload) λ _ msg.
        Yields-bind (Yields-guard (leb f.message_seq f.message_seq_max) invalid_payload) λ _ seq.
          Yields-bind (Yields-guard (not (length f.hostname == 0)) invalid_payload) λ _ name.
            Yields-bind (Yields-guard (leb (length f.hostname) max_hostname_len) invalid_payload)
              λ _ name_short.
                Yields-bind (Yields-guard (is_printable_ascii f.hostname) invalid_payload)
                  λ _ ascii.
                    Yields-bind
                      (on_sender-Trust keys f (keys.lookup_pinned_sender (strip_markers f.hostname))
                        refl)
                      λ hostname trust.
                        Yields-bind
                          (Yields-intro {P = λ _. Unit {0}} (check_fields [] f.context_fields)
                            (λ _ _. tt))
                          λ fields _.
                            Yields-bind (Yields-guard (not (length f.body == 0)) invalid_payload)
                              λ _ body.
                                Yields-bind
                                  (Yields-guard (padding_fits f.padding_len) invalid_payload)
                                  λ _ padding. good {a = validated_payload f hostname fields} (
                                    Validated-payload keys f hostname fields trust host msg seq body
                                      padding)

-- A payload that is accepted has a hostname of one of three kinds: one with a pinned key, whose
-- signature over hostname, host and time was verified under that key; one without, behind the marker
-- for no signature; or one without, behind the marker for a signature of an unknown key. Its host and
-- message numbers are not 0, its sequence number does not pass the last one, it has data, and its
-- padding is in the range.
pub deconstruct_payload-Validated :
    (keys : Keys) (f : InnerWireFormat) (v : Payload)
    → deconstruct_payload keys f ≡ ok v
    → Validated keys f v
deconstruct_payload-Validated keys f v e = Yields-eq_ok (deconstruct_payload-Yields keys f) e
