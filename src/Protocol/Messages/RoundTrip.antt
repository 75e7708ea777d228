-- ===== src/Protocol/Messages/RoundTrip.antt =====
-- pkg/protocol/wrapper.go: a message that Create makes packets of is the message that Extract returns.
use sdsyslog.Common.{
  ◌*◌, ◌/◌, length-append, length-map, ℕ, suc, ◌-◌, ◌+◌, ◌≤◌, ◌<◌, ◌^◌, ◌≡◌, refl, sym, ap, ◌∙◌,
  Option, some, List, [], ◌∷◌, map, arith, length, All, ok, Yields-eq_ok, ok_injective,
}
use sdsyslog.Common.Words.{Bytes}
use mathlib.Core.Path.{subst}
use sdsyslog.Protocol.Inner.Shape.{SignatureFits}
use sdsyslog.Protocol.Outer.{Cipher, SuiteInfo, get_suite_info}
use sdsyslog.Protocol.Outer.RoundTrip.{IsCipher}
use sdsyslog.Protocol.Overhead.{calculate_protocol_overhead}
use sdsyslog.Protocol.Fragments.{Payload, cut_fragment, with_max, fragment, rebuilt, defragment}
use sdsyslog.Protocol.Fragments.Splitting.{
  Drawing, Pieces, done, more, fragment-Fits, fragment-Yields, Pieces-Distinct, length-Pieces,
  drawn_padding-Drawing,
}
use sdsyslog.Protocol.Fragments.RoundTrip.{Comparable, defragment-Pieces}
use sdsyslog.Protocol.Payloads.{sort_fields, Keys, construct_signature, marked_hostname, on_sender}
use sdsyslog.Protocol.Payloads.Passing.{received_payload}
use sdsyslog.Protocol.Payloads.Fields.{carried_field}
use sdsyslog.Protocol.Messages.{
  Message, Randomness, Signer, four_byte, create_signature, new_payload, pack_each, create,
  unpack_each, message_of, extract,
}
use sdsyslog.Protocol.Messages.Packets.{Pads, Encrypts, IsPackable, unpack-pack}

-- The shortest fragment of a payload.
abbrev pub one_byte : Payload → Payload
one_byte p = record p { message_seq = 0; padding_len = 10; body = 0 ∷ [] }

-- What arrives is the message.
extract-fragments :
    (cipher : Cipher) (keys : Keys) (packets : List Bytes) (fs : List Payload) (q : Payload)
    → unpack_each cipher keys packets ≡ ok fs
    → 1 ≤ length fs
    → defragment fs ≡ ok q
    → extract cipher keys packets ≡ ok (some (message_of q, q.host_id))
unfolding extract unpack_each
extract-fragments cipher keys [] [] q read h joined = absurd (omega arith)
extract-fragments cipher keys [] (f ∷ fs) q read h joined = cc
extract-fragments cipher keys (packet ∷ packets) fs q read h joined = rw (read, joined)

-- A message that is not empty has a piece.
Pieces-some :
    {draws : ℕ → ℕ → Option ℕ} {p : Payload} {size fixed seq : ℕ} {bs : Bytes} {ps : List Payload}
    → Pieces draws p size fixed seq bs ps
    → 1 ≤ length bs
    → 1 ≤ length ps
Pieces-some done h = absurd (omega arith)
Pieces-some (more pad piece drawn full fits cut) h = omega arith

module _ (cipher : Cipher) (keys : Keys) (crypto_suite : ℕ) (suite : SuiteInfo) (sig_id : ℕ)
    (signature name : Bytes) (law : IsCipher cipher) (used : 1 ≤ crypto_suite)
    (known : get_suite_info crypto_suite ≡ some suite) (encrypts : Encrypts cipher crypto_suite)
    (sig_fits : SignatureFits sig_id signature) where
  abbrev Packable : Payload → Type 0
  Packable = IsPackable keys sig_id signature name

  abbrev received : Payload → Payload
  received f = received_payload f sig_id signature name

  unpack_each-pack_each :
      (paddings : ℕ → ℕ → Option Bytes) (index : ℕ) (fs : List Payload)
      → ((i : ℕ) → Pads (paddings i))
      → All Packable fs
      → (packets : List Bytes) × (pack_each cipher paddings crypto_suite sig_id index fs
          ≡ ok packets)
        × (unpack_each cipher keys packets ≡ ok (map received fs))
  unfolding pack_each unpack_each
  unpack_each-pack_each paddings index [] pads h = ([], refl, refl)
  unpack_each-pack_each paddings index (f ∷ fs) pads (h, hs) =
      let (packet, made, read) =
        unpack-pack cipher keys crypto_suite suite sig_id signature name law used known encrypts
          sig_fits (paddings index) f (pads index) h in
      let (packets, rest_made, rest_read) = unpack_each-pack_each paddings (suc index) fs pads hs in
      (packet ∷ packets, rw (made, rest_made), rw (read, rest_read))

  -- Whether a fragment can be packed hangs on its message, its number, its padding and its length.
  Packable-part :
      (p : Payload) (last seq pad : ℕ) (piece : Bytes)
      → Packable (one_byte p)
      → seq ≤ last
      → last < 2 ^ 16
      → 10 ≤ pad
      → pad ≤ 60
      → 1 ≤ length piece
      → length piece ≤ 65535
      → Packable (with_max last (cut_fragment p seq pad piece))
  unfolding cut_fragment construct_signature marked_hostname on_sender
  Packable-part p last seq pad piece h below few low high full short =
      let s = h.sendable in
      record {
        sendable = record {
          host_some = s.host_some;
          host_fits = s.host_fits;
          msg_some = s.msg_some;
          msg_fits = s.msg_fits;
          seq_bounded = below;
          seq_fits = few;
          time_fits = s.time_fits;
          name_some = s.name_some;
          fields_pass = s.fields_pass;
          keys_distinct = s.keys_distinct;
          section_fits = s.section_fits;
          body_some = full;
          padding_low = low;
          padding_high = high;
        };
        signed = h.signed;
        trusted = h.trusted;
        short = short;
      }

  map-received :
      (ps : List Payload) (last : ℕ)
      → map received (map (with_max last) ps) ≡ map (with_max last) (map received ps)
  map-received [] last = refl
  map-received (f ∷ fs) last = ap (λ k. with_max last (received f) ∷ k) (map-received fs last)

  module _ (draws : ℕ → ℕ → Option ℕ) (p : Payload) (size fixed : ℕ)
      (drawing : Drawing draws p size fixed) (h : Packable (one_byte p)) where
    Packable-Pieces :
        (last : ℕ) {seq : ℕ} {bs : Bytes} {ps : List Payload}
        → Pieces draws p size fixed seq bs ps
        → last < 2 ^ 16
        → length bs ≤ 65535
        → seq + length ps ≤ suc last
        → All Packable (map (with_max last) ps)
    Packable-Pieces last done few short below = tt
    Packable-Pieces last (more {seq = seq} {rest = rest} pad piece drawn full fits cut) few short
          below =
        let (n, made, low, high) = drawn_padding-Drawing draws p size fixed drawing seq in
        let same : n ≡ pad = ok_injective (sym made ∙ drawn) in
        let total = length-append piece rest in
        (
          Packable-part p last seq pad piece h (omega arith) few (omega arith) (omega arith) full
              (omega arith),
          Packable-Pieces last cut few (omega arith) (omega arith),
        )

    received-Pieces :
        {seq : ℕ} {bs : Bytes} {ps : List Payload}
        → Pieces draws p size fixed seq bs ps
        → Pieces draws (received p) size fixed seq bs (map received ps)
    unfolding cut_fragment
    received-Pieces done = done
    received-Pieces (more pad piece drawn full fits cut) =
        more pad piece drawn full fits (received-Pieces cut)

    defragment-received :
        (ps : List Payload)
        → Pieces draws p size fixed 0 p.body ps
        → 1 ≤ length p.body
        → Comparable (received p)
        → defragment (map received (map (with_max (length ps - 1)) ps))
          ≡ ok (rebuilt (received p) p.body)
    defragment-received ps cut some_body c =
        let qs = map received ps in
        let there = received-Pieces cut in
        let last = length qs - 1 in
        let joined =
          defragment-Pieces draws (received p) size fixed qs (map (with_max last) qs) there
            some_body c (record { distinct = Pieces-Distinct last there; same = λ i. refl }) in
        ap defragment (
          map-received ps (length ps - 1)
          ∙ ap (λ n. map (with_max (n - 1)) qs) (sym (length-map received ps)))
        ∙ joined

    fragments_arrive :
        (paddings : ℕ → ℕ → Option Bytes) (parts : List Payload)
        → fragment draws p size fixed ≡ ok parts
        → ((i : ℕ) → Pads (paddings i))
        → 1 ≤ length p.body
        → length p.body ≤ 65535
        → Comparable (received p)
        → (packets : List Bytes) × (pack_each cipher paddings crypto_suite sig_id 0 parts
            ≡ ok packets)
          × (extract cipher keys packets
              ≡ ok (some (message_of (rebuilt (received p) p.body), p.host_id)))
    unfolding rebuilt
    fragments_arrive paddings parts made pads some_body short c =
        let (ps, shape, cut) = Yields-eq_ok (fragment-Yields draws p size fixed) made in
        let count = length-Pieces 0 cut in
        let last = length ps - 1 in
        let some_parts = Pieces-some cut some_body in
        let packable = Packable-Pieces last cut (omega arith) short (omega arith) in
        let (packets, packed, read) =
          unpack_each-pack_each paddings 0 parts pads (subst (All Packable) (sym shape) packable) in
        (
          packets,
          packed,
          extract-fragments cipher keys packets (map received parts) (rebuilt (received p) p.body)
              read
              (omega
                (arith, length-map received parts, length-map (with_max last) ps, ap length shape))
              (rw shape (defragment-received ps cut some_body c)),
        )

-- Each message whose data are 1 to 65535 bytes long is made into packets, and from these packets the
-- receiver takes the message: its time in whole milliseconds, its whole data, the host id, the
-- hostname as it was sent with the marker of its trust, and the custom fields as they are carried, in
-- the order of their keys. The conditions: the suite is known and is not the one for tests, and what
-- it seals has its sizes and is opened again; randomness, signature, padding and encryption succeed;
-- the packet size leaves room for the overhead, which is not 0, and the largest padding; a fragment of
-- one byte can be packed, with numbers that fit, a hostname of which something is left, fields that
-- pass unchanged, under different keys and in a section that fits, and a sender whom the receiver
-- accepts; and the custom fields, as they are carried, can be compared and are equal to themselves: no
-- byte slice and no NaN is among them.
pub extract-create :
    (cipher : Cipher) (keys : Keys) (crypto_suite : ℕ) (suite : SuiteInfo) (sig_id : ℕ)
    (signature name : Bytes) (law : IsCipher cipher) (used : 1 ≤ crypto_suite)
    (known : get_suite_info crypto_suite ≡ some suite) (encrypts : Encrypts cipher crypto_suite)
    (sig_fits : SignatureFits sig_id signature) (signer : Signer) (rand : Randomness) (m : Message)
    (host_id size fixed msg_id : ℕ)
    → four_byte rand.message_id ≡ ok msg_id
    → create_signature signer m host_id sig_id ≡ ok signature
    → calculate_protocol_overhead crypto_suite (new_payload m host_id msg_id signature sig_id)
      ≡ ok fixed
    → 1 ≤ fixed
    → fixed + 60 < size
    → Drawing rand.draws (new_payload m host_id msg_id signature sig_id) size fixed
    → ((i : ℕ) → Pads (rand.paddings i))
    → IsPackable keys sig_id signature name
        (one_byte (new_payload m host_id msg_id signature sig_id))
    → 1 ≤ length m.body
    → length m.body ≤ 65535
    → Comparable
        (received_payload (new_payload m host_id msg_id signature sig_id) sig_id signature name)
    → (packets : List Bytes) × (create cipher signer rand m host_id size crypto_suite sig_id
        ≡ ok packets)
      × (extract cipher keys packets
          ≡ ok (
              some (
                record {
                  timestamp = m.timestamp / 1000000 * 1000000;
                  hostname = name;
                  fields = map carried_field (sort_fields m.fields);
                  body = m.body;
                },
                host_id,
              )))
unfolding create rebuilt
extract-create cipher keys crypto_suite suite sig_id signature name law used known encrypts sig_fits
      signer rand m host_id size fixed msg_id id_drawn signed counted some_fixed room drawing pads
      packable some_body short c =
    let p = new_payload m host_id msg_id signature sig_id in
    let (parts, made, _) = fragment-Fits rand.draws p size fixed drawing some_fixed room in
    let (packets, packed, read) =
      fragments_arrive cipher keys crypto_suite suite sig_id signature name law used known encrypts
        sig_fits rand.draws p size fixed drawing packable rand.paddings parts made pads some_body
        short c in
    (packets, rw (id_drawn, signed, counted, made) packed, read)
