-- ===== src/Protocol/Fragments/Tests.antt =====
-- pkg/protocol/fragmentation.go: a message of five bytes, in packets that hold two.
use sdsyslog.Common.{ℕ, ◌≡◌, refl, Option, some, List, [], ◌∷◌, ◌++◌, arith, All, ok, err}
use sdsyslog.Common.Words.{bytes_equal, Bytes}
use sdsyslog.Protocol.{panics}
use sdsyslog.Protocol.Values.{any_equal, Value, bytes, text}
use sdsyslog.Protocol.Fragments.{
  placeholders, sort_by_seq, equal_to, all_fields_equal, front_part, cut_fragment, back_part,
  drawn_padding, fragment_loop, custom_fields_equal, Payload, missing_fragment_placeholder,
  fragment, rebuilt, defragment,
}
use sdsyslog.Protocol.Fragments.Sorting.{find}
use sdsyslog.Protocol.Fragments.Reassembly.{OneMessage, contents, defragment-contents}
use sdsyslog.Protocol.Fragments.Splitting.{Fits, fragment-Fits}
use sdsyslog.Protocol.Fragments.RoundTrip.{Reordered, defragment-fragment}
use sdsyslog.Protocol.Fragments.Panics.{defragment-panics}

abbrev pub with_fields : List (Bytes × Value) → ℕ → ℕ → ℕ → Bytes → Payload
with_fields fields seq last pad piece = record {
  remote_ip = 127 ∷ 0 ∷ 0 ∷ 1 ∷ [];
  host_id = 7;
  msg_id = 8;
  message_seq = seq;
  message_seq_max = last;
  timestamp = 99;
  hostname = 104 ∷ [];
  signature_id = 0;
  signature = [];
  custom_fields = fields;
  body = piece;
  padding_len = pad;
}

abbrev pub fields : List (Bytes × Value)
fields = (97 ∷ [], text (98 ∷ [])) ∷ []

abbrev pub message : Payload
message = with_fields fields 0 0 0 (1 ∷ 2 ∷ 3 ∷ 4 ∷ 5 ∷ [])

-- Every draw is 0, the smallest padding.
abbrev pub lowest : ℕ → ℕ → Option ℕ
lowest k bound = some 0

abbrev pub parts : List Payload
parts =
    with_fields fields 0 2 10 (1 ∷ 2 ∷ [])
    ∷ with_fields fields 1 2 10 (3 ∷ 4 ∷ [])
    ∷ with_fields fields 2 2 10 (5 ∷ [])
    ∷ []

abbrev pub shuffled : List Payload
shuffled =
    with_fields fields 2 2 10 (5 ∷ [])
    ∷ with_fields fields 0 2 10 (1 ∷ 2 ∷ [])
    ∷ with_fields fields 1 2 10 (3 ∷ 4 ∷ [])
    ∷ []

pub parts_made : fragment lowest message 32 20 ≡ ok parts
unfolding fragment fragment_loop drawn_padding back_part cut_fragment front_part
parts_made = refl

pub shuffled-Reordered : Reordered parts shuffled
unfolding find
shuffled-Reordered = record { distinct = (refl, (refl, (refl, tt))); same = λ i. ground arith }

defragment-fragment_example : defragment shuffled ≡ ok (rebuilt message (1 ∷ 2 ∷ 3 ∷ 4 ∷ 5 ∷ []))
unfolding bytes_equal any_equal
defragment-fragment_example =
    defragment-fragment lowest message 32 20 parts shuffled (omega arith)
      (unfold custom_fields_equal in refl) parts_made shuffled-Reordered

fragment-Fits_example :
    (made : List Payload) × (fragment lowest message 90 20 ≡ ok made)
    × All (Fits lowest message 90 20) made
fragment-Fits_example =
    fragment-Fits lowest message 90 20 (λ k bound h. (0, refl, h)) (omega arith) (omega arith)

-- The middle one is lost.
abbrev gapped : List Payload
gapped = with_fields fields 2 2 10 (5 ∷ []) ∷ with_fields fields 0 2 10 (1 ∷ 2 ∷ []) ∷ []

gapped-OneMessage : OneMessage 2 gapped
unfolding find equal_to bytes_equal any_equal
gapped-OneMessage = record {
  distinct = (refl, (refl, tt));
  up_to = λ i p e. ground arith;
  agree = λ i p e. ground arith;
  some_there = omega arith;
  same_fields = unfold all_fields_equal in refl;
}

defragment-contents_example :
    (p : Payload) × (find p.message_seq gapped ≡ some p)
    × (defragment gapped ≡ ok (rebuilt p (contents gapped 0 3)))
defragment-contents_example = defragment-contents 2 gapped gapped-OneMessage

gapped_joined :
    defragment gapped ≡ ok (rebuilt message (1 ∷ 2 ∷ (missing_fragment_placeholder ++ 5 ∷ [])))
unfolding defragment all_fields_equal equal_to bytes_equal any_equal sort_by_seq placeholders
gapped_joined = refl

abbrev slices : List (Bytes × Value)
slices = (97 ∷ [], bytes (1 ∷ [])) ∷ []

defragment-panics_example :
    defragment (with_fields slices 0 1 10 (1 ∷ []) ∷ with_fields slices 1 1 10 (2 ∷ []) ∷ [])
    ≡ err panics
defragment-panics_example =
    defragment-panics (97 ∷ []) (1 ∷ []) [] (with_fields slices 0 1 10 (1 ∷ []))
      (with_fields slices 1 1 10 (2 ∷ [])) [] refl refl
