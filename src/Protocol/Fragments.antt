-- ===== src/Protocol/Fragments.antt =====
-- pkg/protocol/fragmentation.go: a message is cut into fragments, and fragments are joined again.
-- The integers of the source are natural numbers here: where it tests `<= 0` the model tests for 0.
pub mod Sorting
pub mod Reassembly
pub mod Splitting
pub mod RoundTrip
pub mod Panics
pub mod Tests
use sdsyslog.Common.{
  ℕ, zero, suc, ◌+◌, ◌-◌, ◌&&◌, Bool, true, false, not, Option, none, some, List, [], ◌∷◌, ◌++◌,
  map, ◌==◌, ltb, leb, if◌then◌else◌, length, take, drop, Result, ok, err, guard, ◌>>=◌, ◌>>◌,
}
use sdsyslog.Common.Words.{Bytes, bytes_equal}
use sdsyslog.Protocol.{Error, fragmentation, plain, panics, stuck, min_padding_len, max_padding_len}
use sdsyslog.Protocol.Values.{Value, nil, any_equal}

-- types.go. A map is the list of its entries, in the order in which a loop meets them.
pub record Payload : Type 0 where
  pub remote_ip : Bytes
  pub host_id : ℕ
  pub msg_id : ℕ
  pub message_seq : ℕ
  pub message_seq_max : ℕ
  pub timestamp : ℕ
  pub hostname : Bytes
  pub signature_id : ℕ
  pub signature : Bytes
  pub custom_fields : List (Bytes × Value)
  pub body : Bytes
  pub padding_len : ℕ

-- "[missing fragment]".
abbrev pub missing_fragment_placeholder : Bytes
missing_fragment_placeholder =
    91 ∷ 109 ∷ 105 ∷ 115 ∷ 115 ∷ 105 ∷ 110 ∷ 103 ∷ 32 ∷ 102 ∷ 114 ∷ 97 ∷ 103 ∷ 109 ∷ 101 ∷ 110 ∷ 116
    ∷ 93 ∷ []

-- The part of the remaining bytes that goes into a fragment, and what remains after it.
unfoldable pub front_part : ℕ → Bytes → Bytes
front_part room remaining = if ltb room (length remaining) then take room remaining else remaining

unfoldable pub back_part : ℕ → Bytes → Bytes
back_part room remaining = if ltb room (length remaining) then drop room remaining else []

-- internal/crypto/random: NumberInRange. `rand_int` is rand.Int of crypto/rand, which draws a number
-- below its bound, or fails.
unfoldable pub number_in_range : (ℕ → Option ℕ) → ℕ → ℕ → Result Error ℕ
number_in_range rand_int low high =
    if ltb high low
    then err plain
    else elim (rand_int (high - low + 1)) [ none ↦ err plain | some n ↦ ok (n + low) ]

-- fmt.Errorf("%w: ...: %w", ErrFragmentation, err).
unfoldable pub as_fragmentation : Result Error ℕ → Result Error ℕ
as_fragmentation (ok n) = ok n
as_fragmentation (err e) = err fragmentation

-- `draws` are the draws for each sequence number.
unfoldable pub drawn_padding : (ℕ → ℕ → Option ℕ) → ℕ → Result Error ℕ
unfolding number_in_range as_fragmentation
drawn_padding draws seq =
    as_fragmentation (number_in_range (draws seq) min_padding_len max_padding_len)

unfoldable pub cut_fragment : Payload → ℕ → ℕ → Bytes → Payload
cut_fragment p seq pad piece = record p { message_seq = seq; padding_len = pad; body = piece }

-- A fragment takes a byte at least, so the length of the message is enough fuel. The fragments made
-- before an error, which the source returns beside it, are left out.
unfoldable pub fragment_loop :
    ℕ → (ℕ → ℕ → Option ℕ) → Payload → ℕ → ℕ → ℕ → Bytes → Result Error (List Payload)
fragment_loop fuel draws p size fixed seq [] = ok []
fragment_loop zero draws p size fixed seq (b ∷ bs) = err stuck
fragment_loop (suc fuel) draws p size fixed seq (b ∷ bs) = do
  pad ← drawn_padding draws seq
  guard (ltb (fixed + pad) size) fragmentation
  let room = size - fixed - pad
  rest ← fragment_loop fuel draws p size fixed (suc seq) (back_part room (b ∷ bs))
  ok (cut_fragment p seq pad (front_part room (b ∷ bs)) ∷ rest)

abbrev pub with_max : ℕ → Payload → Payload
with_max last f = record f { message_seq_max = last }

unfoldable pub fragment : (ℕ → ℕ → Option ℕ) → Payload → ℕ → ℕ → Result Error (List Payload)
fragment draws p size fixed = do
  guard (not (size == 0)) fragmentation
  guard (not (fixed == 0)) fragmentation
  parts ← fragment_loop (length p.body) draws p size fixed 0 p.body
  ok (map (with_max (length parts - 1)) parts)

-- `m[key]`; a key that is missing gives nil.
unfoldable pub field_of : Bytes → List (Bytes × Value) → Option Value
field_of key [] = none
field_of key ((k, v) ∷ fields) = if bytes_equal key k then some v else field_of key fields

-- `comparePayload.CustomFields[key] != value`.
unfoldable pub field_equal : List (Bytes × Value) → Bytes × Value → Result Error Bool
unfolding field_of
field_equal others (key, v) = elim (field_of key others) [
  | none ↦ any_equal nil v
  | some w ↦ any_equal w v
]

unfoldable pub custom_fields_equal : List (Bytes × Value) → List (Bytes × Value) → Result Error Bool
unfolding field_equal
custom_fields_equal others [] = ok true
custom_fields_equal others (field ∷ fields) =
    let rest = custom_fields_equal others fields in
    field_equal others field >>= λ same. if same then rest else ok false

-- The fields that are compared one by one.
unfoldable pub shared_equal : Payload → Payload → Bool
shared_equal p q =
    bytes_equal q.remote_ip p.remote_ip
    && (q.host_id == p.host_id)
    && (q.msg_id == p.msg_id)
    && (q.timestamp == p.timestamp)
    && bytes_equal q.hostname p.hostname

unfoldable pub equal_to : Payload → Payload → Result Error Bool
unfolding custom_fields_equal shared_equal
equal_to p q =
    if length p.custom_fields == length q.custom_fields
    then (custom_fields_equal q.custom_fields p.custom_fields >>= λ same.
        ok (same && shared_equal p q))
    else ok false

unfoldable pub all_equal_to : Payload → List Payload → Result Error Bool
all_equal_to ref [] = ok true
all_equal_to ref (p ∷ ps) =
    let rest = all_equal_to ref ps in equal_to ref p >>= λ same. if same then rest else ok false

unfoldable pub all_fields_equal : List Payload → Result Error Bool
unfolding all_equal_to
all_fields_equal [] = err panics
all_fields_equal (ref ∷ ps) = all_equal_to ref ps

-- sort.Slice by the sequence number. It promises no order of equal numbers; the model keeps theirs.
-- The source sorts the caller's slice in place.
unfoldable pub insert_by_seq : Payload → List Payload → List Payload
insert_by_seq p [] = p ∷ []
insert_by_seq p (q ∷ qs) =
    let rest = insert_by_seq p qs in
    if leb p.message_seq q.message_seq then p ∷ q ∷ qs else q ∷ rest

unfoldable pub sort_by_seq : List Payload → List Payload
unfolding insert_by_seq
sort_by_seq [] = []
sort_by_seq (p ∷ ps) = insert_by_seq p (sort_by_seq ps)

-- A number of placeholders.
unfoldable pub placeholders : ℕ → Bytes
placeholders zero = []
placeholders (suc n) = missing_fragment_placeholder ++ placeholders n

-- The loop of the reassembly after a fragment number `prev`, with the placeholders at its end.
unfoldable pub join_loop : ℕ → ℕ → List Payload → Bytes
join_loop final prev [] = placeholders (final - prev)
join_loop final prev (p ∷ ps) =
    placeholders (p.message_seq - suc prev) ++ (p.body ++ join_loop final p.message_seq ps)

-- What Defragment returns: the shared fields of a fragment, the whole message, and else zeros.
unfoldable pub rebuilt : Payload → Bytes → Payload
rebuilt p whole = record {
  remote_ip = p.remote_ip;
  host_id = p.host_id;
  msg_id = p.msg_id;
  message_seq = 0;
  message_seq_max = 0;
  timestamp = p.timestamp;
  hostname = p.hostname;
  signature_id = 0;
  signature = [];
  custom_fields = p.custom_fields;
  body = whole;
  padding_len = 0;
}

unfoldable pub join_sorted : List Payload → Result Error Payload
unfolding rebuilt join_loop
join_sorted [] = err panics
join_sorted (p ∷ ps) = ok (
    rebuilt p
      (placeholders p.message_seq ++ (p.body ++ join_loop p.message_seq_max p.message_seq ps)))

unfoldable pub defragment : List Payload → Result Error Payload
unfolding join_sorted
defragment payloads = do
  guard (not (length payloads == 0)) fragmentation
  same ← all_fields_equal payloads
  guard same fragmentation
  join_sorted (sort_by_seq payloads)
