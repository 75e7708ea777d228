-- ===== src/Protocol/Payloads.antt =====
-- pkg/protocol/payload.go and text.go: a message is validated on its way into a packet and out of it.
-- An error is the first sentinel that it wraps.
pub mod Trust
pub mod Passing
pub mod OneField
pub mod Fields
pub mod Short
mod Tests
use sdsyslog.Common.{
  ℕ, zero, suc, ◌+◌, ◌-◌, ◌*◌, ◌/◌, ◌%◌, ◌^◌, Bool, true, false, not, ◌&&◌, ◌||◌, Option, none,
  some, List, [], ◌∷◌, ◌++◌, ◌==◌, ltb, leb, if◌then◌else◌, length, take, Result, ok, err, guard,
  ◌>>=◌, ◌>>◌,
}
use sdsyslog.Common.Words.{Bytes, bytes_equal}
use sdsyslog.Protocol.{
  Error, invalid_payload, serialization, crypto_failure, ContextWireFormat, InnerWireFormat,
  max_hostname_len, min_signature_len, max_ctx_section_len, min_padding_len, max_padding_len,
}
use sdsyslog.Protocol.Inner.{SigInfo, get_signature_info}
use sdsyslog.Protocol.Values.{
  Value, nil, context_string, utf8_valid, serialize_any_value, deserialize_any_value,
}
use sdsyslog.Protocol.Fragments.{Payload}
use sdsyslog.Protocol.Signatures.{serialize_signature}
use sdsyslog.Protocol.Overhead.{ctx_field_overhead}

-- "-".
abbrev pub empty_field_char : Bytes
empty_field_char = 45 ∷ []

-- "[UNKNOWN]".
abbrev pub host_prefix_unk_sig : Bytes
host_prefix_unk_sig = 91 ∷ 85 ∷ 78 ∷ 75 ∷ 78 ∷ 79 ∷ 87 ∷ 78 ∷ 93 ∷ []

-- "[UNVERIFIED]".
abbrev pub host_prefix_unverified : Bytes
host_prefix_unverified = 91 ∷ 85 ∷ 78 ∷ 86 ∷ 69 ∷ 82 ∷ 73 ∷ 70 ∷ 73 ∷ 69 ∷ 68 ∷ 93 ∷ []

abbrev pub max_signature_len : ℕ
max_signature_len = 255

abbrev pub min_ctx_key_len : ℕ
min_ctx_key_len = 1

abbrev pub max_ctx_key_len : ℕ
max_ctx_key_len = 32

abbrev pub min_ctx_val_len : ℕ
min_ctx_val_len = 1

abbrev pub max_ctx_val_len : ℕ
max_ctx_val_len = 255

-- The sum that consts.go writes out, field by field.
abbrev pub min_ctx_sec_len_with_data : ℕ
min_ctx_sec_len_with_data = 2 + 1 + 1 + 1 + 1 + 1 + 1 + 1 + 1

unfoldable pub is_printable : ℕ → Bool
is_printable b = leb 0x20 b && leb b 0x7e

unfoldable pub is_printable_ascii : Bytes → Bool
unfolding is_printable
is_printable_ascii [] = true
is_printable_ascii (b ∷ bs) = is_printable b && is_printable_ascii bs

-- The source goes through the characters; those that it keeps are single bytes, and no byte of a
-- longer character is one of them.
unfoldable pub printable_only : Bytes → Bytes
unfolding is_printable
printable_only [] = []
printable_only (b ∷ bs) = let rest = printable_only bs in if is_printable b then b ∷ rest else rest

unfoldable pub clean_string_to_bytes : Bytes → ℕ → Bytes
unfolding printable_only
clean_string_to_bytes input max_length =
    take max_length (printable_only (if length input == 0 then empty_field_char else input))

unfoldable pub starts_with : Bytes → Bytes → Bool
starts_with [] bs = true
starts_with (p ∷ ps) [] = false
starts_with (p ∷ ps) (b ∷ bs) = (p == b) && starts_with ps bs

-- strings.ReplaceAll with nothing in place of `old`, which is not empty; `skip` counts the bytes of
-- an occurrence that are left.
unfoldable pub remove_from : Bytes → ℕ → Bytes → Bytes
unfolding starts_with
remove_from old skip [] = []
remove_from old (suc skip) (b ∷ bs) = remove_from old skip bs
remove_from old zero (b ∷ bs) =
    let without = remove_from old (length old - 1) bs in
    let kept = b ∷ remove_from old zero bs in if starts_with old (b ∷ bs) then without else kept

-- Both trust markers, one after the other.
unfoldable pub strip_markers : Bytes → Bytes
unfolding remove_from
strip_markers name =
    remove_from host_prefix_unverified zero (remove_from host_prefix_unk_sig zero name)

-- A time is its nanoseconds since 2^63 milliseconds before 1970. UnixMilli, as a uint64, and
-- UnixMilli's inverse on an int64.
unfoldable pub unix_milli : ℕ → ℕ
unix_milli time = (time / 1000000 + 2 ^ 63) % 2 ^ 64

unfoldable pub time_of_milli : ℕ → ℕ
time_of_milli milli = ((milli + 2 ^ 63) % 2 ^ 64) * 1000000

unfoldable pub fitting_signature : ℕ → Option SigInfo → Bool
fitting_signature len none = false
fitting_signature len (some suite) =
    leb len suite.max_signature_length && leb suite.min_signature_length len

-- A signature that was made before is passed on.
unfoldable pub construct_signature : Payload → ℕ → Result Error Bytes
unfolding fitting_signature
construct_signature p sig_id =
    let checked =
      guard (not (length p.signature == 0)) invalid_payload
      >> (guard
            (fitting_signature (length p.signature) (get_signature_info sig_id)
              && (sig_id == p.signature_id))
            invalid_payload
          >> (guard
                (leb min_signature_len (length p.signature)
                  && leb (length p.signature) max_signature_len)
                invalid_payload
              >> ok p.signature)) in
    if sig_id == 0 then ok [] else checked

-- fmt.Errorf("%w: ...: %w", ErrSerialization, err).
unfoldable pub as_serialization : {A : Type 0} → Result Error A → Result Error A
as_serialization (ok a) = ok a
as_serialization (err e) = err serialization

unfoldable pub checked_value : ℕ × Bytes → Result Error (ℕ × Bytes)
checked_value (t, d) = do
  let filled = if ltb (length d) min_ctx_val_len then empty_field_char else d
  guard (leb (length filled) max_ctx_val_len) invalid_payload
  guard (not (t == context_string) || utf8_valid filled) invalid_payload
  ok (t, filled)

unfoldable pub clean_value : Value → Result Error (ℕ × Bytes)
unfolding as_serialization checked_value
clean_value nil = ok (context_string, empty_field_char)
clean_value value = as_serialization (serialize_any_value value) >>= checked_value

unfoldable pub clean_field : Bytes × Value → Result Error ContextWireFormat
unfolding clean_string_to_bytes clean_value
clean_field (key, value) = do
  let clean_key = clean_string_to_bytes key max_ctx_key_len
  guard (leb min_ctx_key_len (length clean_key)) invalid_payload
  guard (leb (length clean_key) max_ctx_key_len) invalid_payload
  (t, d) ← clean_value value
  ok (record { key = clean_key; val_type = t; value = d })

unfoldable pub clean_fields : List (Bytes × Value) → Result Error (List ContextWireFormat)
unfolding clean_field
clean_fields [] = ok []
clean_fields (field ∷ fields) = do c ← clean_field field; cs ← clean_fields fields; ok (c ∷ cs)

-- The order of sort.Strings.
unfoldable pub bytes_le : Bytes → Bytes → Bool
bytes_le [] ys = true
bytes_le (x ∷ xs) [] = false
bytes_le (x ∷ xs) (y ∷ ys) = ltb x y || ((x == y) && bytes_le xs ys)

unfoldable pub insert_field : Bytes × Value → List (Bytes × Value) → List (Bytes × Value)
unfolding bytes_le
insert_field field [] = field ∷ []
insert_field field (f ∷ fs) =
    let rest = insert_field field fs in if bytes_le field.0 f.0 then field ∷ f ∷ fs else f ∷ rest

unfoldable pub sort_fields : List (Bytes × Value) → List (Bytes × Value)
unfolding insert_field
sort_fields [] = []
sort_fields (field ∷ fields) = insert_field field (sort_fields fields)

unfoldable pub total_ctx_len : List ContextWireFormat → ℕ
total_ctx_len [] = 0
total_ctx_len (c ∷ cs) = ctx_field_overhead + length c.key + length c.value + total_ctx_len cs

unfoldable pub construct_context : List (Bytes × Value) → Result Error (List ContextWireFormat)
unfolding clean_fields sort_fields total_ctx_len
construct_context [] = ok []
construct_context (field ∷ fields) = do
  cs ← clean_fields (sort_fields (field ∷ fields))
  guard (leb min_ctx_sec_len_with_data (total_ctx_len cs)) invalid_payload
  guard (leb (total_ctx_len cs) max_ctx_section_len) invalid_payload
  ok cs

abbrev pub padding_fits : ℕ → Bool
padding_fits n = leb min_padding_len n && leb n max_padding_len

-- The markers are stripped from the hostname of the request too, which no caller reads again.
unfoldable pub construct_payload : Payload → ℕ → Result Error InnerWireFormat
construct_payload p sig_id = do
  guard (not (p.host_id == 0)) invalid_payload
  guard (not (p.msg_id == 0)) invalid_payload
  guard (leb p.message_seq p.message_seq_max) invalid_payload
  signature ← construct_signature p sig_id
  context_fields ← construct_context p.custom_fields
  guard (padding_fits p.padding_len) invalid_payload
  ok (record {
    host_id = p.host_id % 2 ^ 32;
    msg_id = p.msg_id % 2 ^ 32;
    message_seq = p.message_seq % 2 ^ 16;
    message_seq_max = p.message_seq_max % 2 ^ 16;
    timestamp = unix_milli p.timestamp;
    hostname = clean_string_to_bytes (strip_markers p.hostname) max_hostname_len;
    signature_id = sig_id;
    signature = signature;
    context_fields = context_fields;
    body = p.body;
    padding_len = p.padding_len;
  })

-- wrappers.LookupPinnedSender and VerifySignature: the keys that the receiver has pinned, and a
-- variable that the program sets. A verification may fail.
pub record Keys : Type 0 where
  pub lookup_pinned_sender : Bytes → Option Bytes
  pub verify_signature : Bytes → Bytes → Bytes → ℕ → Option Bool

-- The outcome of a verification.
unfoldable pub on_verified : Bytes → Option Bool → Result Error Bytes
on_verified name none = err crypto_failure
on_verified name (some valid) = if valid then ok name else err invalid_payload

unfoldable pub on_sender : Keys → InnerWireFormat → Bytes → Option Bytes → Result Error Bytes
unfolding on_verified
on_sender keys f name none =
    ok ((if f.signature_id == 0 then host_prefix_unverified else host_prefix_unk_sig) ++ name)
on_sender keys f name (some key) =
    if f.signature_id == 0
    then err invalid_payload
    else on_verified name (
        keys.verify_signature key (serialize_signature name f.host_id f.timestamp) f.signature
          f.signature_id)

-- The hostname with the marker of its trust.
unfoldable pub marked_hostname : Keys → InnerWireFormat → Result Error Bytes
unfolding on_sender strip_markers
marked_hostname keys f =
    let name = strip_markers f.hostname in on_sender keys f name (keys.lookup_pinned_sender name)

unfoldable pub check_field : ContextWireFormat → Result Error (Bytes × Value)
unfolding is_printable_ascii as_serialization
check_field c = do
  guard (leb min_ctx_key_len (length c.key)) invalid_payload
  guard (leb (length c.key) max_ctx_key_len) invalid_payload
  guard (is_printable_ascii c.key) invalid_payload
  guard (leb min_ctx_val_len (length c.value) && leb (length c.value) max_ctx_val_len)
      invalid_payload
  guard (not (c.val_type == context_string) || utf8_valid c.value) invalid_payload
  value ← as_serialization (deserialize_any_value c.val_type c.value)
  ok (c.key, value)

-- `m[key] = value`.
unfoldable pub put_field : Bytes × Value → List (Bytes × Value) → List (Bytes × Value)
put_field field [] = field ∷ []
put_field field (f ∷ fs) =
    let rest = put_field field fs in if bytes_equal f.0 field.0 then field ∷ fs else f ∷ rest

unfoldable pub check_fields :
    List (Bytes × Value) → List ContextWireFormat → Result Error (List (Bytes × Value))
unfolding check_field put_field
check_fields fields [] = ok fields
check_fields fields (c ∷ cs) = do field ← check_field c; check_fields (put_field field fields) cs

abbrev pub validated_payload : InnerWireFormat → Bytes → List (Bytes × Value) → Payload
validated_payload f hostname custom_fields = record {
  remote_ip = [];
  host_id = f.host_id;
  msg_id = f.msg_id;
  message_seq = f.message_seq;
  message_seq_max = f.message_seq_max;
  timestamp = time_of_milli f.timestamp;
  hostname = hostname;
  signature_id = f.signature_id;
  signature = f.signature;
  custom_fields = custom_fields;
  body = f.body;
  padding_len = f.padding_len;
}

unfoldable pub deconstruct_payload : Keys → InnerWireFormat → Result Error Payload
deconstruct_payload keys f = do
  guard (not (f.host_id == 0)) invalid_payload
  guard (not (f.msg_id == 0)) invalid_payload
  guard (leb f.message_seq f.message_seq_max) invalid_payload
  guard (not (length f.hostname == 0)) invalid_payload
  guard (leb (length f.hostname) max_hostname_len) invalid_payload
  guard (is_printable_ascii f.hostname) invalid_payload
  hostname ← marked_hostname keys f
  custom_fields ← check_fields [] f.context_fields
  guard (not (length f.body == 0)) invalid_payload
  guard (padding_fits f.padding_len) invalid_payload
  ok (validated_payload f hostname custom_fields)
