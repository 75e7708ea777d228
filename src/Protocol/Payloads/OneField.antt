-- ===== src/Protocol/Payloads/OneField.antt =====
-- pkg/protocol/payload.go: one custom field on its way into the context section and out of it.
use sdsyslog.Common.{
  if◌then◌else◌, length-take, ℕ, zero, suc, ◌≤◌, ◌≡◌, refl, ap, true, false, not, ◌||◌, [], ◌∷◌,
  arith, length, leb-true, ltb-false, ◌==◌, take, ok,
}
use sdsyslog.Common.Words.{Bytes}
use sdsyslog.Protocol.{ContextWireFormat}
use sdsyslog.Protocol.Values.{
  Value, nil, text, context_string, utf8_valid, serialize_any_value, deserialize_any_value,
}
use sdsyslog.Protocol.Values.RoundTrip.{carried, IsStorable, deserialize-serialize}
use sdsyslog.Protocol.Payloads.{
  empty_field_char, is_printable_ascii, printable_only, clean_string_to_bytes, checked_value,
  clean_value, clean_field, check_field,
}

printable_only_all : (bs : Bytes) → is_printable_ascii bs ≡ true → printable_only bs ≡ bs
unfolding is_printable_ascii printable_only
printable_only_all [] h = refl
printable_only_all (b ∷ bs) h = ground (arith, printable_only_all bs)

take_all : (n : ℕ) (bs : Bytes) → length bs ≤ n → take n bs ≡ bs
take_all zero [] h = refl
take_all (suc n) [] h = refl
take_all zero (b ∷ bs) h = elim h [ ]
take_all (suc n) (b ∷ bs) h = ap (◌∷◌ b) (take_all n bs (omega arith))

-- Clean bytes are kept.
pub clean_string_to_bytes_kept :
    (name : Bytes) (n : ℕ)
    → 1 ≤ length name
    → length name ≤ n
    → is_printable_ascii name ≡ true
    → clean_string_to_bytes name n ≡ name
unfolding clean_string_to_bytes
clean_string_to_bytes_kept [] n some_byte short ascii = absurd (omega arith)
clean_string_to_bytes_kept (b ∷ bs) n some_byte short ascii =
    let not_empty : (length (b ∷ bs) == 0) ≡ false = ground arith in
    rw (not_empty, printable_only_all (b ∷ bs) ascii, take_all n (b ∷ bs) short)

printable_only-printable : (bs : Bytes) → is_printable_ascii (printable_only bs) ≡ true
unfolding printable_only is_printable_ascii
printable_only-printable [] = refl
printable_only-printable (b ∷ bs) = ground (arith, printable_only-printable bs)

take_printable :
    (n : ℕ) (bs : Bytes) → is_printable_ascii bs ≡ true → is_printable_ascii (take n bs) ≡ true
unfolding is_printable_ascii
take_printable zero bs h = refl
take_printable (suc n) [] h = refl
take_printable (suc n) (b ∷ bs) h = ground (arith, take_printable n bs)

-- What is cleaned is printable, and short.
pub clean_string_to_bytes-printable :
    (name : Bytes) (n : ℕ)
    → (is_printable_ascii (clean_string_to_bytes name n) ≡ true)
      × (length (clean_string_to_bytes name n) ≤ n)
unfolding clean_string_to_bytes
clean_string_to_bytes-printable name n =
    let filled = if length name == 0 then empty_field_char else name in
    (
      take_printable n (printable_only filled) (printable_only-printable filled),
      omega (arith, length-take n (printable_only filled)),
    )

-- A field that the receiver reads as the sender's: a clean key, and a value that can be stored in the
-- room for it.
pub record IsPassing (field : Bytes × Value) : Type 0 where
  pub key_some : 1 ≤ length field.0
  pub key_short : length field.0 ≤ 32
  pub key_printable : is_printable_ascii field.0 ≡ true
  pub storable : IsStorable field.1
  pub value_type : ℕ
  pub value_bytes : Bytes
  pub serialized : serialize_any_value field.1 ≡ ok (value_type, value_bytes)
  pub value_some : 1 ≤ length value_bytes
  pub value_short : length value_bytes ≤ 255

abbrev pub wire_field : (field : Bytes × Value) → IsPassing field → ContextWireFormat
wire_field field h = record { key = field.0; val_type = h.value_type; value = h.value_bytes }

-- A value of the type of texts is valid UTF-8.
text_valid :
    (v : Value) (t : ℕ) (d : Bytes)
    → IsStorable v
    → serialize_any_value v ≡ ok (t, d)
    → (not (t == context_string) || utf8_valid d) ≡ true
unfolding serialize_any_value
text_valid (text s) t d h e = ground arith
text_valid v t d h e = ground arith

deserialized :
    (v : Value) (t : ℕ) (d : Bytes)
    → IsStorable v
    → serialize_any_value v ≡ ok (t, d)
    → deserialize_any_value t d ≡ ok (carried v)
deserialized v t d h e =
    let (t', d', e', read) = deserialize-serialize v h in
    let same_type : t' ≡ t = cc in
    let same_bytes : d' ≡ d = cc in rw (← same_type, ← same_bytes) read

clean_value_storable :
    (v : Value) (t : ℕ) (d : Bytes)
    → IsStorable v
    → serialize_any_value v ≡ ok (t, d)
    → clean_value v ≡ checked_value (t, d)
unfolding clean_value
clean_value_storable nil t d h e = absurd h
clean_value_storable v t d h e = rw e

pub clean_field_passing :
    (field : Bytes × Value) (h : IsPassing field) → clean_field field ≡ ok (wire_field field h)
unfolding clean_field
clean_field_passing (key, value) h = rw (
  clean_string_to_bytes_kept key 32 h.key_some h.key_short h.key_printable,
  leb-true 1 (length key) h.key_some,
  leb-true (length key) 32 h.key_short,
  clean_value_storable value h.value_type h.value_bytes h.storable h.serialized,
  checked_value,
  ltb-false (length h.value_bytes) 1 h.value_some,
  leb-true (length h.value_bytes) 255 h.value_short,
  text_valid value h.value_type h.value_bytes h.storable h.serialized,
)

pub check_field_passing :
    (field : Bytes × Value) (h : IsPassing field)
    → check_field (wire_field field h) ≡ ok (field.0, carried field.1)
unfolding check_field
check_field_passing (key, value) h = rw (
  leb-true 1 (length key) h.key_some,
  leb-true (length key) 32 h.key_short,
  h.key_printable,
  leb-true 1 (length h.value_bytes) h.value_some,
  leb-true (length h.value_bytes) 255 h.value_short,
  text_valid value h.value_type h.value_bytes h.storable h.serialized,
  deserialized value h.value_type h.value_bytes h.storable h.serialized,
)
