-- ===== src/Protocol/Values/RoundTrip.antt =====
-- pkg/protocol/context.go: a value that is serialised is deserialised to itself.
use sdsyslog.Common.{
  ℕ, ◌%◌, ◌^◌, ◌<◌, ◌≡◌, refl, true, false, [], ◌∷◌, ◌++◌, arith, length-append, ltb-false, eq-true,
  eq_zero-false, length, take-append_eq, drop-append_eq, ok, ap,
}
use sdsyslog.Common.Words.{Bytes, be_bytes, be_value, be_onto, length-be_bytes, be_value-be_bytes}
use sdsyslog.Protocol.Values.{
  Value, bytes, text, int8, int16, int32, int64, int, float32, float64, boolean, other, nil,
  clean_bytes, serialize_any_value, utf8_valid, float32_special, float64_special, normalize,
  read_bytes, read_text, deserialize_any_value,
}

-- What a value becomes on the way: an `int` is sent as an `int64`, -0 as 0, and a text loses its
-- NUL bytes.
unfoldable pub carried : Value → Value
unfolding normalize
carried (int v) = int64 v
carried (text s) = text (clean_bytes s)
carried (float32 v) = float32 (normalize (2 ^ 31) v)
carried (float64 v) = float64 (normalize (2 ^ 63) v)
carried v = v

-- Numbers fit their width, a float is finite, and a text is valid UTF-8 once cleaned.
abbrev pub IsStorable : Value → Type 0
IsStorable (bytes b) = length b < 2 ^ 32
IsStorable (text s) = utf8_valid (clean_bytes s) ≡ true
IsStorable (int8 v) = v < 256
IsStorable (int16 v) = v < 256 ^ 2
IsStorable (int32 v) = v < 256 ^ 4
IsStorable (int64 v) = v < 256 ^ 8
IsStorable (int v) = v < 256 ^ 8
IsStorable (float32 v) = (v < 256 ^ 4) × (float32_special v ≡ false)
IsStorable (float64 v) = (v < 256 ^ 8) × (float64_special v ≡ false)
IsStorable (boolean b) = Unit
IsStorable other = ⊥
IsStorable nil = ⊥

abbrev Carries : Value → Type 0
Carries v =
    (t : ℕ) × (d : Bytes) × (serialize_any_value v ≡ ok (t, d))
    × (deserialize_any_value t d ≡ ok (carried v))

read_text_valid : (d : Bytes) → utf8_valid d ≡ true → read_text d ≡ ok (text d)
unfolding read_text
read_text_valid [] h = refl
read_text_valid (b ∷ d) h = rw (eq_zero-false (length (b ∷ d)) (omega arith), h)

read_bytes_written :
    (b : Bytes)
    → length b < 2 ^ 32
    → read_bytes (be_bytes 4 (length b % 2 ^ 32) ++ b) ≡ ok (bytes b)
unfolding read_bytes
read_bytes_written b h =
    let front = length-be_bytes 4 (length b % 2 ^ 32) in
    let whole : length b % 2 ^ 32 ≡ length b = omega arith in
    rw
      (
        ltb-false (length (be_bytes 4 (length b % 2 ^ 32) ++ b)) 4
            (omega (arith, front, length-append (be_bytes 4 (length b % 2 ^ 32)) b)),
        take-append_eq 4 (be_bytes 4 (length b % 2 ^ 32)) b front,
        drop-append_eq 4 (be_bytes 4 (length b % 2 ^ 32)) b front,
      )
      (rw (be_value-be_bytes 4 (length b % 2 ^ 32) (omega arith), whole, eq-true (length b)))

-- A storable value is serialised, and what is read back from its type and bytes is the value that
-- is carried.
pub deserialize-serialize :
    (v : Value)
    → IsStorable v
    → (t : ℕ) × (d : Bytes) × (serialize_any_value v ≡ ok (t, d))
      × (deserialize_any_value t d ≡ ok (carried v))
unfolding serialize_any_value carried deserialize_any_value
deserialize-serialize (bytes b) h =
    (9, be_bytes 4 (length b % 2 ^ 32) ++ b, refl, read_bytes_written b h)
deserialize-serialize (text s) h = (8, clean_bytes s, refl, read_text_valid (clean_bytes s) h)
deserialize-serialize (int8 v) h =
    (1, v ∷ [], refl, unfold be_value be_onto in ap (λ n. ok (int8 n)) (omega arith))
deserialize-serialize (int16 v) h =
    (2, be_bytes 2 v, refl, rw (length-be_bytes 2 v, be_value-be_bytes 2 v h))
deserialize-serialize (int32 v) h =
    (3, be_bytes 4 v, refl, rw (length-be_bytes 4 v, be_value-be_bytes 4 v h))
deserialize-serialize (int64 v) h =
    (4, be_bytes 8 v, refl, rw (length-be_bytes 8 v, be_value-be_bytes 8 v h))
deserialize-serialize (int v) h =
    (4, be_bytes 8 v, refl, rw (length-be_bytes 8 v, be_value-be_bytes 8 v h))
deserialize-serialize (float32 v) (h, f) =
    (5, be_bytes 4 v, refl, rw (length-be_bytes 4 v, be_value-be_bytes 4 v h) (rw f))
deserialize-serialize (float64 v) (h, f) =
    (6, be_bytes 8 v, refl, rw (length-be_bytes 8 v, be_value-be_bytes 8 v h) (rw f))
deserialize-serialize (boolean true) h = (7, 1 ∷ [], refl, unfold be_value be_onto in refl)
deserialize-serialize (boolean false) h = (7, 0 ∷ [], refl, unfold be_value be_onto in refl)
deserialize-serialize other h = absurd h
deserialize-serialize nil h = absurd h
