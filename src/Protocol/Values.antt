-- ===== src/Protocol/Values.antt =====
-- pkg/protocol/context.go: typed context values and their bytes. An integer is its two's
-- complement pattern and a float its IEEE 754 pattern, both as natural numbers.
pub mod RoundTrip
mod Tests
use sdsyslog.Common.{
  ℕ, ◌+◌, ◌%◌, ◌/◌, ◌≡◌, Bool, true, false, Option, none, some, not, ◌&&◌, ◌||◌, List, [], ◌∷◌,
  ◌++◌, ◌==◌, ltb, leb, if◌then◌else◌, length, take, drop, Result, ok, err, guard, ◌>>=◌, ◌>>◌, ◌^◌,
}
use sdsyslog.Common.Words.{Bytes, be_bytes, be_value, bytes_equal}
use sdsyslog.Protocol.{Error, plain, panics, serialization}

-- The values that an `any` holds. `other` is a value of any other type, and `nil` is none.
pub data Value : Type 0 where
  bytes text : Bytes → Value
  int8 int16 int32 int64 int float32 float64 : ℕ → Value
  boolean : Bool → Value
  other nil : Value

abbrev pub context_int8 : ℕ
context_int8 = 0x01

abbrev pub context_int16 : ℕ
context_int16 = 0x02

abbrev pub context_int32 : ℕ
context_int32 = 0x03

abbrev pub context_int64 : ℕ
context_int64 = 0x04

abbrev pub context_float32 : ℕ
context_float32 = 0x05

abbrev pub context_float64 : ℕ
context_float64 = 0x06

abbrev pub context_bool : ℕ
context_bool = 0x07

abbrev pub context_string : ℕ
context_string = 0x08

abbrev pub context_slice_bytes : ℕ
context_slice_bytes = 0x09

-- text.go: NUL bytes are dropped.
unfoldable pub clean_bytes : Bytes → Bytes
clean_bytes [] = []
clean_bytes (b ∷ bs) = if b == 0 then clean_bytes bs else b ∷ clean_bytes bs

-- A nil value has no type, so that reflection panics.
unfoldable pub serialize_any_value : Value → Result Error (ℕ × Bytes)
serialize_any_value (bytes b) = ok (context_slice_bytes, be_bytes 4 (length b % 2 ^ 32) ++ b)
serialize_any_value (text s) = ok (context_string, clean_bytes s)
serialize_any_value (int8 v) = ok (context_int8, v ∷ [])
serialize_any_value (int16 v) = ok (context_int16, be_bytes 2 v)
serialize_any_value (int32 v) = ok (context_int32, be_bytes 4 v)
serialize_any_value (int64 v) = ok (context_int64, be_bytes 8 v)
serialize_any_value (int v) = ok (context_int64, be_bytes 8 v)
serialize_any_value (float32 v) = ok (context_float32, be_bytes 4 v)
serialize_any_value (float64 v) = ok (context_float64, be_bytes 8 v)
serialize_any_value (boolean b) = ok (context_bool, (if b then 1 else 0) ∷ [])
serialize_any_value other = err plain
serialize_any_value nil = err panics

-- utf8.Valid, by the table of RFC 3629: the ranges of the bytes that follow a first byte.
unfoldable pub follow : ℕ → Option (List (ℕ × ℕ))
follow b =
    if ltb b 0x80
    then some []
    else if ltb b 0xc2
    then none
    else if ltb b 0xe0
    then some ((0x80, 0xbf) ∷ [])
    else if b == 0xe0
    then some ((0xa0, 0xbf) ∷ (0x80, 0xbf) ∷ [])
    else if b == 0xed
    then some ((0x80, 0x9f) ∷ (0x80, 0xbf) ∷ [])
    else if ltb b 0xf0
    then some ((0x80, 0xbf) ∷ (0x80, 0xbf) ∷ [])
    else if b == 0xf0
    then some ((0x90, 0xbf) ∷ (0x80, 0xbf) ∷ (0x80, 0xbf) ∷ [])
    else if ltb b 0xf4
    then some ((0x80, 0xbf) ∷ (0x80, 0xbf) ∷ (0x80, 0xbf) ∷ [])
    else if b == 0xf4
    then some ((0x80, 0x8f) ∷ (0x80, 0xbf) ∷ (0x80, 0xbf) ∷ [])
    else none

unfoldable pub utf8_run : List (ℕ × ℕ) → Bytes → Bool
unfolding follow
utf8_run [] [] = true
utf8_run (r ∷ rs) [] = false
utf8_run ((lo, hi) ∷ rs) (b ∷ bs) = leb lo b && leb b hi && utf8_run rs bs
utf8_run [] (b ∷ bs) = elim (follow b) [ none ↦ false | some rs ↦ utf8_run rs bs ]

unfoldable pub utf8_valid : Bytes → Bool
unfolding utf8_run
utf8_valid = utf8_run []

-- math.IsNaN or math.IsInf: the exponent is all ones.
unfoldable pub float32_special : ℕ → Bool
float32_special bits = bits / 2 ^ 23 % 256 == 255

unfoldable pub float64_special : ℕ → Bool
float64_special bits = bits / 2 ^ 52 % 2048 == 2047

-- `if rawVal == 0 { rawVal = 0 }`: the pattern of -0 becomes that of 0.
unfoldable pub normalize : ℕ → ℕ → ℕ
normalize minus_zero bits = if bits == minus_zero then 0 else bits

unfoldable pub read_number : (ℕ → Value) → ℕ → Bytes → Result Error Value
read_number value size d = if length d == size then ok (value (be_value d)) else err plain

unfoldable pub read_float : (ℕ → Bool) → (ℕ → Value) → ℕ → ℕ → Bytes → Result Error Value
unfolding normalize
read_float special value size minus_zero d =
    if length d == size
    then if special (be_value d) then err plain else ok (value (normalize minus_zero (be_value d)))
    else err plain

unfoldable pub read_bool : Bytes → Result Error Value
read_bool d =
    if length d == 1
    then if be_value d == 0
      then ok (boolean false)
      else if be_value d == 1
      then ok (boolean true)
      else err plain
    else err plain

unfoldable pub read_bytes : Bytes → Result Error Value
read_bytes d =
    if ltb (length d) 4
    then err plain
    else if be_value (take 4 d) == length (drop 4 d)
    then ok (bytes (drop 4 d))
    else err plain

unfoldable pub read_text : Bytes → Result Error Value
read_text d =
    if length d == 0 then ok (text []) else if utf8_valid d then ok (text d) else err plain

unfoldable pub deserialize_any_value : ℕ → Bytes → Result Error Value
unfolding read_number read_float read_bool read_bytes read_text
deserialize_any_value t d =
    if t == context_slice_bytes
    then read_bytes d
    else if t == context_int8
    then read_number int8 1 d
    else if t == context_int16
    then read_number int16 2 d
    else if t == context_int32
    then read_number int32 4 d
    else if t == context_int64
    then read_number int64 8 d
    else if t == context_float32
    then read_float float32_special float32 4 (2 ^ 31) d
    else if t == context_float64
    then read_float float64_special float64 8 (2 ^ 63) d
    else if t == context_bool
    then read_bool d
    else if t == context_string
    then read_text d
    else err plain

-- The comparison `==` of two floats, by their patterns: no special exponent with a fraction (a NaN)
-- equals anything, and the two zeros are equal.
unfoldable pub float_equal : (ℕ → Bool) → ℕ → ℕ → ℕ → Bool
float_equal nan minus_zero a b =
    not (nan a)
    && not (nan b)
    && ((a == b) || ((a == 0) && (b == minus_zero)) || ((a == minus_zero) && (b == 0)))

unfoldable pub float32_nan : ℕ → Bool
unfolding float32_special
float32_nan bits = float32_special bits && not (bits % 2 ^ 23 == 0)

unfoldable pub float64_nan : ℕ → Bool
unfolding float64_special
float64_nan bits = float64_special bits && not (bits % 2 ^ 52 == 0)

-- `a == b` on two values of type `any`. Values of different types differ; two byte slices cannot
-- be compared, and the runtime panics. Two values of an unknown type are taken to differ.
unfoldable pub any_equal : Value → Value → Result Error Bool
unfolding float_equal float32_nan float64_nan
any_equal (bytes a) (bytes b) = err panics
any_equal (text a) (text b) = ok (bytes_equal a b)
any_equal (int8 a) (int8 b) = ok (a == b)
any_equal (int16 a) (int16 b) = ok (a == b)
any_equal (int32 a) (int32 b) = ok (a == b)
any_equal (int64 a) (int64 b) = ok (a == b)
any_equal (int a) (int b) = ok (a == b)
any_equal (float32 a) (float32 b) = ok (float_equal float32_nan (2 ^ 31) a b)
any_equal (float64 a) (float64 b) = ok (float_equal float64_nan (2 ^ 63) a b)
any_equal (boolean a) (boolean b) = ok (if a then b else not b)
any_equal nil nil = ok true
any_equal _ _ = ok false
