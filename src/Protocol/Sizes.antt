-- ===== src/Protocol/Sizes.antt =====
-- pkg/protocol/size.go: what a payload takes in memory, about. `other_size` is what reflection finds
-- of a value of another type.
use sdsyslog.Common.{ℕ, ◌+◌, List, [], ◌∷◌, length}
use sdsyslog.Common.Words.{Bytes}
use sdsyslog.Protocol.Values.{
  Value, bytes, text, int8, int16, int32, int64, int, float32, float64, boolean, other, nil,
}
use sdsyslog.Protocol.Fragments.{Payload}

-- The elements of a byte slice take a byte each.
unfoldable pub elements_size : Bytes → ℕ
elements_size [] = 0
elements_size (b ∷ bs) = 1 + elements_size bs

unfoldable pub value_size_approx : ℕ → Value → ℕ
unfolding elements_size
value_size_approx other_size (bytes b) = 24 + elements_size b
value_size_approx other_size (text s) = 16 + length s
value_size_approx other_size (int8 v) = 1
value_size_approx other_size (int16 v) = 2
value_size_approx other_size (int32 v) = 4
value_size_approx other_size (int64 v) = 8
value_size_approx other_size (int v) = 8
value_size_approx other_size (float32 v) = 4
value_size_approx other_size (float64 v) = 8
value_size_approx other_size (boolean b) = 2
value_size_approx other_size other = other_size
value_size_approx other_size nil = 0

unfoldable pub fields_size : ℕ → List (Bytes × Value) → ℕ
unfolding value_size_approx
fields_size other_size [] = 0
fields_size other_size ((key, value) ∷ fields) =
    length key + 16 + value_size_approx other_size value + fields_size other_size fields

unfoldable pub size : ℕ → Payload → ℕ
unfolding fields_size
size other_size p =
    8
    + 8
    + 8
    + 8
    + 24
    + 8
    + 24
    + 16
    + length p.hostname
    + 24
    + length p.body
    + 8
    + fields_size other_size p.custom_fields
