-- ===== src/Protocol/Values/Tests.antt =====
-- pkg/protocol/context.go: values of several types, there and back.
use sdsyslog.Common.{ℕ, ◌≡◌, refl, [], ◌∷◌, ok, err}
use sdsyslog.Common.Words.{be_value, Bytes}
use sdsyslog.Protocol.{panics}
use sdsyslog.Protocol.Values.{
  float32_special, clean_bytes, utf8_valid, text, bytes, float32, serialize_any_value,
  deserialize_any_value, any_equal,
}
use sdsyslog.Protocol.Values.RoundTrip.{carried, deserialize-serialize}

text_written : serialize_any_value (text (104 ∷ 0 ∷ 105 ∷ [])) ≡ ok (8, 104 ∷ 105 ∷ [])
unfolding serialize_any_value clean_bytes
text_written = refl

-- A negative zero is read as zero, and an infinity is refused.
zero_read : deserialize_any_value 5 (0x80 ∷ 0 ∷ 0 ∷ 0 ∷ []) ≡ ok (float32 0)
unfolding deserialize_any_value float32_special be_value
zero_read = refl

slices_panic : any_equal (bytes (1 ∷ [])) (bytes (1 ∷ [])) ≡ err panics
unfolding any_equal
slices_panic = refl

deserialize-serialize_example :
    (t : ℕ) × (d : Bytes) × (serialize_any_value (text (104 ∷ 0 ∷ 0xc3 ∷ 0xa9 ∷ [])) ≡ ok (t, d))
    × (deserialize_any_value t d ≡ ok (carried (text (104 ∷ 0 ∷ 0xc3 ∷ 0xa9 ∷ []))))
deserialize-serialize_example =
    deserialize-serialize (text (104 ∷ 0 ∷ 0xc3 ∷ 0xa9 ∷ []))
      (unfold utf8_valid clean_bytes in refl)
