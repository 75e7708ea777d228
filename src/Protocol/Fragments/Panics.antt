-- ===== src/Protocol/Fragments/Panics.antt =====
-- pkg/protocol/fragmentation.go: EqualTo compares custom fields with `!=`, which panics on slices.
use sdsyslog.Common.{some, ◌≡◌, refl, List, ◌∷◌, arith, length, err, eq-true, eq_zero-false}
use sdsyslog.Common.Words.{Bytes, bytes_equal_iff}
use sdsyslog.Protocol.{panics}
use sdsyslog.Protocol.Values.{Value, bytes, any_equal}
use sdsyslog.Protocol.Fragments.{
  Payload, field_of, field_equal, custom_fields_equal, equal_to, all_equal_to, all_fields_equal,
  defragment,
}

field_of_head :
    (key : Bytes) (v : Value) (rest : List (Bytes × Value))
    → field_of key ((key, v) ∷ rest) ≡ some v
unfolding field_of
field_of_head key v rest = rw ((bytes_equal_iff key key).1 refl)

slice_panics :
    (key b : Bytes) (rest : List (Bytes × Value))
    → field_equal ((key, bytes b) ∷ rest) (key, bytes b) ≡ err panics
unfolding field_equal any_equal
slice_panics key b rest = rw (field_of_head key (bytes b) rest, field_equal)

-- Two or more fragments whose first custom field is the same byte slice, as a message of two packets
-- that carries one has them, are not joined: the comparison panics.
pub defragment-panics :
    (key b : Bytes) (rest : List (Bytes × Value)) (f g : Payload) (fs : List Payload)
    → f.custom_fields ≡ (key, bytes b) ∷ rest
    → g.custom_fields ≡ (key, bytes b) ∷ rest
    → defragment (f ∷ g ∷ fs) ≡ err panics
unfolding defragment all_fields_equal all_equal_to equal_to custom_fields_equal
defragment-panics key b rest f g fs e1 e2 = rw (
  e1,
  e2,
  eq-true (length ((key, bytes b) ∷ rest)),
  slice_panics key b rest,
  eq_zero-false (length (f ∷ g ∷ fs)) (omega arith),
)
