-- ===== src/Protocol/Overhead.antt =====
-- pkg/protocol/payload.go: CalculateProtocolOverhead, the bytes that a packet has beside its piece
-- of the message and its padding.
pub mod Exact
mod Tests
use sdsyslog.Common.{ℕ, ◌+◌, List, [], ◌∷◌, length, Result, ok, err, ◌>>=◌}
use sdsyslog.Common.Words.{Bytes}
use sdsyslog.Protocol.{Error, serialization, panics}
use sdsyslog.Protocol.Values.{Value, serialize_any_value}
use sdsyslog.Protocol.Fragments.{Payload}
use sdsyslog.Protocol.Outer.{suite_of, suite_id_len}

-- The sums that consts.go writes out.
abbrev pub min_inner_payload_len_fixed_only : ℕ
min_inner_payload_len_fixed_only = 4 + 4 + 2 + 2 + 8 + 2 + 1 + 1 + 1 + 1 + 1 + 2

abbrev pub ctx_field_overhead : ℕ
ctx_field_overhead = 1 + 1 + 1 + 1 + 1

abbrev pub len_context_section_nxt_len : ℕ
len_context_section_nxt_len = 2

abbrev pub len_context_section_terminator : ℕ
len_context_section_terminator = 1

-- The length of the data, or the error of the serialiser, wrapped; a panic goes on.
unfoldable pub data_length : Result Error (ℕ × Bytes) → Result Error ℕ
data_length (ok (t, d)) = ok (length d)
data_length (err panics) = err panics
data_length (err e) = err serialization

-- The loop over the custom fields.
unfoldable pub custom_length : List (Bytes × Value) → Result Error ℕ
unfolding data_length
custom_length [] = ok 0
custom_length ((key, value) ∷ fields) = do
  len ← data_length (serialize_any_value value)
  rest ← custom_length fields
  ok (ctx_field_overhead + length key + len + rest)

unfoldable pub calculate_protocol_overhead : ℕ → Payload → Result Error ℕ
calculate_protocol_overhead suite_id p = do
  suite ← suite_of suite_id
  custom ← custom_length p.custom_fields
  let outer_total = suite_id_len + suite.key_size + suite.nonce_size + suite.cipher_overhead
  let variable =
      length p.hostname
      + length p.signature
      + custom
      + (len_context_section_nxt_len + len_context_section_terminator)
  ok (outer_total + min_inner_payload_len_fixed_only + variable)
