-- ===== src/Fipr/Frames.antt =====
-- pkg/fipr/encoding.go, validation.go and helpers.go: one frame is encoded, decoded and validated.
pub mod Codec
pub mod Authentic
pub mod Validation
use sdsyslog.Common.{
  ◌^◌, ◌||◌, ℕ, ◌+◌, ◌-◌, ◌%◌, Bool, true, false, Option, none, some, ◌∷◌, ◌++◌, ◌==◌, ltb,
  if◌then◌else◌, length, take, drop, Result, ok, err,
}
use sdsyslog.Common.Words.{Bytes, be_bytes, be_value, bytes_equal}
use sdsyslog.Fipr.{
  SessionState, Session, Framebody, M, Sentinel, Failure, bare, wrapped, state_init, close,
  is_closed, put_frame, hmac_size, max_sequence, min_data_length, max_data_length, min_frame_len,
  len_field_sequence, len_field_op_code, op_start, op_obo, op_ack, op_resend, op_accepted,
  op_rejected, op_shard_check, op_shard_status, op_msg_check, op_msg_status, op_frg_route,
  frame_has_payload, frame_has_no_payload, payload_wrong_length, session_closed, bad_sequence,
  frame_too_short, frame_too_large, invalid_frame_len, invalid_hmac, panics, late_start,
  out_of_order_start, remote_rejected, invalid_opcode,
}

-- helpers.go
unfoldable pub requires_ack : ℕ → Bool
requires_ack op =
    if op == op_ack
    then false
    else if op == op_resend
    then false
    else if op == op_accepted
    then false
    else if op == op_rejected
    then false
    else true

unfoldable pub is_retryable_error : Sentinel → Bool
is_retryable_error frame_has_no_payload = true
is_retryable_error frame_has_payload = true
is_retryable_error payload_wrong_length = true
is_retryable_error _ = false

-- sync.Once: only the first call sets the field.
unfoldable pub set_once : Bytes → Option Bytes → Option Bytes
set_once v none = some v
set_once v (some old) = some old

-- validation.go: the tests of its `switch`.
abbrev pub is_init : SessionState → Bool
is_init state_init = true
is_init _ = false

abbrev pub is_check : ℕ → Bool
is_check op = (op == op_shard_check) || (op == op_msg_check)

abbrev pub is_status : ℕ → Bool
is_status op = (op == op_shard_status) || (op == op_msg_status)

abbrev pub is_reply : ℕ → Bool
is_reply op = (op == op_resend) || (op == op_ack)

abbrev pub needs_payload : Bytes → Option Sentinel → Option Sentinel
needs_payload payload e = if length payload == 0 then some frame_has_no_payload else e

abbrev pub status_error : ℕ → Option Sentinel
status_error n =
    if ltb 1 n
    then some payload_wrong_length
    else if n == 0
    then some frame_has_no_payload
    else none

-- The session, closed by some of the errors, and the error. The later test of the payload
-- overwrites the error of the earlier ones.
unfoldable pub validate_start : Framebody → Session → Session × Option Sentinel
validate_start f s =
    if is_init s.state
    then if f.sequence == 0
      then (s, needs_payload f.payload none)
      else (close s, needs_payload f.payload (some out_of_order_start))
    else (close s, needs_payload f.payload (some late_start))

unfoldable pub validate_frame : Framebody → Session → Session × Option Sentinel
unfolding validate_start
validate_frame f s =
    if is_closed s
    then (s, some session_closed)
    else if f.op == op_start
    then validate_start f s
    else if f.op == op_obo
    then (s, needs_payload f.payload none)
    else if is_check f.op
    then (s, if ltb 0 (length f.payload) then some frame_has_payload else none)
    else if is_status f.op
    then (s, status_error (length f.payload))
    else if f.op == op_frg_route
    then (s, needs_payload f.payload none)
    else if is_reply f.op
    then (s, if length f.payload == 2 then none else some payload_wrong_length)
    else if f.op == op_accepted
    then (close s, none)
    else if f.op == op_rejected
    then (s, some remote_rejected)
    else (close s, some invalid_opcode)

-- The sequence number moves on a valid frame, and on one that may be sent again.
unfoldable pub settle : Framebody → Session × Option Sentinel → Session × Result Failure Framebody
settle f (s, none) = (record s { seq = (s.seq + 1) % 2 ^ 16 }, ok f)
settle f (s, some e) =
    if is_retryable_error e
    then (record s { seq = (s.seq + 1) % 2 ^ 16 }, err (wrapped e))
    else (s, err (wrapped e))

-- The sequence, the opcode and the payload of a frame whose payload ends at `payload_end`.
abbrev pub body_at : ℕ → ℕ → Bytes → Framebody
body_at seq payload_end wire = record {
  sequence = seq;
  op = be_value (take 1 (drop 6 wire));
  payload = take (payload_end - 7) (drop 7 wire);
}

-- The fields of a frame up to its HMAC.
unfoldable pub signed_part : ℕ → ℕ → Bytes → Bytes
signed_part seq op payload =
    be_bytes 4 ((len_field_sequence + len_field_op_code + length payload + hmac_size) % 2 ^ 32)
    ++ (be_bytes 2 seq ++ (op ∷ payload))

-- `hash` is HMAC-SHA256 of crypto/hmac: a key and the data.
module _ (hash : Bytes → Bytes → Bytes) where
  -- internal/crypto/hmac
  unfoldable pub compute_sha256 : Bytes → ℕ → Bytes → Bytes
  compute_sha256 key desired_size body = take desired_size (hash key body)

  unfoldable pub verify_sha256 : Bytes → ℕ → Bytes → Bytes → Bool
  verify_sha256 key required_size body mac = bytes_equal (take required_size (hash key body)) mac

  unfoldable pub frame_bytes : Bytes → ℕ → ℕ → Bytes → Bytes
  unfolding compute_sha256
  frame_bytes secret seq op payload =
      signed_part seq op payload ++ compute_sha256 secret hmac_size (signed_part seq op payload)

  unfoldable pub encode_frame : ℕ → Bytes → M Bytes
  encode_frame op payload s =
      if is_closed s
      then (s, err (bare session_closed))
      else if s.seq == max_sequence
      then (close s, err (bare bad_sequence))
      else (
        record s {
          seq = (s.seq + 1) % 2 ^ 16;
          sent_frames =
              put_frame s.sent_frames s.seq
                (some (record { sequence = s.seq; op = op; payload = payload }));
        },
        ok (frame_bytes s.hmac_secret s.seq op payload),
      )

  -- `wire[7:end]` panics where `end` stands past the slice.
  unfoldable pub decode_body : ℕ → ℕ → Bytes → M Framebody
  unfolding verify_sha256
  decode_body seq payload_end wire s =
      let frame = body_at seq payload_end wire in
      if ltb (length wire) payload_end
      then (s, err (bare panics))
      else if verify_sha256 s.hmac_secret hmac_size (take payload_end wire) (drop payload_end wire)
      then settle frame (validate_frame frame s)
      else (close s, err (bare invalid_hmac))

  unfoldable pub decode_frame : Bytes → M Framebody
  decode_frame wire s =
      let body_len = be_value (take 4 wire) in
      let seq = be_value (take 2 (drop 4 wire)) in
      if ltb (length wire) min_data_length
      then (s, err (bare frame_too_short))
      else if ltb max_data_length (length wire)
      then (s, err (bare frame_too_large))
      else if ltb body_len min_frame_len
      then (s, err (bare invalid_frame_len))
      else if seq == s.seq
      then decode_body seq (7 + (body_len - 19)) wire s
      else (s, err (wrapped bad_sequence))
