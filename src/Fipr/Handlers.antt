-- ===== src/Fipr/Handlers.antt =====
-- pkg/fipr/handlers.go: sending with acknowledgement, waiting for a frame, and sending again. The
-- Go functions call one another in a circle; the frames that are sent while waiting need no
-- acknowledgement, so `transmit`, which waits for none, stands for `send` there.
pub mod Replies
pub mod Acks
pub mod Exchange
pub mod Closed
use sdsyslog.Common.{
  Option, ℕ, zero, suc, ◌+◌, Bool, true, false, none, some, List, [], ◌∷◌, ◌==◌, ltb, if◌then◌else◌,
  length, take, drop, Result, ok, err,
}
use sdsyslog.Common.Words.{Bytes, be_bytes, be_value}
use sdsyslog.Fipr.{
  Session, Framebody, M, Failure, bare, wrapped, sentinel, wrap, pure, fail, ◌>>=◌, ◌>>◌, gets,
  modify, wrapping, attempt, put_frame, close, max_consecutive_resends, len_field_frame_len,
  len_field_sequence, op_ack, op_resend, too_many_resends, resend_without_seq, invalid_opcode,
  received_no_ack, bad_sequence, invalid_resend,
}
use sdsyslog.Fipr.Frames.{requires_ack, is_retryable_error, encode_frame, decode_frame}
use sdsyslog.Fipr.Framing.{read_frame, write_frame}

abbrev pub mem : ℕ → List ℕ → Bool
mem x [] = false
mem x (y ∷ ys) = if x == y then true else mem x ys

abbrev pub count_resend : Session → Session
count_resend s = record s { consec_resends = s.consec_resends + 1 }

abbrev pub no_resends : Session → Session
no_resends s = record s { consec_resends = 0 }

abbrev pub forget : ℕ → Session → Session
forget seq s = record s { sent_frames = put_frame s.sent_frames seq none }

module _ (hash : Bytes → Bytes → Bytes) where
  -- `send`, with what waits for the acknowledgement of the sequence number sent. An error of the
  -- write is lost where an acknowledgement is awaited.
  unfoldable pub send_with : (ℕ → M (Unit {0})) → ℕ → Bytes → M ℕ
  send_with await_ack op payload = do
    req_seq ← gets (λ s. s.seq)
    request ← wrapping (encode_frame hash op payload)
    (if requires_ack op
        then (attempt (write_frame request) >>= λ _. wrapping (await_ack req_seq))
        else write_frame request)
    pure req_seq

  unfoldable pub transmit : ℕ → Bytes → M ℕ
  unfolding send_with
  transmit = send_with (λ _. pure tt)

  unfoldable pub send_ack : ℕ → M (Unit {0})
  send_ack seq_to_ack = do _ ← transmit op_ack (be_bytes 2 seq_to_ack); pure tt

  -- One round of `await` that asks for the frame again.
  unfoldable pub request_resend : ℕ → Bytes → M ℕ
  request_resend prev_seq wire =
      if ltb (length wire) (len_field_frame_len + len_field_sequence)
      then fail (wrapped resend_without_seq)
      else do
        sent_seq ← wrapping (transmit op_resend (take 2 (drop 4 wire)))
        modify count_resend
        modify (λ s. if ltb 0 prev_seq then forget prev_seq s else s)
        pure sent_seq

  -- A frame that was decoded ends `await`, whether it was expected or not.
  unfoldable pub settle_response : List ℕ → Framebody → M Framebody
  settle_response expected_ops f = do
    modify no_resends
    (if mem f.op expected_ops
        then (if requires_ack f.op then wrapping (send_ack f.sequence) else pure tt)
        else (modify close >> fail (bare invalid_opcode)))
    pure f

  -- `again` is the next round.
  unfoldable pub on_decoded :
      (ℕ → M Framebody) → ℕ → List ℕ → Bytes → Result Failure Framebody → M Framebody
  unfolding request_resend settle_response
  on_decoded again prev_seq expected_ops wire (ok f) = settle_response expected_ops f
  on_decoded again prev_seq expected_ops wire (err e) =
      if is_retryable_error (sentinel e)
      then (request_resend prev_seq wire >>= again)
      else (modify close >> fail (wrap e))

  -- `rounds` are those that are left of maxConsecutiveResends.
  unfoldable pub await_loop : ℕ → ℕ → List ℕ → M Framebody
  await_loop zero prev_seq expected_ops = modify close >> fail (bare too_many_resends)
  await_loop (suc rounds) prev_seq expected_ops = do
    wire ← wrapping read_frame
    decoded ← attempt (decode_frame hash wire)
    on_decoded (λ sent_seq. await_loop rounds sent_seq expected_ops) prev_seq expected_ops wire
        decoded

  unfoldable pub await : List ℕ → M Framebody
  await expected_ops = await_loop max_consecutive_resends 0 expected_ops

  -- The frame to send again, if it is known.
  unfoldable pub or_invalid : Option Framebody → M Framebody
  or_invalid none = modify close >> fail (bare invalid_resend)
  or_invalid (some f) = pure f

  unfoldable pub resend : ℕ → M ℕ
  resend seq_to_resend = do
    resends ← gets (λ s. s.consec_resends)
    (if ltb max_consecutive_resends resends
        then (modify close >> fail (bare too_many_resends))
        else pure tt)
    old ← gets (λ s. s.sent_frames seq_to_resend)
    old_frame ← or_invalid old
    modify count_resend
    sent_seq ← gets (λ s. s.seq)
    resend_frame ← wrapping (encode_frame hash old_frame.op old_frame.payload)
    write_frame resend_frame
    pure sent_seq

  -- What the wait for an acknowledgement makes of the response.
  unfoldable pub on_response : (ℕ → M (Unit {0})) → ℕ → Framebody → M (Unit {0})
  on_response again expected response =
      if response.op == op_resend
      then (do
        sent_sequence ← wrapping (resend (be_value response.payload))
        modify (forget expected)
        again sent_sequence)
      else if be_value response.payload == expected
      then modify (λ s. no_resends (forget expected s))
      else (modify close >> fail (bare bad_sequence))

  -- The error of a failed wait: `err == ErrInvalidOpcode` sees the bare sentinel only.
  unfoldable pub no_ack : Failure → Failure
  no_ack (bare invalid_opcode) = wrapped received_no_ack
  no_ack e = wrap e

  unfoldable pub on_awaited : (ℕ → M (Unit {0})) → ℕ → Result Failure Framebody → M (Unit {0})
  unfolding on_response
  on_awaited again expected (ok response) = on_response again expected response
  on_awaited again expected (err e) = modify close >> fail (no_ack e)

  unfoldable pub await_ack_loop : ℕ → ℕ → M (Unit {0})
  await_ack_loop zero expected = pure tt
  await_ack_loop (suc rounds) expected = do
    response ← attempt (await (op_ack ∷ op_resend ∷ []))
    on_awaited (await_ack_loop rounds) expected response

  unfoldable pub await_ack : ℕ → M (Unit {0})
  await_ack expected = await_ack_loop max_consecutive_resends expected

  unfoldable pub send : ℕ → Bytes → M ℕ
  unfolding send_with
  send = send_with await_ack
