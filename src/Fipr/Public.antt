-- ===== src/Fipr/Public.antt =====
-- pkg/fipr/public.go and new.go: the calls of the two ends of a session.
pub mod Status
use sdsyslog.Common.{
  ℕ, Bool, true, false, not, ◌&&◌, Option, none, some, [], ◌∷◌, ◌==◌, if◌then◌else◌, length, Result,
  ok, err,
}
use sdsyslog.Common.Words.{Bytes}
use sdsyslog.Fipr.{
  Session, Conn, Framebody, M, Failure, bare, wrapped, wrap, pure, fail, ◌>>=◌, ◌>>◌, modify,
  wrapping, attempt, close, state_init, state_started, op_start, op_obo, op_accepted, op_rejected,
  op_shard_check, op_shard_status, op_msg_check, op_msg_status, op_frg_route, frame_has_no_payload,
  shard_shutdown, remote_rejected, invalid_opcode, invalid_hmac, hmac_size, panics,
  transport_failure,
}
use sdsyslog.Fipr.Frames.{set_once}
use sdsyslog.Fipr.Handlers.{send, await}

abbrev pub shard_running : ℕ
shard_running = 0x01

abbrev pub shard_draining : ℕ
shard_draining = 0x11

abbrev pub shard_stopped : ℕ
shard_stopped = 0x22

abbrev pub msg_new : ℕ
msg_new = 0x00

abbrev pub msg_existing : ℕ
msg_existing = 0x10

-- new.go: a nil connection is `none`.
unfoldable pub new : Option Conn → Bytes → Result Failure Session
new conn hmac_secret =
    if length hmac_secret == hmac_size then on_conn conn else err (wrapped invalid_hmac)
  where
    on_conn : Option Conn → Result Failure Session
    on_conn none = err (wrapped transport_failure)
    on_conn (some c) = ok (record {
      message_id = none;
      obo = none;
      hmac_secret = hmac_secret;
      conn = c;
      state = state_init;
      seq = 0;
      transport_buffer = [];
      sent_frames = λ _. none;
      consec_resends = 0;
    })

abbrev pub start : Session → Session
start s = record s { state = state_started }

-- `payload[0]`.
abbrev pub first_byte : Bytes → M ℕ
first_byte [] = fail (bare panics)
first_byte (b ∷ bs) = pure b

abbrev pub shard_status_byte : Bool → Bool → ℕ
shard_status_byte running draining =
    if running && not draining
    then shard_running
    else if draining
    then shard_draining
    else shard_stopped

abbrev pub message_status_byte : Bool → ℕ
message_status_byte exists = if exists then msg_existing else msg_new

-- Whether the shard is draining.
unfoldable pub read_shard_status : ℕ → M Bool
read_shard_status status =
    if status == shard_draining
    then pure true
    else if status == shard_stopped
    then fail (bare shard_shutdown)
    else pure false

module _ (hash : Bytes → Bytes → Bytes) where
  unfoldable pub send_start : Bytes → M (Unit {0})
  send_start [] = fail (wrapped frame_has_no_payload)
  send_start (b ∷ bs) = do _ ← wrapping (send hash op_start (b ∷ bs)); modify start

  unfoldable pub wait_start : M (Unit {0})
  wait_start = do
    recv_frame ← wrapping (await hash (op_start ∷ []))
    (if length recv_frame.payload == 0 then fail (bare frame_has_no_payload) else pure tt)
    modify (λ s. record s { message_id = set_once recv_frame.payload s.message_id })
    modify start

  unfoldable pub send_accept : M (Unit {0})
  send_accept = do _ ← wrapping (send hash op_accepted []); modify close

  unfoldable pub send_reject : M (Unit {0})
  send_reject = do _ ← wrapping (send hash op_rejected []); modify close

  unfoldable pub send_on_behalf_of : Bytes → M (Unit {0})
  send_on_behalf_of original_sender = do _ ← wrapping (send hash op_obo original_sender); pure tt

  unfoldable pub wait_on_behalf_of : M (Unit {0})
  wait_on_behalf_of = do
    recv_frame ← wrapping (await hash (op_obo ∷ []))
    modify (λ s. record s { obo = set_once recv_frame.payload s.obo })

  unfoldable pub send_shard_check : M Bool
  send_shard_check = do
    _ ← wrapping (send hash op_shard_check [])
    recv_frame ← wrapping (await hash (op_shard_status ∷ []))
    status ← first_byte recv_frame.payload
    read_shard_status status

  unfoldable pub wait_shard_check : M (Unit {0})
  wait_shard_check = do _ ← wrapping (await hash (op_shard_check ∷ [])); pure tt

  unfoldable pub send_shard_status : Bool → Bool → M (Unit {0})
  send_shard_status running draining = do
    _ ← wrapping (send hash op_shard_status (shard_status_byte running draining ∷ []))
    pure tt

  unfoldable pub send_message_check : M Bool
  send_message_check = do
    _ ← wrapping (send hash op_msg_check [])
    recv_frame ← wrapping (await hash (op_msg_status ∷ []))
    status ← first_byte recv_frame.payload
    pure (status == msg_existing)

  unfoldable pub wait_message_check : M (Unit {0})
  wait_message_check = do _ ← wrapping (await hash (op_msg_check ∷ [])); pure tt

  unfoldable pub send_message_status : Bool → M (Unit {0})
  send_message_status exists = do
    _ ← send hash op_msg_status (message_status_byte exists ∷ [])
    pure tt

  -- `err == ErrInvalidOpcode` sees the bare sentinel only.
  unfoldable pub not_accepted : Failure → Failure
  not_accepted (bare invalid_opcode) = wrapped remote_rejected
  not_accepted e = wrap e

  unfoldable pub on_accepted : Result Failure Framebody → M (Unit {0})
  on_accepted (ok f) = pure tt
  on_accepted (err e) = fail (not_accepted e)

  unfoldable pub send_fragment : Bytes → M (Unit {0})
  send_fragment fragment = do
    _ ← wrapping (send hash op_frg_route fragment)
    accepted ← attempt (await hash (op_accepted ∷ []))
    on_accepted accepted

  unfoldable pub wait_fragment : M Bytes
  wait_fragment = do recv_frame ← wrapping (await hash (op_frg_route ∷ [])); pure recv_frame.payload
