-- ===== src/Fipr.antt =====
-- pkg/fipr: the session of the fragment inter-process routing protocol. This file has the
-- constants of consts.go, the types of types.go, and the connection that a session stands on; the
-- children have the operations.
pub mod Frames
pub mod Framing
pub mod Handlers
pub mod Public
mod Tests
use sdsyslog.Common.{
  ℕ, suc, ◌+◌, ◌≡◌, refl, Bool, true, false, Option, none, some, List, [], ◌∷◌, ◌++◌, ◌==◌,
  if◌then◌else◌, Result, ok, err,
}
use sdsyslog.Common.Words.{Bytes}

abbrev pub len_field_frame_len : ℕ
len_field_frame_len = 4

abbrev pub len_field_sequence : ℕ
len_field_sequence = 2

abbrev pub len_field_op_code : ℕ
len_field_op_code = 1

abbrev pub hmac_size : ℕ
hmac_size = 16

abbrev pub max_data_length : ℕ
max_data_length = 65535

abbrev pub min_data_length : ℕ
min_data_length = len_field_frame_len + len_field_sequence + len_field_op_code + hmac_size

abbrev pub min_frame_len : ℕ
min_frame_len = len_field_sequence + len_field_op_code + hmac_size

abbrev pub max_sequence : ℕ
max_sequence = 65535

abbrev pub max_consecutive_resends : ℕ
max_consecutive_resends = 3

-- The operation codes, by their value on the wire.
abbrev pub op_start : ℕ
op_start = 0x00

abbrev pub op_obo : ℕ
op_obo = 0x05

abbrev pub op_ack : ℕ
op_ack = 0x10

abbrev pub op_resend : ℕ
op_resend = 0x11

abbrev pub op_accepted : ℕ
op_accepted = 0x12

abbrev pub op_rejected : ℕ
op_rejected = 0x13

abbrev pub op_shard_check : ℕ
op_shard_check = 0x20

abbrev pub op_shard_status : ℕ
op_shard_status = 0x21

abbrev pub op_msg_check : ℕ
op_msg_check = 0x22

abbrev pub op_msg_status : ℕ
op_msg_status = 0x23

abbrev pub op_frg_route : ℕ
op_frg_route = 0x24

-- The sentinel errors of consts.go that the package returns, a panic of the runtime, and `stuck`
-- for a loop of the model that ran out of fuel.
pub data Sentinel : Type 0 where
  transport_failure transport_was_closed frame_has_payload frame_has_no_payload : Sentinel
  invalid_frame_len payload_wrong_length frame_too_short frame_too_large : Sentinel
  out_of_order_start late_start bad_sequence invalid_resend resend_without_seq : Sentinel
  too_many_resends invalid_hmac invalid_opcode received_no_ack remote_rejected : Sentinel
  shard_shutdown session_closed panics stuck : Sentinel

-- `errors.Is` sees the sentinel through its wrapping, and `==` sees a bare one only.
pub data Failure : Type 0 where
  bare : Sentinel → Failure
  wrapped : Sentinel → Failure

abbrev pub sentinel : Failure → Sentinel
sentinel (bare s) = s
sentinel (wrapped s) = s

-- `fmt.Errorf("...: %w", err)`.
abbrev pub wrap : Failure → Failure
wrap f = wrapped (sentinel f)

pub data SessionState : Type 0 where
  state_init state_started state_closed : SessionState

pub record Framebody : Type 0 where
  pub sequence : ℕ
  pub op : ℕ
  pub payload : Bytes

-- What one call of the connection does: `Read` delivers some bytes, or it is closed, or fails.
pub data ReadEvent : Type 0 where
  chunk : Bytes → ReadEvent
  read_closed read_failed : ReadEvent

-- `Write` takes a number of bytes, or all of them, or it is closed, or fails.
pub data WriteEvent : Type 0 where
  wrote : ℕ → WriteEvent
  write_closed write_failed : WriteEvent

-- The transport connection: what its next calls do, and the bytes that it has taken. Where no event
-- is left a read finds the connection closed, and a write takes everything.
pub record Conn : Type 0 where
  pub reads : List ReadEvent
  pub writes : List WriteEvent
  pub sent : Bytes

-- types.go. The locks guard single fields, and a session is used by one goroutine.
pub record Session : Type 0 where
  pub message_id : Option Bytes
  pub obo : Option Bytes
  pub hmac_secret : Bytes
  pub conn : Conn
  pub state : SessionState
  pub seq : ℕ
  pub transport_buffer : Bytes
  pub sent_frames : ℕ → Option Framebody
  pub consec_resends : ℕ

-- A call changes the session and returns a value or an error; the changes stay where it fails.
abbrev pub M : Type 0 → Type 0
M A = Session → Session × Result Failure A

abbrev pub pure : {A : Type 0} → A → M A
pure a s = (s, ok a)

abbrev pub fail : {A : Type 0} → Failure → M A
fail e s = (s, err e)

abbrev pub step :
    {A B : Type 0} → (A → M B) → Session × Result Failure A → Session × Result Failure B
step f (s, ok a) = f a s
step f (s, err e) = (s, err e)

infixl 5 ◌>>=◌ ◌>>◌
abbrev pub ◌>>=◌ : {A B : Type 0} → M A → (A → M B) → M B
◌>>=◌ m f s = step f (m s)

abbrev pub ◌>>◌ : {B : Type 0} → M (Unit {0}) → M B → M B
m >> k = m >>= λ _. k

abbrev pub gets : {A : Type 0} → (Session → A) → M A
gets f s = (s, ok (f s))

abbrev pub modify : (Session → Session) → M (Unit {0})
modify f s = (f s, ok tt)

-- An error of `m` is wrapped.
abbrev pub wrap_err : {A : Type 0} → Session × Result Failure A → Session × Result Failure A
wrap_err (s, ok a) = (s, ok a)
wrap_err (s, err e) = (s, err (wrap e))

abbrev pub wrapping : {A : Type 0} → M A → M A
wrapping m s = wrap_err (m s)

-- The error of `m` is handed on as a value.
abbrev pub as_value :
    {A : Type 0} → Session × Result Failure A → Session × Result Failure (Result Failure A)
as_value (s, r) = (s, ok r)

abbrev pub attempt : {A : Type 0} → M A → M (Result Failure A)
attempt m s = as_value (m s)

-- `if !test { return e }`.
abbrev pub require : Bool → Failure → M (Unit {0})
require true e = pure tt
require false e = fail e

abbrev pub put_frame : (ℕ → Option Framebody) → ℕ → Option Framebody → ℕ → Option Framebody
put_frame m k v j = if k == j then v else m j

abbrev pub close : Session → Session
close s = record s { state = state_closed }

abbrev pub is_closed : Session → Bool
is_closed s = elim s.state [ state_closed ↦ true | _ ↦ false ]
