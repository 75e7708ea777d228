-- ===== src/Fipr/Frames/Validation.antt =====
-- pkg/fipr/validation.go: which frames are valid, described without the order of the tests.
use sdsyslog.Common.{ℕ, ◌≤◌, ◌≡◌, ◌≢◌, ◌⊎◌, ◌↔◌, true, none, some, arith, length}
use sdsyslog.Fipr.{Session, Framebody, Sentinel, state_init, state_closed}
use sdsyslog.Fipr.Frames.{validate_frame, is_retryable_error}

-- The opcodes of the protocol but the rejection, which ends the session with an error.
abbrev Known : ℕ → Type 0
Known op =
    (op ≡ 0x00)
    ⊎ (op ≡ 0x05)
    ⊎ (op ≡ 0x10)
    ⊎ (op ≡ 0x11)
    ⊎ (op ≡ 0x12)
    ⊎ (op ≡ 0x20)
    ⊎ (op ≡ 0x21)
    ⊎ (op ≡ 0x22)
    ⊎ (op ≡ 0x23)
    ⊎ (op ≡ 0x24)

-- What validateFrame asks of a frame. docs/FIPR.md asks for more: no payload in Accepted, and no
-- sequence number 0 in any frame but Start.
pub record Valid (f : Framebody) (s : Session) : Type 0 where
  pub session_open : s.state ≢ state_closed
  pub known : Known f.op
  pub start_fresh : f.op ≡ 0x00 → s.state ≡ state_init
  pub start_first : f.op ≡ 0x00 → f.sequence ≡ 0
  pub carries : (f.op ≡ 0x00) ⊎ (f.op ≡ 0x05) ⊎ (f.op ≡ 0x24) → 1 ≤ length f.payload
  pub asks : (f.op ≡ 0x20) ⊎ (f.op ≡ 0x22) → length f.payload ≡ 0
  pub tells : (f.op ≡ 0x21) ⊎ (f.op ≡ 0x23) → length f.payload ≡ 1
  pub names : (f.op ≡ 0x10) ⊎ (f.op ≡ 0x11) → length f.payload ≡ 2

Valid-validate_frame : (f : Framebody) (s : Session) → Valid f s → (validate_frame f s).1 ≡ none
unfolding validate_frame
Valid-validate_frame f s v = ground arith

validate_frame-Valid : (f : Framebody) (s : Session) → (validate_frame f s).1 ≡ none → Valid f s
unfolding validate_frame
validate_frame-Valid f s e = record {
  session_open = ground arith;
  known = ground arith;
  start_fresh = ground arith;
  start_first = ground arith;
  carries = ground arith;
  asks = ground arith;
  tells = ground arith;
  names = ground arith;
}

-- validateFrame returns no error exactly where the session is open, the opcode is one that is known
-- and is not Rejected, Start comes first, with the sequence number 0, and the payload is of the length
-- that validateFrame asks for with the opcode: any length, in Accepted, and any number, but in Start.
pub validate_frame_iff : (f : Framebody) (s : Session) → ((validate_frame f s).1 ≡ none) ↔ Valid f s
validate_frame_iff f s = (validate_frame-Valid f s, Valid-validate_frame f s)

-- A frame other than a start whose error asks for it to be sent again leaves the session as it was.
pub validate_frame_retry :
    (f : Framebody) (s : Session) (e : Sentinel)
    → (validate_frame f s).1 ≡ some e
    → is_retryable_error e ≡ true
    → f.op ≢ 0x00
    → (validate_frame f s).0 ≡ s
unfolding validate_frame is_retryable_error
validate_frame_retry f s e h r n = ground arith

-- A valid frame leaves the session as it was, but for the acceptance, which closes it.
pub validate_frame_unchanged :
    (f : Framebody) (s : Session)
    → (validate_frame f s).1 ≡ none
    → f.op ≢ 0x12
    → validate_frame f s ≡ (s, none)
unfolding validate_frame
validate_frame_unchanged f s e n = ground arith
