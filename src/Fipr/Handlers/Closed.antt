-- ===== src/Fipr/Handlers/Closed.antt =====
-- pkg/fipr: a session that is closed sends nothing and accepts nothing.
use sdsyslog.Common.{ℕ, ◌+◌, ◌-◌, take, drop, ◌≡◌, ◌≢◌, true, arith, some, ok, err}
use sdsyslog.Common.Words.{Bytes, be_value}
use sdsyslog.Fipr.{Session, Framebody, bare, wrapped, session_closed, is_closed}
use sdsyslog.Fipr.Frames.{
  settle, validate_frame, is_retryable_error, encode_frame, decode_body, decode_frame, body_at,
}
use sdsyslog.Fipr.Handlers.{send_with, send}

validate_frame-closed :
    (f : Framebody) (s : Session)
    → is_closed s ≡ true
    → validate_frame f s ≡ (s, some session_closed)
unfolding validate_frame
validate_frame-closed f s h = rw h

module _ (hash : Bytes → Bytes → Bytes) where
  encode_frame-closed :
      (op : ℕ) (payload : Bytes) (s : Session)
      → is_closed s ≡ true
      → encode_frame hash op payload s ≡ (s, err (bare session_closed))
  unfolding encode_frame
  encode_frame-closed op payload s h = rw h

  send-closed :
      (op : ℕ) (payload : Bytes) (s : Session)
      → is_closed s ≡ true
      → send hash op payload s ≡ (s, err (wrapped session_closed))
  unfolding send send_with
  send-closed op payload s h = rw (encode_frame-closed op payload s h)

  decode_body-closed :
      (seq payload_end : ℕ) (wire : Bytes) (s s' : Session) (f : Framebody)
      → is_closed s ≡ true
      → decode_body hash seq payload_end wire s ≢ (s', ok f)
  unfolding decode_body settle is_retryable_error
  decode_body-closed seq payload_end wire s s' f h e =
      let refused = validate_frame-closed (body_at seq payload_end wire) s h in ground arith

  decode_frame-closed :
      (wire : Bytes) (s s' : Session) (f : Framebody)
      → is_closed s ≡ true
      → decode_frame hash wire s ≢ (s', ok f)
  unfolding decode_frame
  decode_frame-closed wire s s' f h e =
      let body =
        decode_body-closed (be_value (take 2 (drop 4 wire))) (7 + (be_value (take 4 wire) - 19))
          wire s s' f h in
      ground arith

  -- A session that is closed sends nothing, with an error that says so and no change, and accepts no
  -- frame, whatever its bytes are.
  pub closed-silent :
      (s s' : Session) (op : ℕ) (payload wire : Bytes) (f : Framebody)
      → is_closed s ≡ true
      → (send hash op payload s ≡ (s, err (wrapped session_closed)))
        × (decode_frame hash wire s ≢ (s', ok f))
  closed-silent s s' op payload wire f h =
      (send-closed op payload s h, decode_frame-closed wire s s' f h)
