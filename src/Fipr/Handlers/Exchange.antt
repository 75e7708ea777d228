-- ===== src/Fipr/Handlers/Exchange.antt =====
-- pkg/fipr/handlers.go: one frame and its acknowledgement, at the end that sends and at the end
-- that waits.
use sdsyslog.Common.{
  ℕ, suc, ◌+◌, ◌%◌, ◌^◌, ◌≤◌, ◌<◌, ◌≡◌, ◌≢◌, refl, ◌∙◌, true, false, none, some, List, [], ◌∷◌,
  ◌++◌, map, arith, eq-false, eq-true, length, ok,
}
use sdsyslog.Common.Words.{Bytes, be_bytes, be_value-be_bytes}
use sdsyslog.Fipr.{Session, Framebody, chunk, put_frame, is_closed, op_ack, op_resend}
use sdsyslog.Fipr.Frames.{requires_ack, settle, frame_bytes, encode_frame}
use sdsyslog.Fipr.Frames.Codec.{
  IsHash, length-frame_bytes, frame_len-frame_bytes, decode_frame-frame_bytes,
}
use sdsyslog.Fipr.Frames.Validation.{Valid, validate_frame_iff, validate_frame_unchanged}
use sdsyslog.Fipr.Framing.{write_loop, write_frame, with_writes}
use sdsyslog.Fipr.Framing.Streams.{IsFrame, pending, taken, read_frame-frame}
use sdsyslog.Fipr.Handlers.{
  mem, forget, no_resends, send_with, transmit, send_ack, settle_response, on_decoded, await_loop,
  await, await_ack_loop, await_ack, send, on_awaited, on_response,
}

-- A session that can send two more frames, over a connection that takes whatever is written.
pub record Ready (s : Session) : Type 0 where
  pub session_open : is_closed s ≡ false
  pub room : s.seq < 65534
  pub takes_all : s.conn.writes ≡ []

module _ (hash : Bytes → Bytes → Bytes) (is_hash : IsHash hash) where
  -- The session once a frame is encoded and written.
  abbrev pub sent_frame : ℕ → Bytes → Session → Session
  sent_frame op payload s = record s {
    conn = record {
      reads = s.conn.reads;
      writes = [];
      sent = s.conn.sent ++ frame_bytes hash s.hmac_secret s.seq op payload;
    };
    seq = s.seq + 1;
    sent_frames =
        put_frame s.sent_frames s.seq
          (some (record { sequence = s.seq; op = op; payload = payload }));
  }

  write_loop_all :
      (wire : Bytes) (s : Session)
      → 0 < length wire
      → write_loop [] wire s ≡ (with_writes s [] wire, ok tt)
  unfolding write_loop
  write_loop_all [] s h = absurd (omega arith)
  write_loop_all (b ∷ wire) s h = refl

  encode_frame_open :
      (s : Session) (op : ℕ) (payload : Bytes)
      → is_closed s ≡ false
      → s.seq < 65535
      → encode_frame hash op payload s ≡ (
        record s {
          seq = s.seq + 1;
          sent_frames =
              put_frame s.sent_frames s.seq
                (some (record { sequence = s.seq; op = op; payload = payload }));
        },
        ok (frame_bytes hash s.hmac_secret s.seq op payload),
      )
  unfolding encode_frame
  encode_frame_open s op payload o room =
      let no_wrap : (s.seq + 1) % 2 ^ 16 ≡ s.seq + 1 = omega arith in
      rw (o, eq-false s.seq 65535 (omega arith)) (simp no_wrap)

  -- An acknowledgement or a request is on the wire at once.
  transmit_open :
      (s : Session) (op : ℕ) (payload : Bytes)
      → is_closed s ≡ false
      → s.seq < 65535
      → s.conn.writes ≡ []
      → requires_ack op ≡ false
      → transmit hash op payload s ≡ (sent_frame op payload s, ok s.seq)
  unfolding transmit write_frame
  transmit_open s op payload o room all no_wait = rw (encode_frame_open s op payload o room) (
      rw no_wait (
        rw all (
          rw (
            write_loop_all (frame_bytes hash s.hmac_secret s.seq op payload) _
              (omega (arith, length-frame_bytes hash is_hash s.hmac_secret s.seq op payload))))))

  frame_bytes-IsFrame :
      (secret : Bytes) (seq op : ℕ) (payload : Bytes)
      → length payload ≤ 65512
      → IsFrame (frame_bytes hash secret seq op payload)
  frame_bytes-IsFrame secret seq op payload fits =
      let len = frame_len-frame_bytes hash is_hash secret seq op payload fits in
      record {
        size = omega (arith, len, length-frame_bytes hash is_hash secret seq op payload);
        enough = omega (arith, len);
      }

  -- Validation looks at the state of the session alone.
  Valid-taken :
      (s : Session) (f : Framebody) (left : List Bytes) (buffer : Bytes)
      → Valid f s
      → Valid f (taken s left buffer)
  Valid-taken s f left buffer v = record {
    session_open = v.session_open;
    known = v.known;
    start_fresh = v.start_fresh;
    start_first = v.start_first;
    carries = v.carries;
    asks = v.asks;
    tells = v.tells;
    names = v.names;
  }

  no_wrap_at : (n : ℕ) → n < 65535 → (n + 1) % 2 ^ 16 ≡ n + 1
  no_wrap_at n h = omega arith

  -- The frame that is due stands at the front of what the connection delivers.
  pub record Incoming (s : Session) (op : ℕ) (payload rest : Bytes) : Type 0 where
    pub chunks : List Bytes
    pub reads : s.conn.reads ≡ map chunk chunks
    pub delivers :
        s.transport_buffer ++ pending chunks
        ≡ frame_bytes hash s.hmac_secret s.seq op payload ++ rest
    pub fits : length payload ≤ 65512
    pub valid : Valid (record { sequence = s.seq; op = op; payload = payload }) s
    pub stays_open : op ≢ 0x12

  abbrev received : Session → List Bytes → Bytes → Session
  received s left buffer = record (taken s left buffer) { seq = s.seq + 1 }

  await_loop-received :
      (rounds : ℕ) (s : Session) (ops : List ℕ) (op : ℕ) (payload rest : Bytes)
      → s.seq < 65535
      → Incoming s op payload rest
      → (left : List Bytes) × (buffer : Bytes) × (await_loop hash (suc rounds) 0 ops s
          ≡ settle_response hash ops
              (record { sequence = s.seq; op = op; payload = payload })
              (received s left buffer))
        × (buffer ++ pending left ≡ rest)
  unfolding await_loop on_decoded settle
  await_loop-received rounds s ops op payload rest room i =
      let body : Framebody = record { sequence = s.seq; op = op; payload = payload } in
      let (left, buffer, got, same) =
        read_frame-frame i.chunks s (frame_bytes hash s.hmac_secret s.seq op payload) rest
          (frame_bytes-IsFrame s.hmac_secret s.seq op payload i.fits) i.reads i.delivers in
      let decoded =
        decode_frame-frame_bytes hash is_hash (taken s left buffer) op payload (omega arith)
          i.fits in
      let valid =
        validate_frame_unchanged body (taken s left buffer)
          ((validate_frame_iff body (taken s left buffer)).1
            (Valid-taken s body left buffer i.valid))
          i.stays_open in
      let no_wrap : (s.seq + 1) % 2 ^ 16 ≡ s.seq + 1 = no_wrap_at s.seq room in
      (left, buffer, rw got (rw decoded (rw valid (rw no_wrap))), same)

  -- A session that is open and has numbers left, over a connection that takes what is written and
  -- delivers a valid frame that is expected and asks for an acknowledgement, returns the frame,
  -- answers with its acknowledgement under the next sequence number, and keeps the bytes that
  -- follow.
  pub await-answers :
      (s : Session) (ops : List ℕ) (op : ℕ) (payload rest : Bytes)
      → Ready s
      → Incoming s op payload rest
      → mem op ops ≡ true
      → requires_ack op ≡ true
      → (left : List Bytes) × (buffer : Bytes) × (await hash ops s ≡ (
        sent_frame op_ack (be_bytes 2 s.seq) (no_resends (received s left buffer)),
        ok (record { sequence = s.seq; op = op; payload = payload }),
      ))
        × (buffer ++ pending left ≡ rest)
  unfolding await settle_response send_ack
  await-answers s ops op payload rest ready i expected answered =
      let room = ready.room in
      let (left, buffer, got, same) = await_loop-received 2 s ops op payload rest (omega arith) i in
      let ack =
        transmit_open (no_resends (received s left buffer)) op_ack (be_bytes 2 s.seq)
          ready.session_open (omega arith) ready.takes_all (unfold requires_ack in refl) in
      (left, buffer, got ∙ rw (expected, answered) (rw ack), same)

  -- A session that is open and has numbers left, over a connection that takes what is written and
  -- then delivers the acknowledgement, sends a frame that asks for one with success: the frame is
  -- on the wire, it is no longer kept for sending again, two sequence numbers are used up, and the
  -- state is the same.
  pub send-acked :
      (s : Session) (op : ℕ) (payload rest : Bytes)
      → Ready s
      → requires_ack op ≡ true
      → Incoming (sent_frame op payload s) op_ack (be_bytes 2 s.seq) rest
      → (t : Session) × (send hash op payload s ≡ (t, ok s.seq))
        × (t.conn.sent ≡ s.conn.sent ++ frame_bytes hash s.hmac_secret s.seq op payload)
        × (t.sent_frames s.seq ≡ none)
        × (t.seq ≡ s.seq + 2)
        × (t.state ≡ s.state)
  unfolding send send_with await_ack await_ack_loop await settle_response on_awaited on_response
      write_frame requires_ack
  send-acked s op payload rest ready answered i =
      let s1 = sent_frame op payload s in
      let room = ready.room in
      let (left, buffer, got, same) =
        await_loop-received 2 s1 (op_ack ∷ op_resend ∷ []) op_ack (be_bytes 2 s.seq) rest
          (omega arith) i in
      (
        no_resends (forget s.seq (no_resends (received s1 left buffer))),
        rw (encode_frame_open s op payload ready.session_open (omega arith)) (
            rw answered (
              rw ready.takes_all (
                rw
                  (write_loop_all (frame_bytes hash s.hmac_secret s.seq op payload) _
                    (omega (arith, length-frame_bytes hash is_hash s.hmac_secret s.seq op payload)))
                  (rw got (rw (be_value-be_bytes 2 s.seq (omega arith), eq-true s.seq)))))),
        refl,
        rw (eq-true s.seq),
        omega arith,
        refl,
      )
