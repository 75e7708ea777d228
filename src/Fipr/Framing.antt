-- ===== src/Fipr/Framing.antt =====
-- pkg/fipr/framing.go: whole frames on a byte stream. The deadlines that the source sets on the
-- connection are left out: a call that they end is a failed read or write.
pub mod Streams
pub mod Safety
use sdsyslog.Common.{
  ℕ, ◌+◌, List, [], ◌∷◌, ◌++◌, ltb, if◌then◌else◌, length, take, drop, Result, ok, err,
}
use sdsyslog.Fipr.{
  Session, M, Failure, bare, wrapped, Sentinel, ReadEvent, chunk, read_closed, read_failed,
  WriteEvent, wrote, write_closed, write_failed, close, len_field_frame_len, min_frame_len,
  invalid_frame_len, transport_was_closed, transport_failure,
}
use sdsyslog.Common.Words.{Bytes, be_value}

-- The bytes used up and the frame, or no frame where the buffer does not hold one yet.
unfoldable pub try_parse_frame : Bytes → Result Sentinel (ℕ × Bytes)
try_parse_frame buf =
    let frame_len = be_value (take 4 buf) in
    if ltb (length buf) len_field_frame_len
    then ok (0, [])
    else if ltb frame_len min_frame_len
    then err invalid_frame_len
    else if ltb (length buf) (len_field_frame_len + frame_len)
    then ok (0, [])
    else ok (len_field_frame_len + frame_len, take (len_field_frame_len + frame_len) buf)

abbrev pub with_reads : Session → List ReadEvent → Session
with_reads s events = record s {
  conn = record { reads = events; writes = s.conn.writes; sent = s.conn.sent };
}

-- A frame of the buffer is handed out; otherwise `more` reads on.
unfoldable pub take_frame : Result Sentinel (ℕ × Bytes) → M Bytes → M Bytes
take_frame (err e) more s = (s, err (bare e))
take_frame (ok (n, frame)) more s =
    if ltb 0 (length frame)
    then (record s { transport_buffer = drop n s.transport_buffer }, ok frame)
    else more s

-- The loop of readFrame, over what the reads of the connection deliver.
unfoldable pub read_loop : List ReadEvent → M Bytes
unfolding take_frame
read_loop [] s =
    take_frame (try_parse_frame s.transport_buffer)
      (λ t. (close t, err (bare transport_was_closed))) s
read_loop (chunk bs ∷ events) s =
    take_frame (try_parse_frame s.transport_buffer)
      (λ t.
        read_loop events
          (record (with_reads t events) { transport_buffer = t.transport_buffer ++ bs }))
      s
read_loop (read_closed ∷ events) s =
    take_frame (try_parse_frame s.transport_buffer)
      (λ t. (close (with_reads t events), err (bare transport_was_closed))) s
read_loop (read_failed ∷ events) s =
    take_frame (try_parse_frame s.transport_buffer)
      (λ t. (with_reads t events, err (wrapped transport_failure))) s

unfoldable pub read_frame : M Bytes
read_frame s = read_loop s.conn.reads s

abbrev pub with_writes : Session → List WriteEvent → Bytes → Session
with_writes s events more = record s {
  conn = record { reads = s.conn.reads; writes = events; sent = s.conn.sent ++ more };
}

-- The loop of writeFrame: it ends where nothing is left to write.
unfoldable pub write_loop : List WriteEvent → Bytes → M (Unit {0})
write_loop events [] s = (s, ok tt)
write_loop [] (b ∷ bs) s = (with_writes s [] (b ∷ bs), ok tt)
write_loop (wrote n ∷ events) (b ∷ bs) s =
    write_loop events (drop n (b ∷ bs)) (with_writes s events (take n (b ∷ bs)))
write_loop (write_closed ∷ events) (b ∷ bs) s =
    (close (with_writes s events []), err (bare transport_was_closed))
write_loop (write_failed ∷ events) (b ∷ bs) s =
    (with_writes s events [], err (wrapped transport_failure))

unfoldable pub write_frame : Bytes → M (Unit {0})
write_frame wire s = write_loop s.conn.writes wire s
