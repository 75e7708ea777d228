-- ===== src/Fipr/Tests.antt =====
-- pkg/fipr: two ends of a session under a hash that looks at lengths only, run.
use sdsyslog.Common.{
  ◌≢◌, err, ℕ, ◌+◌, ◌%◌, ◌≡◌, ◌↔◌, refl, none, List, [], ◌∷◌, ◌++◌, map, replicate, length,
  length-replicate, take, drop, arith, All, ok,
}
use sdsyslog.Common.Words.{bytes_equal, be_onto, Bytes, IsByte, be_bytes, be_value}
use sdsyslog.Fipr.Handlers.Closed.{closed-silent}
use sdsyslog.Fipr.Framing.Safety.{decode_frame-read_frame}
use sdsyslog.Fipr.{
  state_closed, session_closed, bare, wrapped, panics, Session, Framebody, chunk, state_started,
  op_ack, op_msg_check, op_frg_route,
}
use sdsyslog.Fipr.Frames.{
  requires_ack, signed_part, decode_body, frame_bytes, decode_frame, validate_frame, settle,
}
use sdsyslog.Fipr.Frames.Codec.{IsHash, decode_frame-frame_bytes}
use sdsyslog.Fipr.Frames.Authentic.{frame_bytes-decode_frame}
use sdsyslog.Fipr.Frames.Validation.{Valid, validate_frame_iff}
use sdsyslog.Fipr.Framing.{try_parse_frame, read_loop, read_frame}
use sdsyslog.Fipr.Framing.Streams.{IsFrame, pending, taken}
use sdsyslog.Fipr.Handlers.{
  on_decoded, await_loop, on_awaited, await_ack_loop, forget, await, await_ack, send,
}
use sdsyslog.Fipr.Handlers.Acks.{AckRun, await_ack_iff}
use sdsyslog.Fipr.Handlers.Exchange.{Ready, Incoming, sent_frame, await-answers, send-acked}

abbrev toy_hash : Bytes → Bytes → Bytes
toy_hash key body = replicate 32 ((length key + length body) % 256)

toy_hash-IsHash : IsHash toy_hash
toy_hash-IsHash key body = length-replicate 32 ((length key + length body) % 256)

abbrev secret : Bytes
secret = replicate 16 3

-- A session that has started, and what its connection is to deliver.
abbrev session : List Bytes → ℕ → Session
session chunks seq = record {
  message_id = none;
  obo = none;
  hmac_secret = secret;
  conn = record { reads = map chunk chunks; writes = []; sent = [] };
  state = state_started;
  seq = seq;
  transport_buffer = [];
  sent_frames = λ _. none;
  consec_resends = 0;
}

-- The frame that routes two bytes, under number 4, and its acknowledgement under number 5.
abbrev route_bytes : Bytes
route_bytes = 0 ∷ 0 ∷ 0 ∷ 21 ∷ 0 ∷ 4 ∷ 0x24 ∷ 8 ∷ 9 ∷ replicate 16 25

abbrev ack_bytes : Bytes
ack_bytes = 0 ∷ 0 ∷ 0 ∷ 21 ∷ 0 ∷ 5 ∷ 0x10 ∷ 0 ∷ 4 ∷ replicate 16 25

route_written : frame_bytes toy_hash secret 4 op_frg_route (8 ∷ 9 ∷ []) ≡ route_bytes
unfolding frame_bytes signed_part be_bytes
route_written = refl

ack_written : frame_bytes toy_hash secret 5 op_ack (be_bytes 2 4) ≡ ack_bytes
unfolding frame_bytes signed_part be_bytes
ack_written = refl

abbrev route : Framebody
route = record { sequence = 4; op = op_frg_route; payload = 8 ∷ 9 ∷ [] }

route_read : decode_frame toy_hash route_bytes (session [] 4) ≡ (session [] 5, ok route)
unfolding decode_frame be_value decode_body bytes_equal settle validate_frame
route_read = refl

route_bytes-IsByte : All IsByte route_bytes
route_bytes-IsByte = omega arith

route-Valid : (chunks : List Bytes) → Valid route (session chunks 4)
route-Valid chunks = (validate_frame_iff route (session chunks 4)).0 (unfold validate_frame in refl)

decode_frame-frame_bytes_example :
    decode_frame toy_hash (frame_bytes toy_hash secret 4 op_frg_route (8 ∷ 9 ∷ [])) (session [] 4)
    ≡ settle route (validate_frame route (session [] 4))
decode_frame-frame_bytes_example =
    decode_frame-frame_bytes toy_hash toy_hash-IsHash (session [] 4) op_frg_route (8 ∷ 9 ∷ [])
      (omega arith) (omega arith)

frame_bytes-decode_frame_example :
    (route_bytes ≡ frame_bytes toy_hash secret 4 op_frg_route (8 ∷ 9 ∷ []))
    × (route.sequence ≡ 4)
    × ((validate_frame route (session [] 4)).1 ≡ none)
frame_bytes-decode_frame_example =
    frame_bytes-decode_frame toy_hash route_bytes (session [] 4) (session [] 5) route
      route_bytes-IsByte (unfold be_value be_onto in refl) route_read

validate_frame_iff_example :
    ((validate_frame route (session [] 4)).1 ≡ none) ↔ Valid route (session [] 4)
validate_frame_iff_example = validate_frame_iff route (session [] 4)

-- A check of a message carries no payload.
abbrev odd_check : Framebody
odd_check = record { sequence = 4; op = op_msg_check; payload = 1 ∷ [] }

route_bytes-IsFrame : IsFrame route_bytes
route_bytes-IsFrame = record {
  size = unfold be_value be_onto in refl;
  enough = unfold be_value be_onto in omega arith;
}

abbrev cut : List Bytes
cut = take 3 route_bytes ∷ (drop 3 route_bytes ++ 77 ∷ []) ∷ []

session-Ready : (chunks : List Bytes) → Ready (session chunks 4)
session-Ready chunks = record { session_open = refl; room = omega arith; takes_all = refl }

route_comes : Incoming toy_hash toy_hash-IsHash (session cut 4) op_frg_route (8 ∷ 9 ∷ []) (77 ∷ [])
unfolding frame_bytes signed_part be_bytes
route_comes = record {
  chunks = cut;
  reads = refl;
  delivers = refl;
  fits = omega arith;
  valid = route-Valid cut;
  stays_open = omega arith;
}

await-answers_example :
    (left : List Bytes) × (buffer : Bytes) × (await toy_hash (op_frg_route ∷ []) (session cut 4) ≡ (
      sent_frame toy_hash toy_hash-IsHash op_ack (be_bytes 2 4) (record (session cut 5) {
        conn = record { reads = map chunk left; writes = []; sent = [] };
        transport_buffer = buffer;
      }),
      ok route,
    ))
    × (buffer ++ pending left ≡ 77 ∷ [])
await-answers_example =
    await-answers toy_hash toy_hash-IsHash (session cut 4) (op_frg_route ∷ []) op_frg_route
      (8 ∷ 9 ∷ []) (77 ∷ []) (session-Ready cut) route_comes refl (unfold requires_ack in refl)

abbrev acks : List Bytes
acks = ack_bytes ∷ []

ack_comes :
    Incoming toy_hash toy_hash-IsHash
      (sent_frame toy_hash toy_hash-IsHash op_frg_route (8 ∷ 9 ∷ []) (session acks 4))
      op_ack
      (be_bytes 2 4)
      []
unfolding frame_bytes signed_part be_bytes
ack_comes = record {
  chunks = acks;
  reads = refl;
  delivers = refl;
  fits = omega arith;
  valid = (validate_frame_iff _ _).0 (unfold validate_frame in refl);
  stays_open = omega arith;
}

send-acked_example :
    (t : Session) × (send toy_hash op_frg_route (8 ∷ 9 ∷ []) (session acks 4) ≡ (t, ok 4))
    × (t.conn.sent ≡ [] ++ frame_bytes toy_hash secret 4 op_frg_route (8 ∷ 9 ∷ []))
    × (t.sent_frames 4 ≡ none)
    × (t.seq ≡ 4 + 2)
    × (t.state ≡ state_started)
unfolding requires_ack
send-acked_example =
    send-acked toy_hash toy_hash-IsHash (session acks 4) op_frg_route (8 ∷ 9 ∷ []) []
      (session-Ready acks) refl ack_comes

-- The acknowledgement that comes ends the wait.
acked : await_ack toy_hash 4 (session acks 5) ≡ (forget 4 (session [] 6), ok tt)
unfolding await_ack await_ack_loop on_awaited await await_loop read_frame read_loop try_parse_frame
    be_value on_decoded decode_frame decode_body bytes_equal settle validate_frame requires_ack
acked = refl

await_ack_iff_example :
    (await_ack toy_hash 4 (session acks 5) ≡ (forget 4 (session [] 6), ok tt))
    ↔ AckRun toy_hash 3 (session acks 5) 4 (forget 4 (session [] 6))
await_ack_iff_example = await_ack_iff toy_hash 4 (session acks 5) (forget 4 (session [] 6))

-- After it has closed, the session refuses the frame that it accepted before.
abbrev closed_session : Session
closed_session = record (session [] 4) { state = state_closed }

closed-silent_example :
    (send toy_hash op_frg_route (8 ∷ 9 ∷ []) closed_session
      ≡ (closed_session, err (wrapped session_closed)))
    × (decode_frame toy_hash route_bytes closed_session ≢ (session [] 5, ok route))
closed-silent_example =
    closed-silent toy_hash closed_session (session [] 5) op_frg_route (8 ∷ 9 ∷ []) route_bytes route
      refl

route_taken : read_frame (session cut 4) ≡ (taken (session cut 4) [] (77 ∷ []), ok route_bytes)
unfolding read_frame read_loop try_parse_frame be_value
route_taken = refl

decode_frame-read_frame_example :
    (decode_frame toy_hash route_bytes closed_session).1 ≢ err (bare panics)
decode_frame-read_frame_example =
    decode_frame-read_frame toy_hash (session cut 4) (taken (session cut 4) [] (77 ∷ []))
      closed_session route_bytes route_taken
