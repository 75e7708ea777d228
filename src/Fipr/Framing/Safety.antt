-- ===== src/Fipr/Framing/Safety.antt =====
-- pkg/fipr: the frames that readFrame hands on are as long as they say, which decodeFrame relies on.
use sdsyslog.Common.{
  ℕ, suc, ◌+◌, ◌-◌, ◌≤◌, ◌<◌, ◌≡◌, ◌≢◌, refl, Bool-cases, inl, inr, arith, Option, none, some,
  Result, ok, err, List, [], ◌∷◌, ltb, length, length-take, take, drop,
}
use mathlib.Core.Path.{subst}
use sdsyslog.Common.Words.{Bytes, be_value}
use sdsyslog.Fipr.{
  Session, M, ReadEvent, chunk, read_closed, read_failed, Framebody, Sentinel, bare, panics,
}
use sdsyslog.Fipr.Frames.{settle, validate_frame, decode_body, decode_frame, body_at}
use sdsyslog.Fipr.Framing.{try_parse_frame, take_frame, read_loop, read_frame}

take-take_four : (n : ℕ) (xs : Bytes) → 4 ≤ n → take 4 (take n xs) ≡ take 4 xs
take-take_four (suc (suc (suc (suc n)))) (a ∷ b ∷ c ∷ d ∷ xs) h = refl
take-take_four (suc (suc (suc (suc n)))) [] h = refl
take-take_four (suc (suc (suc (suc n)))) (a ∷ []) h = refl
take-take_four (suc (suc (suc (suc n)))) (a ∷ b ∷ []) h = refl
take-take_four (suc (suc (suc (suc n)))) (a ∷ b ∷ c ∷ []) h = refl
take-take_four n xs h = absurd (omega arith)

-- The first four bytes are the length of the rest.
abbrev Sized : Bytes → Type 0
Sized frame = length frame ≡ 4 + be_value (take 4 frame)

try_parse_frame-Sized :
    (buf frame : Bytes) (n : ℕ)
    → try_parse_frame buf ≡ ok (n, frame)
    → 0 < length frame
    → Sized frame
unfolding try_parse_frame
try_parse_frame-Sized buf frame n e h =
    let size = 4 + be_value (take 4 buf) in
    let four = take-take_four size buf (omega arith) in
    let len = length-take size buf in ground arith

take_frame-Sized :
    (buf wire : Bytes) (more : M Bytes) (s s' : Session)
    → ((t : Session) → more s ≡ (t, ok wire) → Sized wire)
    → (r : Result Sentinel (ℕ × Bytes)) → try_parse_frame buf ≡ r
    → take_frame r more s ≡ (s', ok wire)
    → Sized wire
unfolding take_frame
take_frame-Sized buf wire more s s' go (err x) p e = cc
take_frame-Sized buf wire more s s' go (ok (n, frame)) p e =
    elim (Bool-cases (ltb 0 (length frame))) [
      | inl some_bytes ↦
          let same : frame ≡ wire = ground arith in
          subst Sized same (try_parse_frame-Sized buf frame n p (ground arith))
      | inr nothing ↦ go s' (rw nothing at e)
    ]

read_loop-Sized :
    (events : List ReadEvent) (wire : Bytes) (s s' : Session)
    → read_loop events s ≡ (s', ok wire)
    → Sized wire
unfolding read_loop
read_loop-Sized [] wire s s' e =
    take_frame-Sized s.transport_buffer wire _ s s' (λ t h. cc) (try_parse_frame s.transport_buffer)
      refl e
read_loop-Sized (chunk bs ∷ events) wire s s' e =
    take_frame-Sized s.transport_buffer wire _ s s' (λ t h. read_loop-Sized events wire _ t h)
      (try_parse_frame s.transport_buffer) refl e
read_loop-Sized (read_closed ∷ events) wire s s' e =
    take_frame-Sized s.transport_buffer wire _ s s' (λ t h. cc) (try_parse_frame s.transport_buffer)
      refl e
read_loop-Sized (read_failed ∷ events) wire s s' e =
    take_frame-Sized s.transport_buffer wire _ s s' (λ t h. cc) (try_parse_frame s.transport_buffer)
      refl e

module _ (hash : Bytes → Bytes → Bytes) where
  settle-wrapped :
      (f : Framebody) (r : Session × Option Sentinel) → (settle f r).1 ≢ err (bare panics)
  unfolding settle
  settle-wrapped f (s, none) e = cc
  settle-wrapped f (s, some x) e = ground arith

  decode_body-safe :
      (seq payload_end : ℕ) (wire : Bytes) (s : Session)
      → payload_end ≤ length wire
      → (decode_body hash seq payload_end wire s).1 ≢ err (bare panics)
  unfolding decode_body
  decode_body-safe seq payload_end wire s h e =
      let frame = body_at seq payload_end wire in
      let settled = settle-wrapped frame (validate_frame frame s) in ground arith

  decode_frame-safe :
      (wire : Bytes) (s : Session) → Sized wire → (decode_frame hash wire s).1 ≢ err (bare panics)
  unfolding decode_frame
  decode_frame-safe wire s h e =
      let payload_end = 7 + (be_value (take 4 wire) - 19) in
      let body = decode_body-safe (be_value (take 2 (drop 4 wire))) payload_end wire s in
      ground arith

  -- A frame that readFrame returns never makes decodeFrame panic, whatever the peer has sent.
  pub decode_frame-read_frame :
      (s s' t : Session) (wire : Bytes)
      → read_frame s ≡ (s', ok wire)
      → (decode_frame hash wire t).1 ≢ err (bare panics)
  unfolding read_frame
  decode_frame-read_frame s s' t wire e =
      decode_frame-safe wire t (read_loop-Sized s.conn.reads wire s s' e)
