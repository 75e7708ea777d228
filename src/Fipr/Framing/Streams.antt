-- ===== src/Fipr/Framing/Streams.antt =====
-- pkg/fipr/framing.go: how the transport cuts the stream into reads does not matter.
use mathlib.Core.List.{append_assoc}
use sdsyslog.Common.{
  ◌+◌, ◌≤◌, ◌<◌, ◌≡◌, refl, sym, ap, ◌∙◌, ◌⊎◌, inl, inr, List, [], ◌∷◌, ◌++◌, map, arith, ltb,
  Bool-cases, ltb-false, lt→ltb, length, length-append, take, take-append, drop-append, ok,
}
use sdsyslog.Common.Words.{Bytes, be_value}
use sdsyslog.Fipr.{Session, M, chunk}
use sdsyslog.Fipr.Framing.{try_parse_frame, take_frame, read_loop, read_frame, with_reads}

-- A frame as it stands on the stream: its first four bytes are the length of the rest.
pub record IsFrame (frame : Bytes) : Type 0 where
  pub size : length frame ≡ 4 + be_value (take 4 frame)
  pub enough : 19 ≤ be_value (take 4 frame)

take_four : (p q : Bytes) → 4 ≤ length p → take 4 (p ++ q) ≡ take 4 p
take_four (a ∷ b ∷ c ∷ d ∷ p) q h = refl
take_four p q h = absurd (omega arith)

-- Of two lists with the same front, one is a prefix of the other.
split_prefix :
    (p q frame rest : Bytes)
    → p ++ q ≡ frame ++ rest
    → (length p < length frame) ⊎ ((r : Bytes) × (p ≡ frame ++ r) × (r ++ q ≡ rest))
split_prefix p q [] rest e = inr (p, refl, e)
split_prefix [] q (x ∷ frame) rest e = inl (omega arith)
split_prefix (y ∷ p) q (x ∷ frame) rest e =
    let heads : y ≡ x = cc in
    let tails : p ++ q ≡ frame ++ rest = cc in
    elim (split_prefix p q frame rest tails) [
      | inl short ↦ inl (omega arith)
      | inr (r, e1, e2) ↦ inr (r, rw (heads, e1), e2)
    ]

parse_whole :
    (frame r : Bytes) → IsFrame frame → try_parse_frame (frame ++ r) ≡ ok (length frame, frame)
unfolding try_parse_frame
parse_whole frame r w =
    let same = take_four frame r (omega arith) in
    let size : 4 + be_value (take 4 frame) ≡ length frame = sym w.size in
    rw (
      same,
      size,
      ltb-false (length (frame ++ r)) 4 (omega (arith, length-append frame r)),
      ltb-false (be_value (take 4 frame)) 19 w.enough,
      ltb-false (length (frame ++ r)) (length frame) (omega (arith, length-append frame r)),
      take-append frame r,
    )

parse_part :
    (p q frame rest : Bytes)
    → IsFrame frame
    → p ++ q ≡ frame ++ rest
    → length p < length frame
    → try_parse_frame p ≡ ok (0, [])
unfolding try_parse_frame
parse_part p q frame rest w e h = elim (Bool-cases (ltb (length p) 4)) [
  | inl few ↦ rw few
  | inr four ↦
      let same : take 4 p ≡ take 4 frame =
        sym (take_four p q (ground arith)) ∙ ap (take 4) e ∙ take_four frame rest (omega arith) in
      rw (
        four,
        same,
        ltb-false (be_value (take 4 frame)) 19 w.enough,
        lt→ltb (length p) (4 + be_value (take 4 frame)) (omega arith),
      )
]

-- The bytes that the reads of a connection still deliver.
abbrev pub pending : List Bytes → Bytes
pending [] = []
pending (bs ∷ chunks) = bs ++ pending chunks

-- The session once a frame is taken: the reads and the bytes that are left.
abbrev pub taken : Session → List Bytes → Bytes → Session
taken s chunks buffer = record (with_reads s (map chunk chunks)) { transport_buffer = buffer }

take_whole :
    (chunks : List Bytes) (s : Session) (frame r : Bytes) (more : M Bytes)
    → IsFrame frame
    → s.transport_buffer ≡ frame ++ r
    → s.conn.reads ≡ map chunk chunks
    → take_frame (try_parse_frame s.transport_buffer) more s ≡ (taken s chunks r, ok frame)
unfolding take_frame
take_whole chunks s frame r more w e reads =
    rw
      (
        e,
        parse_whole frame r w,
        lt→ltb 0 (length frame) (omega (arith, w.size)),
        drop-append frame r,
      )
      (rw (← reads))

take_nothing :
    (s : Session) (q frame rest : Bytes) (more : M Bytes)
    → IsFrame frame
    → s.transport_buffer ++ q ≡ frame ++ rest
    → length s.transport_buffer < length frame
    → take_frame (try_parse_frame s.transport_buffer) more s ≡ more s
unfolding take_frame
take_nothing s q frame rest more w e h = rw (parse_part s.transport_buffer q frame rest w e h)

abbrev Taken : List Bytes → Session → Bytes → Bytes → Type 0
Taken chunks s frame rest =
    (left : List Bytes) × (buffer : Bytes) × (read_loop (map chunk chunks) s
      ≡ (taken s left buffer, ok frame))
    × (buffer ++ pending left ≡ rest)

read_loop-frame :
    (chunks : List Bytes) (s : Session) (frame rest : Bytes)
    → IsFrame frame
    → s.transport_buffer ++ pending chunks ≡ frame ++ rest
    → s.conn.reads ≡ map chunk chunks
    → Taken chunks s frame rest
unfolding read_loop
read_loop-frame [] s frame rest w e r = elim (split_prefix s.transport_buffer [] frame rest e) [
  | inl short ↦
      absurd
        (omega (arith, ap length e, length-append s.transport_buffer [], length-append frame rest))
  | inr (b, whole, left) ↦ ([], b, take_whole [] s frame b _ w whole r, left)
]
read_loop-frame (bs ∷ chunks) s frame rest w e r =
    elim (split_prefix s.transport_buffer (bs ++ pending chunks) frame rest e) [
      | inl short ↦
          let (left, buffer, got, same) =
            read_loop-frame chunks
              (record (with_reads s (map chunk chunks)) {
                transport_buffer = s.transport_buffer ++ bs;
              })
              frame rest w (append_assoc s.transport_buffer bs (pending chunks) ∙ e) refl in
          (left, buffer, take_nothing s (bs ++ pending chunks) frame rest _ w e short ∙ got, same)
      | inr (b, whole, left) ↦
          (bs ∷ chunks, b, take_whole (bs ∷ chunks) s frame b _ w whole r, left)
    ]

-- Where the buffer and the reads to come deliver a frame that starts with its length, readFrame
-- returns it whole, however the stream is cut, and what follows stays in the buffer and the reads
-- to come. Nothing else of the session changes.
pub read_frame-frame :
    (chunks : List Bytes) (s : Session) (frame rest : Bytes)
    → IsFrame frame
    → s.conn.reads ≡ map chunk chunks
    → s.transport_buffer ++ pending chunks ≡ frame ++ rest
    → (left : List Bytes) × (buffer : Bytes) × (read_frame s ≡ (taken s left buffer, ok frame))
      × (buffer ++ pending left ≡ rest)
unfolding read_frame
read_frame-frame chunks s frame rest w r e =
    let (left, buffer, got, same) = read_loop-frame chunks s frame rest w e r in
    (left, buffer, ap (λ events. read_loop events s) r ∙ got, same)
