-- ===== src/Fipr/Frames/Codec.antt =====
-- pkg/fipr/encoding.go: what encodeFrame writes, decodeFrame reads back; and nothing else.
use mathlib.Core.Path.{subst}
use mathlib.Core.List.{append_assoc}
use sdsyslog.Common.{
  ◌*◌, take-append_eq, drop-append_eq, ℕ, ◌+◌, ◌-◌, ◌%◌, ◌^◌, ◌≤◌, ◌<◌, ◌≡◌, refl, ap, ◌∙◌, ◌∷◌,
  ◌++◌, arith, ltb-false, eq-true, length, length-append, length-take, take, drop, drop-suc,
  take-append, drop-append,
}
use sdsyslog.Common.Words.{
  Bytes, be_bytes, be_value, be_onto, bytes_equal_iff, length-be_bytes, be_value-be_bytes,
}
use sdsyslog.Fipr.{Session}
use sdsyslog.Fipr.Frames.{
  settle, body_at, compute_sha256, signed_part, frame_bytes, validate_frame, decode_body,
  decode_frame,
}

-- HMAC-SHA256 returns 32 bytes.
abbrev pub IsHash : (Bytes → Bytes → Bytes) → Type 0
IsHash hash = (key text : Bytes) → length (hash key text) ≡ 32

-- The length field of a frame.
abbrev body_len : Bytes → ℕ
body_len payload = (2 + 1 + length payload + 16) % 2 ^ 32

length-signed_part :
    (seq op : ℕ) (payload : Bytes) → length (signed_part seq op payload) ≡ 7 + length payload
unfolding signed_part
length-signed_part seq op payload = omega (arith, length-append {0}, length-be_bytes)

signed_part-append :
    (seq op : ℕ) (payload rest : Bytes)
    → signed_part seq op payload ++ rest
      ≡ be_bytes 4 (body_len payload) ++ (be_bytes 2 seq ++ (op ∷ (payload ++ rest)))
unfolding signed_part
signed_part-append seq op payload rest = simp append_assoc

-- The first four bytes are the length of the rest.
frame_len-signed_part :
    (seq op : ℕ) (payload rest : Bytes)
    → length payload ≤ 65512
    → be_value (take 4 (signed_part seq op payload ++ rest)) ≡ 19 + length payload
frame_len-signed_part seq op payload rest fits =
    rw
      (
        signed_part-append seq op payload rest,
        take-append_eq 4 (be_bytes 4 (body_len payload))
            (be_bytes 2 seq ++ (op ∷ (payload ++ rest))) (length-be_bytes 4 (body_len payload)),
        be_value-be_bytes 4 (body_len payload) (omega arith),
      )
      (omega arith)

after_len :
    (seq op : ℕ) (payload rest : Bytes)
    → drop 4 (signed_part seq op payload ++ rest) ≡ be_bytes 2 seq ++ (op ∷ (payload ++ rest))
after_len seq op payload rest =
    rw (signed_part-append seq op payload rest)
      (drop-append_eq 4 (be_bytes 4 (body_len payload)) _ (length-be_bytes 4 (body_len payload)))

seq-signed_part :
    (seq op : ℕ) (payload rest : Bytes)
    → seq < 65536
    → be_value (take 2 (drop 4 (signed_part seq op payload ++ rest))) ≡ seq
seq-signed_part seq op payload rest h = rw (
  after_len seq op payload rest,
  take-append_eq 2 (be_bytes 2 seq) (op ∷ (payload ++ rest)) (length-be_bytes 2 seq),
  be_value-be_bytes 2 seq (omega arith),
)

after_seq :
    (seq op : ℕ) (payload rest : Bytes)
    → drop 6 (signed_part seq op payload ++ rest) ≡ op ∷ (payload ++ rest)
after_seq seq op payload rest = rw (signed_part-append seq op payload rest) (
    rw (← append_assoc (be_bytes 4 (body_len payload)) (be_bytes 2 seq) (op ∷ (payload ++ rest))) (
      drop-append_eq 6 (be_bytes 4 (body_len payload) ++ be_bytes 2 seq) (op ∷ (payload ++ rest)) (
        omega (
          arith,
          length-append (be_bytes 4 (body_len payload)) (be_bytes 2 seq),
          length-be_bytes 4 (body_len payload),
          length-be_bytes 2 seq,
        ))))

-- The payload and the opcode are read where they were written.
body_at-signed_part :
    (seq op : ℕ) (payload rest : Bytes)
    → body_at seq (7 + length payload) (signed_part seq op payload ++ rest)
      ≡ record { sequence = seq; op = op; payload = payload }
body_at-signed_part seq op payload rest =
    let tail : drop 7 (signed_part seq op payload ++ rest) ≡ payload ++ rest =
      drop-suc 6 (signed_part seq op payload ++ rest)
      ∙ ap (drop 1) (after_seq seq op payload rest) in
    let size : 7 + length payload - 7 ≡ length payload = omega arith in
    let code : 0 * 256 + op ≡ op = omega arith in
    rw (after_seq seq op payload rest, tail, size, take-append payload rest)
      (unfold be_value be_onto in rw code)

module _ (hash : Bytes → Bytes → Bytes) (is_hash : IsHash hash) where
  length-compute_sha256 : (key text : Bytes) → length (compute_sha256 hash key 16 text) ≡ 16
  unfolding compute_sha256
  length-compute_sha256 key text = omega (arith, length-take 16 (hash key text), is_hash key text)

  pub length-frame_bytes :
      (secret : Bytes) (seq op : ℕ) (payload : Bytes)
      → length (frame_bytes hash secret seq op payload) ≡ 23 + length payload
  unfolding frame_bytes
  length-frame_bytes secret seq op payload = omega (
    arith,
    length-append (signed_part seq op payload)
        (compute_sha256 hash secret 16 (signed_part seq op payload)),
    length-signed_part seq op payload,
    length-compute_sha256 secret (signed_part seq op payload),
  )

  pub frame_len-frame_bytes :
      (secret : Bytes) (seq op : ℕ) (payload : Bytes)
      → length payload ≤ 65512
      → be_value (take 4 (frame_bytes hash secret seq op payload)) ≡ 19 + length payload
  unfolding frame_bytes
  frame_len-frame_bytes secret seq op payload fits = frame_len-signed_part seq op payload _ fits

  decode_frame-body :
      (s : Session) (n : ℕ) (wire : Bytes)
      → length wire ≡ 23 + n
      → n ≤ 65512
      → be_value (take 4 wire) ≡ 19 + n
      → be_value (take 2 (drop 4 wire)) ≡ s.seq
      → decode_frame hash wire s ≡ decode_body hash s.seq (7 + n) wire s
  unfolding decode_frame
  decode_frame-body s n wire size fits len seq =
      let end : 7 + (19 + n - 19) ≡ 7 + n = omega arith in
      rw (
        size,
        len,
        seq,
        end,
        ltb-false (23 + n) 23 (omega arith),
        ltb-false 65535 (23 + n) (omega arith),
        ltb-false (19 + n) 19 (omega arith),
        eq-true s.seq,
      )

  decode_body-settle :
      (s : Session) (front : Bytes)
      → decode_body hash s.seq
          (length front)
          (front ++ compute_sha256 hash s.hmac_secret 16 front)
          s
        ≡ (let f =
              body_at s.seq (length front) (front ++ compute_sha256 hash s.hmac_secret 16 front) in
            settle f (validate_frame f s))
  unfolding decode_body compute_sha256
  decode_body-settle s front =
      let mac = take 16 (hash s.hmac_secret front) in
      rw (
        ltb-false (length (front ++ mac)) (length front) (omega (arith, length-append front mac)),
        take-append front mac,
        drop-append front mac,
        (bytes_equal_iff mac mac).1 refl,
      )

  -- A frame that the other end encoded under this secret and sequence number, with a payload of
  -- 65512 bytes at most, is decoded to its parts, which are then validated.
  pub decode_frame-frame_bytes :
      (s : Session) (op : ℕ) (payload : Bytes)
      → s.seq < 65536
      → length payload ≤ 65512
      → decode_frame hash (frame_bytes hash s.hmac_secret s.seq op payload) s
        ≡ settle
            (record { sequence = s.seq; op = op; payload = payload })
            (validate_frame (record { sequence = s.seq; op = op; payload = payload }) s)
  unfolding frame_bytes
  decode_frame-frame_bytes s op payload hs fits =
      let front = signed_part s.seq op payload in
      let mac = compute_sha256 hash s.hmac_secret 16 front in
      let size = length-signed_part s.seq op payload in
      decode_frame-body s (length payload) (front ++ mac)
        (unfold frame_bytes in length-frame_bytes s.hmac_secret s.seq op payload) fits
        (frame_len-signed_part s.seq op payload mac fits) (seq-signed_part s.seq op payload mac hs)
      ∙ subst
          (λ k.
            decode_body hash s.seq k (front ++ mac) s
            ≡ settle (body_at s.seq k (front ++ mac))
                (validate_frame (body_at s.seq k (front ++ mac)) s))
          size (decode_body-settle s front)
      ∙ rw (body_at-signed_part s.seq op payload mac)
