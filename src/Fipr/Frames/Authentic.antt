-- ===== src/Fipr/Frames/Authentic.antt =====
-- pkg/fipr/encoding.go: decodeFrame accepts only what a holder of the secret encoded for the
-- sequence number that is due.
use mathlib.Core.Path.{subst}
use sdsyslog.Common.{
  ℕ, ◌+◌, ◌-◌, ◌%◌, ◌^◌, ◌≤◌, ◌≡◌, sym, ap, ◌∙◌, Option, none, some, [], ◌∷◌, ◌++◌, arith, length,
  length-take, suc, take, drop, take-append-drop, All, ok,
}
use sdsyslog.Common.Words.{Bytes, IsByte, be_value, be_onto, bytes_equal_iff, be_bytes-be_value}
use sdsyslog.Fipr.{Session, Framebody, Sentinel}
use sdsyslog.Fipr.Frames.{
  settle, body_at, compute_sha256, signed_part, frame_bytes, validate_frame, decode_body,
  decode_frame,
}

-- A frame that settles well is the one that was validated, and the sequence moves.
settle_ok :
    (f g : Framebody) (r : Session × Option Sentinel) (s' : Session)
    → settle f r ≡ (s', ok g)
    → (f ≡ g) × (r.1 ≡ none) × (s'.seq ≡ (r.0.seq + 1) % 2 ^ 16)
unfolding settle
settle_ok f g (s, none) s' e = ground arith
settle_ok f g (s, some x) s' e = ground arith

-- The parts of a frame, written again.
signed_part-parts :
    (a b c d e g o : ℕ) (payload : Bytes)
    → All IsByte (a ∷ b ∷ c ∷ d ∷ e ∷ g ∷ o ∷ [])
    → length payload ≤ 65512
    → be_value (a ∷ b ∷ c ∷ d ∷ []) ≡ 19 + length payload
    → signed_part (be_value (e ∷ g ∷ [])) (be_value (o ∷ [])) payload
      ≡ a ∷ b ∷ c ∷ d ∷ e ∷ g ∷ o ∷ payload
unfolding signed_part
signed_part-parts a b c d e g o payload (ha, (hb, (hc, (hd, (he, (hg, (ho, _))))))) fits len =
    let whole : (2 + 1 + length payload + 16) % 2 ^ 32 ≡ be_value (a ∷ b ∷ c ∷ d ∷ []) =
      omega arith in
    let code : be_value (o ∷ []) ≡ o = unfold be_value be_onto in omega arith in
    rw (
      whole,
      be_bytes-be_value (a ∷ b ∷ c ∷ d ∷ []) (ha, (hb, (hc, (hd, tt)))),
      be_bytes-be_value (e ∷ g ∷ []) (he, (hg, tt)),
      code,
    )

module _ (hash : Bytes → Bytes → Bytes) where
  record BodyAccepted (seq end : ℕ) (wire : Bytes) (s s' : Session) (f : Framebody) : Type 0 where
    inside : end ≤ length wire
    signed : compute_sha256 hash s.hmac_secret 16 (take end wire) ≡ drop end wire
    parts : body_at seq end wire ≡ f
    valid : (validate_frame f s).1 ≡ none

  decode_body_ok :
      (seq end : ℕ) (wire : Bytes) (s s' : Session) (f : Framebody)
      → decode_body hash seq end wire s ≡ (s', ok f)
      → BodyAccepted seq end wire s s' f
  unfolding decode_body compute_sha256
  decode_body_ok seq end wire s s' f e = ground (
    arith,
    bytes_equal_iff (take 16 (hash s.hmac_secret (take end wire))) (drop end wire),
    settle_ok (body_at seq end wire) f (validate_frame (body_at seq end wire) s) s',
  )

  record FrameAccepted (wire : Bytes) (s s' : Session) (f : Framebody) : Type 0 where
    long : 23 ≤ length wire
    short : length wire ≤ 65535
    len_long : 19 ≤ be_value (take 4 wire)
    due : be_value (take 2 (drop 4 wire)) ≡ s.seq
    body : BodyAccepted s.seq (7 + (be_value (take 4 wire) - 19)) wire s s' f

  decode_frame_ok :
      (wire : Bytes) (s s' : Session) (f : Framebody)
      → decode_frame hash wire s ≡ (s', ok f)
      → FrameAccepted wire s s' f
  unfolding decode_frame
  decode_frame_ok wire s s' f e =
      let end = 7 + (be_value (take 4 wire) - 19) in
      ground (arith, decode_body_ok s.seq end wire s s' f)

  -- The same over a frame of seven bytes and more, whose payload has `n`.
  accepted_bytes :
      (a b c d e g o n : ℕ) (rest : Bytes) (s s' : Session) (f : Framebody)
      → All IsByte (a ∷ b ∷ c ∷ d ∷ e ∷ g ∷ o ∷ [])
      → be_value (a ∷ b ∷ c ∷ d ∷ []) ≡ 19 + n
      → be_value (e ∷ g ∷ []) ≡ s.seq
      → n ≤ length rest
      → n ≤ 65512
      → BodyAccepted s.seq
          (suc (suc (suc (suc (suc (suc (suc n)))))))
          (a ∷ b ∷ c ∷ d ∷ e ∷ g ∷ o ∷ rest)
          s
          s'
          f
      → (◌≡◌ {A = Bytes}
          (a ∷ b ∷ c ∷ d ∷ e ∷ g ∷ o ∷ rest)
          (frame_bytes hash s.hmac_secret s.seq f.op f.payload))
        × (f.sequence ≡ s.seq)
  unfolding frame_bytes
  accepted_bytes a b c d e g o n rest s s' f h len due inside fits acc =
      let back : suc (suc (suc (suc (suc (suc (suc n)))))) - 7 ≡ n = omega arith in
      let payload : take n rest ≡ f.payload =
        rw back at (ap (λ (x : Framebody). x.payload) acc.parts) in
      let code : be_value (o ∷ []) ≡ f.op = ap (λ (x : Framebody). x.op) acc.parts in
      let size : length (take n rest) ≡ n = omega (arith, length-take n rest) in
      let signed : take 16 (hash s.hmac_secret (a ∷ b ∷ c ∷ d ∷ e ∷ g ∷ o ∷ take n rest))
          ≡ drop n rest =
        unfold compute_sha256 in acc.signed in
      let front = signed_part-parts a b c d e g o (take n rest) h (omega arith) (omega arith) in
      (
        rw (← payload, ← code, ← due, front)
            (ap (λ r. a ∷ b ∷ c ∷ d ∷ e ∷ g ∷ o ∷ r)
              (sym (take-append-drop n rest) ∙ ap (λ r. take n rest ++ r) (sym signed))),
        sym (ap (λ (x : Framebody). x.sequence) acc.parts),
      )

  -- A frame cut at its own length is accepted only if it is, byte for byte, the frame of the
  -- session's secret and sequence number for the opcode and payload that are returned.
  pub frame_bytes-decode_frame :
      (wire : Bytes) (s s' : Session) (f : Framebody)
      → All IsByte wire
      → length wire ≡ 4 + be_value (take 4 wire)
      → decode_frame hash wire s ≡ (s', ok f)
      → (wire ≡ frame_bytes hash s.hmac_secret s.seq f.op f.payload)
        × (f.sequence ≡ s.seq)
        × ((validate_frame f s).1 ≡ none)
  unfolding frame_bytes
  frame_bytes-decode_frame (a ∷ b ∷ c ∷ d ∷ e ∷ g ∷ o ∷ rest) s s' f h size eq =
      let acc = decode_frame_ok _ s s' f eq in
      let n = length rest - 16 in
      let long = acc.long in
      let short = acc.short in
      let len_long = acc.len_long in
      let end : 7 + (be_value (a ∷ b ∷ c ∷ d ∷ []) - 19)
          ≡ suc (suc (suc (suc (suc (suc (suc n)))))) =
        omega arith in
      let heads : All IsByte (a ∷ b ∷ c ∷ d ∷ e ∷ g ∷ o ∷ []) = (
        h.0,
        (h.1.0, (h.1.1.0, (h.1.1.1.0, (h.1.1.1.1.0, (h.1.1.1.1.1.0, (h.1.1.1.1.1.1.0, tt)))))),
      ) in
      let (bytes, seq) =
        accepted_bytes a b c d e g o n rest s s' f heads (omega arith) acc.due (omega arith)
          (omega arith)
          (subst (λ k. BodyAccepted s.seq k (a ∷ b ∷ c ∷ d ∷ e ∷ g ∷ o ∷ rest) s s' f) end
            acc.body) in
      (bytes, seq, acc.body.valid)
  frame_bytes-decode_frame wire s s' f h size eq =
      absurd (omega (arith, (decode_frame_ok wire s s' f eq).long))
