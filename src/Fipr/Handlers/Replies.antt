-- ===== src/Fipr/Handlers/Replies.antt =====
-- pkg/fipr/handlers.go: what has happened once the wait for an acknowledgement has a frame, and once
-- a frame was sent again.
use sdsyslog.Common.{
  Option-cases, ok_injective, ℕ, zero, suc, ◌+◌, ◌%◌, ◌^◌, ◌≤◌, ◌≡◌, ◌≢◌, ◌⊎◌, inl, inr, refl, sym,
  ap, ◌∙◌, true, false, Bool-cases, ◌==◌, ltb, some, List, [], ◌∷◌, ◌++◌, arith, take, drop,
  take-append-drop, Result, ok, err,
}
use sdsyslog.Common.Words.{Bytes}
use mathlib.Core.Path.{subst}
use mathlib.Core.List.{append_assoc, append-nil}
use sdsyslog.Fipr.{
  bad_sequence, session_closed, close, bare, Session, Framebody, Failure, pure, WriteEvent, wrote,
  write_closed, write_failed, step, as_value, wrap_err, sentinel, put_frame, is_closed, op_ack,
  op_resend, max_consecutive_resends,
}
use sdsyslog.Fipr.Frames.{requires_ack, is_retryable_error, frame_bytes, encode_frame, decode_frame}
use sdsyslog.Fipr.Framing.{read_frame, write_loop, write_frame}
use sdsyslog.Fipr.Handlers.{
  no_resends, count_resend, request_resend, settle_response, on_decoded, await_loop, await,
  or_invalid, resend,
}

module _ (hash : Bytes → Bytes → Bytes) where
  -- The frame of an answer is one of the two that are expected, and was decoded from the wire; the
  -- session is as the decoding left it, with no resends counted.
  pub record Answer (f : Framebody) (t : Session) : Type 0 where
    pub wire : Bytes
    pub before : Session
    pub after : Session
    pub decoded : decode_frame hash wire before ≡ (after, ok f)
    pub settled : t ≡ no_resends after
    pub expected : (f.op ≡ op_ack) ⊎ (f.op ≡ op_resend)

  settled-Answer :
      (wire : Bytes) (s v t : Session) (g f : Framebody)
      → decode_frame hash wire s ≡ (v, ok g)
      → pure g (no_resends v) ≡ (t, ok f)
      → (g.op ≡ op_ack) ⊎ (g.op ≡ op_resend)
      → Answer f t
  settled-Answer wire s v t g f d e h =
      let state = ap (λ r. r.0) e in
      let frame = ok_injective (ap (λ r. r.1) e) in
      record {
        wire = wire;
        before = s;
        after = v;
        decoded = subst (λ x. decode_frame hash wire s ≡ (v, ok x)) frame d;
        settled = sym state;
        expected = subst (λ x. (x.op ≡ op_ack) ⊎ (x.op ≡ op_resend)) frame h;
      }

  settle_response-Answer :
      (wire : Bytes) (s v t : Session) (g f : Framebody)
      → decode_frame hash wire s ≡ (v, ok g)
      → settle_response hash (op_ack ∷ op_resend ∷ []) g v ≡ (t, ok f)
      → Answer f t
  unfolding settle_response requires_ack
  settle_response-Answer wire s v t g f d e = elim (Bool-cases (g.op == op_ack)) [
    | inl ack ↦ settled-Answer wire s v t g f d (rw ack at e) (inl (ground arith))
    | inr other ↦ elim (Bool-cases (g.op == op_resend)) [
      | inl again ↦
          settled-Answer wire s v t g f d (rw again at (rw other at e)) (inr (ground arith))
      | inr unknown ↦ let refused = rw unknown at (rw other at e) in cc
    ]
  ]

  on_requested :
      (again : ℕ → Session → Session × Result Failure Framebody) (t : Session) (f : Framebody)
      (r : Session × Result Failure ℕ)
      → step again r ≡ (t, ok f)
      → ((n : ℕ) (s : Session) → again n s ≡ (t, ok f) → Answer f t)
      → Answer f t
  on_requested again t f (s, ok n) e ih = ih n s e
  on_requested again t f (s, err x) e ih = cc

  on_decoded-Answer :
      (again : ℕ → Session → Session × Result Failure Framebody) (prev : ℕ) (wire : Bytes)
      (s t : Session) (f : Framebody) (r : Session × Result Failure Framebody)
      → decode_frame hash wire s ≡ r
      → step (on_decoded hash again prev (op_ack ∷ op_resend ∷ []) wire) (as_value r) ≡ (t, ok f)
      → ((n : ℕ) (u : Session) → again n u ≡ (t, ok f) → Answer f t)
      → Answer f t
  unfolding on_decoded
  on_decoded-Answer again prev wire s t f (v, ok g) d e ih =
      settle_response-Answer wire s v t g f d e
  on_decoded-Answer again prev wire s t f (v, err x) d e ih =
      elim (Bool-cases (is_retryable_error (sentinel x))) [
        | inl retried ↦
            on_requested again t f (request_resend hash prev wire v) (rw retried at e) ih
        | inr fatal ↦ let refused = rw fatal at e in cc
      ]

  on_read :
      (again : ℕ → Session → Session × Result Failure Framebody) (prev : ℕ) (t : Session)
      (f : Framebody) (r : Session × Result Failure Bytes)
      → step
          (λ wire. λ v.
            step
              (on_decoded hash again prev (op_ack ∷ op_resend ∷ []) wire)
              (as_value (decode_frame hash wire v)))
          (wrap_err r)
        ≡ (t, ok f)
      → ((n : ℕ) (u : Session) → again n u ≡ (t, ok f) → Answer f t)
      → Answer f t
  on_read again prev t f (v, ok wire) e ih =
      on_decoded-Answer again prev wire v t f (decode_frame hash wire v) refl e ih
  on_read again prev t f (v, err x) e ih = cc

  await_loop-Answer :
      (rounds prev : ℕ) (s t : Session) (f : Framebody)
      → await_loop hash rounds prev (op_ack ∷ op_resend ∷ []) s ≡ (t, ok f)
      → Answer f t
  unfolding await_loop
  await_loop-Answer zero prev s t f e = cc
  await_loop-Answer (suc rounds) prev s t f e =
      on_read (λ n. await_loop hash rounds n (op_ack ∷ op_resend ∷ [])) prev t f (read_frame s) e
        λ n u. await_loop-Answer rounds n u t f

  -- A wait that has a frame has an answer.
  pub await-Answer :
      (s t : Session) (f : Framebody)
      → await hash (op_ack ∷ op_resend ∷ []) s ≡ (t, ok f)
      → Answer f t
  unfolding await
  await-Answer s t f e = await_loop-Answer max_consecutive_resends 0 s t f e

  -- What is written with success is on the wire, after what was there, and nothing else changes.
  write_loop-sent :
      (events : List WriteEvent) (wire : Bytes) (s t : Session)
      → write_loop events wire s ≡ (t, ok tt)
      → (t.conn.sent ≡ s.conn.sent ++ wire)
        × (t.seq ≡ s.seq)
        × (t.consec_resends ≡ s.consec_resends)
        × (t.sent_frames ≡ s.sent_frames)
  unfolding write_loop
  write_loop-sent events [] s t e =
      let state = ap (λ r. r.0) e in rw (← state) (sym (append-nil s.conn.sent), refl, refl, refl)
  write_loop-sent [] (b ∷ bs) s t e =
      let state = ap (λ r. r.0) e in rw (← state) (refl, refl, refl, refl)
  write_loop-sent (wrote n ∷ events) (b ∷ bs) s t e =
      let (sent, next, counted, kept) = write_loop-sent events (drop n (b ∷ bs)) _ t e in
      let whole = take-append-drop n (b ∷ bs) in
      (
        sent
            ∙ (append_assoc s.conn.sent (take n (b ∷ bs)) (drop n (b ∷ bs))
                ∙ ap (λ x. s.conn.sent ++ x) whole),
        next,
        counted,
        kept,
      )
  write_loop-sent (write_closed ∷ events) (b ∷ bs) s t e = cc
  write_loop-sent (write_failed ∷ events) (b ∷ bs) s t e = cc

  -- A frame that was kept under the number asked for is on the wire once more, under the number that
  -- is next, within the bound on resends, and is kept under its new number.
  pub record Resent (seq_to_resend : ℕ) (s t : Session) (sent_seq : ℕ) : Type 0 where
    pub old : Framebody
    pub known : s.sent_frames seq_to_resend ≡ some old
    pub few : s.consec_resends ≤ 3
    pub session_open : is_closed s ≡ false
    pub room : s.seq ≢ 65535
    pub numbered : sent_seq ≡ s.seq
    pub on_wire :
        t.conn.sent ≡ s.conn.sent ++ frame_bytes hash s.hmac_secret s.seq old.op old.payload
    pub next : t.seq ≡ (s.seq + 1) % 2 ^ 16
    pub counted : t.consec_resends ≡ s.consec_resends + 1
    pub kept :
        t.sent_frames
        ≡ put_frame s.sent_frames s.seq
            (some (record { sequence = s.seq; op = old.op; payload = old.payload }))

  written-Resent :
      (seq_to_resend : ℕ) (s t : Session) (old : Framebody) (n : ℕ)
      → s.sent_frames seq_to_resend ≡ some old
      → s.consec_resends ≤ 3
      → is_closed s ≡ false
      → s.seq ≢ 65535
      → (r : Session × Result Failure (Unit {0}))
      → write_loop s.conn.writes
          (frame_bytes hash s.hmac_secret s.seq old.op old.payload)
          (record s {
            seq = (s.seq + 1) % 2 ^ 16;
            sent_frames =
                put_frame s.sent_frames s.seq
                  (some (record { sequence = s.seq; op = old.op; payload = old.payload }));
            consec_resends = s.consec_resends + 1;
          })
        ≡ r
      → step (λ _. λ u. (u, ok s.seq)) r ≡ (t, ok n)
      → Resent seq_to_resend s t n
  written-Resent seq_to_resend s t old n known few still_open room (u, ok _) w e =
      let same = ap (λ q. q.0) e in
      let number = ok_injective (ap (λ q. q.1) e) in
      let (sent, next, counted, kept) =
        write_loop-sent s.conn.writes (frame_bytes hash s.hmac_secret s.seq old.op old.payload) _ u
          w in
      rw (← same) (record {
        old = old;
        known = known;
        few = few;
        session_open = still_open;
        room = room;
        numbered = sym number;
        on_wire = sent;
        next = next;
        counted = counted;
        kept = kept;
      })
  written-Resent seq_to_resend s t old n known few still_open room (u, err x) w e = cc

  -- The session once a frame is encoded, before it is written.
  abbrev encoded : ℕ → Bytes → Session → Session
  encoded op payload s = record s {
    seq = (s.seq + 1) % 2 ^ 16;
    sent_frames =
        put_frame s.sent_frames s.seq
          (some (record { sequence = s.seq; op = op; payload = payload }));
  }

  encode_frame-encoded :
      (op : ℕ) (payload : Bytes) (s : Session)
      → is_closed s ≡ false
      → (s.seq == 65535) ≡ false
      → encode_frame hash op payload s
        ≡ (encoded op payload s, ok (frame_bytes hash s.hmac_secret s.seq op payload))
  unfolding encode_frame
  encode_frame-encoded op payload s still_open room = rw (still_open, room) refl

  encode_frame-last :
      (op : ℕ) (payload : Bytes) (s : Session)
      → is_closed s ≡ false
      → (s.seq == 65535) ≡ true
      → encode_frame hash op payload s ≡ (close s, err (bare bad_sequence))
  unfolding encode_frame
  encode_frame-last op payload s still_open last = rw (still_open, last) refl

  encode_frame-gone :
      (op : ℕ) (payload : Bytes) (s : Session)
      → is_closed s ≡ true
      → encode_frame hash op payload s ≡ (s, err (bare session_closed))
  unfolding encode_frame
  encode_frame-gone op payload s gone = rw gone refl

  -- A resend past the count of resends, by the frame that is kept.
  abbrev encode_and_write : Framebody → Session → Session × Result Failure ℕ
  encode_and_write old s =
      step (λ wire u. step (λ _ v. (v, ok s.seq)) (write_frame wire u))
        (wrap_err (encode_frame hash old.op old.payload (count_resend s)))

  resend-kept :
      (seq_to_resend : ℕ) (s : Session)
      → ltb 3 s.consec_resends ≡ false
      → resend hash seq_to_resend s
        ≡ step encode_and_write (or_invalid hash (s.sent_frames seq_to_resend) s)
  unfolding resend
  resend-kept seq_to_resend s few = rw few refl

  resend-known :
      (seq_to_resend : ℕ) (s : Session) (old : Framebody)
      → ltb 3 s.consec_resends ≡ false
      → s.sent_frames seq_to_resend ≡ some old
      → resend hash seq_to_resend s ≡ encode_and_write old s
  unfolding or_invalid
  resend-known seq_to_resend s old few known =
      resend-kept seq_to_resend s few ∙ ap (λ o. step encode_and_write (or_invalid hash o s)) known

  -- A resend that succeeds has put the frame on the wire.
  pub resend-Resent :
      (seq_to_resend : ℕ) (s t : Session) (n : ℕ)
      → resend hash seq_to_resend s ≡ (t, ok n)
      → Resent seq_to_resend s t n
  unfolding resend or_invalid write_frame
  resend-Resent seq_to_resend s t n e = elim (Bool-cases (ltb 3 s.consec_resends)) [
    | inl many ↦ let refused = rw many at e in cc
    | inr few ↦ elim (Option-cases (s.sent_frames seq_to_resend)) [
      | inl unknown ↦ let refused = rw unknown at (rw few at e) in cc
      | inr (old, known) ↦
          let go = sym (resend-known seq_to_resend s old few known) ∙ e in
          elim (Bool-cases (is_closed s)) [
            | inl gone ↦
                let refused =
                  rw (encode_frame-gone old.op old.payload (count_resend s) gone) at go in
                cc
            | inr still_open ↦ elim (Bool-cases (s.seq == 65535)) [
              | inl last ↦
                  let refused =
                    rw (encode_frame-last old.op old.payload (count_resend s) still_open last) at
                      go in
                  cc
              | inr room ↦
                  written-Resent seq_to_resend s t old n known (ground arith) still_open
                    (ground arith) _ refl
                    (rw (encode_frame-encoded old.op old.payload (count_resend s) still_open room)
                      at go)
            ]
          ]
    ]
  ]
