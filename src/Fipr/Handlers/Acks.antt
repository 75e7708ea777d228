-- ===== src/Fipr/Handlers/Acks.antt =====
-- pkg/fipr/handlers.go: what ends the wait for an acknowledgement.
use sdsyslog.Common.{
  false, ℕ, ◌↔◌, inl, inr, eq-true, zero, suc, ◌≡◌, refl, [], ◌∷◌, ◌==◌, arith, Bool-cases, Result,
  ok, err,
}
use sdsyslog.Common.Words.{Bytes, be_value}
use mathlib.Core.Path.{subst}
use sdsyslog.Fipr.{
  Session, Framebody, Failure, step, as_value, wrap_err, modify, ◌>>◌, op_ack, op_resend,
}
use sdsyslog.Fipr.Handlers.Replies.{Answer, Resent, await-Answer, resend-Resent}
use sdsyslog.Fipr.Handlers.{
  await, resend, forget, no_resends, on_response, on_awaited, await_ack_loop, await_ack,
}

module _ (hash : Bytes → Bytes → Bytes) where
  -- A wait of some rounds for the acknowledgement of a sequence number. It ends with a frame that was
  -- decoded from the wire and acknowledges the last copy sent; or with its rounds, each spent on
  -- putting a frame that was kept on the wire again, under the next sequence number.
  pub data AckRun : ℕ → Session → ℕ → Session → Type 0 where
    acked :
        {rounds expected : ℕ} {s s1 : Session} (f : Framebody)
        → await hash (op_ack ∷ op_resend ∷ []) s ≡ (s1, ok f)
        → Answer hash f s1
        → f.op ≡ op_ack
        → be_value f.payload ≡ expected
        → AckRun (suc rounds) s expected (no_resends (forget expected s1))
    resent :
        {rounds expected : ℕ} {s s1 s2 t : Session} (f : Framebody) (sent : ℕ)
        → await hash (op_ack ∷ op_resend ∷ []) s ≡ (s1, ok f)
        → Answer hash f s1
        → f.op ≡ op_resend
        → resend hash (be_value f.payload) s1 ≡ (s2, ok sent)
        → Resent hash (be_value f.payload) s1 s2 sent
        → AckRun rounds (forget expected s2) sent t
        → AckRun (suc rounds) s expected t
    unacked : {expected : ℕ} {s : Session} → AckRun zero s expected s

  AckRun-await_ack_loop :
      {rounds expected : ℕ} {s t : Session}
      → AckRun rounds s expected t
      → await_ack_loop hash rounds expected s ≡ (t, ok tt)
  unfolding await_ack_loop on_awaited on_response
  AckRun-await_ack_loop (acked {expected = x} f e _ n p) = rw e (rw n (rw (p, eq-true x)))
  AckRun-await_ack_loop (resent f sent e _ n r _ rest) =
      rw e (rw n (rw r (AckRun-await_ack_loop rest)))
  AckRun-await_ack_loop unacked = refl

  on_resent :
      (rounds expected : ℕ) (s s1 t : Session) (f : Framebody)
      → await hash (op_ack ∷ op_resend ∷ []) s ≡ (s1, ok f)
      → f.op ≡ op_resend
      → (r : Session × Result Failure ℕ) → resend hash (be_value f.payload) s1 ≡ r
      → step (λ sent. modify (forget expected) >> await_ack_loop hash rounds sent) (wrap_err r)
        ≡ (t, ok tt)
      → ((s2 : Session) (sent : ℕ)
          → await_ack_loop hash rounds sent (forget expected s2) ≡ (t, ok tt)
          → AckRun rounds (forget expected s2) sent t)
      → AckRun (suc rounds) s expected t
  on_resent rounds expected s s1 t f e n (s2, ok sent) r go ih =
      resent f sent e (await-Answer hash s s1 f e) n r
        (resend-Resent hash (be_value f.payload) s1 s2 sent r) (ih s2 sent go)
  on_resent rounds expected s s1 t f e n (s2, err x) r go ih = cc

  Answer-op_ack :
      (f : Framebody) (t : Session) → Answer hash f t → (f.op == op_resend) ≡ false → f.op ≡ op_ack
  Answer-op_ack f t answer other = elim answer.expected [
    | inl ack ↦ ack
    | inr again ↦ absurd (ground arith)
  ]

  on_frame :
      (rounds expected : ℕ) (s s1 t : Session) (f : Framebody)
      → await hash (op_ack ∷ op_resend ∷ []) s ≡ (s1, ok f)
      → on_response hash (await_ack_loop hash rounds) expected f s1 ≡ (t, ok tt)
      → ((s2 : Session) (sent : ℕ)
          → await_ack_loop hash rounds sent (forget expected s2) ≡ (t, ok tt)
          → AckRun rounds (forget expected s2) sent t)
      → AckRun (suc rounds) s expected t
  unfolding on_response
  on_frame rounds expected s s1 t f e go ih = elim (Bool-cases (f.op == op_resend)) [
    | inl again ↦
        on_resent rounds expected s s1 t f e (ground arith) (resend hash (be_value f.payload) s1)
          refl (rw again at go) ih
    | inr other ↦ elim (Bool-cases (be_value f.payload == expected)) [
      | inl same ↦
          let answer = await-Answer hash s s1 f e in
          subst (AckRun (suc rounds) s expected) (ground arith)
            (acked {rounds = rounds} f e answer (Answer-op_ack f s1 answer other) (ground arith))
      | inr wrong ↦ absurd (ground arith)
    ]
  ]

  on_result :
      (rounds expected : ℕ) (s t : Session) (r : Session × Result Failure Framebody)
      → await hash (op_ack ∷ op_resend ∷ []) s ≡ r
      → step (on_awaited hash (await_ack_loop hash rounds) expected) (as_value r) ≡ (t, ok tt)
      → ((s2 : Session) (sent : ℕ)
          → await_ack_loop hash rounds sent (forget expected s2) ≡ (t, ok tt)
          → AckRun rounds (forget expected s2) sent t)
      → AckRun (suc rounds) s expected t
  unfolding on_awaited
  on_result rounds expected s t (s1, ok f) e go ih = on_frame rounds expected s s1 t f e go ih
  on_result rounds expected s t (s1, err x) e go ih = cc

  await_ack_loop-AckRun :
      (rounds expected : ℕ) (s t : Session)
      → await_ack_loop hash rounds expected s ≡ (t, ok tt)
      → AckRun rounds s expected t
  unfolding await_ack_loop
  await_ack_loop-AckRun zero expected s t e = subst (AckRun zero s expected) (ground arith) unacked
  await_ack_loop-AckRun (suc rounds) expected s t e =
      on_result rounds expected s t (await hash (op_ack ∷ op_resend ∷ []) s) refl e
        λ s2 sent. await_ack_loop-AckRun rounds sent (forget expected s2) t

  -- awaitAck reports success exactly when a frame that was decoded from the wire, with the opcode of
  -- an acknowledgement, names the last copy that was sent; or when each of its three rounds was
  -- spent on sending again, and then no acknowledgement has come. Sending again means that the frame
  -- asked for was kept, at most three resends in a row came before, and the frame is on the wire once
  -- more under the next sequence number, and is kept under it.
  pub await_ack_iff :
      (expected : ℕ) (s t : Session)
      → (await_ack hash expected s ≡ (t, ok tt)) ↔ AckRun 3 s expected t
  unfolding await_ack
  await_ack_iff expected s t = (await_ack_loop-AckRun 3 expected s t, AckRun-await_ack_loop)
