-- ===== src/Queues/Pushes.antt =====
-- internal/queue/mpmc/entry.go: each action of a producer keeps the state valid.
use sdsyslog.Common.{
  ℕ, ◌≡◌, ◌≢◌, refl, sym, ap, ◌∙◌, inl, inr, [], ◌∷◌, ◌++◌, arith, Bool-cases, ◌==◌, ltb,
}
use mathlib.Core.Path.{subst}
use sdsyslog.Queues.{
  Cell, with_cell, update, Producer, resting, starting, aiming, seen, placed, written, published,
  on_push_seq,
}
use sdsyslog.Queues.Slots.{cell_at-same, cell_at-other}
use sdsyslog.Queues.Steps.{System, after_push}
use sdsyslog.Queues.Places.{
  seq_at, item_at, Same, cell_at-Same, Reached, Filling, Fills, Takes, Pushing, Fills-numbered,
  Takes-numbered, Fills-before,
}
use sdsyslog.Queues.Ring.{
  Later-refl, Later-with_cell, numbers_apart, empty_apart, IsRing-written, written_cell,
  IsRing-published, published_cell,
}
use sdsyslog.Queues.CellSizes.{Same-sized, sized_cell, IsRing-sized}
use sdsyslog.Queues.Claims.{placed_queue, IsRing-placed, Filling-placed, Later-placed}
use sdsyslog.Queues.Valid.{IsValid, producer_moved}

module _ {ℓ} {T : Type ℓ} (s : System T) (t : ℕ) (valid : IsValid s) where
  -- A producer that writes no cell afterwards, and did not write one.
  pub push_local :
      (pc : Producer T)
      → Pushing s.queue s.pushed pc
      → ((p : ℕ) → ¬ Fills pc p)
      → IsValid (record s { producers = update s.producers t pc })
  push_local pc here none =
      producer_moved s t s.queue pc s.pushed valid valid.ring (Later-refl s.queue s.pushed) here
        (λ u p _ h. absurd (none p h)) (λ u p _ _. (refl, refl)) (λ u p _. (refl, refl))

  published-IsValid : (pos size : ℕ) → IsValid (after_push s t (published size pos))
  unfolding after_push
  published-IsValid pos size =
      let same = Same-sized s.queue pos size in
      producer_moved s t (with_cell s.queue pos (sized_cell s.queue pos size)) resting s.pushed
        valid (IsRing-sized s.queue pos size s.pushed valid.ring)
        (Later-with_cell s.queue s.pushed pos (sized_cell s.queue pos size) (omega arith)) tt
        (λ u p _ h. absurd h) (λ u p _ _. same p) (λ u p _. same p)

  module _ (pos : ℕ) (v : T) (size : ℕ) where
    -- The cells of the others are other cells.
    others_kept :
        (c : Cell T)
        → Filling s.queue s.pushed pos v
        → Fills (s.producers t) pos
        → ((u p : ℕ) → t ≢ u → Fills (s.producers u) p → Same s.queue (with_cell s.queue pos c) p)
          × ((u p : ℕ) → Takes (s.consumers u) p → Same s.queue (with_cell s.queue pos c) p)
    others_kept c f mine = (
      λ u p other h.
          let numbered = Fills-numbered s.queue s.pushed (s.producers u) p (valid.pushing u) h in
          let far : p ≢ pos = λ e.
            other (sym (valid.fillers_apart u t pos (subst (Fills (s.producers u)) e h) mine)) in
          cell_at-Same s.queue (with_cell s.queue pos c) p (
            cell_at-other s.queue pos c p
              (numbers_apart s.queue p pos p pos numbered f.numbered far)),
      λ u p h.
          let numbered = Takes-numbered s.queue s.pushed (s.consumers u) p (valid.popping u) h in
          let apart = empty_apart s.queue pos p valid.ring.big f.numbered numbered in
          cell_at-Same s.queue (with_cell s.queue pos c) p
            (cell_at-other s.queue pos c p (λ e. apart (sym e))),
    )

    -- The place is held by this producer alone.
    alone :
        Fills (s.producers t) pos
        → (u p : ℕ) → t ≢ u
        → Fills (written v size pos) p
        → ¬ Fills (s.producers u) p
    alone mine u p other e h =
        other (valid.fillers_apart t u p (subst (Fills (s.producers t)) e mine) h)

    placed-IsValid :
        s.producers t ≡ placed v size pos → IsValid (after_push s t (placed v size pos))
    unfolding after_push
    placed-IsValid e =
        let f : Filling s.queue s.pushed pos v =
          subst (Pushing s.queue s.pushed) e (valid.pushing t) in
        let mine : Fills (s.producers t) pos = subst (λ pc. Fills pc pos) (sym e) refl in
        let c = written_cell s.queue s.pushed pos v valid.ring in
        let later = Later-with_cell s.queue s.pushed pos c (omega arith) in
        let (fills, takes) = others_kept c f mine in
        let new = cell_at-same s.queue pos c pos refl in
        producer_moved s t (with_cell s.queue pos c) (written v size pos) s.pushed valid
          (IsRing-written s.queue s.pushed pos v valid.ring f) later
          (
            record {
              numbered = ap (λ (c : Cell T). c.seq) new ∙ f.numbered;
              behind = f.behind;
              recorded = f.recorded;
            },
            ap (λ (c : Cell T). c.item) new,
          )
          (alone mine) fills takes

    written-IsValid :
        s.producers t ≡ written v size pos → IsValid (after_push s t (written v size pos))
    unfolding after_push
    written-IsValid e =
        let (f, w) : Filling s.queue s.pushed pos v × (item_at s.queue pos ≡ v) =
          subst (Pushing s.queue s.pushed) e (valid.pushing t) in
        let mine : Fills (s.producers t) pos = subst (λ pc. Fills pc pos) (sym e) refl in
        let c = published_cell s.queue s.pushed pos v valid.ring in
        let later = Later-with_cell s.queue s.pushed pos c (omega (arith, f.numbered)) in
        let (fills, takes) = others_kept c f mine in
        producer_moved s t (with_cell s.queue pos c) (published size pos) s.pushed valid
          (IsRing-published s.queue s.pushed pos v valid.ring f w) later tt (λ u p _ h. absurd h)
          fills takes

    aiming-IsValid : IsValid (after_push s t (aiming v size pos))
    unfolding after_push on_push_seq
    aiming-IsValid = elim (Bool-cases (seq_at s.queue pos == pos)) [
      | inl same ↦
          let number : seq_at s.queue pos ≡ pos = ground arith in
          rw same (push_local (seen v size pos) (record { reached = omega arith }) (λ p h. h))
      | inr other ↦ elim (Bool-cases (ltb (seq_at s.queue pos) pos)) [
        | inl behind ↦ rw (other, behind) (push_local resting tt (λ p h. h))
        | inr ahead ↦ rw (other, ahead) (push_local (starting v size) tt (λ p h. h))
      ]
    ]

    seen-IsValid : s.producers t ≡ seen v size pos → IsValid (after_push s t (seen v size pos))
    unfolding after_push
    seen-IsValid e = elim (Bool-cases (s.queue.tail == pos)) [
      | inl same ↦
          let here : s.queue.tail ≡ pos = ground arith in
          let r : Reached s.queue pos pos = subst (Pushing s.queue s.pushed) e (valid.pushing t) in
          let fresh : (u p : ℕ) → t ≢ u → Fills (placed v size pos) p → ¬ Fills (s.producers u) p =
            λ u p _ k h.
              let below = Fills-before s.queue s.pushed (s.producers u) p (valid.pushing u) h in
              omega (arith, below, here, k) in
          rw same (
            producer_moved s t (placed_queue s.queue s.pushed pos valid.ring) (placed v size pos)
              (s.pushed ++ v ∷ []) valid (IsRing-placed s.queue s.pushed pos valid.ring v here r)
              (Later-placed s.queue s.pushed pos valid.ring v here)
              (Filling-placed s.queue s.pushed pos valid.ring v here r) fresh
              (λ u p _ _. (refl, refl)) (λ u p _. (refl, refl)))
      | inr other ↦ rw other (push_local (starting v size) tt (λ p h. h))
    ]

  pub after_push-IsValid : (pc : Producer T) → s.producers t ≡ pc → IsValid (after_push s t pc)
  unfolding after_push
  after_push-IsValid resting e = push_local resting tt (λ p h. h)
  after_push-IsValid (starting v size) e = push_local (aiming v size s.queue.tail) tt (λ p h. h)
  after_push-IsValid (aiming v size pos) e = aiming-IsValid pos v size
  after_push-IsValid (seen v size pos) e = seen-IsValid pos v size e
  after_push-IsValid (placed v size pos) e = placed-IsValid pos v size e
  after_push-IsValid (written v size pos) e = written-IsValid pos v size e
  after_push-IsValid (published size pos) e = published-IsValid pos size
