-- ===== src/Queues/CellSizes.antt =====
-- internal/queue/mpmc/entry.go: a write of the size leaves the ring alone.
use sdsyslog.Common.{ℕ, ◌+◌, ◌≡◌, sym, ap, ◌∙◌, inl, inr, some, List, arith, Bool-cases, ◌==◌}
use sdsyslog.Queues.{Cell, QueueInst, slot, cell_at, with_cell}
use sdsyslog.Queues.Slots.{cell_at-same, cell_at-other}
use sdsyslog.Queues.Places.{IsRing, Same, cell_at-Same}
use sdsyslog.Queues.Ring.{same_seq}

module _ {ℓ} {T : Type ℓ} (q : QueueInst T) (pos size : ℕ) where
  abbrev pub sized_cell : Cell T
  sized_cell = record (cell_at q pos) { size = size }

  pub Same-sized : (p : ℕ) → Same q (with_cell q pos sized_cell) p
  Same-sized p = elim (Bool-cases (slot q p == slot q pos)) [
    | inl here ↦
        let same : slot q p ≡ slot q pos = ground arith in
        let new = cell_at-same q pos sized_cell p same in
        let old = same_seq q p pos same in
        (
          ap (λ (c : Cell T). c.seq) new ∙ sym (ap (λ (c : Cell T). c.seq) old),
          ap (λ (c : Cell T). c.item) new ∙ sym (ap (λ (c : Cell T). c.item) old),
        )
    | inr there ↦
        cell_at-Same q (with_cell q pos sized_cell) p
          (cell_at-other q pos sized_cell p (ground arith))
  ]

  pub IsRing-sized :
      (pushed : List T) → IsRing q pushed → IsRing (with_cell q pos sized_cell) pushed
  unfolding with_cell
  IsRing-sized pushed ring = record {
    big = ring.big;
    ordered = ring.ordered;
    bounded = ring.bounded;
    counted = ring.counted;
    full = λ p low high. elim (ring.full p low high) [
      | inl e ↦ inl ((Same-sized p).0 ∙ e)
      | inr (e, i) ↦ inr ((Same-sized p).0 ∙ e, i ∙ ap some (sym (Same-sized p).1))
    ];
    vacant = λ p low high. elim (ring.vacant p low high) [
      | inl e ↦ inl ((Same-sized p).0 ∙ e)
      | inr e ↦ inr (ap (λ n. n + q.capacity) (Same-sized p).0 ∙ e)
    ];
  }
