-- ===== src/Queues/Slots.antt =====
-- internal/queue/mpmc/entry.go: the cells of the positions, and what a write to one leaves of the
-- others.
use sdsyslog.Common.{
  ℕ, suc, ◌+◌, ◌%◌, ◌<◌, ◌≤◌, ◌≡◌, ◌≢◌, ap, ◌∙◌, inl, inr, Bool-cases, ◌==◌, arith,
}
use native.Mathlib.Nat.{suc-mod, mod-lt, mod_self, mod-eq_of_lt, add-mod_right}
use sdsyslog.Queues.{Cell, QueueInst, update, slot, cell_at, with_cell}

module _ {ℓ} {T : Type ℓ} where
  pub slot_round : (q : QueueInst T) (pos : ℕ) → slot q (pos + q.capacity) ≡ slot q pos
  unfolding slot
  slot_round q pos = add-mod_right pos q.capacity

  -- The next position has another cell.
  pub slot-suc : (q : QueueInst T) (pos : ℕ) → 2 ≤ q.capacity → slot q (suc pos) ≢ slot q pos
  unfolding slot
  slot-suc q pos big same =
      let some_cells : 0 < q.capacity = omega arith in
      let bound = mod-lt pos some_cells in
      let step = suc-mod pos q.capacity in
      elim (Bool-cases (suc (pos % q.capacity) == q.capacity)) [
        | inl last ↦
            let full : suc (pos % q.capacity) ≡ q.capacity = ground arith in
            let round : suc (pos % q.capacity) % q.capacity ≡ 0 =
              ap (λ k. k % q.capacity) full ∙ mod_self q.capacity in
            omega arith
        | inr inside ↦
            let small : suc (pos % q.capacity) < q.capacity = ground arith in
            let plain = mod-eq_of_lt small in omega arith
      ]

  pub cell_at-same :
      (q : QueueInst T) (pos : ℕ) (c : Cell T) (p : ℕ)
      → slot q p ≡ slot q pos
      → cell_at (with_cell q pos c) p ≡ c
  unfolding cell_at with_cell update
  cell_at-same q pos c p same = ground (arith, same)

  pub cell_at-other :
      (q : QueueInst T) (pos : ℕ) (c : Cell T) (p : ℕ)
      → slot q p ≢ slot q pos
      → cell_at (with_cell q pos c) p ≡ cell_at q p
  unfolding cell_at with_cell update
  cell_at-other q pos c p other = ground (arith, other)
