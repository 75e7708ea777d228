-- ===== src/Queues/Ring.antt =====
-- internal/queue/mpmc/entry.go: what each action does to the ring.
use sdsyslog.Common.{
  ℕ, suc, ◌+◌, ◌≤◌, ◌≡◌, ◌≢◌, refl, sym, ap, ◌∙◌, inl, inr, some, List, get_elem?, arith,
  Bool-cases, ◌==◌,
}
use mathlib.Core.Path.{subst}
use sdsyslog.Queues.{Cell, QueueInst, slot, cell_at, with_cell}
use sdsyslog.Queues.Slots.{slot_round, slot-suc, cell_at-same, cell_at-other}
use sdsyslog.Queues.Places.{seq_at, item_at, IsRing, Later, Filling, Taking}

module _ {ℓ} {T : Type ℓ} where
  pub Later-refl : (q : QueueInst T) (pushed : List T) → Later q pushed q pushed
  Later-refl q pushed = record {
    seq_grows = λ p. omega arith;
    head_grows = omega arith;
    tail_grows = omega arith;
    longer = λ p v e. e;
  }

  pub same_seq : (q : QueueInst T) (p pos : ℕ) → slot q p ≡ slot q pos → cell_at q p ≡ cell_at q pos
  unfolding cell_at
  same_seq q p pos e = ap q.buf e

  -- Cells of different numbers are different.
  pub numbers_apart :
      (q : QueueInst T) (p pos n m : ℕ)
      → seq_at q p ≡ n
      → seq_at q pos ≡ m
      → n ≢ m
      → slot q p ≢ slot q pos
  numbers_apart q p pos n m e f other same =
      let equal = ap (λ (c : Cell T). c.seq) (same_seq q p pos same) in other (sym e ∙ equal ∙ f)

  -- A cell that is empty for one position is not the one that is full for another.
  pub empty_apart :
      (q : QueueInst T) (p pos : ℕ)
      → 2 ≤ q.capacity
      → seq_at q p ≡ p
      → seq_at q pos ≡ suc pos
      → slot q p ≢ slot q pos
  empty_apart q p pos big e f same =
      let equal = ap (λ (c : Cell T). c.seq) (same_seq q p pos same) in
      let next : p ≡ suc pos = sym e ∙ equal ∙ f in
      slot-suc q pos big (subst (λ k. slot q k ≡ slot q pos) next same)

  pub Later-with_cell :
      (q : QueueInst T) (pushed : List T) (pos : ℕ) (c : Cell T)
      → seq_at q pos ≤ c.seq
      → Later q pushed (with_cell q pos c) pushed
  unfolding with_cell
  Later-with_cell q pushed pos c h = record {
    seq_grows = λ p. elim (Bool-cases (slot q p == slot q pos)) [
      | inl here ↦
          let same : slot q p ≡ slot q pos = ground arith in
          let new = ap (λ (c : Cell T). c.seq) (cell_at-same q pos c p same) in
          let old = ap (λ (c : Cell T). c.seq) (same_seq q p pos same) in omega arith
      | inr there ↦
          let other : slot q p ≢ slot q pos = ground arith in
          let kept = ap (λ (c : Cell T). c.seq) (cell_at-other q pos c p other) in omega arith
    ];
    head_grows = omega arith;
    tail_grows = omega arith;
    longer = λ p v e. e;
  }

  -- A cell that is still full for the round before is not the one that is empty for a position.
  stale_apart :
      (q : QueueInst T) (p pos : ℕ)
      → 2 ≤ q.capacity
      → seq_at q p + q.capacity ≡ suc p
      → seq_at q pos ≡ pos
      → slot q p ≢ slot q pos
  stale_apart q p pos big e f same =
      let equal = ap (λ (c : Cell T). c.seq) (same_seq q p pos same) in
      let next : suc p ≡ pos + q.capacity = omega (arith, equal, e, f) in
      slot-suc q p big (ap (slot q) next ∙ slot_round q pos ∙ sym same)

  module _ (q : QueueInst T) (pushed : List T) (pos : ℕ) (v : T) (ring : IsRing q pushed) where
    abbrev pub written_cell : Cell T
    written_cell = record (cell_at q pos) { item = v }

    -- The data are written, or any that leaves the numbers alone.
    pub IsRing-written : Filling q pushed pos v → IsRing (with_cell q pos written_cell) pushed
    unfolding with_cell
    IsRing-written f =
        let kept = λ (p : ℕ) (h : slot q p ≢ slot q pos). cell_at-other q pos written_cell p h in
        let seq_kept : (p : ℕ) → seq_at (with_cell q pos written_cell) p ≡ seq_at q p = λ p.
          elim (Bool-cases (slot q p == slot q pos)) [
            | inl here ↦
                let same : slot q p ≡ slot q pos = ground arith in
                ap (λ (c : Cell T). c.seq) (cell_at-same q pos written_cell p same ∙ refl)
                ∙ sym (ap (λ (c : Cell T). c.seq) (same_seq q p pos same))
            | inr there ↦ ap (λ (c : Cell T). c.seq) (kept p (ground arith))
          ] in
        record {
          big = ring.big;
          ordered = ring.ordered;
          bounded = ring.bounded;
          counted = ring.counted;
          full = λ p low high. elim (ring.full p low high) [
            | inl e ↦ inl (seq_kept p ∙ e)
            | inr (e, i) ↦
                let apart = empty_apart q pos p ring.big f.numbered e in
                let same = kept p (λ k. apart (sym k)) in
                inr (seq_kept p ∙ e, i ∙ ap (λ (c : Cell T). some c.item) (sym same))
          ];
          vacant = λ p low high. elim (ring.vacant p low high) [
            | inl e ↦ inl (seq_kept p ∙ e)
            | inr e ↦ inr (ap (λ n. n + q.capacity) (seq_kept p) ∙ e)
          ];
        }

    abbrev pub published_cell : Cell T
    published_cell = record (cell_at q pos) { seq = suc pos }

    pub IsRing-published :
        Filling q pushed pos v → item_at q pos ≡ v → IsRing (with_cell q pos published_cell) pushed
    unfolding with_cell
    IsRing-published f w =
        let kept = λ (p : ℕ) (h : slot q p ≢ slot q pos). cell_at-other q pos published_cell p h in
        record {
          big = ring.big;
          ordered = ring.ordered;
          bounded = ring.bounded;
          counted = ring.counted;
          full = λ p low high. elim (Bool-cases (p == pos)) [
            | inl here ↦
                let same : p ≡ pos = ground arith in
                let new = cell_at-same q pos published_cell p (ap (slot q) same) in
                inr (
                  ap (λ (c : Cell T). c.seq) new ∙ ap suc (sym same),
                  ap (get_elem? pushed) same
                      ∙ f.recorded
                      ∙ ap some (sym w)
                      ∙ ap (λ (c : Cell T). some c.item) (sym new),
                )
            | inr there ↦
                let other : p ≢ pos = ground arith in
                elim (ring.full p low high) [
                  | inl e ↦
                      let same = kept p (numbers_apart q p pos p pos e f.numbered other) in
                      inl (ap (λ (c : Cell T). c.seq) same ∙ e)
                  | inr (e, i) ↦
                      let apart = empty_apart q pos p ring.big f.numbered e in
                      let same = kept p (λ k. apart (sym k)) in
                      inr (
                        ap (λ (c : Cell T). c.seq) same ∙ e,
                        i ∙ ap (λ (c : Cell T). some c.item) (sym same),
                      )
                ]
          ];
          vacant = λ p low high.
              let behind = f.behind in
              let other : p ≢ pos = λ k. omega arith in
              elim (ring.vacant p low high) [
                | inl e ↦
                    let same = kept p (numbers_apart q p pos p pos e f.numbered other) in
                    inl (ap (λ (c : Cell T). c.seq) same ∙ e)
                | inr e ↦
                    let same = kept p (stale_apart q p pos ring.big e f.numbered) in
                    inr (ap (λ (c : Cell T). c.seq + q.capacity) same ∙ e)
              ];
        }

    abbrev pub released_cell : Cell T
    released_cell = record (cell_at q pos) { seq = pos + q.capacity }

    pub IsRing-released : Taking q pushed pos v → IsRing (with_cell q pos released_cell) pushed
    unfolding with_cell
    IsRing-released f =
        let kept = λ (p : ℕ) (h : slot q p ≢ slot q pos). cell_at-other q pos released_cell p h in
        let passed = f.passed in
        record {
          big = ring.big;
          ordered = ring.ordered;
          bounded = ring.bounded;
          counted = ring.counted;
          full = λ p low high. elim (ring.full p low high) [
            | inl e ↦
                let same = kept p (empty_apart q p pos ring.big e f.numbered) in
                inl (ap (λ (c : Cell T). c.seq) same ∙ e)
            | inr (e, i) ↦
                let other : suc p ≢ suc pos = λ k. omega arith in
                let same = kept p (numbers_apart q p pos (suc p) (suc pos) e f.numbered other) in
                inr (
                  ap (λ (c : Cell T). c.seq) same ∙ e,
                  i ∙ ap (λ (c : Cell T). some c.item) (sym same),
                )
          ];
          vacant = λ p low high. elim (ring.vacant p low high) [
            | inl e ↦
                let same = kept p (empty_apart q p pos ring.big e f.numbered) in
                inl (ap (λ (c : Cell T). c.seq) same ∙ e)
            | inr e ↦ elim (Bool-cases (p == pos + q.capacity)) [
              | inl here ↦
                  let same : p ≡ pos + q.capacity = ground arith in
                  let new =
                    cell_at-same q pos released_cell p (ap (slot q) same ∙ slot_round q pos) in
                  inl (ap (λ (c : Cell T). c.seq) new ∙ sym same)
              | inr there ↦
                  let far : p ≢ pos + q.capacity = ground arith in
                  let other : seq_at q p ≢ suc pos = λ k. far (omega (arith, e, k)) in
                  let same =
                    kept p (numbers_apart q p pos (seq_at q p) (suc pos) refl f.numbered other) in
                  inr (ap (λ (c : Cell T). c.seq + q.capacity) same ∙ e)
            ]
          ];
        }
