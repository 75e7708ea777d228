-- ===== src/Queues/Pops.antt =====
-- internal/queue/mpmc/entry.go: each action of a consumer keeps the state valid.
use sdsyslog.Common.{ℕ, suc, ◌≡◌, ◌≢◌, refl, sym, inl, inr, ◌∷◌, arith, Bool-cases, ◌==◌}
use mathlib.Core.Path.{subst}
use sdsyslog.Queues.{
  with_cell, update, Consumer, idle, polling, probing, ready, claimed, taken, released, on_pop_seq,
}
use sdsyslog.Queues.Slots.{cell_at-other}
use sdsyslog.Queues.Steps.{System, after_pop}
use sdsyslog.Queues.Places.{
  seq_at, item_at, Same, cell_at-Same, Reached, Taking, Fills, Takes, Popping, Fills-numbered,
  Takes-numbered, Takes-before,
}
use sdsyslog.Queues.Ring.{
  Later-refl, Later-with_cell, numbers_apart, empty_apart, IsRing-released, released_cell,
}
use sdsyslog.Queues.CellSizes.{Same-sized, sized_cell, IsRing-sized}
use sdsyslog.Queues.Claims.{taken_queue, IsRing-taken, Taking-taken, Later-taken}
use sdsyslog.Queues.Valid.{IsValid, Untaken, Untaken-head, update-cases, consumer_moved}

module _ {ℓ} {T : Type ℓ} (s : System T) (t : ℕ) (valid : IsValid s) where
  -- A consumer that leaves the queue alone, and takes nothing that it did not take before.
  pub pop_local :
      (pc : Consumer T)
      → Popping s.queue s.pushed pc
      → ((p : ℕ) → Takes pc p → Takes (s.consumers t) p)
      → IsValid (record s { consumers = update s.consumers t pc })
  pop_local pc here old =
      consumer_moved s t s.queue pc valid valid.ring (Later-refl s.queue s.pushed) here
        (λ u p other h k. other (valid.takers_apart t u p (old p h) k))
        (λ p h. valid.untaken t p (old p h)) (λ u p _. (refl, refl)) (λ u p _ _. (refl, refl))

  probing-IsValid : (pos : ℕ) → IsValid (after_pop s t (probing pos))
  unfolding after_pop on_pop_seq
  probing-IsValid pos = elim (Bool-cases (seq_at s.queue pos == suc pos)) [
    | inl same ↦
        let number : seq_at s.queue pos ≡ suc pos = ground arith in
        rw same (pop_local (ready pos) (record { reached = omega arith }) (λ p h. absurd h))
    | inr other ↦ rw other (pop_local polling tt (λ p h. absurd h))
  ]

  ready-IsValid : (pos : ℕ) → s.consumers t ≡ ready pos → IsValid (after_pop s t (ready pos))
  unfolding after_pop
  ready-IsValid pos e = elim (Bool-cases (s.queue.head == pos)) [
    | inl same ↦
        let here : s.queue.head ≡ pos = ground arith in
        let r : Reached s.queue pos (suc pos) =
          subst (Popping s.queue s.pushed) e (valid.popping t) in
        let fresh : (u p : ℕ) → t ≢ u → Takes {T = T} (claimed pos) p → ¬ Takes (s.consumers u) p =
          λ u p _ k h.
            let below = Takes-before s.queue s.pushed (s.consumers u) p (valid.popping u) h in
            omega (arith, below, here, k) in
        let new : (p : ℕ) → Takes {T = T} (claimed pos) p → Untaken p s.popped =
          λ p k. Untaken-head s.queue s.pushed s.popped valid.logged p (omega (arith, here, k)) in
        rw same (
          consumer_moved s t (taken_queue s.queue s.pushed pos valid.ring) (claimed pos) valid
            (IsRing-taken s.queue s.pushed pos valid.ring here r)
            (Later-taken s.queue s.pushed pos valid.ring here)
            (Taking-taken s.queue s.pushed pos valid.ring here r) fresh new (λ u p _. (refl, refl))
            (λ u p _ _. (refl, refl)))
    | inr other ↦ rw other (pop_local polling tt (λ p h. absurd h))
  ]

  claimed-IsValid : (pos : ℕ) → s.consumers t ≡ claimed pos → IsValid (after_pop s t (claimed pos))
  unfolding after_pop
  claimed-IsValid pos e =
      let f : Taking s.queue s.pushed pos (item_at s.queue pos) =
        subst (Popping s.queue s.pushed) e (valid.popping t) in
      pop_local (taken pos (item_at s.queue pos)) f (λ p h. subst (λ pc. Takes pc p) (sym e) h)

  taken-IsValid :
      (pos : ℕ) (v : T) → s.consumers t ≡ taken pos v → IsValid (after_pop s t (taken pos v))
  unfolding after_pop
  taken-IsValid pos v e =
      let f : Taking s.queue s.pushed pos v =
        subst (Popping s.queue s.pushed) e (valid.popping t) in
      let mine : Takes (s.consumers t) pos = subst (λ pc. Takes pc pos) (sym e) refl in
      let c = released_cell s.queue s.pushed pos v valid.ring in
      let q = with_cell s.queue pos c in
      let big = valid.ring.big in
      let later = Later-with_cell s.queue s.pushed pos c (omega (arith, f.numbered)) in
      let fills : (u p : ℕ) → Fills (s.producers u) p → Same s.queue q p = λ u p h.
        let numbered = Fills-numbered s.queue s.pushed (s.producers u) p (valid.pushing u) h in
        cell_at-Same s.queue q p
          (cell_at-other s.queue pos c p (empty_apart s.queue p pos big numbered f.numbered)) in
      let takes : (u p : ℕ) → t ≢ u → Takes (s.consumers u) p → Same s.queue q p = λ u p other h.
        let numbered = Takes-numbered s.queue s.pushed (s.consumers u) p (valid.popping u) h in
        let far : suc p ≢ suc pos = λ k. other (
          sym (
            valid.takers_apart u t pos (subst (Takes (s.consumers u)) (omega (arith, k)) h)
              mine)) in
        cell_at-Same s.queue q p (
          cell_at-other s.queue pos c p
            (numbers_apart s.queue p pos (suc p) (suc pos) numbered f.numbered far)) in
      let moved =
        consumer_moved s t q (released pos) valid
          (IsRing-released s.queue s.pushed pos v valid.ring f) later tt (λ u p _ h. absurd h)
          (λ p h. absurd h) fills takes in
      record {
        ring = moved.ring;
        pushing = moved.pushing;
        popping = moved.popping;
        fillers_apart = moved.fillers_apart;
        takers_apart = moved.takers_apart;
        logged = ((f.passed, f.recorded), moved.logged);
        once = (valid.untaken t pos mine, valid.once);
        untaken =
            update-cases s.consumers t (released pos)
              (λ u x. (p : ℕ) → Takes x p → Untaken p ((pos, v) ∷ s.popped)) (λ p h. absurd h)
              (λ u other p h. (
                (λ k.
                    other
                      (valid.takers_apart t u pos mine (subst (Takes (s.consumers u)) (sym k) h))),
                valid.untaken u p h,
              ));
      }

  released-IsValid : (pos : ℕ) → IsValid (after_pop s t (released pos))
  unfolding after_pop
  released-IsValid pos =
      let same = Same-sized s.queue pos 0 in
      consumer_moved s t (with_cell s.queue pos (sized_cell s.queue pos 0)) idle valid
        (IsRing-sized s.queue pos 0 s.pushed valid.ring)
        (Later-with_cell s.queue s.pushed pos (sized_cell s.queue pos 0) (omega arith)) tt
        (λ u p _ h. absurd h) (λ p h. absurd h) (λ u p _. same p) (λ u p _ _. same p)

  pub after_pop-IsValid : (pc : Consumer T) → s.consumers t ≡ pc → IsValid (after_pop s t pc)
  unfolding after_pop
  after_pop-IsValid idle e = pop_local idle tt (λ p h. absurd h)
  after_pop-IsValid polling e = pop_local (probing s.queue.head) tt (λ p h. absurd h)
  after_pop-IsValid (probing pos) e = probing-IsValid pos
  after_pop-IsValid (ready pos) e = ready-IsValid pos e
  after_pop-IsValid (claimed pos) e = claimed-IsValid pos e
  after_pop-IsValid (taken pos v) e = taken-IsValid pos v e
  after_pop-IsValid (released pos) e = released-IsValid pos
