-- ===== src/Queues/Order.antt =====
-- internal/queue/mpmc/entry.go: every state that is reached is valid, and what follows of its values.
use sdsyslog.Common.{
  ℕ, zero, suc, ◌-◌, ◌<◌, ◌≤◌, ◌≡◌, not, refl, ap, inl, some, List, [], ◌∷◌, ◌++◌, length,
  get_elem?, drop, length-drop, some_injective, arith, ◌==◌, ltb, All, ok, Yields, good,
  Yields-bind, Yields-guard, Yields-eq_ok,
}
use Prim.Native.Nat.{bit_and}
use native.Mathlib.Nat.{mod-eq_of_lt}
use sdsyslog.Queues.{
  QueueInst, no_power_of_two, too_small, new_queue_inst, fresh_inst, slot, cell_at, starting, idle,
  polling,
}
use sdsyslog.Queues.Steps.{
  System, started, Step, pushes, pops, push_called, pop_called, cancelled, Reach, start, step,
}
use sdsyslog.Queues.Places.{IsRing, Fills, Takes}
use sdsyslog.Queues.Valid.{IsValid, Once}
use sdsyslog.Queues.Pushes.{push_local, after_push-IsValid}
use sdsyslog.Queues.Pops.{pop_local, after_pop-IsValid}

module _ {ℓ} {T : Type ℓ} where
  fresh_inst-IsRing :
      (zero_value : T) (capacity : ℕ) → 2 ≤ capacity → IsRing (fresh_inst zero_value capacity) []
  unfolding cell_at slot
  fresh_inst-IsRing zero_value capacity big = record {
    big = big;
    ordered = omega arith;
    bounded = omega arith;
    counted = refl;
    full = λ p low high. absurd (omega arith);
    vacant = λ p low high. let below : p < capacity = omega arith in inl (mod-eq_of_lt below);
  }

  -- A new queue is empty, and its cells are numbered from 0 on.
  new_queue_inst-IsRing :
      (zero_value : T) (capacity : ℕ)
      → Yields (λ q. IsRing q []) (new_queue_inst zero_value capacity)
  unfolding new_queue_inst
  new_queue_inst-IsRing zero_value capacity =
      Yields-bind (Yields-guard (bit_and capacity (capacity - 1) == 0) no_power_of_two) λ _ _.
        Yields-bind (Yields-guard (not (ltb capacity 2)) too_small)
          λ _ big. good (fresh_inst-IsRing zero_value capacity (ground arith))

  start-IsValid :
      (zero_value : T) (capacity : ℕ) (q : QueueInst T)
      → new_queue_inst zero_value capacity ≡ ok q
      → IsValid (started q)
  start-IsValid zero_value capacity q e = record {
    ring = Yields-eq_ok (new_queue_inst-IsRing zero_value capacity) e;
    pushing = λ t. tt;
    popping = λ t. tt;
    fillers_apart = λ t u p h k. absurd h;
    takers_apart = λ t u p h k. absurd h;
    logged = tt;
    once = tt;
    untaken = λ t p h. tt;
  }

  Step-IsValid : {s t : System T} → Step s t → IsValid s → IsValid t
  Step-IsValid (pushes s t) v = after_push-IsValid s t v (s.producers t) refl
  Step-IsValid (pops s t) v = after_pop-IsValid s t v (s.consumers t) refl
  Step-IsValid (push_called s t x size e) v = push_local s t v (starting x size) tt (λ p h. h)
  Step-IsValid (pop_called s t e) v = pop_local s t v polling tt (λ p h. absurd h)
  Step-IsValid (cancelled s t e) v = pop_local s t v idle tt (λ p h. absurd h)

  pub Reach-IsValid : {s : System T} → Reach s → IsValid s
  Reach-IsValid (start zero_value capacity q e) = start-IsValid zero_value capacity q e
  Reach-IsValid (step r st) = Step-IsValid st (Reach-IsValid r)

  All-recorded :
      (q : QueueInst T) (pushed : List T) (log : List (ℕ × T))
      → All (λ e. (e.0 < q.head) × (get_elem? pushed e.0 ≡ some e.1)) log
      → All (λ e. get_elem? pushed e.0 ≡ some e.1) log
  All-recorded q pushed [] h = tt
  All-recorded q pushed (e ∷ log) ((below, there), hs) = (there, All-recorded q pushed log hs)

  -- The values that are pushed and not yet taken.
  abbrev pub waiting : System T → List T
  waiting s = drop s.queue.head s.pushed

  -- In every state that producers and consumers reach, in whatever order their actions come: no more
  -- values wait than the queue has cells, no place is given to two producers or to two consumers, and
  -- what was popped are the values that were pushed, each at its position, and each at most once.
  pub Reach-Once :
      {s : System T}
      → Reach s
      → (length (waiting s) ≤ s.queue.capacity)
        × ((t u p : ℕ) → Fills (s.producers t) p → Fills (s.producers u) p → t ≡ u)
        × ((t u p : ℕ) → Takes (s.consumers t) p → Takes (s.consumers u) p → t ≡ u)
        × All (λ e. get_elem? s.pushed e.0 ≡ some e.1) s.popped
        × Once s.popped
  Reach-Once {s} r =
      let v = Reach-IsValid r in
      let ring = v.ring in
      let counted = ring.counted in
      let bounded = ring.bounded in
      (
        omega (arith, length-drop s.queue.head s.pushed),
        v.fillers_apart,
        v.takers_apart,
        All-recorded s.queue s.pushed s.popped v.logged,
        v.once,
      )

  pub drop-append_before :
      (n : ℕ) (xs ys : List T) → n ≤ length xs → drop n (xs ++ ys) ≡ drop n xs ++ ys
  drop-append_before zero xs ys h = refl
  drop-append_before (suc n) [] ys h = absurd (omega arith)
  drop-append_before (suc n) (x ∷ xs) ys h = drop-append_before n xs ys (omega arith)

  pub drop-get_elem? :
      (n : ℕ) (xs : List T) (v : T) → get_elem? xs n ≡ some v → drop n xs ≡ v ∷ drop (suc n) xs
  drop-get_elem? n [] v e = cc
  drop-get_elem? zero (x ∷ xs) v e = ap (λ k. k ∷ xs) (some_injective e)
  drop-get_elem? (suc n) (x ∷ xs) v e = drop-get_elem? n xs v e
