-- ===== src/Queues/Fifo.antt =====
-- internal/queue/mpmc/entry.go: the bounded queue that the ring makes, first in, first out, with the
-- values that its consumers return.
use sdsyslog.Common.{
  ℕ, suc, ◌<◌, ◌≡◌, ◌≢◌, refl, sym, ap, ◌∙◌, inl, inr, Option, none, some, List, [], ◌∷◌, ◌++◌, map,
  length, get_elem?, get_elem?-append, length-drop, drop, eq-true, arith, Bool-cases, ◌==◌,
}
use mathlib.Core.Path.{subst}
use sdsyslog.Queues.{
  QueueInst, cell_at, with_cell, update, Producer, resting, starting, aiming, seen, placed, written,
  published, Consumer, idle, polling, probing, ready, claimed, taken, released, on_pop_seq,
}
use sdsyslog.Queues.Steps.{
  System, after_push, after_pop, Step, pushes, pops, push_called, pop_called, cancelled, Reach,
}
use sdsyslog.Queues.Places.{item_at, seq_at, Taking, Reached, Pushing, Popping}
use sdsyslog.Queues.Claims.{head-full, tail-room}
use sdsyslog.Queues.Valid.{IsValid, update-cases}
use sdsyslog.Queues.Order.{waiting, Reach-IsValid, drop-append_before, drop-get_elem?}

update_self {ℓ} : {A : Type ℓ} (f : ℕ → A) (i : ℕ) (a : A) → update f i a i ≡ a
unfolding update
update_self f i a = rw (eq-true i)

-- A queue of values, with what each consumer has taken from it and not yet returned, and what was
-- returned, the last first.
pub record Fifo {ℓ} (T : Type ℓ) : Type ℓ where
  pub queue : List T
  pub held : ℕ → Option T
  pub returned : List T

module _ {ℓ} {T : Type ℓ} where
  -- What a bounded queue does: nothing, take a value in at its end where there is room, give its first
  -- value to a consumer that has none, and let a consumer return the value that it was given.
  pub data FifoStep (capacity : ℕ) (a b : Fifo T) : Type ℓ where
    stays :
        b.queue ≡ a.queue
        → ((u : ℕ) → b.held u ≡ a.held u)
        → b.returned ≡ a.returned
        → FifoStep capacity a b
    enqueues :
        (v : T)
        → length a.queue < capacity
        → b.queue ≡ a.queue ++ v ∷ []
        → ((u : ℕ) → b.held u ≡ a.held u)
        → b.returned ≡ a.returned
        → FifoStep capacity a b
    dequeues :
        (u : ℕ) (v : T)
        → a.queue ≡ v ∷ b.queue
        → a.held u ≡ none
        → b.held u ≡ some v
        → ((w : ℕ) → u ≢ w → b.held w ≡ a.held w)
        → b.returned ≡ a.returned
        → FifoStep capacity a b
    returns :
        (u : ℕ) (v : T)
        → b.queue ≡ a.queue
        → a.held u ≡ some v
        → b.held u ≡ none
        → ((w : ℕ) → u ≢ w → b.held w ≡ a.held w)
        → b.returned ≡ v ∷ a.returned
        → FifoStep capacity a b

  -- The value of a consumer: the one that was pushed at its position, until it has read one.
  abbrev pub held_by : List T → Consumer T → Option T
  held_by pushed idle = none
  held_by pushed polling = none
  held_by pushed (probing pos) = none
  held_by pushed (ready pos) = none
  held_by pushed (claimed pos) = get_elem? pushed pos
  held_by pushed (taken pos v) = some v
  held_by pushed (released pos) = none

  abbrev pub fifo_of : System T → Fifo T
  fifo_of s = record {
    queue = waiting s;
    held = λ u. held_by s.pushed (s.consumers u);
    returned = map (λ e. e.1) s.popped;
  }

  -- A place that is given leaves the consumers their values.
  held_by-append :
      (q : QueueInst T) (pushed : List T) (v : T) (pc : Consumer T)
      → Popping q pushed pc
      → held_by (pushed ++ v ∷ []) pc ≡ held_by pushed pc
  held_by-append q pushed v idle h = refl
  held_by-append q pushed v polling h = refl
  held_by-append q pushed v (probing pos) h = refl
  held_by-append q pushed v (ready pos) h = refl
  held_by-append q pushed v (claimed pos) h =
      get_elem?-append pushed (v ∷ []) pos (item_at q pos) h.recorded ∙ sym h.recorded
  held_by-append q pushed v (taken pos w) h = refl
  held_by-append q pushed v (released pos) h = refl

  module _ (s : System T) (t : ℕ) (valid : IsValid s) where
    -- A consumer moves, with the same value as before, and the queue stays.
    consumer_stays :
        (pc next : Consumer T) (q : QueueInst T)
        → s.consumers t ≡ pc
        → q.head ≡ s.queue.head
        → held_by s.pushed next ≡ held_by s.pushed pc
        → FifoStep s.queue.capacity
            (fifo_of s)
            (fifo_of (record s { queue = q; consumers = update s.consumers t next }))
    consumer_stays pc next q e head same =
        stays (ap (λ n. drop n s.pushed) head)
          (update-cases s.consumers t next
            (λ u x. held_by s.pushed x ≡ held_by s.pushed (s.consumers u))
            (same ∙ sym (ap (held_by s.pushed) e)) (λ u _. refl))
          refl

    others_hold :
        (next : Consumer T) (w : ℕ)
        → t ≢ w
        → held_by s.pushed (update s.consumers t next w) ≡ held_by s.pushed (s.consumers w)
    others_hold next w =
        update-cases s.consumers t next
          (λ u x. t ≢ u → held_by s.pushed x ≡ held_by s.pushed (s.consumers u))
          (λ other. absurd (other refl)) (λ u _ _. refl) w

    seen-FifoStep :
        (v : T) (size pos : ℕ)
        → s.producers t ≡ seen v size pos
        → FifoStep s.queue.capacity (fifo_of s) (fifo_of (after_push s t (seen v size pos)))
    unfolding after_push
    seen-FifoStep v size pos e = elim (Bool-cases (s.queue.tail == pos)) [
      | inl same ↦
          let here : s.queue.tail ≡ pos = ground arith in
          let r : Reached s.queue pos pos = subst (Pushing s.queue s.pushed) e (valid.pushing t) in
          let room = tail-room s.queue s.pushed pos valid.ring here r in
          let ordered = valid.ring.ordered in
          let counted = valid.ring.counted in
          rw same (
            enqueues v (omega (arith, length-drop s.queue.head s.pushed))
              (drop-append_before s.queue.head s.pushed (v ∷ []) (omega arith))
              (λ u. held_by-append s.queue s.pushed v (s.consumers u) (valid.popping u)) refl)
      | inr other ↦ rw other (stays refl (λ u. refl) refl)
    ]

    ready-FifoStep :
        (pos : ℕ)
        → s.consumers t ≡ ready pos
        → FifoStep s.queue.capacity (fifo_of s) (fifo_of (after_pop s t (ready pos)))
    unfolding after_pop
    ready-FifoStep pos e = elim (Bool-cases (s.queue.head == pos)) [
      | inl same ↦
          let here : s.queue.head ≡ pos = ground arith in
          let r : Reached s.queue pos (suc pos) =
            subst (Popping s.queue s.pushed) e (valid.popping t) in
          let (_, _, there) = head-full s.queue s.pushed pos valid.ring here r in
          rw same (
            dequeues t (item_at s.queue pos)
              (ap (λ n. drop n s.pushed) here
                ∙ drop-get_elem? pos s.pushed (item_at s.queue pos) there)
              (ap (held_by s.pushed) e)
              (ap (held_by s.pushed) (update_self s.consumers t (claimed pos)) ∙ there)
              (others_hold (claimed pos)) refl)
      | inr other ↦ rw other (consumer_stays (ready pos) polling s.queue e refl refl)
    ]

    probing-FifoStep :
        (pos : ℕ)
        → s.consumers t ≡ probing pos
        → FifoStep s.queue.capacity (fifo_of s) (fifo_of (after_pop s t (probing pos)))
    unfolding after_pop on_pop_seq
    probing-FifoStep pos e = elim (Bool-cases (seq_at s.queue pos == suc pos)) [
      | inl same ↦ rw same (consumer_stays (probing pos) (ready pos) s.queue e refl refl)
      | inr other ↦ rw other (consumer_stays (probing pos) polling s.queue e refl refl)
    ]

    after_push-FifoStep :
        (pc : Producer T)
        → s.producers t ≡ pc
        → FifoStep s.queue.capacity (fifo_of s) (fifo_of (after_push s t pc))
    unfolding after_push with_cell
    after_push-FifoStep resting e = stays refl (λ u. refl) refl
    after_push-FifoStep (starting v size) e = stays refl (λ u. refl) refl
    after_push-FifoStep (aiming v size pos) e = stays refl (λ u. refl) refl
    after_push-FifoStep (seen v size pos) e = seen-FifoStep v size pos e
    after_push-FifoStep (placed v size pos) e = stays refl (λ u. refl) refl
    after_push-FifoStep (written v size pos) e = stays refl (λ u. refl) refl
    after_push-FifoStep (published size pos) e = stays refl (λ u. refl) refl

    after_pop-FifoStep :
        (pc : Consumer T)
        → s.consumers t ≡ pc
        → FifoStep s.queue.capacity (fifo_of s) (fifo_of (after_pop s t pc))
    unfolding after_pop with_cell
    after_pop-FifoStep idle e = consumer_stays idle idle s.queue e refl refl
    after_pop-FifoStep polling e = consumer_stays polling (probing s.queue.head) s.queue e refl refl
    after_pop-FifoStep (probing pos) e = probing-FifoStep pos e
    after_pop-FifoStep (ready pos) e = ready-FifoStep pos e
    after_pop-FifoStep (claimed pos) e =
        let f : Taking s.queue s.pushed pos (item_at s.queue pos) =
          subst (Popping s.queue s.pushed) e (valid.popping t) in
        consumer_stays (claimed pos) (taken pos (item_at s.queue pos)) s.queue e refl
          (sym f.recorded)
    after_pop-FifoStep (taken pos v) e =
        returns t v refl (ap (held_by s.pushed) e)
          (ap (held_by s.pushed) (update_self s.consumers t (released pos)))
          (others_hold (released pos)) refl
    after_pop-FifoStep (released pos) e =
        consumer_stays (released pos) idle
          (with_cell s.queue pos (record (cell_at s.queue pos) { size = 0 })) e refl refl

  -- Each action, call or cancellation in a state that is reached is a step of a queue as long as the
  -- ring at most, first in, first out: the value that a consumer reads from its cell, and returns, is
  -- the one that was first in the queue when it took its position.
  pub Step-FifoStep :
      {s t : System T} → Reach s → Step s t → FifoStep s.queue.capacity (fifo_of s) (fifo_of t)
  Step-FifoStep r (pushes s t) = after_push-FifoStep s t (Reach-IsValid r) (s.producers t) refl
  Step-FifoStep r (pops s t) = after_pop-FifoStep s t (Reach-IsValid r) (s.consumers t) refl
  Step-FifoStep r (push_called s t x size e) = stays refl (λ u. refl) refl
  Step-FifoStep r (pop_called s t e) =
      consumer_stays s t (Reach-IsValid r) idle polling s.queue e refl refl
  Step-FifoStep r (cancelled s t e) =
      consumer_stays s t (Reach-IsValid r) polling idle s.queue e refl refl
