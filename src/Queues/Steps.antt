-- ===== src/Queues/Steps.antt =====
-- internal/queue/mpmc/entry.go: any number of producers and consumers of one queue, whose atomic
-- actions come in any order. The change to a queue of another capacity is left out.
use sdsyslog.Common.{ℕ, ◌≡◌, List, [], ◌∷◌, ◌++◌, ◌==◌, if◌then◌else◌, ok}
use sdsyslog.Queues.{
  QueueInst, new_queue_inst, update, Producer, resting, starting, aiming, seen, placed, written,
  published, Consumer, idle, polling, probing, ready, claimed, taken, released, push_step, pop_step,
}

-- `pushed` has the values in the order of the places that producers got for them, and `popped` what
-- consumers took, the last first, each with its position. No one reads them.
pub record System {ℓ} (T : Type ℓ) : Type ℓ where
  pub queue : QueueInst T
  pub producers : ℕ → Producer T
  pub consumers : ℕ → Consumer T
  pub pushed : List T
  pub popped : List (ℕ × T)

-- The values with a place, after an action.
unfoldable pub placed_by {ℓ} : {T : Type ℓ} → QueueInst T → Producer T → List T → List T
placed_by q resting log = log
placed_by q (starting v size) log = log
placed_by q (aiming v size pos) log = log
placed_by q (seen v size pos) log = if q.tail == pos then log ++ v ∷ [] else log
placed_by q (placed v size pos) log = log
placed_by q (written v size pos) log = log
placed_by q (published size pos) log = log

unfoldable pub taken_by {ℓ} : {T : Type ℓ} → Consumer T → List (ℕ × T) → List (ℕ × T)
taken_by idle log = log
taken_by polling log = log
taken_by (probing pos) log = log
taken_by (ready pos) log = log
taken_by (claimed pos) log = log
taken_by (taken pos v) log = (pos, v) ∷ log
taken_by (released pos) log = log

abbrev pub started {ℓ} : {T : Type ℓ} → QueueInst T → System T
started q = record {
  queue = q;
  producers = λ t. resting;
  consumers = λ t. idle;
  pushed = [];
  popped = [];
}

module _ {ℓ} {T : Type ℓ} where
  -- A producer's action, where it stands at `pc`, and a consumer's.
  unfoldable pub after_push : System T → ℕ → Producer T → System T
  unfolding update push_step placed_by
  after_push s t pc = record s {
    queue = (push_step s.queue pc).0;
    producers = update s.producers t (push_step s.queue pc).1;
    pushed = placed_by s.queue pc s.pushed;
  }

  unfoldable pub after_pop : System T → ℕ → Consumer T → System T
  unfolding update pop_step taken_by
  after_pop s t pc = record s {
    queue = (pop_step s.queue pc).0;
    consumers = update s.consumers t (pop_step s.queue pc).1;
    popped = taken_by pc s.popped;
  }

  -- An action of a producer or a consumer, the call of either, and the end of a context.
  pub data Step : System T → System T → Type ℓ where
    pushes : (s : System T) (t : ℕ) → Step s (after_push s t (s.producers t))
    pops : (s : System T) (t : ℕ) → Step s (after_pop s t (s.consumers t))
    push_called :
        (s : System T) (t : ℕ) (v : T) (size : ℕ)
        → s.producers t ≡ resting
        → Step s (record s { producers = update s.producers t (starting v size) })
    pop_called :
        (s : System T) (t : ℕ)
        → s.consumers t ≡ idle
        → Step s (record s { consumers = update s.consumers t polling })
    cancelled :
        (s : System T) (t : ℕ)
        → s.consumers t ≡ polling
        → Step s (record s { consumers = update s.consumers t idle })

  pub data Reach : System T → Type ℓ where
    start :
        (zero_value : T) (capacity : ℕ) (q : QueueInst T)
        → new_queue_inst zero_value capacity ≡ ok q
        → Reach (started q)
    step : {s t : System T} → Reach s → Step s t → Reach t
