-- ===== src/Queues/Tests.antt =====
-- internal/queue/mpmc/entry.go: a queue of two cells, one producer and one consumer.
use sdsyslog.Common.{ℕ, ◌≡◌, ◌≤◌, refl, some, [], ◌∷◌, length, get_elem?, All, ok, err}
use sdsyslog.Queues.{
  QueueInst, fresh_inst, new_queue_inst, no_power_of_two, update, starting, polling, push_step,
  pop_step, cell_at, with_cell, slot,
}
use sdsyslog.Queues.Steps.{
  System, started, after_push, after_pop, Reach, start, step, pushes, pops, push_called, pop_called,
}
use sdsyslog.Queues.Places.{Fills, Takes}
use sdsyslog.Queues.Valid.{Once}
use sdsyslog.Queues.Order.{waiting, Reach-Once}
use sdsyslog.Queues.Fifo.{fifo_of, FifoStep, Step-FifoStep}

abbrev two_cells : QueueInst ℕ
two_cells = fresh_inst 0 2

two_cells_made : new_queue_inst 0 2 ≡ ok two_cells
unfolding new_queue_inst
two_cells_made = refl

three_refused : new_queue_inst {T = ℕ} 0 3 ≡ err no_power_of_two
unfolding new_queue_inst
three_refused = refl

abbrev push_action : System ℕ → System ℕ
push_action s = after_push s 0 (s.producers 0)

abbrev pop_action : System ℕ → System ℕ
pop_action s = after_pop s 0 (s.consumers 0)

-- Producer 0 calls Push with 7.
abbrev called : System ℕ
called = record (started two_cells) {
  producers = update (started two_cells).producers 0 (starting 7 1);
}

-- It writes the value and the number.
abbrev filled : System ℕ
filled = push_action (push_action (push_action (push_action (push_action called))))

filled-Reach : Reach filled
filled-Reach =
    step
      (step
        (step
          (step
            (step
              (step (start 0 2 two_cells two_cells_made)
                (push_called (started two_cells) 0 7 1 refl))
              (pushes _ 0))
            (pushes _ 0))
          (pushes _ 0))
        (pushes _ 0))
      (pushes _ 0)

-- Consumer 0 calls Pop, and looks at the cell of the head.
abbrev looked : System ℕ
looked = pop_action (pop_action (record filled { consumers = update filled.consumers 0 polling }))

looked-Reach : Reach looked
unfolding after_push
looked-Reach = step (step (step filled-Reach (pop_called filled 0 refl)) (pops _ 0)) (pops _ 0)

-- It takes the value.
abbrev emptied : System ℕ
emptied = pop_action (pop_action (pop_action looked))

emptied_popped : emptied.popped ≡ (0, 7) ∷ []
unfolding after_pop after_push update push_step pop_step cell_at with_cell slot
emptied_popped = refl

emptied-Reach : Reach emptied
emptied-Reach = step (step (step looked-Reach (pops looked 0)) (pops _ 0)) (pops _ 0)

Reach-Once_example :
    (length (waiting emptied) ≤ emptied.queue.capacity)
    × ((t u p : ℕ) → Fills (emptied.producers t) p → Fills (emptied.producers u) p → t ≡ u)
    × ((t u p : ℕ) → Takes (emptied.consumers t) p → Takes (emptied.consumers u) p → t ≡ u)
    × All (λ e. get_elem? emptied.pushed e.0 ≡ some e.1) emptied.popped
    × Once emptied.popped
Reach-Once_example = Reach-Once emptied-Reach

Step-FifoStep_example : FifoStep 2 (fifo_of looked) (fifo_of (pop_action looked))
unfolding after_pop after_push
Step-FifoStep_example = Step-FifoStep looked-Reach (pops looked 0)
