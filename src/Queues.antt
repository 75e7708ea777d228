-- ===== src/Queues.antt =====
-- internal/queue/mpmc/entry.go: the ring of cells, and what a producer and a consumer do to it in one
-- atomic action. A position is a natural number here, and 64 bits wide in the source.
pub mod Steps
pub mod Slots
pub mod Places
pub mod Ring
pub mod CellSizes
pub mod Claims
pub mod Valid
pub mod Pushes
pub mod Pops
pub mod Order
pub mod Fifo
mod Tests
use sdsyslog.Common.{
  ℕ, zero, suc, ◌+◌, ◌-◌, ◌%◌, ◌^◌, Bool, true, false, not, Option, none, some, List, [], ◌∷◌, ◌++◌,
  ◌==◌, ltb, if◌then◌else◌, Result, ok, err, guard, ◌>>=◌, ◌>>◌,
}
use Prim.Native.Nat.{bit_and}

pub record Cell {ℓ} (T : Type ℓ) : Type ℓ where
  pub seq : ℕ
  pub size : ℕ
  pub item : T

-- The metrics are left out.
pub record QueueInst {ℓ} (T : Type ℓ) : Type ℓ where
  pub capacity : ℕ
  pub buf : ℕ → Cell T
  pub head : ℕ
  pub tail : ℕ

pub data QueueError : Type 0 where
  no_power_of_two too_small : QueueError

unfoldable pub update {ℓ} : {A : Type ℓ} → (ℕ → A) → ℕ → A → ℕ → A
update f i a j = if i == j then a else f j

-- `zero_value` is what the cells hold at first.
abbrev pub fresh_inst {ℓ} : {T : Type ℓ} → T → ℕ → QueueInst T
fresh_inst zero_value capacity = record {
  capacity = capacity;
  buf = λ i. record { seq = i; size = 0; item = zero_value };
  head = 0;
  tail = 0;
}

unfoldable pub new_queue_inst {ℓ} : {T : Type ℓ} → T → ℕ → Result QueueError (QueueInst T)
new_queue_inst zero_value capacity = do
  guard (bit_and capacity (capacity - 1) == 0) no_power_of_two
  guard (not (ltb capacity 2)) too_small
  ok (fresh_inst zero_value capacity)

-- `pos & mask`, where the mask is the capacity, a power of two, less 1.
unfoldable pub slot {ℓ} : {T : Type ℓ} → QueueInst T → ℕ → ℕ
slot q pos = pos % q.capacity

unfoldable pub cell_at {ℓ} : {T : Type ℓ} → QueueInst T → ℕ → Cell T
unfolding slot
cell_at q pos = q.buf (slot q pos)

unfoldable pub with_cell {ℓ} : {T : Type ℓ} → QueueInst T → ℕ → Cell T → QueueInst T
unfolding slot update
with_cell q pos c = record q { buf = update q.buf (slot q pos) c }

-- Where a producer stands in Push: outside, at the top of the loop, with the tail, before the
-- exchange, and with its place: before the data, the number and the size.
pub data Producer {ℓ} (T : Type ℓ) : Type ℓ where
  resting : Producer T
  starting : T → ℕ → Producer T
  aiming seen placed written : T → ℕ → ℕ → Producer T
  published : ℕ → ℕ → Producer T

-- Where a consumer stands in Pop: outside, at the top of the loop, with the head, before the
-- exchange, before it reads the data, and with them: before the number and the size.
pub data Consumer {ℓ} (T : Type ℓ) : Type ℓ where
  idle polling : Consumer T
  probing ready claimed : ℕ → Consumer T
  taken : ℕ → T → Consumer T
  released : ℕ → Consumer T

-- After the load of the cell's number: the exchange, the error, or another round.
unfoldable pub on_push_seq {ℓ} : {T : Type ℓ} → T → ℕ → ℕ → ℕ → Producer T
on_push_seq v size pos seq =
    if seq == pos then seen v size pos else if ltb seq pos then resting else starting v size

-- One atomic action of Push.
unfoldable pub push_step {ℓ} : {T : Type ℓ} → QueueInst T → Producer T → QueueInst T × Producer T
unfolding on_push_seq with_cell cell_at
push_step q resting = (q, resting)
push_step q (starting v size) = (q, aiming v size q.tail)
push_step q (aiming v size pos) = (q, on_push_seq v size pos (cell_at q pos).seq)
push_step q (seen v size pos) =
    if q.tail == pos then (record q { tail = suc pos }, placed v size pos) else (q, starting v size)
push_step q (placed v size pos) =
    (with_cell q pos (record (cell_at q pos) { item = v }), written v size pos)
push_step q (written v size pos) =
    (with_cell q pos (record (cell_at q pos) { seq = suc pos }), published size pos)
push_step q (published size pos) =
    (with_cell q pos (record (cell_at q pos) { size = size }), resting)

-- After the load of the cell's number: the exchange, or another round, after a wait where the number
-- is smaller.
unfoldable pub on_pop_seq {ℓ} : {T : Type ℓ} → ℕ → ℕ → Consumer T
on_pop_seq pos seq = if seq == suc pos then ready pos else polling

-- One atomic action of Pop.
unfoldable pub pop_step {ℓ} : {T : Type ℓ} → QueueInst T → Consumer T → QueueInst T × Consumer T
unfolding on_pop_seq with_cell cell_at
pop_step q idle = (q, idle)
pop_step q polling = (q, probing q.head)
pop_step q (probing pos) = (q, on_pop_seq pos (cell_at q pos).seq)
pop_step q (ready pos) =
    if q.head == pos then (record q { head = suc pos }, claimed pos) else (q, polling)
pop_step q (claimed pos) = (q, taken pos (cell_at q pos).item)
pop_step q (taken pos v) =
    (with_cell q pos (record (cell_at q pos) { seq = pos + q.capacity }), released pos)
pop_step q (released pos) = (with_cell q pos (record (cell_at q pos) { size = 0 }), idle)
