-- ===== src/Shards/Moves.antt =====
-- internal/receiver/shard/queue.go and runtime.go, internal/receiver/assembler/worker.go: in each state
-- a thread of the shard has a step, or all are at rest, or they block one another.
use sdsyslog.Common.{
  ℕ, ◌≤◌, ◌≡◌, refl, ap, inl, inr, Bool, false, none, some, List, [], ◌∷◌, arith, ltb, Bool-cases,
  length,
}
use sdsyslog.Common.Words.{Bytes}
use sdsyslog.Shards.{Bucket, Instance, drain_bucket}
use sdsyslog.Shards.Steps.{
  Worker, idle, popped, keyed, assembling, System, Step, sent, given_up, took, counted, drained,
  assembled, watcher_sent, watcher_counted,
}

pub record AtRest (s : System) : Type 0 where
  pub queue_empty : s.inst.key_queue ≡ []
  pub none_held : s.held ≡ none
  pub worker_idle : s.worker ≡ idle
  pub none_watching : s.watching ≡ []
  pub none_counting : s.counting ≡ false

-- The assembler has a key and waits for the lock.
abbrev pub WaitsForLock : Worker → Type 0
WaitsForLock idle = ⊥
WaitsForLock (popped key) = Unit
WaitsForLock (keyed key) = Unit
WaitsForLock (assembling bucket) = ⊥

-- A push waits for room in the channel with the lock, and the assembler, which makes room, for the
-- lock.
pub record Blocked (s : System) : Type 0 where
  pub holder : Bytes × Bool
  pub waits_for_room : s.held ≡ some holder
  pub is_full : s.inst.buffer ≤ length s.inst.key_queue
  pub not_cancelled : s.cancelled ≡ false
  pub waits_for_lock : WaitsForLock s.worker

-- A step, or a state in which there is none.
pub data Next (other_size : ℕ) (s : System) : Type 0 where
  moves : {t : System} → Step other_size s t → Next other_size s
  rests : AtRest s → Next other_size s
  blocks : Blocked s → Next other_size s

module _ (other_size : ℕ) (s : System) (counting : s.counting ≡ false) where
  Next-unheld :
      s.held ≡ none
      → ((key : Bytes)
          → s.worker ≡ keyed key
          → (r : Bucket × Instance) × (drain_bucket other_size key s.inst ≡ some r))
      → 1 ≤ s.inst.buffer
      → (worker : Worker) → s.worker ≡ worker
      → (queue : List Bytes) → s.inst.key_queue ≡ queue
      → (watching : List Bytes) → s.watching ≡ watching
      → Next other_size s
  Next-unheld h d b (popped key) w q eq l el = moves (counted s key w h)
  Next-unheld h d b (keyed key) w q eq l el =
      let ((bucket, inst), e) = d key w in moves (drained s key bucket inst w h e)
  Next-unheld h d b (assembling bucket) w q eq l el = moves (assembled s bucket w)
  Next-unheld h d b idle w (k ∷ ks) eq l el = moves (took s k ks w eq)
  Next-unheld h d b idle w [] eq (k ∷ ks) el =
      moves (watcher_sent s k ks el counting (rw eq (omega arith)))
  Next-unheld h d b idle w [] eq [] el = rests (record {
    queue_empty = eq;
    none_held = h;
    worker_idle = w;
    none_watching = el;
    none_counting = counting;
  })

  Next-full :
      (holder : Bytes × Bool)
      → s.held ≡ some holder
      → s.cancelled ≡ false
      → s.inst.buffer ≤ length s.inst.key_queue
      → 1 ≤ s.inst.buffer
      → (worker : Worker) → s.worker ≡ worker
      → (queue : List Bytes) → s.inst.key_queue ≡ queue
      → Next other_size s
  Next-full holder h c f b idle w [] eq = absurd (omega (arith, ap length eq))
  Next-full holder h c f b idle w (k ∷ ks) eq = moves (took s k ks w eq)
  Next-full holder h c f b (assembling bucket) w q eq = moves (assembled s bucket w)
  Next-full holder h c f b (popped key) w q eq = blocks (record {
    holder = holder;
    waits_for_room = h;
    is_full = f;
    not_cancelled = c;
    waits_for_lock = rw w tt;
  })
  Next-full holder h c f b (keyed key) w q eq = blocks (record {
    holder = holder;
    waits_for_room = h;
    is_full = f;
    not_cancelled = c;
    waits_for_lock = rw w tt;
  })

pub next :
    (other_size : ℕ) (s : System)
    → s.held ≡ none
    → ((key : Bytes)
        → s.worker ≡ keyed key
        → (r : Bucket × Instance) × (drain_bucket other_size key s.inst ≡ some r))
    → 1 ≤ s.inst.buffer
    → Next other_size s
next other_size s h d b = elim (Bool-cases s.counting) [
  | inl counts ↦ moves (watcher_counted s counts)
  | inr idle_count ↦
      Next-unheld other_size s idle_count h d b s.worker refl s.inst.key_queue refl s.watching refl
]

Next-held :
    (other_size : ℕ) (s : System) (key : Bytes) (timed_out : Bool)
    → s.held ≡ some (key, timed_out)
    → 1 ≤ s.inst.buffer
    → Next other_size s
Next-held other_size s key timed_out h b = elim (Bool-cases s.counting) [
  | inl counts ↦ moves (watcher_counted s counts)
  | inr idle_count ↦ elim (Bool-cases s.cancelled) [
    | inl cancelled ↦ moves (given_up s key timed_out h cancelled)
    | inr kept ↦ elim (Bool-cases (ltb (length s.inst.key_queue) s.inst.buffer)) [
      | inl room ↦ moves (sent s key timed_out h (ground arith))
      | inr full ↦
          Next-full other_size s idle_count (key, timed_out) h kept (ground arith) b s.worker refl
            s.inst.key_queue refl
    ]
  ]
]
