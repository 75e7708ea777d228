-- ===== src/Shards/Steps.antt =====
-- internal/receiver/shard/queue.go and runtime.go, internal/receiver/assembler/worker.go: one shard
-- with the processors that push, its watcher and its assembler, as steps. What a thread does under
-- the lock is one step, but for a push that waits for room in the channel and keeps the lock. The
-- instance is not stopped: that the watcher then drops the keys that it has yet to send is left out.
use sdsyslog.Common.{
  ℕ, zero, suc, ◌<◌, ◌≡◌, Bool, true, false, Option, none, some, List, [], ◌∷◌, length,
}
use sdsyslog.Common.Words.{Bytes}
use sdsyslog.Protocol.Fragments.{Payload}
use sdsyslog.Shards.{
  Bucket, Instance, new, returned, sending, push, drain_bucket, send_key, receive_key, counted_pop,
  sweep, late_keys, watcher_send, watcher_count,
}

-- Where the assembler stands: at PopKey, in it with a key, before DrainBucket, and with a bucket.
pub data Worker : Type 0 where
  idle : Worker
  popped keyed : Bytes → Worker
  assembling : Bucket → Worker

-- `held` is the push that holds the lock at its send; `watching` and `counting` are the keys that the
-- watcher has yet to send, and whether it has yet to count one. `cancelled` is the context of a push.
pub record System : Type 0 where
  pub inst : Instance
  pub held : Option (Bytes × Bool)
  pub worker : Worker
  pub watching : List Bytes
  pub counting : Bool
  pub cancelled : Bool

abbrev pub started : ℕ → ℕ → System
started buffer packet_deadline = record {
  inst = new buffer packet_deadline;
  held = none;
  worker = idle;
  watching = [];
  counting = false;
  cancelled = false;
}

abbrev pub HasRoom : Instance → Type 0
HasRoom inst = length inst.key_queue < inst.buffer

module _ (other_size : ℕ) where
  -- What the threads of the shard do by themselves.
  pub data Step : System → System → Type 0 where
    sent :
        (s : System) (key : Bytes) (timed_out : Bool)
        → s.held ≡ some (key, timed_out)
        → HasRoom s.inst
        → Step s (record s { inst = send_key key timed_out s.inst; held = none })
    given_up :
        (s : System) (key : Bytes) (timed_out : Bool)
        → s.held ≡ some (key, timed_out)
        → s.cancelled ≡ true
        → Step s (record s { held = none })
    took :
        (s : System) (key : Bytes) (keys : List Bytes)
        → s.worker ≡ idle
        → s.inst.key_queue ≡ key ∷ keys
        → Step s (record s { inst = receive_key keys s.inst; worker = popped key })
    counted :
        (s : System) (key : Bytes)
        → s.worker ≡ popped key
        → s.held ≡ none
        → Step s (record s { inst = counted_pop s.inst; worker = keyed key })
    -- The one try of atomics.Subtract fails where the watcher counts at the same time.
    count_missed :
        (s : System) (key : Bytes)
        → s.worker ≡ popped key
        → s.held ≡ none
        → s.counting ≡ true
        → Step s (record s { inst = watcher_count s.inst; worker = keyed key; counting = false })
    drained :
        (s : System) (key : Bytes) (bucket : Bucket) (inst : Instance)
        → s.worker ≡ keyed key
        → s.held ≡ none
        → drain_bucket other_size key s.inst ≡ some (bucket, inst)
        → Step s (record s { inst = inst; worker = assembling bucket })
    assembled :
        (s : System) (bucket : Bucket)
        → s.worker ≡ assembling bucket
        → Step s (record s { worker = idle })
    watcher_sent :
        (s : System) (key : Bytes) (keys : List Bytes)
        → s.watching ≡ key ∷ keys
        → s.counting ≡ false
        → HasRoom s.inst
        → Step s (record s { inst = watcher_send key s.inst; watching = keys; counting = true })
    watcher_counted :
        (s : System)
        → s.counting ≡ true
        → Step s (record s { inst = watcher_count s.inst; counting = false })

  -- What comes from outside: fragments, the watcher's clock, and the manager.
  pub data Event : System → System → Type 0 where
    pushed :
        (s : System) (key : Bytes) (fragment : Payload) (now : ℕ) (inst : Instance)
        → s.held ≡ none
        → push other_size key fragment now s.inst ≡ returned inst
        → Event s (record s { inst = inst })
    waits :
        (s : System) (key : Bytes) (fragment : Payload) (now : ℕ) (timed_out : Bool)
        (inst : Instance)
        → s.held ≡ none
        → push other_size key fragment now s.inst ≡ sending timed_out inst
        → Event s (record s { inst = inst; held = some (key, timed_out) })
    swept :
        (s : System) (deadline now : ℕ)
        → s.held ≡ none
        → s.watching ≡ []
        → s.counting ≡ false
        → Event s (record s {
          inst = sweep deadline now s.inst;
          watching = late_keys deadline now s.inst.buckets;
        })
    deadline_set :
        (s : System) (packet_deadline : ℕ)
        → Event s (record s { inst = record s.inst { packet_deadline = packet_deadline } })
    shut : (s : System) → Event s (record s { inst = record s.inst { in_shutdown = true } })
    cancel : (s : System) → Event s (record s { cancelled = true })

  -- What is reached from a state by so many steps and events.
  pub data Reach (s : System) : ℕ → System → Type 0 where
    here : Reach s zero s
    step : {n : ℕ} {t u : System} → Reach s n t → Step t u → Reach s (suc n) u
    event : {n : ℕ} {t u : System} → Reach s n t → Event t u → Reach s (suc n) u

  -- The threads make so many steps by themselves, with nothing from outside.
  pub data Runs (s : System) : ℕ → System → Type 0 where
    stop : Runs s zero s
    go : {n : ℕ} {t u : System} → Runs s n t → Step t u → Runs s (suc n) u
