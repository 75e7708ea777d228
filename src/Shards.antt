-- ===== src/Shards.antt =====
-- internal/receiver/shard/queue.go: the buckets of one shard, in which the fragments of a message
-- wait for one another. Times are nanoseconds since 1970, and 0 is the time that was never set.
pub mod Maps
pub mod Steps
pub mod Pushes
pub mod Queued
pub mod Moves
pub mod Progress
pub mod Deadlock
pub mod Filling
pub mod Arrivals
pub mod Assembly
pub mod Counts
pub mod Drift
mod Tests
use sdsyslog.Common.{
  ℕ, ◌+◌, ◌-◌, ◌%◌, ◌^◌, Bool, true, false, Option, none, some, List, [], ◌∷◌, ◌++◌, ◌==◌, ltb,
  if◌then◌else◌, length,
}
use sdsyslog.Common.Words.{Bytes, bytes_equal}
use sdsyslog.Protocol.Fragments.{Payload}
use sdsyslog.Protocol.Sizes.{size}

-- Fragments are keyed by their sequence number. A map is the list of its entries.
pub record Bucket : Type 0 where
  pub filled : Bool
  pub fragments : List (ℕ × Payload)
  pub max_seq : ℕ
  pub last_process_start_time : ℕ

abbrev pub Buckets : Type 0
Buckets = List (Bytes × Bucket)

-- Each counter is an atomic uint64.
pub record MetricStorage : Type 0 where
  pub bytes : ℕ
  pub total_buckets : ℕ
  pub waiting_buckets : ℕ
  pub timed_out_buckets : ℕ
  pub sum_fragment_time_spacing : ℕ
  pub push_count : ℕ
  pub pop_count : ℕ

-- `key_queue` is a channel that holds `buffer` keys.
pub record Instance : Type 0 where
  pub buckets : Buckets
  pub key_queue : List Bytes
  pub buffer : ℕ
  pub packet_deadline : ℕ
  pub in_shutdown : Bool
  pub metrics : MetricStorage

unfoldable pub new : ℕ → ℕ → Instance
new buffer packet_deadline = record {
  buckets = [];
  key_queue = [];
  buffer = buffer;
  packet_deadline = packet_deadline;
  in_shutdown = false;
  metrics = record {
    bytes = 0;
    total_buckets = 0;
    waiting_buckets = 0;
    timed_out_buckets = 0;
    sum_fragment_time_spacing = 0;
    push_count = 0;
    pop_count = 0;
  };
}

-- `m[key]`, `m[key] = bucket` and `delete(m, key)`.
unfoldable pub find_bucket : Bytes → Buckets → Option Bucket
find_bucket key [] = none
find_bucket key ((k, b) ∷ m) = if bytes_equal k key then some b else find_bucket key m

unfoldable pub put_bucket : Bytes → Bucket → Buckets → Buckets
put_bucket key bucket [] = (key, bucket) ∷ []
put_bucket key bucket ((k, b) ∷ m) =
    let rest = put_bucket key bucket m in
    if bytes_equal k key then (k, bucket) ∷ m else (k, b) ∷ rest

unfoldable pub delete_bucket : Bytes → Buckets → Buckets
delete_bucket key [] = []
delete_bucket key ((k, b) ∷ m) =
    let rest = delete_bucket key m in if bytes_equal k key then m else (k, b) ∷ rest

unfoldable pub put_fragment : ℕ → Payload → List (ℕ × Payload) → List (ℕ × Payload)
put_fragment seq fragment [] = (seq, fragment) ∷ []
put_fragment seq fragment ((i, f) ∷ m) =
    let rest = put_fragment seq fragment m in if i == seq then (i, fragment) ∷ m else (i, f) ∷ rest

-- atomic.Uint64's Add.
unfoldable pub add64 : ℕ → ℕ → ℕ
add64 a b = (a + b) % 2 ^ 64

-- internal/atomics/writes.go: Subtract, where no one else writes the counter. It stops at 0.
unfoldable pub subtract : ℕ → ℕ → ℕ
subtract current value = if ltb value current then current - value else 0

-- A push returns, or stands at its send to the channel with the lock held.
pub data Pushed : Type 0 where
  returned : Instance → Pushed
  sending : (timed_out : Bool) → Instance → Pushed

unfoldable pub elapsed_time : ℕ → Bucket → ℕ
elapsed_time now bucket =
    if bucket.last_process_start_time == 0 then 0 else now - bucket.last_process_start_time

abbrev pub counted_spacing : ℕ → Instance → Instance
counted_spacing elapsed inst = record inst {
  metrics = record inst.metrics {
    sum_fragment_time_spacing =
        if ltb 0 elapsed
        then add64 inst.metrics.sum_fragment_time_spacing elapsed
        else inst.metrics.sum_fragment_time_spacing;
  };
}

abbrev pub with_bucket : Bytes → Bucket → Instance → Instance
with_bucket key bucket inst = record inst { buckets = put_bucket key bucket inst.buckets }

abbrev pub close_bucket : Bucket → Bucket
close_bucket bucket = record bucket { filled = true }

-- The bucket with one more fragment, filled where that was the last.
unfoldable pub store_fragment : Payload → ℕ → Bucket → Bucket
unfolding put_fragment
store_fragment fragment now bucket =
    let stored = put_fragment fragment.message_seq fragment bucket.fragments in
    record bucket {
      filled = if length stored == bucket.max_seq + 1 then true else bucket.filled;
      fragments = stored;
      last_process_start_time = now;
    }

-- A send to follow where the bucket is full.
unfoldable pub stored_at : Bytes → Bucket → Instance → Pushed
stored_at key bucket inst =
    if length bucket.fragments == bucket.max_seq + 1
    then sending false (with_bucket key bucket inst)
    else returned (with_bucket key bucket inst)

abbrev pub counted_push : Instance → Instance
counted_push inst = record inst {
  metrics = record inst.metrics { push_count = add64 inst.metrics.push_count 1 };
}

abbrev pub counted_bucket : Instance → Instance
counted_bucket inst = record inst {
  metrics = record inst.metrics { total_buckets = add64 inst.metrics.total_buckets 1 };
}

abbrev pub new_bucket : Payload → Bucket
new_bucket fragment = record {
  filled = false;
  fragments = [];
  max_seq = fragment.message_seq_max;
  last_process_start_time = 0;
}

module _ (other_size : ℕ) where
  abbrev pub counted_bytes : Payload → Instance → Instance
  counted_bytes fragment inst = record inst {
    metrics = record inst.metrics {
      bytes = add64 inst.metrics.bytes (size other_size fragment % 2 ^ 64);
    };
  }

  -- What push does with a bucket that is open to the fragment.
  unfoldable pub push_into : Bytes → Payload → ℕ → Bucket → Instance → Pushed
  unfolding stored_at
  push_into key fragment now bucket inst =
      let elapsed = elapsed_time now bucket in
      let spaced = counted_spacing elapsed inst in
      if ltb inst.packet_deadline elapsed
      then sending true (with_bucket key (close_bucket bucket) spaced)
      else stored_at key (store_fragment fragment now bucket) (counted_bytes fragment spaced)

  unfoldable pub push_found : Bytes → Payload → ℕ → Option Bucket → Instance → Pushed
  unfolding push_into
  push_found key fragment now none inst =
      push_into key fragment now (new_bucket fragment)
        (counted_bucket (with_bucket key (new_bucket fragment) inst))
  push_found key fragment now (some bucket) inst =
      if bucket.filled
      then returned inst
      else if bucket.max_seq == fragment.message_seq_max
      then push_into key fragment now bucket inst
      else returned inst

  -- push, up to its send to the channel.
  unfoldable pub push : Bytes → Payload → ℕ → Instance → Pushed
  unfolding push_found
  push key fragment now inst =
      push_found key fragment now (find_bucket key inst.buckets) (counted_push inst)

  -- The sizes of the fragments that a bucket holds.
  unfoldable pub fragments_size : List (ℕ × Payload) → ℕ
  fragments_size [] = 0
  fragments_size ((i, f) ∷ fs) = size other_size f + fragments_size fs

  abbrev pub without_bucket : Bytes → Bucket → Instance → Instance
  without_bucket key bucket inst = record inst {
    buckets = delete_bucket key inst.buckets;
    metrics = record inst.metrics {
      bytes = subtract inst.metrics.bytes (fragments_size bucket.fragments % 2 ^ 64);
      total_buckets = subtract inst.metrics.total_buckets 1;
    };
  }

  unfoldable pub drain_found : Bytes → Option Bucket → Instance → Option (Bucket × Instance)
  drain_found key none inst = none
  drain_found key (some bucket) inst = some (bucket, without_bucket key bucket inst)

  -- DrainBucket. Where the key is missing, Mu is unlocked twice: the runtime stops the program.
  unfoldable pub drain_bucket : Bytes → Instance → Option (Bucket × Instance)
  unfolding drain_found
  drain_bucket key inst = drain_found key (find_bucket key inst.buckets) inst

-- The send at the end of push, with its counters.
unfoldable pub send_key : Bytes → Bool → Instance → Instance
send_key key timed_out inst = record inst {
  key_queue = inst.key_queue ++ key ∷ [];
  metrics = record inst.metrics {
    waiting_buckets = add64 inst.metrics.waiting_buckets 1;
    timed_out_buckets =
        if timed_out
        then add64 inst.metrics.timed_out_buckets 1
        else inst.metrics.timed_out_buckets;
  };
}

-- PopKey: the receive, and the counter, which is changed under the lock. PopCount is raised at the
-- receive here, and in the source before it, at the call.
unfoldable pub receive_key : List Bytes → Instance → Instance
receive_key keys inst = record inst {
  key_queue = keys;
  metrics = record inst.metrics { pop_count = add64 inst.metrics.pop_count 1 };
}

unfoldable pub counted_pop : Instance → Instance
counted_pop inst = record inst {
  metrics = record inst.metrics { waiting_buckets = subtract inst.metrics.waiting_buckets 1 };
}

-- runtime.go, StartTimeoutWatcher: whether a bucket is to be closed.
unfoldable pub is_late : ℕ → ℕ → Bucket → Bool
is_late deadline now bucket =
    if bucket.filled then false else ltb deadline (now - bucket.last_process_start_time)

unfoldable pub close_late : ℕ → ℕ → Buckets → Buckets
unfolding is_late
close_late deadline now [] = []
close_late deadline now ((k, b) ∷ m) =
    (k, (if is_late deadline now b then close_bucket b else b)) ∷ close_late deadline now m

unfoldable pub late_keys : ℕ → ℕ → Buckets → List Bytes
unfolding is_late
late_keys deadline now [] = []
late_keys deadline now ((k, b) ∷ m) =
    let rest = late_keys deadline now m in if is_late deadline now b then k ∷ rest else rest

-- One sweep of the watcher under the lock, by the deadline that it loaded before; the keys to send
-- are `late_keys`.
unfoldable pub sweep : ℕ → ℕ → Instance → Instance
unfolding close_late late_keys
sweep deadline now inst = record inst {
  buckets = close_late deadline now inst.buckets;
  metrics = record inst.metrics {
    timed_out_buckets =
        add64 inst.metrics.timed_out_buckets (length (late_keys deadline now inst.buckets));
  };
}

-- The watcher's send, which takes no lock, and the counter that follows it.
unfoldable pub watcher_send : Bytes → Instance → Instance
watcher_send key inst = record inst { key_queue = inst.key_queue ++ key ∷ [] }

unfoldable pub watcher_count : Instance → Instance
watcher_count inst = record inst {
  metrics = record inst.metrics { waiting_buckets = add64 inst.metrics.waiting_buckets 1 };
}
