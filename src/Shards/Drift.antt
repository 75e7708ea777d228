-- ===== src/Shards/Drift.antt =====
-- internal/receiver/shard/runtime.go: the watcher counts a key after it sends it, and takes no lock.
use sdsyslog.Common.{
  ℕ, ◌+◌, ◌-◌, ◌%◌, ◌^◌, ◌≤◌, ◌≡◌, refl, true, false, some, [], ◌∷◌, arith, ltb-false, lt→ltb,
}
use sdsyslog.Common.Words.{bytes_equal}
use sdsyslog.Protocol.Fragments.{Payload}
use sdsyslog.Shards.{
  close_bucket, without_bucket, size, Bucket, Instance, new, find_bucket, put_bucket, returned,
  push, push_found, push_into, stored_at, store_fragment, put_fragment, elapsed_time, drain_bucket,
  drain_found, delete_bucket, receive_key, counted_pop, sweep, late_keys, close_late, is_late,
  watcher_send, watcher_count, add64, subtract,
}
use sdsyslog.Shards.Moves.{AtRest}
use sdsyslog.Shards.Steps.{
  idle, popped, keyed, assembling, System, started, Step, took, counted, drained, assembled,
  watcher_sent, watcher_counted, pushed, swept, Reach, here, step, event,
}

-- The first of two fragments.
abbrev pub half : Payload
half = record {
  remote_ip = [];
  host_id = 0;
  msg_id = 0;
  message_seq = 0;
  message_seq_max = 1;
  timestamp = 0;
  hostname = [];
  signature_id = 0;
  signature = [];
  custom_fields = [];
  body = [];
  padding_len = 0;
}

abbrev pub half_bucket : Bucket
half_bucket = record {
  filled = false;
  fragments = (0, half) ∷ [];
  max_seq = 1;
  last_process_start_time = 1;
}

module _ (other_size buffer packet_deadline : ℕ) where
  abbrev pub with_half : Instance
  with_half = record {
    buckets = ([], half_bucket) ∷ [];
    key_queue = [];
    buffer = buffer;
    packet_deadline = packet_deadline;
    in_shutdown = false;
    metrics = record {
      bytes = add64 0 (size other_size half % 2 ^ 64);
      total_buckets = add64 0 1;
      waiting_buckets = 0;
      timed_out_buckets = 0;
      sum_fragment_time_spacing = 0;
      push_count = add64 0 1;
      pop_count = 0;
    };
  }

  push-half : push other_size [] half 1 (new buffer packet_deadline) ≡ returned with_half
  unfolding new push push_found push_into stored_at store_fragment elapsed_time put_fragment
      find_bucket put_bucket bytes_equal add64
  push-half = rw (ltb-false packet_deadline 0 (omega arith))

  abbrev pub swept_time : ℕ
  swept_time = packet_deadline + 2

  half_late : is_late packet_deadline swept_time half_bucket ≡ true
  unfolding is_late
  half_late = lt→ltb packet_deadline (packet_deadline + 2 - 1) (omega arith)

  abbrev pub before_drain : Instance
  before_drain =
      counted_pop (receive_key [] (watcher_send [] (sweep packet_deadline swept_time with_half)))

  abbrev pub after_drain : Instance
  after_drain = without_bucket other_size [] (close_bucket half_bucket) before_drain

  drain_half :
      drain_bucket other_size [] before_drain ≡ some (close_bucket half_bucket, after_drain)
  unfolding drain_bucket drain_found find_bucket counted_pop receive_key watcher_send sweep
      close_late bytes_equal delete_bucket subtract add64
  drain_half = rw half_late

  abbrev pub swept_state : System
  swept_state = record (started buffer packet_deadline) {
    inst = sweep packet_deadline swept_time with_half;
    watching = late_keys packet_deadline swept_time with_half.buckets;
  }

  abbrev pub sent_state : System
  sent_state = record swept_state {
    inst = watcher_send [] swept_state.inst;
    watching = [];
    counting = true;
  }

  abbrev pub took_state : System
  took_state = record sent_state { inst = receive_key [] sent_state.inst; worker = popped [] }

  abbrev pub keyed_state : System
  keyed_state = record took_state { inst = before_drain; worker = keyed [] }

  abbrev pub drained_state : System
  drained_state = record keyed_state {
    inst = after_drain;
    worker = assembling (close_bucket half_bucket);
  }

  abbrev pub idle_state : System
  idle_state = record drained_state { worker = idle }

  abbrev pub counted_state : System
  counted_state = record idle_state { inst = watcher_count idle_state.inst; counting = false }

  pub keyed_reached : 1 ≤ buffer → Reach other_size (started buffer packet_deadline) 5 keyed_state
  unfolding counted_pop receive_key watcher_send sweep late_keys new
  keyed_reached room =
      let one =
        event here (pushed (started buffer packet_deadline) [] half 1 with_half refl push-half) in
      let two = event one (
        swept (record (started buffer packet_deadline) { inst = with_half }) packet_deadline
          swept_time refl refl refl) in
      let three = step two (watcher_sent swept_state [] [] (rw half_late) refl room) in
      let four = step three (took sent_state [] [] refl refl) in
      step four (counted took_state [] refl refl)

  pub keyed_drained : Step other_size keyed_state drained_state
  keyed_drained = drained keyed_state [] (close_bucket half_bucket) after_drain refl refl drain_half

  -- A message of which a fragment is late: the watcher sends the key of its bucket, the assembler
  -- takes the key and lowers the counter, which is 0, before the watcher raises it. Then the shard is
  -- at rest and has no bucket, and its counter of waiting buckets is 1.
  pub waiting_buckets_drift :
      1 ≤ buffer
      → (n : ℕ) × (s : System) × Reach other_size (started buffer packet_deadline) n s
        × AtRest s
        × (s.inst.buckets ≡ [])
        × (s.inst.metrics.waiting_buckets ≡ 1)
  unfolding counted_pop receive_key watcher_send watcher_count sweep close_late delete_bucket
      bytes_equal add64 subtract new
  waiting_buckets_drift room =
      let six = step (keyed_reached room) keyed_drained in
      let seven = step six (assembled drained_state (close_bucket half_bucket) refl) in
      let eight = step seven (watcher_counted idle_state refl) in
      (
        8,
        counted_state,
        eight,
        record {
          queue_empty = refl;
          none_held = refl;
          worker_idle = refl;
          none_watching = refl;
          none_counting = refl;
        },
        refl,
        refl,
      )
