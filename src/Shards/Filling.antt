-- ===== src/Shards/Filling.antt =====
-- internal/receiver/shard/queue.go: messages of one fragment fill the channel.
use mathlib.Core.Path.{subst}
use sdsyslog.Common.{
  ◌-◌, ℕ, zero, suc, ◌<◌, ◌≤◌, ◌≡◌, refl, ap, sym, ◌∙◌, false, none, List, [], ◌∷◌, arith,
  ltb-false, length, length_concat, replicate, length-replicate,
}
use sdsyslog.Common.Words.{Bytes, bytes_equal, bytes_equal_iff}
use sdsyslog.Protocol.Fragments.{Payload}
use sdsyslog.Shards.{
  Instance, new, find_bucket, Pushed, returned, sending, push, push_found, push_into, stored_at,
  store_fragment, put_fragment, elapsed_time, send_key, receive_key,
}
use sdsyslog.Shards.Maps.{find-put_bucket}
use sdsyslog.Shards.Moves.{Blocked}
use sdsyslog.Shards.Steps.{
  Worker, idle, popped, System, started, sent, took, waits, Reach, here, step, event,
}

-- A message of one fragment.
abbrev single : Payload
single = record {
  remote_ip = [];
  host_id = 0;
  msg_id = 0;
  message_seq = 0;
  message_seq_max = 0;
  timestamp = 0;
  hostname = [];
  signature_id = 0;
  signature = [];
  custom_fields = [];
  body = [];
  padding_len = 0;
}

-- A different key for each message.
abbrev key_of : ℕ → Bytes
key_of i = replicate i 0

key_of-apart : (i j : ℕ) → i < j → bytes_equal (key_of i) (key_of j) ≡ false
key_of-apart i j h = ground (
  arith,
  bytes_equal_iff (key_of i) (key_of j),
  length-replicate {A = ℕ} i 0,
  length-replicate {A = ℕ} j 0,
)

abbrev pushed_to : Pushed → Instance
pushed_to (returned inst) = inst
pushed_to (sending timed_out inst) = inst

-- What a push of a new message of one fragment does: it goes on to its send.
record Sends (other_size i : ℕ) (from : Instance) : Type 0 where
  to : Instance
  pushes : push other_size (key_of i) single 1 from ≡ sending false to
  same_queue : to.key_queue ≡ from.key_queue
  same_buffer : to.buffer ≡ from.buffer
  later_new : (j : ℕ) → suc i ≤ j → find_bucket (key_of j) to.buckets ≡ none

module _ (other_size : ℕ) where
  push_single :
      (i : ℕ) (from : Instance)
      → ((j : ℕ) → i ≤ j → find_bucket (key_of j) from.buckets ≡ none)
      → Sends other_size i from
  unfolding push push_found push_into stored_at store_fragment put_fragment elapsed_time
  push_single i from h =
      let new_key = h i (omega arith) in
      let early = ltb-false from.packet_deadline 0 (omega arith) in
      record {
        to = pushed_to (push other_size (key_of i) single 1 from);
        pushes = rw (new_key, early) refl;
        same_queue = rw (new_key, early) refl;
        same_buffer = rw (new_key, early) refl;
        later_new = λ j lt.
            rw (new_key, early)
              (rw
                (
                  find-put_bucket (key_of j) (key_of i),
                  key_of-apart i j lt,
                  find-put_bucket (key_of j) (key_of i),
                  key_of-apart i j lt,
                )
                (h j (omega arith)));
      }

-- The shard has taken so many messages, and its channel holds so many keys.
record Filled (other_size buffer packet_deadline taken waiting : ℕ) : Type 0 where
  steps : ℕ
  state : System
  reached : Reach other_size (started buffer packet_deadline) steps state
  unheld : state.held ≡ none
  not_cancelled : state.cancelled ≡ false
  same_buffer : state.inst.buffer ≡ buffer
  queue_length : length state.inst.key_queue ≡ waiting
  later_new : (j : ℕ) → taken ≤ j → find_bucket (key_of j) state.inst.buckets ≡ none

module _ (other_size buffer packet_deadline : ℕ) where
  abbrev WithWorker : Worker → ℕ → ℕ → Type 0
  WithWorker w taken waiting =
      (f : Filled other_size buffer packet_deadline taken waiting) × (f.state.worker ≡ w)

  fill_one :
      (w : Worker) (taken waiting : ℕ)
      → waiting < buffer
      → WithWorker w taken waiting
      → WithWorker w (suc taken) (suc waiting)
  unfolding send_key
  fill_one w taken waiting room (f, e) =
      let p = push_single other_size taken f.state.inst f.later_new in
      let waits_here =
        event f.reached (waits f.state (key_of taken) single 1 false p.to f.unheld p.pushes) in
      (
        record {
          steps = suc (suc f.steps);
          state = _;
          reached = step waits_here (
              sent _ (key_of taken) false refl
                (rw (p.same_buffer, p.same_queue, f.same_buffer, f.queue_length) room));
          unheld = refl;
          not_cancelled = f.not_cancelled;
          same_buffer = p.same_buffer ∙ f.same_buffer;
          queue_length =
              length_concat p.to.key_queue (key_of taken)
              ∙ ap suc (ap length p.same_queue ∙ f.queue_length);
          later_new = p.later_new;
        },
        e,
      )

  fill : (n : ℕ) → n ≤ buffer → WithWorker idle n n
  unfolding new find_bucket
  fill zero h = (
    record {
      steps = 0;
      state = started buffer packet_deadline;
      reached = here;
      unheld = refl;
      not_cancelled = refl;
      same_buffer = refl;
      queue_length = refl;
      later_new = λ j lt. refl;
    },
    refl,
  )
  fill (suc n) h = fill_one idle n n (omega arith) (fill n (omega arith))

  took_from :
      (taken waiting : ℕ) (f : Filled other_size buffer packet_deadline taken (suc waiting))
      → f.state.worker ≡ idle
      → (queue : List Bytes) → f.state.inst.key_queue ≡ queue
      → (key : Bytes) × WithWorker (popped key) taken waiting
  unfolding receive_key
  took_from taken waiting f e [] q = absurd (omega (arith, ap length q, f.queue_length))
  took_from taken waiting f e (k ∷ ks) q = (
    k,
    (
      record {
        steps = suc f.steps;
        state = _;
        reached = step f.reached (took f.state k ks e q);
        unheld = f.unheld;
        not_cancelled = f.not_cancelled;
        same_buffer = f.same_buffer;
        queue_length = omega (arith, ap length q, f.queue_length);
        later_new = f.later_new;
      },
      refl,
    ),
  )

  -- One more message than there is room for, while the assembler has a key and not the lock.
  block :
      (key : Bytes) (taken : ℕ)
      → WithWorker (popped key) taken buffer
      → (n : ℕ) × (s : System) × Reach other_size (started buffer packet_deadline) n s × Blocked s
  block key taken (f, e) =
      let p = push_single other_size taken f.state.inst f.later_new in
      (
        suc f.steps,
        _,
        event f.reached (waits f.state (key_of taken) single 1 false p.to f.unheld p.pushes),
        record {
          holder = (key_of taken, false);
          waits_for_room = refl;
          is_full = rw (p.same_buffer, p.same_queue, f.same_buffer, f.queue_length) (omega arith);
          not_cancelled = f.not_cancelled;
          waits_for_lock = rw e tt;
        },
      )

  -- Whatever the channel holds, a shard can be blocked: messages of one fragment fill it, the
  -- assembler takes a key, and two more messages come before it has the lock.
  pub Blocked-reachable :
      1 ≤ buffer
      → (n : ℕ) × (s : System) × Reach other_size (started buffer packet_deadline) n s × Blocked s
  Blocked-reachable h =
      let room : suc (buffer - 1) ≡ buffer = omega arith in
      let (f, e) = subst (WithWorker idle buffer) (sym room) (fill buffer (omega arith)) in
      let (key, taken) = took_from buffer (buffer - 1) f e f.state.inst.key_queue refl in
      block key (suc buffer) (
        subst (WithWorker (popped key) (suc buffer)) room
          (fill_one (popped key) buffer (buffer - 1) (omega arith) taken))
