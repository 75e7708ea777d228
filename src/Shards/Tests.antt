-- ===== src/Shards/Tests.antt =====
-- internal/receiver/shard: a message of three fragments, a message that is late, and a full channel.
use sdsyslog.Common.{ℕ, ◌+◌, ◌≤◌, ◌≡◌, refl, true, false, some, List, [], ◌∷◌, arith, ok, map, ◌⊎◌}
use sdsyslog.Common.Words.{Bytes, bytes_equal}
use sdsyslog.Protocol.Values.{any_equal}
use sdsyslog.Protocol.Fragments.{Payload, defragment, rebuilt, custom_fields_equal}
use sdsyslog.Protocol.Fragments.Tests.{
  fields, with_fields, message, lowest, parts, shuffled, parts_made, shuffled-Reordered,
}
use sdsyslog.Protocol.Fragments.Sorting.{find}
use sdsyslog.Shards.{
  Bucket, Instance, new, find_bucket, push, drain_bucket, put_bucket, store_fragment, put_fragment,
  elapsed_time, stored_at, send_key,
}
use sdsyslog.Shards.Assembly.{Arrival, push_each, those, keyed, push_each-defragment}
use sdsyslog.Shards.Deadlock.{Frozen, Blocked-Reach}
use sdsyslog.Shards.Drift.{
  keyed_state, drained_state, keyed_reached, keyed_drained, waiting_buckets_drift,
}
use sdsyslog.Shards.Filling.{Blocked-reachable}
use sdsyslog.Shards.Maps.{ready}
use sdsyslog.Shards.Progress.{weight, settles, Runs-weight, drain_bucket-filled}
use sdsyslog.Shards.Moves.{AtRest, Blocked}
use sdsyslog.Shards.Queued.{Balanced, pending, Reach-queued}
use sdsyslog.Shards.Steps.{System, started, Step, Runs, stop, go, Reach, here, event, shut}

abbrev arrival : Bytes → ℕ → Payload → Arrival
arrival key now piece = record { key = key; piece = piece; now = now }

-- The fragments of the message, out of order and with one of another message between.
abbrev arrivals : List Arrival
arrivals =
    arrival (1 ∷ []) 10 (with_fields fields 2 2 10 (5 ∷ []))
    ∷ arrival (2 ∷ []) 11 message
    ∷ arrival (1 ∷ []) 14 (with_fields fields 0 2 10 (1 ∷ 2 ∷ []))
    ∷ arrival (1 ∷ []) 19 (with_fields fields 1 2 10 (3 ∷ 4 ∷ []))
    ∷ []

push_each-defragment_example :
    (bucket : Bucket) × (find_bucket (1 ∷ []) (push_each 0 arrivals (new 1024 5)).buckets
      ≡ some bucket)
    × (bucket.filled ≡ true)
    × (bucket.fragments ≡ map keyed shuffled)
    × (defragment parts ≡ ok (rebuilt message (1 ∷ 2 ∷ 3 ∷ 4 ∷ 5 ∷ [])))
unfolding those bytes_equal any_equal new find find_bucket
push_each-defragment_example =
    push_each-defragment 0 lowest message 32 20 parts (1 ∷ []) arrivals (new 1024 5) parts
      (omega arith) (unfold custom_fields_equal in refl) parts_made shuffled-Reordered refl
      (omega arith) refl
      (record { distinct = (refl, (refl, (refl, tt))); same = λ i. ground arith })

-- The bucket of the other message, of one fragment, is filled at once.
other_message :
    find_bucket (2 ∷ []) (push_each 0 arrivals (new 1024 5)).buckets
    ≡ some (record {
      filled = true;
      fragments = (0, message) ∷ [];
      max_seq = 0;
      last_process_start_time = 11;
    })
unfolding push_each push put_bucket store_fragment put_fragment elapsed_time find_bucket new
    bytes_equal stored_at send_key
other_message = refl

one_fits : 1 ≤ 1024
one_fits = omega arith

late_reached : Reach 0 (started 1024 5) 5 (keyed_state 0 1024 5)
late_reached = keyed_reached 0 1024 5 one_fits

Reach-queued_example :
    Balanced false
      (pending [] (keyed_state 0 1024 5))
      (ready [] (keyed_state 0 1024 5).inst.buckets)
Reach-queued_example = Reach-queued 0 1024 5 5 (keyed_state 0 1024 5) [] late_reached

drain_bucket-filled_example :
    (bucket : Bucket) × (inst : Instance) × (drain_bucket 0 [] (keyed_state 0 1024 5).inst
      ≡ some (bucket, inst))
    × (find_bucket [] (keyed_state 0 1024 5).inst.buckets ≡ some bucket)
    × (bucket.filled ≡ true)
drain_bucket-filled_example =
    drain_bucket-filled 0 1024 5 5 (keyed_state 0 1024 5) [] late_reached refl

one_run : Runs 0 (keyed_state 0 1024 5) 1 (drained_state 0 1024 5)
one_run = go stop (keyed_drained 0 1024 5)

settles_example :
    ((u : System) × Step 0 (drained_state 0 1024 5) u)
    ⊎ (AtRest (drained_state 0 1024 5)
        × ((k : Bytes) → ready k (drained_state 0 1024 5).inst.buckets ≡ 0))
settles_example =
    settles 0 1024 5 5 1 (keyed_state 0 1024 5) (drained_state 0 1024 5) one_fits late_reached refl
      refl one_run

Runs-weight_example : 1 + weight (drained_state 0 1024 5) ≤ weight (keyed_state 0 1024 5)
Runs-weight_example = Runs-weight 0 one_run

Blocked-reachable_example : (n : ℕ) × (s : System) × Reach 0 (started 1024 5) n s × Blocked s
Blocked-reachable_example = Blocked-reachable 0 1024 5 one_fits

abbrev blocked_state : System
blocked_state = (Blocked-reachable 0 1024 5 one_fits).1

Blocked-Reach_example :
    Frozen blocked_state
      (record blocked_state { inst = record blocked_state.inst { in_shutdown = true } })
Blocked-Reach_example =
    Blocked-Reach 0 (Blocked-reachable 0 1024 5 one_fits).3 (event here (shut blocked_state))
      (Blocked-reachable 0 1024 5 one_fits).3.not_cancelled

waiting_buckets_drift_example :
    (n : ℕ) × (s : System) × Reach 0 (started 1024 5) n s
    × AtRest s
    × (s.inst.buckets ≡ [])
    × (s.inst.metrics.waiting_buckets ≡ 1)
waiting_buckets_drift_example = waiting_buckets_drift 0 1024 5 one_fits
