-- ===== src/Shards/Counts.antt =====
-- internal/receiver/shard/queue.go: the counter of buckets, on which removeInstance of
-- internal/receiver/assembler/runtime.go waits.
use sdsyslog.Common.{
  ℕ, suc, ◌+◌, ◌^◌, ◌<◌, ◌≤◌, ◌≡◌, refl, some_injective, ap, sym, ◌∙◌, Bool, true, false, Option,
  none, some, [], ◌∷◌, arith, length, if◌then◌else◌, ltb, ◌==◌, Option-cases, inl, inr,
}
use mathlib.Core.Path.{subst}
use sdsyslog.Common.Words.{Bytes, bytes_equal_iff}
use sdsyslog.Protocol.Fragments.{Payload}
use sdsyslog.Shards.{
  Bucket, Buckets, Instance, new, find_bucket, put_bucket, delete_bucket, Pushed, returned, sending,
  push, push_found, push_into, stored_at, store_fragment, elapsed_time, send_key, new_bucket,
  counted_push, add64, subtract, drain_bucket, drain_found, receive_key, counted_pop, watcher_send,
  watcher_count, sweep,
}
use sdsyslog.Shards.Maps.{find-put_bucket, length-close_late}
use sdsyslog.Shards.Steps.{
  System, started, Step, sent, given_up, took, counted, count_missed, drained, assembled,
  watcher_sent, watcher_counted, Event, pushed, waits, swept, deadline_set, shut, cancel, Reach,
  here, step, event,
}

length-put_bucket_old :
    (k : Bytes) (old b : Bucket) (m : Buckets)
    → find_bucket k m ≡ some old
    → length (put_bucket k b m) ≡ length m
unfolding find_bucket put_bucket
length-put_bucket_old k old b [] h = cc
length-put_bucket_old k old b ((i, c) ∷ m) h = ground (arith, length-put_bucket_old k old b m)

length-put_bucket_new :
    (k : Bytes) (b : Bucket) (m : Buckets)
    → find_bucket k m ≡ none
    → length (put_bucket k b m) ≡ suc (length m)
unfolding find_bucket put_bucket
length-put_bucket_new k b [] h = refl
length-put_bucket_new k b ((i, c) ∷ m) h = ground (arith, length-put_bucket_new k b m)

length-delete_bucket :
    (k : Bytes) (b : Bucket) (m : Buckets)
    → find_bucket k m ≡ some b
    → suc (length (delete_bucket k m)) ≡ length m
unfolding find_bucket delete_bucket
length-delete_bucket k b [] h = cc
length-delete_bucket k b ((i, c) ∷ m) h = ground (arith, length-delete_bucket k b m)

-- The counter is the number of buckets, of which there are so many at most.
pub record Counted (most : ℕ) (inst : Instance) : Type 0 where
  pub exact : inst.metrics.total_buckets ≡ length inst.buckets
  pub bounded : length inst.buckets ≤ most

abbrev PushCounted : ℕ → Pushed → Type 0
PushCounted most (returned inst) = Counted most inst
PushCounted most (sending timed_out inst) = Counted most inst

Counted-put :
    (key : Bytes) (old b : Bucket) (most : ℕ) (from to : Instance)
    → find_bucket key from.buckets ≡ some old
    → to.metrics.total_buckets ≡ from.metrics.total_buckets
    → to.buckets ≡ put_bucket key b from.buckets
    → Counted most from
    → Counted most to
Counted-put key old b most from to h t e c = record {
  exact = t ∙ (c.exact ∙ sym (ap length e ∙ length-put_bucket_old key old b from.buckets h));
  bounded = omega (arith, ap length e, length-put_bucket_old key old b from.buckets h, c.bounded);
}

Counted-suc : (most : ℕ) (inst : Instance) → Counted most inst → Counted (suc most) inst
Counted-suc most inst c = record { exact = c.exact; bounded = omega (arith, c.bounded) }

if-PushCounted :
    (most : ℕ) (test : Bool) (p q : Pushed)
    → PushCounted most p
    → PushCounted most q
    → PushCounted most (if test then p else q)
if-PushCounted most true p q f g = f
if-PushCounted most false p q f g = g

module _ (other_size : ℕ) where
  push_into-Counted :
      (key : Bytes) (fragment : Payload) (now most : ℕ) (old b : Bucket) (inst : Instance)
      → find_bucket key inst.buckets ≡ some old
      → Counted most inst
      → PushCounted most (push_into other_size key fragment now b inst)
  unfolding push_into stored_at
  push_into-Counted key fragment now most old b inst h c =
      if-PushCounted most (ltb inst.packet_deadline (elapsed_time now b)) _ _
        (Counted-put key old _ most inst _ h refl refl c)
        (if-PushCounted most
          (length (store_fragment fragment now b).fragments
            == (store_fragment fragment now b).max_seq + 1)
          _ _ (Counted-put key old _ most inst _ h refl refl c)
          (Counted-put key old _ most inst _ h refl refl c))

  push_found-Counted :
      (key : Bytes) (fragment : Payload) (now most : ℕ) (o : Option Bucket) (inst : Instance)
      → suc most < 2 ^ 64
      → find_bucket key inst.buckets ≡ o
      → Counted most inst
      → PushCounted (suc most) (push_found other_size key fragment now o inst)
  unfolding push_found
  push_found-Counted key fragment now most none inst small h c =
      push_into-Counted key fragment now (suc most) (new_bucket fragment) (new_bucket fragment) _
        (rw (find-put_bucket key key, (bytes_equal_iff key key).1 refl))
        (record {
          exact =
              rw (length-put_bucket_new key (new_bucket fragment) inst.buckets h)
                (unfold add64 in omega (arith, c.exact, c.bounded, small));
          bounded =
              omega
                (arith, length-put_bucket_new key (new_bucket fragment) inst.buckets h, c.bounded);
        })
  push_found-Counted key fragment now most (some b) inst small h c =
      if-PushCounted (suc most) b.filled _ _ (Counted-suc most inst c) (
        if-PushCounted (suc most) (b.max_seq == fragment.message_seq_max) _ _
          (push_into-Counted key fragment now (suc most) b b inst h (Counted-suc most inst c))
          (Counted-suc most inst c))

  push-Counted :
      (key : Bytes) (fragment : Payload) (now most : ℕ) (inst : Instance)
      → suc most < 2 ^ 64
      → Counted most inst
      → PushCounted (suc most) (push other_size key fragment now inst)
  unfolding push
  push-Counted key fragment now most inst small c =
      push_found-Counted key fragment now most (find_bucket key inst.buckets) (counted_push inst)
        small refl (record { exact = c.exact; bounded = c.bounded })

  drain_bucket-Counted :
      (key : Bytes) (most : ℕ) (from : Instance) (bucket : Bucket) (to : Instance)
      → Counted most from
      → drain_bucket other_size key from ≡ some (bucket, to)
      → Counted most to
  unfolding drain_bucket drain_found subtract
  drain_bucket-Counted key most from bucket to c e =
      elim (Option-cases (find_bucket key from.buckets)) [
        | inl gone ↦ let no_result = rw gone at e in cc
        | inr (b, there) ↦
            let one_less = length-delete_bucket key b from.buckets there in
            subst (λ (r : Bucket × Instance). Counted most r.1) (some_injective (rw there at e))
              (record {
                exact = ground (arith, c.exact, one_less);
                bounded = omega (arith, c.bounded, one_less);
              })
      ]

  Step-Counted :
      {s t : System} (most : ℕ) → Step other_size s t → Counted most s.inst → Counted most t.inst
  unfolding send_key receive_key counted_pop watcher_send watcher_count
  Step-Counted most (sent s key late e room) c = record { exact = c.exact; bounded = c.bounded }
  Step-Counted most (given_up s key late e k) c = c
  Step-Counted most (took s key keys w q) c = record { exact = c.exact; bounded = c.bounded }
  Step-Counted most (counted s key w e) c = record { exact = c.exact; bounded = c.bounded }
  Step-Counted most (count_missed s key w e k) c = record { exact = c.exact; bounded = c.bounded }
  Step-Counted most (drained s key bucket inst w e d) c =
      drain_bucket-Counted key most s.inst bucket inst c d
  Step-Counted most (assembled s bucket w) c = c
  Step-Counted most (watcher_sent s key keys w k room) c = record {
    exact = c.exact;
    bounded = c.bounded;
  }
  Step-Counted most (watcher_counted s k) c = record { exact = c.exact; bounded = c.bounded }

  Event-Counted :
      {s t : System} (most : ℕ)
      → suc most < 2 ^ 64
      → Event other_size s t
      → Counted most s.inst
      → Counted (suc most) t.inst
  unfolding sweep
  Event-Counted most small (pushed s key fragment now inst h e) c =
      subst (PushCounted (suc most)) e (push-Counted key fragment now most s.inst small c)
  Event-Counted most small (waits s key fragment now late inst h e) c =
      subst (PushCounted (suc most)) e (push-Counted key fragment now most s.inst small c)
  Event-Counted most small (swept s deadline now h w k) c =
      let kept = length-close_late deadline now s.inst.buckets in
      record { exact = c.exact ∙ sym kept; bounded = omega (arith, kept, c.bounded) }
  Event-Counted most small (deadline_set s d) c = record {
    exact = c.exact;
    bounded = omega (arith, c.bounded);
  }
  Event-Counted most small (shut s) c = record {
    exact = c.exact;
    bounded = omega (arith, c.bounded);
  }
  Event-Counted most small (cancel s) c = Counted-suc most s.inst c

  -- In every state that a shard reaches in fewer than 2^64 steps, the counter of buckets is their
  -- number, at most the number of steps: no addition to it wraps and no subtraction from it is lost.
  pub Reach-Counted :
      (buffer packet_deadline : ℕ) {s : System} {n : ℕ}
      → n < 2 ^ 64
      → Reach other_size (started buffer packet_deadline) n s
      → Counted n s.inst
  unfolding new
  Reach-Counted buffer packet_deadline small here = record { exact = refl; bounded = omega arith }
  Reach-Counted buffer packet_deadline small (step {n} {t} r st) =
      Counted-suc n _ (Step-Counted n st (Reach-Counted buffer packet_deadline (omega arith) r))
  Reach-Counted buffer packet_deadline small (event {n} r ev) =
      Event-Counted n small ev (Reach-Counted buffer packet_deadline (omega arith) r)
