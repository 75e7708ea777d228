-- ===== src/Shards/Pushes.antt =====
-- internal/receiver/shard/queue.go: what a push does to the map of buckets.
use sdsyslog.Common.{
  ltb, ◌∙◌, ℕ, ◌+◌, ◌==◌, ap, ◌∙◌, ◌≡◌, refl, Bool, true, false, Option, none, some, arith,
  if◌then◌else◌, Bool-cases, inl, inr, length,
}
use sdsyslog.Common.Words.{Bytes, bytes_equal, bytes_equal_iff}
use sdsyslog.Protocol.Fragments.{Payload}
use sdsyslog.Shards.{
  elapsed_time, put_fragment, Bucket, Buckets, Instance, find_bucket, put_bucket, close_bucket,
  Pushed, returned, sending, push, push_found, push_into, stored_at, store_fragment, with_bucket,
  new_bucket, counted_push, counted_bucket,
}
use sdsyslog.Shards.Maps.{ready_of, ready, Distinct, find-put_bucket, put_bucket-Distinct}

-- Every key is ready as it was, but `more k` times more.
pub record Fills (key : Bytes) (from : Instance) (fills : ℕ) (to : Instance) : Type 0 where
  pub same_queue : to.key_queue ≡ from.key_queue
  pub same_buffer : to.buffer ≡ from.buffer
  pub distinct : Distinct to.buckets
  pub readies :
      (k : Bytes)
      → ready k to.buckets ≡ ready k from.buckets + (if bytes_equal key k then fills else 0)

-- A push that returns fills no bucket, and one that sends fills the bucket whose key it sends.
abbrev pub PushFills : Bytes → Instance → Pushed → Type 0
PushFills key from (returned to) = Fills key from 0 to
PushFills key from (sending timed_out to) = Fills key from 1 to

-- Whether a bucket that is put at an open key fills it.
put-Fills :
    (key : Bytes) (bucket : Bucket) (from to : Instance)
    → to.key_queue ≡ from.key_queue
    → to.buffer ≡ from.buffer
    → to.buckets ≡ put_bucket key bucket from.buckets
    → Distinct from.buckets
    → ready key from.buckets ≡ 0
    → Fills key from (ready_of (some bucket)) to
put-Fills key bucket from to q b e d open_key = record {
  same_queue = q;
  same_buffer = b;
  distinct = rw e (put_bucket-Distinct key bucket from.buckets d);
  readies = λ k.
      unfold ready in
      ground (arith, e, open_key, find-put_bucket k key bucket from.buckets, bytes_equal_iff key k);
}

Fills-through :
    (key : Bytes) (n : ℕ) (from mid to : Instance)
    → Fills key from 0 mid
    → Fills key mid n to
    → Fills key from n to
Fills-through key n from mid to f g = record {
  same_queue = g.same_queue ∙ f.same_queue;
  same_buffer = g.same_buffer ∙ f.same_buffer;
  distinct = g.distinct;
  readies = λ k. ground (arith, f.readies k, g.readies k);
}

PushFills-through :
    (key : Bytes) (from mid : Instance) (p : Pushed)
    → Fills key from 0 mid
    → PushFills key mid p
    → PushFills key from p
PushFills-through key from mid (returned to) f g = Fills-through key 0 from mid to f g
PushFills-through key from mid (sending timed_out to) f g = Fills-through key 1 from mid to f g

if-PushFills :
    (key : Bytes) (from : Instance) (test : Bool) (p q : Pushed)
    → (test ≡ true → PushFills key from p)
    → (test ≡ false → PushFills key from q)
    → PushFills key from (if test then p else q)
if-PushFills key from true p q f g = f refl
if-PushFills key from false p q f g = g refl

Fills-same :
    (key : Bytes) (from to : Instance)
    → to.key_queue ≡ from.key_queue
    → to.buffer ≡ from.buffer
    → to.buckets ≡ from.buckets
    → Distinct from.buckets
    → Fills key from 0 to
Fills-same key from to q b e d = record {
  same_queue = q;
  same_buffer = b;
  distinct = rw e d;
  readies = λ k. unfold ready in rw e (ground arith);
}

ready-none : (key : Bytes) (m : Buckets) → find_bucket key m ≡ none → ready key m ≡ 0
unfolding ready
ready-none key m e = rw e

ready-open :
    (key : Bytes) (m : Buckets) (b : Bucket)
    → find_bucket key m ≡ some b
    → b.filled ≡ false
    → ready key m ≡ 0
unfolding ready
ready-open key m b e f = rw (e, f)

module _ (other_size : ℕ) where
  stored_at-Fills :
      (key : Bytes) (fragment : Payload) (now : ℕ) (bucket : Bucket) (inst mid : Instance)
      → mid.key_queue ≡ inst.key_queue
      → mid.buffer ≡ inst.buffer
      → mid.buckets ≡ inst.buckets
      → Distinct inst.buckets
      → ready key inst.buckets ≡ 0
      → bucket.filled ≡ false
      → PushFills key inst (stored_at key (store_fragment fragment now bucket) mid)
  unfolding stored_at store_fragment
  stored_at-Fills key fragment now bucket inst mid q b m d r f =
      elim (Bool-cases (
        length (put_fragment fragment.message_seq fragment bucket.fragments)
        == bucket.max_seq + 1)) [
          | inl full ↦ rw full (put-Fills key _ inst _ q b (ap (put_bucket key _) m) d r)
          | inr room ↦ rw (room, f) (put-Fills key _ inst _ q b (ap (put_bucket key _) m) d r)
        ]

  push_into-Fills :
      (key : Bytes) (fragment : Payload) (now : ℕ) (bucket : Bucket) (inst : Instance)
      → Distinct inst.buckets
      → ready key inst.buckets ≡ 0
      → bucket.filled ≡ false
      → PushFills key inst (push_into other_size key fragment now bucket inst)
  unfolding push_into
  push_into-Fills key fragment now bucket inst d r f =
      elim (Bool-cases (ltb inst.packet_deadline (elapsed_time now bucket))) [
        | inl late ↦ rw late (put-Fills key (close_bucket bucket) inst _ refl refl refl d r)
        | inr early ↦ rw early (stored_at-Fills key fragment now bucket inst _ refl refl refl d r f)
      ]

  push_found-Fills :
      (key : Bytes) (fragment : Payload) (now : ℕ) (found : Option Bucket) (inst : Instance)
      → Distinct inst.buckets
      → find_bucket key inst.buckets ≡ found
      → PushFills key inst (push_found other_size key fragment now found inst)
  unfolding push_found
  push_found-Fills key fragment now none inst d e =
      let closed = ready-none key inst.buckets e in
      let put =
        put-Fills key (new_bucket fragment) inst
          (counted_bucket (with_bucket key (new_bucket fragment) inst)) refl refl refl d closed in
      PushFills-through key inst _ _ put (
        push_into-Fills key fragment now (new_bucket fragment) _ put.distinct
          (ground (arith, put.readies key, closed)) refl)
  push_found-Fills key fragment now (some bucket) inst d e =
      if-PushFills key inst bucket.filled _ _ (λ _. Fills-same key inst inst refl refl refl d)
        (λ open_to.
          if-PushFills key inst (bucket.max_seq == fragment.message_seq_max) _ _
            (λ _.
              push_into-Fills key fragment now bucket inst d
                (ready-open key inst.buckets bucket e open_to) open_to)
            (λ _. Fills-same key inst inst refl refl refl d))

  pub push-Fills :
      (key : Bytes) (fragment : Payload) (now : ℕ) (inst : Instance)
      → Distinct inst.buckets
      → PushFills key inst (push other_size key fragment now inst)
  unfolding push
  push-Fills key fragment now inst d =
      PushFills-through key inst (counted_push inst) _
        (Fills-same key inst (counted_push inst) refl refl refl d)
        (push_found-Fills key fragment now (find_bucket key inst.buckets) (counted_push inst) d
          refl)
