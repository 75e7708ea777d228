-- ===== src/Shards/Arrivals.antt =====
-- internal/receiver/shard/queue.go: what a sequence of pushes makes of one bucket.
use sdsyslog.Common.{
  ℕ, ◌+◌, ◌≡◌, refl, ◌∙◌, Bool, true, false, Option, none, some, arith, length, if◌then◌else◌, ltb,
  ◌==◌, Bool-cases, inl, inr,
}
use sdsyslog.Common.Words.{Bytes, bytes_equal, bytes_equal_iff}
use sdsyslog.Protocol.Fragments.{Payload}
use sdsyslog.Shards.{
  Bucket, Instance, find_bucket, put_bucket, Pushed, returned, sending, push, push_found, push_into,
  stored_at, store_fragment, elapsed_time, send_key, new_bucket, close_bucket, counted_push,
}
use sdsyslog.Shards.Maps.{find-put_bucket}

-- The shard after a push, where a send finds room in the channel.
abbrev pub after_push : Bytes → Pushed → Instance
after_push key (returned inst) = inst
after_push key (sending timed_out inst) = send_key key timed_out inst

-- An open bucket after a fragment.
abbrev pub bucket_into : ℕ → Payload → ℕ → Bucket → Bucket
bucket_into deadline fragment now b =
    if ltb deadline (elapsed_time now b) then close_bucket b else store_fragment fragment now b

-- The bucket of a key after a fragment for the key.
abbrev pub bucket_after : ℕ → Payload → ℕ → Option Bucket → Bucket
bucket_after deadline fragment now none = bucket_into deadline fragment now (new_bucket fragment)
bucket_after deadline fragment now (some b) =
    if b.filled
    then b
    else if b.max_seq == fragment.message_seq_max
    then bucket_into deadline fragment now b
    else b

-- A shard that differs from another in its metrics, its channel and one bucket.
record Puts (key : Bytes) (b : Bucket) (from to : Instance) : Type 0 where
  same_deadline : to.packet_deadline ≡ from.packet_deadline
  found :
      (j : Bytes)
      → find_bucket j to.buckets
        ≡ (if bytes_equal key j then some b else find_bucket j from.buckets)

Puts-new :
    (key : Bytes) (b : Bucket) (from to : Instance)
    → to.packet_deadline ≡ from.packet_deadline
    → to.buckets ≡ put_bucket key b from.buckets
    → Puts key b from to
Puts-new key b from to d e = record {
  same_deadline = d;
  found = λ j. rw e (find-put_bucket j key b from.buckets);
}

Puts-same :
    (key : Bytes) (b : Bucket) (from to : Instance)
    → to.packet_deadline ≡ from.packet_deadline
    → to.buckets ≡ from.buckets
    → find_bucket key from.buckets ≡ some b
    → Puts key b from to
Puts-same key b from to d e h = record {
  same_deadline = d;
  found = λ j. rw e (ground (arith, h, bytes_equal_iff key j));
}

Puts-through :
    (key : Bytes) (a b : Bucket) (from mid to : Instance)
    → Puts key a from mid
    → Puts key b mid to
    → Puts key b from to
Puts-through key a b from mid to f g = record {
  same_deadline = g.same_deadline ∙ f.same_deadline;
  found = λ j. ground (arith, f.found j, g.found j);
}

module _ (other_size : ℕ) where
  push_into-Puts :
      (key : Bytes) (fragment : Payload) (now : ℕ) (b : Bucket) (from : Instance)
      → Puts key
          (bucket_into from.packet_deadline fragment now b)
          from
          (after_push key (push_into other_size key fragment now b from))
  unfolding push_into stored_at send_key
  push_into-Puts key fragment now b from =
      elim (Bool-cases (ltb from.packet_deadline (elapsed_time now b))) [
        | inl late ↦ rw late (Puts-new key (close_bucket b) from _ refl refl)
        | inr early ↦
            rw early
              (elim (Bool-cases (
                length (store_fragment fragment now b).fragments
                == (store_fragment fragment now b).max_seq + 1)) [
                  | inl full ↦
                      rw full (Puts-new key (store_fragment fragment now b) from _ refl refl)
                  | inr room ↦
                      rw room (Puts-new key (store_fragment fragment now b) from _ refl refl)
                ])
      ]

  if-Puts :
      (key : Bytes) (test : Bool) (a b : Bucket) (from : Instance) (p q : Pushed)
      → (test ≡ true → Puts key a from (after_push key p))
      → (test ≡ false → Puts key b from (after_push key q))
      → Puts key (if test then a else b) from (after_push key (if test then p else q))
  if-Puts key true a b from p q f g = f refl
  if-Puts key false a b from p q f g = g refl

  push_found-Puts :
      (key : Bytes) (fragment : Payload) (now : ℕ) (o : Option Bucket) (from : Instance)
      → find_bucket key from.buckets ≡ o
      → Puts key
          (bucket_after from.packet_deadline fragment now o)
          from
          (after_push key (push_found other_size key fragment now o from))
  unfolding push_found
  push_found-Puts key fragment now none from h =
      Puts-through key (new_bucket fragment) _ from _ _
        (Puts-new key (new_bucket fragment) from _ refl refl)
        (push_into-Puts key fragment now (new_bucket fragment) _)
  push_found-Puts key fragment now (some b) from h =
      if-Puts key b.filled _ _ from _ _ (λ _. Puts-same key b from from refl refl h)
        (λ _.
          if-Puts key (b.max_seq == fragment.message_seq_max) _ _ from _ _
            (λ _. push_into-Puts key fragment now b from)
            (λ _. Puts-same key b from from refl refl h))

  -- A push changes the bucket of its key as `bucket_after` says, and no other.
  pub find-push :
      (key : Bytes) (fragment : Payload) (now : ℕ) (from : Instance) (j : Bytes)
      → find_bucket j (after_push key (push other_size key fragment now from)).buckets ≡ (
          if bytes_equal key j
          then some (bucket_after from.packet_deadline fragment now (find_bucket key from.buckets))
          else find_bucket j from.buckets)
  unfolding push
  find-push key fragment now from j =
      (push_found-Puts key fragment now (find_bucket key from.buckets) (counted_push from)
          refl).found
        j

  pub packet_deadline-push :
      (key : Bytes) (fragment : Payload) (now : ℕ) (from : Instance)
      → (after_push key (push other_size key fragment now from)).packet_deadline
        ≡ from.packet_deadline
  unfolding push
  packet_deadline-push key fragment now from =
      (push_found-Puts key fragment now (find_bucket key from.buckets) (counted_push from)
        refl).same_deadline
