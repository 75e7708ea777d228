-- ===== src/Shards/Queued.antt =====
-- internal/receiver/shard/queue.go and runtime.go: in every state that a shard reaches, a key that
-- waits for the assembler waits once, and its bucket is there and filled.
use sdsyslog.Common.{
  ℕ, ◌+◌, ◌≤◌, ◌≡◌, refl, ap, some_injective, sym, Bool, true, false, Option, none, some, [], ◌∷◌,
  arith, if◌then◌else◌, Option-cases, inl, inr,
}
use sdsyslog.Common.Words.{Bytes, bytes_equal, bytes_equal_iff}
use mathlib.Core.Path.{subst}
use sdsyslog.Shards.{
  Bucket, Buckets, Instance, new, find_bucket, drain_bucket, drain_found, send_key, receive_key,
  counted_pop, sweep, watcher_send, watcher_count,
}
use sdsyslog.Shards.Maps.{
  one, times, times-append, ready, Distinct, find-delete_bucket, delete_bucket-Distinct,
  close_late-Distinct, ready-close_late,
}
use sdsyslog.Shards.Pushes.{Fills, PushFills, push-Fills}
use sdsyslog.Shards.Steps.{
  Worker, idle, popped, keyed, assembling, System, started, Step, sent, given_up, took, counted,
  count_missed, drained, assembled, watcher_sent, watcher_counted, Event, pushed, waits, swept,
  deadline_set, shut, cancel, Reach, here, step, event,
}

abbrev pub times_held : Bytes → Option (Bytes × Bool) → ℕ
times_held k none = 0
times_held k (some (key, timed_out)) = one key k

abbrev pub times_worker : Bytes → Worker → ℕ
times_worker k idle = 0
times_worker k (popped key) = one key k
times_worker k (keyed key) = one key k
times_worker k (assembling bucket) = 0

-- How often a key waits: in the channel, at a send, with the assembler, or with the watcher.
abbrev pub pending : Bytes → System → ℕ
pending k s =
    times k s.inst.key_queue + times_held k s.held + times_worker k s.worker + times k s.watching

-- Equal, or at most where a push may have given its send up.
abbrev pub Balanced : Bool → ℕ → ℕ → Type 0
Balanced true a b = a ≤ b
Balanced false a b = a ≡ b

pub record IsValid (s : System) : Type 0 where
  pub distinct : Distinct s.inst.buckets
  pub queued : (k : Bytes) → Balanced s.cancelled (pending k s) (ready k s.inst.buckets)

Balanced-move : (c : Bool) (a b a' b' : ℕ) → Balanced c a b → a' + b ≡ a + b' → Balanced c a' b'
Balanced-move true a b a' b' h e = omega arith
Balanced-move false a b a' b' h e = omega arith

pub Balanced-le : (c : Bool) (a b : ℕ) → Balanced c a b → a ≤ b
Balanced-le true a b h = h
Balanced-le false a b h = omega arith

pub ready-le : (k : Bytes) (m : Buckets) → ready k m ≤ 1
unfolding ready
ready-le k m = elim (Option-cases (find_bucket k m)) [
  | inl e ↦ rw e (omega arith)
  | inr (b, e) ↦ rw e (ground arith)
]

-- What DrainBucket does to the map.
pub record Drains (key : Bytes) (from : Instance) (bucket : Bucket) (to : Instance) : Type 0 where
  pub found : find_bucket key from.buckets ≡ some bucket
  pub same_queue : to.key_queue ≡ from.key_queue
  pub distinct : Distinct to.buckets
  pub readies :
      (k : Bytes)
      → ready k from.buckets
        ≡ ready k to.buckets + (if bytes_equal key k then ready key from.buckets else 0)

module _ (other_size : ℕ) where
  pub drain_bucket-Drains :
      (key : Bytes) (from : Instance) (bucket : Bucket) (to : Instance)
      → Distinct from.buckets
      → drain_bucket other_size key from ≡ some (bucket, to)
      → Drains key from bucket to
  unfolding drain_bucket drain_found
  drain_bucket-Drains key from bucket to d e = elim (Option-cases (find_bucket key from.buckets)) [
    | inl gone ↦ let no_result = rw gone at e in cc
    | inr (b, there) ↦
        let done = some_injective (rw there at e) in
        subst (λ r. Drains key from r.0 r.1) done
          (record {
            found = there;
            same_queue = refl;
            distinct = delete_bucket-Distinct key from.buckets d;
            readies = λ k.
                unfold ready in
                ground (arith, find-delete_bucket k key from.buckets d, bytes_equal_iff key k);
          })
  ]

  -- Buckets and keys keep step where both change by as much.
  IsValid-move :
      (s t : System)
      → s.cancelled ≡ t.cancelled
      → Distinct t.inst.buckets
      → ((k : Bytes) → pending k t + ready k s.inst.buckets ≡ pending k s + ready k t.inst.buckets)
      → IsValid s
      → IsValid t
  IsValid-move s t c d e v = record {
    distinct = d;
    queued = λ k.
        subst (λ b. Balanced b (pending k t) (ready k t.inst.buckets)) c
          (Balanced-move s.cancelled _ _ _ _ (v.queued k) (e k));
  }

  pub Step-IsValid : {s t : System} → Step other_size s t → IsValid s → IsValid t
  unfolding send_key receive_key counted_pop watcher_send watcher_count times
  Step-IsValid (sent s key late h room) v =
      IsValid-move s _ refl v.distinct
        (λ k. rw h (ground (arith, times-append k s.inst.key_queue (key ∷ [])))) v
  Step-IsValid (given_up s key late h c) v = record {
    distinct = v.distinct;
    queued = λ k.
        let most = Balanced-le s.cancelled _ _ (v.queued k) in
        rw c (ground (arith, ap (times_held k) h));
  }
  Step-IsValid (took s key keys w q) v =
      IsValid-move s _ refl v.distinct (λ k. rw (w, q) (ground arith)) v
  Step-IsValid (counted s key w h) v = IsValid-move s _ refl v.distinct (λ k. rw w (ground arith)) v
  Step-IsValid (count_missed s key w h c) v =
      IsValid-move s _ refl v.distinct (λ k. rw w (ground arith)) v
  Step-IsValid (drained s key bucket inst w h e) v =
      let dr = drain_bucket-Drains key s.inst bucket inst v.distinct e in
      IsValid-move s _ refl dr.distinct
        (λ k. rw w (
          ground (
            arith,
            dr.readies k,
            ap (times k) dr.same_queue,
            ready-le key s.inst.buckets,
            bytes_equal_iff key key,
            Balanced-le s.cancelled _ _ (v.queued key),
          )))
        v
  Step-IsValid (assembled s bucket w) v =
      IsValid-move s _ refl v.distinct (λ k. rw w (ground arith)) v
  Step-IsValid (watcher_sent s key keys w c room) v =
      IsValid-move s _ refl v.distinct
        (λ k. rw w (ground (arith, times-append k s.inst.key_queue (key ∷ [])))) v
  Step-IsValid (watcher_counted s c) v = IsValid-move s _ refl v.distinct (λ k. refl) v

  push-readies :
      (s : System) (key : Bytes) (n : ℕ) (inst : Instance) (held : Option (Bytes × Bool))
      → s.held ≡ none
      → Fills key s.inst n inst
      → ((k : Bytes) → times_held k held ≡ (if bytes_equal key k then n else 0))
      → IsValid s
      → IsValid (record s { inst = inst; held = held })
  push-readies s key n inst held h f e v =
      IsValid-move s _ refl f.distinct
        (λ k. rw h (ground (arith, f.readies k, e k, ap (times k) f.same_queue))) v

  Event-IsValid : {s t : System} → Event other_size s t → IsValid s → IsValid t
  unfolding sweep times
  Event-IsValid (pushed s key fragment now inst h e) v =
      let f =
        subst (PushFills key s.inst) e (push-Fills other_size key fragment now s.inst v.distinct) in
      subst (λ x. IsValid (record s { inst = inst; held = x })) (sym h)
        (push-readies s key 0 inst none h f (λ k. ground arith) v)
  Event-IsValid (waits s key fragment now late inst h e) v =
      let f =
        subst (PushFills key s.inst) e (push-Fills other_size key fragment now s.inst v.distinct) in
      push-readies s key 1 inst (some (key, late)) h f (λ k. refl) v
  Event-IsValid (swept s deadline now h w c) v =
      IsValid-move s _ refl (close_late-Distinct deadline now s.inst.buckets v.distinct)
        (λ k. rw w (ground (arith, ready-close_late deadline now k s.inst.buckets v.distinct))) v
  Event-IsValid (deadline_set s d) v = record { distinct = v.distinct; queued = v.queued }
  Event-IsValid (shut s) v = record { distinct = v.distinct; queued = v.queued }
  Event-IsValid (cancel s) v = record {
    distinct = v.distinct;
    queued = λ k. Balanced-le s.cancelled _ _ (v.queued k);
  }

  pub Reach-IsValid : {s t : System} {n : ℕ} → IsValid s → Reach other_size s n t → IsValid t
  Reach-IsValid v here = v
  Reach-IsValid v (step r st) = Step-IsValid st (Reach-IsValid v r)
  Reach-IsValid v (event r ev) = Event-IsValid ev (Reach-IsValid v r)

pub started-IsValid : (buffer packet_deadline : ℕ) → IsValid (started buffer packet_deadline)
unfolding new ready find_bucket times
started-IsValid buffer packet_deadline = record { distinct = tt; queued = λ k. omega arith }

-- In every state that a shard reaches, each key waits for the assembler once where its bucket is there
-- and filled, and not at all else; only a push whose context is cancelled may leave a filled bucket
-- that waits nowhere.
pub Reach-queued :
    (other_size buffer packet_deadline n : ℕ) (s : System) (k : Bytes)
    → Reach other_size (started buffer packet_deadline) n s
    → Balanced s.cancelled (pending k s) (ready k s.inst.buckets)
Reach-queued other_size buffer packet_deadline n s k r =
    (Reach-IsValid other_size (started-IsValid buffer packet_deadline) r).queued k
