-- ===== src/Shards/Progress.antt =====
-- internal/receiver/shard/queue.go and runtime.go, internal/receiver/assembler/worker.go: the steps
-- of a shard end, and where they end.
use sdsyslog.Common.{
  ℕ, ◌+◌, ◌*◌, ◌<◌, ◌≤◌, ◌≡◌, refl, some_injective, ap, sym, ◌∙◌, ◌⊎◌, inl, inr, Bool, true, false,
  Option, none, some, List, [], ◌∷◌, arith, if◌then◌else◌, Option-cases, length, length-append,
}
use sdsyslog.Common.Words.{Bytes, bytes_equal_iff}
use mathlib.Core.Path.{subst}
use sdsyslog.Shards.Pushes.{PushFills, push-Fills}
use sdsyslog.Shards.{
  new, sweep, Bucket, Instance, without_bucket, find_bucket, drain_bucket, drain_found, send_key,
  receive_key, counted_pop, watcher_send, watcher_count,
}
use sdsyslog.Shards.Maps.{times, ready}
use sdsyslog.Shards.Queued.{
  pending, times_held, times_worker, IsValid, Step-IsValid, Balanced, Balanced-le, Reach-IsValid,
  started-IsValid,
}
use sdsyslog.Shards.Moves.{AtRest, Next, moves, rests, blocks, next}
use sdsyslog.Shards.Steps.{
  Worker, idle, popped, keyed, assembling, System, started, Step, sent, given_up, took, counted,
  count_missed, drained, assembled, watcher_sent, watcher_counted, Event, pushed, waits, swept,
  deadline_set, shut, cancel, here, step, event, Reach, Runs, stop, go,
}

abbrev worker_weight : Worker → ℕ
worker_weight idle = 0
worker_weight (popped key) = 3
worker_weight (keyed key) = 2
worker_weight (assembling bucket) = 1

abbrev held_weight : Option (Bytes × Bool) → ℕ
held_weight none = 0
held_weight (some h) = 5

-- How many steps are left at most.
abbrev pub weight : System → ℕ
weight s =
    length s.watching * 6
    + held_weight s.held
    + length s.inst.key_queue * 4
    + worker_weight s.worker
    + (if s.counting then 1 else 0)

-- The bucket of a key that waits is there and filled.
ready-found :
    (k : Bytes) (m : List (Bytes × Bucket))
    → 1 ≤ ready k m
    → (b : Bucket) × (find_bucket k m ≡ some b) × (b.filled ≡ true)
unfolding ready
ready-found k m h = elim (Option-cases (find_bucket k m)) [
  | inl gone ↦ let none_ready = rw gone at h in absurd (omega arith)
  | inr (b, there) ↦ (b, there, let one_ready = rw there at h in ground arith)
]

module _ (other_size : ℕ) where
  drain_bucket-queue :
      (key : Bytes) (from : Instance) (bucket : Bucket) (to : Instance)
      → drain_bucket other_size key from ≡ some (bucket, to)
      → to.key_queue ≡ from.key_queue
  unfolding drain_bucket drain_found
  drain_bucket-queue key from bucket to e = elim (Option-cases (find_bucket key from.buckets)) [
    | inl gone ↦ let no_result = rw gone at e in cc
    | inr (b, there) ↦
        ap (λ (r : Bucket × Instance). r.1.key_queue) (sym (some_injective (rw there at e)))
  ]

  -- The steps of the threads end: each leaves fewer steps to go.
  pub Step-weight : {s t : System} → Step other_size s t → weight t < weight s
  unfolding send_key receive_key counted_pop watcher_send watcher_count
  Step-weight (sent s key late h room) =
      rw h (omega (arith, length-append s.inst.key_queue (key ∷ [])))
  Step-weight (given_up s key late h c) = rw h (omega arith)
  Step-weight (took s key keys w q) = rw (w, q) (omega arith)
  Step-weight (counted s key w h) = rw w (omega arith)
  Step-weight (count_missed s key w h c) = rw (w, c) (omega arith)
  Step-weight (drained s key bucket inst w h e) =
      rw (w, drain_bucket-queue key s.inst bucket inst e) (omega arith)
  Step-weight (assembled s bucket w) = rw w (omega arith)
  Step-weight (watcher_sent s key keys w c room) =
      rw (w, c) (omega (arith, length-append s.inst.key_queue (key ∷ [])))
  Step-weight (watcher_counted s c) = rw c (omega arith)

module _ (other_size : ℕ) where
  Step-unheld : {s t : System} → Step other_size s t → s.held ≡ none → t.held ≡ none
  Step-unheld (sent s key late e room) h = refl
  Step-unheld (given_up s key late e c) h = refl
  Step-unheld (took s key keys w q) h = h
  Step-unheld (counted s key w e) h = h
  Step-unheld (count_missed s key w e c) h = h
  Step-unheld (drained s key bucket inst w e d) h = h
  Step-unheld (assembled s bucket w) h = h
  Step-unheld (watcher_sent s key keys w c room) h = h
  Step-unheld (watcher_counted s c) h = h

  drain_bucket-buffer :
      (key : Bytes) (from : Instance) (bucket : Bucket) (to : Instance)
      → drain_bucket other_size key from ≡ some (bucket, to)
      → to.buffer ≡ from.buffer
  unfolding drain_bucket drain_found
  drain_bucket-buffer key from bucket to e = elim (Option-cases (find_bucket key from.buckets)) [
    | inl gone ↦ let no_result = rw gone at e in cc
    | inr (b, there) ↦
        ap (λ (r : Bucket × Instance). r.1.buffer) (sym (some_injective (rw there at e)))
  ]

  Step-buffer : {s t : System} → Step other_size s t → t.inst.buffer ≡ s.inst.buffer
  unfolding send_key receive_key counted_pop watcher_send watcher_count
  Step-buffer (sent s key late e room) = refl
  Step-buffer (given_up s key late e c) = refl
  Step-buffer (took s key keys w q) = refl
  Step-buffer (counted s key w e) = refl
  Step-buffer (count_missed s key w e c) = refl
  Step-buffer (drained s key bucket inst w e d) = drain_bucket-buffer key s.inst bucket inst d
  Step-buffer (assembled s bucket w) = refl
  Step-buffer (watcher_sent s key keys w c room) = refl
  Step-buffer (watcher_counted s c) = refl

  drain_bucket-some :
      (s : System) (key : Bytes)
      → IsValid s
      → s.worker ≡ keyed key
      → (bucket : Bucket) × (inst : Instance) × (drain_bucket other_size key s.inst
          ≡ some (bucket, inst))
        × (find_bucket key s.inst.buckets ≡ some bucket)
        × (bucket.filled ≡ true)
  unfolding drain_bucket drain_found
  drain_bucket-some s key v w =
      let most = Balanced-le s.cancelled _ _ (v.queued key) in
      let (b, there, full) =
        ready-found key s.inst.buckets
          (ground (arith, ap (times_worker key) w, bytes_equal_iff key key)) in
      (b, without_bucket other_size key b s.inst, rw there, there, full)

  -- DrainBucket finds the bucket whose key PopKey returned, and it is filled: the second unlock of Mu
  -- for a missing key is never reached, with the one assembler that a shard has.
  pub drain_bucket-filled :
      (buffer packet_deadline n : ℕ) (s : System) (key : Bytes)
      → Reach other_size (started buffer packet_deadline) n s
      → s.worker ≡ keyed key
      → (bucket : Bucket) × (inst : Instance) × (drain_bucket other_size key s.inst
          ≡ some (bucket, inst))
        × (find_bucket key s.inst.buckets ≡ some bucket)
        × (bucket.filled ≡ true)
  drain_bucket-filled buffer packet_deadline n s key r w =
      drain_bucket-some s key (Reach-IsValid other_size (started-IsValid buffer packet_deadline) r)
        w

  Event-buffer : {s t : System} → IsValid s → Event other_size s t → t.inst.buffer ≡ s.inst.buffer
  unfolding sweep
  Event-buffer v (pushed s key fragment now inst h e) =
      (subst (PushFills key s.inst) e
        (push-Fills other_size key fragment now s.inst v.distinct)).same_buffer
  Event-buffer v (waits s key fragment now late inst h e) =
      (subst (PushFills key s.inst) e
        (push-Fills other_size key fragment now s.inst v.distinct)).same_buffer
  Event-buffer v (swept s deadline now h w c) = refl
  Event-buffer v (deadline_set s d) = refl
  Event-buffer v (shut s) = refl
  Event-buffer v (cancel s) = refl

  pub Reach-buffer :
      {s t : System} {n : ℕ} → IsValid s → Reach other_size s n t → t.inst.buffer ≡ s.inst.buffer
  Reach-buffer v here = refl
  Reach-buffer v (step r st) = Step-buffer st ∙ Reach-buffer v r
  Reach-buffer v (event r ev) = Event-buffer (Reach-IsValid other_size v r) ev ∙ Reach-buffer v r

  pub Step-cancelled : {s t : System} → Step other_size s t → t.cancelled ≡ s.cancelled
  Step-cancelled (sent s key late e room) = refl
  Step-cancelled (given_up s key late e c) = refl
  Step-cancelled (took s key keys w q) = refl
  Step-cancelled (counted s key w e) = refl
  Step-cancelled (count_missed s key w e c) = refl
  Step-cancelled (drained s key bucket inst w e d) = refl
  Step-cancelled (assembled s bucket w) = refl
  Step-cancelled (watcher_sent s key keys w c room) = refl
  Step-cancelled (watcher_counted s c) = refl

  -- A valid state in which no push holds the lock or was cancelled, with room for a key.
  record Unheld (s : System) : Type 0 where
    valid : IsValid s
    unheld : s.held ≡ none
    kept : s.cancelled ≡ false
    room : 1 ≤ s.inst.buffer

  Runs-Unheld : {s t : System} {m : ℕ} → Unheld s → Runs other_size s m t → Unheld t
  Runs-Unheld u stop = u
  Runs-Unheld u (go r st) =
      let before = Runs-Unheld u r in
      record {
        valid = Step-IsValid other_size st before.valid;
        unheld = Step-unheld st before.unheld;
        kept = Step-cancelled st ∙ before.kept;
        room = rw (Step-buffer st) before.room;
      }

  none_ready :
      (t : System)
      → IsValid t
      → AtRest t
      → t.cancelled ≡ false
      → (k : Bytes) → ready k t.inst.buckets ≡ 0
  unfolding times
  none_ready t v rest c k =
      let equal : pending k t ≡ ready k t.inst.buckets =
        subst (λ b. Balanced b (pending k t) (ready k t.inst.buckets)) c (v.queued k) in
      omega (
        arith,
        equal,
        ap (times k) rest.queue_empty,
        ap (times_held k) rest.none_held,
        ap (times_worker k) rest.worker_idle,
        ap (times k) rest.none_watching,
      )

  Next-settled :
      (t : System)
      → Unheld t
      → Next other_size t
      → ((u : System) × Step other_size t u)
        ⊎ (AtRest t × ((k : Bytes) → ready k t.inst.buckets ≡ 0))
  Next-settled t u (moves {t = t'} st) = inl (t', st)
  Next-settled t u (rests rest) = inr (rest, none_ready t u.valid rest u.kept)
  Next-settled t u (blocks b) =
      let held : none ≡ some b.holder = sym u.unheld ∙ b.waits_for_room in cc

  -- From a state of a shard whose lock no push holds, with nothing more from outside, its threads go
  -- on until all are at rest, and then no bucket is filled: each that was filled went to the assembler.
  -- No context of a push was cancelled.
  pub settles :
      (buffer packet_deadline n m : ℕ) (s t : System)
      → 1 ≤ buffer
      → Reach other_size (started buffer packet_deadline) n s
      → s.cancelled ≡ false
      → s.held ≡ none
      → Runs other_size s m t
      → ((u : System) × Step other_size t u)
        ⊎ (AtRest t × ((k : Bytes) → ready k t.inst.buckets ≡ 0))
  unfolding new
  settles buffer packet_deadline n m s t b r c h runs =
      let first = started-IsValid buffer packet_deadline in
      let u =
        Runs-Unheld
          (record {
            valid = Reach-IsValid other_size first r;
            unheld = h;
            kept = c;
            room = rw (Reach-buffer first r) b;
          })
          runs in
      Next-settled t u (
        next other_size t u.unheld
          (λ key w.
            let (bucket, inst, e, _, _) = drain_bucket-some t key u.valid w in ((bucket, inst), e))
          u.room)

  -- The shard's threads stop: they make at most as many steps as the weight of their state.
  pub Runs-weight : {s t : System} {n : ℕ} → Runs other_size s n t → n + weight t ≤ weight s
  Runs-weight stop = omega arith
  Runs-weight (go r st) = omega (arith, Step-weight other_size st, Runs-weight r)
