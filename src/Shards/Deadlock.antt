-- ===== src/Shards/Deadlock.antt =====
-- internal/receiver/shard/queue.go: a push that waits for room keeps the lock that PopKey and
-- DrainBucket want.
use sdsyslog.Common.{ℕ, ◌≡◌, refl, sym, ◌∙◌, true, false, none, some, arith}
use mathlib.Core.Path.{subst}
use sdsyslog.Shards.{watcher_count}
use sdsyslog.Shards.Progress.{Step-cancelled}
use sdsyslog.Shards.Moves.{Blocked, WaitsForLock}
use sdsyslog.Shards.Steps.{
  System, Step, sent, given_up, took, counted, count_missed, drained, assembled, watcher_sent,
  watcher_counted, Event, pushed, waits, swept, deadline_set, shut, cancel, Reach, here, step,
  event,
}

-- What a shard has taken in and given out is as it was.
pub record Frozen (s t : System) : Type 0 where
  pub same_buckets : t.inst.buckets ≡ s.inst.buckets
  pub same_queue : t.inst.key_queue ≡ s.inst.key_queue
  pub same_buffer : t.inst.buffer ≡ s.inst.buffer
  pub same_held : t.held ≡ s.held
  pub same_worker : t.worker ≡ s.worker

Frozen-Blocked : {s t : System} → Blocked s → Frozen s t → t.cancelled ≡ false → Blocked t
Frozen-Blocked b f c = record {
  holder = b.holder;
  waits_for_room = f.same_held ∙ b.waits_for_room;
  is_full = rw (f.same_buffer, f.same_queue) b.is_full;
  not_cancelled = c;
  waits_for_lock = rw f.same_worker b.waits_for_lock;
}

held_some : {s : System} → Blocked s → s.held ≡ none → ⊥
held_some b h = let both : none ≡ some b.holder = sym h ∙ b.waits_for_room in cc

metrics_only :
    (s t : System)
    → t.inst.buckets ≡ s.inst.buckets
    → t.inst.key_queue ≡ s.inst.key_queue
    → t.inst.buffer ≡ s.inst.buffer
    → t.held ≡ s.held
    → t.worker ≡ s.worker
    → Frozen s t
metrics_only s t m q b h w = record {
  same_buckets = m;
  same_queue = q;
  same_buffer = b;
  same_held = h;
  same_worker = w;
}

module _ (other_size : ℕ) where
  Step-Frozen : {s t : System} → Blocked s → Step other_size s t → Frozen s t
  unfolding watcher_count
  Step-Frozen b (sent s key late h room) = absurd (omega (arith, b.is_full))
  Step-Frozen b (given_up s key late h c) = let never : false ≡ true = sym b.not_cancelled ∙ c in cc
  Step-Frozen b (took s key keys w q) = absurd (subst WaitsForLock w b.waits_for_lock)
  Step-Frozen b (counted s key w h) = absurd (held_some b h)
  Step-Frozen b (count_missed s key w h c) = absurd (held_some b h)
  Step-Frozen b (drained s key bucket inst w h e) = absurd (held_some b h)
  Step-Frozen b (assembled s bucket w) = absurd (subst WaitsForLock w b.waits_for_lock)
  Step-Frozen b (watcher_sent s key keys w c room) = absurd (omega (arith, b.is_full))
  Step-Frozen b (watcher_counted s c) = metrics_only s _ refl refl refl refl refl

  Event-Frozen : {s t : System} → Blocked s → Event other_size s t → Frozen s t
  Event-Frozen b (pushed s key fragment now inst h e) = absurd (held_some b h)
  Event-Frozen b (waits s key fragment now late inst h e) = absurd (held_some b h)
  Event-Frozen b (swept s deadline now h w c) = absurd (held_some b h)
  Event-Frozen b (deadline_set s d) = metrics_only s _ refl refl refl refl refl
  Event-Frozen b (shut s) = metrics_only s _ refl refl refl refl refl
  Event-Frozen b (cancel s) = metrics_only s _ refl refl refl refl refl

  -- A context that is cancelled stays so.
  Event-kept : {s t : System} → Event other_size s t → t.cancelled ≡ false → s.cancelled ≡ false
  Event-kept (pushed s key fragment now inst h e) c = c
  Event-kept (waits s key fragment now late inst h e) c = c
  Event-kept (swept s deadline now h w i) c = c
  Event-kept (deadline_set s d) c = c
  Event-kept (shut s) c = c
  Event-kept (cancel s) c = cc

  Frozen-trans : {s t u : System} → Frozen s t → Frozen t u → Frozen s u
  Frozen-trans f g = record {
    same_buckets = g.same_buckets ∙ f.same_buckets;
    same_queue = g.same_queue ∙ f.same_queue;
    same_buffer = g.same_buffer ∙ f.same_buffer;
    same_held = g.same_held ∙ f.same_held;
    same_worker = g.same_worker ∙ f.same_worker;
  }

  -- Where a push waits for room with the lock and the assembler for the lock, nothing that the shard
  -- does and nothing that comes later changes its buckets, its channel, the push or the assembler,
  -- until the context of the push is cancelled: the shard is blocked for good.
  pub Blocked-Reach :
      {s t : System} {n : ℕ} → Blocked s → Reach other_size s n t → t.cancelled ≡ false → Frozen s t
  Blocked-Reach b here c = metrics_only _ _ refl refl refl refl refl
  Blocked-Reach b (step {t} r st) c =
      let kept = sym (Step-cancelled other_size st) ∙ c in
      let before = Blocked-Reach b r kept in
      Frozen-trans before (Step-Frozen (Frozen-Blocked b before kept) st)
  Blocked-Reach b (event {t} r ev) c =
      let kept = Event-kept ev c in
      let before = Blocked-Reach b r kept in
      Frozen-trans before (Event-Frozen (Frozen-Blocked b before kept) ev)
