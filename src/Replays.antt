-- ===== src/Replays.antt =====
-- internal/receiver/listener/replayprotection.go: the cache of public keys seen of late. Each
-- operation holds the lock of its shard throughout, so a run is a sequence of whole operations.
pub mod Stores
pub mod Steps
pub mod Protection
pub mod Fresh
mod Tests
use sdsyslog.Common.{
  ℕ, ◌+◌, ◌%◌, ◌≡◌, Bool, true, false, Option, none, some, List, [], ◌∷◌, ltb, if◌then◌else◌,
  length, get_elem?, set, replicate,
}
use sdsyslog.Common.Words.{Bytes, bytes_equal}

-- map[string]int64, as the list of its entries.
abbrev pub Store : Type 0
Store = List (Bytes × ℕ)

pub record ReplayCache : Type 0 where
  pub shards : List Store
  pub ttl : ℕ

unfoldable pub new_replay_cache : ℕ → ℕ → ReplayCache
new_replay_cache num_shards ttl_seconds = record {
  shards = replicate num_shards [];
  ttl = ttl_seconds;
}

-- `store[key]`.
unfoldable pub seen_time : Bytes → Store → Option ℕ
seen_time key [] = none
seen_time key ((k, t) ∷ store) = if bytes_equal k key then some t else seen_time key store

-- `store[key] = now`.
unfoldable pub put_time : Bytes → ℕ → Store → Store
put_time key now [] = (key, now) ∷ []
put_time key now ((k, t) ∷ store) =
    let rest = put_time key now store in
    if bytes_equal k key then (k, now) ∷ store else (k, t) ∷ rest

-- `now - seenTime < ttl`, which also holds where the clock went back.
unfoldable pub is_recent : ℕ → ℕ → ℕ → Bool
is_recent ttl now t = ltb now (t + ttl)

unfoldable pub seen_recently : ℕ → ℕ → Option ℕ → Bool
unfolding is_recent
seen_recently ttl now none = false
seen_recently ttl now (some t) = is_recent ttl now t

unfoldable pub cleanup_shard : ℕ → ℕ → Store → Store
unfolding is_recent
cleanup_shard ttl now [] = []
cleanup_shard ttl now ((k, t) ∷ store) =
    let rest = cleanup_shard ttl now store in if is_recent ttl now t then (k, t) ∷ rest else rest

abbrev pub with_shard : ReplayCache → ℕ → Store → ReplayCache
with_shard cache i store = record cache { shards = set cache.shards i store }

-- The cache, where it has a shard of that number.
unfoldable pub on_shard : {A : Type 0} → (Store → A) → Option Store → Option A
on_shard f none = none
on_shard f (some store) = some (f store)

-- One round of cleanupLoop for one shard.
unfoldable pub cleanup_at : ℕ → ℕ → ReplayCache → ReplayCache
unfolding cleanup_shard
cleanup_at now i cache = elim (get_elem? cache.shards i) [
  | none ↦ cache
  | some store ↦ with_shard cache i (cleanup_shard cache.ttl now store)
]

-- `hash` is FNV-1a, 32 bits, of hash/fnv.
module _ (hash : Bytes → ℕ) where
  unfoldable pub get_shard : Bytes → ReplayCache → ℕ
  get_shard key cache = hash key % length cache.shards

  unfoldable pub check_shard : ℕ → Bytes → ReplayCache → ℕ → Store → ReplayCache × Bool
  unfolding seen_recently put_time
  check_shard now key cache i store =
      if seen_recently cache.ttl now (seen_time key store)
      then (cache, true)
      else (with_shard cache i (put_time key now store), false)

  -- A cache without shards divides by zero, and has no result.
  unfoldable pub is_replayed : ℕ → Bytes → ReplayCache → Option (ReplayCache × Bool)
  unfolding get_shard check_shard on_shard
  is_replayed now key cache =
      on_shard (check_shard now key cache (get_shard key cache))
        (get_elem? cache.shards (get_shard key cache))

  -- What the listeners and the cleanup worker do, one after the other.
  pub data Run : ReplayCache → List (ℕ × Option Bytes) → ReplayCache → Type 0 where
    stop : {cache : ReplayCache} → Run cache [] cache
    checked :
        {cache cache' last : ReplayCache} {events : List (ℕ × Option Bytes)} (now : ℕ) (key : Bytes)
        (replay : Bool)
        → is_replayed now key cache ≡ some (cache', replay)
        → Run cache' events last
        → Run cache ((now, some key) ∷ events) last
    cleaned :
        {cache last : ReplayCache} {events : List (ℕ × Option Bytes)} (now i : ℕ)
        → Run (cleanup_at now i cache) events last
        → Run cache ((now, none) ∷ events) last
