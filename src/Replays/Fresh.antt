-- ===== src/Replays/Fresh.antt =====
-- internal/receiver/listener/replayprotection.go: a key that is new is let through.
use sdsyslog.Common.{
  length-replicate, ℕ, zero, suc, ◌%◌, ◌<◌, ◌≤◌, ◌≡◌, ◌≢◌, refl, ap, ◌∙◌, inl, inr, Bool, false,
  Bool-cases, Option-cases, Option, none, some, List, [], arith, get_elem?, replicate, All,
}
use sdsyslog.Common.Words.{Bytes, bytes_equal, bytes_equal_iff}
use sdsyslog.Replays.{
  Store, ReplayCache, new_replay_cache, seen_time, put_time, seen_recently, cleanup_shard,
  with_shard, on_shard, cleanup_at, get_shard, check_shard, is_replayed, Run, stop, checked,
  cleaned,
}
use sdsyslog.Replays.Stores.{seen_time-put_time_ne}
use sdsyslog.Replays.Stores.{seen_time-cleanup_none}
use sdsyslog.Replays.Steps.{Keeps, Keeps-with_shard, Checked, found, added, is_replayed-Checked}

get_elem?-replicate : {A : Type 0} (n i : ℕ) (a : A) → i < n → get_elem? (replicate n a) i ≡ some a
get_elem?-replicate zero i a h = absurd (omega arith)
get_elem?-replicate (suc n) zero a h = refl
get_elem?-replicate (suc n) (suc i) a h = get_elem?-replicate n i a (omega arith)

module _ (hash : Bytes → ℕ) (key : Bytes) where
  abbrev Absent : ReplayCache → Type 0
  Absent = Keeps hash (λ store. seen_time key store ≡ none) key

  new_replay_cache-Absent : (shards ttl : ℕ) → 1 ≤ shards → Absent (new_replay_cache shards ttl)
  unfolding new_replay_cache get_shard seen_time
  new_replay_cache-Absent shards ttl h = record {
    store = [];
    there =
        let size = length-replicate {A = Store} shards [] in
        rw size (get_elem?-replicate shards (hash key % shards) [] (omega arith));
    kept = refl;
  }

  Checked-Absent :
      (key' : Bytes) (now : ℕ) (cache cache' : ReplayCache) (replay : Bool)
      → some key' ≢ some key
      → Checked hash now key' cache cache' replay
      → Absent cache
      → Absent cache'
  Checked-Absent key' now cache cache' replay ne (found store there recent) a = a
  Checked-Absent key' now cache cache' replay ne (added store there old) a =
      Keeps-with_shard hash (λ store. seen_time key store ≡ none) key cache
        (get_shard hash key' cache) store (put_time key' now store) there
        (λ e. seen_time-put_time_ne key key' now store (differ ne) ∙ e) a
    where
      differ : some key' ≢ some key → bytes_equal key' key ≡ false
      differ ne = elim (Bool-cases (bytes_equal key' key)) [
        | inl same ↦ absurd (ne (ap some ((bytes_equal_iff key' key).0 same)))
        | inr other ↦ other
      ]

  cleanup_at-Absent :
      (now i : ℕ) (cache : ReplayCache) → Absent cache → Absent (cleanup_at now i cache)
  unfolding cleanup_at
  cleanup_at-Absent now i cache a = elim (Option-cases (get_elem? cache.shards i)) [
    | inl missing ↦ rw (missing, cleanup_at) a
    | inr (store, there) ↦
        rw (there, cleanup_at)
          (Keeps-with_shard hash (λ store. seen_time key store ≡ none) key cache i store
            (cleanup_shard cache.ttl now store) there
            (seen_time-cleanup_none key cache.ttl now store) a)
  ]

  Run-Absent :
      {cache last : ReplayCache} {events : List (ℕ × Option Bytes)}
      → Run hash cache events last
      → All (λ event. event.1 ≢ some key) events
      → Absent cache
      → Absent last
  Run-Absent stop h a = a
  Run-Absent (checked now key' replay e run) (h, hs) a =
      Run-Absent run hs
        (Checked-Absent key' now _ _ replay h (is_replayed-Checked hash now key' _ _ replay e) a)
  Run-Absent (cleaned now i run) (h, hs) a = Run-Absent run hs (cleanup_at-Absent now i _ a)

  is_replayed-Absent :
      (now : ℕ) (cache : ReplayCache)
      → Absent cache
      → (cache' : ReplayCache) × (is_replayed hash now key cache ≡ some (cache', false))
  unfolding is_replayed check_shard on_shard seen_recently
  is_replayed-Absent now cache a = (
    with_shard cache (get_shard hash key cache) (put_time key now a.store),
    rw a.there (rw a.kept),
  )

  -- A key that no check of a run from a new cache has seen is let through at any time, where the
  -- cache has a shard.
  pub is_replayed-fresh :
      (shards ttl : ℕ) (last : ReplayCache) (events : List (ℕ × Option Bytes)) (now : ℕ)
      → 1 ≤ shards
      → Run hash (new_replay_cache shards ttl) events last
      → All (λ event. event.1 ≢ some key) events
      → (cache' : ReplayCache) × (is_replayed hash now key last ≡ some (cache', false))
  is_replayed-fresh shards ttl last events now h run others =
      is_replayed-Absent now last (Run-Absent run others (new_replay_cache-Absent shards ttl h))
