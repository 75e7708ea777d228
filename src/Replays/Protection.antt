-- ===== src/Replays/Protection.antt =====
-- internal/receiver/listener/replayprotection.go: what the cache promises over any run.
use sdsyslog.Common.{
  ℕ, ◌+◌, ◌<◌, ◌≡◌, refl, sym, ◌∙◌, inl, inr, Bool, true, false, Bool-cases, Option-cases, Option,
  some, List, arith, ltb, get_elem?, get_elem?-set_self, All, lt→ltb,
}
use sdsyslog.Common.Words.{Bytes, bytes_equal, bytes_equal_iff}
use mathlib.Core.Path.{subst}
use sdsyslog.Replays.{
  Store, ReplayCache, seen_time, put_time, is_recent, seen_recently, cleanup_shard, on_shard,
  cleanup_at, get_shard, check_shard, is_replayed, Run, stop, checked, cleaned,
}
use sdsyslog.Replays.Stores.{
  seen_time-put_time_self, seen_time-put_time_ne, seen_time-cleanup_shard,
}
use sdsyslog.Replays.Steps.{
  get_elem?-lt, Keeps, get_shard-with_shard, Keeps-with_shard, Checked, found, added,
  is_replayed-Checked,
}

module _ (hash : Bytes → ℕ) where
  -- The cache has a life time, and has seen the key at a time.
  record Remembers (key : Bytes) (t ttl : ℕ) (cache : ReplayCache) : Type 0 where
    lifetime : cache.ttl ≡ ttl
    seen : Keeps hash (λ store. seen_time key store ≡ some t) key cache

  seen_time-put_time :
      (key key' : Bytes) (t ttl now : ℕ) (store : Store)
      → now < t + ttl
      → seen_recently ttl now (seen_time key' store) ≡ false
      → seen_time key store ≡ some t
      → seen_time key (put_time key' now store) ≡ some t
  unfolding seen_recently is_recent
  seen_time-put_time key key' t ttl now store h old e = elim (Bool-cases (bytes_equal key' key)) [
    | inl same ↦
        let k : key' ≡ key = (bytes_equal_iff key' key).0 same in
        let stale : ltb now (t + ttl) ≡ false = rw (k, e) at old in absurd (ground arith)
    | inr other ↦ seen_time-put_time_ne key key' now store other ∙ e
  ]

  Checked-Remembers :
      (key key' : Bytes) (t ttl now : ℕ) (cache cache' : ReplayCache) (replay : Bool)
      → now < t + ttl
      → Checked hash now key' cache cache' replay
      → Remembers key t ttl cache
      → Remembers key t ttl cache'
  Checked-Remembers key key' t ttl now cache cache' replay h (found store there recent) r = r
  Checked-Remembers key key' t ttl now cache cache' replay h (added store there old) r = record {
    lifetime = r.lifetime;
    seen =
        Keeps-with_shard hash (λ store. seen_time key store ≡ some t) key cache
          (get_shard hash key' cache) store (put_time key' now store) there
          (seen_time-put_time key key' t ttl now store h
            (subst (λ n. seen_recently n now (seen_time key' store) ≡ false) r.lifetime old))
          r.seen;
  }

  cleanup_at-Remembers :
      (key : Bytes) (t ttl now i : ℕ) (cache : ReplayCache)
      → now < t + ttl
      → Remembers key t ttl cache
      → Remembers key t ttl (cleanup_at now i cache)
  unfolding cleanup_at
  cleanup_at-Remembers key t ttl now i cache h r = elim (Option-cases (get_elem? cache.shards i)) [
    | inl missing ↦ rw (missing, cleanup_at) r
    | inr (store, there) ↦
        rw (there, cleanup_at)
          (record {
            lifetime = r.lifetime;
            seen =
                Keeps-with_shard hash (λ store. seen_time key store ≡ some t) key cache i store
                  (cleanup_shard cache.ttl now store) there
                  (seen_time-cleanup_shard key cache.ttl now t store
                    (subst (λ n. now < t + n) (sym r.lifetime) h))
                  r.seen;
          })
  ]

  Run-Remembers :
      {key : Bytes} {t ttl : ℕ} {cache last : ReplayCache} {events : List (ℕ × Option Bytes)}
      → Run hash cache events last
      → All (λ event. event.0 < t + ttl) events
      → Remembers key t ttl cache
      → Remembers key t ttl last
  Run-Remembers stop h r = r
  Run-Remembers (checked now key' replay e run) (h, hs) r = Run-Remembers run hs (
      Checked-Remembers _ key' _ _ now _ _ replay h (is_replayed-Checked hash now key' _ _ replay e)
        r)
  Run-Remembers (cleaned now i run) (h, hs) r =
      Run-Remembers run hs (cleanup_at-Remembers _ _ _ now i _ h r)

  is_replayed-Remembers :
      (key : Bytes) (t ttl now : ℕ) (cache : ReplayCache)
      → now < t + ttl
      → Remembers key t ttl cache
      → is_replayed hash now key cache ≡ some (cache, true)
  unfolding is_replayed check_shard on_shard seen_recently is_recent
  is_replayed-Remembers key t ttl now cache h r =
      rw r.seen.there (rw r.seen.kept (rw r.lifetime (rw (lt→ltb now (t + ttl) h))))

  accepted-Remembers :
      (key : Bytes) (t : ℕ) (before cache : ReplayCache)
      → Checked hash t key before cache false
      → Remembers key t before.ttl cache
  accepted-Remembers key t before cache (added store there old) = record {
    lifetime = refl;
    seen = record {
      store = put_time key t store;
      there =
          rw
            (get_shard-with_shard hash key before (get_shard hash key before)
              (put_time key t store))
            (get_elem?-set_self before.shards (get_shard hash key before) (put_time key t store)
              (get_elem?-lt before.shards (get_shard hash key before) store there));
      kept = seen_time-put_time_self key t store;
    };
  }

  -- A key that was accepted is refused before its life time is over, whatever keys are checked and
  -- whatever shards are cleaned up in between, each before that time.
  pub is_replayed-blocked :
      (before cache last : ReplayCache) (events : List (ℕ × Option Bytes)) (key : Bytes) (t now : ℕ)
      → is_replayed hash t key before ≡ some (cache, false)
      → Run hash cache events last
      → All (λ event. event.0 < t + before.ttl) events
      → now < t + before.ttl
      → is_replayed hash now key last ≡ some (last, true)
  is_replayed-blocked before cache last events key t now e run hs h =
      is_replayed-Remembers key t before.ttl now last h (
        Run-Remembers run hs (
          accepted-Remembers key t before cache
            (is_replayed-Checked hash t key before cache false e)))
