-- ===== src/Replays/Stores.antt =====
-- internal/receiver/listener/replayprotection.go: the map of one shard.
use sdsyslog.Common.{
  ℕ, ◌+◌, ◌<◌, ◌≡◌, refl, inl, inr, false, Bool-cases, none, some, [], ◌∷◌, arith,
}
use sdsyslog.Common.Words.{Bytes, bytes_equal, bytes_equal_iff}
use sdsyslog.Replays.{Store, seen_time, put_time, is_recent, cleanup_shard}

pub seen_time-put_time_self :
    (key : Bytes) (now : ℕ) (store : Store) → seen_time key (put_time key now store) ≡ some now
unfolding seen_time put_time
seen_time-put_time_self key now [] = rw ((bytes_equal_iff key key).1 refl)
seen_time-put_time_self key now ((k, t) ∷ store) =
    ground (arith, seen_time-put_time_self key now store)

pub seen_time-put_time_ne :
    (key key' : Bytes) (now : ℕ) (store : Store)
    → bytes_equal key' key ≡ false
    → seen_time key (put_time key' now store) ≡ seen_time key store
unfolding seen_time put_time
seen_time-put_time_ne key key' now [] h = rw h
seen_time-put_time_ne key key' now ((k, t) ∷ store) h = elim (Bool-cases (bytes_equal k key')) [
  | inl same ↦ let e = (bytes_equal_iff k key').0 same in rw (same, e, h)
  | inr other ↦ rw (other, seen_time-put_time_ne key key' now store h)
]

-- An entry that is recent stays.
pub seen_time-cleanup_shard :
    (key : Bytes) (ttl now t : ℕ) (store : Store)
    → now < t + ttl
    → seen_time key store ≡ some t
    → seen_time key (cleanup_shard ttl now store) ≡ some t
unfolding seen_time cleanup_shard is_recent
seen_time-cleanup_shard key ttl now t [] h e = e
seen_time-cleanup_shard key ttl now t ((k, u) ∷ store) h e =
    let ih = seen_time-cleanup_shard key ttl now t store h in ground (arith, ih)

-- What is not there is not there after a cleanup.
pub seen_time-cleanup_none :
    (key : Bytes) (ttl now : ℕ) (store : Store)
    → seen_time key store ≡ none
    → seen_time key (cleanup_shard ttl now store) ≡ none
unfolding seen_time cleanup_shard is_recent
seen_time-cleanup_none key ttl now [] e = e
seen_time-cleanup_none key ttl now ((k, u) ∷ store) e =
    ground (arith, seen_time-cleanup_none key ttl now store)
