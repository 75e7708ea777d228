-- ===== src/Replays/Tests.antt =====
-- internal/receiver/listener/replayprotection.go: two shards, and keys that live for ten seconds.
use sdsyslog.Common.{ℕ, ◌≡◌, refl, true, false, Option, none, some, List, [], ◌∷◌, arith, length}
use sdsyslog.Common.Words.{bytes_equal, Bytes}
use sdsyslog.Replays.{
  seen_time, seen_time, seen_time, ReplayCache, new_replay_cache, cleanup_at, is_replayed, Run,
  stop, checked, cleaned,
}
use sdsyslog.Replays.Protection.{is_replayed-blocked}
use sdsyslog.Replays.Fresh.{is_replayed-fresh}

abbrev toy_hash : Bytes → ℕ
toy_hash key = length key

abbrev entries : List (Bytes × ℕ) → List (Bytes × ℕ) → ReplayCache
entries even odd = record { shards = even ∷ odd ∷ []; ttl = 10 }

abbrev first : Bytes
first = 7 ∷ []

abbrev second : Bytes
second = 8 ∷ []

first_accepted :
    is_replayed toy_hash 100 first (entries [] []) ≡ some (entries [] ((first, 100) ∷ []), false)
unfolding is_replayed seen_time
first_accepted = refl

-- Another key comes to the same shard, which is then cleaned up.
abbrev later : List (ℕ × Option Bytes)
later = (105, some second) ∷ (109, none) ∷ []

later-Run :
    Run toy_hash
      (entries [] ((first, 100) ∷ []))
      later
      (entries [] ((first, 100) ∷ (second, 105) ∷ []))
unfolding cleanup_at is_replayed seen_time bytes_equal
later-Run = checked 105 second false refl (cleaned 109 1 stop)

is_replayed-blocked_example :
    is_replayed toy_hash 109 first (entries [] ((first, 100) ∷ (second, 105) ∷ []))
    ≡ some (entries [] ((first, 100) ∷ (second, 105) ∷ []), true)
is_replayed-blocked_example =
    is_replayed-blocked toy_hash (entries [] []) (entries [] ((first, 100) ∷ []))
      (entries [] ((first, 100) ∷ (second, 105) ∷ [])) later first 100 109 first_accepted later-Run
      (omega arith) (omega arith)

-- Ten seconds later it is let through again.
expired :
    is_replayed toy_hash 110 first (entries [] ((first, 100) ∷ []))
    ≡ some (entries [] ((first, 110) ∷ []), false)
unfolding is_replayed seen_time bytes_equal
expired = refl

fresh-Run :
    Run toy_hash (new_replay_cache 2 10) ((100, some first) ∷ []) (entries [] ((first, 100) ∷ []))
unfolding is_replayed new_replay_cache seen_time
fresh-Run = checked 100 first false refl stop

is_replayed-fresh_example :
    (cache' : ReplayCache) × (is_replayed toy_hash 101 second (entries [] ((first, 100) ∷ []))
      ≡ some (cache', false))
is_replayed-fresh_example =
    is_replayed-fresh toy_hash second 2 10 (entries [] ((first, 100) ∷ [])) ((100, some first) ∷ [])
      101 (omega arith) fresh-Run ((λ e. differ e), tt)
  where
    differ : some first ≡ some second → ⊥
    differ e = ground arith
