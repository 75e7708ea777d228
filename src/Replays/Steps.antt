-- ===== src/Replays/Steps.antt =====
-- internal/receiver/listener/replayprotection.go: one check, and the shard of one key.
use sdsyslog.Common.{
  some_injective, ℕ, zero, suc, ◌<◌, ◌≡◌, ◌≢◌, sym, ◌∙◌, inl, inr, Bool, true, false, Bool-cases,
  Option-cases, some, List, [], ◌∷◌, arith, ◌==◌, length, get_elem?, length-set, get_elem?-set_self,
  get_elem?-set_ne,
}
use sdsyslog.Common.Words.{Bytes}
use mathlib.Core.Path.{subst}
use sdsyslog.Replays.{
  Store, ReplayCache, seen_time, put_time, seen_recently, with_shard, on_shard, get_shard,
  check_shard, is_replayed,
}

pub get_elem?-lt :
    {A : Type 0} (xs : List A) (i : ℕ) (x : A) → get_elem? xs i ≡ some x → i < length xs
get_elem?-lt [] i x e = cc
get_elem?-lt (y ∷ xs) zero x e = omega arith
get_elem?-lt (y ∷ xs) (suc i) x e = omega (arith, get_elem?-lt xs i x e)

module _ (hash : Bytes → ℕ) where
  -- The shard of a key is there, and its store has a property.
  pub record Keeps (P : Store → Type 0) (key : Bytes) (cache : ReplayCache) : Type 0 where
    pub store : Store
    pub there : get_elem? cache.shards (get_shard hash key cache) ≡ some store
    pub kept : P store

  pub get_shard-with_shard :
      (key : Bytes) (cache : ReplayCache) (i : ℕ) (store : Store)
      → get_shard hash key (with_shard cache i store) ≡ get_shard hash key cache
  unfolding get_shard
  get_shard-with_shard key cache i store = rw (length-set cache.shards i store)

  pub Keeps-with_shard :
      (P : Store → Type 0) (key : Bytes) (cache : ReplayCache) (i : ℕ) (old new : Store)
      → get_elem? cache.shards i ≡ some old
      → (P old → P new)
      → Keeps P key cache
      → Keeps P key (with_shard cache i new)
  Keeps-with_shard P key cache i old new here go k =
      let same = get_shard-with_shard key cache i new in
      elim (Bool-cases (i == get_shard hash key cache)) [
        | inl equal ↦
            let e : i ≡ get_shard hash key cache = ground arith in
            let found : old ≡ k.store = cc in
            record {
              store = new;
              there =
                  rw (same, ← e)
                    (get_elem?-set_self cache.shards i new (get_elem?-lt cache.shards i old here));
              kept = go (subst P (sym found) k.kept);
            }
        | inr other ↦
            let ne : i ≢ get_shard hash key cache = ground arith in
            record {
              store = k.store;
              there = rw same (get_elem?-set_ne cache.shards new ne ∙ k.there);
              kept = k.kept;
            }
      ]

  -- Where a check of the cache leaves a store changed.
  pub data Checked (now : ℕ) (key : Bytes) (cache : ReplayCache) : ReplayCache → Bool → Type 0 where
    found :
        (store : Store)
        → get_elem? cache.shards (get_shard hash key cache) ≡ some store
        → seen_recently cache.ttl now (seen_time key store) ≡ true
        → Checked now key cache cache true
    added :
        (store : Store)
        → get_elem? cache.shards (get_shard hash key cache) ≡ some store
        → seen_recently cache.ttl now (seen_time key store) ≡ false
        → Checked now key cache
            (with_shard cache (get_shard hash key cache) (put_time key now store))
            false

  pub is_replayed-Checked :
      (now : ℕ) (key : Bytes) (cache cache' : ReplayCache) (replay : Bool)
      → is_replayed hash now key cache ≡ some (cache', replay)
      → Checked now key cache cache' replay
  unfolding is_replayed check_shard on_shard
  is_replayed-Checked now key cache cache' replay e =
      elim (Option-cases (get_elem? cache.shards (get_shard hash key cache))) [
        | inl missing ↦ let gone = rw missing at e in cc
        | inr (store, there) ↦
            elim (Bool-cases (seen_recently cache.ttl now (seen_time key store))) [
              | inl recent ↦
                  let got : (cache, true) ≡ (cache', replay) =
                    some_injective (rw (there, recent) at e) in
                  subst (λ r. Checked now key cache r.0 r.1) got (found store there recent)
              | inr old ↦
                  let got = some_injective (rw (there, old) at e) in
                  subst (λ r. Checked now key cache r.0 r.1) got (added store there old)
            ]
      ]
