-- ===== src/Routing/Delivery.antt =====
-- internal/receiver/shard/routing.go: the primary shard of a message, and the rounds where the shards
-- stay.
use sdsyslog.Common.{
  ◌≤◌, ◌≡◌, ◌≢◌, ◌⊎◌, refl, sym, ap, inl, inr, Bool, true, false, Bool-cases, ◌==◌, Option, none,
  some, List, [], ◌∷◌, arith, length, eq_zero-false,
}
use sdsyslog.Common.Words.{Bytes}
use mathlib.Core.Path.{subst}
use sdsyslog.Protocol.Fragments.{Payload}
use sdsyslog.Routing.{
  bucket_key, View, Surroundings, Routed, dropped, to_shard, to_process, route_select, single_among,
  route_single, Round, routed, again, local_fallback, on_remote, draining_round, route_chosen,
  route_ids, route_round, on_round, route_rounds, remote_shards, route_many, route_fragment,
}
use sdsyslog.Routing.Rounds.{Among, route_select-Among}

-- A fragment of a message of several goes to the primary shard of the message, which hangs on the
-- list of shards and the message alone, as long as that shard is there, and runs or has the message's
-- bucket, and the socket files, where they are asked for, are listed.
pub route_fragment-primary :
    (sha256 : Bytes → Bytes) (remote : Bytes → Option Bool) (around : Surroundings)
    (first second third : View) (remote_address : Bytes) (f : Payload) (id : Bytes)
    (ids remotes : List Bytes)
    → f.message_seq_max ≢ 0
    → remote_shards around ≡ some remotes
    → first.all_ids ≡ id ∷ ids
    → (first.is_shard_shutdown (route_select sha256 (bucket_key remote_address f) (id ∷ ids)).0
        ≡ false)
      ⊎ (first.bucket_exists
            (route_select sha256 (bucket_key remote_address f) (id ∷ ids)).0
            (bucket_key remote_address f)
          ≡ true)
    → first.shard_there (route_select sha256 (bucket_key remote_address f) (id ∷ ids)).0 ≡ true
    → route_fragment sha256 remote around first second third remote_address f
      ≡ to_shard (route_select sha256 (bucket_key remote_address f) (id ∷ ids)).0
unfolding route_fragment route_many route_rounds on_round route_round route_ids route_chosen
route_fragment-primary sha256 remote around first second third remote_address f id ids remotes many
      listed shards why there =
    let key = bucket_key remote_address f in
    let primary = (route_select sha256 key (id ∷ ids)).0 in
    let several = eq_zero-false f.message_seq_max (ground (arith, many)) in
    elim why [
      | inl running ↦ rw (several, listed, shards, running, there)
      | inr exists ↦ elim (Bool-cases (first.is_shard_shutdown primary)) [
        | inl draining ↦ rw (several, listed, shards, draining, exists, there)
        | inr running ↦ rw (several, listed, shards, running, there)
      ]
    ]

-- The shards that a view lists are there, and have names.
pub record Steady (v : View) : Type 0 where
  pub some_listed : 1 ≤ length v.all_ids
  pub all_there : (id : Bytes) → Among id v.all_ids → v.shard_there id ≡ true
  pub all_named : (id : Bytes) → Among id v.all_ids → 1 ≤ length id

module _ (sha256 : Bytes → Bytes) (remote : Bytes → Option Bool) (key : Bytes) where
  -- What a round in a steady view ends with: a destination, or once more without the processes.
  data Settled (remotes : List Bytes) : Round → Type 0 where
    at : (id : Bytes) → Settled remotes (routed (to_shard id))
    with_process : (socket : Bytes) → Settled remotes (routed (to_process socket))
    retry : 1 ≤ length remotes → Settled remotes (again [])

  on_remote-Settled :
      (remotes : List Bytes) (socket : Bytes) (o : Option Bool)
      → 1 ≤ length remotes
      → Settled remotes (on_remote socket o)
  unfolding on_remote
  on_remote-Settled remotes socket none h = retry h
  on_remote-Settled remotes socket (some true) h = retry h
  on_remote-Settled remotes socket (some false) h = with_process socket

  draining_round-Settled :
      (v : View) (remotes : List Bytes) (id : Bytes)
      → v.shard_there id ≡ true
      → 1 ≤ length id
      → Settled remotes (draining_round sha256 remote key v id remotes)
  unfolding draining_round local_fallback
  draining_round-Settled v [] id there named = rw (eq_zero-false (length id) named, there) (at id)
  draining_round-Settled v (r ∷ remotes) id there named =
      let socket = (route_select sha256 key (r ∷ remotes)).0 in
      on_remote-Settled (r ∷ remotes) socket (remote socket) (omega arith)

  route_chosen-Settled :
      (v : View) (remotes : List Bytes) (primary secondary : Bytes)
      → v.shard_there primary ≡ true
      → v.shard_there secondary ≡ true
      → 1 ≤ length secondary
      → Settled remotes (route_chosen sha256 remote key v remotes primary secondary)
  unfolding route_chosen
  route_chosen-Settled v remotes primary secondary there next named =
      elim (Bool-cases (v.is_shard_shutdown primary)) [
        | inr running ↦ rw (running, there) (at primary)
        | inl draining ↦ elim (Bool-cases (v.bucket_exists primary key)) [
          | inl exists ↦ rw (draining, exists, there) (at primary)
          | inr missing ↦
              rw (draining, missing) (draining_round-Settled v remotes secondary next named)
        ]
      ]

  route_ids-Settled :
      (v : View) (remotes ids : List Bytes)
      → Steady v
      → v.all_ids ≡ ids
      → Settled remotes (route_ids sha256 remote key v remotes ids)
  unfolding route_ids
  route_ids-Settled v remotes [] s e =
      let none_listed = ap length e in let listed = s.some_listed in absurd (omega arith)
  route_ids-Settled v remotes (c ∷ cs) s e =
      let (first, next) = route_select-Among sha256 key c cs in
      let primary = (route_select sha256 key (c ∷ cs)).0 in
      let secondary = (route_select sha256 key (c ∷ cs)).1 in
      let first_listed = subst (Among primary) (sym e) first in
      let next_listed = subst (Among secondary) (sym e) next in
      route_chosen-Settled v remotes primary secondary (s.all_there primary first_listed)
        (s.all_there secondary next_listed) (s.all_named secondary next_listed)

  on_round-arrives :
      (rest : List Bytes → Routed) (remotes : List Bytes) (r : Round)
      → (1 ≤ length remotes → rest [] ≢ dropped)
      → Settled remotes r
      → on_round rest r ≢ dropped
  unfolding on_round
  on_round-arrives rest remotes _ h (at id) = λ e. cc
  on_round-arrives rest remotes _ h (with_process socket) = λ e. cc
  on_round-arrives rest remotes _ h (retry some_left) = h some_left

  route_rounds-arrives :
      (v w : View) (vs : List View) (remotes : List Bytes)
      → Steady v
      → Steady w
      → route_rounds sha256 remote key (v ∷ w ∷ vs) remotes ≢ dropped
  unfolding route_rounds route_round
  route_rounds-arrives v w vs remotes s s' =
      on_round-arrives (λ left. route_rounds sha256 remote key (w ∷ vs) left) remotes
        (route_ids sha256 remote key v remotes v.all_ids)
        (λ _.
          on_round-arrives (λ left. route_rounds sha256 remote key vs left) []
            (route_ids sha256 remote key w [] w.all_ids) (λ h. absurd (omega arith))
            (route_ids-Settled w [] w.all_ids s' refl))
        (route_ids-Settled v remotes v.all_ids s refl)

  single_among-arrives :
      (around : Surroundings) (ids : List Bytes)
      → 1 ≤ length ids
      → ((id : Bytes) → Among id ids → around.single_shard_there id ≡ true)
      → single_among sha256 key around ids ≢ dropped
  unfolding single_among
  single_among-arrives around [] h there = absurd (omega arith)
  single_among-arrives around (c ∷ cs) h there =
      let chosen = (route_select sha256 key (c ∷ cs)).0 in
      rw (there chosen (route_select-Among sha256 key c cs).0) (λ e. cc)

-- No fragment is dropped where the socket files, if they are asked for, are listed, a shard is not
-- draining, and the shards that are listed in the first two rounds, one at least, are there: whatever
-- shuts down, and whatever the other processes answer.
pub route_fragment-arrives :
    (sha256 : Bytes → Bytes) (remote : Bytes → Option Bool) (around : Surroundings)
    (first second third : View) (remote_address : Bytes) (f : Payload) (remotes : List Bytes)
    → remote_shards around ≡ some remotes
    → 1 ≤ length around.non_draining_ids
    → ((id : Bytes) → Among id around.non_draining_ids → around.single_shard_there id ≡ true)
    → Steady first
    → Steady second
    → route_fragment sha256 remote around first second third remote_address f ≢ dropped
unfolding route_fragment route_single route_many
route_fragment-arrives sha256 remote around first second third remote_address f remotes listed
      some_running there s s' =
    let key = bucket_key remote_address f in
    elim (Bool-cases (f.message_seq_max == 0)) [
      | inl one ↦
          rw one (
            single_among-arrives sha256 remote key around around.non_draining_ids some_running
              there)
      | inr many ↦
          rw (many, listed)
            (route_rounds-arrives sha256 remote key first second (third ∷ []) remotes s s')
    ]
