-- ===== src/Routing/Choice.antt =====
-- internal/receiver/shard/routing.go: where a fragment may go.
use sdsyslog.Common.{
  ℕ, ◌≡◌, ◌≢◌, refl, sym, inl, inr, Bool, true, false, Bool-cases, ◌==◌, Option, none, some, List,
  [], ◌∷◌, arith, All, if◌then◌else◌,
}
use sdsyslog.Common.Words.{Bytes}
use mathlib.Core.Path.{subst}
use sdsyslog.Protocol.Fragments.{Payload}
use sdsyslog.Routing.{
  bucket_key, View, Surroundings, Routed, dropped, to_shard, to_process, route_select, single_among,
  route_single, Round, route_ids, route_round, on_round, on_round, route_rounds, remote_shards,
  route_many, route_fragment,
}
use sdsyslog.Routing.Rounds.{
  Among, Open, Ended, nowhere, inside, outside, on, used, route_ids-Ended, route_select-Among,
}

module _ (sha256 : Bytes → Bytes) (remote : Bytes → Option Bool) (key : Bytes) where
  -- Where a fragment may go.
  pub data Allowed (around : Surroundings) (views : List View) (seq_max : ℕ) : Routed → Type 0 where
    lost : Allowed around views seq_max dropped
    single :
        (id : Bytes)
        → seq_max ≡ 0
        → Among id around.non_draining_ids
        → around.single_shard_there id ≡ true
        → Allowed around views seq_max (to_shard id)
    here :
        (id : Bytes) (v : View)
        → seq_max ≢ 0
        → Among v views
        → Open sha256 remote key v id
        → Allowed around views seq_max (to_shard id)
    process :
        (socket : Bytes) (sockets : List Bytes)
        → seq_max ≢ 0
        → around.is_fipr_running ≡ true
        → around.socket_files ≡ some sockets
        → Among socket sockets
        → remote socket ≡ some false
        → Allowed around views seq_max (to_process socket)

  module _ (around : Surroundings) (views : List View) (seq_max : ℕ) (many : seq_max ≢ 0) where
    -- The processes that are still to be tried are known.
    abbrev Known : List Bytes → Type 0
    Known remotes =
        (socket : Bytes)
        → Among socket remotes
        → (sockets : List Bytes) × (around.is_fipr_running ≡ true)
          × (around.socket_files ≡ some sockets)
          × Among socket sockets

    Known-nil : Known []
    Known-nil socket (i, e) = cc

    on_round-Allowed :
        (v : View) (vs : List View) (remotes : List Bytes) (r : Round)
        → Among v views
        → Known remotes
        → Ended sha256 remote key v remotes r
        → ((left : List Bytes)
            → Known left
            → Allowed around views seq_max (route_rounds sha256 remote key vs left))
        → Allowed around views seq_max (on_round (λ left. route_rounds sha256 remote key vs left) r)
    unfolding on_round
    on_round-Allowed v vs remotes _ among known nowhere rest = lost
    on_round-Allowed v vs remotes _ among known (inside id o) rest = here id v many among o
    on_round-Allowed v vs remotes _ among known (outside socket there e) rest =
        let (sockets, running, files, listed) = known socket there in
        process socket sockets many running files listed e
    on_round-Allowed v vs remotes _ among known on rest = rest remotes known
    on_round-Allowed v vs remotes _ among known used rest = rest [] Known-nil

    route_rounds-Allowed :
        (vs : List View) (remotes : List Bytes)
        → All (λ v. Among v views) vs
        → Known remotes
        → Allowed around views seq_max (route_rounds sha256 remote key vs remotes)
    unfolding route_rounds on_round route_round
    route_rounds-Allowed [] remotes all known = lost
    route_rounds-Allowed (v ∷ vs) remotes (among, all) known =
        on_round-Allowed v vs remotes (route_ids sha256 remote key v remotes v.all_ids) among known
          (route_ids-Ended sha256 remote key v remotes v.all_ids refl)
          (λ left h. route_rounds-Allowed vs left all h)

    listed-Allowed :
        (vs : List View) (o : Option (List Bytes))
        → All (λ v. Among v views) vs
        → around.is_fipr_running ≡ true
        → around.socket_files ≡ o
        → Allowed around views seq_max (route_many sha256 remote key vs o)
    unfolding route_many
    listed-Allowed vs none all running e = lost
    listed-Allowed vs (some sockets) all running e =
        route_rounds-Allowed vs sockets all λ socket there. (sockets, running, e, there)

    asked-Allowed :
        (vs : List View) (b : Bool)
        → All (λ v. Among v views) vs
        → around.is_fipr_running ≡ b
        → Allowed around views seq_max
            (route_many sha256 remote key vs (if b then around.socket_files else some []))
    unfolding route_many
    asked-Allowed vs false all off = route_rounds-Allowed vs [] all Known-nil
    asked-Allowed vs true all running = listed-Allowed vs around.socket_files all running refl

    route_many-Allowed :
        (vs : List View)
        → All (λ v. Among v views) vs
        → Allowed around views seq_max (route_many sha256 remote key vs (remote_shards around))
    unfolding remote_shards
    route_many-Allowed vs all = asked-Allowed vs around.is_fipr_running all refl

  route_single-Allowed :
      (around : Surroundings) (views : List View) (ids : List Bytes) (seq_max : ℕ)
      → seq_max ≡ 0
      → around.non_draining_ids ≡ ids
      → Allowed around views seq_max (single_among sha256 key around ids)
  unfolding single_among
  route_single-Allowed around views [] seq_max one e = lost
  route_single-Allowed around views (c ∷ cs) seq_max one e =
      let chosen = (route_select sha256 key (c ∷ cs)).0 in
      elim (Bool-cases (around.single_shard_there chosen)) [
        | inl there ↦ rw there (
            single chosen one (subst (Among chosen) (sym e) (route_select-Among sha256 key c cs).0)
              there)
        | inr gone ↦ rw gone lost
      ]

-- A fragment goes only where it may: the one fragment of a message to a shard that is there and not
-- draining; another to a shard that a round lists and finds there, and that runs, or has the
-- message's bucket, or is the fallback of a primary shard that shuts down; or, where the receiver of
-- other processes' fragments runs, to a process that took it.
pub route_fragment-Allowed :
    (sha256 : Bytes → Bytes) (remote : Bytes → Option Bool) (around : Surroundings)
    (first second third : View) (remote_address : Bytes) (f : Payload)
    → Allowed sha256 remote
        (bucket_key remote_address f)
        around
        (first ∷ second ∷ third ∷ [])
        f.message_seq_max
        (route_fragment sha256 remote around first second third remote_address f)
unfolding route_fragment route_single
route_fragment-Allowed sha256 remote around first second third remote_address f =
    let key = bucket_key remote_address f in
    let views = first ∷ second ∷ third ∷ [] in
    elim (Bool-cases (f.message_seq_max == 0)) [
      | inl one ↦ rw one (
          route_single-Allowed sha256 remote key around views around.non_draining_ids
            f.message_seq_max (ground arith) refl)
      | inr many ↦ rw many (
          route_many-Allowed sha256 remote key around views f.message_seq_max (ground arith) views
            ((0, refl), ((1, refl), ((2, refl), tt))))
    ]
