-- ===== src/Routing/Tests.antt =====
-- internal/receiver/shard/routing.go: two shards, of which the second is the message's primary one.
use sdsyslog.Common.{
  ℕ, zero, suc, ◌≡◌, ◌≢◌, ◌≤◌, refl, Bool, true, false, Option, some, List, [], ◌∷◌, ◌++◌, arith,
  length, get_elem?, some_injective,
}
use sdsyslog.Common.Words.{Bytes, be_value, bytes_equal}
use sdsyslog.Protocol.Fragments.{Payload}
use sdsyslog.Protocol.Fragments.Tests.{with_fields}
use sdsyslog.Routing.{
  View, Surroundings, dropped, to_shard, bucket_key, decimal, remote_shards, route_select,
  candidate, route_fragment, route_many,
}
use sdsyslog.Routing.Keys.{bucket_key-injective}
use sdsyslog.Routing.Choice.{Allowed, route_fragment-Allowed}
use sdsyslog.Shards.{Instance, new, push}
use sdsyslog.Shards.Arrivals.{after_push}
use sdsyslog.Shards.Assembly.{push_each}
use sdsyslog.Routing.Delivery.{Steady, route_fragment-arrives}
use sdsyslog.Routing.Instances.{
  RoutingState, find_instance, get_shard, get_non_draining_ids, view_of,
}
use sdsyslog.Routing.Draining.{route_fragment-stays}

-- A hash whose first eight bytes are the number 5.
abbrev toy_sha256 : Bytes → Bytes
toy_sha256 key = 0 ∷ 0 ∷ 0 ∷ 0 ∷ 0 ∷ 0 ∷ 0 ∷ 5 ∷ 9 ∷ []

-- "127.0.0.1" is cut short to "1".
abbrev address : Bytes
address = 49 ∷ []

abbrev fragment : Payload
fragment = with_fields [] 1 2 10 (1 ∷ 2 ∷ [])

-- "1-7-8".
key_made : bucket_key address fragment ≡ 49 ∷ 45 ∷ 55 ∷ 45 ∷ 56 ∷ []
unfolding bucket_key decimal
key_made = refl

bucket_key-injective_example : (address ≡ address) × (fragment.host_id ≡ 7) × (fragment.msg_id ≡ 8)
unfolding bucket_key
bucket_key-injective_example =
    bucket_key-injective address address fragment (with_fields [] 0 2 10 (3 ∷ [])) refl

abbrev shards : List Bytes
shards = (65 ∷ []) ∷ (66 ∷ []) ∷ []

-- The shards shut down or run, as `draining` says.
abbrev view : Bool → View
view draining = record {
  all_ids = shards;
  shard_there = λ id. true;
  is_shard_shutdown = λ id. draining;
  bucket_exists = λ id key. false;
}

abbrev around : Surroundings
around = record {
  non_draining_ids = shards;
  single_shard_there = λ id. true;
  is_fipr_running = true;
  socket_files = some ((80 ∷ []) ∷ []);
}

-- The other process takes nothing.
abbrev busy : Bytes → Option Bool
busy socket = some true

view-Steady : (draining : Bool) → Steady (view draining)
view-Steady draining = record {
  some_listed = omega arith;
  all_there = λ id h. refl;
  all_named = λ id h. named id h.0 h.1;
}
  where
    named : (id : Bytes) (i : ℕ) → get_elem? shards i ≡ some id → 1 ≤ length id
    named id zero e = rw (← some_injective e) (omega arith)
    named id (suc zero) e = rw (← some_injective e) (omega arith)
    named id (suc (suc i)) e = cc

-- The fragment before it, which has come first.
abbrev fragment_before : Payload
fragment_before = with_fields [] 0 2 10 (3 ∷ [])

abbrev both_run : RoutingState
both_run = record { ids = shards; instances = ((65 ∷ []), new 4 5) ∷ ((66 ∷ []), new 4 5) ∷ [] }

-- The primary shard holds the first fragment and shuts down, and so does the other.
abbrev draining_shard : Instance
draining_shard =
    record (after_push (bucket_key address fragment_before)
      (push 0 (bucket_key address fragment_before) fragment_before 9 (new 4 5))) {
        in_shutdown = true;
      }

abbrev both_drain : RoutingState
both_drain = record {
  ids = shards;
  instances =
      ((65 ∷ []), record (new 4 5) { in_shutdown = true }) ∷ ((66 ∷ []), draining_shard) ∷ [];
}

route_fragment-stays_example :
    (route_fragment toy_sha256 busy around
        (view_of both_run)
        (view true)
        (view true)
        address
        fragment_before
      ≡ to_shard (66 ∷ []))
    × (route_fragment toy_sha256 busy around
          (view_of both_drain)
          (view true)
          (view true)
          address
          fragment
        ≡ to_shard (66 ∷ []))
unfolding route_select candidate be_value
route_fragment-stays_example =
    route_fragment-stays toy_sha256 busy around around both_run both_drain (view true) (view true)
      (view true) (view true) address fragment_before fragment (65 ∷ []) ((66 ∷ []) ∷ [])
      ((80 ∷ []) ∷ []) ((80 ∷ []) ∷ []) 0 9 [] (new 4 5) draining_shard (λ e. omega arith)
      (λ e. omega arith) refl refl (unfold remote_shards in refl) (unfold remote_shards in refl)
      refl refl (unfold get_shard find_instance bytes_equal in refl) (unfold new in refl)
      (unfold get_shard find_instance bytes_equal in refl) (unfold push_each in refl)

-- Both shards shut down, and the other process refuses: the fallback takes it.
refused_once :
    route_fragment toy_sha256 busy around (view true) (view true) (view true) address fragment
    ≡ to_shard (65 ∷ [])
unfolding route_fragment route_many remote_shards be_value
refused_once = refl

route_fragment-arrives_example :
    route_fragment toy_sha256 busy around (view true) (view true) (view true) address fragment
    ≢ dropped
route_fragment-arrives_example =
    route_fragment-arrives toy_sha256 busy around (view true) (view true) (view true) address
      fragment ((80 ∷ []) ∷ []) (unfold remote_shards in refl) (omega arith) (λ id h. refl)
      (view-Steady true) (view-Steady true)

route_fragment-Allowed_example :
    Allowed toy_sha256 busy
      (bucket_key address fragment)
      around
      (view true ∷ view false ∷ view true ∷ [])
      2
      (route_fragment toy_sha256 busy around (view true) (view false) (view true) address fragment)
route_fragment-Allowed_example =
    route_fragment-Allowed toy_sha256 busy around (view true) (view false) (view true) address
      fragment

-- Another shard is started: the message has another primary shard.
moved :
    ((route_select toy_sha256 [] shards).0 ≡ 66 ∷ [])
    × ((route_select toy_sha256 [] (shards ++ (67 ∷ []) ∷ [])).0 ≡ 67 ∷ [])
unfolding route_select candidate be_value
moved = (refl, refl)

none_runs : get_non_draining_ids both_drain.instances ≡ []
unfolding get_non_draining_ids
none_runs = refl
