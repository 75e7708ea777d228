-- ===== src/Routing/Instances.antt =====
-- internal/receiver/assembler/routing.go: what the routing asks of the running instances. A snapshot
-- of the instances is replaced as a whole; the shards that it points to change meanwhile.
use sdsyslog.Common.{Bool, true, false, Option, none, some, List, [], ◌∷◌, if◌then◌else◌}
use sdsyslog.Common.Words.{Bytes, bytes_equal}
use sdsyslog.Shards.{Instance, find_bucket}
use sdsyslog.Routing.{View}

-- The identifiers in the order of the starts, and the map of the instances, of which only the shard is
-- kept.
pub record RoutingState : Type 0 where
  pub ids : List Bytes
  pub instances : List (Bytes × Instance)

-- `instances[shardID]`.
unfoldable pub find_instance : Bytes → List (Bytes × Instance) → Option Instance
find_instance shard_id [] = none
find_instance shard_id ((id, inst) ∷ m) =
    if bytes_equal id shard_id then some inst else find_instance shard_id m

abbrev pub is_present : {A : Type 0} → Option A → Bool
is_present none = false
is_present (some a) = true

abbrev pub bucket_in : Bytes → Option Instance → Bool
bucket_in bucket_key none = false
bucket_in bucket_key (some shard) = is_present (find_bucket bucket_key shard.buckets)

abbrev pub shutdown_of : Option Instance → Bool
shutdown_of none = true
shutdown_of (some shard) = shard.in_shutdown

unfoldable pub bucket_exists : RoutingState → Bytes → Bytes → Bool
unfolding find_instance
bucket_exists rs shard_id bucket_key = bucket_in bucket_key (find_instance shard_id rs.instances)

unfoldable pub is_shard_shutdown : RoutingState → Bytes → Bool
unfolding find_instance
is_shard_shutdown rs shard_id = shutdown_of (find_instance shard_id rs.instances)

unfoldable pub get_shard : RoutingState → Bytes → Option Instance
unfolding find_instance
get_shard rs shard_id = find_instance shard_id rs.instances

-- The identifiers of the shards that are not draining, in the order in which the map is read.
unfoldable pub get_non_draining_ids : List (Bytes × Instance) → List Bytes
get_non_draining_ids [] = []
get_non_draining_ids ((id, inst) ∷ m) =
    let rest = get_non_draining_ids m in if inst.in_shutdown then rest else id ∷ rest

-- The answers of a state that does not change meanwhile.
abbrev pub view_of : RoutingState → View
view_of rs = record {
  all_ids = rs.ids;
  shard_there = λ shard_id. is_present (get_shard rs shard_id);
  is_shard_shutdown = is_shard_shutdown rs;
  bucket_exists = bucket_exists rs;
}
