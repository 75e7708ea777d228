-- ===== src/Routing/Draining.antt =====
-- internal/receiver/shard/routing.go over internal/receiver/assembler/routing.go: two fragments of a
-- message, with pushes and the start of a shutdown between them.
use sdsyslog.Common.{Bool, ℕ, ◌≡◌, ◌≢◌, ◌∙◌, ap, refl, false, inl, inr, Option, some, List, ◌∷◌}
use sdsyslog.Common.Words.{Bytes, bytes_equal_iff}
use sdsyslog.Protocol.Fragments.{Payload}
use sdsyslog.Shards.{Instance, find_bucket, push}
use sdsyslog.Shards.Arrivals.{after_push, bucket_after, find-push}
use sdsyslog.Shards.Assembly.{Arrival, push_each, push_each-kept}
use sdsyslog.Routing.{
  View, Surroundings, to_shard, bucket_key, route_select, remote_shards, route_fragment,
}
use sdsyslog.Routing.Delivery.{route_fragment-primary}
use sdsyslog.Routing.Instances.{RoutingState, is_shard_shutdown, bucket_exists, get_shard, view_of}

-- The key hangs on the address, the host and the message alone.
bucket_key-same :
    (address : Bytes) (f g : Payload)
    → g.host_id ≡ f.host_id
    → g.msg_id ≡ f.msg_id
    → bucket_key address g ≡ bucket_key address f
unfolding bucket_key
bucket_key-same address f g host message = rw (host, message) refl

-- Two fragments of a message of several. The first one is routed, on a snapshot of the instances, to
-- the primary shard of the message, which runs; it is pushed there, and so are others, of this message
-- and of others, each with room in the channel. The second one, on a later snapshot, goes to the same
-- shard, which may have begun to shut down meanwhile, whatever became of the other shards: as long as
-- the list of shards is the same, the shard is there, with the buckets that the pushes made, and the
-- socket files, where they are asked for, are listed.
pub route_fragment-stays :
    (sha256 : Bytes → Bytes) (remote : Bytes → Option Bool) (around around' : Surroundings)
    (rs rs' : RoutingState) (second third second' third' : View) (address : Bytes) (f g : Payload)
    (id : Bytes) (ids remotes remotes' : List Bytes) (other_size now : ℕ) (arrivals : List Arrival)
    (shard shard' : Instance)
    → f.message_seq_max ≢ 0
    → g.message_seq_max ≢ 0
    → g.host_id ≡ f.host_id
    → g.msg_id ≡ f.msg_id
    → remote_shards around ≡ some remotes
    → remote_shards around' ≡ some remotes'
    → rs.ids ≡ id ∷ ids
    → rs'.ids ≡ id ∷ ids
    → get_shard rs (route_select sha256 (bucket_key address f) (id ∷ ids)).0 ≡ some shard
    → shard.in_shutdown ≡ false
    → get_shard rs' (route_select sha256 (bucket_key address f) (id ∷ ids)).0 ≡ some shard'
    → shard'.buckets
      ≡ (push_each other_size arrivals (
          after_push
            (bucket_key address f)
            (push other_size (bucket_key address f) f now shard))).buckets
    → (route_fragment sha256 remote around (view_of rs) second third address f
        ≡ to_shard (route_select sha256 (bucket_key address f) (id ∷ ids)).0)
      × (route_fragment sha256 remote around' (view_of rs') second' third' address g
          ≡ to_shard (route_select sha256 (bucket_key address f) (id ∷ ids)).0)
unfolding is_shard_shutdown bucket_exists get_shard
route_fragment-stays sha256 remote around around' rs rs' second third second' third' address f g id
      ids remotes remotes' other_size now arrivals shard shard' several several' host message listed
      listed' shards shards' there running there' pushed =
    let key = bucket_key address f in
    let same = bucket_key-same address f g host message in
    let stored = find-push other_size key f now shard key in
    let first = after_push key (push other_size key f now shard) in
    let own : find_bucket key first.buckets
        ≡ some (bucket_after shard.packet_deadline f now (find_bucket key shard.buckets)) =
      stored ∙ rw ((bytes_equal_iff key key).1 refl) refl in
    let (bucket, held) =
      push_each-kept other_size key arrivals first
        (bucket_after shard.packet_deadline f now (find_bucket key shard.buckets)) own in
    (
      route_fragment-primary sha256 remote around (view_of rs) second third address f id ids remotes
          several listed shards (inl (rw there running)) (rw there refl),
      route_fragment-primary sha256 remote around' (view_of rs') second' third' address g id ids
            remotes' several' listed' shards' (inr (rw same (rw there' (rw pushed (rw held refl)))))
            (rw same (rw there' refl))
          ∙ ap (λ k. to_shard (route_select sha256 k (id ∷ ids)).0) same,
    )
