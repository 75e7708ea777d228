-- ===== src/Routing.antt =====
-- internal/receiver/shard/routing.go: to which shard, or to which process, a fragment goes.
pub mod Keys
pub mod Rounds
pub mod Choice
pub mod Delivery
pub mod Instances
pub mod Draining
mod Tests
use sdsyslog.Common.{
  ℕ, zero, suc, ◌+◌, ◌-◌, ◌/◌, ◌%◌, Bool, true, false, not, ◌&&◌, Option, none, some, List, [], ◌∷◌,
  ◌++◌, ◌==◌, ltb, if◌then◌else◌, length, take, get_elem?, Result, ok, err,
}
use sdsyslog.Common.Words.{Bytes, be_value}
use sdsyslog.Protocol.Fragments.{Payload}

-- strconv.FormatInt in base 10. A number has at most as many digits as it is large, so it is enough
-- fuel itself.
unfoldable pub decimal_digits : ℕ → ℕ → Bytes
decimal_digits zero n = (48 + n % 10) ∷ []
decimal_digits (suc fuel) n =
    let before = decimal_digits fuel (n / 10) in
    if ltb n 10 then (48 + n) ∷ [] else before ++ (48 + n % 10) ∷ []

unfoldable pub decimal : ℕ → Bytes
unfolding decimal_digits
decimal n = decimal_digits n n

-- `remote_address` is the address as text, and 45 is '-'.
unfoldable pub bucket_key : Bytes → Payload → Bytes
unfolding decimal
bucket_key remote_address f = remote_address ++ 45 ∷ (decimal f.host_id ++ 45 ∷ decimal f.msg_id)

-- What the methods of a RoutingView answer. Others change the shards meanwhile, so the answers need
-- not fit together; an answer that is asked for twice is two answers.
pub record View : Type 0 where
  pub all_ids : List Bytes
  pub shard_there : Bytes → Bool
  pub is_shard_shutdown : Bytes → Bool
  pub bucket_exists : Bytes → Bytes → Bool

-- What is asked before the rounds: the shards that are not draining, whether the receiver of other
-- processes' fragments runs, and the socket files of the others, whose listing may fail.
pub record Surroundings : Type 0 where
  pub non_draining_ids : List Bytes
  pub single_shard_there : Bytes → Bool
  pub is_fipr_running : Bool
  pub socket_files : Option (List Bytes)

-- Where a fragment is pushed or sent.
pub data Routed : Type 0 where
  dropped : Routed
  to_shard to_process : Bytes → Routed

-- An index into a list that is long enough.
unfoldable pub candidate : List Bytes → ℕ → Bytes
candidate [] i = []
candidate (c ∷ cs) zero = c
candidate (c ∷ cs) (suc i) = candidate cs i

-- `sha256` is crypto/sha256's Sum256.
unfoldable pub route_select : (Bytes → Bytes) → Bytes → List Bytes → Bytes × Bytes
unfolding candidate
route_select sha256 key [] = ([], [])
route_select sha256 key (c ∷ []) = (c, c)
route_select sha256 key (c ∷ d ∷ cs) =
    let candidates = c ∷ d ∷ cs in
    let n = length candidates in
    let index = (be_value (take 8 (sha256 key)) % n) % n in
    (candidate candidates index, candidate candidates ((index + 1) % n))

unfoldable pub single_among : (Bytes → Bytes) → Bytes → Surroundings → List Bytes → Routed
unfolding route_select
single_among sha256 key around [] = dropped
single_among sha256 key around (id ∷ ids) =
    let chosen = (route_select sha256 key (id ∷ ids)).0 in
    if around.single_shard_there chosen then to_shard chosen else dropped

unfoldable pub route_single : (Bytes → Bytes) → Bytes → Surroundings → Routed
unfolding single_among
route_single sha256 key around = single_among sha256 key around around.non_draining_ids

-- A round ends with a destination, or another is tried; there the other processes are tried no more
-- where they were.
pub data Round : Type 0 where
  routed : Routed → Round
  again : (remotes : List Bytes) → Round

-- `remote` is fiprsend.RouteFragment: the fragment is to be routed here, or an error.
unfoldable pub local_fallback : View → Bytes → List Bytes → Round
local_fallback v secondary remotes =
    if length secondary == 0
    then routed dropped
    else if v.shard_there secondary
    then routed (to_shard secondary)
    else again remotes

unfoldable pub on_remote : Bytes → Option Bool → Round
on_remote socket none = again []
on_remote socket (some reroute_local) =
    if reroute_local then again [] else routed (to_process socket)

unfoldable pub draining_round :
    (Bytes → Bytes) → (Bytes → Option Bool) → Bytes → View → Bytes → List Bytes → Round
unfolding local_fallback on_remote route_select
draining_round sha256 remote key v secondary [] = local_fallback v secondary []
draining_round sha256 remote key v secondary (r ∷ remotes) =
    let socket = (route_select sha256 key (r ∷ remotes)).0 in on_remote socket (remote socket)

-- With the primary and the secondary shard.
unfoldable pub route_chosen :
    (Bytes → Bytes) → (Bytes → Option Bool) → Bytes → View → List Bytes → Bytes → Bytes → Round
unfolding draining_round
route_chosen sha256 remote key v remotes primary secondary =
    let elsewhere = draining_round sha256 remote key v secondary remotes in
    let pushed = if v.shard_there primary then routed (to_shard primary) else again remotes in
    if not (v.is_shard_shutdown primary)
    then pushed
    else if v.bucket_exists primary key
    then pushed
    else elsewhere

unfoldable pub route_ids :
    (Bytes → Bytes) → (Bytes → Option Bool) → Bytes → View → List Bytes → List Bytes → Round
unfolding route_chosen route_select
route_ids sha256 remote key v remotes [] = routed dropped
route_ids sha256 remote key v remotes (id ∷ ids) =
    let (primary, secondary) = route_select sha256 key (id ∷ ids) in
    route_chosen sha256 remote key v remotes primary secondary

unfoldable pub route_round :
    (Bytes → Bytes) → (Bytes → Option Bool) → Bytes → View → List Bytes → Round
unfolding route_ids
route_round sha256 remote key v remotes = route_ids sha256 remote key v remotes v.all_ids

unfoldable pub on_round : (List Bytes → Routed) → Round → Routed
on_round rest (routed to) = to
on_round rest (again left) = rest left

-- The rounds, with the answers of each.
unfoldable pub route_rounds :
    (Bytes → Bytes) → (Bytes → Option Bool) → Bytes → List View → List Bytes → Routed
unfolding route_round on_round
route_rounds sha256 remote key [] remotes = dropped
route_rounds sha256 remote key (v ∷ views) remotes =
    on_round (λ left. route_rounds sha256 remote key views left)
      (route_round sha256 remote key v remotes)

unfoldable pub remote_shards : Surroundings → Option (List Bytes)
remote_shards around = if around.is_fipr_running then around.socket_files else some []

-- A message of several fragments. There are three rounds.
unfoldable pub route_many :
    (Bytes → Bytes) → (Bytes → Option Bool) → Bytes → List View → Option (List Bytes) → Routed
unfolding route_rounds
route_many sha256 remote key views none = dropped
route_many sha256 remote key views (some remotes) = route_rounds sha256 remote key views remotes

unfoldable pub route_fragment :
    (Bytes → Bytes)
    → (Bytes → Option Bool)
    → Surroundings
    → View
    → View
    → View
    → Bytes
    → Payload
    → Routed
unfolding bucket_key route_single route_many remote_shards
route_fragment sha256 remote around first second third remote_address f =
    let key = bucket_key remote_address f in
    if f.message_seq_max == 0
    then route_single sha256 key around
    else route_many sha256 remote key (first ∷ second ∷ third ∷ []) (remote_shards around)
