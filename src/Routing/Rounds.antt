-- ===== src/Routing/Rounds.antt =====
-- internal/receiver/shard/routing.go: what a round of the routing ends with.
use sdsyslog.Common.{
  ℕ, zero, suc, ◌+◌, ◌%◌, ◌<◌, ◌≡◌, ◌⊎◌, refl, sym, ap, ◌∙◌, inl, inr, Bool, true, false,
  Bool-cases, ◌==◌, Option, none, some, List, [], ◌∷◌, arith, length, get_elem?, take,
}
use sdsyslog.Common.Words.{Bytes, be_value}
use mathlib.Core.Path.{subst}
use native.Mathlib.Nat.{mod-lt}
use sdsyslog.Routing.{
  View, dropped, to_shard, to_process, candidate, route_select, Round, routed, again,
  local_fallback, on_remote, draining_round, route_chosen, route_ids,
}

abbrev pub Among {ℓ} : {A : Type ℓ} → A → List A → Type ℓ
Among x xs = (i : ℕ) × (get_elem? xs i ≡ some x)

candidate-Among : (cs : List Bytes) (i : ℕ) → i < length cs → get_elem? cs i ≡ some (candidate cs i)
unfolding candidate
candidate-Among [] i h = absurd (omega arith)
candidate-Among (c ∷ cs) zero h = refl
candidate-Among (c ∷ cs) (suc i) h = candidate-Among cs i (omega arith)

-- Both choices are candidates.
pub route_select-Among :
    (sha256 : Bytes → Bytes) (key : Bytes) (c : Bytes) (cs : List Bytes)
    → Among (route_select sha256 key (c ∷ cs)).0 (c ∷ cs)
      × Among (route_select sha256 key (c ∷ cs)).1 (c ∷ cs)
unfolding route_select
route_select-Among sha256 key c [] = ((0, refl), (0, refl))
route_select-Among sha256 key c (d ∷ cs) =
    let candidates = c ∷ d ∷ cs in
    let n = length candidates in
    let index = (be_value (take 8 (sha256 key)) % n) % n in
    let some_left : 0 < n = omega arith in
    (
      (
        index,
        candidate-Among candidates index (mod-lt (be_value (take 8 (sha256 key)) % n) some_left),
      ),
      (
        (index + 1) % n,
        candidate-Among candidates ((index + 1) % n) (mod-lt (index + 1) some_left),
      ),
    )

module _ (sha256 : Bytes → Bytes) (remote : Bytes → Option Bool) (key : Bytes) where
  -- A shard that a view allows: it is there, and it runs, or it has the message's bucket, or it is
  -- the fallback of a primary shard that shuts down.
  pub record Open (v : View) (id : Bytes) : Type 0 where
    pub listed : Among id v.all_ids
    pub there : v.shard_there id ≡ true
    pub why :
        (v.is_shard_shutdown id ≡ false)
        ⊎ ((v.bucket_exists id key ≡ true)
            ⊎ ((id ≡ (route_select sha256 key v.all_ids).1)
                × (v.is_shard_shutdown (route_select sha256 key v.all_ids).0 ≡ true)))

  -- What a round ends with: a shard of its view, or another process, or the processes that are left.
  pub data Ended (v : View) (remotes : List Bytes) : Round → Type 0 where
    nowhere : Ended v remotes (routed dropped)
    inside : (id : Bytes) → Open v id → Ended v remotes (routed (to_shard id))
    outside :
        (socket : Bytes)
        → Among socket remotes
        → remote socket ≡ some false
        → Ended v remotes (routed (to_process socket))
    on : Ended v remotes (again remotes)
    used : Ended v remotes (again [])

  on_remote-Ended :
      (v : View) (remotes : List Bytes) (socket : Bytes) (o : Option Bool)
      → Among socket remotes
      → remote socket ≡ o
      → Ended v remotes (on_remote socket o)
  unfolding on_remote
  on_remote-Ended v remotes socket none among e = used
  on_remote-Ended v remotes socket (some true) among e = used
  on_remote-Ended v remotes socket (some false) among e = outside socket among e

  local_fallback-Ended :
      (v : View) (remotes : List Bytes) (id : Bytes)
      → (v.shard_there id ≡ true → Open v id)
      → Ended v remotes (local_fallback v id remotes)
  unfolding local_fallback
  local_fallback-Ended v remotes id opened = elim (Bool-cases (length id == 0)) [
    | inl empty ↦ rw empty nowhere
    | inr full ↦ elim (Bool-cases (v.shard_there id)) [
      | inl there ↦ rw (full, there) (inside id (opened there))
      | inr gone ↦ rw (full, gone) on
    ]
  ]

  draining_round-Ended :
      (v : View) (remotes : List Bytes) (id : Bytes)
      → (v.shard_there id ≡ true → Open v id)
      → Ended v remotes (draining_round sha256 remote key v id remotes)
  unfolding draining_round
  draining_round-Ended v [] id opened = local_fallback-Ended v [] id opened
  draining_round-Ended v (r ∷ remotes) id opened =
      let socket = (route_select sha256 key (r ∷ remotes)).0 in
      on_remote-Ended v (r ∷ remotes) socket (remote socket)
        (route_select-Among sha256 key r remotes).0 refl

  route_chosen-Ended :
      (v : View) (remotes : List Bytes) (primary secondary : Bytes)
      → Among primary v.all_ids
      → Among secondary v.all_ids
      → route_select sha256 key v.all_ids ≡ (primary, secondary)
      → Ended v remotes (route_chosen sha256 remote key v remotes primary secondary)
  unfolding route_chosen
  route_chosen-Ended v remotes primary secondary first next chosen =
      elim (Bool-cases (v.is_shard_shutdown primary)) [
        | inr running ↦ elim (Bool-cases (v.shard_there primary)) [
          | inl there ↦
              rw (running, there)
                (inside primary (record { listed = first; there = there; why = inl running }))
          | inr gone ↦ rw (running, gone) on
        ]
        | inl draining ↦ elim (Bool-cases (v.bucket_exists primary key)) [
          | inl exists ↦ elim (Bool-cases (v.shard_there primary)) [
            | inl there ↦
                rw (draining, exists, there)
                  (inside primary
                    (record { listed = first; there = there; why = inr (inl exists) }))
            | inr gone ↦ rw (draining, exists, gone) on
          ]
          | inr missing ↦
              let down : v.is_shard_shutdown (route_select sha256 key v.all_ids).0 ≡ true =
                ap (λ (p : Bytes × Bytes). v.is_shard_shutdown p.0) chosen ∙ draining in
              rw (draining, missing)
                (draining_round-Ended v remotes secondary λ there. record {
                  listed = next;
                  there = there;
                  why = inr (inr (sym (ap (λ (p : Bytes × Bytes). p.1) chosen), down));
                })
        ]
      ]

  pub route_ids-Ended :
      (v : View) (remotes ids : List Bytes)
      → v.all_ids ≡ ids
      → Ended v remotes (route_ids sha256 remote key v remotes ids)
  unfolding route_ids
  route_ids-Ended v remotes [] e = nowhere
  route_ids-Ended v remotes (c ∷ cs) e =
      let primary = (route_select sha256 key (c ∷ cs)).0 in
      let secondary = (route_select sha256 key (c ∷ cs)).1 in
      let (first, next) = route_select-Among sha256 key c cs in
      route_chosen-Ended v remotes primary secondary (subst (Among primary) (sym e) first)
        (subst (Among secondary) (sym e) next) (ap (route_select sha256 key) e)
