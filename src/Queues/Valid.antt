-- ===== src/Queues/Valid.antt =====
-- internal/queue/mpmc/entry.go: what holds of the queue and its threads in every state, and what is
-- to be shown for an action to keep it.
use sdsyslog.Common.{
  ℕ, ◌<◌, ◌≤◌, ◌≡◌, ◌≢◌, refl, inl, inr, some, List, [], ◌∷◌, get_elem?, arith, Bool-cases, ◌==◌,
  All,
}
use mathlib.Core.Path.{subst}
use sdsyslog.Queues.{QueueInst, update, Producer, Consumer}
use sdsyslog.Queues.Steps.{System}
use sdsyslog.Queues.Places.{
  Same, IsRing, Later, Fills, Takes, Pushing, Popping, Pushing-Later, Popping-Later,
}

pub update-cases {ℓ κ} :
    {A : Type ℓ} (f : ℕ → A) (t : ℕ) (a : A) (P : ℕ → A → Type κ)
    → P t a
    → ((u : ℕ) → t ≢ u → P u (f u))
    → (u : ℕ) → P u (update f t a u)
unfolding update
update-cases f t a P here there u = elim (Bool-cases (t == u)) [
  | inl same ↦ let e : t ≡ u = ground arith in rw same (subst (λ k. P k a) e here)
  | inr other ↦ rw other (there u (ground arith))
]

-- Of two threads of different holdings, one of which moves.
apart_moved {ℓ} :
    {A : Type ℓ} (Holds : A → ℕ → Type 0) (f : ℕ → A) (t : ℕ) (a : A)
    → ((u w p : ℕ) → Holds (f u) p → Holds (f w) p → u ≡ w)
    → ((u p : ℕ) → t ≢ u → Holds a p → ¬ Holds (f u) p)
    → (u w p : ℕ) → Holds (update f t a u) p
    → Holds (update f t a w) p
    → u ≡ w
apart_moved Holds f t a old fresh =
    update-cases f t a (λ u x. (w p : ℕ) → Holds x p → Holds (update f t a w) p → u ≡ w)
      (update-cases f t a (λ w y. (p : ℕ) → Holds a p → Holds y p → t ≡ w) (λ p h k. refl)
        (λ w other p h k. absurd (fresh w p other h k)))
      (λ u other.
        update-cases f t a (λ w y. (p : ℕ) → Holds (f u) p → Holds y p → u ≡ w)
          (λ p h k. absurd (fresh u p other k h)) (λ w _ p h k. old u w p h k))

module _ {ℓ} {T : Type ℓ} where
  -- No value of the log was taken from the position.
  abbrev pub Untaken : ℕ → List (ℕ × T) → Type 0
  Untaken p log = All (λ e. e.0 ≢ p) log

  abbrev pub Once : List (ℕ × T) → Type 0
  Once [] = Unit
  Once (e ∷ log) = Untaken e.0 log × Once log

  pub record IsValid (s : System T) : Type ℓ where
    pub ring : IsRing s.queue s.pushed
    pub pushing : (t : ℕ) → Pushing s.queue s.pushed (s.producers t)
    pub popping : (t : ℕ) → Popping s.queue s.pushed (s.consumers t)
    pub fillers_apart : (t u p : ℕ) → Fills (s.producers t) p → Fills (s.producers u) p → t ≡ u
    pub takers_apart : (t u p : ℕ) → Takes (s.consumers t) p → Takes (s.consumers u) p → t ≡ u
    pub logged : All (λ e. (e.0 < s.queue.head) × (get_elem? s.pushed e.0 ≡ some e.1)) s.popped
    pub once : Once s.popped
    pub untaken : (t p : ℕ) → Takes (s.consumers t) p → Untaken p s.popped

  logged-Later :
      {q q' : QueueInst T} {pushed pushed' : List T} (log : List (ℕ × T))
      → Later q pushed q' pushed'
      → All (λ e. (e.0 < q.head) × (get_elem? pushed e.0 ≡ some e.1)) log
      → All (λ e. (e.0 < q'.head) × (get_elem? pushed' e.0 ≡ some e.1)) log
  logged-Later [] later h = tt
  logged-Later (e ∷ log) later ((below, there), hs) = (
    (omega (arith, later.head_grows, below), later.longer e.0 e.1 there),
    logged-Later log later hs,
  )

  -- What is at the head or after it was not taken.
  pub Untaken-head :
      (q : QueueInst T) (pushed : List T) (log : List (ℕ × T))
      → All (λ e. (e.0 < q.head) × (get_elem? pushed e.0 ≡ some e.1)) log
      → (p : ℕ) → q.head ≤ p
      → Untaken p log
  Untaken-head q pushed [] h p low = tt
  Untaken-head q pushed (e ∷ log) ((below, there), hs) p low =
      ((λ k. omega arith), Untaken-head q pushed log hs p low)

  pub producer_moved :
      (s : System T) (t : ℕ) (q' : QueueInst T) (pc : Producer T) (pushed' : List T)
      → IsValid s
      → IsRing q' pushed'
      → Later s.queue s.pushed q' pushed'
      → Pushing q' pushed' pc
      → ((u p : ℕ) → t ≢ u → Fills pc p → ¬ Fills (s.producers u) p)
      → ((u p : ℕ) → t ≢ u → Fills (s.producers u) p → Same s.queue q' p)
      → ((u p : ℕ) → Takes (s.consumers u) p → Same s.queue q' p)
      → IsValid (record s { queue = q'; producers = update s.producers t pc; pushed = pushed' })
  producer_moved s t q' pc pushed' v ring later here fresh fills takes = record {
    ring = ring;
    pushing =
        update-cases s.producers t pc (λ u x. Pushing q' pushed' x) here
          (λ u other. Pushing-Later (s.producers u) later (λ p h. fills u p other h) (v.pushing u));
    popping = λ u. Popping-Later (s.consumers u) later (λ p h. takes u p h) (v.popping u);
    fillers_apart = apart_moved Fills s.producers t pc v.fillers_apart fresh;
    takers_apart = v.takers_apart;
    logged = logged-Later s.popped later v.logged;
    once = v.once;
    untaken = v.untaken;
  }

  pub consumer_moved :
      (s : System T) (t : ℕ) (q' : QueueInst T) (pc : Consumer T)
      → IsValid s
      → IsRing q' s.pushed
      → Later s.queue s.pushed q' s.pushed
      → Popping q' s.pushed pc
      → ((u p : ℕ) → t ≢ u → Takes pc p → ¬ Takes (s.consumers u) p)
      → ((p : ℕ) → Takes pc p → Untaken p s.popped)
      → ((u p : ℕ) → Fills (s.producers u) p → Same s.queue q' p)
      → ((u p : ℕ) → t ≢ u → Takes (s.consumers u) p → Same s.queue q' p)
      → IsValid (record s { queue = q'; consumers = update s.consumers t pc })
  consumer_moved s t q' pc v ring later here fresh new fills takes = record {
    ring = ring;
    pushing = λ u. Pushing-Later (s.producers u) later (λ p h. fills u p h) (v.pushing u);
    popping =
        update-cases s.consumers t pc (λ u x. Popping q' s.pushed x) here
          (λ u other. Popping-Later (s.consumers u) later (λ p h. takes u p other h) (v.popping u));
    fillers_apart = v.fillers_apart;
    takers_apart = apart_moved Takes s.consumers t pc v.takers_apart fresh;
    logged = logged-Later s.popped later v.logged;
    once = v.once;
    untaken =
        update-cases s.consumers t pc (λ u x. (p : ℕ) → Takes x p → Untaken p s.popped) new
          (λ u _. v.untaken u);
  }
