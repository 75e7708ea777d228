-- ===== src/Queues/Places.antt =====
-- internal/queue/mpmc/entry.go: whose a cell is, by its number.
use sdsyslog.Common.{
  ℕ, suc, ◌+◌, ◌<◌, ◌≤◌, ◌≡◌, refl, sym, ap, ◌∙◌, ◌⊎◌, some, List, length, get_elem?, arith,
}
use mathlib.Core.Path.{subst}
use sdsyslog.Queues.{
  Cell, QueueInst, cell_at, Producer, resting, starting, aiming, seen, placed, written, published,
  Consumer, idle, polling, probing, ready, claimed, taken, released,
}

module _ {ℓ} {T : Type ℓ} where
  abbrev pub seq_at : QueueInst T → ℕ → ℕ
  seq_at q p = (cell_at q p).seq

  abbrev pub item_at : QueueInst T → ℕ → T
  item_at q p = (cell_at q p).item

  -- The position whose cell a producer writes.
  abbrev pub Fills : Producer T → ℕ → Type 0
  Fills resting p = ⊥
  Fills (starting v size) p = ⊥
  Fills (aiming v size pos) p = ⊥
  Fills (seen v size pos) p = ⊥
  Fills (placed v size pos) p = pos ≡ p
  Fills (written v size pos) p = pos ≡ p
  Fills (published size pos) p = ⊥

  -- The position whose cell a consumer reads.
  abbrev pub Takes : Consumer T → ℕ → Type 0
  Takes idle p = ⊥
  Takes polling p = ⊥
  Takes (probing pos) p = ⊥
  Takes (ready pos) p = ⊥
  Takes (claimed pos) p = pos ≡ p
  Takes (taken pos v) p = pos ≡ p
  Takes (released pos) p = ⊥

  -- The number of a cell, once it is seen, does not go down.
  pub record Reached (q : QueueInst T) (pos number : ℕ) : Type ℓ where
    pub reached : number ≤ seq_at q pos

  -- A producer that writes a cell, with the value that it has a place for.
  pub record Filling (q : QueueInst T) (pushed : List T) (pos : ℕ) (v : T) : Type ℓ where
    pub numbered : seq_at q pos ≡ pos
    pub behind : pos < q.tail
    pub recorded : get_elem? pushed pos ≡ some v

  -- A consumer that reads a cell, which holds `v`.
  pub record Taking (q : QueueInst T) (pushed : List T) (pos : ℕ) (v : T) : Type ℓ where
    pub numbered : seq_at q pos ≡ suc pos
    pub passed : pos < q.head
    pub recorded : get_elem? pushed pos ≡ some v

  abbrev pub Pushing : QueueInst T → List T → Producer T → Type ℓ
  Pushing q pushed resting = Unit
  Pushing q pushed (starting v size) = Unit
  Pushing q pushed (aiming v size pos) = Unit
  Pushing q pushed (seen v size pos) = Reached q pos pos
  Pushing q pushed (placed v size pos) = Filling q pushed pos v
  Pushing q pushed (written v size pos) = Filling q pushed pos v × (item_at q pos ≡ v)
  Pushing q pushed (published size pos) = Unit

  abbrev pub Popping : QueueInst T → List T → Consumer T → Type ℓ
  Popping q pushed idle = Unit
  Popping q pushed polling = Unit
  Popping q pushed (probing pos) = Unit
  Popping q pushed (ready pos) = Reached q pos (suc pos)
  Popping q pushed (claimed pos) = Taking q pushed pos (item_at q pos)
  Popping q pushed (taken pos v) = Taking q pushed pos v
  Popping q pushed (released pos) = Unit

  -- The positions from the head on, as many as there are cells: those that have values, but for the
  -- producers that are still writing, and those that have room, but for the consumers that are still
  -- reading there.
  pub record IsRing (q : QueueInst T) (pushed : List T) : Type ℓ where
    pub big : 2 ≤ q.capacity
    pub ordered : q.head ≤ q.tail
    pub bounded : q.tail ≤ q.head + q.capacity
    pub counted : length pushed ≡ q.tail
    pub full :
        (p : ℕ)
        → q.head ≤ p
        → p < q.tail
        → (seq_at q p ≡ p) ⊎ ((seq_at q p ≡ suc p) × (get_elem? pushed p ≡ some (item_at q p)))
    pub vacant :
        (p : ℕ)
        → q.tail ≤ p
        → p < q.head + q.capacity
        → (seq_at q p ≡ p) ⊎ (seq_at q p + q.capacity ≡ suc p)

  -- What no action takes back.
  pub record Later (q : QueueInst T) (pushed : List T) (q' : QueueInst T) (pushed' : List T)
      : Type ℓ where
    pub seq_grows : (p : ℕ) → seq_at q p ≤ seq_at q' p
    pub head_grows : q.head ≤ q'.head
    pub tail_grows : q.tail ≤ q'.tail
    pub longer : (p : ℕ) (v : T) → get_elem? pushed p ≡ some v → get_elem? pushed' p ≡ some v

  -- A cell whose number and data are left alone.
  abbrev pub Same : QueueInst T → QueueInst T → ℕ → Type ℓ
  Same q q' p = (seq_at q' p ≡ seq_at q p) × (item_at q' p ≡ item_at q p)

  pub cell_at-Same : (q q' : QueueInst T) (p : ℕ) → cell_at q' p ≡ cell_at q p → Same q q' p
  cell_at-Same q q' p e = (ap (λ (c : Cell T). c.seq) e, ap (λ (c : Cell T). c.item) e)

  Filling-Later :
      {q q' : QueueInst T} {pushed pushed' : List T} {pos : ℕ} {v : T}
      → Later q pushed q' pushed'
      → Same q q' pos
      → Filling q pushed pos v
      → Filling q' pushed' pos v
  Filling-Later {pos = pos} {v = v} later same f = record {
    numbered = same.0 ∙ f.numbered;
    behind = omega (arith, later.tail_grows, f.behind);
    recorded = later.longer pos v f.recorded;
  }

  Taking-Later :
      {q q' : QueueInst T} {pushed pushed' : List T} {pos : ℕ} {v : T}
      → Later q pushed q' pushed'
      → Same q q' pos
      → Taking q pushed pos v
      → Taking q' pushed' pos v
  Taking-Later {pos = pos} {v = v} later same f = record {
    numbered = same.0 ∙ f.numbered;
    passed = omega (arith, later.head_grows, f.passed);
    recorded = later.longer pos v f.recorded;
  }

  Reached-Later :
      {q q' : QueueInst T} {pushed pushed' : List T} {pos number : ℕ}
      → Later q pushed q' pushed'
      → Reached q pos number
      → Reached q' pos number
  Reached-Later {pos = pos} later r = record {
    reached = omega (arith, later.seq_grows pos, r.reached);
  }

  -- A thread whose cell is left alone keeps what it knows.
  pub Pushing-Later :
      {q q' : QueueInst T} {pushed pushed' : List T} (pc : Producer T)
      → Later q pushed q' pushed'
      → ((p : ℕ) → Fills pc p → Same q q' p)
      → Pushing q pushed pc
      → Pushing q' pushed' pc
  Pushing-Later resting later same h = tt
  Pushing-Later (starting v size) later same h = tt
  Pushing-Later (aiming v size pos) later same h = tt
  Pushing-Later (seen v size pos) later same h = Reached-Later later h
  Pushing-Later (placed v size pos) later same h = Filling-Later later (same pos refl) h
  Pushing-Later (written v size pos) later same (h, e) =
      (Filling-Later later (same pos refl) h, (same pos refl).1 ∙ e)
  Pushing-Later (published size pos) later same h = tt

  pub Popping-Later :
      {q q' : QueueInst T} {pushed pushed' : List T} (pc : Consumer T)
      → Later q pushed q' pushed'
      → ((p : ℕ) → Takes pc p → Same q q' p)
      → Popping q pushed pc
      → Popping q' pushed' pc
  Popping-Later idle later same h = tt
  Popping-Later polling later same h = tt
  Popping-Later (probing pos) later same h = tt
  Popping-Later (ready pos) later same h = Reached-Later later h
  Popping-Later {q} {q'} {pushed} {pushed'} (claimed pos) later same h =
      subst (Taking q' pushed' pos) (sym (same pos refl).1) (Taking-Later later (same pos refl) h)
  Popping-Later (taken pos v) later same h = Taking-Later later (same pos refl) h
  Popping-Later (released pos) later same h = tt

  pub Fills-numbered :
      (q : QueueInst T) (pushed : List T) (pc : Producer T) (p : ℕ)
      → Pushing q pushed pc
      → Fills pc p
      → seq_at q p ≡ p
  Fills-numbered q pushed resting p h e = elim e [ ]
  Fills-numbered q pushed (starting _ _) p h e = elim e [ ]
  Fills-numbered q pushed (aiming _ _ _) p h e = elim e [ ]
  Fills-numbered q pushed (seen _ _ _) p h e = elim e [ ]
  Fills-numbered q pushed (published _ _) p h e = elim e [ ]
  Fills-numbered q pushed (placed v size pos) p h e = subst (λ k. seq_at q k ≡ k) e h.numbered
  Fills-numbered q pushed (written v size pos) p h e = subst (λ k. seq_at q k ≡ k) e h.0.numbered

  pub Takes-numbered :
      (q : QueueInst T) (pushed : List T) (pc : Consumer T) (p : ℕ)
      → Popping q pushed pc
      → Takes pc p
      → seq_at q p ≡ suc p
  Takes-numbered q pushed idle p h e = elim e [ ]
  Takes-numbered q pushed polling p h e = elim e [ ]
  Takes-numbered q pushed (probing _) p h e = elim e [ ]
  Takes-numbered q pushed (ready _) p h e = elim e [ ]
  Takes-numbered q pushed (released _) p h e = elim e [ ]
  Takes-numbered q pushed (claimed pos) p h e = subst (λ k. seq_at q k ≡ suc k) e h.numbered
  Takes-numbered q pushed (taken pos v) p h e = subst (λ k. seq_at q k ≡ suc k) e h.numbered

  pub Fills-before :
      (q : QueueInst T) (pushed : List T) (pc : Producer T) (p : ℕ)
      → Pushing q pushed pc
      → Fills pc p
      → p < q.tail
  Fills-before q pushed resting p h e = elim e [ ]
  Fills-before q pushed (starting _ _) p h e = elim e [ ]
  Fills-before q pushed (aiming _ _ _) p h e = elim e [ ]
  Fills-before q pushed (seen _ _ _) p h e = elim e [ ]
  Fills-before q pushed (published _ _) p h e = elim e [ ]
  Fills-before q pushed (placed v size pos) p h e = omega (arith, h.behind, e)
  Fills-before q pushed (written v size pos) p h e = omega (arith, h.0.behind, e)

  pub Takes-before :
      (q : QueueInst T) (pushed : List T) (pc : Consumer T) (p : ℕ)
      → Popping q pushed pc
      → Takes pc p
      → p < q.head
  Takes-before q pushed idle p h e = elim e [ ]
  Takes-before q pushed polling p h e = elim e [ ]
  Takes-before q pushed (probing _) p h e = elim e [ ]
  Takes-before q pushed (ready _) p h e = elim e [ ]
  Takes-before q pushed (released _) p h e = elim e [ ]
  Takes-before q pushed (claimed pos) p h e = omega (arith, h.passed, e)
  Takes-before q pushed (taken pos v) p h e = omega (arith, h.passed, e)
