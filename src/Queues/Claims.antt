-- ===== src/Queues/Claims.antt =====
-- internal/queue/mpmc/entry.go: a producer gets the place at the tail, a consumer that at the head.
use sdsyslog.Common.{
  ℕ, suc, ◌+◌, ◌<◌, ◌≡◌, sym, ap, ◌∙◌, inl, inr, some, List, [], ◌∷◌, ◌++◌, get_elem?, arith,
  Bool-cases, ◌==◌, ltb, get_elem?-append, get_elem?_last, length_concat,
}
use mathlib.Core.Path.{subst}
use sdsyslog.Queues.{Cell, QueueInst, slot, cell_at}
use sdsyslog.Queues.Slots.{slot_round}
use sdsyslog.Queues.Places.{seq_at, item_at, IsRing, Later, Reached, Filling, Taking}
use sdsyslog.Queues.Ring.{same_seq}

module _ {ℓ} {T : Type ℓ} (q : QueueInst T) (pushed : List T) (pos : ℕ)
    (ring : IsRing q pushed) where
  seq_round : seq_at q (pos + q.capacity) ≡ seq_at q pos
  seq_round = ap (λ (c : Cell T). c.seq) (same_seq q (pos + q.capacity) pos (slot_round q pos))

  abbrev pub placed_queue : QueueInst T
  placed_queue = record q { tail = suc pos }

  abbrev pub taken_queue : QueueInst T
  taken_queue = record q { head = suc pos }

  -- A producer that saw the number of its position gets a place only where there is room.
  pub tail-room : q.tail ≡ pos → Reached q pos pos → pos < q.head + q.capacity
  tail-room here r = elim (Bool-cases (ltb pos (q.head + q.capacity))) [
    | inl room ↦ ground arith
    | inr none ↦
        let big = ring.big in
        let bounded = ring.bounded in
        let reached = r.reached in
        let last : pos ≡ q.head + q.capacity = ground arith in
        let number : seq_at q pos ≡ seq_at q q.head =
          ap (seq_at q) last
          ∙ ap (λ (c : Cell T). c.seq)
              (same_seq q (q.head + q.capacity) q.head (slot_round q q.head)) in
        elim (ring.full q.head (omega arith) (omega arith)) [
          | inl e ↦ absurd (omega arith)
          | inr (e, i) ↦ absurd (omega arith)
        ]
  ]

  tail-empty : q.tail ≡ pos → Reached q pos pos → seq_at q pos ≡ pos
  tail-empty here r =
      let big = ring.big in
      let reached = r.reached in
      elim (ring.vacant pos (omega arith) (tail-room here r)) [
        | inl e ↦ e
        | inr e ↦ absurd (omega arith)
      ]

  pub IsRing-placed :
      (v : T) → q.tail ≡ pos → Reached q pos pos → IsRing placed_queue (pushed ++ v ∷ [])
  unfolding cell_at slot
  IsRing-placed v here r =
      let room = tail-room here r in
      let ordered = ring.ordered in
      let counted = ring.counted in
      record {
        big = ring.big;
        ordered = omega arith;
        bounded = omega arith;
        counted = omega (arith, length_concat pushed v);
        full = λ p low high. elim (Bool-cases (p == pos)) [
          | inl same ↦
              let there : p ≡ pos = ground arith in
              inl (ap (seq_at q) there ∙ tail-empty here r ∙ sym there)
          | inr other ↦
              let before : p < q.tail = ground arith in
              elim (ring.full p low before) [
                | inl e ↦ inl e
                | inr (e, i) ↦ inr (e, get_elem?-append pushed (v ∷ []) p (item_at q p) i)
              ]
        ];
        vacant = λ p low high. ring.vacant p (omega arith) high;
      }

  pub Filling-placed :
      (v : T) → q.tail ≡ pos → Reached q pos pos → Filling placed_queue (pushed ++ v ∷ []) pos v
  unfolding cell_at slot
  Filling-placed v here r = record {
    numbered = tail-empty here r;
    behind = omega arith;
    recorded =
        subst (λ n. get_elem? (pushed ++ v ∷ []) n ≡ some v) (ring.counted ∙ here)
          (get_elem?_last pushed v);
  }

  pub Later-placed : (v : T) → q.tail ≡ pos → Later q pushed placed_queue (pushed ++ v ∷ [])
  unfolding cell_at slot
  Later-placed v here = record {
    seq_grows = λ p. omega arith;
    head_grows = omega arith;
    tail_grows = omega arith;
    longer = λ p w e. get_elem?-append pushed (v ∷ []) p w e;
  }

  -- A consumer that saw the next number takes a value only where there is one.
  pub head-full :
      q.head ≡ pos
      → Reached q pos (suc pos)
      → (pos < q.tail) × (seq_at q pos ≡ suc pos) × (get_elem? pushed pos ≡ some (item_at q pos))
  head-full here r =
      let big = ring.big in
      let ordered = ring.ordered in
      let reached = r.reached in
      elim (Bool-cases (ltb pos q.tail)) [
        | inl some_left ↦
            let before : pos < q.tail = ground arith in
            elim (ring.full pos (omega arith) before) [
              | inl e ↦ absurd (omega arith)
              | inr (e, i) ↦ (before, e, i)
            ]
        | inr none_left ↦
            let empty : pos ≡ q.tail = ground arith in
            elim (ring.vacant pos (omega arith) (omega arith)) [
              | inl e ↦ absurd (omega arith)
              | inr e ↦ absurd (omega arith)
            ]
      ]

  pub IsRing-taken : q.head ≡ pos → Reached q pos (suc pos) → IsRing taken_queue pushed
  unfolding cell_at slot
  IsRing-taken here r =
      let (before, e, i) = head-full here r in
      let bounded = ring.bounded in
      record {
        big = ring.big;
        ordered = omega arith;
        bounded = omega arith;
        counted = ring.counted;
        full = λ p low high. ring.full p (omega arith) high;
        vacant = λ p low high. elim (Bool-cases (p == pos + q.capacity)) [
          | inl last ↦
              let there : p ≡ pos + q.capacity = ground arith in
              let number : seq_at q p ≡ suc pos = ap (seq_at q) there ∙ seq_round ∙ e in
              inr (omega (arith, number, there))
          | inr before ↦ ring.vacant p low (ground arith)
        ];
      }

  pub Taking-taken :
      q.head ≡ pos → Reached q pos (suc pos) → Taking taken_queue pushed pos (item_at q pos)
  unfolding cell_at slot
  Taking-taken here r =
      let (before, e, i) = head-full here r in
      record { numbered = e; passed = omega arith; recorded = i }

  pub Later-taken : q.head ≡ pos → Later q pushed taken_queue pushed
  unfolding cell_at slot
  Later-taken here = record {
    seq_grows = λ p. omega arith;
    head_grows = omega arith;
    tail_grows = omega arith;
    longer = λ p w e. e;
  }
