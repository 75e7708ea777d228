-- ===== src/Shards/Assembly.antt =====
-- internal/receiver/shard/queue.go and internal/receiver/assembler/worker.go: the fragments of a
-- message, pushed among others, are drained together and joined.
use mathlib.Core.Path.{subst}
use mathlib.Core.List.{append_assoc}
use sdsyslog.Common.{
  length-map, length_concat, eq-true, ltb-false, length-map, ltb-false, length_concat, eq-true, ℕ,
  ◌+◌, ◌-◌, ◌≤◌, ◌≡◌, refl, ap, sym, ◌∙◌, Bool, true, false, Option, none, some, List, [], ◌∷◌,
  ◌++◌, arith, length, if◌then◌else◌, ◌==◌, Bool-cases, inl, inr, map, All, ok,
}
use sdsyslog.Common.Words.{Bytes, bytes_equal, bytes_equal_iff}
use sdsyslog.Protocol.Fragments.{Payload, fragment, defragment, rebuilt}
use sdsyslog.Protocol.Fragments.Sorting.{find, Distinct}
use sdsyslog.Protocol.Fragments.Reassembly.{OneMessage}
use sdsyslog.Protocol.Fragments.RoundTrip.{
  All-find, Comparable, Reordered, defragment-fragment, fragment-OneMessage,
}
use sdsyslog.Shards.{
  Bucket, Instance, find_bucket, push, put_fragment, store_fragment, elapsed_time,
}
use sdsyslog.Shards.Arrivals.{after_push, bucket_after, find-push, packet_deadline-push}

-- A fragment that comes for a key at a time.
pub record Arrival : Type 0 where
  pub key : Bytes
  pub piece : Payload
  pub now : ℕ

-- Pushes one after the other, each with room in the channel.
unfoldable pub push_each : ℕ → List Arrival → Instance → Instance
push_each other_size [] inst = inst
push_each other_size (a ∷ arrivals) inst =
    push_each other_size arrivals (after_push a.key (push other_size a.key a.piece a.now inst))

-- The arrivals for one key.
unfoldable pub those : Bytes → List Arrival → List Arrival
those key [] = []
those key (a ∷ arrivals) =
    if bytes_equal a.key key then a ∷ those key arrivals else those key arrivals

abbrev pub fragments_of : List Arrival → List Payload
fragments_of arrivals = map (λ (a : Arrival). a.piece) arrivals

-- The bucket of a key after the arrivals for it.
collect : ℕ → Option Bucket → List Arrival → Option Bucket
collect deadline o [] = o
collect deadline o (a ∷ arrivals) =
    collect deadline (some (bucket_after deadline a.piece a.now o)) arrivals

find-push_each :
    (other_size : ℕ) (key : Bytes) (arrivals : List Arrival) (inst : Instance)
    → find_bucket key (push_each other_size arrivals inst).buckets
      ≡ collect inst.packet_deadline (find_bucket key inst.buckets) (those key arrivals)
unfolding push_each those collect
find-push_each other_size key [] inst = refl
find-push_each other_size key (a ∷ arrivals) inst =
    let ih =
      find-push_each other_size key arrivals
        (after_push a.key (push other_size a.key a.piece a.now inst)) in
    let kept = packet_deadline-push other_size a.key a.piece a.now inst in
    let changed = find-push other_size a.key a.piece a.now inst key in
    elim (Bool-cases (bytes_equal a.key key)) [
      | inl same ↦
          let here : a.key ≡ key = (bytes_equal_iff a.key key).0 same in
          rw same (
            ih
            ∙ rw (kept, changed, same)
                (ap
                  (λ k.
                    collect inst.packet_deadline
                      (some (
                        bucket_after inst.packet_deadline a.piece a.now
                          (find_bucket k inst.buckets)))
                      (those key arrivals))
                  here))
      | inr other ↦ rw other (ih ∙ rw (kept, changed, other))
    ]

collect-some :
    (deadline : ℕ) (b : Bucket) (arrivals : List Arrival)
    → (c : Bucket) × (collect deadline (some b) arrivals ≡ some c)
unfolding collect
collect-some deadline b [] = (b, refl)
collect-some deadline b (a ∷ arrivals) =
    collect-some deadline (bucket_after deadline a.piece a.now (some b)) arrivals

-- No push takes a bucket away.
pub push_each-kept :
    (other_size : ℕ) (key : Bytes) (arrivals : List Arrival) (inst : Instance) (b : Bucket)
    → find_bucket key inst.buckets ≡ some b
    → (c : Bucket) × (find_bucket key (push_each other_size arrivals inst).buckets ≡ some c)
push_each-kept other_size key arrivals inst b e =
    let (c, kept) = collect-some inst.packet_deadline b (those key arrivals) in
    (c, find-push_each other_size key arrivals inst ∙ rw e kept)

-- No fragment comes later after the one before it than the deadline allows.
abbrev pub OnTime : ℕ → ℕ → List Arrival → Type 0
OnTime deadline last [] = Unit {0}
OnTime deadline last (a ∷ arrivals) =
    ((if last == 0 then 0 else a.now - last) ≤ deadline) × OnTime deadline a.now arrivals

abbrev pub keyed : Payload → ℕ × Payload
keyed f = (f.message_seq, f)

find-append_none :
    (i : ℕ) (fs gs : List Payload)
    → find i (fs ++ gs) ≡ none
    → (find i fs ≡ none) × (find i gs ≡ none)
unfolding find
find-append_none i [] gs h = (refl, h)
find-append_none i (f ∷ fs) gs h = ground (arith, find-append_none i fs gs)

Distinct-fresh :
    (f : Payload) (fs gs : List Payload) → Distinct (fs ++ f ∷ gs) → find f.message_seq fs ≡ none
unfolding find
Distinct-fresh f [] gs d = refl
Distinct-fresh f (g ∷ fs) gs d =
    let later = (find-append_none g.message_seq fs (f ∷ gs) d.0).1 in
    let ih = Distinct-fresh f fs gs d.1 in ground arith

put_fragment_new :
    (f : Payload) (fs : List Payload)
    → find f.message_seq fs ≡ none
    → put_fragment f.message_seq f (map keyed fs) ≡ map keyed (fs ++ f ∷ [])
unfolding find put_fragment
put_fragment_new f [] h = refl
put_fragment_new f (g ∷ fs) h = ground (arith, put_fragment_new f fs)

-- A bucket that holds these fragments.
abbrev holding : Bool → ℕ → ℕ → List Payload → Bucket
holding filled final last fs = record {
  filled = filled;
  fragments = map keyed fs;
  max_seq = final;
  last_process_start_time = last;
}

-- One more fragment, in time.
bucket_after-holding :
    (deadline final last now : ℕ) (f : Payload) (fs : List Payload)
    → find f.message_seq fs ≡ none
    → f.message_seq_max ≡ final
    → (if last == 0 then 0 else now - last) ≤ deadline
    → bucket_after deadline f now (some (holding false final last fs))
      ≡ holding
          (if length (fs ++ f ∷ []) == final + 1 then true else false)
          final
          now
          (fs ++ f ∷ [])
unfolding store_fragment elapsed_time
bucket_after-holding deadline final last now f fs fresh agrees on_time =
    let same : (final == f.message_seq_max) ≡ true = ground arith in
    rw (
      same,
      ltb-false deadline _ on_time,
      put_fragment_new f fs fresh,
      length-map keyed (fs ++ f ∷ []),
    )

-- The last fragment fills the bucket, with all of them in it.
collect-All :
    (deadline final last : ℕ) (seen : List Payload) (a : Arrival) (arrivals : List Arrival)
    → OnTime deadline last (a ∷ arrivals)
    → Distinct (seen ++ fragments_of (a ∷ arrivals))
    → All (λ (f : Payload). f.message_seq_max ≡ final) (fragments_of (a ∷ arrivals))
    → length seen + length (fragments_of (a ∷ arrivals)) ≡ final + 1
    → (now : ℕ) × (collect deadline (some (holding false final last seen)) (a ∷ arrivals)
        ≡ some (holding true final now (seen ++ fragments_of (a ∷ arrivals))))
unfolding collect
collect-All deadline final last seen a [] t d m n =
    let fresh = Distinct-fresh a.piece seen [] d in
    let full : (length (seen ++ a.piece ∷ []) == final + 1) ≡ true =
      ground (arith, length_concat seen a.piece) in
    (a.now, rw (bucket_after-holding deadline final last a.now a.piece seen fresh m.0 t.0, full))
collect-All deadline final last seen a (a' ∷ arrivals) t d m n =
    let fresh = Distinct-fresh a.piece seen (fragments_of (a' ∷ arrivals)) d in
    let some_left : (length (seen ++ a.piece ∷ []) == final + 1) ≡ false =
      ground (arith, length_concat seen a.piece) in
    let moved = append_assoc seen (a.piece ∷ []) (fragments_of (a' ∷ arrivals)) in
    let (now, rest) =
      collect-All deadline final a.now (seen ++ a.piece ∷ []) a' arrivals t.1
        (subst Distinct (sym moved) d) m.1 (omega (arith, length_concat seen a.piece)) in
    (
      now,
      rw (bucket_after-holding deadline final last a.now a.piece seen fresh m.0 t.0, some_left)
          (rest ∙ ap (λ fs. some (holding true final now fs)) moved),
    )

-- A first fragment finds a new bucket.
bucket_after-none :
    (deadline final now : ℕ) (f : Payload)
    → f.message_seq_max ≡ final
    → bucket_after deadline f now none
      ≡ bucket_after deadline f now (some (holding false final 0 []))
bucket_after-none deadline final now f agrees =
    (rw (eq-true f.message_seq_max))
    ∙ (ap (λ n. bucket_after deadline f now (some (holding false n 0 []))) agrees)

collect-none :
    (deadline final : ℕ) (arrivals : List Arrival)
    → OnTime deadline 0 arrivals
    → OneMessage final (fragments_of arrivals)
    → length arrivals ≡ final + 1
    → (now : ℕ) × (collect deadline none arrivals
        ≡ some (holding true final now (fragments_of arrivals)))
unfolding collect
collect-none deadline final [] t m n = absurd (omega (arith, m.some_there))
collect-none deadline final (a ∷ arrivals) t m n =
    let agrees =
      All-find (λ f. f.message_seq_max ≡ final) (fragments_of (a ∷ arrivals)) m.distinct m.agree in
    let counted = length-map (λ (a : Arrival). a.piece) arrivals in
    let (now, done) =
      collect-All deadline final 0 [] a arrivals t m.distinct agrees (omega arith) in
    (
      now,
      ap (λ b. collect deadline (some b) arrivals)
            (bucket_after-none deadline final a.now a.piece agrees.0)
          ∙ done,
    )

-- The fragments of a message that is not empty, and whose custom fields can be compared and are equal
-- to themselves (no byte slice and no NaN is among them), each once and in any order, pushed to a shard that
-- has no bucket for them, each in time after the one before it, among fragments of other keys: the
-- bucket is filled and holds them, and Defragment, which is given them in the order in which the map
-- is read, makes the message. Each push finds room in the channel.
pub push_each-defragment :
    (other_size : ℕ) (draws : ℕ → ℕ → Option ℕ) (p : Payload) (size fixed : ℕ)
    (parts : List Payload) (key : Bytes) (arrivals : List Arrival) (inst : Instance)
    (order : List Payload)
    → 1 ≤ length p.body
    → Comparable p
    → fragment draws p size fixed ≡ ok parts
    → Reordered parts (fragments_of (those key arrivals))
    → length (those key arrivals) ≡ length parts
    → OnTime inst.packet_deadline 0 (those key arrivals)
    → find_bucket key inst.buckets ≡ none
    → Reordered (fragments_of (those key arrivals)) order
    → (bucket : Bucket) × (find_bucket key (push_each other_size arrivals inst).buckets
        ≡ some bucket)
      × (bucket.filled ≡ true)
      × (bucket.fragments ≡ map keyed (fragments_of (those key arrivals)))
      × (defragment order ≡ ok (rebuilt p p.body))
push_each-defragment other_size draws p size fixed parts key arrivals inst order h c e re n t free
      o =
    let fs = fragments_of (those key arrivals) in
    let one = fragment-OneMessage draws p size fixed parts fs h c e re in
    let counted = length-map (λ (a : Arrival). a.piece) (those key arrivals) in
    let (now, done) =
      collect-none inst.packet_deadline (length parts - 1) (those key arrivals) t one
        (omega (arith, one.some_there)) in
    (
      holding true (length parts - 1) now fs,
      find-push_each other_size key arrivals inst ∙ rw free done,
      refl,
      refl,
      defragment-fragment draws p size fixed parts order h c e
          (record { distinct = o.distinct; same = λ i. o.same i ∙ re.same i }),
    )
