-- ===== src/Protocol/Fragments/Reassembly.antt =====
-- pkg/protocol/fragmentation.go: what Defragment makes of its fragments, number by number.
use sdsyslog.Common.{
  inl, inr, Bool-cases, eq_zero-false, ℕ, suc, zero, ◌+◌, ◌-◌, ◌≤◌, ◌≡◌, refl, sym, ap, ◌∙◌, Option,
  none, some, List, [], ◌∷◌, ◌++◌, arith, length, true, ok, ltb,
}
use mathlib.Core.Path.{subst}
use sdsyslog.Common.Words.{Bytes}
use sdsyslog.Protocol.Fragments.{
  Payload, missing_fragment_placeholder, placeholders, join_loop, join_sorted, rebuilt, sort_by_seq,
  all_fields_equal, defragment,
}
use sdsyslog.Protocol.Fragments.Sorting.{
  find, Distinct, Ascending, find-below, UpTo, find-sort_by_seq, sort_by_seq-Ascending,
}
use mathlib.Core.List.{append_assoc}

-- What stands at a number of the message: the fragment's bytes, or the placeholder.
abbrev pub content : Option Payload → Bytes
content none = missing_fragment_placeholder
content (some p) = p.body

-- The contents of `n` numbers from `from` on.
unfoldable pub contents : List Payload → ℕ → ℕ → Bytes
contents ps from zero = []
contents ps from (suc n) = content (find from ps) ++ contents ps (suc from) n

pub contents_ext :
    (ps qs : List Payload) (from n : ℕ)
    → ((i : ℕ) → from ≤ i → find i ps ≡ find i qs)
    → contents ps from n ≡ contents qs from n
unfolding contents
contents_ext ps qs from zero h = refl
contents_ext ps qs from (suc n) h =
    rw (h from (omega arith), contents_ext ps qs (suc from) n (λ i l. h i (omega arith)))

contents_add :
    (ps : List Payload) (from m n : ℕ)
    → contents ps from (m + n) ≡ contents ps from m ++ contents ps (from + m) n
unfolding contents
contents_add ps from zero n =
    let here : from + 0 ≡ from = omega arith in let all : 0 + n ≡ n = omega arith in rw (here, all)
contents_add ps from (suc m) n =
    let shift : suc from + m ≡ from + suc m = omega arith in
    let more : suc m + n ≡ suc (m + n) = omega arith in
    rw (more, contents_add ps (suc from) m n, shift)
      (sym (
        append_assoc (content (find from ps)) (contents ps (suc from) m)
          (contents ps (from + suc m) n)))

-- Where nothing is found there are placeholders.
contents_missing :
    (ps : List Payload) (from low n : ℕ)
    → Ascending low ps
    → from + n ≤ low
    → contents ps from n ≡ placeholders n
unfolding contents placeholders
contents_missing ps from low zero up h = refl
contents_missing ps from low (suc n) up h =
    rw (
      find-below from low ps up (omega arith),
      contents_missing ps (suc from) low n up (omega arith),
    )

pub find_head : (p : Payload) (ps : List Payload) → find p.message_seq (p ∷ ps) ≡ some p
unfolding find
find_head p ps = ground arith

pub find_later :
    (p : Payload) (ps : List Payload) (i : ℕ) → suc p.message_seq ≤ i → find i (p ∷ ps) ≡ find i ps
unfolding find
find_later p ps i h = ground arith

-- A fragment, and the gap before it.
contents_step :
    (p : Payload) (ps : List Payload) (low high : ℕ)
    → Ascending low (p ∷ ps)
    → p.message_seq ≤ high
    → contents (p ∷ ps) low (suc high - low)
      ≡ placeholders (p.message_seq - low)
        ++ (p.body ++ contents ps (suc p.message_seq) (high - p.message_seq))
contents_step p ps low high up h =
    let gap = p.message_seq - low in
    let low_le = up.0 in
    let split : suc high - low ≡ gap + suc (high - p.message_seq) = omega arith in
    let there : low + gap ≡ p.message_seq = omega arith in
    rw
      (
        split,
        contents_add (p ∷ ps) low gap (suc (high - p.message_seq)),
        there,
        contents_missing (p ∷ ps) low p.message_seq gap (omega arith, up.1) (omega arith),
      )
      (unfold contents in
        rw (find_head p ps) (
          ap (λ k. placeholders gap ++ (p.body ++ k))
            (contents_ext (p ∷ ps) ps (suc p.message_seq) (high - p.message_seq)
              (find_later p ps))))

UpTo-tail : (p : Payload) (ps : List Payload) (high : ℕ) → UpTo high (p ∷ ps) → UpTo high ps
UpTo-tail p ps high to i q e = elim (Bool-cases (ltb p.message_seq i)) [
  | inl later ↦ to i q (find_later p ps i (ground arith) ∙ e)
  | inr early ↦
      let bound = to p.message_seq p (find_head p ps) in
      let below : i ≤ p.message_seq = ground arith in omega arith
]

join_loop-contents :
    (ps : List Payload) (final prev : ℕ)
    → Ascending (suc prev) ps
    → UpTo final ps
    → prev ≤ final
    → join_loop final prev ps ≡ contents ps (suc prev) (final - prev)
unfolding join_loop
join_loop-contents [] final prev up to h =
    sym (contents_missing [] (suc prev) (suc final) (final - prev) tt (omega arith))
join_loop-contents (p ∷ ps) final prev up to h =
    let bound = to p.message_seq p (find_head p ps) in
    let size : suc final - suc prev ≡ final - prev = omega arith in
    rw (join_loop-contents ps final p.message_seq up.1 (UpTo-tail p ps final to) bound, ← size)
      (sym (contents_step p ps (suc prev) final up bound))

join_sorted-contents :
    (p : Payload) (ps : List Payload)
    → Ascending 0 (p ∷ ps)
    → UpTo p.message_seq_max (p ∷ ps)
    → join_sorted (p ∷ ps) ≡ ok (rebuilt p (contents (p ∷ ps) 0 (suc p.message_seq_max)))
unfolding join_sorted
join_sorted-contents p ps up to =
    let final = p.message_seq_max in
    let bound = to p.message_seq p (find_head p ps) in
    let gap : p.message_seq - 0 ≡ p.message_seq = omega arith in
    let size : suc final - 0 ≡ suc final = omega arith in
    ap (λ whole. ok (rebuilt p whole))
      (rw (join_loop-contents ps final p.message_seq up.1 (UpTo-tail p ps final to) bound)
        (sym (rw (gap, size) at (contents_step p ps 0 final up bound))))

-- The fragments of one message, as the receiver collects them: their numbers differ and do not pass
-- the last one, on which they agree.
pub record OneMessage (final : ℕ) (ps : List Payload) : Type 0 where
  pub distinct : Distinct ps
  pub up_to : UpTo final ps
  pub agree : (i : ℕ) (p : Payload) → find i ps ≡ some p → p.message_seq_max ≡ final
  pub some_there : 1 ≤ length ps
  pub same_fields : all_fields_equal ps ≡ ok true

abbrev Joined : ℕ → List Payload → List Payload → Type 0
Joined final ps sorted =
    (p : Payload) × (find p.message_seq ps ≡ some p)
    × (join_sorted sorted ≡ ok (rebuilt p (contents ps 0 (suc final))))

join_sorted-Joined :
    (final : ℕ) (ps sorted : List Payload)
    → OneMessage final ps
    → Ascending 0 sorted
    → ((i : ℕ) → find i sorted ≡ find i ps)
    → Joined final ps sorted
join_sorted-Joined final [] sorted m up same = absurd (omega (arith, m.some_there))
join_sorted-Joined final (q ∷ qs) [] m up same =
    let nothing : find q.message_seq [] ≡ none = unfold find in refl in
    let something = same q.message_seq ∙ find_head q qs in cc
join_sorted-Joined final ps (p ∷ sorted) m up same =
    let found = sym (same p.message_seq) ∙ find_head p sorted in
    let to : UpTo final (p ∷ sorted) = λ i q e. m.up_to i q (sym (same i) ∙ e) in
    let last = m.agree p.message_seq p found in
    (
      p,
      found,
      subst (λ k. join_sorted (p ∷ sorted) ≡ ok (rebuilt p (contents (p ∷ sorted) 0 (suc k)))) last
            (join_sorted-contents p sorted up (subst (λ k. UpTo k (p ∷ sorted)) (sym last) to))
          ∙ rw (contents_ext (p ∷ sorted) ps 0 (suc final) (λ i _. same i)),
    )

-- The fragments of one message, in any order and with any of them missing, are joined to one
-- message: the contents of all numbers from 0 to the last in their order, where a number that is
-- missing leaves the placeholder. The shared fields are those of one of the fragments.
pub defragment-contents :
    (final : ℕ) (ps : List Payload)
    → OneMessage final ps
    → (p : Payload) × (find p.message_seq ps ≡ some p)
      × (defragment ps ≡ ok (rebuilt p (contents ps 0 (suc final))))
unfolding defragment
defragment-contents final ps m =
    let (p, found, joined) =
      join_sorted-Joined final ps (sort_by_seq ps) m (sort_by_seq-Ascending ps m.distinct)
        (λ i. find-sort_by_seq i ps m.distinct) in
    (p, found, rw (eq_zero-false (length ps) m.some_there, m.same_fields) joined)
