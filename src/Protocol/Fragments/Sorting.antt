-- ===== src/Protocol/Fragments/Sorting.antt =====
-- pkg/protocol/fragmentation.go: the order of the fragments does not matter to their lookup.
use sdsyslog.Common.{
  ◌∙◌, ◌<◌, ℕ, ◌≤◌, ◌≡◌, refl, inl, inr, suc, Option, none, some, Bool-cases, List, [], ◌∷◌, leb,
  ◌==◌, if◌then◌else◌, arith,
}
use sdsyslog.Protocol.Fragments.{Payload, insert_by_seq, sort_by_seq}

-- The fragment with a sequence number.
unfoldable pub find : ℕ → List Payload → Option Payload
find i [] = none
find i (p ∷ ps) = if p.message_seq == i then some p else find i ps

-- No two fragments have the same number.
abbrev pub Distinct : List Payload → Type 0
Distinct [] = Unit
Distinct (p ∷ ps) = (find p.message_seq ps ≡ none) × Distinct ps

-- Numbers from `low` on, each above the one before it.
abbrev pub Ascending : ℕ → List Payload → Type 0
Ascending low [] = Unit
Ascending low (p ∷ ps) = (low ≤ p.message_seq) × Ascending (suc p.message_seq) ps

find-insert_by_seq :
    (i : ℕ) (p : Payload) (qs : List Payload)
    → find p.message_seq qs ≡ none
    → find i (insert_by_seq p qs) ≡ find i (p ∷ qs)
unfolding find insert_by_seq
find-insert_by_seq i p [] fresh = refl
find-insert_by_seq i p (q ∷ qs) fresh = ground (arith, find-insert_by_seq i p qs)

insert_by_seq-Ascending :
    (low : ℕ) (p : Payload) (qs : List Payload)
    → find p.message_seq qs ≡ none
    → low ≤ p.message_seq
    → Ascending low qs
    → Ascending low (insert_by_seq p qs)
unfolding find insert_by_seq
insert_by_seq-Ascending low p [] fresh h up = (h, tt)
insert_by_seq-Ascending low p (q ∷ qs) fresh h up =
    let ih = insert_by_seq-Ascending (suc q.message_seq) p qs in
    elim (Bool-cases (leb p.message_seq q.message_seq)) [
      | inl first ↦ rw first ((h, (ground arith, up.1)))
      | inr later ↦ rw later ((up.0, ih (ground arith) (ground arith) up.1))
    ]

pub find-sort_by_seq :
    (i : ℕ) (ps : List Payload) → Distinct ps → find i (sort_by_seq ps) ≡ find i ps
unfolding find sort_by_seq
find-sort_by_seq i [] d = refl
find-sort_by_seq i (p ∷ ps) d =
    find-insert_by_seq i p (sort_by_seq ps) (find-sort_by_seq p.message_seq ps d.1 ∙ d.0)
    ∙ rw (find-sort_by_seq i ps d.1)

pub sort_by_seq-Ascending : (ps : List Payload) → Distinct ps → Ascending 0 (sort_by_seq ps)
unfolding sort_by_seq
sort_by_seq-Ascending [] d = tt
sort_by_seq-Ascending (p ∷ ps) d =
    insert_by_seq-Ascending 0 p (sort_by_seq ps) (find-sort_by_seq p.message_seq ps d.1 ∙ d.0)
      (omega arith) (sort_by_seq-Ascending ps d.1)

-- Every number that is found is at least the first of an ascending list.
pub find-below : (i low : ℕ) (ps : List Payload) → Ascending low ps → i < low → find i ps ≡ none
unfolding find
find-below i low [] up h = refl
find-below i low (p ∷ ps) up h = ground (arith, find-below i (suc p.message_seq) ps)

-- Numbers up to `high`.
abbrev pub UpTo : ℕ → List Payload → Type 0
UpTo high ps = (i : ℕ) (p : Payload) → find i ps ≡ some p → i ≤ high
