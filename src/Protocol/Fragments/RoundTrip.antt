-- ===== src/Protocol/Fragments/RoundTrip.antt =====
-- pkg/protocol/fragmentation.go: a message that is fragmented is joined again, in whatever order the
-- fragments come.
use sdsyslog.Common.{
  length-map, ℕ, suc, ◌-◌, ◌≤◌, ◌≡◌, refl, sym, ap, ◌∙◌, inl, inr, Bool-cases, Option, none, some,
  List, [], ◌∷◌, arith, length, map, true, ok, All, Yields-eq_ok, ◌==◌, eq-true,
}
use sdsyslog.Common.Words.{Bytes, bytes_equal_iff}
use mathlib.Core.Path.{subst}
use sdsyslog.Protocol.Fragments.{
  Payload, cut_fragment, fragment, with_max, custom_fields_equal, equal_to, shared_equal,
  all_equal_to, all_fields_equal, rebuilt, defragment,
}
use sdsyslog.Protocol.Fragments.Sorting.{find, Distinct}
use sdsyslog.Protocol.Fragments.Reassembly.{
  contents, contents_ext, find_head, OneMessage, defragment-contents,
}
use sdsyslog.Protocol.Fragments.Splitting.{
  Pieces, done, more, fragment-Yields, find-Pieces, contents-Pieces,
}

-- The fields that a fragment shares with its message.
record Like (p f : Payload) : Type 0 where
  remote_ip : f.remote_ip ≡ p.remote_ip
  host_id : f.host_id ≡ p.host_id
  msg_id : f.msg_id ≡ p.msg_id
  timestamp : f.timestamp ≡ p.timestamp
  hostname : f.hostname ≡ p.hostname
  custom_fields : f.custom_fields ≡ p.custom_fields

-- The custom fields can be compared, and each equals itself: no byte slice and no NaN among them.
abbrev pub Comparable : Payload → Type 0
Comparable p = custom_fields_equal p.custom_fields p.custom_fields ≡ ok true

shared_equal-Like : (p f g : Payload) → Like p f → Like p g → shared_equal f g ≡ true
unfolding shared_equal
shared_equal-Like p f g l m =
    rw (l.remote_ip, l.host_id, l.msg_id, l.timestamp, l.hostname)
      (rw (m.remote_ip, m.host_id, m.msg_id, m.timestamp, m.hostname)
        (rw (
          (bytes_equal_iff p.remote_ip p.remote_ip).1 refl,
          (bytes_equal_iff p.hostname p.hostname).1 refl,
          eq-true p.host_id,
          eq-true p.msg_id,
          eq-true p.timestamp,
        )))

equal_to-Like : (p f g : Payload) → Comparable p → Like p f → Like p g → equal_to f g ≡ ok true
unfolding equal_to
equal_to-Like p f g c l m = rw (
  shared_equal-Like p f g l m,
  l.custom_fields,
  m.custom_fields,
  eq-true (length p.custom_fields),
  c,
)

all_equal_to-Like :
    (p f : Payload) (gs : List Payload)
    → Comparable p
    → Like p f
    → All (Like p) gs
    → all_equal_to f gs ≡ ok true
unfolding all_equal_to
all_equal_to-Like p f [] c l ms = refl
all_equal_to-Like p f (g ∷ gs) c l (m, ms) =
    rw (equal_to-Like p f g c l m, all_equal_to-Like p f gs c l ms)

all_fields_equal-Like :
    (p : Payload) (fs : List Payload)
    → Comparable p
    → 1 ≤ length fs
    → All (Like p) fs
    → all_fields_equal fs ≡ ok true
unfolding all_fields_equal
all_fields_equal-Like p [] c h ms = absurd (omega arith)
all_fields_equal-Like p (f ∷ fs) c h (m, ms) = all_equal_to-Like p f fs c m ms

find_other :
    (f : Payload) (fs : List Payload) (i : ℕ) (g : Payload)
    → find f.message_seq fs ≡ none
    → find i fs ≡ some g
    → find i (f ∷ fs) ≡ some g
unfolding find
find_other f fs i g fresh e = elim (Bool-cases (f.message_seq == i)) [
  | inl same ↦ let here : f.message_seq ≡ i = ground arith in let there = rw here at fresh in cc
  | inr other ↦ rw (other, e)
]

-- What holds of each fragment that is found holds of all, where no number stands twice.
pub All-find :
    (P : Payload → Type 0) (fs : List Payload)
    → Distinct fs
    → ((i : ℕ) (f : Payload) → find i fs ≡ some f → P f)
    → All P fs
All-find P [] d h = tt
All-find P (f ∷ fs) d h = (
  h f.message_seq f (find_head f fs),
  All-find P fs d.1 λ i g e. h i g (find_other f fs i g d.0 e),
)

-- The same fragments in some order: each number stands once, and is found in both lists or neither.
pub record Reordered (parts fs : List Payload) : Type 0 where
  pub distinct : Distinct fs
  pub same : (i : ℕ) → find i fs ≡ find i parts

Like-with_max :
    (p : Payload) (last seq pad : ℕ) (piece : Bytes)
    → Like p (with_max last (cut_fragment p seq pad piece))
unfolding cut_fragment
Like-with_max p last seq pad piece = record {
  remote_ip = refl;
  host_id = refl;
  msg_id = refl;
  timestamp = refl;
  hostname = refl;
  custom_fields = refl;
}

rebuilt-Like : (p f : Payload) (whole : Bytes) → Like p f → rebuilt f whole ≡ rebuilt p whole
unfolding rebuilt
rebuilt-Like p f whole l =
    cc (l.remote_ip, l.host_id, l.msg_id, l.timestamp, l.hostname, l.custom_fields)

-- A message that is not empty has a first fragment.
first_there :
    (draws : ℕ → ℕ → Option ℕ) (p : Payload) (size fixed last : ℕ) {seq : ℕ} {bs : Bytes}
    {ps : List Payload}
    → Pieces draws p size fixed seq bs ps
    → 1 ≤ length bs
    → (1 ≤ length ps) × (f : Payload) × (find seq (map (with_max last) ps) ≡ some f)
unfolding cut_fragment
first_there draws p size fixed last done h = absurd (omega arith)
first_there draws p size fixed last (more {seq = seq} {ps = ps} pad piece drawn full fits cut) h =
    let f = with_max last (cut_fragment p seq pad piece) in
    (omega arith, f, find_head f (map (with_max last) ps))

nonempty : (fs : List Payload) (i : ℕ) (f : Payload) → find i fs ≡ some f → 1 ≤ length fs
unfolding find
nonempty [] i f e = cc
nonempty (g ∷ fs) i f e = omega arith

module _ (draws : ℕ → ℕ → Option ℕ) (p : Payload) (size fixed : ℕ) (ps fs : List Payload) where
  abbrev last : ℕ
  last = length ps - 1

  OneMessage-Pieces :
      Pieces draws p size fixed 0 p.body ps
      → 1 ≤ length p.body
      → Comparable p
      → Reordered (map (with_max last) ps) fs
      → OneMessage last fs × ((i : ℕ) (f : Payload) → find i fs ≡ some f → Like p f)
  OneMessage-Pieces cut h c re =
      let (some_ps, f, there) = first_there draws p size fixed last cut h in
      let found = λ (i : ℕ) (f : Payload) (e : find i fs ≡ some f).
        find-Pieces last cut i f (sym (re.same i) ∙ e) in
      let like : (i : ℕ) (f : Payload) → find i fs ≡ some f → Like p f = λ i f e.
        let (below, pad, piece, made) = found i f e in
        subst (Like p) (sym made) (Like-with_max p last i pad piece) in
      let some_fs = nonempty fs 0 f (re.same 0 ∙ there) in
      (
        record {
          distinct = re.distinct;
          up_to = λ i f e. let (below, pad, piece, made) = found i f e in omega arith;
          agree = λ i f e.
              let (below, pad, piece, made) = found i f e in
              ap (λ (g : Payload). g.message_seq_max) made;
          some_there = some_fs;
          same_fields =
              all_fields_equal-Like p fs c some_fs (All-find (Like p) fs re.distinct like);
        },
        like,
      )

  pub defragment-Pieces :
      Pieces draws p size fixed 0 p.body ps
      → 1 ≤ length p.body
      → Comparable p
      → Reordered (map (with_max last) ps) fs
      → defragment fs ≡ ok (rebuilt p p.body)
  defragment-Pieces cut h c re =
      let (one, like) = OneMessage-Pieces cut h c re in
      let (q, found, joined) = defragment-contents last fs one in
      let (some_ps, f, there) = first_there draws p size fixed last cut h in
      let count : suc last ≡ length ps = omega arith in
      let whole =
        contents_ext fs (map (with_max last) ps) 0 (suc last) (λ i _. re.same i)
        ∙ ap (contents (map (with_max last) ps) 0) count
        ∙ contents-Pieces last cut in
      joined
      ∙ ap (λ k. ok k) (ap (rebuilt q) whole ∙ rebuilt-Like p q p.body (like q.message_seq q found))

-- The fragments of a message that is not empty, each once and in any order, are joined to the
-- message: its bytes and its shared fields. The custom fields must be equal to themselves.
pub defragment-fragment :
    (draws : ℕ → ℕ → Option ℕ) (p : Payload) (size fixed : ℕ) (parts fs : List Payload)
    → 1 ≤ length p.body
    → Comparable p
    → fragment draws p size fixed ≡ ok parts
    → Reordered parts fs
    → defragment fs ≡ ok (rebuilt p p.body)
defragment-fragment draws p size fixed parts fs h c e re =
    let (ps, made, cut) = Yields-eq_ok (fragment-Yields draws p size fixed) e in
    defragment-Pieces draws p size fixed ps fs cut h c (subst (λ k. Reordered k fs) made re)

-- Its fragments, each once and in any order, are those of one message.
pub fragment-OneMessage :
    (draws : ℕ → ℕ → Option ℕ) (p : Payload) (size fixed : ℕ) (parts fs : List Payload)
    → 1 ≤ length p.body
    → Comparable p
    → fragment draws p size fixed ≡ ok parts
    → Reordered parts fs
    → OneMessage (length parts - 1) fs
fragment-OneMessage draws p size fixed parts fs h c e re =
    let (ps, made, cut) = Yields-eq_ok (fragment-Yields draws p size fixed) e in
    let counted : length ps ≡ length parts = sym (length-map _ ps) ∙ ap length (sym made) in
    subst (λ n. OneMessage (n - 1) fs) counted
      (OneMessage-Pieces draws p size fixed ps fs cut h c (subst (λ k. Reordered k fs) made re)).0
