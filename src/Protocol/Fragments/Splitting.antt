-- ===== src/Protocol/Fragments/Splitting.antt =====
-- pkg/protocol/fragmentation.go: Fragment cuts a message into pieces that fit, and always succeeds
-- where the size leaves room for the largest padding.
use sdsyslog.Common.{
  none, not, ◌==◌, lt→ltb, eq_zero-false, ℕ, suc, zero, ◌+◌, ◌-◌, ◌<◌, ◌≤◌, ◌≡◌, refl, ap, ◌∙◌, inl,
  inr, Bool-cases, Option, some, List, [], ◌∷◌, ◌++◌, arith, length, map, ok, ltb, All, Yields,
  good, bad, Yields-intro, Yields-bind, Yields-guard, Yields-eq_ok, take-append-drop, length-take,
  length-drop, length-append,
}
use sdsyslog.Common.Words.{Bytes}
use mathlib.Core.Path.{subst}
use mathlib.Core.List.{append-nil}
use sdsyslog.Protocol.Fragments.{
  Payload, front_part, back_part, drawn_padding, cut_fragment, fragment_loop, fragment, with_max,
}
use sdsyslog.Protocol.Fragments.Sorting.{Distinct, find}
use sdsyslog.Protocol.Fragments.Reassembly.{contents, contents_ext, find_head, find_later}

-- Some bytes, cut into fragments numbered from `seq` on: none is empty, and none passes the size.
pub data Pieces (draws : ℕ → ℕ → Option ℕ) (p : Payload) (size fixed : ℕ)
    : ℕ → Bytes → List Payload → Type 0 where
  done : {seq : ℕ} → Pieces draws p size fixed seq [] []
  more :
      {seq : ℕ} {rest : Bytes} {ps : List Payload} (pad : ℕ) (piece : Bytes)
      → drawn_padding draws seq ≡ ok pad
      → 1 ≤ length piece
      → fixed + pad + length piece ≤ size
      → Pieces draws p size fixed (suc seq) rest ps
      → Pieces draws p size fixed seq (piece ++ rest) (cut_fragment p seq pad piece ∷ ps)

front_part-back_part : (room : ℕ) (bs : Bytes) → front_part room bs ++ back_part room bs ≡ bs
unfolding front_part back_part
front_part-back_part room bs = elim (Bool-cases (ltb room (length bs))) [
  | inl long ↦ rw long (take-append-drop room bs)
  | inr short ↦ rw short (append-nil bs)
]

length-front_part :
    (room : ℕ) (b : ℕ) (bs : Bytes)
    → 1 ≤ room
    → (1 ≤ length (front_part room (b ∷ bs))) × (length (front_part room (b ∷ bs)) ≤ room)
unfolding front_part
length-front_part room b bs h = ground (arith, length-take room (b ∷ bs))

length-back_part :
    (room : ℕ) (b : ℕ) (bs : Bytes) → 1 ≤ room → length (back_part room (b ∷ bs)) ≤ length bs
unfolding back_part
length-back_part room b bs h = ground (arith, length-drop room (b ∷ bs))

module _ (draws : ℕ → ℕ → Option ℕ) (p : Payload) (size fixed : ℕ) where
  fragment_loop-Yields :
      (fuel seq : ℕ) (bs : Bytes)
      → Yields (Pieces draws p size fixed seq bs) (fragment_loop fuel draws p size fixed seq bs)
  unfolding fragment_loop
  fragment_loop-Yields fuel seq [] = good done
  fragment_loop-Yields zero seq (b ∷ bs) = bad
  fragment_loop-Yields (suc fuel) seq (b ∷ bs) =
      Yields-bind
        (Yields-intro {P = λ pad. drawn_padding draws seq ≡ ok pad} (drawn_padding draws seq)
          (λ _ e. e))
        λ pad drawn. Yields-bind (Yields-guard (ltb (fixed + pad) size) _) λ _ fits.
          let room = size - fixed - pad in
          Yields-bind (fragment_loop-Yields fuel (suc seq) (back_part room (b ∷ bs))) λ ps rest.
            let roomy : 1 ≤ room = ground arith in
            let some_left : fixed + pad < size = ground arith in
            let (full, bound) = length-front_part room b bs roomy in
            good (
              subst
                (λ k.
                  Pieces draws p size fixed seq k
                    (cut_fragment p seq pad (front_part room (b ∷ bs)) ∷ ps))
                (front_part-back_part room (b ∷ bs))
                (more pad (front_part room (b ∷ bs)) drawn full (omega arith) rest))

  -- rand.Int draws a number below its bound.
  abbrev pub Drawing : Type 0
  Drawing = (k bound : ℕ) → 0 < bound → (n : ℕ) × (draws k bound ≡ some n) × (n < bound)

  pub drawn_padding-Drawing :
      Drawing → (seq : ℕ) → (pad : ℕ) × (drawn_padding draws seq ≡ ok pad) × (10 ≤ pad) × (pad ≤ 60)
  unfolding drawn_padding
  drawn_padding-Drawing drawing seq =
      let (n, drawn, low) = drawing seq 51 (omega arith) in
      (n + 10, rw drawn, omega arith, omega arith)

  fragment_loop-total :
      Drawing
      → fixed + 60 < size
      → (fuel seq : ℕ) (bs : Bytes) → length bs ≤ fuel
      → (ps : List Payload) × (fragment_loop fuel draws p size fixed seq bs ≡ ok ps)
  unfolding fragment_loop
  fragment_loop-total drawing room fuel seq [] h = ([], refl)
  fragment_loop-total drawing room zero seq (b ∷ bs) h = absurd (omega arith)
  fragment_loop-total drawing room (suc fuel) seq (b ∷ bs) h =
      let (pad, drawn, _, low) = drawn_padding-Drawing drawing seq in
      let left = size - fixed - pad in
      let shorter = length-back_part left b bs (omega arith) in
      let (ps, rest) =
        fragment_loop-total drawing room fuel (suc seq) (back_part left (b ∷ bs)) (omega arith) in
      (
        cut_fragment p seq pad (front_part left (b ∷ bs)) ∷ ps,
        rw (drawn, lt→ltb (fixed + pad) size (omega arith), rest),
      )

  -- What is cut is numbered on, with the last number on each fragment.
  pub fragment-Yields :
      Yields
        (λ parts.
          (ps : List Payload) × (parts ≡ map (with_max (length ps - 1)) ps)
          × Pieces draws p size fixed 0 p.body ps)
        (fragment draws p size fixed)
  unfolding fragment
  fragment-Yields = Yields-bind (Yields-guard (not (size == 0)) _) λ _ _.
      Yields-bind (Yields-guard (not (fixed == 0)) _) λ _ _.
        Yields-bind (fragment_loop-Yields (length p.body) 0 p.body) λ ps cut. good (ps, refl, cut)

  -- A fragment with the overhead that is known and its own padding.
  abbrev pub Fits : Payload → Type 0
  Fits f = (1 ≤ length f.body) × (fixed + f.padding_len + length f.body ≤ size)

  Fits-Pieces :
      (last : ℕ) {seq : ℕ} {bs : Bytes} {ps : List Payload}
      → Pieces draws p size fixed seq bs ps
      → All Fits (map (with_max last) ps)
  unfolding cut_fragment
  Fits-Pieces last done = tt
  Fits-Pieces last (more pad piece drawn full fits rest) = ((full, fits), Fits-Pieces last rest)

  -- Where the size leaves room for the overhead, which is not 0, and the largest padding, and each
  -- draw succeeds below its bound, a message is cut into fragments, and none of them is empty or
  -- passes the size with its overhead and its padding.
  pub fragment-Fits :
      Drawing
      → 1 ≤ fixed
      → fixed + 60 < size
      → (parts : List Payload) × (fragment draws p size fixed ≡ ok parts) × All Fits parts
  unfolding fragment
  fragment-Fits drawing some_fixed room =
      let (ps, cut) = fragment_loop-total drawing room (length p.body) 0 p.body (omega arith) in
      (
        map (with_max (length ps - 1)) ps,
        rw (eq_zero-false size (omega arith), eq_zero-false fixed some_fixed, cut),
        Fits-Pieces (length ps - 1)
            (Yields-eq_ok (fragment_loop-Yields (length p.body) 0 p.body) cut),
      )

module _ {draws : ℕ → ℕ → Option ℕ} {p : Payload} {size fixed : ℕ} (last : ℕ) where
  -- The pieces are the message, in the order of their numbers.
  pub contents-Pieces :
      {seq : ℕ} {bs : Bytes} {ps : List Payload}
      → Pieces draws p size fixed seq bs ps
      → contents (map (with_max last) ps) seq (length ps) ≡ bs
  unfolding contents cut_fragment
  contents-Pieces done = refl
  contents-Pieces (more {seq = seq} {rest = rest} {ps = ps} pad piece drawn full fits cut) =
      let f = with_max last (cut_fragment p seq pad piece) in
      let fs = map (with_max last) ps in
      rw (find_head f fs) (
        ap (λ k. piece ++ k)
          (contents_ext (f ∷ fs) fs (suc seq) (length ps) (find_later f fs) ∙ contents-Pieces cut))

  -- A fragment that is found has its number, the last number, and the fields of the message.
  pub find-Pieces :
      {seq : ℕ} {bs : Bytes} {ps : List Payload}
      → Pieces draws p size fixed seq bs ps
      → (i : ℕ) (f : Payload) → find i (map (with_max last) ps) ≡ some f
      → (i < seq + length ps)
        × (pad : ℕ) × (piece : Bytes) × (f ≡ with_max last (cut_fragment p i pad piece))
  unfolding find cut_fragment
  find-Pieces done i f e = cc
  find-Pieces (more {seq = seq} {ps = ps} pad piece drawn full fits cut) i f e =
      elim (Bool-cases (seq == i)) [
        | inl here ↦
            let same : seq ≡ i = ground arith in
            let head : some (with_max last (cut_fragment p seq pad piece)) ≡ some f =
              rw here at e in
            (omega arith, pad, piece, rw (← same) (cc))
        | inr later ↦
            let (below, pad', piece', made) = find-Pieces cut i f (rw later at e) in
            (omega arith, pad', piece', made)
      ]

  -- No number stands before the first.
  find-before :
      {seq : ℕ} {bs : Bytes} {ps : List Payload}
      → Pieces draws p size fixed seq bs ps
      → (i : ℕ) → i < seq
      → find i (map (with_max last) ps) ≡ none
  unfolding find cut_fragment
  find-before done i h = refl
  find-before (more {seq = seq} pad piece drawn full fits cut) i h =
      ground (arith, find-before cut i)

  pub Pieces-Distinct :
      {seq : ℕ} {bs : Bytes} {ps : List Payload}
      → Pieces draws p size fixed seq bs ps
      → Distinct (map (with_max last) ps)
  unfolding cut_fragment
  Pieces-Distinct done = tt
  Pieces-Distinct (more {seq = seq} pad piece drawn full fits cut) =
      (find-before cut seq (omega arith), Pieces-Distinct cut)

  -- Each takes a byte at least.
  pub length-Pieces :
      {seq : ℕ} {bs : Bytes} {ps : List Payload}
      → Pieces draws p size fixed seq bs ps
      → length ps ≤ length bs
  length-Pieces done = omega arith
  length-Pieces (more {rest = rest} pad piece drawn full fits cut) =
      omega (arith, length-append piece rest, length-Pieces cut)
