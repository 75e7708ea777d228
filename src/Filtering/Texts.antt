-- ===== src/Filtering/Texts.antt =====
-- The tests of package bytes that a filter's leaves call, and what they find.
use sdsyslog.Common.{
  leb-true, eq-true, Bool-cases, inl, inr, ◌-◌, ◌≡◌, refl, sym, ap, ◌∙◌, ◌↔◌, Bool, true, false,
  ◌&&◌, ◌||◌, [], ◌∷◌, ◌++◌, arith, ◌==◌, leb, length, length-append, take, drop, take-append-drop,
  drop-append_eq,
}
use sdsyslog.Common.Words.{Bytes, bytes_equal, bytes_equal_iff}

-- bytes.HasPrefix.
unfoldable pub has_prefix : Bytes → Bytes → Bool
has_prefix xs [] = true
has_prefix [] (p ∷ ps) = false
has_prefix (x ∷ xs) (p ∷ ps) = (x == p) && has_prefix xs ps

-- bytes.HasSuffix.
unfoldable pub has_suffix : Bytes → Bytes → Bool
has_suffix xs s = leb (length s) (length xs) && bytes_equal (drop (length xs - length s) xs) s

-- bytes.Contains: at each place in turn.
unfoldable pub contains : Bytes → Bytes → Bool
unfolding has_prefix
contains [] s = has_prefix [] s
contains (x ∷ xs) s = has_prefix (x ∷ xs) s || contains xs s

abbrev pub StartsWith : Bytes → Bytes → Type 0
StartsWith xs p = (rest : Bytes) × (xs ≡ p ++ rest)

abbrev pub EndsWith : Bytes → Bytes → Type 0
EndsWith xs s = (front : Bytes) × (xs ≡ front ++ s)

abbrev pub Includes : Bytes → Bytes → Type 0
Includes xs s = (front rest : Bytes) × (xs ≡ front ++ (s ++ rest))

has_prefix-StartsWith : (xs p : Bytes) → has_prefix xs p ≡ true → StartsWith xs p
unfolding has_prefix
has_prefix-StartsWith xs [] h = (xs, refl)
has_prefix-StartsWith [] (p ∷ ps) h = cc
has_prefix-StartsWith (x ∷ xs) (p ∷ ps) h =
    let (rest, e) = has_prefix-StartsWith xs ps (ground arith) in
    let same : x ≡ p = ground arith in (rest, rw (same, e))

has_prefix-append : (p rest : Bytes) → has_prefix (p ++ rest) p ≡ true
unfolding has_prefix
has_prefix-append [] rest = refl
has_prefix-append (p ∷ ps) rest = rw (eq-true p, has_prefix-append ps rest)

pub has_prefix_iff : (xs p : Bytes) → (has_prefix xs p ≡ true) ↔ StartsWith xs p
has_prefix_iff xs p = (has_prefix-StartsWith xs p, λ (rest, e). rw e (has_prefix-append p rest))

has_suffix-EndsWith : (xs s : Bytes) → has_suffix xs s ≡ true → EndsWith xs s
unfolding has_suffix
has_suffix-EndsWith xs s h =
    let n = length xs - length s in
    let same : drop n xs ≡ s = (bytes_equal_iff (drop n xs) s).0 (ground arith) in
    (take n xs, sym (ap (λ k. take n xs ++ k) (sym same) ∙ take-append-drop n xs))

has_suffix-append : (front s : Bytes) → has_suffix (front ++ s) s ≡ true
unfolding has_suffix
has_suffix-append front s =
    let size = length-append front s in
    let shorter = leb-true (length s) (length (front ++ s)) (omega arith) in
    rw (
      shorter,
      drop-append_eq (length (front ++ s) - length s) front s (omega arith),
      (bytes_equal_iff s s).1 refl,
    )

pub has_suffix_iff : (xs s : Bytes) → (has_suffix xs s ≡ true) ↔ EndsWith xs s
has_suffix_iff xs s = (has_suffix-EndsWith xs s, λ (front, e). rw e (has_suffix-append front s))

contains-Includes : (xs s : Bytes) → contains xs s ≡ true → Includes xs s
unfolding contains
contains-Includes [] s h = let (rest, e) = has_prefix-StartsWith [] s h in ([], rest, e)
contains-Includes (x ∷ xs) s h = elim (Bool-cases (has_prefix (x ∷ xs) s)) [
  | inl here ↦ let (rest, e) = has_prefix-StartsWith (x ∷ xs) s here in ([], rest, e)
  | inr later ↦
      let (front, rest, e) = contains-Includes xs s (ground arith) in (x ∷ front, rest, rw e)
]

contains-append : (front s rest : Bytes) → contains (front ++ (s ++ rest)) s ≡ true
unfolding contains
contains-append (x ∷ front) s rest = ground (arith, contains-append front s rest)
contains-append [] s rest = contains_here (s ++ rest) s (has_prefix-append s rest)
  where
    contains_here : (xs s : Bytes) → has_prefix xs s ≡ true → contains xs s ≡ true
    contains_here [] s h = h
    contains_here (x ∷ xs) s h = rw h

pub contains_iff : (xs s : Bytes) → (contains xs s ≡ true) ↔ Includes xs s
contains_iff xs s =
    (contains-Includes xs s, λ (front, rest, e). rw e (contains-append front s rest))
