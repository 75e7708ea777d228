-- ===== src/Filtering/Meaning.antt =====
-- internal/filtering/matching.go: what a valid filter says of its input.
use sdsyslog.Common.{◌≡◌, refl, ◌↔◌, ◌⊎◌, inl, inr, true, Bool-cases, ◌∷◌, arith}
use sdsyslog.Common.Words.{Bytes, bytes_equal_iff}
use sdsyslog.Filtering.{Filter, Filters, match, match_all, match_any, match_not, match_leaf}
use sdsyslog.Filtering.Texts.{
  StartsWith, EndsWith, Includes, has_prefix_iff, has_suffix_iff, contains_iff,
}
use sdsyslog.Filtering.Validity.{
  IsValid, EachValid, all_of, any_of, negation, starts, ends, includes, equals, none_left, and_rest,
}

-- The statement that a valid filter makes, read off its kind.
mutual
  pub Holds : {f : Filter} → IsValid f → Bytes → Type 0
  Holds (all_of h) input = HoldAll h input
  Holds (any_of h) input = HoldAny h input
  Holds (negation h) input = ¬ (Holds h input)
  Holds (starts b bs) input = StartsWith input (b ∷ bs)
  Holds (ends b bs) input = EndsWith input (b ∷ bs)
  Holds (includes b bs) input = Includes input (b ∷ bs)
  Holds (equals b bs) input = input ≡ b ∷ bs

  pub HoldAll : {fs : Filters} → EachValid fs → Bytes → Type 0
  HoldAll none_left input = Unit
  HoldAll (and_rest h hs) input = Holds h input × HoldAll hs input

  pub HoldAny : {fs : Filters} → EachValid fs → Bytes → Type 0
  HoldAny none_left input = ⊥
  HoldAny (and_rest h hs) input = Holds h input ⊎ HoldAny hs input

mutual
  unfolding match match_all match_any match_not match_leaf Holds HoldAll HoldAny

  match-Holds : {f : Filter} (v : IsValid f) (input : Bytes) → match f input ≡ true → Holds v input
  match-Holds (all_of h) input e = match_all-HoldAll h input e
  match-Holds (any_of h) input e = match_any-HoldAny h input e
  match-Holds (negation {f = f} h) input e =
      λ held. let matched = Holds-match h input held in absurd (ground arith)
  match-Holds (starts b bs) input e = (has_prefix_iff input (b ∷ bs)).0 e
  match-Holds (ends b bs) input e = (has_suffix_iff input (b ∷ bs)).0 e
  match-Holds (includes b bs) input e = (contains_iff input (b ∷ bs)).0 e
  match-Holds (equals b bs) input e = (bytes_equal_iff input (b ∷ bs)).0 e

  Holds-match : {f : Filter} (v : IsValid f) (input : Bytes) → Holds v input → match f input ≡ true
  Holds-match (all_of h) input e = HoldAll-match_all h input e
  Holds-match (any_of h) input e = HoldAny-match_any h input e
  Holds-match (negation {f = f} h) input e = elim (Bool-cases (match f input)) [
    | inl matched ↦ absurd (e (match-Holds h input matched))
    | inr failed ↦ rw failed
  ]
  Holds-match (starts b bs) input e = (has_prefix_iff input (b ∷ bs)).1 e
  Holds-match (ends b bs) input e = (has_suffix_iff input (b ∷ bs)).1 e
  Holds-match (includes b bs) input e = (contains_iff input (b ∷ bs)).1 e
  Holds-match (equals b bs) input e = (bytes_equal_iff input (b ∷ bs)).1 e

  match_all-HoldAll :
      {fs : Filters} (v : EachValid fs) (input : Bytes)
      → match_all fs input ≡ true
      → HoldAll v input
  match_all-HoldAll none_left input e = tt
  match_all-HoldAll (and_rest h hs) input e =
      (match-Holds h input (ground arith), match_all-HoldAll hs input (ground arith))

  HoldAll-match_all :
      {fs : Filters} (v : EachValid fs) (input : Bytes)
      → HoldAll v input
      → match_all fs input ≡ true
  HoldAll-match_all none_left input e = refl
  HoldAll-match_all (and_rest h hs) input e =
      rw (Holds-match h input e.0, HoldAll-match_all hs input e.1)

  match_any-HoldAny :
      {fs : Filters} (v : EachValid fs) (input : Bytes)
      → match_any fs input ≡ true
      → HoldAny v input
  match_any-HoldAny none_left input e = cc
  match_any-HoldAny (and_rest {f = f} h hs) input e = elim (Bool-cases (match f input)) [
    | inl first ↦ inl (match-Holds h input first)
    | inr later ↦ inr (match_any-HoldAny hs input (rw later at e))
  ]

  HoldAny-match_any :
      {fs : Filters} (v : EachValid fs) (input : Bytes)
      → HoldAny v input
      → match_any fs input ≡ true
  HoldAny-match_any none_left input e = absurd e
  HoldAny-match_any (and_rest h hs) input (inl e) = rw (Holds-match h input e)
  HoldAny-match_any (and_rest h hs) input (inr e) =
      let rest = HoldAny-match_any hs input e in ground arith

-- A valid filter matches exactly the inputs of which its statement holds: all or one of its
-- operands' statements, the negation of one, or a prefix, suffix, part or whole of the input.
pub match_iff :
    {f : Filter} (v : IsValid f) (input : Bytes) → (match f input ≡ true) ↔ Holds v input
match_iff v input = (match-Holds v input, Holds-match v input)
