-- ===== src/Filtering/Validity.antt =====
-- internal/filtering/validation.go: the filters that are valid, kind by kind.
use sdsyslog.Common.{ℕ, ◌≡◌, refl, ◌↔◌, [], ◌∷◌, arith, ok}
use sdsyslog.Common.Words.{Bytes}
use sdsyslog.Filtering.{
  Filter, Filters, node, no_filters, filter_then, nil_filter, ref, validate, validate_each,
  validate_ref, count_set,
}

-- A valid filter is of one of seven kinds, and its operands are valid.
mutual
  pub data IsValid : Filter → Type 0 where
    all_of :
        {f : Filter} {fs : Filters}
        → EachValid (filter_then f fs)
        → IsValid (node (filter_then f fs) no_filters nil_filter [] [] [] [])
    any_of :
        {f : Filter} {fs : Filters}
        → EachValid (filter_then f fs)
        → IsValid (node no_filters (filter_then f fs) nil_filter [] [] [] [])
    negation : {f : Filter} → IsValid f → IsValid (node no_filters no_filters (ref f) [] [] [] [])
    starts :
        (b : ℕ) (bs : Bytes) → IsValid (node no_filters no_filters nil_filter (b ∷ bs) [] [] [])
    ends : (b : ℕ) (bs : Bytes) → IsValid (node no_filters no_filters nil_filter [] (b ∷ bs) [] [])
    includes :
        (b : ℕ) (bs : Bytes) → IsValid (node no_filters no_filters nil_filter [] [] (b ∷ bs) [])
    equals :
        (b : ℕ) (bs : Bytes) → IsValid (node no_filters no_filters nil_filter [] [] [] (b ∷ bs))

  pub data EachValid : Filters → Type 0 where
    none_left : EachValid no_filters
    and_rest : {f : Filter} {fs : Filters} → IsValid f → EachValid fs → EachValid (filter_then f fs)

mutual
  unfolding validate validate_each validate_ref count_set

  IsValid-validate : {f : Filter} → IsValid f → validate f ≡ ok tt
  IsValid-validate (all_of h) = rw (EachValid-validate_each h)
  IsValid-validate (any_of h) = rw (EachValid-validate_each h)
  IsValid-validate (negation h) = IsValid-validate h
  IsValid-validate (starts b bs) = refl
  IsValid-validate (ends b bs) = refl
  IsValid-validate (includes b bs) = refl
  IsValid-validate (equals b bs) = refl

  EachValid-validate_each : {fs : Filters} → EachValid fs → validate_each fs ≡ ok tt
  EachValid-validate_each none_left = refl
  EachValid-validate_each (and_rest h hs) = rw (IsValid-validate h, EachValid-validate_each hs)

mutual
  unfolding validate validate_each validate_ref count_set

  validate-IsValid : (f : Filter) → validate f ≡ ok tt → IsValid f
  validate-IsValid (node (filter_then f fs) no_filters nil_filter [] [] [] []) h =
      all_of (validate_each-EachValid (filter_then f fs) (ground arith))
  validate-IsValid (node no_filters (filter_then f fs) nil_filter [] [] [] []) h =
      any_of (validate_each-EachValid (filter_then f fs) (ground arith))
  validate-IsValid (node no_filters no_filters (ref f) [] [] [] []) h =
      negation (validate-IsValid f (ground arith))
  validate-IsValid (node no_filters no_filters nil_filter (b ∷ bs) [] [] []) h = starts b bs
  validate-IsValid (node no_filters no_filters nil_filter [] (b ∷ bs) [] []) h = ends b bs
  validate-IsValid (node no_filters no_filters nil_filter [] [] (b ∷ bs) []) h = includes b bs
  validate-IsValid (node no_filters no_filters nil_filter [] [] [] (b ∷ bs)) h = equals b bs
  validate-IsValid (node _ _ _ _ _ _ _) h = absurd (ground arith)

  validate_each-EachValid : (fs : Filters) → validate_each fs ≡ ok tt → EachValid fs
  validate_each-EachValid no_filters h = none_left
  validate_each-EachValid (filter_then f fs) h =
      and_rest (validate-IsValid f (ground arith)) (validate_each-EachValid fs (ground arith))

-- Validate reports no error exactly for the filters that set one operator or test at each node.
pub validate_iff : (f : Filter) → (validate f ≡ ok tt) ↔ IsValid f
validate_iff f = (validate-IsValid f, IsValid-validate)
