-- ===== src/Filtering.antt =====
-- internal/filtering: matching.go, validation.go and types.go. A filter is a tree of Boolean
-- operators over tests of a byte slice.
pub mod Texts
pub mod Validity
pub mod Meaning
pub mod Messages
mod Tests
use sdsyslog.Common.{
  ℕ, ◌+◌, Bool, true, false, not, ◌&&◌, ◌||◌, List, [], ◌∷◌, ◌==◌, ltb, if◌then◌else◌, length,
  Result, ok, err, guard, ◌>>=◌, ◌>>◌,
}
use sdsyslog.Common.Words.{Bytes, bytes_equal}
use sdsyslog.Filtering.Texts.{has_prefix, has_suffix, contains}

-- A filter has the fields And, Or, Not, Prefix, Suffix, Contains and Exact. A slice, a pointer or a
-- string that is not set is empty.
mutual
  pub data Filter : Type 0 where
    node : Filters → Filters → FilterRef → Bytes → Bytes → Bytes → Bytes → Filter

  pub data Filters : Type 0 where
    no_filters : Filters
    filter_then : Filter → Filters → Filters

  pub data FilterRef : Type 0 where
    nil_filter : FilterRef
    ref : Filter → FilterRef

-- `len(...) > 0`, `!= nil` and `!= ""`.
abbrev pub any_filters : Filters → Bool
any_filters no_filters = false
any_filters (filter_then f fs) = true

abbrev pub any_ref : FilterRef → Bool
any_ref nil_filter = false
any_ref (ref f) = true

abbrev pub any_text : Bytes → Bool
any_text [] = false
any_text (b ∷ bs) = true

-- The tests of a leaf, in the order of the source.
unfoldable pub match_leaf : Bytes → Bytes → Bytes → Bytes → Bytes → Bool
match_leaf prefix suffix inside exact input =
    if any_text prefix
    then has_prefix input prefix
    else if any_text suffix
    then has_suffix input suffix
    else if any_text inside
    then contains input inside
    else if any_text exact
    then bytes_equal input exact
    else false

unfoldable mutual
  unfolding match_leaf

  pub match : Filter → Bytes → Bool
  match (node ands ors negated prefix suffix inside exact) input =
      if any_filters ands
      then match_all ands input
      else if any_filters ors
      then match_any ors input
      else match_not negated (match_leaf prefix suffix inside exact input) input

  pub match_all : Filters → Bytes → Bool
  match_all no_filters input = true
  match_all (filter_then f fs) input = match f input && match_all fs input

  pub match_any : Filters → Bytes → Bool
  match_any no_filters input = false
  match_any (filter_then f fs) input = match f input || match_any fs input

  pub match_not : FilterRef → Bool → Bytes → Bool
  match_not nil_filter leaf input = leaf
  match_not (ref f) leaf input = not (match f input)

pub data FilterError : Type 0 where
  empty_node several_operators : FilterError

abbrev pub one_if : Bool → ℕ
one_if b = if b then 1 else 0

unfoldable pub count_set : Filter → ℕ
count_set (node ands ors negated prefix suffix inside exact) =
    one_if (any_filters ands)
    + one_if (any_filters ors)
    + one_if (any_ref negated)
    + one_if (any_text prefix)
    + one_if (any_text suffix)
    + one_if (any_text inside)
    + one_if (any_text exact)

unfoldable mutual
  unfolding count_set

  pub validate : Filter → Result FilterError (Unit {0})
  validate (node ands ors negated prefix suffix inside exact) =
      let count = count_set (node ands ors negated prefix suffix inside exact) in
      guard (not (count == 0)) empty_node
      >> guard (not (ltb 1 count)) several_operators
      >> validate_each ands
      >> validate_each ors
      >> validate_ref negated

  pub validate_each : Filters → Result FilterError (Unit {0})
  validate_each no_filters = ok tt
  validate_each (filter_then f fs) = validate f >> validate_each fs

  pub validate_ref : FilterRef → Result FilterError (Unit {0})
  validate_ref nil_filter = ok tt
  validate_ref (ref f) = validate f
