-- ===== src/Filtering/Tests.antt =====
-- internal/filtering and pkg/protocol/filtering.go: filters run on small inputs.
use sdsyslog.Filtering.Texts.{contains, has_prefix, has_suffix}
use sdsyslog.Common.{◌≡◌, refl, ◌↔◌, true, false, [], ◌∷◌, err}
use sdsyslog.Common.Words.{bytes_equal, Bytes}
use sdsyslog.Protocol.Values.{Value, text}
use sdsyslog.Filtering.{
  Filter, node, no_filters, filter_then, nil_filter, ref, match, validate, several_operators,
}
use sdsyslog.Filtering.Validity.{IsValid, negation, starts, all_of, and_rest, none_left, includes}
use sdsyslog.Filtering.Meaning.{Holds, match_iff}
use sdsyslog.Filtering.Messages.{MessageFilter, FilteredMessage, matches_message}

-- Starts with 1 and does not contain 3.
abbrev sample : Filter
sample =
    node
      (filter_then (node no_filters no_filters nil_filter (1 ∷ []) [] [] []) (
        filter_then
          (node no_filters no_filters
            (ref (node no_filters no_filters nil_filter [] [] (3 ∷ []) [])) [] [] [] [])
          no_filters))
      no_filters nil_filter [] [] [] []

sample-IsValid : IsValid sample
sample-IsValid = all_of (and_rest (starts 1 []) (and_rest (negation (includes 3 [])) none_left))

sample_matches : match sample (1 ∷ 2 ∷ 4 ∷ []) ≡ true
unfolding match has_prefix contains
sample_matches = refl

sample_fails : match sample (1 ∷ 2 ∷ 3 ∷ []) ≡ false
unfolding match has_prefix contains
sample_fails = refl

two_tests :
    validate (node no_filters no_filters nil_filter (1 ∷ []) (2 ∷ []) [] []) ≡ err several_operators
unfolding validate
two_tests = refl

match_iff_example : (match sample (1 ∷ 2 ∷ 4 ∷ []) ≡ true) ↔ Holds sample-IsValid (1 ∷ 2 ∷ 4 ∷ [])
match_iff_example = match_iff sample-IsValid (1 ∷ 2 ∷ 4 ∷ [])

abbrev message : FilteredMessage
message = record { fields = (1 ∷ 5 ∷ [], text (7 ∷ [])) ∷ []; body = 8 ∷ 9 ∷ [] }

abbrev on_message : MessageFilter
on_message = record {
  on_data = ref (node no_filters no_filters nil_filter [] (9 ∷ []) [] []);
  fields_key = ref sample;
  fields_value = nil_filter;
  use_and = true;
}

-- fmt.Sprint of a string is the string.
abbrev toy_sprint : Value → Bytes
toy_sprint (text s) = s
toy_sprint _ = []

message_dropped : matches_message toy_sprint on_message message ≡ true
unfolding matches_message match has_suffix bytes_equal has_prefix contains
message_dropped = refl
