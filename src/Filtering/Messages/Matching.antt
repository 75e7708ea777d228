-- ===== src/Filtering/Messages/Matching.antt =====
-- pkg/protocol/filtering.go: which messages a filter lets pass.
use sdsyslog.Common.{Bool, List, ◌++◌}
use sdsyslog.Common.Words.{Bytes}
use sdsyslog.Protocol.Values.{Value}
use sdsyslog.Filtering.{Filter, match}
use sdsyslog.Filtering.Messages.{
  MessageFilter, FilteredMessage, any_key, any_value, appended, Place, data_place, key_place,
  value_place, filter_at,
}

-- What the source appends for the filter at a place.
abbrev test_at : (Value → Bytes) → FilteredMessage → Place → Filter → Bool
test_at sprint msg data_place f = match f msg.body
test_at sprint msg key_place f = any_key f msg.fields
test_at sprint msg value_place f = any_value sprint f msg.fields

module _ (sprint : Value → Bytes) (mf : MessageFilter) (msg : FilteredMessage) where
  abbrev tests : Place → List Bool
  tests place = appended (filter_at mf place) (test_at sprint msg place)

  abbrev all_tests : List Bool
  all_tests = tests data_place ++ (tests key_place ++ tests value_place)
