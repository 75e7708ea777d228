-- ===== src/Filtering/Messages.antt =====
-- pkg/protocol/filtering.go: a filter of a message's data, and of the keys and values of its fields.
pub mod Matching
pub mod Validating
use sdsyslog.Common.{
  zero, suc, ◌+◌, length-append, sym, ◌∙◌, length, ◌≤◌, ℕ, ◌≡◌, refl, ◌↔◌, ◌⊎◌, inl, inr, Bool,
  true, false, Bool-cases, ◌&&◌, ◌||◌, List, [], ◌∷◌, ◌++◌, arith, if◌then◌else◌, All, Result, ok,
  err, ◌>>=◌, ◌>>◌,
}
use sdsyslog.Common.Words.{Bytes}
use sdsyslog.Protocol.Values.{Value}
use sdsyslog.Filtering.{Filter, FilterRef, nil_filter, ref, FilterError, match, validate}
use sdsyslog.Filtering.Validity.{IsValid, validate_iff}

pub record MessageFilter : Type 0 where
  pub on_data : FilterRef
  pub fields_key : FilterRef
  pub fields_value : FilterRef
  pub use_and : Bool

-- The parts of a message that a filter looks at.
pub record FilteredMessage : Type 0 where
  pub fields : List (Bytes × Value)
  pub body : Bytes

-- The loops over the fields: they stop at the first that matches.
unfoldable pub any_key : Filter → List (Bytes × Value) → Bool
any_key f [] = false
any_key f ((key, value) ∷ fields) =
    let rest = any_key f fields in if match f key then true else rest

-- `sprint` is fmt.Sprint.
unfoldable pub any_value : (Value → Bytes) → Filter → List (Bytes × Value) → Bool
any_value sprint f [] = false
any_value sprint f ((key, value) ∷ fields) =
    let rest = any_value sprint f fields in if match f (sprint value) then true else rest

-- What `matches` gets for a filter that is set.
abbrev pub appended : FilterRef → (Filter → Bool) → List Bool
appended nil_filter test = []
appended (ref f) test = test f ∷ []

abbrev pub all_true : List Bool → Bool
all_true [] = true
all_true (m ∷ ms) = if m then all_true ms else false

abbrev pub any_true : List Bool → Bool
any_true [] = false
any_true (m ∷ ms) = if m then true else any_true ms

abbrev pub combine : Bool → List Bool → Bool
combine use_and [] = false
combine use_and (m ∷ ms) = if use_and then all_true (m ∷ ms) else any_true (m ∷ ms)

unfoldable pub matches_message : (Value → Bytes) → MessageFilter → FilteredMessage → Bool
unfolding any_key any_value
matches_message sprint mf msg = combine mf.use_and (
    appended mf.on_data (λ f. match f msg.body)
    ++ (appended mf.fields_key (λ f. any_key f msg.fields)
        ++ appended mf.fields_value (λ f. any_value sprint f msg.fields)))

abbrev pub validate_set : FilterRef → Result FilterError (Unit {0})
validate_set nil_filter = ok tt
validate_set (ref f) = validate f

unfoldable pub validate_message_filter : MessageFilter → Result FilterError (Unit {0})
validate_message_filter mf =
    validate_set mf.on_data >> validate_set mf.fields_key >> validate_set mf.fields_value

-- The places where a message is looked at.
pub data Place : Type 0 where
  data_place key_place value_place : Place

abbrev pub filter_at : MessageFilter → Place → FilterRef
filter_at mf data_place = mf.on_data
filter_at mf key_place = mf.fields_key
filter_at mf value_place = mf.fields_value

abbrev pub Any : (Bytes × Value → Type 0) → List (Bytes × Value) → Type 0
Any P [] = ⊥
Any P (x ∷ xs) = P x ⊎ Any P xs

-- A filter matches at a place: the data, some key, or some value as it is printed.
abbrev pub MatchesAt : (Value → Bytes) → FilteredMessage → Place → Filter → Type 0
MatchesAt sprint msg data_place f = match f msg.body ≡ true
MatchesAt sprint msg key_place f = Any (λ field. match f field.0 ≡ true) msg.fields
MatchesAt sprint msg value_place f = Any (λ field. match f (sprint field.1) ≡ true) msg.fields

-- With `use_and` some filter is set and all that are set match; without it one that is set matches.
abbrev pub Wanted : Bool → (Value → Bytes) → MessageFilter → FilteredMessage → Type 0
Wanted true sprint mf msg =
    ((place : Place) × (f : Filter) × (filter_at mf place ≡ ref f))
    × ((place : Place) (f : Filter) → filter_at mf place ≡ ref f → MatchesAt sprint msg place f)
Wanted false sprint mf msg =
    (place : Place) × (f : Filter) × (filter_at mf place ≡ ref f) × MatchesAt sprint msg place f
