-- ===== src/Filtering/Messages/Validating.antt =====
-- pkg/protocol/filtering.go: which filters of messages are valid.
use mathlib.Core.Path.{subst}
use sdsyslog.Common.{◌≡◌, refl, ◌↔◌, Result, ok, err, ◌>>◌}
use sdsyslog.Filtering.{Filter, FilterRef, nil_filter, ref}
use sdsyslog.Filtering.Validity.{IsValid, validate_iff}
use sdsyslog.Filtering.Messages.{
  MessageFilter, validate_set, validate_message_filter, Place, data_place, key_place, value_place,
  filter_at,
}

validate_set_iff :
    (r : FilterRef) → (validate_set r ≡ ok tt) ↔ ((f : Filter) → r ≡ ref f → IsValid f)
validate_set_iff nil_filter = (λ e f h. cc, λ h. refl)
validate_set_iff (ref f) = (
  λ e g h. subst IsValid (ref_injective h) ((validate_iff f).0 e),
  λ h. (validate_iff f).1 (h f refl),
)
  where
    ref_injective : {f g : Filter} → ref f ≡ ref g → f ≡ g
    ref_injective h = cc

three_ok :
    {E : Type 0} (a b c : Result E (Unit {0}))
    → ((a >> b >> c) ≡ ok tt) ↔ ((a ≡ ok tt) × (b ≡ ok tt) × (c ≡ ok tt))
three_ok (ok _) (ok _) c = (λ e. (refl, refl, e), λ (p, q, r). r)
three_ok (ok _) (err e) c = (λ h. cc, λ (p, q, r). cc)
three_ok (err e) b c = (λ h. cc, λ (p, q, r). cc)

-- A message filter is valid exactly when each filter that is set in it is.
pub validate_message_filter_iff :
    (mf : MessageFilter)
    → (validate_message_filter mf ≡ ok tt)
      ↔ ((place : Place) (f : Filter) → filter_at mf place ≡ ref f → IsValid f)
unfolding validate_message_filter
validate_message_filter_iff mf =
    let parts =
      three_ok (validate_set mf.on_data) (validate_set mf.fields_key)
        (validate_set mf.fields_value) in
    (
      λ e place f set. (validate_set_iff (filter_at mf place)).0 (at_place (parts.0 e) place) f set,
      λ h. parts.1 (
        (validate_set_iff mf.on_data).1 (h data_place),
        (validate_set_iff mf.fields_key).1 (h key_place),
        (validate_set_iff mf.fields_value).1 (h value_place),
      ),
    )
  where
    at_place :
        (validate_set mf.on_data ≡ ok tt)
          × (validate_set mf.fields_key ≡ ok tt)
          × (validate_set mf.fields_value ≡ ok tt)
        → (place : Place) → validate_set (filter_at mf place) ≡ ok tt
    at_place (a, b, c) data_place = a
    at_place (a, b, c) key_place = b
    at_place (a, b, c) value_place = c
