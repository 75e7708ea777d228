-- ===== src/Protocol/Payloads/Fields.antt =====
-- pkg/protocol/payload.go: the custom fields of a message on their way into the context section and
-- out of it.
use sdsyslog.Common.{
  ℕ, ◌+◌, ◌≤◌, ◌≡◌, refl, sym, ap, ◌∙◌, inl, inr, ◌⊎◌, none, List, [], ◌∷◌, ◌++◌, map, arith,
  length, leb-true, Result, ok, err, All, Bool-cases,
}
use mathlib.Core.Path.{subst}
use mathlib.Core.List.{append_assoc, append-nil}
use sdsyslog.Common.Words.{Bytes, bytes_equal_iff}
use sdsyslog.Protocol.{Error, ContextWireFormat}
use sdsyslog.Protocol.Values.{Value, serialize_any_value}
use sdsyslog.Protocol.Values.RoundTrip.{carried}
use sdsyslog.Protocol.Fragments.{field_of}
use sdsyslog.Protocol.Inner.{context_buffer}
use sdsyslog.Protocol.Inner.Shape.{FieldFits, length-write_context_field}
use sdsyslog.Protocol.Payloads.{
  clean_fields, sort_fields, insert_field, bytes_le, total_ctx_len, construct_context, check_fields,
  put_field,
}
use sdsyslog.Protocol.Payloads.OneField.{
  IsPassing, wire_field, clean_field_passing, check_field_passing,
}

-- No two fields have the same key.
abbrev pub DistinctKeys : List (Bytes × Value) → Type 0
DistinctKeys [] = Unit {0}
DistinctKeys (f ∷ fs) = (field_of f.0 fs ≡ none) × DistinctKeys fs

abbrev pub AllPassing : List (Bytes × Value) → Type 0
AllPassing [] = Unit {0}
AllPassing (f ∷ fs) = IsPassing f × AllPassing fs

abbrev pub wire_fields : (fs : List (Bytes × Value)) → AllPassing fs → List ContextWireFormat
wire_fields [] h = []
wire_fields (f ∷ fs) h = wire_field f h.0 ∷ wire_fields fs h.1

abbrev pub carried_field : Bytes × Value → Bytes × Value
carried_field f = (f.0, carried f.1)

clean_fields_passing :
    (fs : List (Bytes × Value)) (h : AllPassing fs) → clean_fields fs ≡ ok (wire_fields fs h)
unfolding clean_fields
clean_fields_passing [] h = refl
clean_fields_passing (f ∷ fs) h = rw (clean_field_passing f h.0, clean_fields_passing fs h.1)

field_of_append :
    (k : Bytes) (fs gs : List (Bytes × Value))
    → field_of k (fs ++ gs) ≡ none
    → (field_of k fs ≡ none) × (field_of k gs ≡ none)
unfolding field_of
field_of_append k [] gs h = (refl, h)
field_of_append k ((j, v) ∷ fs) gs h = ground (arith, field_of_append k fs gs)

put_field_new :
    (k : Bytes) (v : Value) (fs : List (Bytes × Value))
    → field_of k fs ≡ none
    → put_field (k, v) fs ≡ fs ++ (k, v) ∷ []
unfolding field_of put_field
put_field_new k v [] h = refl
put_field_new k v ((j, w) ∷ fs) h =
    ground (arith, bytes_equal_iff k j, bytes_equal_iff j k, put_field_new k v fs)

DistinctKeys-fresh :
    (f : Bytes × Value) (fs gs : List (Bytes × Value))
    → DistinctKeys (fs ++ f ∷ gs)
    → field_of f.0 fs ≡ none
unfolding field_of
DistinctKeys-fresh f [] gs d = refl
DistinctKeys-fresh f (g ∷ fs) gs d =
    let later = (field_of_append g.0 fs (f ∷ gs) d.0).1 in
    let ih = DistinctKeys-fresh f fs gs d.1 in
    ground (arith, bytes_equal_iff f.0 g.0, bytes_equal_iff g.0 f.0)

-- Keys that are new are added in their order.
check_fields_passing :
    (seen fs : List (Bytes × Value)) (h : AllPassing fs)
    → DistinctKeys (seen ++ map carried_field fs)
    → check_fields seen (wire_fields fs h) ≡ ok (seen ++ map carried_field fs)
unfolding check_fields
check_fields_passing seen [] h d = ap ok (sym (append-nil seen))
check_fields_passing seen (f ∷ fs) h d =
    let fresh = DistinctKeys-fresh (carried_field f) seen (map carried_field fs) d in
    let moved = append_assoc seen (carried_field f ∷ []) (map carried_field fs) in
    let rest =
      check_fields_passing (seen ++ carried_field f ∷ []) fs h.1
        (subst DistinctKeys (sym moved) d) in
    rw (check_field_passing f h.0, put_field_new f.0 (carried f.1) seen fresh) (rest ∙ ap ok moved)

-- The order of the keys changes nothing of what is found.
field_of-insert_field :
    (k : Bytes) (f : Bytes × Value) (fs : List (Bytes × Value))
    → field_of f.0 fs ≡ none
    → field_of k (insert_field f fs) ≡ field_of k (f ∷ fs)
unfolding field_of insert_field
field_of-insert_field k f [] h = refl
field_of-insert_field k f (g ∷ fs) h = ground (
  arith,
  bytes_equal_iff k f.0,
  bytes_equal_iff k g.0,
  bytes_equal_iff f.0 g.0,
  field_of-insert_field k f fs,
)

insert_field-DistinctKeys :
    (f : Bytes × Value) (fs : List (Bytes × Value))
    → field_of f.0 fs ≡ none
    → DistinctKeys fs
    → DistinctKeys (insert_field f fs)
unfolding field_of insert_field
insert_field-DistinctKeys f [] h d = (refl, tt)
insert_field-DistinctKeys f (g ∷ fs) h d = elim (Bool-cases (bytes_le f.0 g.0)) [
  | inl first ↦ rw first (h, d)
  | inr later ↦
      let fresh = (field_of_append f.0 (g ∷ []) fs h).1 in
      let moved = field_of-insert_field g.0 f fs fresh in
      rw later (
        ground (arith, moved, h, d.0, bytes_equal_iff f.0 g.0, bytes_equal_iff g.0 f.0),
        insert_field-DistinctKeys f fs fresh d.1,
      )
]

sort_fields-DistinctKeys :
    (fs : List (Bytes × Value))
    → DistinctKeys fs
    → DistinctKeys (sort_fields fs) × ((k : Bytes) → field_of k (sort_fields fs) ≡ field_of k fs)
unfolding field_of sort_fields
sort_fields-DistinctKeys [] d = (tt, λ k. refl)
sort_fields-DistinctKeys (f ∷ fs) d =
    let (ih, same) = sort_fields-DistinctKeys fs d.1 in
    let fresh = same f.0 ∙ d.0 in
    (
      insert_field-DistinctKeys f (sort_fields fs) fresh ih,
      λ k. field_of-insert_field k f (sort_fields fs) fresh ∙ rw (same k),
    )

insert_field-AllPassing :
    (f : Bytes × Value) (fs : List (Bytes × Value))
    → IsPassing f
    → AllPassing fs
    → AllPassing (insert_field f fs)
unfolding insert_field
insert_field-AllPassing f [] p ps = (p, tt)
insert_field-AllPassing f (g ∷ fs) p ps = elim (Bool-cases (bytes_le f.0 g.0)) [
  | inl first ↦ rw first (p, ps)
  | inr later ↦ rw later (ps.0, insert_field-AllPassing f fs p ps.1)
]

pub sort_fields-AllPassing :
    (fs : List (Bytes × Value)) → AllPassing fs → AllPassing (sort_fields fs)
unfolding sort_fields
sort_fields-AllPassing [] ps = tt
sort_fields-AllPassing (f ∷ fs) ps =
    insert_field-AllPassing f (sort_fields fs) ps.0 (sort_fields-AllPassing fs ps.1)

field_of-map :
    (k : Bytes) (fs : List (Bytes × Value))
    → field_of k fs ≡ none
    → field_of k (map carried_field fs) ≡ none
unfolding field_of
field_of-map k [] h = refl
field_of-map k (f ∷ fs) h = ground (arith, field_of-map k fs)

map-DistinctKeys :
    (fs : List (Bytes × Value)) → DistinctKeys fs → DistinctKeys (map carried_field fs)
map-DistinctKeys [] d = tt
map-DistinctKeys (f ∷ fs) d = (field_of-map f.0 fs d.0, map-DistinctKeys fs d.1)

abbrev serialized_len : Result Error (ℕ × Bytes) → ℕ
serialized_len (ok (t, d)) = length d
serialized_len (err e) = 0

-- The bytes that the fields take in the context section.
unfoldable pub section_len : List (Bytes × Value) → ℕ
section_len [] = 0
section_len ((key, value) ∷ fs) =
    5 + length key + serialized_len (serialize_any_value value) + section_len fs

total_ctx_len-wire_fields :
    (fs : List (Bytes × Value)) (h : AllPassing fs)
    → total_ctx_len (wire_fields fs h) ≡ section_len fs
unfolding section_len total_ctx_len
total_ctx_len-wire_fields [] h = refl
total_ctx_len-wire_fields ((key, value) ∷ fs) h =
    rw (h.0.serialized, total_ctx_len-wire_fields fs h.1)

section_len-insert_field :
    (f : Bytes × Value) (fs : List (Bytes × Value))
    → section_len (insert_field f fs) ≡ section_len (f ∷ fs)
unfolding section_len insert_field
section_len-insert_field f [] = refl
section_len-insert_field f (g ∷ fs) = ground (arith, section_len-insert_field f fs)

section_len-sort_fields :
    (fs : List (Bytes × Value)) → section_len (sort_fields fs) ≡ section_len fs
unfolding section_len sort_fields
section_len-sort_fields [] = refl
section_len-sort_fields (f ∷ fs) =
    section_len-insert_field f (sort_fields fs) ∙ rw (section_len-sort_fields fs)

wire_fields-FieldFits :
    (fs : List (Bytes × Value)) (h : AllPassing fs) → All FieldFits (wire_fields fs h)
wire_fields-FieldFits [] h = tt
wire_fields-FieldFits (f ∷ fs) h = (
  record { key_fits = omega (arith, h.0.key_short); value_fits = h.0.value_short },
  wire_fields-FieldFits fs h.1,
)

length-context_buffer :
    (cs : List ContextWireFormat) → length (context_buffer cs) ≡ total_ctx_len cs
unfolding context_buffer total_ctx_len
length-context_buffer [] = refl
length-context_buffer (c ∷ cs) =
    omega (arith, length-write_context_field c (context_buffer cs), length-context_buffer cs)

-- A context section that the codec of the inner payload takes.
pub record SectionFits (cs : List ContextWireFormat) : Type 0 where
  pub each_fits : All FieldFits cs
  pub all_fit : length (context_buffer cs) ≤ 65535

-- What the receiver reads of the custom fields: each value as it is carried, in the order of the keys.
pub fields_passed :
    (fs : List (Bytes × Value)) (h : AllPassing fs)
    → DistinctKeys fs
    → (fs ≡ []) ⊎ ((10 ≤ section_len fs) × (section_len fs ≤ 65535))
    → (cs : List ContextWireFormat) × (construct_context fs ≡ ok cs)
      × (check_fields [] cs ≡ ok (map carried_field (sort_fields fs)))
      × SectionFits cs
unfolding construct_context
fields_passed [] h d size = (
  [],
  refl,
  unfold check_fields sort_fields in refl,
  record { each_fits = tt; all_fit = unfold context_buffer in omega arith },
)
fields_passed (f ∷ fs) h d (inl e) = cc
fields_passed (f ∷ fs) h d (inr (low, high)) =
    let sorted = sort_fields-AllPassing (f ∷ fs) h in
    let cs = wire_fields (sort_fields (f ∷ fs)) sorted in
    let total = total_ctx_len-wire_fields (sort_fields (f ∷ fs)) sorted in
    let order = section_len-sort_fields (f ∷ fs) in
    (
      cs,
      rw (
        clean_fields_passing (sort_fields (f ∷ fs)) sorted,
        total,
        order,
        leb-true 10 (section_len (f ∷ fs)) low,
        leb-true (section_len (f ∷ fs)) 65535 high,
      ),
      check_fields_passing [] (sort_fields (f ∷ fs)) sorted
          (map-DistinctKeys (sort_fields (f ∷ fs)) (sort_fields-DistinctKeys (f ∷ fs) d).0),
      record {
        each_fits = wire_fields-FieldFits (sort_fields (f ∷ fs)) sorted;
        all_fit = omega (arith, length-context_buffer cs, total, order, high);
      },
    )
