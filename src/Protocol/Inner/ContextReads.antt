-- ===== src/Protocol/Inner/ContextReads.antt =====
-- What the reader of the context section of pkg/protocol/inner.go takes off.
use mathlib.Core.Path.{subst}
use sdsyslog.Common.{
  lt→ltb, not, ℕ, zero, suc, ◌%◌, ◌≤◌, ◌<◌, ◌≡◌, refl, sym, ap, ◌∙◌, List, [], ◌∷◌, ◌++◌, ◌==◌,
  arith, if◌then◌else◌, length, length-append, All, All-append_inv, ok, Yields, good, bad,
  Yields-eq_ok, Yields-bind, Yields-guard, Yields-intro, Yields-if,
}
use sdsyslog.Common.Words.{Bytes, IsByte, be_bytes}
use sdsyslog.Protocol.{ContextWireFormat}
use sdsyslog.Protocol.Wire.{read_uint-Yields, read_byte, read_full-Yields}
use sdsyslog.Protocol.Inner.{
  write_context_field, context_buffer, write_context, read_context_field, read_context_fields,
  read_context_section, read_context,
}
use sdsyslog.Protocol.Inner.Shape.{FieldFits}
use sdsyslog.Protocol.Inner.Reads.{read_terminator-Yields}

abbrev pub FieldRead : ℕ → Bytes → ContextWireFormat × Bytes → Type 0
FieldRead n b0 (c, rest) =
    (n ∷ b0 ≡ write_context_field c rest)
    × FieldFits c
    × All IsByte rest
    × (length rest < length b0)

pub read_byte-Yields :
    (b0 : Bytes)
    → All IsByte b0
    → Yields (λ r. (b0 ≡ r.0 ∷ r.1) × (r.0 < 256) × All IsByte r.1) (read_byte b0)
unfolding read_byte
read_byte-Yields [] h = bad
read_byte-Yields (b ∷ bs) h = good (refl, h.0, h.1)

pub read_context_field-Yields :
    (n : ℕ) (b0 : Bytes)
    → n < 256
    → All IsByte b0
    → Yields (FieldRead n b0) (read_context_field n b0)
unfolding read_context_field write_context_field
read_context_field-Yields n b0 lt h =
    Yields-bind (read_full-Yields n b0 h) λ (key, b1) (e1, key_size, h1).
      Yields-bind (read_terminator-Yields b1 h1) λ b2 (e2, h2).
        Yields-bind (read_byte-Yields b2 h2) λ (val_type, b3) (e3, _, h3).
          Yields-bind (read_byte-Yields b3 h3) λ (m, b4) (e4, fits, h4).
            Yields-bind (read_full-Yields m b4 h4) λ (value, b5) (e5, value_size, h5).
              Yields-bind (read_terminator-Yields b5 h5) λ b6 (e6, h6).
                let key_whole : length key % 256 ≡ n = omega arith in
                let value_whole : length value % 256 ≡ m = omega arith in
                good (
                  rw (e1, e2, e3, e4, e5, e6, key_whole, value_whole),
                  record { key_fits = omega arith; value_fits = omega arith },
                  h6,
                  omega (
                    arith,
                    ap length e1,
                    ap length e2,
                    ap length e3,
                    ap length e4,
                    ap length e5,
                    ap length e6,
                    length-append key b1,
                    length-append value b5,
                  ),
                )

abbrev pub FieldsRead : Bytes → List ContextWireFormat → Type 0
FieldsRead b0 cs = (b0 ≡ context_buffer cs) × All FieldFits cs

pub read_context_fields-Yields :
    (fuel : ℕ) (b0 : Bytes) → All IsByte b0 → Yields (FieldsRead b0) (read_context_fields fuel b0)
unfolding read_context_fields context_buffer
read_context_fields-Yields zero [] h = good (refl, tt)
read_context_fields-Yields zero (n ∷ b0) h = bad
read_context_fields-Yields (suc fuel) [] h = good (refl, tt)
read_context_fields-Yields (suc fuel) (n ∷ b0) h =
    Yields-bind (read_context_field-Yields n b0 h.0 h.1) λ (c, rest) (e, fits, h1, _).
      Yields-bind (read_context_fields-Yields fuel rest h1)
        λ cs (e1, all_fit). good (e ∙ ap (write_context_field c) e1, (fits, all_fit))

abbrev pub ContextRead : Bytes → List ContextWireFormat × Bytes → Type 0
ContextRead b0 (cs, rest) =
    (b0 ≡ write_context (context_buffer cs) rest)
    × All FieldFits cs
    × (length (context_buffer cs) ≤ 65535)
    × All IsByte rest

abbrev pub SectionRead : ℕ → Bytes → List ContextWireFormat × Bytes → Type 0
SectionRead n b0 (cs, rest) =
    (b0 ≡ context_buffer cs ++ rest)
    × All FieldFits cs
    × (length (context_buffer cs) ≡ n)
    × All IsByte rest

pub read_context_section-Yields :
    (n : ℕ) (b0 : Bytes) → All IsByte b0 → Yields (SectionRead n b0) (read_context_section n b0)
unfolding read_context_section
read_context_section-Yields n b0 h =
    Yields-bind (read_full-Yields n b0 h) λ (section, b1) (e, size, h1).
      Yields-bind
        (read_context_fields-Yields (length section) section
          (All-append_inv IsByte section b1 (subst (All IsByte) e h)).0)
        λ cs (e1, fits). good (e ∙ ap (λ s. s ++ b1) e1, fits, sym (ap length e1) ∙ size, h1)

-- What follows the length `n`: it is written as the section of the fields, once the terminator
-- is read.
abbrev pub SectionOf : ℕ → Bytes → List ContextWireFormat × Bytes → Type 0
SectionOf n b0 (cs, rest) =
    ((b : Bytes) → rest ≡ 0 ∷ b → be_bytes 2 n ++ b0 ≡ write_context (context_buffer cs) b)
    × All FieldFits cs
    × (length (context_buffer cs) ≤ 65535)
    × All IsByte rest

pub written_empty : (b : Bytes) → be_bytes 2 1 ++ (0 ∷ b) ≡ write_context (context_buffer []) b
unfolding write_context context_buffer
written_empty b = refl

pub written_section :
    (n : ℕ) (buffer b : Bytes)
    → length buffer ≡ n
    → 0 < n
    → n < 65536
    → be_bytes 2 n ++ (buffer ++ (0 ∷ b)) ≡ write_context buffer b
unfolding write_context
written_section n buffer b e lo hi =
    let whole : n % 65536 ≡ n = omega arith in rw e (rw (lt→ltb 0 n lo, whole))

pub section_of :
    (n : ℕ) (b0 : Bytes) (r : List ContextWireFormat × Bytes)
    → 0 < n
    → n < 65536
    → SectionRead n b0 r
    → SectionOf n b0 r
section_of n b0 (cs, rest) lo hi (e, fits, size, left) = (
  λ b e1. rw (e, e1) (written_section n (context_buffer cs) b size lo hi),
  fits,
  omega arith,
  left,
)

pub section-Yields :
    (n : ℕ) (b0 : Bytes)
    → 0 < n
    → n < 65536
    → All IsByte b0
    → Yields (SectionOf n b0) (if n == 1 then ok ([], b0) else read_context_section n b0)
unfolding context_buffer
section-Yields n b0 lo hi h =
    Yields-if (n == 1)
      (λ e.
        let marker : n ≡ 1 = ground arith in
        good (λ b e1. rw (e1, marker) (written_empty b), tt, omega arith, h))
      (λ _.
        Yields-intro _
          λ r e. section_of n b0 r lo hi (Yields-eq_ok (read_context_section-Yields n b0 h) e))

pub read_context-Yields : (b0 : Bytes) → All IsByte b0 → Yields (ContextRead b0) (read_context b0)
unfolding read_context
read_context-Yields b0 h = Yields-bind (read_uint-Yields 2 b0 h) λ (n, b1) (e1, fits, h1).
    Yields-bind (Yields-guard (not (n == 0)) _) λ _ positive.
      Yields-bind (section-Yields n b1 (ground arith) (omega arith) h1)
        λ (cs, b2) (write, all_fit, size, h2).
          Yields-bind (read_terminator-Yields b2 h2)
            λ b3 (e3, h3). good (e1 ∙ write b3 e3, all_fit, size, h3)
