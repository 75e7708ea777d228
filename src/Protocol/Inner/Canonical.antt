-- ===== src/Protocol/Inner/Canonical.antt =====
-- pkg/protocol/inner.go: DeconstructInnerPayload accepts only what ConstructInnerPayload writes.
use sdsyslog.Common.{
  ◌≡◌, refl, ◌∙◌, leb, length, All, ok, Yields, good, Yields-eq_ok, Yields-bind, Yields-guard,
}
use sdsyslog.Common.Words.{Bytes, IsByte}
use sdsyslog.Protocol.{min_inner_payload_len, InnerWireFormat}
use sdsyslog.Protocol.Inner.{deconstruct_inner_payload}
use sdsyslog.Protocol.Inner.Shape.{IsWire, wire_bytes}
use sdsyslog.Protocol.Inner.Reads.{
  read_hostname-Yields, read_signature-Yields, read_data-Yields, read_header-Yields,
}
use sdsyslog.Protocol.Inner.ContextReads.{read_context-Yields}

abbrev Canonical : Bytes → InnerWireFormat → Type 0
Canonical payload f =
    (padding : Bytes) × (payload ≡ wire_bytes f padding)
    × (length padding ≡ f.padding_len)
    × IsWire f

deconstruct-Yields :
    (payload : Bytes)
    → All IsByte payload
    → Yields (Canonical payload) (deconstruct_inner_payload payload)
unfolding deconstruct_inner_payload wire_bytes
deconstruct-Yields b0 h =
    Yields-bind (Yields-guard (leb min_inner_payload_len (length b0)) _) λ _ _.
      Yields-bind (read_header-Yields b0 h) λ (header, b1) (e1, h1).
        Yields-bind (read_hostname-Yields b1 h1) λ (name, b2) (e2, name_some, name_fits, h2).
          Yields-bind (read_signature-Yields b2 h2) λ (id, sig, b3) (e3, sig_fits, h3).
            Yields-bind (read_context-Yields b3 h3) λ (cs, b4) (e4, cs_fit, section_fits, h4).
              Yields-bind (read_data-Yields b4 h4) λ (body, b5) (e5, body_some, body_fits).
                let (written, fits) = e1 _ refl in
                good (
                  b5,
                  written ∙ rw (e2, e3, e4, e5),
                  refl,
                  record {
                    header = fits;
                    hostname_some = name_some;
                    hostname_fits = name_fits;
                    signature_fits = sig_fits;
                    fields_fit = cs_fit;
                    context_fits = section_fits;
                    body_some = body_some;
                    body_fits = body_fits;
                  },
                )

-- Whatever bytes are accepted are what the serialiser writes for the record that is returned, with
-- some padding of the length returned; the record fits its length fields.
pub construct-deconstruct :
    (payload : Bytes) {f : InnerWireFormat}
    → All IsByte payload
    → deconstruct_inner_payload payload ≡ ok f
    → (padding : Bytes) × (payload ≡ wire_bytes f padding)
      × (length padding ≡ f.padding_len)
      × IsWire f
construct-deconstruct payload h e = Yields-eq_ok (deconstruct-Yields payload h) e
