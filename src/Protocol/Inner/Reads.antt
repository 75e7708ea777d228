-- ===== src/Protocol/Inner/Reads.antt =====
-- What the readers of pkg/protocol/inner.go take off: the header, the hostname, the signature and
-- the data.
use sdsyslog.Common.{
  lt→ltb, not, ℕ, ◌%◌, ◌≤◌, ◌<◌, ◌≡◌, refl, ap, ◌∙◌, ◌⊎◌, ◌&&◌, [], ◌∷◌, ◌++◌, leb, ltb, ◌==◌,
  arith, if◌then◌else◌, length, All, ok, Yields, good, bad, Yields-eq_ok, Yields-bind, Yields-guard,
  Yields-intro, Yields-if,
}
use sdsyslog.Common.Words.{Bytes, IsByte, be_bytes_one}
use sdsyslog.Protocol.{InnerWireFormat, protocol_violation}
use sdsyslog.Protocol.Wire.{
  read_uint-Yields, read_uint, read_terminator, read_uint-Took, read_full-Yields,
}
use sdsyslog.Protocol.Inner.{
  Header, SigInfo, get_signature_info, write_header, write_hostname, write_signature, write_data,
  read_header, read_hostname, read_signature_field, signature_suite, read_signature, read_data,
}
use sdsyslog.Protocol.Inner.Shape.{HeaderFits, SignatureFits, header_of}

-- A read of one number takes a byte, which is the number.
pub read_uint_one-Yields :
    (b0 : Bytes)
    → All IsByte b0
    → Yields (λ r. (b0 ≡ r.0 ∷ r.1) × (r.0 < 256) × All IsByte r.1) (read_uint 1 b0)
read_uint_one-Yields b0 h = Yields-intro _ λ (n, b1) e.
    let (took, fits, left) = read_uint-Took 1 n b0 e h in
    (took.splits ∙ ap (λ p. p ++ b1) (be_bytes_one n fits), fits, left)

pub read_terminator-Yields :
    (b0 : Bytes) → All IsByte b0 → Yields (λ b1. (b0 ≡ 0 ∷ b1) × All IsByte b1) (read_terminator b0)
unfolding read_terminator
read_terminator-Yields [] h = bad
read_terminator-Yields (b ∷ b0) h = Yields-if (b == 0) (λ e. good (ground arith, h.1)) (λ _. bad)

abbrev pub HostnameRead : Bytes → Bytes × Bytes → Type 0
HostnameRead b0 (name, rest) =
    (b0 ≡ write_hostname name rest) × (1 ≤ length name) × (length name ≤ 255) × All IsByte rest

pub read_hostname-Yields :
    (b0 : Bytes) → All IsByte b0 → Yields (HostnameRead b0) (read_hostname b0)
unfolding read_hostname write_hostname
read_hostname-Yields b0 h = Yields-bind (read_uint_one-Yields b0 h) λ (n, b1) (e1, fits, h1).
    Yields-bind (Yields-guard (not (n == 0)) _) λ _ positive.
      Yields-bind (Yields-guard (leb n 255) _) λ _ _.
        Yields-bind (read_full-Yields n b1 h1) λ (name, b2) (e2, size, h2).
          Yields-bind (read_terminator-Yields b2 h2) λ b3 (e3, h3).
            let whole : length name % 256 ≡ n = omega arith in
            good (rw (e1, e2, e3, whole), ground arith, ground arith, h3)

abbrev pub SignatureRead : Bytes → ℕ × Bytes × Bytes → Type 0
SignatureRead b0 (id, sig, rest) =
    (b0 ≡ write_signature id sig rest) × SignatureFits id sig × All IsByte rest

abbrev pub SuiteOf : ℕ → SigInfo → Type 0
SuiteOf id suite =
    ((id ≡ 0) × (suite.max_signature_length ≡ 0))
    ⊎ ((id ≡ 1) × (suite.min_signature_length ≡ 64) × (suite.max_signature_length ≡ 64))

pub known_suite : (id : ℕ) (suite : SigInfo) → signature_suite id ≡ ok suite → SuiteOf id suite
unfolding signature_suite get_signature_info
known_suite id suite e = ground arith

pub signature_suite-Yields : (id : ℕ) → Yields (SuiteOf id) (signature_suite id)
signature_suite-Yields id = Yields-intro _ λ suite e. known_suite id suite e

pub sig_written : (sig : Bytes) → (if ltb 0 (length sig) then sig else []) ≡ sig
sig_written [] = refl
sig_written (x ∷ sig) = rw (lt→ltb 0 (length (x ∷ sig)) (omega arith))

abbrev pub FieldOf : SigInfo → ℕ → Bytes → Bytes × Bytes → Type 0
FieldOf suite n b0 (sig, rest) =
    (b0 ≡ sig ++ rest)
    × (length sig ≡ n)
    × ((n ≡ 0) ⊎ (suite.min_signature_length ≤ n) × (n ≤ suite.max_signature_length))
    × All IsByte rest

pub read_signature_field-Yields :
    (suite : SigInfo) (n : ℕ) (b0 : Bytes)
    → All IsByte b0
    → Yields (FieldOf suite n b0) (read_signature_field suite n b0)
unfolding read_signature_field
read_signature_field-Yields suite n b0 h =
    Yields-if (ltb 0 n)
      (λ _.
        Yields-bind
          (Yields-guard (leb n suite.max_signature_length && leb suite.min_signature_length n)
            protocol_violation)
          λ _ g. Yields-intro _ λ (sig, rest) r.
            let (e, size, left) = Yields-eq_ok (read_full-Yields n b0 h) r in
            (e, size, ground arith, left))
      (λ e. good (refl, ground arith, ground arith, h))

pub read_signature-Yields :
    (b0 : Bytes) → All IsByte b0 → Yields (SignatureRead b0) (read_signature b0)
unfolding read_signature write_signature
read_signature-Yields b0 h = Yields-bind (read_uint_one-Yields b0 h) λ (id, b1) (e1, _, h1).
    Yields-bind (signature_suite-Yields id) λ suite known.
      Yields-bind (read_uint_one-Yields b1 h1) λ (n, b2) (e2, fits, h2).
        Yields-bind (Yields-guard (not ((id == 0) && ltb 0 n)) _) λ _ g1.
          Yields-bind (Yields-guard (not (ltb 0 id && (n == 0))) _) λ _ g2.
            Yields-bind (read_signature_field-Yields suite n b2 h2)
              λ (sig, b3) (e3, size, in_range, h3).
                let whole : length sig % 256 ≡ n = omega arith in
                good (rw (e1, e2, e3, whole, sig_written sig), ground arith, h3)

abbrev pub DataRead : Bytes → Bytes × Bytes → Type 0
DataRead b0 (body, rest) = (b0 ≡ write_data body rest) × (1 ≤ length body) × (length body ≤ 65535)

pub read_data-Yields : (b0 : Bytes) → All IsByte b0 → Yields (DataRead b0) (read_data b0)
unfolding read_data write_data
read_data-Yields b0 h = Yields-bind (read_uint-Yields 2 b0 h) λ (n, b1) (e1, fits, h1).
    Yields-bind (Yields-guard (not (n == 0)) _) λ _ positive.
      Yields-bind (Yields-guard (leb n (length b1)) _) λ _ _. Yields-intro _ λ (body, rest) e.
        let (e2, size, _) = Yields-eq_ok (read_full-Yields n b1 h1) e in
        let whole : length body % 65536 ≡ n = omega arith in
        (rw (e1, e2, whole), ground arith, omega arith)

abbrev pub HeaderRead : Bytes → Header × Bytes → Type 0
HeaderRead b0 (hd, rest) =
    (f : InnerWireFormat) → header_of f ≡ hd → (b0 ≡ write_header f rest) × HeaderFits f

pub read_header-Yields :
    (b0 : Bytes) → All IsByte b0 → Yields (λ r. HeaderRead b0 r × All IsByte r.1) (read_header b0)
unfolding read_header write_header
read_header-Yields b0 h = Yields-bind (read_uint-Yields 4 b0 h) λ (host_id, b1) (e1, f1, h1).
    Yields-bind (read_uint-Yields 4 b1 h1) λ (msg_id, b2) (e2, f2, h2).
      Yields-bind (read_uint-Yields 2 b2 h2) λ (message_seq, b3) (e3, f3, h3).
        Yields-bind (read_uint-Yields 2 b3 h3) λ (message_seq_max, b4) (e4, f4, h4).
          Yields-bind (read_uint-Yields 8 b4 h4) λ (timestamp, b5) (e5, f5, h5). good (
            λ f e. (
              rw (
                e1,
                e2,
                e3,
                e4,
                e5,
                ap (λ (x : Header). x.host_id) e,
                ap (λ (x : Header). x.msg_id) e,
                ap (λ (x : Header). x.message_seq) e,
                ap (λ (x : Header). x.message_seq_max) e,
                ap (λ (x : Header). x.timestamp) e,
              ),
              omega (
                arith,
                ap (λ (x : Header). x.host_id) e,
                ap (λ (x : Header). x.msg_id) e,
                ap (λ (x : Header). x.message_seq) e,
                ap (λ (x : Header). x.message_seq_max) e,
                ap (λ (x : Header). x.timestamp) e,
              ),
            ),
            h5,
          )
