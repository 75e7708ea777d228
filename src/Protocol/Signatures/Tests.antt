-- ===== src/Protocol/Signatures/Tests.antt =====
-- pkg/protocol/payload.go: the bytes that are signed for one identity.
use sdsyslog.Common.{ℕ, ◌≡◌, refl, [], ◌∷◌, arith}
use sdsyslog.Common.Words.{Bytes, be_bytes}
use sdsyslog.Protocol.Signatures.{serialize_signature, serialize_signature-injective}

signed :
    serialize_signature (104 ∷ []) 7 258
    ≡ 68 ∷ 51 ∷ 80 ∷ 45 ∷ 73 ∷ 68 ∷ 45 ∷ 83 ∷ 73 ∷ 71 ∷ 0 ∷ 0 ∷ 0 ∷ 0 ∷ 0 ∷ 0 ∷ 1 ∷ 2 ∷ 0 ∷ 0 ∷ 0
      ∷ 7 ∷ 104 ∷ []
unfolding serialize_signature be_bytes
signed = refl

abbrev name : Bytes
name = 104 ∷ []

abbrev host_seven : ℕ
host_seven = 7

abbrev time_then : ℕ
time_then = 258

serialize_signature-injective_example :
    (name ≡ name) × (host_seven ≡ host_seven) × (time_then ≡ time_then)
serialize_signature-injective_example =
    serialize_signature-injective name name host_seven host_seven time_then time_then (omega arith)
      (omega arith) (omega arith) (omega arith) refl
