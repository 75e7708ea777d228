-- ===== src/Common/Words.antt =====
-- Big-endian unsigned integers over byte lists (encoding/binary's BigEndian).
use Prim.Native.Nat.{ℕ, zero, suc, ◌+◌, ◌*◌, ◌/◌, ◌%◌, ◌^◌, ◌<◌}
use mathlib.Core.Path.{◌≡◌, refl, sym, subst, ap}
use mathlib.Core.List.{List, [], ◌∷◌, ◌++◌}
use mathlib.Core.Logic.{◌↔◌}
use mathlib.Core.Bool.{Bool, true, false, ◌&&◌}
use native.Mathlib.Omega.{arith}
use sdsyslog.Common.Tests.{◌==◌}
use native.Mathlib.Nat.{pow-suc}
use sdsyslog.Common.Lists.{
  length, length-append, All, All-append, All-append_inv, split_last, length_concat,
}

abbrev pub Bytes : Type 0
Bytes = List ℕ

abbrev pub IsByte : ℕ → Type 0
IsByte b = b < 256

-- The lowest `n` bytes of `v`, highest first.
unfoldable pub be_bytes : ℕ → ℕ → Bytes
be_bytes zero v = []
be_bytes (suc n) v = be_bytes n (v / 256) ++ (v % 256) ∷ []

unfoldable pub be_onto : ℕ → Bytes → ℕ
be_onto acc [] = acc
be_onto acc (b ∷ bs) = be_onto (acc * 256 + b) bs

unfoldable pub be_value : Bytes → ℕ
unfolding be_onto
be_value bs = be_onto 0 bs

pub length-be_bytes : (n v : ℕ) → length (be_bytes n v) ≡ n
unfolding be_bytes
length-be_bytes zero v = refl
length-be_bytes (suc n) v =
    omega
      (arith, length-append (be_bytes n (v / 256)) ((v % 256) ∷ []), length-be_bytes n (v / 256))

pub be_bytes-IsByte : (n v : ℕ) → All IsByte (be_bytes n v)
unfolding be_bytes
be_bytes-IsByte zero v = tt
be_bytes-IsByte (suc n) v =
    All-append IsByte (be_bytes n (v / 256)) _ (be_bytes-IsByte n (v / 256)) (omega arith)

be_onto-append : (acc : ℕ) (xs ys : Bytes) → be_onto acc (xs ++ ys) ≡ be_onto (be_onto acc xs) ys
unfolding be_onto
be_onto-append acc [] ys = refl
be_onto-append acc (x ∷ xs) ys = be_onto-append (acc * 256 + x) xs ys

be_value_concat : (bs : Bytes) (b : ℕ) → be_value (bs ++ b ∷ []) ≡ be_value bs * 256 + b
unfolding be_value
be_value_concat bs b = be_onto-append 0 bs (b ∷ [])

-- A number that fits `n` bytes is read back from its bytes.
pub be_value-be_bytes : (n v : ℕ) → v < 256 ^ n → be_value (be_bytes n v) ≡ v
unfolding be_bytes
be_value-be_bytes zero v h = unfold be_value in omega arith
be_value-be_bytes (suc n) v h =
    rw
      (
        be_value_concat (be_bytes n (v / 256)) (v % 256),
        be_value-be_bytes n (v / 256) (omega (arith, pow-suc 256 n)),
      )
      (omega arith)

-- A fact about byte lists by induction from the back.
module _ {ℓ} (P : Bytes → Type ℓ) where
  snoc_loop :
      P []
      → ((bs : Bytes) (b : ℕ) → All IsByte bs → b < 256 → P bs → P (bs ++ b ∷ []))
      → (n : ℕ) (bs : Bytes) → length bs ≡ n
      → All IsByte bs
      → P bs
  snoc_loop base step n [] e h = base
  snoc_loop base step zero (b ∷ bs) e h = absurd (omega arith)
  snoc_loop base step (suc n) (b ∷ bs) e h =
      let (ys, y, s) = split_last b bs in
      let (hys, hy) = All-append_inv IsByte ys (y ∷ []) (subst (All IsByte) s h) in
      subst P (sym s) (
        step ys y hys hy.0
          (snoc_loop base step n ys (omega (arith, ap length s, length-append ys (y ∷ []))) hys))

pub be_value-lt : (bs : Bytes) → All IsByte bs → be_value bs < 256 ^ length bs
be_value-lt bs =
    snoc_loop (λ xs. be_value xs < 256 ^ length xs) (unfold be_value be_onto in omega arith)
      (λ xs b _ h ih.
        rw (length_concat xs b, be_value_concat xs b) (omega (arith, pow-suc 256 (length xs))))
      (length bs) bs refl

be_bytes_concat :
    (xs : Bytes) (b : ℕ)
    → b < 256
    → be_bytes (length xs) (be_value xs) ≡ xs
    → be_bytes (length (xs ++ b ∷ [])) (be_value (xs ++ b ∷ [])) ≡ xs ++ b ∷ []
unfolding be_bytes
be_bytes_concat xs b h ih =
    let high : (be_value xs * 256 + b) / 256 ≡ be_value xs = omega arith in
    let low : (be_value xs * 256 + b) % 256 ≡ b = omega arith in
    rw (length_concat xs b, be_value_concat xs b, high, low, ih)

-- Bytes are written again from the number that they stand for.
pub be_bytes-be_value : (bs : Bytes) → All IsByte bs → be_bytes (length bs) (be_value bs) ≡ bs
be_bytes-be_value bs =
    snoc_loop (λ xs. be_bytes (length xs) (be_value xs) ≡ xs) (unfold be_bytes in refl)
      (λ xs b _ h ih. be_bytes_concat xs b h ih) (length bs) bs refl

pub be_bytes_one : (b : ℕ) → b < 256 → be_bytes 1 b ≡ b ∷ []
unfolding be_bytes
be_bytes_one b h = let whole : b % 256 ≡ b = omega arith in rw whole

-- bytes.Equal.
unfoldable pub bytes_equal : Bytes → Bytes → Bool
bytes_equal [] [] = true
bytes_equal (x ∷ xs) (y ∷ ys) = (x == y) && bytes_equal xs ys
bytes_equal _ _ = false

pub bytes_equal_iff : (xs ys : Bytes) → (bytes_equal xs ys ≡ true) ↔ (xs ≡ ys)
unfolding bytes_equal
bytes_equal_iff (x ∷ xs) (y ∷ ys) = ground (arith, bytes_equal_iff xs ys)
bytes_equal_iff _ _ = ground arith
