-- ===== src/Protocol/Wire.antt =====
-- Reading from a bytes.Reader, as pkg/protocol/inner.go does: the bytes that are left are passed
-- along.
use mathlib.Core.Path.{subst, subst₂}
use sdsyslog.Common.{
  Yields-intro, Yields, ℕ, ◌≤◌, ◌<◌, ◌^◌, ◌≡◌, sym, true, [], ◌∷◌, ◌++◌, arith, leb, ◌==◌,
  if◌then◌else◌, length, length-append, length-take, take, drop, take-append, drop-append,
  take-append-drop, All, All-append_inv, Result, ok, err,
}
use sdsyslog.Common.Words.{
  Bytes, IsByte, be_bytes, be_value, length-be_bytes, be_value-be_bytes, be_bytes-be_value,
  be_value-lt,
}
use sdsyslog.Protocol.{Error, serialization, plain, terminator_byte}

-- io.ReadFull into a buffer of `n` bytes.
unfoldable pub read_full : ℕ → Bytes → Result Error (Bytes × Bytes)
read_full n bs = if leb n (length bs) then ok (take n bs, drop n bs) else err serialization

-- binary.Read of an unsigned integer of `n` bytes.
unfoldable pub read_uint : ℕ → Bytes → Result Error (ℕ × Bytes)
read_uint n bs =
    if leb n (length bs) then ok (be_value (take n bs), drop n bs) else err serialization

-- ReadByte of a bytes.Reader.
unfoldable pub read_byte : Bytes → Result Error (ℕ × Bytes)
read_byte [] = err serialization
read_byte (b ∷ bs) = ok (b, bs)

unfoldable pub read_terminator : Bytes → Result Error Bytes
read_terminator [] = err plain
read_terminator (b ∷ bs) = if b == terminator_byte then ok bs else err plain

leb_append : (xs ys : Bytes) → leb (length xs) (length (xs ++ ys)) ≡ true
leb_append xs ys = ground (arith, length-append xs ys)

pub read_full-append : (xs ys : Bytes) → read_full (length xs) (xs ++ ys) ≡ ok (xs, ys)
unfolding read_full
read_full-append xs ys = rw (leb_append xs ys, take-append xs ys, drop-append xs ys)

read_uint-append : (xs ys : Bytes) → read_uint (length xs) (xs ++ ys) ≡ ok (be_value xs, ys)
unfolding read_uint
read_uint-append xs ys = rw (leb_append xs ys, take-append xs ys, drop-append xs ys)

pub read_uint-be_bytes :
    (n v : ℕ) (ys : Bytes) → v < 256 ^ n → read_uint n (be_bytes n v ++ ys) ≡ ok (v, ys)
read_uint-be_bytes n v ys h =
    subst (λ k. read_uint k (be_bytes n v ++ ys) ≡ ok (v, ys)) (length-be_bytes n v)
      (rw (read_uint-append (be_bytes n v) ys, be_value-be_bytes n v h))

-- What a read that succeeds took off the front.
pub record Took (n : ℕ) (bs xs rest : Bytes) : Type 0 where
  pub splits : bs ≡ xs ++ rest
  pub size : length xs ≡ n

take-Took : (n : ℕ) (bs : Bytes) → n ≤ length bs → Took n bs (take n bs) (drop n bs)
take-Took n bs h = record {
  splits = sym (take-append-drop n bs);
  size = omega (arith, length-take n bs);
}

read_full_inv :
    (n : ℕ) (bs : Bytes) {xs rest : Bytes}
    → read_full n bs ≡ ok (xs, rest)
    → (n ≤ length bs) × (take n bs ≡ xs) × (drop n bs ≡ rest)
unfolding read_full
read_full_inv n bs e = ground arith

read_uint_inv :
    (n v : ℕ) (bs : Bytes) {rest : Bytes}
    → read_uint n bs ≡ ok (v, rest)
    → (n ≤ length bs) × (be_value (take n bs) ≡ v) × (drop n bs ≡ rest)
unfolding read_uint
read_uint_inv n v bs e = ground arith

pub read_full-Took :
    (n : ℕ) (bs : Bytes) {xs rest : Bytes} → read_full n bs ≡ ok (xs, rest) → Took n bs xs rest
read_full-Took n bs e =
    let (fits, front, back) = read_full_inv n bs e in
    subst₂ (Took n bs) front back (take-Took n bs fits)

-- A number that is read has the bytes that it would be written in.
pub read_uint-Took :
    (n v : ℕ) (bs : Bytes) {rest : Bytes}
    → read_uint n bs ≡ ok (v, rest)
    → All IsByte bs
    → Took n bs (be_bytes n v) rest × (v < 256 ^ n) × All IsByte rest
read_uint-Took n v bs e h =
    let (fits, front, back) = read_uint_inv n v bs e in
    let took = take-Took n bs fits in
    let (hx, hr) =
      All-append_inv IsByte (take n bs) (drop n bs) (subst (All IsByte) took.splits h) in
    let written : be_bytes n v ≡ take n bs = rw (← front) (
      subst (λ k. be_bytes k (be_value (take n bs)) ≡ take n bs) took.size
        (be_bytes-be_value (take n bs) hx)) in
    (
      subst₂ (Took n bs) (sym written) back took,
      rw (← front) (subst (λ k. be_value (take n bs) < 256 ^ k) took.size (be_value-lt _ hx)),
      subst (All IsByte) back hr,
    )

pub read_full-Yields :
    (n : ℕ) (b0 : Bytes)
    → All IsByte b0
    → Yields (λ r. (b0 ≡ r.0 ++ r.1) × (length r.0 ≡ n) × All IsByte r.1) (read_full n b0)
read_full-Yields n b0 h = Yields-intro _ λ (xs, rest) e.
    let took = read_full-Took n b0 e in
    (took.splits, took.size, (All-append_inv IsByte xs rest (subst (All IsByte) took.splits h)).1)

-- A number that is read has the bytes that it would be written in.
pub read_uint-Yields :
    (n : ℕ) (b0 : Bytes)
    → All IsByte b0
    → Yields (λ r. (b0 ≡ be_bytes n r.0 ++ r.1) × (r.0 < 256 ^ n) × All IsByte r.1) (read_uint n b0)
read_uint-Yields n b0 h =
    Yields-intro _
      λ (v, rest) e. let (took, fits, left) = read_uint-Took n v b0 e h in (took.splits, fits, left)
