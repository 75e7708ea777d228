-- ===== src/Shards/Maps.antt =====
-- internal/receiver/shard/queue.go and runtime.go: the laws of the map of buckets.
use sdsyslog.Common.{
  ℕ, ◌+◌, ◌≡◌, refl, Option, none, some, List, [], ◌∷◌, ◌++◌, arith, if◌then◌else◌, Bool-cases, inl,
  inr, length,
}
use sdsyslog.Common.Words.{Bytes, bytes_equal, bytes_equal_iff}
use sdsyslog.Shards.{
  Bucket, Buckets, find_bucket, put_bucket, delete_bucket, close_bucket, is_late, close_late,
  late_keys,
}

-- 1 where the two keys are equal.
abbrev pub one : Bytes → Bytes → ℕ
one j k = if bytes_equal j k then 1 else 0

-- How often a key stands in a list.
unfoldable pub times : Bytes → List Bytes → ℕ
times k [] = 0
times k (j ∷ js) = one j k + times k js

abbrev pub ready_of : Option Bucket → ℕ
ready_of none = 0
ready_of (some b) = if b.filled then 1 else 0

-- 1 where the key has a bucket that is filled.
unfoldable pub ready : Bytes → Buckets → ℕ
ready k m = ready_of (find_bucket k m)

-- No key has two entries.
abbrev pub Distinct : Buckets → Type 0
Distinct [] = Unit {0}
Distinct ((k, b) ∷ m) = (find_bucket k m ≡ none) × Distinct m

pub times-append : (k : Bytes) (xs ys : List Bytes) → times k (xs ++ ys) ≡ times k xs + times k ys
unfolding times
times-append k [] ys = ground arith
times-append k (x ∷ xs) ys = ground (arith, times-append k xs ys)

pub find-put_bucket :
    (j k : Bytes) (b : Bucket) (m : Buckets)
    → find_bucket j (put_bucket k b m) ≡ (if bytes_equal k j then some b else find_bucket j m)
unfolding find_bucket put_bucket
find-put_bucket j k b [] = refl
find-put_bucket j k b ((i, c) ∷ m) =
    ground (
      arith,
      bytes_equal_iff k j,
      bytes_equal_iff i k,
      bytes_equal_iff i j,
      find-put_bucket j k b m,
    )

pub find-delete_bucket :
    (j k : Bytes) (m : Buckets)
    → Distinct m
    → find_bucket j (delete_bucket k m) ≡ (if bytes_equal k j then none else find_bucket j m)
unfolding find_bucket delete_bucket
find-delete_bucket j k [] d = ground arith
find-delete_bucket j k ((i, c) ∷ m) d = ground (
  arith,
  d.0,
  d.1,
  bytes_equal_iff k j,
  bytes_equal_iff i k,
  bytes_equal_iff i j,
  find-delete_bucket j k m d.1,
)

pub put_bucket-Distinct :
    (k : Bytes) (b : Bucket) (m : Buckets) → Distinct m → Distinct (put_bucket k b m)
unfolding put_bucket
put_bucket-Distinct k b [] d = (unfold find_bucket in refl, tt)
put_bucket-Distinct k b ((i, c) ∷ m) d = elim (Bool-cases (bytes_equal i k)) [
  | inl same ↦ rw same d
  | inr other ↦ rw other (
    ground (arith, find-put_bucket i k b m, bytes_equal_iff k i, bytes_equal_iff i k),
    put_bucket-Distinct k b m d.1,
  )
]

pub delete_bucket-Distinct : (k : Bytes) (m : Buckets) → Distinct m → Distinct (delete_bucket k m)
unfolding delete_bucket
delete_bucket-Distinct k [] d = tt
delete_bucket-Distinct k ((i, c) ∷ m) d = elim (Bool-cases (bytes_equal i k)) [
  | inl same ↦ rw same d.1
  | inr other ↦
      rw other (ground (arith, find-delete_bucket i k m d.1, d.0), delete_bucket-Distinct k m d.1)
]

abbrev pub closed_if_late : ℕ → ℕ → Option Bucket → Option Bucket
closed_if_late deadline now none = none
closed_if_late deadline now (some b) = some (if is_late deadline now b then close_bucket b else b)

pub find-close_late :
    (deadline now : ℕ) (j : Bytes) (m : Buckets)
    → find_bucket j (close_late deadline now m) ≡ closed_if_late deadline now (find_bucket j m)
unfolding find_bucket close_late
find-close_late deadline now j [] = refl
find-close_late deadline now j ((i, c) ∷ m) = elim (Bool-cases (bytes_equal i j)) [
  | inl same ↦ rw same
  | inr other ↦ rw other (find-close_late deadline now j m)
]

pub close_late-Distinct :
    (deadline now : ℕ) (m : Buckets) → Distinct m → Distinct (close_late deadline now m)
unfolding close_late
close_late-Distinct deadline now [] d = tt
close_late-Distinct deadline now ((i, c) ∷ m) d =
    (rw (find-close_late deadline now i m, d.0), close_late-Distinct deadline now m d.1)

-- A sweep names each bucket that it fills once.
pub ready-close_late :
    (deadline now : ℕ) (k : Bytes) (m : Buckets)
    → Distinct m
    → ready k (close_late deadline now m) ≡ ready k m + times k (late_keys deadline now m)
unfolding ready find_bucket close_late late_keys times is_late
ready-close_late deadline now k [] d = omega arith
ready-close_late deadline now k ((i, c) ∷ m) d = ground (
  arith,
  bytes_equal_iff i k,
  d.0,
  find-close_late deadline now k m,
  ready-close_late deadline now k m d.1,
)

pub length-close_late :
    (deadline now : ℕ) (m : Buckets) → length (close_late deadline now m) ≡ length m
unfolding close_late
length-close_late deadline now [] = refl
length-close_late deadline now ((i, c) ∷ m) = omega (arith, length-close_late deadline now m)
