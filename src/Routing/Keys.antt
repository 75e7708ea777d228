-- ===== src/Routing/Keys.antt =====
-- internal/receiver/shard/routing.go: different messages have different keys.
use sdsyslog.Common.{
  ℕ, zero, suc, ◌+◌, ◌*◌, ◌-◌, ◌/◌, ◌%◌, ◌≤◌, ◌≡◌, refl, sym, ap, ◌∙◌, inl, inr, Bool-cases, ltb,
  [], ◌∷◌, ◌++◌, arith, All,
}
use sdsyslog.Common.Words.{Bytes}
use mathlib.Core.Path.{subst}
use mathlib.Core.List.{append_assoc}
use sdsyslog.Protocol.Fragments.{Payload}
use sdsyslog.Routing.{decimal_digits, decimal, bucket_key}

-- The number that digits stand for.
digits_value : ℕ → Bytes → ℕ
digits_value acc [] = acc
digits_value acc (d ∷ ds) = digits_value (acc * 10 + (d - 48)) ds

digits_value_concat :
    (acc : ℕ) (ds : Bytes) (d : ℕ)
    → digits_value acc (ds ++ d ∷ []) ≡ digits_value acc ds * 10 + (d - 48)
unfolding digits_value
digits_value_concat acc [] d = refl
digits_value_concat acc (x ∷ ds) d = digits_value_concat (acc * 10 + (x - 48)) ds d

digits_value-decimal_digits : (fuel n : ℕ) → n ≤ fuel → digits_value 0 (decimal_digits fuel n) ≡ n
unfolding digits_value decimal_digits
digits_value-decimal_digits zero n h = omega arith
digits_value-decimal_digits (suc fuel) n h = elim (Bool-cases (ltb n 10)) [
  | inl small ↦ rw small (omega arith)
  | inr large ↦
      let ten : 10 ≤ n = ground arith in
      let shorter : n / 10 ≤ fuel = omega arith in
      let ih = digits_value-decimal_digits fuel (n / 10) shorter in
      let last = digits_value_concat 0 (decimal_digits fuel (n / 10)) (48 + n % 10) in
      rw large (omega (arith, last, ih))
]

decimal-injective : (n m : ℕ) → decimal n ≡ decimal m → n ≡ m
unfolding decimal
decimal-injective n m e =
    sym (digits_value-decimal_digits n n (omega arith))
    ∙ ap (digits_value 0) e
    ∙ digits_value-decimal_digits m m (omega arith)

abbrev AreDigits : Bytes → Type 0
AreDigits ds = All (λ d. 48 ≤ d) ds

AreDigits-concat : (ds : Bytes) (d : ℕ) → AreDigits ds → 48 ≤ d → AreDigits (ds ++ d ∷ [])
AreDigits-concat [] d hs h = (h, tt)
AreDigits-concat (x ∷ ds) d (hx, hs) h = (hx, AreDigits-concat ds d hs h)

decimal_digits-AreDigits : (fuel n : ℕ) → AreDigits (decimal_digits fuel n)
unfolding decimal_digits
decimal_digits-AreDigits zero n = (omega arith, tt)
decimal_digits-AreDigits (suc fuel) n = elim (Bool-cases (ltb n 10)) [
  | inl small ↦ rw small (omega arith, tt)
  | inr large ↦ rw large (
      AreDigits-concat (decimal_digits fuel (n / 10)) (48 + n % 10)
        (decimal_digits-AreDigits fuel (n / 10)) (omega arith))
]

decimal-AreDigits : (n : ℕ) → AreDigits (decimal n)
unfolding decimal
decimal-AreDigits n = decimal_digits-AreDigits n n

head_equal : {x y : ℕ} {xs ys : Bytes} → x ∷ xs ≡ y ∷ ys → x ≡ y
head_equal e = cc

tail_equal : {x y : ℕ} {xs ys : Bytes} → x ∷ xs ≡ y ∷ ys → xs ≡ ys
tail_equal e = cc

no_dash : (xs ds : Bytes) → ¬ AreDigits (xs ++ 45 ∷ ds)
no_dash [] ds (h, hs) = omega arith
no_dash (x ∷ xs) ds (h, hs) = no_dash xs ds hs

-- The last dash is found again.
last_dash :
    (xs ys ds es : Bytes)
    → AreDigits ds
    → AreDigits es
    → xs ++ 45 ∷ ds ≡ ys ++ 45 ∷ es
    → (xs ≡ ys) × (ds ≡ es)
last_dash [] [] ds es hd he e = (refl, tail_equal e)
last_dash [] (y ∷ ys) ds es hd he e = absurd (no_dash ys es (subst AreDigits (tail_equal e) hd))
last_dash (x ∷ xs) [] ds es hd he e =
    absurd (no_dash xs ds (subst AreDigits (sym (tail_equal e)) he))
last_dash (x ∷ xs) (y ∷ ys) ds es hd he e =
    let (same, rest) = last_dash xs ys ds es hd he (tail_equal e) in
    let heads : x ≡ y = head_equal e in (cc (heads, same), rest)

-- The keys of two fragments are equal only where their senders' addresses, host ids and message ids
-- are.
pub bucket_key-injective :
    (a b : Bytes) (f g : Payload)
    → bucket_key a f ≡ bucket_key b g
    → (a ≡ b) × (f.host_id ≡ g.host_id) × (f.msg_id ≡ g.msg_id)
unfolding bucket_key
bucket_key-injective a b f g e =
    let left = append_assoc a (45 ∷ decimal f.host_id) (45 ∷ decimal f.msg_id) in
    let right = append_assoc b (45 ∷ decimal g.host_id) (45 ∷ decimal g.msg_id) in
    let (front, msg) =
      last_dash (a ++ 45 ∷ decimal f.host_id) (b ++ 45 ∷ decimal g.host_id) (decimal f.msg_id)
        (decimal g.msg_id) (decimal-AreDigits f.msg_id) (decimal-AreDigits g.msg_id)
        (left ∙ e ∙ sym right) in
    let (address, host) =
      last_dash a b (decimal f.host_id) (decimal g.host_id) (decimal-AreDigits f.host_id)
        (decimal-AreDigits g.host_id) front in
    (address, decimal-injective f.host_id g.host_id host, decimal-injective f.msg_id g.msg_id msg)
