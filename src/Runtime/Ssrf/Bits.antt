-- ===== src/Runtime/Ssrf/Bits.antt =====
-- ssrf.ts: what a mask of leading ones leaves of a number of 32 bits.
use Prim.Native.Nat.{min, digits, bit_and-bitwise}
use swift_agent.Common.{
  ℕ, zero, suc, ◌+◌, ◌*◌, ◌/◌, ◌%◌, ◌≤◌, ◌<◌, ◌≡◌, refl, sym, ap, ◌∙◌, arith, ◌==◌, bit_and,
}
use swift_agent.Runtime.Ssrf.{pos, to_uint32, to_int32, ◌&◌, int_eq, in_cidr}

-- Nothing is left of nothing.
none_left : (m b : ℕ) → digits (λ x. zero) min m 0 b ≡ 0
none_left zero b = refl
none_left (suc m) b = refl

-- More fuel than the first operand asks for changes nothing.
fuel_agrees :
    (m n a b : ℕ) → a ≤ m → a ≤ n → digits (λ x. zero) min m a b ≡ digits (λ x. zero) min n a b
fuel_agrees m n zero b p q = none_left m b ∙ sym (none_left n b)
fuel_agrees (suc m) (suc n) (suc a) b p q =
    omega (arith, fuel_agrees m n (suc a / 2) (b / 2) (omega arith) (omega arith))
fuel_agrees zero n (suc a) b p q = absurd (omega (arith, p))
fuel_agrees (suc m) zero (suc a) b p q = absurd (omega (arith, q))

-- The lowest digit apart.
lowest : (a b : ℕ) → bit_and a b ≡ bit_and (a / 2) (b / 2) * 2 + min (a % 2) (b % 2)
lowest zero b = omega (arith, bit_and-bitwise 0 b, bit_and-bitwise 0 (b / 2))
lowest (suc a) b = omega (
  arith,
  bit_and-bitwise (suc a) b,
  bit_and-bitwise (suc a / 2) (b / 2),
  fuel_agrees a (suc a / 2) (suc a / 2) (b / 2) (omega arith) (omega arith),
)

and_even : (a m : ℕ) → bit_and a (m * 2) ≡ bit_and (a / 2) m * 2
and_even a m =
    let half : m * 2 / 2 ≡ m = omega arith in
    omega (arith, lowest a (m * 2), ap (bit_and (a / 2)) half)

and_odd : (a m : ℕ) → bit_and a (m * 2 + 1) ≡ bit_and (a / 2) m * 2 + a % 2
and_odd a m =
    let half : (m * 2 + 1) / 2 ≡ m = omega arith in
    omega (arith, lowest a (m * 2 + 1), ap (bit_and (a / 2)) half)

-- `m` with k zeros appended, `n` without its last k digits, and k ones.
abbrev doubled : ℕ → ℕ → ℕ
doubled zero m = m
doubled (suc k) m = doubled k m * 2

abbrev halved : ℕ → ℕ → ℕ
halved zero n = n
halved (suc k) n = halved k (n / 2)

abbrev ones : ℕ → ℕ
ones zero = 0
ones (suc k) = ones k * 2 + 1

and_doubled : (k n m : ℕ) → bit_and n (doubled k m) ≡ doubled k (bit_and (halved k n) m)
and_doubled zero n m = refl
and_doubled (suc k) n m = and_even n (doubled k m) ∙ ap (λ x. x * 2) (and_doubled k (n / 2) m)

and_zero : (n : ℕ) → n < 1 → bit_and n 0 ≡ n
and_zero zero h = bit_and-bitwise 0 0
and_zero (suc n) h = absurd (omega (arith, h))

and_ones : (k n : ℕ) → n < doubled k 1 → bit_and n (ones k) ≡ n
and_ones zero n h = and_zero n h
and_ones (suc k) n h = omega (arith, and_odd n (ones k), and_ones k (n / 2) (omega (arith, h)))

-- The mask of j ones and k zeros.
leading :
    (j k n : ℕ) → halved k n < doubled j 1 → bit_and n (doubled k (ones j)) ≡ doubled k (halved k n)
leading j k n h = and_doubled k n (ones j) ∙ ap (doubled k) (and_ones j (halved k n) h)

module _ (n : ℕ) (small : n < 4294967296) where
  pub and_8 : bit_and n 0xff000000 ≡ n / 16777216 * 16777216
  and_8 = leading 8 24 n (omega arith) ∙ omega arith

  pub and_12 : bit_and n 0xfff00000 ≡ n / 1048576 * 1048576
  and_12 = leading 12 20 n (omega arith) ∙ omega arith

  pub and_16 : bit_and n 0xffff0000 ≡ n / 65536 * 65536
  and_16 = leading 16 16 n (omega arith) ∙ omega arith

  pub and_10 : bit_and n 0xffc00000 ≡ n / 4194304 * 4194304
  and_10 = leading 10 22 n (omega arith) ∙ omega arith

-- 32 bits, read as a signed number, are the same unsigned, and equal to a number without the sign
-- bit only as they are.
to_uint32-to_int32 : (bits : ℕ) → bits < 4294967296 → to_uint32 (to_int32 bits) ≡ bits
to_uint32-to_int32 bits h = ground arith

int_eq-to_int32 :
    (bits k : ℕ) → bits < 4294967296 → k < 2147483648 → int_eq (to_int32 bits) (pos k) ≡ (bits == k)
int_eq-to_int32 bits k h hk = ground arith

module _ (n mask size : ℕ) (small : n < 4294967296) (mask_small : mask < 4294967296)
    (kept : bit_and n mask ≡ n / size * size) (below : n / size * size ≤ n) where
  and_numbers : pos n & pos mask ≡ to_int32 (n / size * size)
  and_numbers =
      let en : n % 4294967296 ≡ n = omega arith in
      let em : mask % 4294967296 ≡ mask = omega arith in
      ap (λ x. to_int32 (bit_and x (mask % 4294967296))) en
      ∙ ap (λ x. to_int32 (bit_and n x)) em
      ∙ ap to_int32 kept

  pub in_cidr-keeps :
      (network : ℕ) → network < 4294967296 → in_cidr n mask network ≡ (n / size * size == network)
  in_cidr-keeps network h =
      let en : network % 4294967296 ≡ network = omega arith in
      let round : to_uint32 (pos n & pos mask) ≡ n / size * size =
        ap to_uint32 and_numbers ∙ to_uint32-to_int32 (n / size * size) (omega arith) in
      ap (λ x. x == network % 4294967296) round ∙ ap (λ x. n / size * size == x) en

  pub int_eq-keeps :
      (k : ℕ) → k < 2147483648 → int_eq (pos n & pos mask) (pos k) ≡ (n / size * size == k)
  int_eq-keeps k h =
      ap (λ x. int_eq x (pos k)) and_numbers ∙ int_eq-to_int32 (n / size * size) k (omega arith) h
