-- ===== src/Runtime/Ssrf.antt =====
-- packages/runtime/src/ssrf.ts: the classification of IPv4 addresses as 32-bit numbers. `&` reads its
-- operands as 32 bits and gives a signed number; `>>> 0` reads a number as 32 bits, unsigned.
pub mod Bits
pub mod Octets
use swift_agent.Common.{
  ℕ, ◌+◌, ◌-◌, ◌*◌, ◌%◌, ◌^◌, Bool, false, ◌||◌, ◌==◌, ltb, bit_and, if◌then◌else◌,
}

-- An integer: `pos n` is n, `negsuc n` is -(n + 1).
pub data ℤ : Type 0 where
  pos negsuc : ℕ → ℤ

-- The low 32 bits of an integer, unsigned: `x >>> 0`.
abbrev pub to_uint32 : ℤ → ℕ
to_uint32 (pos n) = n % 2 ^ 32
to_uint32 (negsuc n) = 2 ^ 32 - 1 - n % 2 ^ 32

-- 32 bits as a signed number.
abbrev pub to_int32 : ℕ → ℤ
to_int32 bits = if ltb bits (2 ^ 31) then pos bits else negsuc (2 ^ 32 - 1 - bits)

-- `a & b`
infixl 60 ◌&◌
abbrev pub ◌&◌ : ℤ → ℤ → ℤ
a & b = to_int32 (bit_and (to_uint32 a) (to_uint32 b))

-- `a === b`, of integers
abbrev pub int_eq : ℤ → ℤ → Bool
int_eq (pos m) (pos n) = m == n
int_eq (negsuc m) (negsuc n) = m == n
int_eq _ _ = false

-- One round of the loop of `ipv4ToInt`, on the number of a part.
abbrev pub add_octet : ℕ → ℕ → ℕ
add_octet value n = value * 256 + n

-- `ipv4ToInt`, on the numbers of the four parts.
abbrev pub ipv4_to_int : ℕ → ℕ → ℕ → ℕ → ℕ
ipv4_to_int a b c d = to_uint32 (pos (add_octet (add_octet (add_octet (add_octet 0 a) b) c) d))

-- `isLoopbackV4`
abbrev pub is_loopback_v4 : ℕ → Bool
is_loopback_v4 n = int_eq (pos n & pos 0xff000000) (pos 0x7f000000)

-- `inCidr`
abbrev pub in_cidr : ℕ → ℕ → ℕ → Bool
in_cidr n mask network = to_uint32 (pos n & pos mask) == to_uint32 (pos network)

-- `isDisallowedV4`
unfoldable pub is_disallowed_v4 : ℕ → Bool
is_disallowed_v4 n =
    is_loopback_v4 n
    || (in_cidr n 0xff000000 0x00000000
        || (in_cidr n 0xff000000 0x0a000000
            || (in_cidr n 0xfff00000 0xac100000
                || (in_cidr n 0xffff0000 0xc0a80000
                    || (in_cidr n 0xffc00000 0x64400000 || in_cidr n 0xffff0000 0xa9fe0000)))))
