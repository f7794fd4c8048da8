-- ===== src/Runtime/Ssrf/Octets.antt =====
-- ssrf.ts: which dotted addresses are refused.
use swift_agent.Common.{
  ℕ, ◌+◌, ◌*◌, ◌/◌, ◌<◌, Bool, ◌≡◌, ap, ◌∙◌, ◌||◌, ◌&&◌, ◌==◌, leb, ltb, arith,
}
use swift_agent.Runtime.Ssrf.{add_octet, ipv4_to_int, in_cidr, is_loopback_v4, is_disallowed_v4}
use swift_agent.Runtime.Ssrf.Bits.{and_8, and_12, and_16, and_10, in_cidr-keeps, int_eq-keeps}

-- a.b.c.d, as the loop reads it.
abbrev address : ℕ → ℕ → ℕ → ℕ → ℕ
address a b c d = add_octet (add_octet (add_octet (add_octet 0 a) b) c) d

module _ (a b c d : ℕ) (hb : b < 256) (hc : c < 256) (hd : d < 256) where
  block_8 : (net : ℕ) → (address a b c d / 16777216 * 16777216 == net * 16777216) ≡ (a == net)
  block_8 net = ground arith

  block_16 :
      (x y : ℕ)
      → y < 256
      → (address a b c d / 65536 * 65536 == x * 16777216 + y * 65536) ≡ ((a == x) && (b == y))
  block_16 x y hy = ground arith

  block_12 :
      (address a b c d / 1048576 * 1048576 == 2886729728) ≡ ((a == 172) && (leb 16 b && ltb b 32))
  block_12 = ground arith

  block_10 :
      (address a b c d / 4194304 * 4194304 == 1681915904) ≡ ((a == 100) && (leb 64 b && ltb b 128))
  block_10 = ground arith

either : (p p' q q' : Bool) → p ≡ p' → q ≡ q' → (p || q) ≡ (p' || q')
either p p' q q' e f = ap (λ r. r || q) e ∙ ap (λ r. p' || r) f

-- 127.x, 0.x, 10.x, 172.16.x to 172.31.x, 192.168.x, 100.64.x to 100.127.x and 169.254.x.
abbrev pub is_reserved : ℕ → ℕ → Bool
is_reserved a b =
    (a == 127)
    || ((a == 0)
        || ((a == 10)
            || (((a == 172) && (leb 16 b && ltb b 32))
                || (((a == 192) && (b == 168))
                    || (((a == 100) && (leb 64 b && ltb b 128)) || ((a == 169) && (b == 254)))))))

module _ (a b c d : ℕ) (ha : a < 256) (hb : b < 256) (hc : c < 256) (hd : d < 256) where
  small : address a b c d < 4294967296
  small = omega arith

  network_8 :
      (net : ℕ) → net < 256 → in_cidr (address a b c d) 0xff000000 (net * 16777216) ≡ (a == net)
  network_8 net h =
      in_cidr-keeps (address a b c d) 0xff000000 16777216 small (omega arith) (and_8 _ small)
        (omega arith) (net * 16777216) (omega arith)
      ∙ block_8 a b c d hb hc hd net

  loopback : is_loopback_v4 (address a b c d) ≡ (a == 127)
  loopback =
      int_eq-keeps (address a b c d) 0xff000000 16777216 small (omega arith) (and_8 _ small)
        (omega arith) 0x7f000000 (omega arith)
      ∙ block_8 a b c d hb hc hd 127

  network_16 :
      (x y : ℕ)
      → x < 256
      → y < 256
      → in_cidr (address a b c d) 0xffff0000 (x * 16777216 + y * 65536) ≡ ((a == x) && (b == y))
  network_16 x y hx hy =
      in_cidr-keeps (address a b c d) 0xffff0000 65536 small (omega arith) (and_16 _ small)
        (omega arith) (x * 16777216 + y * 65536) (omega arith)
      ∙ block_16 a b c d hb hc hd x y hy

  network_12 :
      in_cidr (address a b c d) 0xfff00000 0xac100000 ≡ ((a == 172) && (leb 16 b && ltb b 32))
  network_12 =
      in_cidr-keeps (address a b c d) 0xfff00000 1048576 small (omega arith) (and_12 _ small)
        (omega arith) 0xac100000 (omega arith)
      ∙ block_12 a b c d hb hc hd

  network_10 :
      in_cidr (address a b c d) 0xffc00000 0x64400000 ≡ ((a == 100) && (leb 64 b && ltb b 128))
  network_10 =
      in_cidr-keeps (address a b c d) 0xffc00000 4194304 small (omega arith) (and_10 _ small)
        (omega arith) 0x64400000 (omega arith)
      ∙ block_10 a b c d hb hc hd

  disallowed : is_disallowed_v4 (address a b c d) ≡ is_reserved a b
  unfolding is_disallowed_v4
  disallowed = either _ _ _ _ loopback (
      either _ _ _ _ (network_8 0 (omega arith)) (
        either _ _ _ _ (network_8 10 (omega arith)) (
          either _ _ _ _ network_12 (
            either _ _ _ _ (network_16 192 168 (omega arith) (omega arith))
              (either _ _ _ _ network_10 (network_16 169 254 (omega arith) (omega arith)))))))

  -- An address a.b.c.d of four octets, all below 256, is disallowed exactly if its first two octets
  -- lie in a reserved block.
  pub is_disallowed_v4-address : is_disallowed_v4 (ipv4_to_int a b c d) ≡ is_reserved a b
  is_disallowed_v4-address =
      let unsigned : ipv4_to_int a b c d ≡ address a b c d = omega arith in
      ap is_disallowed_v4 unsigned ∙ disallowed
