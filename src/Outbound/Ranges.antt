-- ===== src/Outbound/Ranges.antt =====
-- `is_public_ip` of executor.rs against the IPv4 blocks that have a special purpose.
use qdrust.Base.{
  ℕ, ◌+◌, ◌*◌, ◌<◌, ◌==◌, leb, Bool, false, not, ◌&&◌, ◌||◌, any, List, [], ◌∷◌, ◌≡◌, ◌∙◌, arith,
}
use qdrust.Outbound.{v4, is_public_ip}

-- The 32-bit number of an IPv4 address.
abbrev pub address : ℕ → ℕ → ℕ → ℕ → ℕ
address a b c d = 16777216 * a + (65536 * b + (256 * c + d))

-- The address lies between the two, both included.
unfoldable pub lies_in : ℕ → ℕ × ℕ → Bool
lies_in n (low, high) = leb low n && leb n high

-- The blocks that the registry of IPv4 special-purpose addresses (RFC 6890) calls not globally
-- reachable, and multicast: 0.0.0.0/8, 10.0.0.0/8, 100.64.0.0/10, 127.0.0.0/8, 169.254.0.0/16,
-- 172.16.0.0/12, 192.0.0.0/24, 192.0.2.0/24, 192.168.0.0/16, 198.18.0.0/15, 198.51.100.0/24,
-- 203.0.113.0/24, 224.0.0.0/4 and 240.0.0.0/4.
unfoldable pub special_blocks : List (ℕ × ℕ)
special_blocks =
    (address 0 0 0 0, address 0 255 255 255)
    ∷ (address 10 0 0 0, address 10 255 255 255)
    ∷ (address 100 64 0 0, address 100 127 255 255)
    ∷ (address 127 0 0 0, address 127 255 255 255)
    ∷ (address 169 254 0 0, address 169 254 255 255)
    ∷ (address 172 16 0 0, address 172 31 255 255)
    ∷ (address 192 0 0 0, address 192 0 0 255)
    ∷ (address 192 0 2 0, address 192 0 2 255)
    ∷ (address 192 168 0 0, address 192 168 255 255)
    ∷ (address 198 18 0 0, address 198 19 255 255)
    ∷ (address 198 51 100 0, address 198 51 100 255)
    ∷ (address 203 0 113 0, address 203 0 113 255)
    ∷ (address 224 0 0 0, address 239 255 255 255)
    ∷ (address 240 0 0 0, address 255 255 255 255)
    ∷ []

-- Those that the guard lets through: the shared addresses of 100.64.0.0/10 (which hold the metadata
-- address 100.100.100.200), the protocol assignments of 192.0.0.0/24, the benchmarks of
-- 198.18.0.0/15, and 240.0.0.0/4 up to the address before 255.255.255.255.
unfoldable pub open_blocks : List (ℕ × ℕ)
open_blocks =
    (address 100 64 0 0, address 100 127 255 255)
    ∷ (address 192 0 0 0, address 192 0 0 255)
    ∷ (address 198 18 0 0, address 198 19 255 255)
    ∷ (address 240 0 0 0, address 255 255 255 254)
    ∷ []

-- The blocks that the guard closes.
closed_blocks : List (ℕ × ℕ)
closed_blocks =
    (address 0 0 0 0, address 0 255 255 255)
    ∷ (address 10 0 0 0, address 10 255 255 255)
    ∷ (address 127 0 0 0, address 127 255 255 255)
    ∷ (address 169 254 0 0, address 169 254 255 255)
    ∷ (address 172 16 0 0, address 172 31 255 255)
    ∷ (address 192 0 2 0, address 192 0 2 255)
    ∷ (address 192 168 0 0, address 192 168 255 255)
    ∷ (address 198 51 100 0, address 198 51 100 255)
    ∷ (address 203 0 113 0, address 203 0 113 255)
    ∷ (address 224 0 0 0, address 239 255 255 255)
    ∷ (address 255 255 255 255, address 255 255 255 255)
    ∷ []

closed-open :
    (n : ℕ)
    → n < 4294967296
    → not (any (lies_in n) closed_blocks)
      ≡ (not (any (lies_in n) special_blocks) || any (lies_in n) open_blocks)
unfolding lies_in closed_blocks special_blocks open_blocks
closed-open n h = ground arith

rearrange :
    (ten loopback link private172 private192 all_ones doc1 doc2 doc3 zero b0 c0 d0 multicast : Bool)
    → not (
        (ten || private172 || private192)
        || loopback
        || link
        || all_ones
        || (doc1 || doc2 || doc3)
        || (zero && b0 && c0 && d0)
        || multicast
        || zero)
      ≡ not (
          zero
          || (ten
              || (loopback
                  || (link
                      || (private172
                          || (doc1
                              || (private192
                                  || (doc2 || (doc3 || (multicast || (all_ones || false)))))))))))
rearrange ten loopback link private172 private192 all_ones doc1 doc2 doc3 zero b0 c0 d0 multicast =
    ground arith

module _ (a b c d : ℕ) (la : a < 256) (lb : b < 256) (lc : c < 256) (ld : d < 256) where
  block8 : (p : ℕ) → lies_in (address a b c d) (address p 0 0 0, address p 255 255 255) ≡ (a == p)
  unfolding lies_in
  block8 p = ground arith

  block24 :
      (p q r : ℕ)
      → q < 256
      → r < 256
      → lies_in (address a b c d) (address p q r 0, address p q r 255)
        ≡ (a == p && b == q && c == r)
  unfolding lies_in
  block24 p q r h k = ground arith

  block16 :
      (p q r : ℕ)
      → q < 256
      → r < 256
      → lies_in (address a b c d) (address p q 0 0, address p r 255 255)
        ≡ (a == p && (leb q b && leb b r))
  unfolding lies_in
  block16 p q r h k = ground arith

  block16_one :
      (p q : ℕ)
      → q < 256
      → lies_in (address a b c d) (address p q 0 0, address p q 255 255) ≡ (a == p && b == q)
  unfolding lies_in
  block16_one p q h = ground arith

  block4 :
      (p q : ℕ)
      → lies_in (address a b c d) (address p 0 0 0, address q 255 255 255) ≡ (leb p a && leb a q)
  unfolding lies_in
  block4 p q = ground arith

  block32 :
      lies_in (address a b c d) (address 255 255 255 255, address 255 255 255 255)
      ≡ (a == 255 && b == 255 && c == 255 && d == 255)
  unfolding lies_in
  block32 = ground arith

  is_public_ip-closed :
      is_public_ip (v4 a b c d) ≡ not (any (lies_in (address a b c d)) closed_blocks)
  unfolding is_public_ip closed_blocks
  is_public_ip-closed =
      rw
        (
          block8 0,
          block8 10,
          block8 127,
          block16_one 169 254 (omega arith),
          block16 172 16 31 (omega arith) (omega arith),
          block24 192 0 2 (omega arith) (omega arith),
          block16_one 192 168 (omega arith),
          block24 198 51 100 (omega arith) (omega arith),
          block24 203 0 113 (omega arith) (omega arith),
          block4 224 239,
          block32,
        )
        (rearrange (a == 10) (a == 127) (a == 169 && b == 254) (a == 172 && (leb 16 b && leb b 31))
          (a == 192 && b == 168) (a == 255 && b == 255 && c == 255 && d == 255)
          (a == 192 && b == 0 && c == 2) (a == 198 && b == 51 && c == 100)
          (a == 203 && b == 0 && c == 113) (a == 0) (b == 0) (c == 0) (d == 0)
          (leb 224 a && leb a 239))

  -- An IPv4 address with four octets is public for the guard exactly when it lies in none of the
  -- special-purpose blocks, or in one of the four of them that the guard lets through.
  pub is_public_ip-blocks : is_public_ip (v4 a b c d) ≡ (
      not (any (lies_in (address a b c d)) special_blocks)
      || any (lies_in (address a b c d)) open_blocks)
  is_public_ip-blocks = is_public_ip-closed ∙ closed-open (address a b c d) (omega arith)
