-- ===== src/LocalNetwork/Tests.antt =====
-- Networks and routes at concrete inputs.
use obscuravpn_client.Prelude.{
  ℕ, ◌-◌, ◌^◌, ◌≡◌, refl, true, not, ◌&&◌, ◌||◌, [], ◌∷◌, any, All, ◌==◌, arith,
}
use obscuravpn_client.NetworkConfig.{v4}
use obscuravpn_client.LocalNetwork.Bits.{shl, shr}
use obscuravpn_client.LocalNetwork.{
  IpNetworks, Documented, net, lan_v4, all_v4, subtract, subtract_loop, all_rounds, rounds, covers,
  halves, tunnel_routes,
}
use obscuravpn_client.LocalNetwork.Subtract.{covered, Fits, subtract-covered}
use obscuravpn_client.LocalNetwork.TunnelRoutes.{taken, in_v4, is_v4, tunnel_routes-v4}

-- A crate of so many bits that does what the documentation says.
abbrev crate : ℕ → IpNetworks
crate w = record {
  network = λ n. shl (w - n.prefix) (shr (w - n.prefix) n.ip);
  mask = λ n. shl (w - n.prefix) (2 ^ n.prefix - 1);
  contains = λ n a. shr (w - n.prefix) a == shr (w - n.prefix) n.ip;
  from_address = λ a. net a w;
}

crate-Documented : (w : ℕ) → Documented w (crate w)
crate-Documented w = record { clears = λ n. refl; agrees = λ n a. refl; alone = λ a. refl }

-- `subtract_single_v4` of the source's tests.
subtract_single_v4 :
    subtract 32 (crate 32) (all_v4 ∷ []) (net 0x0a000000 8)
    ≡ net 0x00000000 5
      ∷ net 0x08000000 7
      ∷ net 0x0b000000 8
      ∷ net 0x0c000000 6
      ∷ net 0x10000000 4
      ∷ net 0x20000000 3
      ∷ net 0x40000000 2
      ∷ net 0x80000000 1
      ∷ []
unfolding subtract subtract_loop all_rounds rounds covers halves shl shr
subtract_single_v4 = refl

subtract-covered_example :
    ((a : ℕ)
      → covered (crate 32) (subtract 32 (crate 32) lan_v4 (net 0x0a400001 32)) a
        ≡ (covered (crate 32) lan_v4 a && not ((crate 32).contains (net 0x0a400001 32) a)))
    × All (Fits 32) (subtract 32 (crate 32) lan_v4 (net 0x0a400001 32))
subtract-covered_example =
    subtract-covered 32 (crate 32) (crate-Documented 32) lan_v4 (net 0x0a400001 32)
      (
        omega arith,
        (
          omega arith,
          (omega arith, (omega arith, (omega arith, (omega arith, (omega arith, tt))))),
        ),
      )
      (omega arith)

-- 10.64.0.1 is the tunnel's server in a local network.
tunnel_routes-v4_example :
    taken
      (in_v4 (crate 32) 0x0a400001)
      (tunnel_routes (crate 32) (crate 128) (v4 0x0a400001 ∷ []) true)
    ≡ (not true
        || (not (covered (crate 32) lan_v4 0x0a400001)
            || any (is_v4 0x0a400001) (v4 0x0a400001 ∷ [])))
tunnel_routes-v4_example =
    tunnel_routes-v4 (crate 32) (crate 128) (crate-Documented 32) (v4 0x0a400001 ∷ []) true
      0x0a400001 (omega arith)
