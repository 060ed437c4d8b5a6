-- ===== src/LocalNetwork.antt =====
-- rustlib/src/local_network.rs: the networks that stay outside the tunnel, and the routes into it.
-- The two implementations of the trait `Network` differ in the width of an address only, which is
-- the argument w. The crate `ipnetwork` is the parameter `IpNetworks`.
pub mod Bits
mod Cover
mod Subtract
mod TunnelRoutes
mod Tests
use Prim.Native.Nat.{bit_or}
use obscuravpn_client.Prelude.{
  ℕ, zero, suc, ◌+◌, ◌-◌, ◌*◌, ◌≡◌, Bool, true, false, ◌&&◌, List, [], ◌∷◌, ◌++◌, map, leb, ◌==◌,
  if◌then◌else◌,
}
use obscuravpn_client.NetworkConfig.{IpAddr, v4, v6, IpNetwork}
use obscuravpn_client.LocalNetwork.Bits.{shl, shr}

-- `network()`, `mask()`, `contains()` and `From<Ipv4Addr>` of the crate.
pub record IpNetworks : Type 0 where
  pub network : IpNetwork → ℕ
  pub mask : IpNetwork → ℕ
  pub contains : IpNetwork → ℕ → Bool
  pub from_address : ℕ → IpNetwork

-- The documentation of the crate: a network has the addresses that agree with it in the bits of
-- its prefix; `network` clears the other bits; an address alone is a network of full length.
pub record Documented (w : ℕ) (crate : IpNetworks) : Type 0 where
  pub clears : (n : IpNetwork) → crate.network n ≡ shl (w - n.prefix) (shr (w - n.prefix) n.ip)
  pub agrees :
      (n : IpNetwork) (a : ℕ)
      → crate.contains n a ≡ (shr (w - n.prefix) a == shr (w - n.prefix) n.ip)
  pub alone : (a : ℕ) → crate.from_address a ≡ record { ip = a; prefix = w }

abbrev pub net : ℕ → ℕ → IpNetwork
net ip prefix = record { ip = ip; prefix = prefix }

abbrev ipv4 : ℕ → ℕ → ℕ → ℕ → ℕ
ipv4 a b c d = a * 16777216 + b * 65536 + c * 256 + d

-- An IPv6 address of which only the first 16 bits are set.
abbrev ipv6_first : ℕ → ℕ
ipv6_first a = shl 112 a

abbrev pub all_v4 : IpNetwork
all_v4 = net 0 0

abbrev pub all_v6 : IpNetwork
all_v6 = net 0 0

abbrev pub lan_v4 : List IpNetwork
lan_v4 =
    net (ipv4 10 0 0 0) 8
    ∷ net (ipv4 172 16 0 0) 12
    ∷ net (ipv4 192 168 0 0) 16
    ∷ net (ipv4 169 254 0 0) 16
    ∷ net (ipv4 255 255 255 255) 32
    ∷ net (ipv4 224 0 0 0) 24
    ∷ net (ipv4 239 0 0 0) 8
    ∷ []

abbrev pub lan_v6 : List IpNetwork
lan_v6 =
    net (ipv6_first 0xfe80) 10
    ∷ net (ipv6_first 0xfc00) 7
    ∷ net (ipv6_first 0xff01) 16
    ∷ net (ipv6_first 0xff02) 16
    ∷ net (ipv6_first 0xff03) 16
    ∷ net (ipv6_first 0xff04) 16
    ∷ net (ipv6_first 0xff05) 16
    ∷ []

pub record Route : Type 0 where
  pub address : IpAddr
  pub prefix : ℕ

-- `covers` of the trait.
pub covers : IpNetworks → IpNetwork → IpNetwork → Bool
covers crate self other = leb self.prefix other.prefix && crate.contains self (crate.network other)

-- `halves` of the trait.
pub halves : ℕ → IpNetworks → IpNetwork → IpNetwork × IpNetwork
halves w crate self =
    let prefix = self.prefix + 1 in
    let base = crate.network self in
    let high_bit = shl (w - prefix) 1 in (net base prefix, net (bit_or base high_bit) prefix)

-- The loop of `subtract` from the index i on: the networks before i stay. The first argument bounds
-- the rounds, and nothing is left when it is too small.
pub subtract_loop : ℕ → ℕ → IpNetworks → IpNetwork → List IpNetwork → List IpNetwork
subtract_loop zero w crate cut networks = []
subtract_loop (suc fuel) w crate cut [] = []
subtract_loop (suc fuel) w crate cut (net ∷ rest) =
    let removed = subtract_loop fuel w crate cut rest in
    let (low, high) = halves w crate net in
    let split = subtract_loop fuel w crate cut (low ∷ high ∷ rest) in
    if covers crate cut net then removed else if covers crate net cut then split else net ∷ removed

-- The rounds for a network with so many bits after its prefix.
pub rounds : ℕ → ℕ
rounds zero = 1
rounds (suc bits) = let half = rounds bits in suc (half + half)

pub all_rounds : ℕ → List IpNetwork → ℕ
all_rounds w [] = 1
all_rounds w (n ∷ rest) = rounds (w - n.prefix) + all_rounds w rest

pub subtract : ℕ → IpNetworks → List IpNetwork → IpNetwork → List IpNetwork
subtract w crate networks cut = subtract_loop (all_rounds w networks) w crate cut networks

-- `cuts.fold(networks, subtract)`.
pub subtract_all : ℕ → IpNetworks → List IpNetwork → List IpNetwork → List IpNetwork
subtract_all w crate networks [] = networks
subtract_all w crate networks (cut ∷ cuts) =
    subtract_all w crate (subtract w crate networks cut) cuts

pub route_v4 : IpNetworks → IpNetwork → Route
route_v4 crate n = record { address = v4 (crate.network n); prefix = n.prefix }

pub route_v6 : IpNetworks → IpNetwork → Route
route_v6 crate n = record { address = v6 (crate.network n); prefix = n.prefix }

-- The servers of each family, as networks.
pub dns_v4 : IpNetworks → List IpAddr → List IpNetwork
dns_v4 crate [] = []
dns_v4 crate (v4 a ∷ rest) = crate.from_address a ∷ dns_v4 crate rest
dns_v4 crate (v6 a ∷ rest) = dns_v4 crate rest

pub dns_v6 : IpNetworks → List IpAddr → List IpNetwork
dns_v6 crate [] = []
dns_v6 crate (v4 a ∷ rest) = dns_v6 crate rest
dns_v6 crate (v6 a ∷ rest) = crate.from_address a ∷ dns_v6 crate rest

-- The crate's operations for each family come first.
pub tunnel_routes : IpNetworks → IpNetworks → List IpAddr → Bool → List Route
tunnel_routes crate4 crate6 dns_servers allow_local_network_access =
    let local_v4 = subtract_all 32 crate4 lan_v4 (dns_v4 crate4 dns_servers) in
    let local_v6 = subtract_all 128 crate6 lan_v6 (dns_v6 crate6 dns_servers) in
    let v4_routes = map (route_v4 crate4) (subtract_all 32 crate4 (all_v4 ∷ []) local_v4) in
    let v6_routes = map (route_v6 crate6) (subtract_all 128 crate6 (all_v6 ∷ []) local_v6) in
    if allow_local_network_access
    then v4_routes ++ v6_routes
    else route_v4 crate4 all_v4 ∷ route_v6 crate6 all_v6 ∷ []
