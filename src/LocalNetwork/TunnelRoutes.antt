-- ===== src/LocalNetwork/TunnelRoutes.antt =====
-- The routes of rustlib/src/local_network.rs: which addresses are captured.
use obscuravpn_client.Prelude.{
  ℕ, zero, suc, ◌-◌, ◌/◌, ◌<◌, ◌≡◌, refl, ap, sym, ◌∙◌, Bool, true, false, not, ◌&&◌, ◌||◌, List,
  [], ◌∷◌, ◌++◌, map, any, All, leb, ◌==◌, arith,
}
use obscuravpn_client.NetworkConfig.{IpAddr, v4, v6, IpNetwork}
use obscuravpn_client.LocalNetwork.Bits.{shl, shr, shr-shl}
use obscuravpn_client.LocalNetwork.{
  IpNetworks, Documented, net, Route, all_v4, all_v6, lan_v4, lan_v6, route_v4, route_v6, dns_v4,
  dns_v6, subtract_all, tunnel_routes,
}
use obscuravpn_client.LocalNetwork.Subtract.{covered, Fits, subtract_all-covered}

-- Whether a route takes an address of its family, as the tests of the source read it.
abbrev pub in_v4 : IpNetworks → ℕ → IpAddr → ℕ → Bool
in_v4 crate a (v4 b) prefix = crate.contains (net b prefix) a
in_v4 crate a (v6 b) prefix = false

abbrev pub in_v6 : IpNetworks → ℕ → IpAddr → ℕ → Bool
in_v6 crate a (v4 b) prefix = false
in_v6 crate a (v6 b) prefix = crate.contains (net b prefix) a

abbrev pub taken : (IpAddr → ℕ → Bool) → List Route → Bool
taken is_in routes = any (λ r. is_in r.address r.prefix) routes

-- Whether an address is that of a server.
abbrev pub is_v4 : ℕ → IpAddr → Bool
is_v4 a (v4 b) = a == b
is_v4 a (v6 b) = false

abbrev pub is_v6 : ℕ → IpAddr → Bool
is_v6 a (v4 b) = false
is_v6 a (v6 b) = a == b

or_assoc : (a b c : Bool) → (a || (b || c)) ≡ ((a || b) || c)
or_assoc true b c = refl
or_assoc false b c = refl

de_morgan : (l d : Bool) → not (l && not d) ≡ (not l || d)
de_morgan true d = ground arith
de_morgan false d = refl

any-append :
    {A : Type 0} (p : A → Bool) (xs ys : List A) → any p (xs ++ ys) ≡ (any p xs || any p ys)
any-append p [] ys = refl
any-append p (x ∷ xs) ys = ap (λ b. p x || b) (any-append p xs ys) ∙ or_assoc (p x) _ _

or_over_false : (a b : Bool) → a ≡ b → (a || false) ≡ b
or_over_false a b e = ground arith

same_number : (a b : ℕ) → a ≡ b → (a == b) ≡ true
same_number a b h = ground arith

shr-small : (k a : ℕ) → a < shl k 1 → shr k a ≡ 0
unfolding shl shr
shr-small zero a h = omega (arith, h)
shr-small (suc k) a h = shr-small k (a / 2) (omega (arith, h))

fits_all : List IpNetwork → ℕ → Bool
fits_all [] w = true
fits_all (n ∷ rest) w = leb n.prefix w && fits_all rest w

fits_all_sound :
    (networks : List IpNetwork) (w : ℕ) → fits_all networks w ≡ true → All (Fits w) networks
unfolding fits_all
fits_all_sound [] w h = tt
fits_all_sound (n ∷ rest) w h = (ground arith, fits_all_sound rest w (ground arith))

lan_v4-Fits : All (Fits 32) lan_v4
unfolding fits_all
lan_v4-Fits = fits_all_sound lan_v4 32 refl

lan_v6-Fits : All (Fits 128) lan_v6
unfolding fits_all
lan_v6-Fits = fits_all_sound lan_v6 128 refl

module _ (w : ℕ) (crate : IpNetworks) (doc : Documented w crate) where
  -- A route made of a network takes the network's addresses.
  contains-network :
      (n : IpNetwork) (a : ℕ)
      → crate.contains (net (crate.network n) n.prefix) a ≡ crate.contains n a
  contains-network n a =
      doc.agrees (net (crate.network n) n.prefix) a
      ∙ ap (λ b. shr (w - n.prefix) a == b) (ap (shr (w - n.prefix)) (doc.clears n) ∙ shr-shl _ _)
      ∙ sym (doc.agrees n a)

  contains-from_address : (b a : ℕ) → crate.contains (crate.from_address b) a ≡ (a == b)
  unfolding shr
  contains-from_address b a =
      let none_left : w - w ≡ 0 = omega arith in
      ap (λ n. crate.contains n a) (doc.alone b)
      ∙ doc.agrees (net b w) a
      ∙ ap (λ k. shr k a == shr k b) none_left

  -- All addresses of the width.
  contains-all : (a : ℕ) → a < shl w 1 → crate.contains (net 0 0) a ≡ true
  contains-all a lt =
      let full : w - 0 ≡ w = omega arith in
      doc.agrees (net 0 0) a
      ∙ ap (λ k. shr k a == shr k 0) full
      ∙ same_number (shr w a) (shr w 0) (shr-small w a lt ∙ sym (shr-small w 0 (omega (arith, lt))))

  -- What stays when what stays of the local networks is taken away from everything.
  captured :
      (lan dns : List IpNetwork) (a : ℕ)
      → All (Fits w) lan
      → All (Fits w) dns
      → a < shl w 1
      → covered crate (subtract_all w crate (net 0 0 ∷ []) (subtract_all w crate lan dns)) a
        ≡ (not (covered crate lan a) || covered crate dns a)
  captured lan dns a fits_lan fits_dns lt =
      let (local, local_fits) = subtract_all-covered w crate doc lan dns fits_lan fits_dns in
      let (rest, rest_fits) =
        subtract_all-covered w crate doc (net 0 0 ∷ []) (subtract_all w crate lan dns)
          (omega arith, tt) local_fits in
      rest a
      ∙ ap (λ b. (b || false) && not (covered crate (subtract_all w crate lan dns) a))
          (contains-all a lt)
      ∙ ap not (local a)
      ∙ de_morgan (covered crate lan a) (covered crate dns a)

-- The routes that are read of one family, for networks and servers of both.
module _ (crate : IpNetworks) (a : ℕ) where
  taken-route_v4 :
      (w : ℕ)
      → Documented w crate
      → (networks : List IpNetwork)
      → taken (in_v4 crate a) (map (route_v4 crate) networks) ≡ covered crate networks a
  unfolding route_v4
  taken-route_v4 w doc [] = refl
  taken-route_v4 w doc (n ∷ rest) =
      rw (contains-network w crate doc n a)
        (ap (λ b. crate.contains n a || b) (taken-route_v4 w doc rest))

  taken-route_v6 :
      (w : ℕ)
      → Documented w crate
      → (networks : List IpNetwork)
      → taken (in_v6 crate a) (map (route_v6 crate) networks) ≡ covered crate networks a
  unfolding route_v6
  taken-route_v6 w doc [] = refl
  taken-route_v6 w doc (n ∷ rest) =
      rw (contains-network w crate doc n a)
        (ap (λ b. crate.contains n a || b) (taken-route_v6 w doc rest))

  taken-other_v6 :
      (crate6 : IpNetworks) (networks : List IpNetwork)
      → taken (in_v4 crate a) (map (route_v6 crate6) networks) ≡ false
  unfolding route_v6
  taken-other_v6 crate6 [] = refl
  taken-other_v6 crate6 (n ∷ rest) = taken-other_v6 crate6 rest

  taken-other_v4 :
      (crate4 : IpNetworks) (networks : List IpNetwork)
      → taken (in_v6 crate a) (map (route_v4 crate4) networks) ≡ false
  unfolding route_v4
  taken-other_v4 crate4 [] = refl
  taken-other_v4 crate4 (n ∷ rest) = taken-other_v4 crate4 rest

  taken-both_v4 :
      (w : ℕ)
      → Documented w crate
      → (crate6 : IpNetworks) (of_v4 of_v6 : List IpNetwork)
      → taken (in_v4 crate a) (map (route_v4 crate) of_v4 ++ map (route_v6 crate6) of_v6)
        ≡ covered crate of_v4 a
  taken-both_v4 w doc crate6 of_v4 of_v6 =
      any-append (λ r. in_v4 crate a r.address r.prefix) (map (route_v4 crate) of_v4)
        (map (route_v6 crate6) of_v6)
      ∙ ap (λ b. taken (in_v4 crate a) (map (route_v4 crate) of_v4) || b)
          (taken-other_v6 crate6 of_v6)
      ∙ or_over_false _ _ (taken-route_v4 w doc of_v4)

  taken-both_v6 :
      (w : ℕ)
      → Documented w crate
      → (crate4 : IpNetworks) (of_v4 of_v6 : List IpNetwork)
      → taken (in_v6 crate a) (map (route_v4 crate4) of_v4 ++ map (route_v6 crate) of_v6)
        ≡ covered crate of_v6 a
  taken-both_v6 w doc crate4 of_v4 of_v6 =
      any-append (λ r. in_v6 crate a r.address r.prefix) (map (route_v4 crate4) of_v4)
        (map (route_v6 crate) of_v6)
      ∙ ap (λ b. b || taken (in_v6 crate a) (map (route_v6 crate) of_v6))
          (taken-other_v4 crate4 of_v4)
      ∙ taken-route_v6 w doc of_v6

  covered-dns_v4 :
      (w : ℕ)
      → Documented w crate
      → (dns : List IpAddr)
      → (covered crate (dns_v4 crate dns) a ≡ any (is_v4 a) dns) × All (Fits w) (dns_v4 crate dns)
  unfolding dns_v4
  covered-dns_v4 w doc [] = (refl, tt)
  covered-dns_v4 w doc (v4 b ∷ rest) =
      let (same, fits) = covered-dns_v4 w doc rest in
      (
        rw (contains-from_address w crate doc b a) (ap (λ c. a == b || c) same),
        (rw (doc.alone b) omega arith, fits),
      )
  covered-dns_v4 w doc (v6 b ∷ rest) = covered-dns_v4 w doc rest

  covered-dns_v6 :
      (w : ℕ)
      → Documented w crate
      → (dns : List IpAddr)
      → (covered crate (dns_v6 crate dns) a ≡ any (is_v6 a) dns) × All (Fits w) (dns_v6 crate dns)
  unfolding dns_v6
  covered-dns_v6 w doc [] = (refl, tt)
  covered-dns_v6 w doc (v4 b ∷ rest) = covered-dns_v6 w doc rest
  covered-dns_v6 w doc (v6 b ∷ rest) =
      let (same, fits) = covered-dns_v6 w doc rest in
      (
        rw (contains-from_address w crate doc b a) (ap (λ c. a == b || c) same),
        (rw (doc.alone b) omega arith, fits),
      )

-- With access to the local network, an IPv4 address goes into the tunnel unless it is one of the
-- local networks' and not that of a DNS server of the tunnel; without, every IPv4 address does.
pub tunnel_routes-v4 :
    (crate4 crate6 : IpNetworks)
    → Documented 32 crate4
    → (dns : List IpAddr) (local : Bool) (a : ℕ) → a < 4294967296
    → taken (in_v4 crate4 a) (tunnel_routes crate4 crate6 dns local)
      ≡ (not local || (not (covered crate4 lan_v4 a) || any (is_v4 a) dns))
unfolding tunnel_routes shl route_v4 route_v6
tunnel_routes-v4 crate4 crate6 doc dns true a lt =
    let (servers, fits) = covered-dns_v4 crate4 a 32 doc dns in
    taken-both_v4 crate4 a 32 doc crate6 _ _
    ∙ captured 32 crate4 doc lan_v4 (dns_v4 crate4 dns) a lan_v4-Fits fits lt
    ∙ ap (λ b. not (covered crate4 lan_v4 a) || b) servers
tunnel_routes-v4 crate4 crate6 doc dns false a lt =
    ap (λ b. b || false) (contains-network 32 crate4 doc all_v4 a ∙ contains-all 32 crate4 doc a lt)

-- The same for an IPv6 address.
pub tunnel_routes-v6 :
    (crate4 crate6 : IpNetworks)
    → Documented 128 crate6
    → (dns : List IpAddr) (local : Bool) (a : ℕ) → a < 340282366920938463463374607431768211456
    → taken (in_v6 crate6 a) (tunnel_routes crate4 crate6 dns local)
      ≡ (not local || (not (covered crate6 lan_v6 a) || any (is_v6 a) dns))
unfolding tunnel_routes shl route_v4 route_v6
tunnel_routes-v6 crate4 crate6 doc dns true a lt =
    let (servers, fits) = covered-dns_v6 crate6 a 128 doc dns in
    taken-both_v6 crate6 a 128 doc crate4
      (subtract_all 32 crate4 (all_v4 ∷ []) (subtract_all 32 crate4 lan_v4 (dns_v4 crate4 dns))) _
    ∙ captured 128 crate6 doc lan_v6 (dns_v6 crate6 dns) a lan_v6-Fits fits lt
    ∙ ap (λ b. not (covered crate6 lan_v6 a) || b) servers
tunnel_routes-v6 crate4 crate6 doc dns false a lt =
    ap (λ b. b || false)
      (contains-network 128 crate6 doc all_v6 a ∙ contains-all 128 crate6 doc a lt)
