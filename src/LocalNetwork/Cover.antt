-- ===== src/LocalNetwork/Cover.antt =====
-- Which networks of rustlib/src/local_network.rs lie in each other.
use Prim.Native.Nat.{bit_or}
use obscuravpn_client.Prelude.{
  ℕ, suc, ◌+◌, ◌-◌, ◌*◌, ◌/◌, ◌≤◌, ◌<◌, ◌≡◌, refl, ap, sym, ◌∙◌, ◌⊎◌, inl, inr, Bool, true, false,
  ◌&&◌, ◌||◌, leb, ◌==◌, arith, Bool-cases,
}
use obscuravpn_client.NetworkConfig.{IpNetwork}
use obscuravpn_client.LocalNetwork.Bits.{shl, shr, shr-shr, shr-shl, shr-suc, shl-suc, bit_or-shl}
use obscuravpn_client.LocalNetwork.{IpNetworks, Documented, net, covers, halves}

equal : (a b : ℕ) → (a == b) ≡ true → a ≡ b
equal a b h = ground arith

equal_back : (a b : ℕ) → a ≡ b → (a == b) ≡ true
equal_back a b h = ground arith

and_left : (a b : Bool) → (a && b) ≡ true → a ≡ true
and_left a b h = ground arith

and_right : (a b : Bool) → (a && b) ≡ true → b ≡ true
and_right a b h = ground arith

and_both : (a b : Bool) → a ≡ true → b ≡ true → (a && b) ≡ true
and_both a b p q = ground arith

above : (a b : ℕ) → a ≤ b → leb a b ≡ true
above a b h = ground arith

below : (a b : ℕ) → leb a b ≡ true → a ≤ b
below a b h = ground arith

module _ (w : ℕ) (crate : IpNetworks) (doc : Documented w crate) where
  contains-agree :
      (n : IpNetwork) (a : ℕ)
      → crate.contains n a ≡ true
      → shr (w - n.prefix) a ≡ shr (w - n.prefix) n.ip
  contains-agree n a h = equal _ _ (sym (doc.agrees n a) ∙ h)

  agree-contains :
      (n : IpNetwork) (a : ℕ)
      → shr (w - n.prefix) a ≡ shr (w - n.prefix) n.ip
      → crate.contains n a ≡ true
  agree-contains n a h = doc.agrees n a ∙ equal_back _ _ h

  -- The first bits of the cleared address are those of the address.
  shr-network : (n : IpNetwork) → shr (w - n.prefix) (crate.network n) ≡ shr (w - n.prefix) n.ip
  shr-network n = ap (shr (w - n.prefix)) (doc.clears n) ∙ shr-shl _ _

  -- Two addresses of a network agree in the bits of a shorter prefix.
  shorter :
      (p : ℕ) (n : IpNetwork) (a : ℕ)
      → p ≤ n.prefix
      → n.prefix ≤ w
      → crate.contains n a ≡ true
      → shr (w - p) a ≡ shr (w - p) (crate.network n)
  shorter p n a le fits h =
      let h_n = w - n.prefix in
      let d = n.prefix - p in
      let sum : w - p ≡ d + h_n = omega (arith, le, fits) in
      shr-shr d h_n (w - p) a sum
      ∙ ap (shr d) (contains-agree n a h ∙ sym (shr-network n))
      ∙ sym (shr-shr d h_n (w - p) (crate.network n) sum)

  -- What lies in a covered network lies in the one that covers it.
  pub covers-contains :
      (c n : IpNetwork) (a : ℕ)
      → n.prefix ≤ w
      → covers crate c n ≡ true
      → crate.contains n a ≡ true
      → crate.contains c a ≡ true
  unfolding covers
  covers-contains c n a fits over h =
      let le = below c.prefix n.prefix (and_left _ _ over) in
      agree-contains c a
        (shorter c.prefix n a le fits h ∙ contains-agree c (crate.network n) (and_right _ _ over))

  contains-covers :
      (c n : IpNetwork) (a : ℕ)
      → n.prefix ≤ w
      → c.prefix ≤ n.prefix
      → crate.contains n a ≡ true
      → crate.contains c a ≡ true
      → covers crate c n ≡ true
  unfolding covers
  contains-covers c n a fits le hn hc =
      and_both (leb c.prefix n.prefix) (crate.contains c (crate.network n)) (above _ _ le) (
        agree-contains c (crate.network n)
          (sym (shorter c.prefix n a le fits hn) ∙ contains-agree c a hc))

  contains-network : (n : IpNetwork) → crate.contains n (crate.network n) ≡ true
  contains-network n = agree-contains n (crate.network n) (shr-network n)

  -- Only a network with a bit to spare is split.
  pub split_fits :
      (c n : IpNetwork)
      → c.prefix ≤ w
      → n.prefix ≤ w
      → covers crate n c ≡ true
      → covers crate c n ≡ false
      → n.prefix < w
  unfolding covers
  split_fits c n fits_c fits_n over not_under = elim (Bool-cases (leb c.prefix n.prefix)) [
    | inl le ↦
        let back : covers crate c n ≡ true =
          contains-covers c n (crate.network c) fits_n (below _ _ le) (and_right _ _ over)
            (contains-network c) in
        absurd (ground (arith, sym back ∙ not_under))
    | inr gt ↦ ground (arith, fits_c)
  ]

  -- Networks with a common address cover each other.
  pub common-covers :
      (c n : IpNetwork) (a : ℕ)
      → c.prefix ≤ w
      → n.prefix ≤ w
      → crate.contains n a ≡ true
      → crate.contains c a ≡ true
      → (covers crate c n ≡ true) ⊎ (covers crate n c ≡ true)
  common-covers c n a fits_c fits_n hn hc = elim (Bool-cases (leb c.prefix n.prefix)) [
    | inl le ↦ inl (contains-covers c n a fits_n (below _ _ le) hn hc)
    | inr gt ↦ inr (contains-covers n c a fits_c (ground arith) hc hn)
  ]

  -- The bits of the two halves, one bit further.
  shr-low :
      (k : ℕ) (n : IpNetwork)
      → w - n.prefix ≡ suc k
      → shr k (crate.network n) ≡ shr (suc k) n.ip * 2
  shr-low k n e =
      ap (shr k) (doc.clears n ∙ ap (λ h. shl h (shr h n.ip)) e ∙ shl-suc k _) ∙ shr-shl k _

  shr-high :
      (k : ℕ) (n : IpNetwork)
      → w - n.prefix ≡ suc k
      → shr k (bit_or (crate.network n) (shl k 1)) ≡ shr (suc k) n.ip * 2 + 1
  shr-high k n e =
      ap (λ b. shr k (bit_or b (shl k 1))) (doc.clears n ∙ ap (λ h. shl h (shr h n.ip)) e)
      ∙ ap (shr k) (bit_or-shl k _)
      ∙ shr-shl k _

  agrees_at :
      (k : ℕ) (n : IpNetwork) (a : ℕ)
      → w - n.prefix ≡ k
      → crate.contains n a ≡ (shr k a == shr k n.ip)
  agrees_at k n a e = doc.agrees n a ∙ ap (λ h. shr h a == shr h n.ip) e

  halved : (x q : ℕ) → (x / 2 == q) ≡ ((x == q * 2) || (x == q * 2 + 1))
  halved x q = ground arith

  halves_at :
      (k : ℕ) (n : IpNetwork) (a : ℕ)
      → w - n.prefix ≡ suc k
      → w - (n.prefix + 1) ≡ k
      → crate.contains n a ≡ (
          crate.contains (net (crate.network n) (n.prefix + 1)) a
          || crate.contains
              (net (bit_or (crate.network n) (shl (w - (n.prefix + 1)) 1)) (n.prefix + 1))
              a)
  halves_at k n a e f =
      agrees_at (suc k) n a e
      ∙ ap (λ b. b == shr (suc k) n.ip) (shr-suc k a)
      ∙ halved (shr k a) (shr (suc k) n.ip)
      ∙ sym (
          ap (λ c. (crate.contains (net (crate.network n) (n.prefix + 1)) a || c))
            (agrees_at k
                (net (bit_or (crate.network n) (shl (w - (n.prefix + 1)) 1)) (n.prefix + 1)) a f
              ∙ ap (λ b. shr k a == b)
                  (ap (λ j. shr k (bit_or (crate.network n) (shl j 1))) f ∙ shr-high k n e))
          ∙ ap (λ b. (b || (shr k a == shr (suc k) n.ip * 2 + 1)))
              (agrees_at k (net (crate.network n) (n.prefix + 1)) a f
                ∙ ap (λ b. shr k a == b) (shr-low k n e)))

  -- An address lies in a network when it lies in one of its halves.
  pub contains-halves :
      (n : IpNetwork) (a : ℕ)
      → n.prefix < w
      → crate.contains n a
        ≡ (crate.contains (halves w crate n).0 a || crate.contains (halves w crate n).1 a)
  unfolding halves
  contains-halves n a lt = halves_at (w - (n.prefix + 1)) n a (omega (arith, lt)) refl
