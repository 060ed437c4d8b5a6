-- ===== src/LocalNetwork/Subtract.antt =====
-- `subtract` of rustlib/src/local_network.rs takes away the addresses of a network.
use obscuravpn_client.Prelude.{
  ℕ, zero, suc, ◌+◌, ◌-◌, ◌≤◌, ◌<◌, ◌≡◌, refl, ap, sym, ◌∙◌, inl, inr, Bool, true, false, not, ◌&&◌,
  ◌||◌, List, [], ◌∷◌, any, All, arith, Bool-cases,
}
use obscuravpn_client.NetworkConfig.{IpNetwork}
use obscuravpn_client.LocalNetwork.{
  IpNetworks, Documented, covers, halves, subtract_loop, rounds, all_rounds, subtract, subtract_all,
}
use obscuravpn_client.LocalNetwork.Cover.{
  covers-contains, common-covers, contains-halves, split_fits,
}

-- An address lies in one of the networks.
abbrev pub covered : IpNetworks → List IpNetwork → ℕ → Bool
covered crate networks a = any (λ n. crate.contains n a) networks

-- The prefix is no longer than an address.
abbrev pub Fits : ℕ → IpNetwork → Type 0
Fits w n = n.prefix ≤ w

rounds_some : (bits : ℕ) → 0 < rounds bits
unfolding rounds
rounds_some zero = omega arith
rounds_some (suc bits) = omega arith

all_rounds_some : (w : ℕ) (networks : List IpNetwork) → 0 < all_rounds w networks
unfolding all_rounds
all_rounds_some w [] = omega arith
all_rounds_some w (n ∷ rest) = omega (arith, all_rounds_some w rest)

rounds_split :
    (k bits fuel rest : ℕ)
    → bits ≡ suc k
    → rounds bits + rest ≤ suc fuel
    → rounds k + (rounds k + rest) ≤ fuel
unfolding rounds
rounds_split k zero fuel rest e h = absurd (omega (arith, e))
rounds_split k (suc bits) fuel rest e h =
    let same : bits ≡ k = omega (arith, e) in omega (arith, h, ap rounds same)

under_cut : (i r c : Bool) → c ≡ true → i ≡ (r && not c) → i ≡ not c
under_cut i r c h e = ground arith

outside_cut : (r c : Bool) → c ≡ false → true ≡ ((true || r) && not c)
outside_cut r c h = ground arith

-- The three ways of a round.
removed_case : (i n r c : Bool) → (n ≡ true → c ≡ true) → i ≡ (r && not c) → i ≡ ((n || r) && not c)
removed_case i true r c f e = under_cut i r c (f refl) e
removed_case i false r c f e = e

kept_case :
    (i n r c : Bool) → (n ≡ true → c ≡ false) → i ≡ (r && not c) → (n || i) ≡ ((n || r) && not c)
kept_case i true r c f e = outside_cut r c (f refl)
kept_case i false r c f e = e

split_case :
    (i n l h r c : Bool) → n ≡ (l || h) → i ≡ ((l || (h || r)) && not c) → i ≡ ((n || r) && not c)
split_case i n l h r c e f = ground arith

module _ (w : ℕ) (crate : IpNetworks) (doc : Documented w crate) where
  -- What is left has the addresses outside the cut, and its prefixes fit.
  LeftOver : IpNetwork → List IpNetwork → List IpNetwork → Type 0
  LeftOver cut networks left =
      ((a : ℕ) → covered crate left a ≡ (covered crate networks a && not (crate.contains cut a)))
      × All (Fits w) left

  apart :
      (cut n : IpNetwork) (a : ℕ)
      → cut.prefix ≤ w
      → n.prefix ≤ w
      → covers crate cut n ≡ false
      → covers crate n cut ≡ false
      → crate.contains n a ≡ true
      → crate.contains cut a ≡ false
  apart cut n a fits_cut fits_n e f hn = elim (Bool-cases (crate.contains cut a)) [
    | inl hc ↦ elim (common-covers w crate doc cut n a fits_cut fits_n hn hc) [
      | inl over ↦ absurd (ground (arith, sym over ∙ e))
      | inr over ↦ absurd (ground (arith, sym over ∙ f))
    ]
    | inr out ↦ out
  ]

  halves-Fits :
      (n : IpNetwork)
      → n.prefix < w
      → ((halves w crate n).0.prefix ≡ n.prefix + 1) × ((halves w crate n).1.prefix ≡ n.prefix + 1)
  unfolding halves
  halves-Fits n lt = (refl, refl)

  subtract_loop-LeftOver :
      (fuel : ℕ) (cut : IpNetwork) (networks : List IpNetwork)
      → all_rounds w networks ≤ fuel
      → cut.prefix ≤ w
      → All (Fits w) networks
      → LeftOver cut networks (subtract_loop fuel w crate cut networks)
  unfolding LeftOver subtract_loop all_rounds
  subtract_loop-LeftOver zero cut networks enough fits_cut fits =
      absurd (omega (arith, enough, all_rounds_some w networks))
  subtract_loop-LeftOver (suc fuel) cut [] enough fits_cut fits = ((λ a. refl), tt)
  subtract_loop-LeftOver (suc fuel) cut (n ∷ rest) enough fits_cut (fits_n, fits) =
      let some_rounds = rounds_some (w - n.prefix) in
      let (less, less_fits) =
        subtract_loop-LeftOver fuel cut rest (omega (arith, enough, some_rounds)) fits_cut fits in
      elim (Bool-cases (covers crate cut n)) [
        | inl under ↦ rw under (
          (λ a.
              removed_case _ (crate.contains n a) _ _
                (covers-contains w crate doc cut n a fits_n under) (less a)),
          less_fits,
        )
        | inr not_under ↦ elim (Bool-cases (covers crate n cut)) [
          | inl over ↦
              let lt = split_fits w crate doc cut n fits_cut fits_n over not_under in
              let (p, q) = halves-Fits n lt in
              let halved = (halves w crate n).0 ∷ (halves w crate n).1 ∷ rest in
              let shared =
                rounds_split (w - (n.prefix + 1)) (w - n.prefix) fuel (all_rounds w rest)
                  (omega (arith, lt)) enough in
              let enough_left : all_rounds w halved ≤ fuel = rw (p, q) shared in
              let (split, split_fit) =
                subtract_loop-LeftOver fuel cut halved enough_left fits_cut
                  (omega (arith, p, lt), (omega (arith, q, lt), fits)) in
              rw (not_under, over)
                (
                  (λ a. split_case _ _ _ _ _ _ (contains-halves w crate doc n a lt) (split a)),
                  split_fit,
                )
          | inr apart_too ↦
              rw (not_under, apart_too)
                (
                  (λ a.
                      kept_case _ (crate.contains n a) _ _
                        (apart cut n a fits_cut fits_n not_under apart_too) (less a)),
                  (fits_n, less_fits),
                )
        ]
      ]

-- Subtracting a network from others leaves exactly their addresses that are not in it, in networks
-- whose prefixes are no longer than an address; the loop ends.
pub subtract-covered :
    (w : ℕ) (crate : IpNetworks)
    → Documented w crate
    → (networks : List IpNetwork) (cut : IpNetwork) → All (Fits w) networks
    → cut.prefix ≤ w
    → ((a : ℕ)
        → covered crate (subtract w crate networks cut) a
          ≡ (covered crate networks a && not (crate.contains cut a)))
      × All (Fits w) (subtract w crate networks cut)
unfolding subtract LeftOver
subtract-covered w crate doc networks cut fits fits_cut =
    subtract_loop-LeftOver w crate doc (all_rounds w networks) cut networks (omega arith) fits_cut
      fits

both_out : (n c r : Bool) → ((n && not c) && not r) ≡ (n && not (c || r))
both_out true c r = ground arith
both_out false c r = refl

none_out : (n : Bool) → n ≡ (n && not false)
none_out n = ground arith

-- The same for several networks, one after the other.
pub subtract_all-covered :
    (w : ℕ) (crate : IpNetworks)
    → Documented w crate
    → (networks cuts : List IpNetwork) → All (Fits w) networks
    → All (Fits w) cuts
    → ((a : ℕ)
        → covered crate (subtract_all w crate networks cuts) a
          ≡ (covered crate networks a && not (covered crate cuts a)))
      × All (Fits w) (subtract_all w crate networks cuts)
unfolding subtract_all
subtract_all-covered w crate doc networks [] fits fits_cuts = ((λ a. none_out _), fits)
subtract_all-covered w crate doc networks (cut ∷ cuts) fits (fits_cut, fits_cuts) =
    let (once, once_fits) = subtract-covered w crate doc networks cut fits fits_cut in
    let (rest, rest_fits) =
      subtract_all-covered w crate doc (subtract w crate networks cut) cuts once_fits fits_cuts in
    (
      (λ a.
          rest a
          ∙ ap (λ b. b && not (covered crate cuts a)) (once a)
          ∙ both_out (covered crate networks a) (crate.contains cut a) (covered crate cuts a)),
      rest_fits,
    )
