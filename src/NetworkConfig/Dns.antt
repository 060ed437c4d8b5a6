-- ===== src/NetworkConfig/Dns.antt =====
-- rustlib/src/network_config.rs: the DNS servers that filter contents, and complete tunnels.
use obscuravpn_client.Prelude.{
  ℕ, ◌/◌, ◌%◌, ◌<◌, ◌≡◌, ◌≢◌, refl, sym, Bool-cases, ltb, ◌&&◌, Bool, true, false, not, none, some,
  [], ◌∷◌, ◌==◌, head?, arith, String, str_eq, ◌⊎◌, inl, inr,
}
use obscuravpn_client.NetworkConfig.{
  DnsContentBlock, bitset, mullvad_dns_ip, ipv4_of, OsSettings, v4, TunnelNetworkConfig,
  ObfuscatedTunnelConfig, ok, new_os_network_config, new_tunnel_network_config,
  mullvad_exit_provider_name,
}

-- Whether bit k of n is set.
pub has_bit : ℕ → ℕ → Bool
has_bit n k = (n / k) % 2 == 1

-- A test of both Booleans.
all_bool : (Bool → Bool) → Bool
all_bool p = p true && p false

all_bool_sound : (p : Bool → Bool) (b : Bool) → all_bool p ≡ true → p b ≡ true
unfolding all_bool
all_bool_sound p true h = ground arith
all_bool_sound p false h = ground arith

same : Bool → Bool → Bool
same true b = b
same false b = not b

same_eq : (a b : Bool) → same a b ≡ true → a ≡ b
unfolding same
same_eq true b h = sym h
same_eq false b h = ground arith

block : (a b c d e f : Bool) → DnsContentBlock
block a b c d e f = record {
  ad = a;
  tracker = b;
  malware = c;
  adult = d;
  gambling = e;
  social_media = f;
}

low_check : (a b c : Bool) → ℕ → Bool
low_check a b c n = same (has_bit n 1) a && same (has_bit n 2) b && same (has_bit n 4) c

high_check : (d e f : Bool) → ℕ → Bool
high_check d e f n = same (has_bit n 8) d && same (has_bit n 16) e && same (has_bit n 32) f

check : (a b c d e f : Bool) → Bool
check a b c d e f =
    let n = bitset (block a b c d e f) in (low_check a b c n && high_check d e f n) && ltb n 64

check_all :
    all_bool (λ a.
      all_bool
        (λ b. all_bool (λ c. all_bool (λ d. all_bool (λ e. all_bool (λ f. check a b c d e f))))))
    ≡ true
unfolding all_bool check low_check high_check same bitset block has_bit
check_all = refl

checked : (a b c d e f : Bool) → check a b c d e f ≡ true
checked a b c d e f = all_bool_sound _ f (
    all_bool_sound _ e
      (all_bool_sound _ d (all_bool_sound _ c (all_bool_sound _ b (all_bool_sound _ a check_all)))))

-- Each flag is a bit of the number.
abbrev pub HasFlags : ℕ → DnsContentBlock → Type 0
HasFlags n b =
    (has_bit n 1 ≡ b.ad)
    × (has_bit n 2 ≡ b.tracker)
    × (has_bit n 4 ≡ b.malware)
    × (has_bit n 8 ≡ b.adult)
    × (has_bit n 16 ≡ b.gambling)
    × (has_bit n 32 ≡ b.social_media)

flag_bits : (b : DnsContentBlock) → (bitset b < 64) × HasFlags (bitset b) b
unfolding check low_check high_check block
flag_bits b =
    let h = checked b.ad b.tracker b.malware b.adult b.gambling b.social_media in
    let n = bitset b in
    ground (
      arith,
      h,
      same_eq (has_bit n 1) b.ad,
      same_eq (has_bit n 2) b.tracker,
      same_eq (has_bit n 4) b.malware,
      same_eq (has_bit n 8) b.adult,
      same_eq (has_bit n 16) b.gambling,
      same_eq (has_bit n 32) b.social_media,
    )

-- Every selection of content blocks has a server of its own in 100.64.0.1 to 100.64.0.63: each
-- flag is a bit of the last byte. No server is named where the byte would be 0.
pub mullvad_dns_ip-flags :
    (b : DnsContentBlock)
    → ((mullvad_dns_ip b ≡ none) × (bitset b ≡ 0))
      ⊎ ((n : ℕ) × (mullvad_dns_ip b ≡ some (ipv4_of 100 64 0 n))
          × (0 < n)
          × (n < 64)
          × HasFlags n b)
unfolding mullvad_dns_ip
mullvad_dns_ip-flags b =
    let (small, bits) = flag_bits b in
    elim (Bool-cases (bitset b == 0)) [
      | inl empty ↦ inl (rw empty, ground arith)
      | inr some_flag ↦ inr (bitset b, rw some_flag, ground arith, small, bits)
    ]

-- The OS is given a filtering server in place of the tunnel's own ones exactly at exits of Mullvad
-- with some content blocked; the addresses and the MTU are the tunnel's in any case.
pub new_os_network_config-dns :
    (tunnel : TunnelNetworkConfig) (provider : String) (s : OsSettings)
    → let os = new_os_network_config tunnel provider s in
      (os.ipv4 ≡ tunnel.ipv4)
      × (os.ipv6 ≡ tunnel.ipv6)
      × (os.mtu ≡ tunnel.mtu)
      × ((os.dns ≡ tunnel.dns)
            × ((str_eq provider mullvad_exit_provider_name ≡ false)
                ⊎ (bitset s.dns_content_block ≡ 0))
          ⊎ (ip : ℕ) × (os.dns ≡ v4 ip ∷ [])
            × (str_eq provider mullvad_exit_provider_name ≡ true)
            × (mullvad_dns_ip s.dns_content_block ≡ some ip))
unfolding new_os_network_config
new_os_network_config-dns tunnel provider s = (
  refl,
  refl,
  refl,
  elim (Bool-cases (str_eq provider mullvad_exit_provider_name)) [
    | inr other ↦ rw other (inl (refl, inl refl))
    | inl mullvad ↦ elim (mullvad_dns_ip-flags s.dns_content_block) [
      | inl (off, empty) ↦ rw (mullvad, off) (inl (refl, inr empty))
      | inr (n, named, positive, small, bits) ↦
          rw (mullvad, named) (inr (ipv4_of 100 64 0 n, refl, refl, refl))
    ]
  ],
)

-- A tunnel's settings are complete: a DNS server, an IPv4 and an IPv6 address, the first of each
-- that the server gave; otherwise the error names the first that is missing.
pub new_tunnel_network_config_complete :
    (c : ObfuscatedTunnelConfig) (mtu : ℕ) {n : TunnelNetworkConfig}
    → new_tunnel_network_config c mtu ≡ ok n
    → (n.dns ≡ c.dns) × (n.dns ≢ []) × (head? c.client_ips_v6 ≡ some n.ipv6) × (n.mtu ≡ mtu)
unfolding new_tunnel_network_config
new_tunnel_network_config_complete c mtu h = ground arith
