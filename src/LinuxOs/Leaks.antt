-- ===== src/LinuxOs/Leaks.antt =====
-- rustlib/src/bin/obscura/service/os/linux/mod.rs: which steps are tried when some of them fail.
use obscuravpn_client.Prelude.{
  ℕ, ◌≡◌, refl, ◌⊎◌, inl, inr, Bool, true, false, ◌&&◌, Option, none, some, List, [], ◌∷◌, ◌++◌,
  Among, arith, Bool-cases,
}
use obscuravpn_client.NetworkConfig.{IpNetwork, OsNetworkConfig, Result, ok, err}
use obscuravpn_client.LinuxOs.{
  Answers, LinuxOs, DnsManager, DnsManagerArg, arg_disabled, arg_network_manager, arg_resolved,
  arg_auto, engage, disengage, engagement, send_policy, apply_ruleset, tun_set_config, and_answer,
  recorded, set_dns, reset_dns, finish_set, finish_unset, set_os_network_config,
  unset_os_network_config, choose_dns_manager,
}

Among-append_right : {A : Type 0} (a : A) (xs ys : List A) → Among a ys → Among a (xs ++ ys)
Among-append_right a [] ys m = m
Among-append_right a (x ∷ xs) ys m = inr (Among-append_right a xs ys m)

-- What is recorded agrees with the result.
Recorded : Result Unit Unit → Option OsNetworkConfig → Result Unit (Option OsNetworkConfig) → Type 0
Recorded result config current =
    ((result ≡ ok tt) × (current ≡ ok config)) ⊎ ((result ≡ err tt) × (current ≡ err tt))

recorded-Recorded :
    (r : Result Unit Unit) (c : Option OsNetworkConfig) → Recorded r c (recorded r c)
unfolding Recorded recorded
recorded-Recorded (ok tt) c = inl (refl, refl)
recorded-Recorded (err tt) c = inr (refl, refl)

-- The firewall and the device are set after the routes and the DNS servers.
set_tries :
    (network : IpNetwork → ℕ) (answers : Answers) (c : OsNetworkConfig) (os : LinuxOs)
    (manager : DnsManager)
    → let out = finish_set network answers c os (ok manager) in
      Among (apply_ruleset (engage (engagement network c))) out.steps
      × (Among (tun_set_config c.mtu c.ipv4 c.ipv6) out.steps
          × Recorded out.result (some c) out.os.current_network_config)
unfolding finish_set
set_tries network answers c os manager = (
  inr (Among-append_right _ (set_dns answers c manager).0 _ (inl refl)),
  (
    inr (Among-append_right _ (set_dns answers c manager).0 _ (inr (inl refl))),
    recorded-Recorded _ (some c),
  ),
)

unset_tries :
    (answers : Answers) (os : LinuxOs) (manager : DnsManager)
    → let out = finish_unset answers os (ok manager) in
      Among (apply_ruleset disengage) out.steps
      × Recorded out.result none out.os.current_network_config
unfolding finish_unset
unset_tries answers os manager = (
  inr (Among-append_right _ (reset_dns answers manager).0 _ (inr (inl refl))),
  recorded-Recorded _ none,
)

-- `and` succeeds when both do.
and_answer-ok :
    (r : Result Unit Unit) (answer : Bool)
    → and_answer r answer ≡ ok tt
    → (r ≡ ok tt) × (answer ≡ true)
unfolding and_answer
and_answer-ok (ok tt) true h = (refl, refl)
and_answer-ok (ok tt) false h = ground arith
and_answer-ok (err e) answer h = ground arith

all_answered :
    (sent dns firewall device : Bool)
    → and_answer (and_answer (and_answer (and_answer (ok tt) sent) dns) firewall) device ≡ ok tt
    → (sent && (firewall && device)) ≡ true
all_answered sent dns firewall device success =
    let (inner, device_set) = and_answer-ok _ device success in
    let (before, applied) = and_answer-ok _ firewall inner in
    let (sending, dns_done) = and_answer-ok _ dns before in
    let (start, routed) = and_answer-ok _ sent sending in rw (routed, applied, device_set) refl

-- Once a DNS manager is chosen, the firewall is told to engage with the policy and the device gets
-- its addresses, whatever fails; success means that the routes, the firewall and the device all
-- answered so, and the configuration is recorded as the current one exactly on success.
pub set_os_network_config-tries :
    (network : IpNetwork → ℕ) (answers : Answers) (c : OsNetworkConfig) (os : LinuxOs)
    (manager : DnsManager)
    → choose_dns_manager answers.has_network_manager answers.has_resolved os.dns_manager_arg
      ≡ ok manager
    → let out = set_os_network_config network answers c os in
      Among (apply_ruleset (engage (engagement network c))) out.steps
      × (Among (tun_set_config c.mtu c.ipv4 c.ipv6) out.steps
          × (((out.result ≡ ok tt)
                × (out.os.current_network_config ≡ ok (some c))
                × ((answers.routing_sends && (answers.applies_ruleset && answers.tun_sets_config))
                    ≡ true))
              ⊎ ((out.result ≡ err tt) × (out.os.current_network_config ≡ err tt))))
unfolding set_os_network_config finish_set Recorded
set_os_network_config-tries network answers c os manager chosen =
    let (firewall, (device, kept)) = set_tries network answers c os manager in
    rw chosen (
      firewall,
      (
        device,
        elim kept [
          | inl (success, current) ↦ inl (success, current, all_answered _ _ _ _ success)
          | inr failure ↦ inr failure
        ],
      ),
    )

-- Giving up a tunnel tells the firewall to disengage, whatever else fails once a DNS manager is
-- chosen, and records that nothing is configured exactly on success.
pub unset_os_network_config-tries :
    (answers : Answers) (os : LinuxOs) (manager : DnsManager)
    → choose_dns_manager answers.has_network_manager answers.has_resolved os.dns_manager_arg
      ≡ ok manager
    → let out = unset_os_network_config answers os in
      Among (apply_ruleset disengage) out.steps
      × (((out.result ≡ ok tt) × (out.os.current_network_config ≡ ok none))
          ⊎ ((out.result ≡ err tt) × (out.os.current_network_config ≡ err tt)))
unfolding unset_os_network_config Recorded
unset_os_network_config-tries answers os manager chosen = rw chosen (unset_tries answers os manager)

-- There is a DNS manager to use: none is wanted, or one of those that may be used is detected.
abbrev pub Usable : Answers → DnsManagerArg → Type 0
Usable answers arg_disabled = Unit
Usable answers arg_auto = (answers.has_network_manager ≡ true) ⊎ (answers.has_resolved ≡ true)
Usable answers arg_network_manager = answers.has_network_manager ≡ true
Usable answers arg_resolved = answers.has_resolved ≡ true

-- A DNS manager is chosen exactly if there is one to use.
Chosen : Answers → DnsManagerArg → Type 0
Chosen answers arg =
    ((manager : DnsManager) × Usable answers arg
      × (choose_dns_manager answers.has_network_manager answers.has_resolved arg ≡ ok manager))
    ⊎ ((¬ Usable answers arg)
        × (choose_dns_manager answers.has_network_manager answers.has_resolved arg ≡ err tt))

choose_dns_manager-Usable : (answers : Answers) (arg : DnsManagerArg) → Chosen answers arg
unfolding Chosen choose_dns_manager
choose_dns_manager-Usable answers arg_disabled = inl (_, tt, refl)
choose_dns_manager-Usable answers arg_auto = elim (Bool-cases answers.has_resolved) [
  | inl found ↦ rw found (inl (_, inr refl, refl))
  | inr missing ↦ elim (Bool-cases answers.has_network_manager) [
    | inl found ↦ rw (missing, found) (inl (_, inl refl, refl))
    | inr neither ↦
        rw (missing, neither)
          (inr (λ u. elim u [ inl h ↦ ground arith | inr h ↦ ground arith ], refl))
  ]
]
choose_dns_manager-Usable answers arg_network_manager =
    elim (Bool-cases answers.has_network_manager) [
      | inl found ↦ rw found (inl (_, refl, refl))
      | inr missing ↦ rw missing (inr (λ h. ground arith, refl))
    ]
choose_dns_manager-Usable answers arg_resolved = elim (Bool-cases answers.has_resolved) [
  | inl found ↦ rw found (inl (_, refl, refl))
  | inr missing ↦ rw missing (inr (λ h. ground arith, refl))
]

-- Setting a configuration tells the firewall to engage and gives the device its addresses exactly if
-- there is a DNS manager to use. If not, telling the routing task of the policy is the only step, it
-- fails, and the configuration that was recorded stays.
pub set_os_network_config-without_dns :
    (network : IpNetwork → ℕ) (answers : Answers) (c : OsNetworkConfig) (os : LinuxOs)
    → let out = set_os_network_config network answers c os in
      (Usable answers os.dns_manager_arg
        × Among (apply_ruleset (engage (engagement network c))) out.steps
        × Among (tun_set_config c.mtu c.ipv4 c.ipv6) out.steps)
      ⊎ ((¬ Usable answers os.dns_manager_arg)
          × (out.steps ≡ send_policy (engage (engagement network c)) ∷ [])
          × (out.result ≡ err tt)
          × (out.os.current_network_config ≡ os.current_network_config))
unfolding Chosen
set_os_network_config-without_dns network answers c os =
    elim (choose_dns_manager-Usable answers os.dns_manager_arg) [
      | inl (manager, usable, chosen) ↦
          let (firewall, (device, kept)) =
            set_os_network_config-tries network answers c os manager chosen in
          inl (usable, firewall, device)
      | inr (unusable, none_chosen) ↦ inr (
          unfold set_os_network_config in
          unfold finish_set in rw none_chosen (unusable, refl, refl, refl))
    ]
