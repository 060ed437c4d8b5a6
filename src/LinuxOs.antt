-- ===== src/LinuxOs.antt =====
-- rustlib/src/bin/obscura/service/os/linux/mod.rs and dns/mod.rs beside it: what the Linux service
-- does to the system when a tunnel is up and when it is given up. What the parts of the system
-- answer is an argument; the steps that are taken are recorded in their order.
mod Leaks
pub mod Routes
pub mod Netfilter
mod Tests
use obscuravpn_client.Prelude.{
  ℕ, ◌≡◌, Bool, true, false, Option, none, some, List, [], ◌∷◌, ◌++◌, if◌then◌else◌,
}
use obscuravpn_client.NetworkConfig.{IpAddr, IpNetwork, OsNetworkConfig, Result, ok, err}

-- The fields of `TrafficPolicy::Engage`.
pub record Engagement : Type 0 where
  pub local_network_access : Bool
  pub tailscale_bypass : Bool
  pub wireguard_bypass : Bool
  pub dns : List IpAddr
  pub use_system_dns : Bool
  pub tunnel_ipv4 : ℕ
  pub tunnel_ipv6 : ℕ

pub data TrafficPolicy : Type 0 where
  engage : Engagement → TrafficPolicy
  disengage : TrafficPolicy

pub data DnsManagerArg : Type 0 where
  arg_auto arg_disabled arg_network_manager arg_resolved : DnsManagerArg

pub data DnsManager : Type 0 where
  disabled resolved network_manager : DnsManager

-- What is detected comes first: NetworkManager, then resolved.
pub choose_dns_manager : Bool → Bool → DnsManagerArg → Result Unit DnsManager
choose_dns_manager has_network_manager has_resolved arg_disabled = ok disabled
choose_dns_manager has_network_manager has_resolved arg_auto =
    if has_resolved then ok resolved else if has_network_manager then ok network_manager else err tt
choose_dns_manager has_network_manager has_resolved arg_network_manager =
    if has_network_manager then ok network_manager else err tt
choose_dns_manager has_network_manager has_resolved arg_resolved =
    if has_resolved then ok resolved else err tt

-- What the parts of the system answer, true for success.
pub record Answers : Type 0 where
  pub routing_sends : Bool
  pub has_network_manager : Bool
  pub has_resolved : Bool
  pub network_manager_sets_dns : Bool
  pub network_manager_resets_dns : Bool
  pub resolved_sets_dns : Bool
  pub resolved_resets_dns : Bool
  pub applies_ruleset : Bool
  pub tun_sets_config : Bool

pub data Step : Type 0 where
  send_policy : TrafficPolicy → Step
  network_manager_set_dns : OsNetworkConfig → Step
  network_manager_reset_dns : Step
  resolved_set_dns : List IpAddr → Step
  resolved_reset_dns : Step
  apply_ruleset : TrafficPolicy → Step
  tun_set_config : ℕ → ℕ → IpNetwork → Step
  tun_set_dummy_config : Step
  spawn_read_task : Step

pub record LinuxOs : Type 0 where
  pub dns_manager_arg : DnsManagerArg
  pub current_network_config : Result Unit (Option OsNetworkConfig)

pub record Outcome : Type 0 where
  pub os : LinuxOs
  pub steps : List Step
  pub result : Result Unit Unit

-- `result.and(other)` with the answer of the other step.
pub and_answer : Result Unit Unit → Bool → Result Unit Unit
and_answer (err e) answer = err e
and_answer (ok u) true = ok tt
and_answer (ok u) false = err tt

-- `result.map(|_| config)`.
pub recorded : Result Unit Unit → Option OsNetworkConfig → Result Unit (Option OsNetworkConfig)
recorded (ok u) config = ok config
recorded (err e) config = err e

-- The policy while a tunnel is up; `ipv6.network()` of the crate `ipnetwork` is an argument.
pub engagement : (IpNetwork → ℕ) → OsNetworkConfig → Engagement
engagement network c = record {
  local_network_access = c.local_network_access;
  tailscale_bypass = c.tailscale_bypass;
  wireguard_bypass = c.wireguard_bypass;
  dns = if c.use_system_dns then [] else c.dns;
  use_system_dns = c.use_system_dns;
  tunnel_ipv4 = c.ipv4;
  tunnel_ipv6 = network c.ipv6;
}

-- The DNS part of `set_os_network_config`: its step, and what it answers.
pub set_dns : Answers → OsNetworkConfig → DnsManager → List Step × Bool
set_dns answers c network_manager =
    (network_manager_set_dns c ∷ [], answers.network_manager_sets_dns)
set_dns answers c resolved =
    if c.use_system_dns
    then (resolved_reset_dns ∷ [], answers.resolved_resets_dns)
    else (resolved_set_dns c.dns ∷ [], answers.resolved_sets_dns)
set_dns answers c disabled = ([], true)

pub reset_dns : Answers → DnsManager → List Step × Bool
reset_dns answers network_manager =
    (network_manager_reset_dns ∷ [], answers.network_manager_resets_dns)
reset_dns answers resolved = (resolved_reset_dns ∷ [], answers.resolved_resets_dns)
reset_dns answers disabled = ([], true)

-- The rest of `set_os_network_config` once the DNS manager is chosen.
pub finish_set :
    (IpNetwork → ℕ) → Answers → OsNetworkConfig → LinuxOs → Result Unit DnsManager → Outcome
finish_set network answers c os (err e) = record {
  os = os;
  steps = send_policy (engage (engagement network c)) ∷ [];
  result = err e;
}
finish_set network answers c os (ok manager) =
    let policy = engage (engagement network c) in
    let sent = and_answer (ok tt) answers.routing_sends in
    let (dns_steps, dns_answer) = set_dns answers c manager in
    let result =
      and_answer (and_answer (and_answer sent dns_answer) answers.applies_ruleset)
        answers.tun_sets_config in
    record {
      os = record os { current_network_config = recorded result (some c) };
      steps =
          (send_policy policy ∷ [])
          ++ (dns_steps
              ++ (apply_ruleset policy
                  ∷ tun_set_config c.mtu c.ipv4 c.ipv6
                  ∷ spawn_read_task
                  ∷ []));
      result = result;
    }

pub set_os_network_config : (IpNetwork → ℕ) → Answers → OsNetworkConfig → LinuxOs → Outcome
set_os_network_config network answers c os =
    finish_set network answers c os
      (choose_dns_manager answers.has_network_manager answers.has_resolved os.dns_manager_arg)

pub finish_unset : Answers → LinuxOs → Result Unit DnsManager → Outcome
finish_unset answers os (err e) = record {
  os = os;
  steps = send_policy disengage ∷ [];
  result = err e;
}
finish_unset answers os (ok manager) =
    let sent = and_answer (ok tt) answers.routing_sends in
    let (dns_steps, dns_answer) = reset_dns answers manager in
    let result =
      and_answer (and_answer (and_answer sent dns_answer) answers.tun_sets_config)
        answers.applies_ruleset in
    record {
      os = record os { current_network_config = recorded result none };
      steps =
          (send_policy disengage ∷ [])
          ++ (dns_steps ++ (tun_set_dummy_config ∷ apply_ruleset disengage ∷ []));
      result = result;
    }

pub unset_os_network_config : Answers → LinuxOs → Outcome
unset_os_network_config answers os =
    finish_unset answers os
      (choose_dns_manager answers.has_network_manager answers.has_resolved os.dns_manager_arg)
