-- ===== src/LinuxOs/Routes/Settles.antt =====
-- The loop of `enforce_routing` in
-- rustlib/src/bin/obscura/service/os/linux/routes/traffic_capture_routes.rs comes to rest.
use obscuravpn_client.Prelude.{ℕ, ◌+◌, ◌≡◌, refl, ◌⊎◌, inl, inr, false, length}
use obscuravpn_client.NetworkConfig.{Result, ok, err}
use obscuravpn_client.LinuxOs.{TrafficPolicy}
use obscuravpn_client.LinuxOs.Routes.Enforcer.{
  Netlink, Routing, routing_dirty, Enforced, waits, fails,
}
use obscuravpn_client.LinuxOs.Routes.Kernel.{Documented}

-- The entries of all tables.
abbrev pub entries : Routing → ℕ
entries r =
    (length r.of_inet.rules + length r.of_inet.routes)
    + (length r.of_inet6.rules + length r.of_inet6.routes)

Result-cases : (a : Result Unit Unit) → (a ≡ ok tt) ⊎ (a ≡ err tt)
Result-cases (ok tt) = inl refl
Result-cases (err tt) = inr refl

module _ (k : Netlink) (doc : Documented k) (tun : ℕ) where
  -- The loop ended, in order or with an error.
  Settled : TrafficPolicy → Routing × Enforced → Type 0
  Settled policy out =
      ((out.1 ≡ waits) × (routing_dirty k tun policy out.0 ≡ ok false)) ⊎ (out.1 ≡ fails)
