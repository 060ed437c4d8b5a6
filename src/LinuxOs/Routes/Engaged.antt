-- ===== src/LinuxOs/Routes/Engaged.antt =====
-- With the traffic captured, what `apply_routing` of
-- rustlib/src/bin/obscura/service/os/linux/routes/traffic_capture_routes.rs leaves is not dirty.
use obscuravpn_client.Prelude.{
  ℕ, suc, ◌≡◌, refl, sym, ap, ◌∙◌, ◌⊎◌, inl, inr, Bool, true, false, ◌||◌, Option, none, List, [],
  ◌∷◌, ◌++◌, map, any, length, All, ◌==◌, arith,
}
use obscuravpn_client.NetworkConfig.{IpAddr, Result, ok, err}
use obscuravpn_client.LinuxOs.{Engagement, engage}
use obscuravpn_client.LinuxOs.Routes.{
  AddressFamily, inet, inet6, RuleMessage, RouteMessage, find_destination, ip_eq, resolver_rule,
  suppress_rule, capture_rule, capture_route, is_suppress_rule, is_capture_rule, is_capture_route,
}
use obscuravpn_client.LinuxOs.Routes.Enforcer.{
  Netlink, Answer, done, netlink_error, other_error, FamilyTables, Routing, Rules, Applied,
  delete_resolver_rules, then_rules, add_rules, answered_routes, then_route, change_rules,
  change_route, route_tolerance, apply_family, second_family, apply_routing, wanted_resolver_rules,
  have_resolver_rules, family_dirty, dumped_dirty, check_family, either_dirty, routing_dirty,
  is_engaged,
}
use obscuravpn_client.LinuxOs.Routes.Kernel.{is_route, Documented}
use obscuravpn_client.LinuxOs.Routes.Tables.{
  any-insert, sends, same_ip, any-have_resolver_rules, set_eq_all,
}
use obscuravpn_client.LinuxOs.Routes.Recognised.{
  Shown-suppress_rule, Shown-capture_rule, Shown-resolver_rule,
}
use obscuravpn_client.LinuxOs.Routes.Converge.{
  Foretold, then_rules-ok, add_rules-any, delete_resolver_rules-none, sends_none,
}

-- The rules that are requested for a family.
abbrev requested : AddressFamily → List IpAddr → List RuleMessage
requested f ips = map resolver_rule ips ++ (suppress_rule f ∷ capture_rule f ∷ [])

-- What each test finds of a requested rule when it is shown.
suppresses : RuleMessage → Bool
suppresses r = r.header_table == 254

inverts : RuleMessage → Bool
inverts r = r.invert

names : IpAddr → RuleMessage → Bool
names a r = same_ip a (find_destination r.attributes)

suppresses-Foretold :
    (f : AddressFamily) (ips : List IpAddr)
    → All (Foretold is_suppress_rule suppresses) (requested f ips)
unfolding Foretold suppresses suppress_rule capture_rule resolver_rule
suppresses-Foretold f [] =
    ((λ x s. (Shown-suppress_rule f x s).0), ((λ x s. (Shown-capture_rule f x s).0), tt))
suppresses-Foretold f (ip ∷ ips) =
    ((λ x s. (Shown-resolver_rule ip x s).0), suppresses-Foretold f ips)

inverts-Foretold :
    (f : AddressFamily) (ips : List IpAddr)
    → All (Foretold is_capture_rule inverts) (requested f ips)
unfolding Foretold inverts suppress_rule capture_rule resolver_rule
inverts-Foretold f [] =
    ((λ x s. (Shown-suppress_rule f x s).1), ((λ x s. (Shown-capture_rule f x s).1), tt))
inverts-Foretold f (ip ∷ ips) = ((λ x s. (Shown-resolver_rule ip x s).1), inverts-Foretold f ips)

names-Foretold :
    (a : IpAddr) (f : AddressFamily) (ips : List IpAddr)
    → All (Foretold (sends a) (names a)) (requested f ips)
unfolding Foretold names suppress_rule capture_rule resolver_rule find_destination
names-Foretold a f [] = (
  (λ x s. ap (same_ip a) (Shown-suppress_rule f x s).2),
  ((λ x s. ap (same_ip a) (Shown-capture_rule f x s).2), tt),
)
names-Foretold a f (ip ∷ ips) =
    ((λ x s. ap (same_ip a) (Shown-resolver_rule ip x s).2), names-Foretold a f ips)

any-suppresses : (f : AddressFamily) (ips : List IpAddr) → any suppresses (requested f ips) ≡ true
unfolding suppresses suppress_rule capture_rule resolver_rule
any-suppresses f [] = refl
any-suppresses f (ip ∷ ips) = any-suppresses f ips

any-inverts : (f : AddressFamily) (ips : List IpAddr) → any inverts (requested f ips) ≡ true
unfolding inverts suppress_rule capture_rule resolver_rule
any-inverts f [] = refl
any-inverts f (ip ∷ ips) = any-inverts f ips

any-names :
    (a : IpAddr) (f : AddressFamily) (ips : List IpAddr)
    → any (names a) (requested f ips) ≡ any (ip_eq a) ips
unfolding names suppress_rule capture_rule resolver_rule find_destination same_ip
any-names a f [] = refl
any-names a f (ip ∷ ips) = ap (λ b. ip_eq a ip || b) (any-names a f ips)

-- What `routing_dirty` looks for in a family's tables.
Engaged : ℕ → Engagement → AddressFamily → FamilyTables → Type 0
Engaged tun e f t =
    (any is_suppress_rule t.rules ≡ true)
    × (any is_capture_rule t.rules ≡ true)
    × (any (is_capture_route tun) t.routes ≡ true)
    × ((a : IpAddr) → any (sends a) t.rules ≡ any (ip_eq a) (wanted_resolver_rules (engage e) f))

Engaged-clean :
    (tun : ℕ) (e : Engagement) (f : AddressFamily) (t : FamilyTables)
    → Engaged tun e f t
    → family_dirty tun (engage e) f t.rules t.routes ≡ false
unfolding Engaged family_dirty is_engaged
Engaged-clean tun e f t (suppressed, captured, routed, sent) =
    rw
      (
        suppressed,
        captured,
        routed,
        set_eq_all (have_resolver_rules t.rules) (wanted_resolver_rules (engage e) f)
            (λ a. any-have_resolver_rules a t.rules ∙ sent a),
      )
      refl

or_none : (a b : Bool) → b ≡ false → (a || b) ≡ a
or_none a b h = ground arith

or_some : (a b : Bool) → a ≡ true → (a || b) ≡ true
or_some a b h = ground arith

-- The answers to the request for the route.
answered_routes-done :
    (rules : List RuleMessage) (a : List RouteMessage × Answer)
    → (answered_routes none rules a).1 ≡ ok tt
    → (a.1 ≡ done) × ((answered_routes none rules a).0 ≡ record { rules = rules; routes = a.0 })
unfolding answered_routes
answered_routes-done rules (routes, done) h = (refl, refl)
answered_routes-done rules (routes, netlink_error c) h = absurd (ground arith)
answered_routes-done rules (routes, other_error) h = absurd (ground arith)

pub then_route-ok :
    (first : Rules) (routes : List RouteMessage) (code : Option ℕ)
    (request : List RouteMessage → List RouteMessage × Answer)
    → (then_route first routes code request).1 ≡ ok tt
    → (first.1 ≡ ok tt)
      × (then_route first routes code request ≡ answered_routes code first.0 (request routes))
unfolding then_route
then_route-ok (rules, ok tt) routes code request h = (refl, refl)
then_route-ok (rules, err e) routes code request h = absurd (ground arith)

module _ (k : Netlink) (doc : Documented k) (tun : ℕ) (e : Engagement) where
  route_replace-any :
      (f : AddressFamily) (xs : List RouteMessage)
      → (k.route_replace (capture_route tun f) xs).1 ≡ done
      → any (is_capture_route tun) (k.route_replace (capture_route tun f) xs).0 ≡ true
  unfolding is_route is_capture_route capture_route
  route_replace-any f xs h =
      let (x, mine, (old, gone, i)) = doc.route_replaced (capture_route tun f) xs h in
      ap (any (is_capture_route tun)) i.becomes
      ∙ any-insert (is_capture_route tun) i.front x i.back
      ∙ or_some (is_capture_route tun x) _ mine

  apply_family-Engaged :
      (f : AddressFamily) (t : FamilyTables)
      → (apply_family k tun (engage e) f t).1 ≡ ok tt
      → Engaged tun e f (apply_family k tun (engage e) f t).0
  unfolding apply_family change_rules change_route route_tolerance Engaged
  apply_family-Engaged f t h =
      let ips = wanted_resolver_rules (engage e) f in
      let rs = requested f ips in
      let deleted = delete_resolver_rules (suc (length t.rules)) k f t.rules in
      let (rules_ok, same) =
        then_route-ok (then_rules deleted (add_rules k rs)) t.routes none
          (k.route_replace (capture_route tun f)) h in
      let (deleted_ok, added_ok, result) = then_rules-ok deleted (add_rules k rs) rules_ok in
      let (route_done, tables) =
        answered_routes-done (then_rules deleted (add_rules k rs)).0
          (k.route_replace (capture_route tun f) t.routes) (sym (ap (λ z. z.1) same) ∙ h) in
      let after = ap (λ z. z.0) same ∙ tables in
      let rules_after = ap (λ z. z.rules) after ∙ result in
      let none_left =
        delete_resolver_rules-none k doc (suc (length t.rules)) f t.rules deleted_ok in
      (
        ap (any is_suppress_rule) rules_after
            ∙ add_rules-any k doc is_suppress_rule suppresses rs deleted.0
                (suppresses-Foretold f ips) added_ok
            ∙ or_some _ _ (any-suppresses f ips),
        ap (any is_capture_rule) rules_after
            ∙ add_rules-any k doc is_capture_rule inverts rs deleted.0 (inverts-Foretold f ips)
                added_ok
            ∙ or_some _ _ (any-inverts f ips),
        ap (λ z. any (is_capture_route tun) z.routes) after
            ∙ route_replace-any f t.routes route_done,
        λ a.
            ap (any (sends a)) rules_after
            ∙ add_rules-any k doc (sends a) (names a) rs deleted.0 (names-Foretold a f ips) added_ok
            ∙ or_none _ _ (sends_none f a deleted.0 none_left)
            ∙ any-names a f ips,
      )

  check_family-clean :
      (f : AddressFamily) (t : FamilyTables)
      → Engaged tun e f t
      → (check_family k tun (engage e) f t ≡ err tt)
        ⊎ (check_family k tun (engage e) f t ≡ ok false)
  unfolding check_family dumped_dirty
  check_family-clean f t h = elim (doc.rule_dump t.rules) [
    | inl r ↦ inl (rw r refl)
    | inr r ↦ elim (doc.route_dump t.routes) [
      | inl s ↦ inl (rw (r, s) refl)
      | inr s ↦ inr (rw (r, s) (ap {A = Bool} ok (Engaged-clean tun e f t h)))
    ]
  ]

pub second_family-ok :
    (first : Applied) (t : FamilyTables) (next : FamilyTables → Applied)
    → (second_family first t next).1 ≡ ok tt
    → (first.1 ≡ ok tt)
      × ((next t).1 ≡ ok tt)
      × ((second_family first t next).0.of_inet ≡ first.0)
      × ((second_family first t next).0.of_inet6 ≡ (next t).0)
unfolding second_family
second_family-ok (after, ok tt) t next h = (refl, h, refl, refl)
second_family-ok (after, err e) t next h = absurd (ground arith)

either-clean :
    (a b : Result Unit Bool)
    → (a ≡ err tt) ⊎ (a ≡ ok false)
    → (b ≡ err tt) ⊎ (b ≡ ok false)
    → (either_dirty a b ≡ err tt) ⊎ (either_dirty a b ≡ ok false)
unfolding either_dirty
either-clean a b (inl p) q = inl (rw p refl)
either-clean a b (inr p) (inl q) = inl (rw (p, q) refl)
either-clean a b (inr p) (inr q) = inr (rw (p, q) refl)

-- When the traffic is to be captured and applying the routing succeeds, the check that follows
-- finds nothing to do, unless a dump fails; whatever rules and routes were there before.
pub apply_routing-routing_dirty :
    (k : Netlink)
    → Documented k
    → (tun : ℕ) (e : Engagement) (r : Routing) → (apply_routing k tun (engage e) r).1 ≡ ok tt
    → let after = (apply_routing k tun (engage e) r).0 in
      (routing_dirty k tun (engage e) after ≡ err tt)
      ⊎ (routing_dirty k tun (engage e) after ≡ ok false)
unfolding apply_routing routing_dirty
apply_routing-routing_dirty k doc tun e r h =
    let (first, second, of_inet, of_inet6) =
      second_family-ok (apply_family k tun (engage e) inet r.of_inet) r.of_inet6
        (apply_family k tun (engage e) inet6) h in
    either-clean _ _
      (rw of_inet (
        check_family-clean k doc tun e inet _
          (apply_family-Engaged k doc tun e inet r.of_inet first)))
      (rw of_inet6 (
        check_family-clean k doc tun e inet6 _
          (apply_family-Engaged k doc tun e inet6 r.of_inet6 second)))
