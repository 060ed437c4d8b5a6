-- ===== src/LinuxOs/Routes/Foreign.antt =====
-- What rustlib/src/bin/obscura/service/os/linux/routes/traffic_capture_routes.rs leaves alone.
use obscuravpn_client.Prelude.{
  ℕ, zero, suc, ◌≡◌, refl, ap, ◌∙◌, inl, inr, Bool, true, false, not, Option, none, some, List, [],
  ◌∷◌, ◌++◌, map, retain, length, All, arith,
}
use obscuravpn_client.NetworkConfig.{IpAddr, ok, err}
use obscuravpn_client.LinuxOs.{TrafficPolicy, engage, disengage}
use obscuravpn_client.LinuxOs.Routes.{
  AddressFamily, inet, inet6, RuleMessage, RouteMessage, protocol, route_protocol, route_table,
  contains, resolver_rule, any_resolver_rule, suppress_rule, capture_rule, capture_route,
}
use obscuravpn_client.LinuxOs.Routes.Enforcer.{
  Netlink, Answer, done, netlink_error, other_error, FamilyTables, Routing, Rules, Applied,
  after_delete, delete_resolver_rules, then_rules, answered_rules, add_rules, delete_rules,
  answered_routes, then_route, change_rules, change_route, route_tolerance, apply_family,
  second_family, apply_routing, wanted_resolver_rules, eexist, enoent,
}
use obscuravpn_client.LinuxOs.Routes.Tables.{Answer-cases, retain-Inserted, retain-Removed}
use obscuravpn_client.LinuxOs.Routes.Kernel.{Shown, carries, in_table, is_route, Documented}

-- Rules without the service's protocol, and routes outside its table.
abbrev pub foreign_rule : RuleMessage → Bool
foreign_rule x = not (contains x.attributes (protocol route_protocol))

abbrev pub foreign_route : RouteMessage → Bool
foreign_route x = not (in_table route_table x)

-- A request that is about the service's own rules only.
Own : RuleMessage → Type 0
Own r =
    ((x : RuleMessage) → Shown r x → foreign_rule x ≡ false)
    × ((x : RuleMessage) → carries r.attributes x ≡ true → foreign_rule x ≡ false)

any_resolver_rule-Own : (f : AddressFamily) → Own (any_resolver_rule f)
unfolding Own any_resolver_rule carries
any_resolver_rule-Own f = (
  (λ x s. let (pref, (tab, (proto, u))) = s.shows_attributes in rw proto refl),
  (λ x h. ground arith),
)

resolver_rule-Own : (ip : IpAddr) → Own (resolver_rule ip)
unfolding Own resolver_rule carries
resolver_rule-Own ip = (
  (λ x s. let (dest, (pref, (tab, (proto, u)))) = s.shows_attributes in rw proto refl),
  (λ x h. ground arith),
)

suppress_rule-Own : (f : AddressFamily) → Own (suppress_rule f)
unfolding Own suppress_rule carries
suppress_rule-Own f = (
  (λ x s. let (pref, (len, (proto, u))) = s.shows_attributes in rw proto refl),
  (λ x h. ground arith),
)

capture_rule-Own : (f : AddressFamily) → Own (capture_rule f)
unfolding Own capture_rule carries
capture_rule-Own f = (
  (λ x s. let (pref, (tab, (mark, (proto, u)))) = s.shows_attributes in rw proto refl),
  (λ x h. ground arith),
)

wanted-Own :
    (ips : List IpAddr) (rest : List RuleMessage)
    → All Own rest
    → All Own (map resolver_rule ips ++ rest)
wanted-Own [] rest h = h
wanted-Own (ip ∷ ips) rest h = (resolver_rule-Own ip, wanted-Own ips rest h)

both-Own : (f : AddressFamily) → All Own (suppress_rule f ∷ capture_rule f ∷ [])
both-Own f = (suppress_rule-Own f, (capture_rule-Own f, tt))

own_routes :
    (old : List RouteMessage)
    → All (λ o. in_table route_table o ≡ true) old
    → All (λ o. foreign_route o ≡ false) old
own_routes [] h = tt
own_routes (o ∷ old) (h, hs) = (rw h refl, own_routes old hs)

own_route :
    (tun : ℕ) (f : AddressFamily) (x : RouteMessage)
    → is_route (capture_route tun f) x ≡ true
    → foreign_route x ≡ false
unfolding is_route capture_route in_table
own_route tun f x h = ground arith

module _ (k : Netlink) (doc : Documented k) where
  rule_add-foreign :
      (r : RuleMessage) (xs : List RuleMessage)
      → Own r
      → retain foreign_rule (k.rule_add r xs).0 ≡ retain foreign_rule xs
  unfolding Own
  rule_add-foreign r xs (shown, carried) = elim (Answer-cases (k.rule_add r xs).1) [
    | inl e ↦
        let (x, s, i) = doc.rule_added r xs e in
        retain-Inserted foreign_rule [] x xs (k.rule_add r xs).0 i tt (shown x s)
    | inr n ↦ ap (retain foreign_rule) (doc.rule_not_added r xs n)
  ]

  rule_del-foreign :
      (r : RuleMessage) (xs : List RuleMessage)
      → Own r
      → retain foreign_rule (k.rule_del r xs).0 ≡ retain foreign_rule xs
  unfolding Own
  rule_del-foreign r xs (shown, carried) = elim (Answer-cases (k.rule_del r xs).1) [
    | inl e ↦
        let (x, c, gone) = doc.rule_deleted r xs e in
        retain-Removed foreign_rule x xs (k.rule_del r xs).0 gone (carried x c)
    | inr n ↦ ap (retain foreign_rule) (doc.rule_not_deleted r xs n)
  ]

  -- What comes first and what follows keep what is foreign.
  then_rules-foreign :
      (first : Rules) (next : List RuleMessage → Rules)
      → ((ys : List RuleMessage) → retain foreign_rule (next ys).0 ≡ retain foreign_rule ys)
      → retain foreign_rule (then_rules first next).0 ≡ retain foreign_rule first.0
  unfolding then_rules
  then_rules-foreign (rules, ok u) next h = h rules
  then_rules-foreign (rules, err e) next h = refl

  answered_rules-kept : (code : ℕ) (a : List RuleMessage × Answer) → (answered_rules code a).0 ≡ a.0
  unfolding answered_rules
  answered_rules-kept code (rules, answer) = refl

  add_rules-foreign :
      (rs xs : List RuleMessage)
      → All Own rs
      → retain foreign_rule (add_rules k rs xs).0 ≡ retain foreign_rule xs
  unfolding add_rules
  add_rules-foreign [] xs h = refl
  add_rules-foreign (r ∷ rs) xs (own, owns) =
      then_rules-foreign (answered_rules eexist (k.rule_add r xs)) (add_rules k rs)
        (λ ys. add_rules-foreign rs ys owns)
      ∙ ap (retain foreign_rule) (answered_rules-kept eexist (k.rule_add r xs))
      ∙ rule_add-foreign r xs own

  delete_rules-foreign :
      (rs xs : List RuleMessage)
      → All Own rs
      → retain foreign_rule (delete_rules k rs xs).0 ≡ retain foreign_rule xs
  unfolding delete_rules
  delete_rules-foreign [] xs h = refl
  delete_rules-foreign (r ∷ rs) xs (own, owns) =
      then_rules-foreign (answered_rules enoent (k.rule_del r xs)) (delete_rules k rs)
        (λ ys. delete_rules-foreign rs ys owns)
      ∙ ap (retain foreign_rule) (answered_rules-kept enoent (k.rule_del r xs))
      ∙ rule_del-foreign r xs own

  after_delete-foreign :
      (a : List RuleMessage × Answer) (again : List RuleMessage → Rules)
      → ((ys : List RuleMessage) → retain foreign_rule (again ys).0 ≡ retain foreign_rule ys)
      → retain foreign_rule (after_delete a again).0 ≡ retain foreign_rule a.0
  unfolding after_delete
  after_delete-foreign (rules, done) again h = h rules
  after_delete-foreign (rules, netlink_error c) again h = refl
  after_delete-foreign (rules, other_error) again h = refl

  delete_resolver_rules-foreign :
      (fuel : ℕ) (f : AddressFamily) (xs : List RuleMessage)
      → retain foreign_rule (delete_resolver_rules fuel k f xs).0 ≡ retain foreign_rule xs
  unfolding delete_resolver_rules
  delete_resolver_rules-foreign zero f xs = refl
  delete_resolver_rules-foreign (suc fuel) f xs =
      after_delete-foreign (k.rule_del (any_resolver_rule f) xs)
        (λ left. delete_resolver_rules fuel k f left)
        (λ ys. delete_resolver_rules-foreign fuel f ys)
      ∙ rule_del-foreign (any_resolver_rule f) xs (any_resolver_rule-Own f)

  change_rules-foreign :
      (policy : TrafficPolicy) (f : AddressFamily) (xs : List RuleMessage)
      → retain foreign_rule (change_rules k policy f xs).0 ≡ retain foreign_rule xs
  unfolding change_rules
  change_rules-foreign (engage e) f xs =
      add_rules-foreign _ xs (wanted-Own (wanted_resolver_rules (engage e) f) _ (both-Own f))
  change_rules-foreign disengage f xs = delete_rules-foreign _ xs (both-Own f)

  route_replace-foreign :
      (tun : ℕ) (f : AddressFamily) (xs : List RouteMessage)
      → retain foreign_route (k.route_replace (capture_route tun f) xs).0 ≡ retain foreign_route xs
  unfolding capture_route
  route_replace-foreign tun f xs =
      elim (Answer-cases (k.route_replace (capture_route tun f) xs).1) [
        | inl e ↦
            let (x, mine, (old, gone, i)) = doc.route_replaced (capture_route tun f) xs e in
            retain-Inserted foreign_route old x xs (k.route_replace (capture_route tun f) xs).0 i
              (own_routes old gone) (own_route tun f x mine)
        | inr n ↦ ap (retain foreign_route) (doc.route_not_replaced (capture_route tun f) xs n)
      ]

  route_del-foreign :
      (tun : ℕ) (f : AddressFamily) (xs : List RouteMessage)
      → retain foreign_route (k.route_del (capture_route tun f) xs).0 ≡ retain foreign_route xs
  unfolding capture_route
  route_del-foreign tun f xs = elim (Answer-cases (k.route_del (capture_route tun f) xs).1) [
    | inl e ↦
        let (x, mine, gone) = doc.route_deleted (capture_route tun f) xs e in
        retain-Removed foreign_route x xs (k.route_del (capture_route tun f) xs).0 gone
          (rw mine refl)
    | inr n ↦ ap (retain foreign_route) (doc.route_not_deleted (capture_route tun f) xs n)
  ]

  change_route-foreign :
      (tun : ℕ) (policy : TrafficPolicy) (f : AddressFamily) (xs : List RouteMessage)
      → retain foreign_route (change_route k tun policy f xs).0 ≡ retain foreign_route xs
  unfolding change_route
  change_route-foreign tun (engage e) f xs = route_replace-foreign tun f xs
  change_route-foreign tun disengage f xs = route_del-foreign tun f xs

  answered_routes-kept :
      (code : Option ℕ) (rules : List RuleMessage) (a : List RouteMessage × Answer)
      → let after = (answered_routes code rules a).0 in (after.rules ≡ rules) × (after.routes ≡ a.0)
  unfolding answered_routes
  answered_routes-kept none rules (routes, done) = (refl, refl)
  answered_routes-kept none rules (routes, netlink_error c) = (refl, refl)
  answered_routes-kept none rules (routes, other_error) = (refl, refl)
  answered_routes-kept (some code) rules (routes, answer) = (refl, refl)

  then_route-foreign :
      (first : Rules) (routes : List RouteMessage) (code : Option ℕ)
      (request : List RouteMessage → List RouteMessage × Answer)
      → retain foreign_route (request routes).0 ≡ retain foreign_route routes
      → let after = (then_route first routes code request).0 in
        (retain foreign_rule after.rules ≡ retain foreign_rule first.0)
        × (retain foreign_route after.routes ≡ retain foreign_route routes)
  unfolding then_route
  then_route-foreign (rules, ok u) routes code request h =
      let (same_rules, same_routes) = answered_routes-kept code rules (request routes) in
      (ap (retain foreign_rule) same_rules, ap (retain foreign_route) same_routes ∙ h)
  then_route-foreign (rules, err e) routes code request h = (refl, refl)

  -- What is foreign stays in a family's tables.
  Kept : FamilyTables → FamilyTables → Type 0
  Kept after before =
      (retain foreign_rule after.rules ≡ retain foreign_rule before.rules)
      × (retain foreign_route after.routes ≡ retain foreign_route before.routes)

  apply_family-Kept :
      (tun : ℕ) (policy : TrafficPolicy) (f : AddressFamily) (t : FamilyTables)
      → Kept (apply_family k tun policy f t).0 t
  unfolding apply_family Kept
  apply_family-Kept tun policy f t =
      let deleted = delete_resolver_rules (suc (length t.rules)) k f t.rules in
      let (rules_kept, routes_kept) =
        then_route-foreign (then_rules deleted (change_rules k policy f)) t.routes
          (route_tolerance policy) (change_route k tun policy f)
          (change_route-foreign tun policy f t.routes) in
      (
        rules_kept
            ∙ then_rules-foreign deleted (change_rules k policy f) (change_rules-foreign policy f)
            ∙ delete_resolver_rules-foreign (suc (length t.rules)) f t.rules,
        routes_kept,
      )

  second_family-Kept :
      (first : Applied) (t of_first : FamilyTables) (next : FamilyTables → Applied)
      → Kept first.0 of_first
      → Kept (next t).0 t
      → Kept (second_family first t next).0.of_inet of_first
        × Kept (second_family first t next).0.of_inet6 t
  unfolding second_family Kept
  second_family-Kept (after, ok u) t of_first next h g = (h, g)
  second_family-Kept (after, err e) t of_first next h g = (h, (refl, refl))

-- Whether it succeeds or fails midway, applying the routing leaves every rule without the service's
-- protocol and every route outside its table as they are and in their order, in both families.
pub apply_routing-foreign :
    (k : Netlink)
    → Documented k
    → (tun : ℕ) (policy : TrafficPolicy) (r : Routing)
    → let after = (apply_routing k tun policy r).0 in
      ((retain foreign_rule after.of_inet.rules ≡ retain foreign_rule r.of_inet.rules)
        × (retain foreign_route after.of_inet.routes ≡ retain foreign_route r.of_inet.routes))
      × ((retain foreign_rule after.of_inet6.rules ≡ retain foreign_rule r.of_inet6.rules)
          × (retain foreign_route after.of_inet6.routes ≡ retain foreign_route r.of_inet6.routes))
unfolding apply_routing Kept
apply_routing-foreign k doc tun policy r =
    second_family-Kept k doc (apply_family k tun policy inet r.of_inet) r.of_inet6 r.of_inet
      (apply_family k tun policy inet6) (apply_family-Kept k doc tun policy inet r.of_inet)
      (apply_family-Kept k doc tun policy inet6 r.of_inet6)
