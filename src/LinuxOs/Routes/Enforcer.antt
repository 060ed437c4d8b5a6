-- ===== src/LinuxOs/Routes/Enforcer.antt =====
-- `routing_dirty`, `apply_routing` and the loop of
-- rustlib/src/bin/obscura/service/os/linux/routes/traffic_capture_routes.rs over the kernel.
use obscuravpn_client.Prelude.{
  ℕ, zero, suc, Bool, true, false, not, ◌&&◌, ◌||◌, Option, none, some, List, [], ◌∷◌, ◌++◌, map,
  any, retain, length, ltb, ◌==◌, if◌then◌else◌,
}
use obscuravpn_client.NetworkConfig.{IpAddr, v4, v6, Result, ok, err}
use obscuravpn_client.LinuxOs.{TrafficPolicy, engage, disengage}
use obscuravpn_client.LinuxOs.Routes.{
  AddressFamily, inet, inet6, RuleMessage, RouteMessage, RouteRequest, ip_eq, family_eq,
  address_family, resolver_rule, any_resolver_rule, suppress_rule, capture_rule, capture_route,
  resolver_rule_destination, is_suppress_rule, is_capture_rule, is_capture_route,
}

-- The answer to a request; an error with the absolute value of its raw code.
pub data Answer : Type 0 where
  done : Answer
  netlink_error : ℕ → Answer
  other_error : Answer

abbrev pub enoent : ℕ
enoent = 2

abbrev pub esrch : ℕ
esrch = 3

abbrev pub eexist : ℕ
eexist = 17

-- Requests to the kernel, on the table of their family; `none` is a dump that failed.
pub record Netlink : Type 0 where
  pub rule_get : List RuleMessage → Option (List RuleMessage)
  pub route_get : List RouteMessage → Option (List RouteMessage)
  pub rule_add : RuleMessage → List RuleMessage → List RuleMessage × Answer
  pub rule_del : RuleMessage → List RuleMessage → List RuleMessage × Answer
  pub route_replace : RouteRequest → List RouteMessage → List RouteMessage × Answer
  pub route_del : RouteRequest → List RouteMessage → List RouteMessage × Answer

pub record FamilyTables : Type 0 where
  pub rules : List RuleMessage
  pub routes : List RouteMessage

pub record Routing : Type 0 where
  pub of_inet : FamilyTables
  pub of_inet6 : FamilyTables

-- The order of `IpAddr`.
unfoldable pub ip_lt : IpAddr → IpAddr → Bool
ip_lt (v4 a) (v4 b) = ltb a b
ip_lt (v6 a) (v6 b) = ltb a b
ip_lt (v4 a) (v6 b) = true
ip_lt (v6 a) (v4 b) = false

-- `BTreeSet<IpAddr>` as its elements in order.
unfoldable pub set_insert : IpAddr → List IpAddr → List IpAddr
set_insert ip [] = ip ∷ []
set_insert ip (x ∷ xs) =
    let rest = set_insert ip xs in
    if ip_eq ip x then x ∷ xs else if ip_lt ip x then ip ∷ x ∷ xs else x ∷ rest

unfoldable pub collect : List IpAddr → List IpAddr
collect [] = []
collect (ip ∷ rest) = set_insert ip (collect rest)

-- Equality of sets.
unfoldable pub is_subset : List IpAddr → List IpAddr → Bool
is_subset [] ys = true
is_subset (x ∷ xs) ys = any (ip_eq x) ys && is_subset xs ys

unfoldable pub set_eq : List IpAddr → List IpAddr → Bool
set_eq xs ys = is_subset xs ys && is_subset ys xs

unfoldable pub wanted_resolver_rules : TrafficPolicy → AddressFamily → List IpAddr
wanted_resolver_rules (engage e) f = collect (retain (λ ip. family_eq (address_family ip) f) e.dns)
wanted_resolver_rules disengage f = []

unfoldable pub is_engaged : TrafficPolicy → Bool
is_engaged (engage e) = true
is_engaged disengage = false

unfoldable pub insert_found : Option IpAddr → List IpAddr → List IpAddr
insert_found none set = set
insert_found (some ip) set = set_insert ip set

unfoldable pub have_resolver_rules : List RuleMessage → List IpAddr
have_resolver_rules [] = []
have_resolver_rules (rule ∷ rest) =
    insert_found (resolver_rule_destination rule) (have_resolver_rules rest)

abbrev pub bool_eq : Bool → Bool → Bool
bool_eq true b = b
bool_eq false b = not b

-- Whether what is dumped of a family differs from what is wanted.
unfoldable pub family_dirty :
    ℕ → TrafficPolicy → AddressFamily → List RuleMessage → List RouteMessage → Bool
family_dirty tun policy f rules routes =
    let engaged = is_engaged policy in
    not (
      bool_eq (any is_suppress_rule rules) engaged
      && (bool_eq (any is_capture_rule rules) engaged
          && bool_eq (any (is_capture_route tun) routes) engaged))
    || not (set_eq (have_resolver_rules rules) (wanted_resolver_rules policy f))

unfoldable pub dumped_dirty :
    ℕ
    → TrafficPolicy
    → AddressFamily
    → Option (List RuleMessage)
    → Option (List RouteMessage)
    → Result Unit Bool
dumped_dirty tun policy f none routes = err tt
dumped_dirty tun policy f (some rules) none = err tt
dumped_dirty tun policy f (some rules) (some routes) = ok (family_dirty tun policy f rules routes)

unfoldable pub check_family :
    Netlink → ℕ → TrafficPolicy → AddressFamily → FamilyTables → Result Unit Bool
check_family k tun policy f t =
    dumped_dirty tun policy f (k.rule_get t.rules) (k.route_get t.routes)

unfoldable pub either_dirty : Result Unit Bool → Result Unit Bool → Result Unit Bool
either_dirty (err e) other = err e
either_dirty (ok a) (err e) = err e
either_dirty (ok a) (ok b) = ok (a || b)

unfoldable pub routing_dirty : Netlink → ℕ → TrafficPolicy → Routing → Result Unit Bool
routing_dirty k tun policy r =
    either_dirty (check_family k tun policy inet r.of_inet)
      (check_family k tun policy inet6 r.of_inet6)

-- An answer, with one error that is tolerated.
unfoldable pub tolerated : ℕ → Answer → Result Unit Unit
tolerated code done = ok tt
tolerated code (netlink_error c) = if c == code then ok tt else err tt
tolerated code other_error = err tt

abbrev pub Rules : Type 0
Rules = List RuleMessage × Result Unit Unit

unfoldable pub after_delete : List RuleMessage × Answer → (List RuleMessage → Rules) → Rules
after_delete (rules, done) again = again rules
after_delete (rules, netlink_error c) again = (rules, if c == enoent then ok tt else err tt)
after_delete (rules, other_error) again = (rules, err tt)

-- The loop that deletes resolver rules until there are none. The first argument bounds its rounds.
unfoldable pub delete_resolver_rules : ℕ → Netlink → AddressFamily → List RuleMessage → Rules
delete_resolver_rules zero k f rules = (rules, err tt)
delete_resolver_rules (suc fuel) k f rules =
    after_delete (k.rule_del (any_resolver_rule f) rules)
      (λ left. delete_resolver_rules fuel k f left)

unfoldable pub then_rules : Rules → (List RuleMessage → Rules) → Rules
then_rules (rules, ok u) next = next rules
then_rules (rules, err e) next = (rules, err e)

unfoldable pub answered_rules : ℕ → List RuleMessage × Answer → Rules
answered_rules code (rules, answer) = (rules, tolerated code answer)

unfoldable pub add_rules : Netlink → List RuleMessage → List RuleMessage → Rules
add_rules k [] rules = (rules, ok tt)
add_rules k (r ∷ rest) rules =
    then_rules (answered_rules eexist (k.rule_add r rules)) (add_rules k rest)

unfoldable pub delete_rules : Netlink → List RuleMessage → List RuleMessage → Rules
delete_rules k [] rules = (rules, ok tt)
delete_rules k (r ∷ rest) rules =
    then_rules (answered_rules enoent (k.rule_del r rules)) (delete_rules k rest)

abbrev pub Applied : Type 0
Applied = FamilyTables × Result Unit Unit

unfoldable pub answered_routes : Option ℕ → List RuleMessage → List RouteMessage × Answer → Applied
answered_routes none rules (routes, done) = (record { rules = rules; routes = routes }, ok tt)
answered_routes none rules (routes, answer) = (record { rules = rules; routes = routes }, err tt)
answered_routes (some code) rules (routes, answer) =
    (record { rules = rules; routes = routes }, tolerated code answer)

-- The route is requested when the rules are in order.
unfoldable pub then_route :
    Rules
    → List RouteMessage
    → Option ℕ
    → (List RouteMessage → List RouteMessage × Answer)
    → Applied
then_route (rules, ok u) routes code request = answered_routes code rules (request routes)
then_route (rules, err e) routes code request = (record { rules = rules; routes = routes }, err e)

unfoldable pub change_rules : Netlink → TrafficPolicy → AddressFamily → List RuleMessage → Rules
change_rules k (engage e) f rules =
    add_rules k
      (map resolver_rule (wanted_resolver_rules (engage e) f)
        ++ (suppress_rule f ∷ capture_rule f ∷ []))
      rules
change_rules k disengage f rules = delete_rules k (suppress_rule f ∷ capture_rule f ∷ []) rules

unfoldable pub change_route :
    Netlink → ℕ → TrafficPolicy → AddressFamily → List RouteMessage → List RouteMessage × Answer
change_route k tun (engage e) f = k.route_replace (capture_route tun f)
change_route k tun disengage f = k.route_del (capture_route tun f)

unfoldable pub route_tolerance : TrafficPolicy → Option ℕ
route_tolerance (engage e) = none
route_tolerance disengage = some esrch

-- A pass of `apply_routing` for a family.
unfoldable pub apply_family : Netlink → ℕ → TrafficPolicy → AddressFamily → FamilyTables → Applied
apply_family k tun policy f t =
    then_route
      (then_rules (delete_resolver_rules (suc (length t.rules)) k f t.rules)
        (change_rules k policy f))
      t.routes (route_tolerance policy) (change_route k tun policy f)

unfoldable pub second_family :
    Applied → FamilyTables → (FamilyTables → Applied) → Routing × Result Unit Unit
second_family (first, err e) t next = (record { of_inet = first; of_inet6 = t }, err e)
second_family (first, ok u) t next = (record { of_inet = first; of_inet6 = (next t).0 }, (next t).1)

unfoldable pub apply_routing : Netlink → ℕ → TrafficPolicy → Routing → Routing × Result Unit Unit
apply_routing k tun policy r =
    second_family (apply_family k tun policy inet r.of_inet) r.of_inet6
      (apply_family k tun policy inet6)

-- How the loop of `enforce_routing` gets on while the policy stays and nothing else changes the
-- tables: it waits with everything in order, it fails, or it is still busy.
pub data Enforced : Type 0 where
  waits fails busy : Enforced

unfoldable pub after_apply :
    Routing × Result Unit Unit → (Routing → Routing × Enforced) → Routing × Enforced
after_apply (r, err e) again = (r, fails)
after_apply (r, ok u) again = again r

unfoldable pub after_check :
    Netlink
    → ℕ
    → TrafficPolicy
    → Routing
    → Result Unit Bool
    → (Routing → Routing × Enforced)
    → Routing × Enforced
after_check k tun policy r (err e) again = (r, fails)
after_check k tun policy r (ok false) again = (r, waits)
after_check k tun policy r (ok true) again = after_apply (apply_routing k tun policy r) again

unfoldable pub enforce : ℕ → Netlink → ℕ → TrafficPolicy → Routing → Routing × Enforced
enforce zero k tun policy r = (r, busy)
enforce (suc fuel) k tun policy r =
    after_check k tun policy r (routing_dirty k tun policy r)
      (λ left. enforce fuel k tun policy left)
