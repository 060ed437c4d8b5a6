-- ===== src/LinuxOs/Routes/Tests.antt =====
-- Policy routing with a kernel that does what is documented.
use obscuravpn_client.Prelude.{
  ℕ, ◌≡◌, ◌≢◌, refl, sym, ap, ◌∙◌, ◌⊎◌, inl, inr, Bool, true, false, ◌||◌, some, List, [], ◌∷◌, any,
  retain, All, arith, Bool-cases, if◌then◌else◌,
}
use obscuravpn_client.NetworkConfig.{IpAddr, v4, v6, ok, err}
use obscuravpn_client.LinuxOs.{Engagement, engage, disengage}
use obscuravpn_client.LinuxOs.Routes.{
  inet, RuleMessage, RouteMessage, RouteRequest, RuleAttribute, destination, priority, table,
  protocol, fw_mark, suppress_prefix_len, other_attribute, route_table_id, oif, route_attribute_eq,
  attribute_eq, ip_eq, to_table, contains, route_contains, is_fw_mark, find_destination, action_eq,
  address_family, address_len, capture_route, family_eq, suppress_rule, capture_rule, resolver_rule,
  any_resolver_rule,
}
use obscuravpn_client.LinuxOs.Routes.Enforcer.{
  Netlink, Answer, done, netlink_error, enoent, esrch, eexist, Routing, delete_resolver_rules,
  apply_routing, second_family, apply_family, then_route, then_rules, after_delete, change_rules,
  add_rules, answered_routes, answered_rules, change_route, collect, delete_rules, ip_lt,
  route_tolerance, set_insert, tolerated, wanted_resolver_rules, routing_dirty,
}
use obscuravpn_client.LinuxOs.Routes.Kernel.{
  Shown, carries, selects, is_route, in_table, Removed, Documented,
}
use obscuravpn_client.LinuxOs.Routes.Foreign.{foreign_rule, foreign_route, apply_routing-foreign}
use obscuravpn_client.LinuxOs.Routes.Engaged.{apply_routing-routing_dirty}

remove_first : {A : Type 0} → (A → Bool) → ℕ → List A → List A × Answer
remove_first q code [] = ([], netlink_error code)
remove_first q code (x ∷ xs) =
    let rest = remove_first q code xs in if q x then (xs, done) else (x ∷ rest.0, rest.1)

shown : RuleMessage → RuleMessage
shown r = record {
  family = r.family;
  src_len = r.src_len;
  dst_len = r.dst_len;
  header_table = r.header_table;
  action = r.action;
  invert = r.invert;
  attributes = table r.header_table ∷ r.attributes;
}

shown_route : RouteRequest → RouteMessage
shown_route q = record {
  route_protocol_id = q.with_protocol;
  destination_prefix_length = 0;
  route_attributes = route_table_id q.table_id ∷ oif q.output_interface ∷ [];
}

kernel : Netlink
kernel = record {
  rule_get = λ xs. some xs;
  route_get = λ xs. some xs;
  rule_add = λ r xs. (shown r ∷ xs, done);
  rule_del = λ r xs. remove_first (selects r) enoent xs;
  route_replace = λ q xs. (shown_route q ∷ xs, done);
  route_del = λ q xs. remove_first (is_route q) esrch xs;
}

skip : {A : Type 0} (x z : A) (xs ys : List A) → Removed x xs ys → Removed x (z ∷ xs) (z ∷ ys)
skip x z xs ys r = record {
  left_front = z ∷ r.left_front;
  left_back = r.left_back;
  had = ap (λ l. z ∷ l) r.had;
  keeps = ap (λ l. z ∷ l) r.keeps;
}

remove_first-done :
    {A : Type 0} (q : A → Bool) (code : ℕ) (xs : List A)
    → (remove_first q code xs).1 ≡ done
    → (x : A) × (q x ≡ true) × Removed x xs (remove_first q code xs).0
unfolding remove_first
remove_first-done q code [] h = absurd (ground arith)
remove_first-done q code (x ∷ xs) h = elim (Bool-cases (q x)) [
  | inl e ↦ (x, e, rw e (record { left_front = []; left_back = xs; had = refl; keeps = refl }))
  | inr e ↦
      let (y, holds, gone) = remove_first-done q code xs (rw e at h) in
      (y, holds, rw e (skip y x xs (remove_first q code xs).0 gone))
]

remove_first-not_done :
    {A : Type 0} (q : A → Bool) (code : ℕ) (xs : List A)
    → (remove_first q code xs).1 ≢ done
    → ((remove_first q code xs).0 ≡ xs) × (any q xs ≡ false)
unfolding remove_first
remove_first-not_done q code [] h = (refl, refl)
remove_first-not_done q code (x ∷ xs) h = elim (Bool-cases (q x)) [
  | inl e ↦ absurd (h (rw e refl))
  | inr e ↦
      let (same, nothing) = remove_first-not_done q code xs (rw e at h) in
      (rw e (ap (λ l. x ∷ l) same), rw e nothing)
]

not_done : (a : Answer) (code : ℕ) → a ≡ netlink_error code → a ≢ done
not_done a code e d = let wrong : netlink_error code ≡ done = sym e ∙ d in ground arith

attribute_eq_refl : (a : RuleAttribute) → attribute_eq a a ≡ true
unfolding attribute_eq ip_eq
attribute_eq_refl (destination (v4 a)) = ground arith
attribute_eq_refl (destination (v6 a)) = ground arith
attribute_eq_refl (priority n) = ground arith
attribute_eq_refl (table n) = ground arith
attribute_eq_refl (protocol n) = ground arith
attribute_eq_refl (fw_mark n) = ground arith
attribute_eq_refl (suppress_prefix_len n) = ground arith
attribute_eq_refl (other_attribute n) = ground arith

or_more : (a b : Bool) → b ≡ true → (a || b) ≡ true
or_more a b h = ground arith

contains-more :
    (xs : List RuleAttribute) (z a : RuleAttribute)
    → contains xs a ≡ true
    → contains (z ∷ xs) a ≡ true
unfolding contains
contains-more xs z a h = or_more (attribute_eq z a) (any (λ b. attribute_eq b a) xs) h

contains-head : (xs : List RuleAttribute) (a : RuleAttribute) → contains (a ∷ xs) a ≡ true
unfolding contains
contains-head xs a = ap (λ b. b || any (λ c. attribute_eq c a) xs) (attribute_eq_refl a)

contains-some :
    (front xs : List RuleAttribute)
    → ((a : RuleAttribute) → contains xs a ≡ true → contains front a ≡ true)
    → All (λ a. contains front a ≡ true) xs
contains-some front [] h = tt
contains-some front (x ∷ xs) h =
    (h x (contains-head xs x), contains-some front xs (λ a e. h a (contains-more xs x a e)))

shown-Shown : (r : RuleMessage) → Shown r (shown r)
unfolding shown is_fw_mark find_destination
shown-Shown r = record {
  shows_family = refl;
  shows_src = refl;
  shows_dst = refl;
  shows_action = refl;
  shows_invert = refl;
  shows_attributes =
      contains-some (table r.header_table ∷ r.attributes) r.attributes
        (λ a e. contains-more r.attributes (table r.header_table) a e);
  shows_table = inr (contains-head r.attributes (table r.header_table));
  shows_mark = refl;
  shows_destination = refl;
}

selects-carries : (r x : RuleMessage) → selects r x ≡ true → carries r.attributes x ≡ true
unfolding selects
selects-carries r x h = ground arith

is_route-in_table :
    (q : RouteRequest) (x : RouteMessage) → is_route q x ≡ true → in_table q.table_id x ≡ true
unfolding is_route in_table
is_route-in_table q x h = ground arith

shown_route-is_route : (q : RouteRequest) → is_route q (shown_route q) ≡ true
unfolding is_route shown_route route_contains route_attribute_eq
shown_route-is_route q = ground arith

kernel-Documented : Documented kernel
unfolding kernel
kernel-Documented = record {
  rule_dump = λ xs. inr refl;
  route_dump = λ xs. inr refl;
  rule_added = λ r xs e.
      (shown r, shown-Shown r, record { front = []; back = xs; was = refl; becomes = refl });
  rule_exists = λ r xs e. absurd (not_done done eexist e refl);
  rule_not_added = λ r xs n. absurd (n refl);
  rule_deleted = λ r xs e.
      let (x, s, gone) = remove_first-done (selects r) enoent xs e in
      (x, selects-carries r x s, gone);
  rule_missing = λ r xs e. (remove_first-not_done (selects r) enoent xs (not_done _ enoent e)).1;
  rule_not_deleted = λ r xs n. (remove_first-not_done (selects r) enoent xs n).0;
  route_replaced = λ q xs e. (
    shown_route q,
    shown_route-is_route q,
    ([], tt, record { front = []; back = xs; was = refl; becomes = refl }),
  );
  route_not_replaced = λ q xs n. absurd (n refl);
  route_deleted = λ q xs e.
      let (x, s, gone) = remove_first-done (is_route q) esrch xs e in
      (x, is_route-in_table q x s, gone);
  route_missing = λ q xs e. (remove_first-not_done (is_route q) esrch xs (not_done _ esrch e)).1;
  route_not_deleted = λ q xs n. (remove_first-not_done (is_route q) esrch xs n).0;
}

-- The kernel's own rule, and an old resolver rule of the service.
abbrev local_rule : RuleMessage
local_rule = record {
  family = inet;
  src_len = 0;
  dst_len = 0;
  header_table = 255;
  action = to_table;
  invert = false;
  attributes = table 255 ∷ protocol 2 ∷ [];
}

abbrev resolver : IpAddr
resolver = v4 0x0a400001

abbrev before : Routing
before = record {
  of_inet = record { rules = local_rule ∷ shown (resolver_rule (v4 1)) ∷ []; routes = [] };
  of_inet6 = record { rules = []; routes = [] };
}

abbrev engagement : Engagement
engagement = record {
  local_network_access = false;
  tailscale_bypass = false;
  wireguard_bypass = false;
  dns = resolver ∷ [];
  use_system_dns = false;
  tunnel_ipv4 = 0x0a400c22;
  tunnel_ipv6 = 1;
}

applies : (apply_routing kernel 7 (engage engagement) before).1 ≡ ok tt
unfolding apply_routing delete_resolver_rules kernel remove_first selects carries contains
    attribute_eq ip_eq any_resolver_rule shown resolver_rule shown_route capture_rule suppress_rule
    second_family apply_family then_route then_rules after_delete change_rules add_rules
    answered_routes answered_rules change_route collect delete_rules ip_lt route_tolerance
    set_insert tolerated wanted_resolver_rules action_eq address_family address_len capture_route
    family_eq
applies = refl

apply_routing-routing_dirty_example :
    let after = (apply_routing kernel 7 (engage engagement) before).0 in
    (routing_dirty kernel 7 (engage engagement) after ≡ err tt)
    ⊎ (routing_dirty kernel 7 (engage engagement) after ≡ ok false)
apply_routing-routing_dirty_example =
    apply_routing-routing_dirty kernel kernel-Documented 7 engagement before applies

apply_routing-foreign_example :
    let after = (apply_routing kernel 7 disengage before).0 in
    ((retain foreign_rule after.of_inet.rules ≡ retain foreign_rule before.of_inet.rules)
      × (retain foreign_route after.of_inet.routes ≡ retain foreign_route before.of_inet.routes))
    × ((retain foreign_rule after.of_inet6.rules ≡ retain foreign_rule before.of_inet6.rules)
        × (retain foreign_route after.of_inet6.routes
            ≡ retain foreign_route before.of_inet6.routes))
apply_routing-foreign_example = apply_routing-foreign kernel kernel-Documented 7 disengage before
