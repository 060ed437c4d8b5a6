-- ===== src/LinuxOs/Routes.antt =====
-- rustlib/src/bin/obscura/service/os/linux/routes/traffic_capture_routes.rs: the policy rules and
-- the routes that capture all traffic into the tunnel, and how they are recognised in a dump.
pub mod Enforcer
pub mod Kernel
mod Recognised
pub mod Tables
mod Foreign
mod Converge
mod Engaged
mod Disengaged
mod DeleteLoop
mod Settles
mod Tests
use obscuravpn_client.Prelude.{
  ℕ, zero, suc, ◌+◌, ◌≡◌, Bool, true, false, not, ◌&&◌, ◌||◌, Option, none, some, List, [], ◌∷◌,
  ◌++◌, map, any, retain, ltb, ◌==◌, if◌then◌else◌, is_some, then_some,
}
use obscuravpn_client.NetworkConfig.{IpAddr, v4, v6, Result, ok, err}
use obscuravpn_client.LinuxOs.{TrafficPolicy, Engagement, engage, disengage}

-- `u32::from_be_bytes(*b"obsc")`.
abbrev pub fwmark : ℕ
fwmark = 0x6f627363

abbrev pub route_table : ℕ
route_table = fwmark

abbrev pub route_protocol : ℕ
route_protocol = 0x6f

abbrev pub rule_pref_resolver : ℕ
rule_pref_resolver = 14999

abbrev pub rule_pref_suppress : ℕ
rule_pref_suppress = 15000

abbrev pub rule_pref_capture : ℕ
rule_pref_capture = 15001

-- `RouteHeader::RT_TABLE_MAIN`.
abbrev pub rt_table_main : ℕ
rt_table_main = 254

pub data AddressFamily : Type 0 where
  inet inet6 : AddressFamily

pub data RuleAction : Type 0 where
  unspec to_table : RuleAction
  other_action : ℕ → RuleAction

-- The attributes of rtnetlink that the source names; all others by their number.
pub data RuleAttribute : Type 0 where
  destination : IpAddr → RuleAttribute
  priority table protocol fw_mark suppress_prefix_len : ℕ → RuleAttribute
  other_attribute : ℕ → RuleAttribute

pub record RuleMessage : Type 0 where
  pub family : AddressFamily
  pub src_len : ℕ
  pub dst_len : ℕ
  pub header_table : ℕ
  pub action : RuleAction
  pub invert : Bool
  pub attributes : List RuleAttribute

pub data RouteAttribute : Type 0 where
  route_table_id oif : ℕ → RouteAttribute
  other_route_attribute : ℕ → RouteAttribute

pub record RouteMessage : Type 0 where
  pub route_protocol_id : ℕ
  pub destination_prefix_length : ℕ
  pub route_attributes : List RouteAttribute

-- What `RouteMessageBuilder` is told.
pub record RouteRequest : Type 0 where
  pub version : AddressFamily
  pub table_id : ℕ
  pub with_protocol : ℕ
  pub output_interface : ℕ

pub ip_eq : IpAddr → IpAddr → Bool
ip_eq (v4 a) (v4 b) = a == b
ip_eq (v6 a) (v6 b) = a == b
ip_eq (v4 a) (v6 b) = false
ip_eq (v6 a) (v4 b) = false

pub family_eq : AddressFamily → AddressFamily → Bool
family_eq inet inet = true
family_eq inet6 inet6 = true
family_eq inet inet6 = false
family_eq inet6 inet = false

pub action_eq : RuleAction → RuleAction → Bool
action_eq unspec unspec = true
action_eq to_table to_table = true
action_eq (other_action a) (other_action b) = a == b
action_eq a b = false

pub attribute_eq : RuleAttribute → RuleAttribute → Bool
attribute_eq (destination a) (destination b) = ip_eq a b
attribute_eq (priority a) (priority b) = a == b
attribute_eq (table a) (table b) = a == b
attribute_eq (protocol a) (protocol b) = a == b
attribute_eq (fw_mark a) (fw_mark b) = a == b
attribute_eq (suppress_prefix_len a) (suppress_prefix_len b) = a == b
attribute_eq (other_attribute a) (other_attribute b) = a == b
attribute_eq a b = false

pub route_attribute_eq : RouteAttribute → RouteAttribute → Bool
route_attribute_eq (route_table_id a) (route_table_id b) = a == b
route_attribute_eq (oif a) (oif b) = a == b
route_attribute_eq (other_route_attribute a) (other_route_attribute b) = a == b
route_attribute_eq a b = false

-- `attributes.contains(..)`.
pub contains : List RuleAttribute → RuleAttribute → Bool
contains attributes a = any (λ b. attribute_eq b a) attributes

pub route_contains : List RouteAttribute → RouteAttribute → Bool
route_contains attributes a = any (λ b. route_attribute_eq b a) attributes

pub is_fw_mark : RuleAttribute → Bool
is_fw_mark (fw_mark m) = true
is_fw_mark a = false

-- The first destination, if any.
pub find_destination : List RuleAttribute → Option IpAddr
find_destination [] = none
find_destination (destination ip ∷ rest) = some ip
find_destination (priority n ∷ rest) = find_destination rest
find_destination (table n ∷ rest) = find_destination rest
find_destination (protocol n ∷ rest) = find_destination rest
find_destination (fw_mark n ∷ rest) = find_destination rest
find_destination (suppress_prefix_len n ∷ rest) = find_destination rest
find_destination (other_attribute n ∷ rest) = find_destination rest

pub address_family : IpAddr → AddressFamily
address_family (v4 a) = inet
address_family (v6 a) = inet6

pub address_len : IpAddr → ℕ
address_len (v4 a) = 32
address_len (v6 a) = 128

pub resolver_rule : IpAddr → RuleMessage
resolver_rule ip = record {
  family = address_family ip;
  src_len = 0;
  dst_len = address_len ip;
  header_table = 0;
  action = to_table;
  invert = false;
  attributes =
      destination ip
      ∷ priority rule_pref_resolver
      ∷ table route_table
      ∷ protocol route_protocol
      ∷ [];
}

pub any_resolver_rule : AddressFamily → RuleMessage
any_resolver_rule f = record {
  family = f;
  src_len = 0;
  dst_len = 0;
  header_table = 0;
  action = to_table;
  invert = false;
  attributes = priority rule_pref_resolver ∷ table route_table ∷ protocol route_protocol ∷ [];
}

pub suppress_rule : AddressFamily → RuleMessage
suppress_rule f = record {
  family = f;
  src_len = 0;
  dst_len = 0;
  header_table = rt_table_main;
  action = to_table;
  invert = false;
  attributes = priority rule_pref_suppress ∷ suppress_prefix_len 0 ∷ protocol route_protocol ∷ [];
}

pub capture_rule : AddressFamily → RuleMessage
capture_rule f = record {
  family = f;
  src_len = 0;
  dst_len = 0;
  header_table = 0;
  action = to_table;
  invert = true;
  attributes =
      priority rule_pref_capture
      ∷ table route_table
      ∷ fw_mark fwmark
      ∷ protocol route_protocol
      ∷ [];
}

pub capture_route : ℕ → AddressFamily → RouteRequest
capture_route tun version = record {
  version = version;
  table_id = route_table;
  with_protocol = route_protocol;
  output_interface = tun;
}

-- The conditions of `resolver_rule_destination` once a destination is found.
pub is_resolver_rule : IpAddr → RuleMessage → Bool
is_resolver_rule ip rule =
    family_eq rule.family (resolver_rule ip).family
    && (action_eq rule.action to_table
        && (not rule.invert
            && (rule.src_len == 0
                && (rule.dst_len == (resolver_rule ip).dst_len
                    && (contains rule.attributes (table route_table)
                        && (contains rule.attributes (priority rule_pref_resolver)
                            && (contains rule.attributes (protocol route_protocol)
                                && not (any is_fw_mark rule.attributes))))))))

pub matching_destination : Option IpAddr → RuleMessage → Option IpAddr
matching_destination none rule = none
matching_destination (some ip) rule = then_some (is_resolver_rule ip rule) ip

pub resolver_rule_destination : RuleMessage → Option IpAddr
resolver_rule_destination rule = matching_destination (find_destination rule.attributes) rule

pub is_suppress_rule : RuleMessage → Bool
is_suppress_rule rule =
    action_eq rule.action to_table
    && (not rule.invert
        && (rule.src_len == 0
            && (rule.dst_len == 0
                && (contains rule.attributes (table rt_table_main)
                    && (contains rule.attributes (priority rule_pref_suppress)
                        && (contains rule.attributes (suppress_prefix_len 0)
                            && (contains rule.attributes (protocol route_protocol)
                                && not (any is_fw_mark rule.attributes))))))))

pub is_capture_rule : RuleMessage → Bool
is_capture_rule rule =
    action_eq rule.action to_table
    && (rule.invert
        && (rule.src_len == 0
            && (rule.dst_len == 0
                && (contains rule.attributes (table route_table)
                    && (contains rule.attributes (priority rule_pref_capture)
                        && (contains rule.attributes (fw_mark fwmark)
                            && contains rule.attributes (protocol route_protocol)))))))

pub is_capture_route : ℕ → RouteMessage → Bool
is_capture_route tun route =
    route.route_protocol_id == route_protocol
    && (route.destination_prefix_length == 0
        && (route_contains route.route_attributes (route_table_id route_table)
            && route_contains route.route_attributes (oif tun)))
