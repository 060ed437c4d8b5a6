-- ===== src/LinuxOs/Routes/Recognised.antt =====
-- The rules of rustlib/src/bin/obscura/service/os/linux/routes/traffic_capture_routes.rs in a dump:
-- each is recognised, by the test that is meant for it alone.
use obscuravpn_client.Prelude.{
  ◌≡◌, refl, inl, inr, true, false, Option, none, some, ◌==◌, arith, Bool-cases,
}
use obscuravpn_client.NetworkConfig.{IpAddr, v4, v6}
use obscuravpn_client.LinuxOs.Routes.{
  AddressFamily, RuleMessage, action_eq, family_eq, is_fw_mark, find_destination, address_family,
  address_len, resolver_rule, any_resolver_rule, suppress_rule, capture_rule, is_resolver_rule,
  matching_destination, resolver_rule_destination, is_suppress_rule, is_capture_rule,
}
use obscuravpn_client.LinuxOs.Routes.Kernel.{Shown, carries, selects}

pub Shown-suppress_rule :
    (f : AddressFamily) (x : RuleMessage)
    → Shown (suppress_rule f) x
    → (is_suppress_rule x ≡ true)
      × (is_capture_rule x ≡ false)
      × (resolver_rule_destination x ≡ none)
unfolding suppress_rule is_suppress_rule is_capture_rule resolver_rule_destination
    matching_destination find_destination is_fw_mark action_eq
Shown-suppress_rule f x s =
    let (pref, (len, (proto, u))) = s.shows_attributes in
    elim s.shows_table [
      | inl e ↦ absurd (ground arith)
      | inr main ↦ (
        rw
            (
              s.shows_action, s.shows_invert, s.shows_src, s.shows_dst, main, pref, len, proto,
              s.shows_mark,
            )
            refl,
        rw (s.shows_action, s.shows_invert) refl,
        rw s.shows_destination refl,
      )
    ]

pub Shown-capture_rule :
    (f : AddressFamily) (x : RuleMessage)
    → Shown (capture_rule f) x
    → (is_suppress_rule x ≡ false)
      × (is_capture_rule x ≡ true)
      × (resolver_rule_destination x ≡ none)
unfolding capture_rule is_suppress_rule is_capture_rule resolver_rule_destination
    matching_destination find_destination is_fw_mark action_eq
Shown-capture_rule f x s =
    let (pref, (tab, (mark, (proto, u)))) = s.shows_attributes in
    (
      rw (s.shows_action, s.shows_invert) refl,
      rw (s.shows_action, s.shows_invert, s.shows_src, s.shows_dst, tab, pref, mark, proto) refl,
      rw s.shows_destination refl,
    )

own_len : (ip : IpAddr) → (address_len ip == 0) ≡ false
unfolding address_len
own_len (v4 a) = refl
own_len (v6 a) = refl

same_len : (ip : IpAddr) → (address_len ip == address_len ip) ≡ true
unfolding address_len
same_len (v4 a) = refl
same_len (v6 a) = refl

same_family : (ip : IpAddr) → family_eq (address_family ip) (address_family ip) ≡ true
unfolding address_family family_eq
same_family (v4 a) = refl
same_family (v6 a) = refl

pub Shown-resolver_rule :
    (ip : IpAddr) (x : RuleMessage)
    → Shown (resolver_rule ip) x
    → (is_suppress_rule x ≡ false)
      × (is_capture_rule x ≡ false)
      × (resolver_rule_destination x ≡ some ip)
unfolding resolver_rule is_suppress_rule is_capture_rule resolver_rule_destination
    matching_destination find_destination is_fw_mark action_eq is_resolver_rule
Shown-resolver_rule ip x s =
    let (dest, (pref, (tab, (proto, u)))) = s.shows_attributes in
    (
      rw (s.shows_action, s.shows_invert, s.shows_src, s.shows_dst, own_len ip) refl,
      rw (s.shows_action, s.shows_invert) refl,
      rw
          (
            s.shows_destination,
            s.shows_family,
            same_family ip,
            s.shows_action,
            s.shows_invert,
            s.shows_src,
            s.shows_dst,
            same_len ip,
            tab,
            pref,
            proto,
            s.shows_mark,
          )
          refl,
    )

-- The requests to delete select every rule that the tests recognise.
pub suppress_rule-selects :
    (f : AddressFamily) (x : RuleMessage)
    → is_suppress_rule x ≡ true
    → selects (suppress_rule f) x ≡ true
unfolding suppress_rule is_suppress_rule selects carries action_eq
suppress_rule-selects f x h = ground arith

pub capture_rule-selects :
    (f : AddressFamily) (x : RuleMessage)
    → is_capture_rule x ≡ true
    → selects (capture_rule f) x ≡ true
unfolding capture_rule is_capture_rule selects carries action_eq
capture_rule-selects f x h = ground arith

is_resolver_rule-selects :
    (f : AddressFamily) (ip : IpAddr) (x : RuleMessage)
    → is_resolver_rule ip x ≡ true
    → selects (any_resolver_rule f) x ≡ true
unfolding any_resolver_rule is_resolver_rule selects carries action_eq
is_resolver_rule-selects f ip x h = ground arith

found_matches :
    (o : Option IpAddr) (x : RuleMessage) (ip : IpAddr)
    → matching_destination o x ≡ some ip
    → (found : IpAddr) × (is_resolver_rule found x ≡ true)
unfolding matching_destination
found_matches none x ip h = absurd (ground arith)
found_matches (some found) x ip h = elim (Bool-cases (is_resolver_rule found x)) [
  | inl fits ↦ (found, fits)
  | inr fails ↦ let nothing : none ≡ some ip = rw fails at h in absurd (ground arith)
]

pub resolver_rule_destination-selects :
    (f : AddressFamily) (x : RuleMessage) (ip : IpAddr)
    → resolver_rule_destination x ≡ some ip
    → selects (any_resolver_rule f) x ≡ true
unfolding resolver_rule_destination
resolver_rule_destination-selects f x ip h =
    let (found, fits) = found_matches (find_destination x.attributes) x ip h in
    is_resolver_rule-selects f found x fits
