-- ===== src/LinuxOs/Routes/DeleteLoop.antt =====
-- The loop that deletes resolver rules, in
-- rustlib/src/bin/obscura/service/os/linux/routes/traffic_capture_routes.rs, has ended by the time its
-- fuel is used up.
use obscuravpn_client.Prelude.{ℕ, zero, suc, ◌<◌, ◌≡◌, refl, List, length, arith}
use obscuravpn_client.LinuxOs.Routes.{AddressFamily, RuleMessage, any_resolver_rule}
use obscuravpn_client.LinuxOs.Routes.Enforcer.{
  Netlink, Answer, done, netlink_error, other_error, Rules, after_delete, delete_resolver_rules,
}
use obscuravpn_client.LinuxOs.Routes.Kernel.{Documented}
use obscuravpn_client.LinuxOs.Routes.Disengaged.{shorter}

after_delete-same :
    (a : List RuleMessage × Answer) (again again' : List RuleMessage → Rules)
    → (a.1 ≡ done → again a.0 ≡ again' a.0)
    → after_delete a again ≡ after_delete a again'
unfolding after_delete
after_delete-same (rules, done) again again' h = h refl
after_delete-same (rules, netlink_error c) again again' h = refl
after_delete-same (rules, other_error) again again' h = refl

-- More rounds than there are rules make no difference to the loop that deletes the resolver rules:
-- it has ended by then.
pub delete_resolver_rules-ends :
    (k : Netlink)
    → Documented k
    → (fuel more : ℕ) (f : AddressFamily) (xs : List RuleMessage) → length xs < fuel
    → length xs < more
    → delete_resolver_rules fuel k f xs ≡ delete_resolver_rules more k f xs
unfolding delete_resolver_rules
delete_resolver_rules-ends k doc zero more f xs h g = absurd (omega (arith, h))
delete_resolver_rules-ends k doc (suc fuel) zero f xs h g = absurd (omega (arith, g))
delete_resolver_rules-ends k doc (suc fuel) (suc more) f xs h g =
    let r = any_resolver_rule f in
    after_delete-same (k.rule_del r xs) (λ left. delete_resolver_rules fuel k f left)
      (λ left. delete_resolver_rules more k f left)
      (λ e.
        let (x, c, gone) = doc.rule_deleted r xs e in
        let fewer = shorter x xs (k.rule_del r xs).0 gone in
        delete_resolver_rules-ends k doc fuel more f (k.rule_del r xs).0 (omega (arith, h, fewer))
          (omega (arith, g, fewer)))
