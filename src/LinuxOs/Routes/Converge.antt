-- ===== src/LinuxOs/Routes/Converge.antt =====
-- `apply_routing` of rustlib/src/bin/obscura/service/os/linux/routes/traffic_capture_routes.rs brings
-- about what `routing_dirty` looks for.
use obscuravpn_client.Prelude.{
  ℕ, zero, suc, ◌≡◌, ◌≢◌, refl, sym, ap, ◌∙◌, ◌⊎◌, inl, inr, Bool, true, false, ◌||◌, Option, none,
  some, List, [], ◌∷◌, any, All, ◌==◌, arith, Bool-cases,
}
use obscuravpn_client.NetworkConfig.{IpAddr, ok, err}
use obscuravpn_client.LinuxOs.Routes.{
  AddressFamily, RuleMessage, any_resolver_rule, resolver_rule_destination,
}
use obscuravpn_client.LinuxOs.Routes.Enforcer.{
  Netlink, Answer, done, netlink_error, other_error, Rules, after_delete, delete_resolver_rules,
  then_rules, answered_rules, tolerated, add_rules, eexist, enoent,
}
use obscuravpn_client.LinuxOs.Routes.Kernel.{Shown, selects, Documented}
use obscuravpn_client.LinuxOs.Routes.Tables.{any-Inserted, any-Among, any-none, sends, same_ip}
use obscuravpn_client.LinuxOs.Routes.Recognised.{resolver_rule_destination-selects}

-- A test of the rules that are shown, foretold from the request.
unfoldable pub Foretold : (RuleMessage → Bool) → (RuleMessage → Bool) → RuleMessage → Type 0
Foretold p v r = (x : RuleMessage) → Shown r x → p x ≡ v r

pub tolerated-ok :
    (code : ℕ) (a : Answer) → tolerated code a ≡ ok tt → (a ≡ done) ⊎ (a ≡ netlink_error code)
unfolding tolerated
tolerated-ok code done h = inl refl
tolerated-ok code (netlink_error c) h = elim (Bool-cases (c == code)) [
  | inl e ↦ inr (ap netlink_error (ground arith))
  | inr e ↦ let failed : err tt ≡ ok tt = rw e at h in absurd (ground arith)
]
tolerated-ok code other_error h = absurd (ground arith)

pub answered_rules-both :
    (code : ℕ) (a : List RuleMessage × Answer)
    → ((answered_rules code a).0 ≡ a.0) × ((answered_rules code a).1 ≡ tolerated code a.1)
unfolding answered_rules
answered_rules-both code (rules, answer) = (refl, refl)

-- Both parts of a chain succeed.
pub then_rules-ok :
    (first : Rules) (next : List RuleMessage → Rules)
    → (then_rules first next).1 ≡ ok tt
    → (first.1 ≡ ok tt)
      × ((next first.0).1 ≡ ok tt)
      × ((then_rules first next).0 ≡ (next first.0).0)
unfolding then_rules
then_rules-ok (rules, ok u) next h = (refl, h, refl)
then_rules-ok (rules, err e) next h = absurd (ground arith)

or_assoc : (a b c : Bool) → (a || (b || c)) ≡ ((b || a) || c)
or_assoc true true c = refl
or_assoc true false c = refl
or_assoc false true c = refl
or_assoc false false c = refl

not_exists : netlink_error eexist ≢ done
not_exists e = ground arith

not_missing : netlink_error enoent ≢ done
not_missing e = ground arith

module _ (k : Netlink) (doc : Documented k) where
  -- A rule that is accepted is in the table, next to what was there.
  rule_add-any :
      (p : RuleMessage → Bool) (v : RuleMessage → Bool) (r : RuleMessage) (xs : List RuleMessage)
      → Foretold p v r
      → (answered_rules eexist (k.rule_add r xs)).1 ≡ ok tt
      → any p (answered_rules eexist (k.rule_add r xs)).0 ≡ (v r || any p xs)
  unfolding Foretold
  rule_add-any p v r xs fore h =
      let (same, answer) = answered_rules-both eexist (k.rule_add r xs) in
      ap (any p) same ∙ elim (tolerated-ok eexist (k.rule_add r xs).1 (sym answer ∙ h)) [
        | inl e ↦
            let (x, s, i) = doc.rule_added r xs e in
            any-Inserted p x xs (k.rule_add r xs).0 i ∙ ap (λ b. b || any p xs) (fore x s)
        | inr e ↦
            let (x, s, there) = doc.rule_exists r xs e in
            ap (any p) (doc.rule_not_added r xs (λ d. not_exists (sym e ∙ d)))
            ∙ any-Among p x xs there
            ∙ ap (λ b. b || any p xs) (fore x s)
      ]

  pub add_rules-any :
      (p : RuleMessage → Bool) (v : RuleMessage → Bool) (rs xs : List RuleMessage)
      → All (Foretold p v) rs
      → (add_rules k rs xs).1 ≡ ok tt
      → any p (add_rules k rs xs).0 ≡ (any v rs || any p xs)
  unfolding add_rules
  add_rules-any p v [] xs fore h = refl
  add_rules-any p v (r ∷ rs) xs (fore, fores) h =
      let (first, rest, result) =
        then_rules-ok (answered_rules eexist (k.rule_add r xs)) (add_rules k rs) h in
      ap (any p) result
      ∙ add_rules-any p v rs (answered_rules eexist (k.rule_add r xs)).0 fores rest
      ∙ ap (λ b. any v rs || b) (rule_add-any p v r xs fore first)
      ∙ or_assoc (any v rs) (v r) (any p xs)

  after_delete-none :
      (q : RuleMessage → Bool) (a : List RuleMessage × Answer) (again : List RuleMessage → Rules)
      → (a.1 ≡ netlink_error enoent → any q a.0 ≡ false)
      → ((ys : List RuleMessage) → (again ys).1 ≡ ok tt → any q (again ys).0 ≡ false)
      → (after_delete a again).1 ≡ ok tt
      → any q (after_delete a again).0 ≡ false
  unfolding after_delete
  after_delete-none q (rules, done) again miss next h = next rules h
  after_delete-none q (rules, netlink_error c) again miss next h = elim (Bool-cases (c == enoent)) [
    | inl e ↦ miss (ap netlink_error (ground arith))
    | inr e ↦ let failed : err tt ≡ ok tt = rw e at h in absurd (ground arith)
  ]
  after_delete-none q (rules, other_error) again miss next h = absurd (ground arith)

  -- After the loop no rule is selected any more.
  pub delete_resolver_rules-none :
      (fuel : ℕ) (f : AddressFamily) (xs : List RuleMessage)
      → (delete_resolver_rules fuel k f xs).1 ≡ ok tt
      → any (selects (any_resolver_rule f)) (delete_resolver_rules fuel k f xs).0 ≡ false
  unfolding delete_resolver_rules
  delete_resolver_rules-none zero f xs h = absurd (ground arith)
  delete_resolver_rules-none (suc fuel) f xs h =
      let r = any_resolver_rule f in
      after_delete-none (selects r) (k.rule_del r xs) (λ left. delete_resolver_rules fuel k f left)
        (λ e.
          ap (any (selects r)) (doc.rule_not_deleted r xs (λ d. not_missing (sym e ∙ d)))
          ∙ doc.rule_missing r xs e)
        (λ ys g. delete_resolver_rules-none fuel f ys g) h

found_same :
    (a : IpAddr) (found : Option IpAddr) → same_ip a found ≡ true → (b : IpAddr) × (found ≡ some b)
unfolding same_ip
found_same a none h = absurd (ground arith)
found_same a (some b) h = (b, refl)

pub sends-selects :
    (f : AddressFamily) (a : IpAddr) (x : RuleMessage)
    → sends a x ≡ true
    → selects (any_resolver_rule f) x ≡ true
sends-selects f a x h =
    let (b, found) = found_same a (resolver_rule_destination x) h in
    resolver_rule_destination-selects f x b found

-- No rule is left that sends an address into the table.
pub sends_none :
    (f : AddressFamily) (a : IpAddr) (xs : List RuleMessage)
    → any (selects (any_resolver_rule f)) xs ≡ false
    → any (sends a) xs ≡ false
sends_none f a xs h = any-none (sends a) (selects (any_resolver_rule f)) xs (sends-selects f a) h
