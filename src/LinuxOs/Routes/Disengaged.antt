-- ===== src/LinuxOs/Routes/Disengaged.antt =====
-- Without a tunnel, `apply_routing` of
-- rustlib/src/bin/obscura/service/os/linux/routes/traffic_capture_routes.rs takes away what
-- `routing_dirty` complains about, entry by entry.
use obscuravpn_client.Prelude.{
  ℕ, zero, suc, ◌+◌, ◌<◌, ◌≡◌, ◌≢◌, refl, sym, ap, ◌∙◌, ◌⊎◌, inl, inr, true, false, Option, none,
  some, List, [], ◌∷◌, any, length, arith,
}
use obscuravpn_client.NetworkConfig.{ok, err}
use obscuravpn_client.LinuxOs.{disengage}
use obscuravpn_client.LinuxOs.Routes.{
  AddressFamily, RuleMessage, RouteMessage, any_resolver_rule, suppress_rule, capture_rule,
  capture_route, is_suppress_rule, is_capture_rule, is_capture_route,
}
use obscuravpn_client.LinuxOs.Routes.Enforcer.{
  Netlink, Answer, done, netlink_error, other_error, FamilyTables, Rules, after_delete,
  delete_resolver_rules, then_rules, answered_rules, delete_rules, answered_routes, change_rules,
  change_route, route_tolerance, apply_family, wanted_resolver_rules, have_resolver_rules, enoent,
  esrch, tolerated, family_dirty, dumped_dirty, check_family, is_engaged,
}
use obscuravpn_client.LinuxOs.Routes.Kernel.{selects, is_route, Removed, Documented}
use obscuravpn_client.LinuxOs.Routes.Tables.{
  any-none, length-Removed, any-have_resolver_rules, set_eq_all,
}
use obscuravpn_client.LinuxOs.Routes.Recognised.{suppress_rule-selects, capture_rule-selects}
use obscuravpn_client.LinuxOs.Routes.Converge.{
  then_rules-ok, tolerated-ok, answered_rules-both, delete_resolver_rules-none, sends_none,
}
use obscuravpn_client.LinuxOs.Routes.Engaged.{then_route-ok}

-- Shorter, or the same and with nothing that the request selects.
abbrev Less : {A : Type 0} → List A → List A → Type 0 → Type 0
Less before after P = (length after < length before) ⊎ ((after ≡ before) × P)

-- Two changes in a row.
Less-trans :
    {A : Type 0} (xs ys zs : List A) (P Q R : Type 0)
    → Less xs ys P
    → Less ys zs Q
    → (ys ≡ xs → P → Q → R)
    → Less xs zs R
Less-trans xs ys zs P Q R (inl p) (inl q) f = inl (omega (arith, p, q))
Less-trans xs ys zs P Q R (inl p) (inr (e, q)) f = inl (rw e p)
Less-trans xs ys zs P Q R (inr (e, p)) (inl q) f = inl (omega (arith, q, ap length e))
Less-trans xs ys zs P Q R (inr (e, p)) (inr (g, q)) f = inr (g ∙ e, f e p q)

no_rule : netlink_error enoent ≢ done
no_rule e = ground arith

no_route : netlink_error esrch ≢ done
no_route e = ground arith

pub shorter : {A : Type 0} (x : A) (xs ys : List A) → Removed x xs ys → length ys < length xs
shorter x xs ys r = omega (arith, length-Removed x xs ys r)

answered_routes-all :
    (rules : List RuleMessage) (a : List RouteMessage × Answer)
    → let after = answered_routes (some esrch) rules a in
      (after.0.rules ≡ rules) × (after.0.routes ≡ a.0) × (after.1 ≡ tolerated esrch a.1)
unfolding answered_routes
answered_routes-all rules (routes, answer) = (refl, refl, refl)

sizes :
    {P Q : Type 0} {rules rules' : List RuleMessage} {routes routes' : List RouteMessage} {m n : ℕ}
    → m ≡ length rules'
    → n ≡ length routes'
    → Less rules rules' P
    → Less routes routes' Q
    → (m + n < length rules + length routes) ⊎ ((P × Q) × (m + n ≡ length rules + length routes))
sizes e g (inl p) (inl q) = inl (omega (arith, e, g, p, q))
sizes e g (inl p) (inr (same, q)) = inl (omega (arith, e, g, p, ap length same))
sizes e g (inr (same, p)) (inl q) = inl (omega (arith, e, g, q, ap length same))
sizes e g (inr (same, p)) (inr (also, q)) =
    inr ((p, q), omega (arith, e, g, ap length same, ap length also))

-- The entries of a family's tables.
abbrev pub size : FamilyTables → ℕ
size t = length t.rules + length t.routes

check-clean :
    (rules : Option (List RuleMessage)) (routes : Option (List RouteMessage)) (tun : ℕ)
    (f : AddressFamily) (t : FamilyTables)
    → (rules ≡ none) ⊎ (rules ≡ some t.rules)
    → (routes ≡ none) ⊎ (routes ≡ some t.routes)
    → family_dirty tun disengage f t.rules t.routes ≡ false
    → dumped_dirty tun disengage f rules routes ≢ ok true
unfolding dumped_dirty
check-clean rules routes tun f t (inl r) s h =
    λ e. let failed : err tt ≡ ok true = rw r at e in absurd (ground arith)
check-clean rules routes tun f t (inr r) (inl s) h =
    λ e. let failed : err tt ≡ ok true = rw (r, s) at e in absurd (ground arith)
check-clean rules routes tun f t (inr r) (inr s) h =
    λ e. let clean : ok false ≡ ok true = rw (r, s, h) at e in absurd (ground arith)

module _ (k : Netlink) (doc : Documented k) where
  rule_del-Less :
      (r : RuleMessage) (xs : List RuleMessage)
      → (answered_rules enoent (k.rule_del r xs)).1 ≡ ok tt
      → Less xs (answered_rules enoent (k.rule_del r xs)).0 (any (selects r) xs ≡ false)
  rule_del-Less r xs h =
      let (same, answer) = answered_rules-both enoent (k.rule_del r xs) in
      elim (tolerated-ok enoent (k.rule_del r xs).1 (sym answer ∙ h)) [
        | inl e ↦
            let (x, c, gone) = doc.rule_deleted r xs e in
            inl (rw same (shorter x xs (k.rule_del r xs).0 gone))
        | inr e ↦
            inr
              (same ∙ doc.rule_not_deleted r xs (λ d. no_rule (sym e ∙ d)), doc.rule_missing r xs e)
      ]

  after_delete-shorter :
      (xs : List RuleMessage) (a : List RuleMessage × Answer) (again : List RuleMessage → Rules)
      → (a.1 ≡ done → length a.0 < length xs)
      → (a.1 ≢ done → a.0 ≡ xs)
      → ((ys : List RuleMessage) → (length (again ys).0 < length ys) ⊎ ((again ys).0 ≡ ys))
      → (length (after_delete a again).0 < length xs) ⊎ ((after_delete a again).0 ≡ xs)
  unfolding after_delete
  after_delete-shorter xs (rules, done) again less same next = elim (next rules) [
    | inl p ↦ let fewer = less refl in inl (omega (arith, p, fewer))
    | inr e ↦ inl (rw e (less refl))
  ]
  after_delete-shorter xs (rules, netlink_error c) again less same next =
      inr (same (λ e. ground arith))
  after_delete-shorter xs (rules, other_error) again less same next = inr (same (λ e. ground arith))

  delete_resolver_rules-shorter :
      (fuel : ℕ) (f : AddressFamily) (xs : List RuleMessage)
      → (length (delete_resolver_rules fuel k f xs).0 < length xs)
        ⊎ ((delete_resolver_rules fuel k f xs).0 ≡ xs)
  unfolding delete_resolver_rules
  delete_resolver_rules-shorter zero f xs = inr refl
  delete_resolver_rules-shorter (suc fuel) f xs =
      let r = any_resolver_rule f in
      after_delete-shorter xs (k.rule_del r xs) (λ left. delete_resolver_rules fuel k f left)
        (λ e. let (x, c, gone) = doc.rule_deleted r xs e in shorter x xs (k.rule_del r xs).0 gone)
        (doc.rule_not_deleted r xs) (λ ys. delete_resolver_rules-shorter fuel f ys)

  delete_resolver_rules-Less :
      (fuel : ℕ) (f : AddressFamily) (xs : List RuleMessage)
      → (delete_resolver_rules fuel k f xs).1 ≡ ok tt
      → Less xs
          (delete_resolver_rules fuel k f xs).0
          (any (selects (any_resolver_rule f)) xs ≡ false)
  delete_resolver_rules-Less fuel f xs h = elim (delete_resolver_rules-shorter fuel f xs) [
    | inl p ↦ inl p
    | inr e ↦ inr (
      e,
      ap (any (selects (any_resolver_rule f))) (sym e)
          ∙ delete_resolver_rules-none k doc fuel f xs h,
    )
  ]

  -- The two rules of a family.
  abbrev NoneOf : AddressFamily → List RuleMessage → Type 0
  NoneOf f xs =
      (any (selects (suppress_rule f)) xs ≡ false) × (any (selects (capture_rule f)) xs ≡ false)

  delete_rules-Less :
      (f : AddressFamily) (xs : List RuleMessage)
      → (delete_rules k (suppress_rule f ∷ capture_rule f ∷ []) xs).1 ≡ ok tt
      → Less xs (delete_rules k (suppress_rule f ∷ capture_rule f ∷ []) xs).0 (NoneOf f xs)
  unfolding delete_rules
  delete_rules-Less f xs h =
      let first = answered_rules enoent (k.rule_del (suppress_rule f) xs) in
      let (first_ok, rest_ok, result) =
        then_rules-ok first (delete_rules k (capture_rule f ∷ [])) h in
      let second = answered_rules enoent (k.rule_del (capture_rule f) first.0) in
      let (second_ok, end_ok, end_result) = then_rules-ok second (delete_rules k []) rest_ok in
      rw (result ∙ end_result) (
        Less-trans xs first.0 second.0 _ _ (NoneOf f xs)
          (rule_del-Less (suppress_rule f) xs first_ok)
          (rule_del-Less (capture_rule f) first.0 second_ok)
          (λ e p q. (p, ap (any (selects (capture_rule f))) (sym e) ∙ q)))

  route_del-Less :
      (tun : ℕ) (f : AddressFamily) (rules : List RuleMessage) (xs : List RouteMessage)
      → let after = answered_routes (some esrch) rules (k.route_del (capture_route tun f) xs) in
        after.1 ≡ ok tt
        → (after.0.rules ≡ rules)
          × Less xs after.0.routes (any (is_route (capture_route tun f)) xs ≡ false)
  route_del-Less tun f rules xs h =
      let q = capture_route tun f in
      let (same, routes, answer) = answered_routes-all rules (k.route_del q xs) in
      (
        same,
        elim (tolerated-ok esrch (k.route_del q xs).1 (sym answer ∙ h)) [
          | inl e ↦
              let (x, mine, gone) = doc.route_deleted q xs e in
              inl (rw routes (shorter x xs (k.route_del q xs).0 gone))
          | inr e ↦ inr (
            routes ∙ doc.route_not_deleted q xs (λ d. no_route (sym e ∙ d)),
            doc.route_missing q xs e,
          )
        ],
      )

  -- Nothing that a check of the family would find.
  Clean : ℕ → AddressFamily → FamilyTables → Type 0
  Clean tun f t =
      ((any (selects (any_resolver_rule f)) t.rules ≡ false) × NoneOf f t.rules)
      × (any (is_route (capture_route tun f)) t.routes ≡ false)

  apply_family-Less :
      (tun : ℕ) (f : AddressFamily) (t : FamilyTables)
      → (apply_family k tun disengage f t).1 ≡ ok tt
      → (size (apply_family k tun disengage f t).0 < size t)
        ⊎ (Clean tun f t × (size (apply_family k tun disengage f t).0 ≡ size t))
  unfolding apply_family change_rules change_route route_tolerance Clean
  apply_family-Less tun f t h =
      let deleted = delete_resolver_rules (suc (length t.rules)) k f t.rules in
      let changed = then_rules deleted (delete_rules k (suppress_rule f ∷ capture_rule f ∷ [])) in
      let (rules_ok, same) =
        then_route-ok changed t.routes (some esrch) (k.route_del (capture_route tun f)) h in
      let (deleted_ok, pair_ok, result) =
        then_rules-ok deleted (delete_rules k (suppress_rule f ∷ capture_rule f ∷ [])) rules_ok in
      let (rules_same, routes_less) =
        route_del-Less tun f changed.0 t.routes (sym (ap (λ z. z.1) same) ∙ h) in
      let rules_after = ap (λ z. length z.0.rules) same ∙ ap length rules_same in
      let routes_after = ap (λ z. length z.0.routes) same in
      let rules_less : Less t.rules changed.0
          ((any (selects (any_resolver_rule f)) t.rules ≡ false) × NoneOf f t.rules) =
        rw result (
          Less-trans t.rules deleted.0 _ _ _ _
            (delete_resolver_rules-Less (suc (length t.rules)) f t.rules deleted_ok)
            (delete_rules-Less f deleted.0 pair_ok)
            (λ e p q. (
              p,
              (
                ap (any (selects (suppress_rule f))) (sym e) ∙ q.0,
                ap (any (selects (capture_rule f))) (sym e) ∙ q.1,
              ),
            ))) in
      sizes rules_after routes_after rules_less routes_less

  family_dirty-Clean :
      (tun : ℕ) (f : AddressFamily) (t : FamilyTables)
      → Clean tun f t
      → family_dirty tun disengage f t.rules t.routes ≡ false
  unfolding Clean family_dirty is_engaged is_route is_capture_route capture_route
      wanted_resolver_rules
  family_dirty-Clean tun f t ((resolvers, (suppresses, captures)), routes) =
      let no_suppress =
        any-none is_suppress_rule (selects (suppress_rule f)) t.rules (suppress_rule-selects f)
          suppresses in
      let no_capture =
        any-none is_capture_rule (selects (capture_rule f)) t.rules (capture_rule-selects f)
          captures in
      let no_resolver =
        set_eq_all (have_resolver_rules t.rules) []
          (λ a. any-have_resolver_rules a t.rules ∙ sends_none f a t.rules resolvers) in
      rw (no_suppress, no_capture, routes, no_resolver) refl

  -- What is complained about is taken away.
  pub apply_family-shrinks :
      (tun : ℕ) (f : AddressFamily) (t : FamilyTables)
      → (apply_family k tun disengage f t).1 ≡ ok tt
      → (size (apply_family k tun disengage f t).0 < size t)
        ⊎ ((check_family k tun disengage f t ≢ ok true)
            × (size (apply_family k tun disengage f t).0 ≡ size t))
  unfolding check_family dumped_dirty
  apply_family-shrinks tun f t h = elim (apply_family-Less tun f t h) [
    | inl p ↦ inl p
    | inr c ↦ inr (
      check-clean (k.rule_get t.rules) (k.route_get t.routes) tun f t (doc.rule_dump t.rules)
          (doc.route_dump t.routes) (family_dirty-Clean tun f t c.0),
      c.1,
    )
  ]
