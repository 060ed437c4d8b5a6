-- ===== src/LinuxOs/Routes/Tables.antt =====
-- Tables of rustlib/src/bin/obscura/service/os/linux/routes/traffic_capture_routes.rs before and after
-- a change, and the sets that are read from them.
use obscuravpn_client.Prelude.{
  ℕ, suc, ◌≡◌, ◌≢◌, refl, sym, ap, ◌∙◌, ◌⊎◌, inl, inr, Bool, true, false, ◌&&◌, ◌||◌, Option, none,
  some, List, [], ◌∷◌, ◌++◌, any, retain, length, All, Among, ◌==◌, arith, Bool-cases,
}
use obscuravpn_client.NetworkConfig.{IpAddr, v4, v6}
use obscuravpn_client.LinuxOs.Routes.{RuleMessage, ip_eq, resolver_rule_destination}
use obscuravpn_client.LinuxOs.Routes.Enforcer.{
  Answer, done, netlink_error, other_error, ip_lt, set_insert, insert_found, have_resolver_rules,
  is_subset, set_eq,
}
use obscuravpn_client.LinuxOs.Routes.Kernel.{Inserted, Removed}

pub Answer-cases : (a : Answer) → (a ≡ done) ⊎ (a ≢ done)
Answer-cases done = inl refl
Answer-cases (netlink_error c) = inr (λ e. ground arith)
Answer-cases other_error = inr (λ e. ground arith)

pub retain-append :
    {A : Type 0} (p : A → Bool) (xs ys : List A) → retain p (xs ++ ys) ≡ retain p xs ++ retain p ys
retain-append p [] ys = refl
retain-append p (x ∷ xs) ys = elim (Bool-cases (p x)) [
  | inl kept ↦ rw kept (ap (λ zs. x ∷ zs) (retain-append p xs ys))
  | inr dropped ↦ rw dropped (retain-append p xs ys)
]

pub retain-none :
    {A : Type 0} (p : A → Bool) (old : List A) → All (λ o. p o ≡ false) old → retain p old ≡ []
retain-none p [] h = refl
retain-none p (x ∷ xs) (h, hs) = rw h (retain-none p xs hs)

pub retain-skip :
    {A : Type 0} (p : A → Bool) (x : A) (xs : List A)
    → p x ≡ false
    → retain p (x ∷ xs) ≡ retain p xs
retain-skip p x xs h = rw h refl

pub retain-Inserted :
    {A : Type 0} (p : A → Bool) (old : List A) (x : A) (before after : List A)
    → Inserted old x before after
    → All (λ o. p o ≡ false) old
    → p x ≡ false
    → retain p after ≡ retain p before
retain-Inserted p old x before after i gone h =
    ap (retain p) i.becomes
    ∙ retain-append p i.front (x ∷ i.back)
    ∙ ap (λ zs. retain p i.front ++ zs)
        (retain-skip p x i.back h
          ∙ sym (
              retain-append p old i.back
              ∙ ap (λ zs. zs ++ retain p i.back) (retain-none p old gone)))
    ∙ sym (retain-append p i.front (old ++ i.back))
    ∙ sym (ap (retain p) i.was)

pub retain-Removed :
    {A : Type 0} (p : A → Bool) (x : A) (before after : List A)
    → Removed x before after
    → p x ≡ false
    → retain p after ≡ retain p before
retain-Removed p x before after r h =
    ap (retain p) r.keeps
    ∙ retain-append p r.left_front r.left_back
    ∙ ap (λ zs. retain p r.left_front ++ zs) (sym (retain-skip p x r.left_back h))
    ∙ sym (retain-append p r.left_front (x ∷ r.left_back))
    ∙ sym (ap (retain p) r.had)

or_twice : (a b : Bool) → (a || b) ≡ (a || (a || b))
or_twice true b = refl
or_twice false b = refl

both : (a b : Bool) → a ≡ true → (a || b) ≡ false → ⊥
both a b h e = ground arith

second : (a b : Bool) → (a || b) ≡ false → b ≡ false
second a b h = ground arith

both_true : (a b : Bool) → a ≡ true → b ≡ true → (a && b) ≡ true
both_true a b h e = ground arith

or_right : (a b : Bool) → b ≡ true → (a || b) ≡ true
or_right a b h = ground arith

or_swap : (a b c : Bool) → (a || (b || c)) ≡ (b || (a || c))
or_swap true true c = refl
or_swap true false c = refl
or_swap false b c = refl

pub any-insert :
    {A : Type 0} (p : A → Bool) (xs : List A) (x : A) (ys : List A)
    → any p (xs ++ (x ∷ ys)) ≡ (p x || any p (xs ++ ys))
any-insert p [] x ys = refl
any-insert p (z ∷ xs) x ys = ap (λ b. p z || b) (any-insert p xs x ys) ∙ or_swap (p z) (p x) _

pub any-Inserted :
    {A : Type 0} (p : A → Bool) (x : A) (before after : List A)
    → Inserted [] x before after
    → any p after ≡ (p x || any p before)
any-Inserted p x before after i =
    ap (any p) i.becomes ∙ any-insert p i.front x i.back ∙ ap (λ b. p x || any p b) (sym i.was)

pub any-Among :
    {A : Type 0} (p : A → Bool) (x : A) (xs : List A) → Among x xs → any p xs ≡ (p x || any p xs)
any-Among p x [] m = absurd m
any-Among p x (z ∷ xs) (inl e) = rw e (or_twice (p x) _)
any-Among p x (z ∷ xs) (inr m) = ap (λ b. p z || b) (any-Among p x xs m) ∙ or_swap (p z) (p x) _

-- The length goes down when an entry is removed.
length-insert :
    {A : Type 0} (xs : List A) (x : A) (ys : List A)
    → length (xs ++ (x ∷ ys)) ≡ suc (length (xs ++ ys))
length-insert [] x ys = refl
length-insert (z ∷ xs) x ys = ap suc (length-insert xs x ys)

pub length-Removed :
    {A : Type 0} (x : A) (before after : List A)
    → Removed x before after
    → length before ≡ suc (length after)
length-Removed x before after r =
    ap length r.had
    ∙ length-insert r.left_front x r.left_back
    ∙ ap (λ zs. suc (length zs)) (sym r.keeps)

pub any-none :
    {A : Type 0} (p q : A → Bool) (xs : List A)
    → ((x : A) → p x ≡ true → q x ≡ true)
    → any q xs ≡ false
    → any p xs ≡ false
any-none p q [] h e = refl
any-none p q (x ∷ xs) h e = elim (Bool-cases (p x)) [
  | inl e' ↦ absurd (both (q x) (any q xs) (h x e') e)
  | inr e' ↦ rw e' (any-none p q xs h (second (q x) (any q xs) e))
]

-- Sets of addresses.
ip_eq_refl : (a : IpAddr) → ip_eq a a ≡ true
unfolding ip_eq
ip_eq_refl (v4 a) = ground arith
ip_eq_refl (v6 a) = ground arith

equal_numbers : (a b : ℕ) → (a == b) ≡ true → a ≡ b
equal_numbers a b h = ground arith

ip_eq_sound : (a b : IpAddr) → ip_eq a b ≡ true → a ≡ b
unfolding ip_eq
ip_eq_sound (v4 a) (v4 b) h = ap v4 (equal_numbers a b h)
ip_eq_sound (v6 a) (v6 b) h = ap v6 (equal_numbers a b h)
ip_eq_sound (v4 a) (v6 b) h = absurd (ground arith)
ip_eq_sound (v6 a) (v4 b) h = absurd (ground arith)

pub any-set_insert :
    (a b : IpAddr) (xs : List IpAddr)
    → any (ip_eq a) (set_insert b xs) ≡ (ip_eq a b || any (ip_eq a) xs)
unfolding set_insert
any-set_insert a b [] = refl
any-set_insert a b (x ∷ xs) = elim (Bool-cases (ip_eq b x)) [
  | inl same ↦ rw same (
      sym (
        ap (λ c. ip_eq a c || (ip_eq a x || any (ip_eq a) xs)) (ip_eq_sound b x same)
        ∙ sym (or_twice (ip_eq a x) _)))
  | inr other ↦ elim (Bool-cases (ip_lt b x)) [
    | inl first ↦ rw (other, first) refl
    | inr later ↦
        rw (other, later)
          (ap (λ c. ip_eq a x || c) (any-set_insert a b xs) ∙ or_swap (ip_eq a x) (ip_eq a b) _)
  ]
]

unfoldable pub same_ip : IpAddr → Option IpAddr → Bool
same_ip a none = false
same_ip a (some b) = ip_eq a b

-- A rule sends an address into the table.
abbrev pub sends : IpAddr → RuleMessage → Bool
sends a x = same_ip a (resolver_rule_destination x)

any-insert_found :
    (a : IpAddr) (found : Option IpAddr) (xs : List IpAddr)
    → any (ip_eq a) (insert_found found xs) ≡ (same_ip a found || any (ip_eq a) xs)
unfolding insert_found same_ip
any-insert_found a none xs = refl
any-insert_found a (some b) xs = any-set_insert a b xs

pub any-have_resolver_rules :
    (a : IpAddr) (rules : List RuleMessage)
    → any (ip_eq a) (have_resolver_rules rules) ≡ any (sends a) rules
unfolding have_resolver_rules
any-have_resolver_rules a [] = refl
any-have_resolver_rules a (r ∷ rules) =
    any-insert_found a (resolver_rule_destination r) (have_resolver_rules rules)
    ∙ ap (λ b. sends a r || b) (any-have_resolver_rules a rules)

is_subset_all :
    (xs ys : List IpAddr)
    → ((a : IpAddr) → any (ip_eq a) xs ≡ true → any (ip_eq a) ys ≡ true)
    → is_subset xs ys ≡ true
unfolding is_subset
is_subset_all [] ys h = refl
is_subset_all (x ∷ xs) ys h =
    both_true (any (ip_eq x) ys) (is_subset xs ys)
      (h x (ap (λ b. b || any (ip_eq x) xs) (ip_eq_refl x)))
      (is_subset_all xs ys (λ a e. h a (or_right (ip_eq a x) _ e)))

pub set_eq_all :
    (xs ys : List IpAddr)
    → ((a : IpAddr) → any (ip_eq a) xs ≡ any (ip_eq a) ys)
    → set_eq xs ys ≡ true
unfolding set_eq
set_eq_all xs ys h =
    both_true (is_subset xs ys) (is_subset ys xs) (is_subset_all xs ys (λ a e. sym (h a) ∙ e))
      (is_subset_all ys xs (λ a e. h a ∙ e))
