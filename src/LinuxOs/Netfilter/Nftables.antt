-- ===== src/LinuxOs/Netfilter/Nftables.antt =====
-- How nft(8) says that the rules of rustlib/src/bin/obscura/service/os/linux/netfilter.rs are read: the
-- expressions of a rule one after the other, with one register; a comparison that fails ends the
-- rule, a verdict ends the chain, and the chain's policy decides when no rule does.
use Prim.Native.Nat.{bit_and}
use obscuravpn_client.Prelude.{
  ℕ, Option, none, some, List, [], ◌∷◌, ◌++◌, if◌then◌else◌, unwrap_or, ◌≡◌, refl, ap, ◌∙◌,
}
use obscuravpn_client.LinuxOs.Netfilter.{
  Expr, meta_load, meta_set_mark, cmp_eq, ct_load_mark, ct_load_direction, ct_load_state,
  ct_set_mark, accept, drop, payload, bitwise_mask, Chain, nf_accept, nf_drop,
}
use obscuravpn_client.LinuxOs.Netfilter.Bytes.{same_bytes}

-- What the expressions load of a packet, as bytes.
pub record Packet : Type 0 where
  pub meta : ℕ → List ℕ
  pub ct_mark : List ℕ
  pub ct_direction : List ℕ
  pub ct_state : List ℕ
  pub header_bytes : ℕ → ℕ → ℕ → List ℕ

pub bytes_and : List ℕ → List ℕ → List ℕ
bytes_and [] bs = []
bytes_and (a ∷ as_) [] = []
bytes_and (a ∷ as_) (b ∷ bs) = bit_and a b ∷ bytes_and as_ bs

unfoldable pub run_rule : Packet → List ℕ → List Expr → Option ℕ
run_rule p register [] = none
run_rule p register (meta_load key ∷ rest) = run_rule p (p.meta key) rest
run_rule p register (meta_set_mark ∷ rest) = run_rule p register rest
run_rule p register (cmp_eq value ∷ rest) =
    let next = run_rule p register rest in if same_bytes register value then next else none
run_rule p register (ct_load_mark ∷ rest) = run_rule p p.ct_mark rest
run_rule p register (ct_load_direction ∷ rest) = run_rule p p.ct_direction rest
run_rule p register (ct_load_state ∷ rest) = run_rule p p.ct_state rest
run_rule p register (ct_set_mark ∷ rest) = run_rule p register rest
run_rule p register (accept ∷ rest) = some nf_accept
run_rule p register (drop ∷ rest) = some nf_drop
run_rule p register (payload base offset len ∷ rest) =
    run_rule p (p.header_bytes base offset len) rest
run_rule p register (bitwise_mask mask ∷ rest) = run_rule p (bytes_and register mask) rest

abbrev pub or_else : Option ℕ → Option ℕ → Option ℕ
or_else none other = other
or_else (some v) other = some v

unfoldable pub first_verdict : Packet → List (List Expr) → Option ℕ
first_verdict p [] = none
first_verdict p (rule ∷ rest) = or_else (run_rule p [] rule) (first_verdict p rest)

unfoldable pub chain_verdict : Chain → Packet → ℕ
chain_verdict c p = unwrap_or (first_verdict p c.rules) c.policy

or_else_assoc : (a b c : Option ℕ) → or_else a (or_else b c) ≡ or_else (or_else a b) c
or_else_assoc none b c = refl
or_else_assoc (some v) b c = refl

pub first_verdict-append :
    (p : Packet) (xs ys : List (List Expr))
    → first_verdict p (xs ++ ys) ≡ or_else (first_verdict p xs) (first_verdict p ys)
unfolding first_verdict
first_verdict-append p [] ys = refl
first_verdict-append p (x ∷ xs) ys =
    ap (or_else (run_rule p [] x)) (first_verdict-append p xs ys)
    ∙ or_else_assoc (run_rule p [] x) (first_verdict p xs) (first_verdict p ys)
