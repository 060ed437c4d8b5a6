-- ===== src/Prelude/Maps.antt =====
-- Keys with a Boolean equality, and maps as association lists.
use Prim.Native.Nat.{ℕ}
use Prim.Native.String.{String}
use text.Mathlib.TextEquality.{eq_iff}
use mathlib.Core.Path.{◌≡◌}
use mathlib.Core.Logic.{◌↔◌, ◌≢◌}
use mathlib.Core.Bool.{Bool, true}
use mathlib.Core.Option.{Option, none, some}
use mathlib.Core.List.{List, [], ◌∷◌}
use native.Mathlib.Omega.{arith}
use obscuravpn_client.Prelude.Tests.{if◌then◌else◌, str_eq, ◌==◌}

-- `PartialEq` for a type of keys.
pub record Eq (A : Type 0) : Type 0 where
  pub beq : A → A → Bool
  pub beq_iff : (a b : A) → (beq a b ≡ true) ↔ (a ≡ b)

pub nat_eq_iff : (a b : ℕ) → ((a == b) ≡ true) ↔ (a ≡ b)
nat_eq_iff a b = (λ h. ground arith, λ h. ground arith)

abbrev pub nat_keys : Eq ℕ
nat_keys = record { beq = λ a b. a == b; beq_iff = nat_eq_iff }

abbrev pub text_keys : Eq String
text_keys = record { beq = str_eq; beq_iff = eq_iff }

module _ {K V : Type 0} (keys : Eq K) where
  -- `HashMap::get`.
  abbrev pub lookup : K → List (K × V) → Option V
  lookup k [] = none
  lookup k ((j, v) ∷ m) = if keys.beq j k then some v else lookup k m

  -- `HashMap::insert`.
  abbrev pub insert : K → V → List (K × V) → List (K × V)
  insert k v [] = (k, v) ∷ []
  insert k v ((j, w) ∷ m) = if keys.beq j k then (k, v) ∷ m else (j, w) ∷ insert k v m

  pub lookup-insert_self : (k : K) (v : V) (m : List (K × V)) → lookup k (insert k v m) ≡ some v
  lookup-insert_self k v [] = ground (arith, keys.beq_iff k k)
  lookup-insert_self k v (e ∷ m) = ground (arith, keys.beq_iff k k, lookup-insert_self k v m)

  pub lookup-insert_ne :
      (j k : K) (v : V) (m : List (K × V)) → j ≢ k → lookup j (insert k v m) ≡ lookup j m
  lookup-insert_ne j k v [] h = ground (arith, keys.beq_iff k j)
  lookup-insert_ne j k v (e ∷ m) h =
      ground (
        arith,
        keys.beq_iff k j,
        keys.beq_iff e.0 k,
        keys.beq_iff e.0 j,
        lookup-insert_ne j k v m h,
      )
