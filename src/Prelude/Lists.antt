-- ===== src/Prelude/Lists.antt =====
-- Lists over the native numbers.
use Prim.Native.Nat.{ℕ, zero, suc, ◌+◌}
use mathlib.Core.Path.{◌≡◌, refl, subst, sym}
use mathlib.Core.Logic.{◌⊎◌, inl, inr}
use mathlib.Core.Bool.{Bool, true, false, ◌||◌}
use mathlib.Core.Option.{Option, none, some}
use mathlib.Core.List.{List, [], ◌∷◌, ◌++◌}
use native.Mathlib.Omega.{arith}
use obscuravpn_client.Prelude.Tests.{if◌then◌else◌, Bool-cases}

module _ {ℓ} {A : Type ℓ} where
  abbrev pub length : List A → ℕ
  length [] = 0
  length (x ∷ xs) = suc (length xs)

  abbrev pub get_elem? : List A → ℕ → Option A
  get_elem? [] i = none
  get_elem? (x ∷ xs) zero = some x
  get_elem? (x ∷ xs) (suc i) = get_elem? xs i

  abbrev pub drop : ℕ → List A → List A
  drop zero xs = xs
  drop (suc n) [] = []
  drop (suc n) (x ∷ xs) = drop n xs

  abbrev pub head? : List A → Option A
  head? [] = none
  head? (x ∷ xs) = some x

  abbrev pub any : (A → Bool) → List A → Bool
  any p [] = false
  any p (x ∷ xs) = p x || any p xs

  -- `retain` and `filter` of the source, with a Boolean test.
  abbrev pub retain : (A → Bool) → List A → List A
  retain p [] = []
  retain p (x ∷ xs) = let rest = retain p xs in if p x then x ∷ rest else rest

  pub length-append : (xs ys : List A) → length (xs ++ ys) ≡ length xs + length ys
  length-append [] ys = omega arith
  length-append (x ∷ xs) ys = omega (arith, length-append xs ys)

  -- A property of every element.
  abbrev pub All {κ} : (A → Type κ) → List A → Type κ
  All P [] = Unit
  All P (x ∷ xs) = P x × All P xs

-- Membership, with the place kept.
abbrev pub Among : {A : Type 0} → A → List A → Type 0
Among a [] = ⊥
Among a (x ∷ xs) = (x ≡ a) ⊎ Among a xs

Among-kept :
    {A : Type 0} (p : A → Bool) (a x : A) (xs : List A)
    → p x ≡ true
    → (x ≡ a) ⊎ (Among a xs × (p a ≡ true))
    → ((x ≡ a) ⊎ Among a xs) × (p a ≡ true)
Among-kept p a x xs h (inl e) = (inl e, subst (λ y. p y ≡ true) e h)
Among-kept p a x xs h (inr (m, q)) = (inr m, q)

Among-rest :
    {A : Type 0} (p : A → Bool) (a x : A) (xs : List A)
    → (Among a (retain p xs) → Among a xs × (p a ≡ true))
    → (x ≡ a) ⊎ Among a (retain p xs)
    → (x ≡ a) ⊎ (Among a xs × (p a ≡ true))
Among-rest p a x xs f (inl e) = inl e
Among-rest p a x xs f (inr m) = inr (f m)

pub Among-retain :
    {A : Type 0} (p : A → Bool) (a : A) (xs : List A)
    → Among a (retain p xs)
    → Among a xs × (p a ≡ true)
Among-retain p a [] m = absurd m
Among-retain p a (x ∷ xs) m = elim (Bool-cases (p x)) [
  | inl kept ↦ Among-kept p a x xs kept (Among-rest p a x xs (Among-retain p a xs) (rw kept at m))
  | inr dropped ↦ let (there, holds) = Among-retain p a xs (rw dropped at m) in (inr there, holds)
]

pub retain-Among :
    {A : Type 0} (p : A → Bool) (a : A) (xs : List A)
    → Among a xs
    → p a ≡ true
    → Among a (retain p xs)
retain-Among p a [] m h = m
retain-Among p a (x ∷ xs) (inl e) h = rw (subst (λ y. p y ≡ true) (sym e) h) (inl e)
retain-Among p a (x ∷ xs) (inr m) h = elim (Bool-cases (p x)) [
  | inl kept ↦ rw kept (inr (retain-Among p a xs m h))
  | inr dropped ↦ rw dropped (retain-Among p a xs m h)
]

-- `any` is kept by what is appended.
pub any-append_left :
    {A : Type 0} (p : A → Bool) (xs ys : List A) → any p xs ≡ true → any p (xs ++ ys) ≡ true
any-append_left p [] ys h = ground arith
any-append_left p (x ∷ xs) ys h = ground (arith, any-append_left p xs ys)

pub any-append_last :
    {A : Type 0} (p : A → Bool) (xs : List A) (y : A) → p y ≡ true → any p (xs ++ y ∷ []) ≡ true
any-append_last p [] y h = rw h refl
any-append_last p (x ∷ xs) y h = rw (any-append_last p xs y h) ground arith
