-- ===== src/Backoff/Waits.antt =====
-- The waiting times of rustlib/src/backoff.rs.
use native.Mathlib.Nat.{mod-lt}
use obscuravpn_client.Prelude.{
  inl, inr, ◌==◌, Bool-cases, ◌-◌, ℕ, ◌+◌, ◌/◌, ◌≤◌, max, ◌≡◌, refl, true, false, none, some, List,
  [], ◌∷◌, All, length, arith,
}
use obscuravpn_client.Backoff.{Backoff, BackoffIter, next_wait, take, waits, gen_range}

gen_range-bounds :
    (draw low high : ℕ)
    → low ≤ high
    → (low ≤ gen_range draw low high) × (gen_range draw low high ≤ high)
gen_range-bounds draw low high h =
    let m = mod-lt draw {m = high - low + 1} (omega arith) in (omega arith, omega (arith, m))

abbrev limit : BackoffIter → ℕ
limit i = max (max i.backoff.base i.backoff.max) i.next

next_wait-limit : (draw : ℕ) (i : BackoffIter) → limit (next_wait draw i).0 ≤ limit i
unfolding next_wait
next_wait-limit draw i = ground arith

-- Each wait uses up an attempt and is within the limit.
next_wait-some :
    (draw : ℕ) (i : BackoffIter)
    → (i.attempts == 0) ≡ false
    → (w : ℕ) × ((next_wait draw i).1 ≡ some w)
      × ((next_wait draw i).0.attempts + 1 ≡ i.attempts)
      × (w ≤ limit i)
unfolding next_wait
next_wait-some draw i left = rw left (elim (Bool-cases (i.next == 0)) [
  | inl first ↦ rw first (0, refl, ground arith, omega arith)
  | inr later ↦ rw later (
    gen_range draw (i.next / 2) i.next,
    refl,
    ground arith,
    omega (arith, (gen_range-bounds draw (i.next / 2) i.next (omega arith)).1),
  )
])

next_wait-done :
    (draw : ℕ) (i : BackoffIter) → (i.attempts == 0) ≡ true → (next_wait draw i).1 ≡ none
unfolding next_wait
next_wait-done draw i done = rw done refl

length-waits :
    (draws : List ℕ) (i : BackoffIter)
    → i.attempts ≤ length draws
    → length (waits draws i) ≡ i.attempts
unfolding waits
length-waits [] i h = omega (arith, h)
length-waits (draw ∷ draws) i h = elim (Bool-cases (i.attempts == 0)) [
  | inl done ↦ rw (next_wait-done draw i done) ground arith
  | inr left ↦
      let (w, e, fewer, small) = next_wait-some draw i left in
      rw e omega
        (arith, fewer, h, length-waits draws (next_wait draw i).0 (omega (arith, fewer, h)))
]

waits-All :
    (draws : List ℕ) (i : BackoffIter) (top : ℕ)
    → limit i ≤ top
    → All (λ w. w ≤ top) (waits draws i)
unfolding waits
waits-All [] i top h = tt
waits-All (draw ∷ draws) i top h = elim (Bool-cases (i.attempts == 0)) [
  | inl done ↦ rw (next_wait-done draw i done) tt
  | inr left ↦
      let (w, e, fewer, small) = next_wait-some draw i left in
      rw e (
        omega (arith, small, h),
        waits-All draws (next_wait draw i).0 top (omega (arith, next_wait-limit draw i, h)),
      )
]

-- A loop over `take attempts` makes exactly that many waits, none longer than the greater of the
-- base and the maximum, whatever numbers are drawn.
pub waits-take :
    (b : Backoff) (attempts : ℕ) (draws : List ℕ)
    → attempts ≤ length draws
    → (length (waits draws (take b attempts)) ≡ attempts)
      × All (λ w. w ≤ max b.base b.max) (waits draws (take b attempts))
unfolding take
waits-take b attempts draws h = (
  length-waits draws (take b attempts) h,
  waits-All draws (take b attempts) (max b.base b.max) (omega arith),
)
