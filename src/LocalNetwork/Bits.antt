-- ===== src/LocalNetwork/Bits.antt =====
-- Shifts of the addresses of rustlib/src/local_network.rs.
use Prim.Native.Nat.{bit_or, digits, bit_or-bitwise}
use obscuravpn_client.Prelude.{
  ℕ, zero, suc, ◌+◌, ◌*◌, ◌/◌, ◌%◌, ◌≤◌, max, ◌≡◌, refl, ap, arith, ◌∙◌,
}

-- `a << k`.
unfoldable pub shl : ℕ → ℕ → ℕ
shl zero a = a
shl (suc k) a = shl k a * 2

-- `a >> k`.
unfoldable pub shr : ℕ → ℕ → ℕ
shr zero a = a
shr (suc k) a = shr k (a / 2)

shr-half : (k a : ℕ) → shr k (a / 2) ≡ shr k a / 2
unfolding shr
shr-half zero a = refl
shr-half (suc k) a = shr-half k (a / 2)

pub shr-suc : (k a : ℕ) → shr (suc k) a ≡ shr k a / 2
unfolding shr
shr-suc k a = shr-half k a

pub shr-shr : (d k m a : ℕ) → m ≡ d + k → shr m a ≡ shr d (shr k a)
unfolding shr
shr-shr zero k m a e = ap (λ n. shr n a) {x = m} {y = k} (omega (arith, e))
shr-shr (suc d) k zero a e = absurd (omega (arith, e))
shr-shr (suc d) k (suc m) a e = shr-shr d k m (a / 2) (omega (arith, e)) ∙ ap (shr d) (shr-half k a)

pub shr-shl : (k a : ℕ) → shr k (shl k a) ≡ a
unfolding shr shl
shr-shl zero a = refl
shr-shl (suc k) a = ap (shr k) (omega arith) ∙ shr-shl k a

pub shl-suc : (k a : ℕ) → shl (suc k) a ≡ shl k (a * 2)
unfolding shl
shl-suc zero a = refl
shl-suc (suc k) a = ap (λ n. n * 2) (shl-suc k a)

or_digits : ℕ → ℕ → ℕ → ℕ
or_digits n a b = digits (λ b. b) max n a b

or_digits_fuel : (n m a b : ℕ) → a ≤ n → a ≤ m → or_digits n a b ≡ or_digits m a b
unfolding or_digits
or_digits_fuel zero zero a b p q = refl
or_digits_fuel zero (suc m) zero b p q = refl
or_digits_fuel zero (suc m) (suc a) b p q = absurd (omega arith)
or_digits_fuel (suc n) zero zero b p q = refl
or_digits_fuel (suc n) zero (suc a) b p q = absurd (omega arith)
or_digits_fuel (suc n) (suc m) zero b p q = refl
or_digits_fuel (suc n) (suc m) (suc a) b p q =
    omega (arith, or_digits_fuel n m (suc a / 2) (b / 2) (omega arith) (omega arith))

zero-bit_or : (b : ℕ) → bit_or 0 b ≡ b
zero-bit_or b = bit_or-bitwise 0 b

bit_or_step : (a b : ℕ) → bit_or a b ≡ bit_or (a / 2) (b / 2) * 2 + max (a % 2) (b % 2)
unfolding or_digits
bit_or_step zero b = omega (arith, zero-bit_or b, zero-bit_or (b / 2))
bit_or_step (suc a) b = omega (
  arith,
  bit_or-bitwise (suc a) b,
  bit_or-bitwise (suc a / 2) (b / 2),
  or_digits_fuel a (suc a / 2) (suc a / 2) (b / 2) (omega arith) (omega arith),
)

bit_or-zero_fuel : (n a : ℕ) → a ≤ n → bit_or a 0 ≡ a
bit_or-zero_fuel n zero h = refl
bit_or-zero_fuel zero (suc a) h = absurd (omega arith)
bit_or-zero_fuel (suc n) (suc a) h =
    omega (arith, bit_or_step (suc a) 0, bit_or-zero_fuel n (suc a / 2) (omega arith))

halved : (a : ℕ) → a * 2 / 2 ≡ a
halved a = omega arith

-- The bit below the cleared ones is free.
pub bit_or-shl : (k q : ℕ) → bit_or (shl (suc k) q) (shl k 1) ≡ shl k (q * 2 + 1)
unfolding shl
bit_or-shl zero q = omega (
  arith,
  bit_or_step (q * 2) 1,
  ap (λ n. bit_or n 0) (halved q),
  bit_or-zero_fuel q q (omega arith),
)
bit_or-shl (suc k) q = omega (
  arith,
  bit_or_step (shl k q * 2 * 2) (shl k 1 * 2),
  ap {A = ℕ} (λ n. bit_or n (shl k 1 * 2 / 2)) (halved (shl k q * 2)),
  ap (bit_or (shl k q * 2)) (halved (shl k 1)),
  bit_or-shl k q,
)
