-- ===== src/IntHelper/Exact.antt =====
-- Which values the conversions of rustlib/src/int_helper.rs let through.
use obscuravpn_client.Prelude.{
  ℕ, ◌%◌, ◌≤◌, ◌<◌, ◌≡◌, ◌↔◌, ◌≢◌, ◌==◌, Option, none, some, ℤ, pos, negsuc, if◌then◌else◌, arith,
}
use obscuravpn_client.IntHelper.{
  as_u8, as_u16, as_u32, as_c_int, as_c_ulong, int_eq, not_negative, try_c_int_into_u8,
  try_c_int_into_u16, try_c_int_into_u32, try_c_ulong_into_c_int, try_usize_into_u32, try_from_u32,
  PositiveU31, non_zero_u32, non_zero_i32, into_u32, into_i32, into_non_zero_u32, into_non_zero_i32,
}

-- The value fits 32 bits.
abbrev pub IsCInt : ℤ → Type 0
IsCInt (pos n) = n < 0x80000000
IsCInt (negsuc n) = n < 0x80000000

small : (n : ℕ) → n < 0x80000000 → as_c_int n ≡ pos n
unfolding as_c_int
small n h = ground arith

-- A value is let through as it is.
abbrev LetThrough : ℕ → ℕ → ℕ → Option ℕ → Type 0
LetThrough value n bound result = (result ≡ some n) ↔ ((pos value ≡ pos n) × (n < bound))

passes :
    (low value n bound : ℕ)
    → (low ≡ value → value < bound)
    → (value < bound → low ≡ value)
    → LetThrough value n bound (if low == value then some low else none)
passes low value n bound f g = (λ e. (ground arith, ground arith), λ p. ground arith)

no_negative : (m n bound : ℕ) → (none ≡ some n) ↔ ((negsuc m ≡ pos n) × (n < bound))
no_negative m n bound = (λ e. absurd (ground arith), λ p. absurd (ground arith))

pub try_c_int_into_u8-exact :
    (value : ℤ) (n : ℕ)
    → IsCInt value
    → (try_c_int_into_u8 value ≡ some n) ↔ ((value ≡ pos n) × (n < 0x100))
unfolding try_c_int_into_u8 not_negative int_eq as_u8
try_c_int_into_u8-exact (pos m) n h =
    rw (small (m % 0x100) (omega (arith, h)))
      (passes (m % 0x100) m n 0x100 (λ e. omega (arith, e)) (λ p. omega (arith, p)))
try_c_int_into_u8-exact (negsuc m) n h = no_negative m n 0x100

pub try_c_int_into_u16-exact :
    (value : ℤ) (n : ℕ)
    → IsCInt value
    → (try_c_int_into_u16 value ≡ some n) ↔ ((value ≡ pos n) × (n < 0x10000))
unfolding try_c_int_into_u16 not_negative int_eq as_u16
try_c_int_into_u16-exact (pos m) n h =
    rw (small (m % 0x10000) (omega (arith, h)))
      (passes (m % 0x10000) m n 0x10000 (λ e. omega (arith, e)) (λ p. omega (arith, p)))
try_c_int_into_u16-exact (negsuc m) n h = no_negative m n 0x10000

pub try_c_int_into_u32-exact :
    (value : ℤ) (n : ℕ)
    → IsCInt value
    → (try_c_int_into_u32 value ≡ some n) ↔ ((value ≡ pos n) × (n < 0x100000000))
unfolding try_c_int_into_u32 not_negative int_eq as_u32
try_c_int_into_u32-exact (pos m) n h =
    rw (small (m % 0x100000000) (omega (arith, h)))
      (passes (m % 0x100000000) m n 0x100000000 (λ e. omega (arith, e)) (λ p. omega (arith, p)))
try_c_int_into_u32-exact (negsuc m) n h = no_negative m n 0x100000000

pub try_usize_into_u32-exact :
    (value n : ℕ) → (try_usize_into_u32 value ≡ some n) ↔ ((value ≡ n) × (n < 0x100000000))
unfolding try_usize_into_u32
try_usize_into_u32-exact value n = ground arith

-- The round trip.
pub try_c_ulong_into_c_int-as_c_ulong :
    (i : ℤ) → IsCInt i → try_c_ulong_into_c_int (as_c_ulong i) ≡ some i
unfolding try_c_ulong_into_c_int as_c_int as_c_ulong
try_c_ulong_into_c_int-as_c_ulong (pos n) h = ground arith
try_c_ulong_into_c_int-as_c_ulong (negsuc n) h = ground arith

-- What is accepted comes back unchanged from each conversion, and no `unwrap` panics.
pub try_from_u32-back :
    (value : ℕ) (p : PositiveU31)
    → try_from_u32 value ≡ some p
    → (into_u32 p ≡ value)
      × (into_i32 p ≡ some (pos value))
      × (into_non_zero_u32 p ≡ some value)
      × (into_non_zero_i32 p ≡ some value)
unfolding try_from_u32 non_zero_u32 non_zero_i32 into_u32 into_i32 into_non_zero_u32
    into_non_zero_i32
try_from_u32-back value p h = ground arith

-- Zero and what needs 32 bits are refused, and nothing else.
pub try_from_u32-accepts :
    (value : ℕ) → (try_from_u32 value ≢ none) ↔ ((1 ≤ value) × (value < 0x80000000))
unfolding try_from_u32 non_zero_u32 non_zero_i32
try_from_u32-accepts value = ground arith
