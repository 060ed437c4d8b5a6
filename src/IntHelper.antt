-- ===== src/IntHelper.antt =====
-- rustlib/src/int_helper.rs and rustlib/src/positive_u31.rs: conversions between integer types that
-- fail where a value does not fit. A `c_int` has 32 bits, a `c_ulong` and a `usize` have 64.
mod Exact
use obscuravpn_client.Prelude.{
  ℕ, ◌+◌, ◌-◌, ◌%◌, ◌≤◌, ◌<◌, ◌≡◌, refl, ◌↔◌, Bool, true, false, ◌&&◌, ◌==◌, ltb, leb, Option, none,
  some, ℤ, pos, negsuc, if◌then◌else◌, arith, Bool-cases,
}

-- `value as u8` of a `c_int`.
unfoldable pub as_u8 : ℤ → ℕ
as_u8 (pos n) = n % 0x100
as_u8 (negsuc n) = 0xff - n % 0x100

unfoldable pub as_u16 : ℤ → ℕ
as_u16 (pos n) = n % 0x10000
as_u16 (negsuc n) = 0xffff - n % 0x10000

unfoldable pub as_u32 : ℤ → ℕ
as_u32 (pos n) = n % 0x100000000
as_u32 (negsuc n) = 0xffffffff - n % 0x100000000

-- `value as c_int` of an unsigned integer.
unfoldable pub as_c_int : ℕ → ℤ
as_c_int n =
    let low = n % 0x100000000 in if ltb low 0x80000000 then pos low else negsuc (0xffffffff - low)

-- `value as c_ulong` of a `c_int`.
unfoldable pub as_c_ulong : ℤ → ℕ
as_c_ulong (pos n) = n % 0x10000000000000000
as_c_ulong (negsuc n) = 0xffffffffffffffff - n % 0x10000000000000000

-- Equality of two `c_int`s, and `value >= 0`.
unfoldable pub int_eq : ℤ → ℤ → Bool
int_eq (pos m) (pos n) = m == n
int_eq (negsuc m) (negsuc n) = m == n
int_eq (pos m) (negsuc n) = false
int_eq (negsuc m) (pos n) = false

unfoldable pub not_negative : ℤ → Bool
not_negative (pos n) = true
not_negative (negsuc n) = false

unfoldable pub try_c_int_into_u8 : ℤ → Option ℕ
try_c_int_into_u8 value =
    if not_negative value && int_eq (as_c_int (as_u8 value)) value then some (as_u8 value) else none

unfoldable pub try_c_int_into_u16 : ℤ → Option ℕ
try_c_int_into_u16 value =
    if not_negative value && int_eq (as_c_int (as_u16 value)) value
    then some (as_u16 value)
    else none

unfoldable pub try_c_int_into_u32 : ℤ → Option ℕ
try_c_int_into_u32 value =
    if not_negative value && int_eq (as_c_int (as_u32 value)) value
    then some (as_u32 value)
    else none

unfoldable pub try_c_ulong_into_c_int : ℕ → Option ℤ
try_c_ulong_into_c_int value =
    if as_c_ulong (as_c_int value) == value then some (as_c_int value) else none

unfoldable pub try_usize_into_u32 : ℕ → Option ℕ
try_usize_into_u32 value = if value % 0x100000000 == value then some (value % 0x100000000) else none

-- Library conversions to types without zero, which keep the value: `NonZeroU32::try_from(u32)` and
-- `NonZeroI32::try_from(NonZeroU32)`.
unfoldable pub non_zero_u32 : ℕ → Option ℕ
non_zero_u32 value = if value == 0 then none else some value

unfoldable pub non_zero_i32 : ℕ → Option ℕ
non_zero_i32 value = if leb value 0x7fffffff then some value else none

pub record PositiveU31 : Type 0 where
  pub value : ℕ

-- What comes after a conversion that may fail.
abbrev pub after {ℓ} : {A : Type ℓ} → Option ℕ → (ℕ → Option A) → Option A
after none next = none
after (some n) next = next n

unfoldable pub try_from_u32 : ℕ → Option PositiveU31
try_from_u32 value =
    after (non_zero_u32 value) (λ n. after (non_zero_i32 n) (λ i. some (record { value = value })))

-- The conversions back. `none` is the panic of an `unwrap`.
unfoldable pub into_u32 : PositiveU31 → ℕ
into_u32 p = p.value

unfoldable pub into_i32 : PositiveU31 → Option ℤ
into_i32 p = if leb p.value 0x7fffffff then some (pos p.value) else none

unfoldable pub into_non_zero_u32 : PositiveU31 → Option ℕ
into_non_zero_u32 p = non_zero_u32 p.value

unfoldable pub into_non_zero_i32 : PositiveU31 → Option ℕ
into_non_zero_i32 p = after (into_non_zero_u32 p) non_zero_i32
