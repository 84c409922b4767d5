-- ===== src/Adapter.antt =====
-- src/adapter: the conversions between CORBA's values and the messages of the gateway. A signed
-- integer of w bits is its two's complement pattern, a number below 2 ^ w.
pub mod Any
pub mod Events
pub mod EventLaws
pub mod Monitor
pub mod Bounds
pub mod Typed
use api_gateway_gtc.Base.{
  ℕ, ◌+◌, ◌-◌, ◌*◌, ◌%◌, ◌^◌, ◌≡◌, ◌<◌, ◌≤◌, ltb, if◌then◌else◌, arith, ◌⊎◌, String, code, nat_eq,
}

-- A 16-bit signed value as a 32-bit one, as C++ converts `CORBA::Short` to `int32_t`.
unfoldable pub widen_short : ℕ → ℕ
widen_short x = if ltb x (2 ^ 15) then x else x + (2 ^ 32 - 2 ^ 16)

-- `static_cast<CORBA::Short>` of an `int32_t`, `static_cast<CORBA::Octet>` of a `uint32_t`.
unfoldable pub narrow_short : ℕ → ℕ
narrow_short x = x % 2 ^ 16

unfoldable pub narrow_octet : ℕ → ℕ
narrow_octet x = x % 2 ^ 8

pub narrow-widen_short : (x : ℕ) → x < 2 ^ 16 → narrow_short (widen_short x) ≡ x
unfolding narrow_short widen_short
narrow-widen_short x h = ground arith

-- The 32-bit patterns of the values that fit in 16 bits.
abbrev pub FitsShort : ℕ → Type 0
FitsShort x = (x < 2 ^ 15) ⊎ ((2 ^ 32 - 2 ^ 15 ≤ x) × (x < 2 ^ 32))

pub widen-narrow_short : (x : ℕ) → FitsShort x → widen_short (narrow_short x) ≡ x
unfolding narrow_short widen_short
widen-narrow_short x h = ground arith
