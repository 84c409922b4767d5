-- ===== src/Adapter/Bounds.antt =====
-- The ranges of the numbers that the adapters put into the messages.
use api_gateway_gtc.Base.{
  ℕ, ◌<◌, ◌^◌, ◌≡◌, refl, String, Bool, Option, none, some, All, inl, inr, arith, ltb, Bool-cases,
  if◌then◌else◌, ◌==◌, true, false,
}
use api_gateway_gtc.Adapter.{widen_short, FitsShort}
use api_gateway_gtc.Adapter.Any.{
  Corba, TcKind, tk_null, tk_void, tk_double, tk_float, tk_long, tk_short, tk_boolean, tk_octet,
  tk_string, tk_struct, tk_other, Value, value_of, from_corba, or_else, or_empty,
}

-- A short has a 32-bit field, where it keeps its sign.
pub widen_short-FitsShort : (x : ℕ) → x < 2 ^ 16 → FitsShort (widen_short x)
unfolding widen_short
widen_short-FitsShort x h = elim (Bool-cases (ltb x (2 ^ 15))) [
  | inl e ↦ inl (ground arith)
  | inr e ↦ inr (ground arith, ground arith)
]

-- The values of the types of the IDL, as the extractions and the CDR stream give them.
pub record CorbaRanges {Any TypeCode Double Float : Type 0} (c : Corba Any TypeCode Double Float)
    : Type 0 where
  pub long_range : (any : Any) (n : ℕ) → c.to_long any ≡ some n → n < 2 ^ 32
  pub short_range : (any : Any) (n : ℕ) → c.to_short any ≡ some n → n < 2 ^ 16
  pub octet_range : (any : Any) (n : ℕ) → c.to_octet any ≡ some n → n < 2 ^ 8
  pub time_range : (any : Any) (n : ℕ) → c.to_time_value any ≡ some n → n < 2 ^ 64
  pub cdr_range : (any : Any) → All (λ b. b < 2 ^ 8) (c.cdr any)

-- The number fits the field of the message, a short and an octet also their CORBA types.
abbrev pub InRange : {Double Float : Type 0} → Value Double Float → Type 0
InRange (Value.long_val n) = n < 2 ^ 32
InRange (Value.short_val n) = FitsShort n
InRange (Value.octet_val n) = n < 2 ^ 8
InRange (Value.time_val n) = n < 2 ^ 64
InRange (Value.raw_val bs) = All (λ b. b < 2 ^ 8) bs
InRange _ = Unit {0}

module _ {Any TypeCode Double Float : Type 0} (c : Corba Any TypeCode Double Float)
    (ranges : CorbaRanges c) where
  or_else-lt : (o : Option ℕ) (m : ℕ) → 0 < m → ((n : ℕ) → o ≡ some n → n < m) → or_else o 0 < m
  or_else-lt none m pos h = pos
  or_else-lt (some n) m pos h = h n refl

  value_of-InRange : (k : TcKind) (n : String) (any : Any) → InRange (value_of c k n any)
  unfolding value_of
  value_of-InRange tk_void n any = tt
  value_of-InRange tk_double n any = tt
  value_of-InRange tk_float n any = tt
  value_of-InRange tk_long n any =
      or_else-lt (c.to_long any) _ (omega arith) (ranges.long_range any)
  value_of-InRange tk_short n any =
      widen_short-FitsShort _ (or_else-lt (c.to_short any) _ (omega arith) (ranges.short_range any))
  value_of-InRange tk_boolean n any = tt
  value_of-InRange tk_octet n any =
      or_else-lt (c.to_octet any) _ (omega arith) (ranges.octet_range any)
  value_of-InRange tk_string n any = by (c.to_string any)
    where
      by :
          (o : Option String)
          → InRange {Double = Double} {Float = Float}
              (elim o [ none ↦ Value.not_set | some s ↦ Value.string_val s ])
      by none = tt
      by (some s) = tt
  value_of-InRange tk_struct n any = by (n == "TimeValue") (c.to_time_value any) refl
    where
      by :
          (b : Bool) (o : Option ℕ)
          → c.to_time_value any ≡ o
          → InRange {Double = Double} {Float = Float} (
              if b
              then (elim o [ none ↦ Value.not_set | some usec ↦ Value.time_val usec ])
              else Value.raw_val (c.cdr any))
      by true none q = tt
      by true (some usec) q = ranges.time_range any usec q
      by false o q = ranges.cdr_range any
  value_of-InRange tk_null n any = ranges.cdr_range any
  value_of-InRange (tk_other k) n any = ranges.cdr_range any

  -- The number in a value that `fromCorba` makes is in range.
  pub from_corba-InRange : (any : Any) (tc : Option TypeCode) → InRange (from_corba c any tc).value
  unfolding from_corba
  from_corba-InRange any none = tt
  from_corba-InRange any (some tc) = value_of-InRange (c.kind tc) (or_empty (c.name tc)) any
