-- ===== src/Adapter/Typed.antt =====
-- The kinds of the message values, and their `oneof`.
use api_gateway_gtc.Base.{ℕ, String, Bool, true, false, Option, none, some, ◌==◌, if◌then◌else◌}
use api_gateway_gtc.Adapter.Any.{
  Corba, TcKind, tk_null, tk_void, tk_double, tk_float, tk_long, tk_short, tk_boolean, tk_octet,
  tk_string, tk_struct, tk_other, TypeKind, type_unknown, type_float, type_double, type_short,
  type_long, type_boolean, type_octet, type_string, type_timevalue, type_void, Value, not_set,
  double_val, float_val, long_val, short_val, bool_val, octet_val, string_val, time_val, raw_val,
  AnyValue, kind_of, value_of, to_type_kind, from_corba, or_empty,
}
use api_gateway_gtc.Adapter.Bounds.{CorbaRanges, InRange, from_corba-InRange}

-- The values that a kind may have: its own, or none where the extraction of a text or of a time has
-- failed; bytes for what the gateway does not know. A kind that the proto file does not name has none.
abbrev pub Typed : {Double Float : Type 0} → TypeKind → Value Double Float → Type 0
Typed type_double (double_val d) = Unit {0}
Typed type_float (float_val d) = Unit {0}
Typed type_long (long_val n) = Unit {0}
Typed type_short (short_val n) = Unit {0}
Typed type_boolean (bool_val b) = Unit {0}
Typed type_octet (octet_val n) = Unit {0}
Typed type_string (string_val s) = Unit {0}
Typed type_string not_set = Unit {0}
Typed type_timevalue (time_val n) = Unit {0}
Typed type_timevalue not_set = Unit {0}
Typed type_void not_set = Unit {0}
Typed type_unknown (raw_val bs) = Unit {0}
Typed type_unknown not_set = Unit {0}
Typed _ _ = ⊥

-- A value that is of its kind and in range.
abbrev pub IsWellFormed : {Double Float : Type 0} → AnyValue Double Float → Type 0
IsWellFormed dto = Typed dto.type_kind dto.value × InRange dto.value

module _ {Any TypeCode Double Float : Type 0} (c : Corba Any TypeCode Double Float) where
  value_of-Typed : (k : TcKind) (n : String) (any : Any) → Typed (kind_of k n) (value_of c k n any)
  unfolding value_of kind_of
  value_of-Typed tk_void n any = tt
  value_of-Typed tk_double n any = tt
  value_of-Typed tk_float n any = tt
  value_of-Typed tk_long n any = tt
  value_of-Typed tk_short n any = tt
  value_of-Typed tk_boolean n any = tt
  value_of-Typed tk_octet n any = tt
  value_of-Typed tk_string n any = by (c.to_string any)
    where
      by :
          (o : Option String)
          → Typed {Double = Double} {Float = Float} type_string
              (elim o [ none ↦ not_set | some s ↦ string_val s ])
      by none = tt
      by (some s) = tt
  value_of-Typed tk_struct n any = by (n == "TimeValue") (c.to_time_value any)
    where
      by :
          (b : Bool) (o : Option ℕ)
          → Typed {Double = Double} {Float = Float} (if b then type_timevalue else type_unknown) (
              if b
              then (elim o [ none ↦ not_set | some usec ↦ time_val usec ])
              else raw_val (c.cdr any))
      by true none = tt
      by true (some usec) = tt
      by false o = tt
  value_of-Typed tk_null n any = tt
  value_of-Typed (tk_other k) n any = tt

  pub from_corba-Typed :
      (any : Any) (tc : Option TypeCode)
      → Typed (from_corba c any tc).type_kind (from_corba c any tc).value
  unfolding from_corba to_type_kind
  from_corba-Typed any none = tt
  from_corba-Typed any (some tc) = value_of-Typed (c.kind tc) (or_empty (c.name tc)) any

  -- A value that `fromCorba` makes is of its kind, and in range if the extractions are.
  pub from_corba-IsWellFormed :
      CorbaRanges c → (any : Any) (tc : Option TypeCode) → IsWellFormed (from_corba c any tc)
  from_corba-IsWellFormed ranges any tc =
      (from_corba-Typed any tc, from_corba-InRange c ranges any tc)
