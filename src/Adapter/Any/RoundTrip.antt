-- ===== src/Adapter/Any/RoundTrip.antt =====
-- Values that go from the gateway's messages to CORBA and back, and from CORBA and back.
use api_gateway_gtc.Base.{ℕ, ◌<◌, ◌^◌, ◌%◌, String, ◌≡◌, Bool, some}
use api_gateway_gtc.Base.Outcome.{ok}
use native.Mathlib.Nat.{mod-eq_of_lt}
use api_gateway_gtc.Base.{c_str}
use api_gateway_gtc.Adapter.{
  widen_short, narrow_short, narrow_octet, FitsShort, widen-narrow_short, narrow-widen_short,
}
use api_gateway_gtc.Adapter.Any.{
  tk_double, tk_float, tk_long, tk_short, tk_boolean, tk_octet, tk_string, tk_struct, TypeKind,
  type_float, type_double, type_short, type_long, type_boolean, type_octet, type_string,
  type_timevalue, Corba, Value, double_val, float_val, long_val, short_val, bool_val, octet_val,
  string_val, time_val, AnyValue, value_of, from_corba, any_of, to_corba,
}

-- What the code relies on: a value that was inserted has the type of the insertion, and the
-- extraction of that type gives it back.
pub record CorbaLaws {Any TypeCode Double Float : Type 0} (c : Corba Any TypeCode Double Float)
    : Type 0 where
  pub double_type : (d : Double) → c.kind (c.type (c.of_double d)) ≡ tk_double
  pub double_back : (d : Double) → c.to_double (c.of_double d) ≡ some d
  pub float_type : (d : Float) → c.kind (c.type (c.of_float d)) ≡ tk_float
  pub float_back : (d : Float) → c.to_float (c.of_float d) ≡ some d
  pub long_type : (n : ℕ) → c.kind (c.type (c.of_long n)) ≡ tk_long
  pub long_back : (n : ℕ) → c.to_long (c.of_long n) ≡ some n
  pub short_type : (n : ℕ) → c.kind (c.type (c.of_short n)) ≡ tk_short
  pub short_back : (n : ℕ) → c.to_short (c.of_short n) ≡ some n
  pub boolean_type : (b : Bool) → c.kind (c.type (c.of_boolean b)) ≡ tk_boolean
  pub boolean_back : (b : Bool) → c.to_boolean (c.of_boolean b) ≡ some b
  pub octet_type : (n : ℕ) → c.kind (c.type (c.of_octet n)) ≡ tk_octet
  pub octet_back : (n : ℕ) → c.to_octet (c.of_octet n) ≡ some n
  pub string_type : (s : String) → c.kind (c.type (c.of_string s)) ≡ tk_string
  pub string_back : (s : String) → c.to_string (c.of_string s) ≡ some s
  pub time_type : (n : ℕ) → c.kind (c.type (c.of_time_value n)) ≡ tk_struct
  pub time_name : (n : ℕ) → c.name (c.type (c.of_time_value n)) ≡ ok "TimeValue"
  pub time_back : (n : ℕ) → c.to_time_value (c.of_time_value n) ≡ some n

-- A message whose `oneof` is the one of its kind, with a number in the range of the CORBA type, or
-- a text with no NUL.
abbrev pub Fits : {Double Float : Type 0} → TypeKind → Value Double Float → Type 0
Fits type_double (double_val d) = Unit
Fits type_float (float_val d) = Unit
Fits type_long (long_val n) = Unit
Fits type_short (short_val n) = FitsShort n
Fits type_boolean (bool_val b) = Unit
Fits type_octet (octet_val n) = n < 2 ^ 8
Fits type_string (string_val s) = c_str s ≡ s
Fits type_timevalue (time_val n) = Unit
Fits _ _ = ⊥

module _ {Any TypeCode Double Float : Type 0} (c : Corba Any TypeCode Double Float)
    (laws : CorbaLaws c) where
  open laws use {
    double_type, double_back, float_type, float_back, long_type, long_back, short_type, short_back,
    boolean_type, boolean_back, octet_type, octet_back, string_type, string_back, time_type,
    time_name, time_back,
  }

  back :
      (k : TypeKind) (v : Value Double Float)
      → Fits k v
      → from_corba c (any_of c k v) (some (c.type (any_of c k v)))
        ≡ record { type_kind = k; value = v }
  unfolding from_corba any_of narrow_octet
  back type_double (double_val d) h = rw (double_type d, double_back d)
  back type_float (float_val d) h = rw (float_type d, float_back d)
  back type_long (long_val n) h = rw (long_type n, long_back n)
  back type_short (short_val n) h =
      rw (short_type (narrow_short n), short_back (narrow_short n), widen-narrow_short n h)
  back type_boolean (bool_val b) h = rw (boolean_type b, boolean_back b)
  back type_octet (octet_val n) h = rw (any_of, mod-eq_of_lt h) (rw (octet_type n, octet_back n))
  back type_string (string_val s) h = rw (any_of, h) (rw (string_type s, value_of, string_back s))
  back type_timevalue (time_val n) h = rw (time_type n, time_name n, time_back n)
  back _ _ h = absurd h

  -- A message value of a kind with a value, whose oneof fits its kind, whose short or octet is in
  -- range and whose text has no NUL, is the same after `toCorba` and `fromCorba`, given the laws
  -- of insertion and extraction.
  pub from_corba-to_corba :
      (dto : AnyValue Double Float)
      → Fits dto.type_kind dto.value
      → from_corba c (to_corba c dto) (some (c.type (to_corba c dto))) ≡ dto
  unfolding to_corba
  from_corba-to_corba dto h = back dto.type_kind dto.value h

  -- A short out of range comes back as its low 16 bits, read as a signed number.
  pub short_wraps :
      (n : ℕ)
      → let any = to_corba c (record { type_kind = type_short; value = short_val n }) in
        from_corba c any (some (c.type any))
        ≡ record { type_kind = type_short; value = short_val (widen_short (n % 2 ^ 16)) }
  unfolding to_corba any_of from_corba narrow_short
  short_wraps n = rw (short_type (n % 2 ^ 16), short_back (n % 2 ^ 16))

  -- What an extraction of the type reads from a CORBA value, for the types that the adapter knows.
  pub data Reads (any : Any) : TypeCode → Type 0 where
    a_double :
        {tc : TypeCode} (d : Double)
        → c.kind tc ≡ tk_double
        → c.to_double any ≡ some d
        → Reads any tc
    a_float :
        {tc : TypeCode} (d : Float) → c.kind tc ≡ tk_float → c.to_float any ≡ some d → Reads any tc
    a_long : {tc : TypeCode} (n : ℕ) → c.kind tc ≡ tk_long → c.to_long any ≡ some n → Reads any tc
    a_short :
        {tc : TypeCode} (n : ℕ)
        → n < 2 ^ 16
        → c.kind tc ≡ tk_short
        → c.to_short any ≡ some n
        → Reads any tc
    a_boolean :
        {tc : TypeCode} (b : Bool)
        → c.kind tc ≡ tk_boolean
        → c.to_boolean any ≡ some b
        → Reads any tc
    an_octet :
        {tc : TypeCode} (n : ℕ)
        → n < 2 ^ 8
        → c.kind tc ≡ tk_octet
        → c.to_octet any ≡ some n
        → Reads any tc
    a_string :
        {tc : TypeCode} (s : String)
        → c_str s ≡ s
        → c.kind tc ≡ tk_string
        → c.to_string any ≡ some s
        → Reads any tc
    a_time :
        {tc : TypeCode} (n : ℕ)
        → c.kind tc ≡ tk_struct
        → c.name tc ≡ ok "TimeValue"
        → c.to_time_value any ≡ some n
        → Reads any tc

  -- The value that was read, inserted again.
  unfoldable pub inserted : {any : Any} {tc : TypeCode} → Reads any tc → Any
  inserted (a_double d k e) = c.of_double d
  inserted (a_float d k e) = c.of_float d
  inserted (a_long n k e) = c.of_long n
  inserted (a_short n h k e) = c.of_short n
  inserted (a_boolean b k e) = c.of_boolean b
  inserted (an_octet n h k e) = c.of_octet n
  inserted (a_string s h k e) = c.of_string s
  inserted (a_time n k m e) = c.of_time_value n

  -- A CORBA value of a type that the adapter knows comes back from the message as the insertion of
  -- what it held.
  pub to_corba-from_corba :
      (any : Any) (tc : TypeCode) (r : Reads any tc)
      → to_corba c (from_corba c any (some tc)) ≡ inserted r
  unfolding to_corba from_corba any_of inserted narrow_octet
  to_corba-from_corba any tc (a_double d k e) = rw (k, e)
  to_corba-from_corba any tc (a_float d k e) = rw (k, e)
  to_corba-from_corba any tc (a_long n k e) = rw (k, e)
  to_corba-from_corba any tc (a_short n h k e) = rw (k, e, narrow-widen_short n h)
  to_corba-from_corba any tc (a_boolean b k e) = rw (k, e)
  to_corba-from_corba any tc (an_octet n h k e) = rw (k, e, mod-eq_of_lt h)
  to_corba-from_corba any tc (a_string s h k e) = rw (k, value_of, e, any_of, h)
  to_corba-from_corba any tc (a_time n k m e) = rw (k, m, e)
