-- ===== src/Adapter/Any.antt =====
-- src/adapter/any_adapter.cpp: `CORBA::Any` and the message `AnyValue` (server/proto/adapter.proto).
pub mod RoundTrip
use api_gateway_gtc.Base.{
  ℕ, ◌%◌, ◌^◌, String, Bool, true, false, Option, none, some, List, [], ◌∷◌, ◌==◌, if◌then◌else◌,
}
use api_gateway_gtc.Base.Outcome.{Outcome, ok, throw}
use api_gateway_gtc.Base.{c_str}
use api_gateway_gtc.Adapter.{widen_short, narrow_short, narrow_octet}

-- `CORBA::TCKind`, with the kinds that the code names.
pub data TcKind : Type 0 where
  tk_null tk_void tk_double tk_float tk_long tk_short tk_boolean tk_octet tk_string tk_struct :
      TcKind
  tk_other : ℕ → TcKind

-- `gateway::TypeKind`; `type_unrecognized` is a number that the proto file does not name.
pub data TypeKind : Type 0 where
  type_unknown type_float type_double type_short type_long type_boolean type_octet type_string
        type_timevalue type_void :
      TypeKind
  type_unrecognized : ℕ → TypeKind

-- What the code uses of the CORBA library: the insertions `<<=`, the extractions `>>=`, which say
-- by `none` that the value is of another type, the type of a value, and its CDR bytes. Its floating
-- point numbers are `Double` and `Float`.
pub record Corba (Any TypeCode Double Float : Type 0) : Type 0 where
  pub empty : Any
  pub of_double : Double → Any
  pub of_float : Float → Any
  pub of_long : ℕ → Any
  pub of_short : ℕ → Any
  pub of_boolean : Bool → Any
  pub of_octet : ℕ → Any
  pub of_string : String → Any
  pub of_time_value : ℕ → Any
  pub to_double : Any → Option Double
  pub to_float : Any → Option Float
  pub to_long : Any → Option ℕ
  pub to_short : Any → Option ℕ
  pub to_boolean : Any → Option Bool
  pub to_octet : Any → Option ℕ
  pub to_string : Any → Option String
  pub to_time_value : Any → Option ℕ
  pub type : Any → TypeCode
  pub kind : TypeCode → TcKind
  pub name : TypeCode → Outcome String
  pub cdr : Any → List ℕ
  pub double_zero : Double
  pub float_zero : Float

-- The `oneof value` of `AnyValue`.
pub data Value (Double Float : Type 0) : Type 0 where
  not_set : Value Double Float
  double_val : Double → Value Double Float
  float_val : Float → Value Double Float
  long_val : ℕ → Value Double Float
  short_val : ℕ → Value Double Float
  bool_val : Bool → Value Double Float
  octet_val : ℕ → Value Double Float
  string_val : String → Value Double Float
  time_val : ℕ → Value Double Float
  raw_val : List ℕ → Value Double Float

pub record AnyValue (Double Float : Type 0) : Type 0 where
  pub type_kind : TypeKind
  pub value : Value Double Float

abbrev pub or_else : {A : Type 0} → Option A → A → A
or_else none d = d
or_else (some a) d = a

-- `name = ""; try { name = tc->name(); } catch (...) {}`.
abbrev pub or_empty : Outcome String → String
or_empty (ok s) = s
or_empty (throw e) = ""

-- The `switch` of `toTypeKind`, with the name of the type for a struct.
unfoldable pub kind_of : TcKind → String → TypeKind
kind_of tk_double n = type_double
kind_of tk_float n = type_float
kind_of tk_long n = type_long
kind_of tk_short n = type_short
kind_of tk_boolean n = type_boolean
kind_of tk_octet n = type_octet
kind_of tk_string n = type_string
kind_of tk_void n = type_void
kind_of tk_struct n = if n == "TimeValue" then type_timevalue else type_unknown
kind_of tk_null n = type_unknown
kind_of (tk_other k) n = type_unknown

-- The getters of a `oneof` field: the default where another one is set.
module _ {Double Float : Type 0} where
  abbrev pub get_long : Value Double Float → ℕ
  get_long (long_val x) = x
  get_long _ = 0

  abbrev pub get_short : Value Double Float → ℕ
  get_short (short_val x) = x
  get_short _ = 0

  abbrev pub get_bool : Value Double Float → Bool
  get_bool (bool_val x) = x
  get_bool _ = false

  abbrev pub get_octet : Value Double Float → ℕ
  get_octet (octet_val x) = x
  get_octet _ = 0

  abbrev pub get_string : Value Double Float → String
  get_string (string_val x) = x
  get_string _ = ""

  abbrev pub get_time : Value Double Float → ℕ
  get_time (time_val x) = x
  get_time _ = 0

module _ {Any TypeCode Double Float : Type 0} (corba : Corba Any TypeCode Double Float) where
  open corba use {
    empty, of_double, of_float, of_long, of_short, of_boolean, of_octet, of_string, of_time_value,
    to_double, to_float, to_long, to_short, to_boolean, to_octet, to_string, to_time_value, kind,
    name, cdr, double_zero, float_zero,
  }

  unfoldable pub to_type_kind : Option TypeCode → TypeKind
  unfolding kind_of
  to_type_kind none = type_unknown
  to_type_kind (some tc) = kind_of (kind tc) (or_empty (name tc))

  -- The `switch` of `fromCorba`: a failed extraction leaves the initial value.
  unfoldable pub value_of : TcKind → String → Any → Value Double Float
  value_of tk_void n any = not_set
  value_of tk_double n any = double_val (or_else (to_double any) double_zero)
  value_of tk_float n any = float_val (or_else (to_float any) float_zero)
  value_of tk_long n any = long_val (or_else (to_long any) 0)
  value_of tk_short n any = short_val (widen_short (or_else (to_short any) 0))
  value_of tk_boolean n any = bool_val (or_else (to_boolean any) false)
  value_of tk_octet n any = octet_val (or_else (to_octet any) 0)
  value_of tk_string n any = elim (to_string any) [ none ↦ not_set | some s ↦ string_val s ]
  value_of tk_struct n any =
      if n == "TimeValue"
      then elim (to_time_value any) [ none ↦ not_set | some usec ↦ time_val usec ]
      else raw_val (cdr any)
  value_of tk_null n any = raw_val (cdr any)
  value_of (tk_other k) n any = raw_val (cdr any)

  unfoldable pub from_corba : Any → Option TypeCode → AnyValue Double Float
  unfolding to_type_kind value_of
  from_corba any none = record { type_kind = to_type_kind none; value = not_set }
  from_corba any (some tc) = record {
    type_kind = to_type_kind (some tc);
    value = value_of (kind tc) (or_empty (name tc)) any;
  }

  abbrev pub get_double : Value Double Float → Double
  get_double (double_val d) = d
  get_double _ = double_zero

  abbrev pub get_float : Value Double Float → Float
  get_float (float_val d) = d
  get_float _ = float_zero

  -- The `switch` of `toCorba`.
  unfoldable pub any_of : TypeKind → Value Double Float → Any
  any_of type_double v = of_double (get_double v)
  any_of type_float v = of_float (get_float v)
  any_of type_long v = of_long (get_long v)
  any_of type_short v = of_short (narrow_short (get_short v))
  any_of type_boolean v = of_boolean (get_bool v)
  any_of type_octet v = of_octet (narrow_octet (get_octet v))
  any_of type_string v = of_string (c_str (get_string v))
  any_of type_timevalue v = of_time_value (get_time v)
  any_of type_unknown v = empty
  any_of type_void v = empty
  any_of (type_unrecognized k) v = empty

  unfoldable pub to_corba : AnyValue Double Float → Any
  unfolding any_of
  to_corba dto = any_of dto.type_kind dto.value
