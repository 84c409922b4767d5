-- ===== src/Tests/Orb.antt =====
-- A CORBA library whose values say what they hold.
use api_gateway_gtc.Base.{ℕ, String, refl, Bool, Option, none, some, []}
use api_gateway_gtc.Base.Outcome.{ok}
use api_gateway_gtc.Adapter.Any.{
  Corba, TcKind, tk_null, tk_double, tk_float, tk_long, tk_short, tk_boolean, tk_octet, tk_string,
  tk_struct,
}
use api_gateway_gtc.Adapter.Any.RoundTrip.{CorbaLaws}

pub data Held : Type 0 where
  nothing : Held
  double float long short octet time : ℕ → Held
  boolean : Bool → Held
  string : String → Held

abbrev held_double : Held → Option ℕ
held_double (double n) = some n
held_double _ = none

abbrev held_float : Held → Option ℕ
held_float (float n) = some n
held_float _ = none

abbrev held_long : Held → Option ℕ
held_long (long n) = some n
held_long _ = none

abbrev held_short : Held → Option ℕ
held_short (short n) = some n
held_short _ = none

abbrev held_octet : Held → Option ℕ
held_octet (octet n) = some n
held_octet _ = none

abbrev held_time : Held → Option ℕ
held_time (time n) = some n
held_time _ = none

abbrev held_boolean : Held → Option Bool
held_boolean (boolean b) = some b
held_boolean _ = none

abbrev held_string : Held → Option String
held_string (string s) = some s
held_string _ = none

abbrev kind_held : Held → TcKind
kind_held nothing = tk_null
kind_held (double n) = tk_double
kind_held (float n) = tk_float
kind_held (long n) = tk_long
kind_held (short n) = tk_short
kind_held (octet n) = tk_octet
kind_held (time n) = tk_struct
kind_held (boolean b) = tk_boolean
kind_held (string s) = tk_string

abbrev pub orb : Corba Held TcKind ℕ ℕ
orb = record {
  empty = nothing;
  of_double = double;
  of_float = float;
  of_long = long;
  of_short = short;
  of_boolean = boolean;
  of_octet = octet;
  of_string = string;
  of_time_value = time;
  to_double = held_double;
  to_float = held_float;
  to_long = held_long;
  to_short = held_short;
  to_boolean = held_boolean;
  to_octet = held_octet;
  to_string = held_string;
  to_time_value = held_time;
  type = kind_held;
  kind = λ tc. tc;
  name = λ tc. ok "TimeValue";
  cdr = λ any. [];
  double_zero = 0;
  float_zero = 0;
}

pub orb-CorbaLaws : CorbaLaws orb
orb-CorbaLaws = record {
  double_type = λ d. refl;
  double_back = λ d. refl;
  float_type = λ d. refl;
  float_back = λ d. refl;
  long_type = λ n. refl;
  long_back = λ n. refl;
  short_type = λ n. refl;
  short_back = λ n. refl;
  boolean_type = λ b. refl;
  boolean_back = λ b. refl;
  octet_type = λ n. refl;
  octet_back = λ n. refl;
  string_type = λ s. refl;
  string_back = λ s. refl;
  time_type = λ n. refl;
  time_name = λ n. refl;
  time_back = λ n. refl;
}
