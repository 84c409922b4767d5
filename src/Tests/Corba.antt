-- ===== src/Tests/Corba.antt =====
-- A repository with one interface, a device, and a configuration repository with one property.
use api_gateway_gtc.Base.{
  c_str, append, ℕ, String, ◌≡◌, ◌≢◌, ◌⊎◌, refl, Bool, true, Option, none, some, List, [], ◌∷◌,
  arith, ◌==◌, if◌then◌else◌,
}
use api_gateway_gtc.Base.Outcome.{Outcome, ok, throw, corba, Status, internal}
use api_gateway_gtc.Adapter.Any.{TcKind, tk_long, tk_short, type_long, long_val}
use api_gateway_gtc.Ifr.{
  ParamInfo, in_mode, out_mode, InterfaceInfo, OperationDescription, param_in, param_out,
  Repository, IfrClient, get_interface, fetch_from_ifr, describe_interface, lookup, to_param_info,
}
use api_gateway_gtc.Ifr.{preload_all}
use api_gateway_gtc.Ifr.Preload.{Cached, preload_all-Cached}
use api_gateway_gtc.Ifr.Interfaces.{Faithful, describe_interface_lem}
use api_gateway_gtc.Dii.{is_in, is_out, rethrown, Target, add_in_args, invoke}
use api_gateway_gtc.Dii.Args.{add_in_args-paired}
use api_gateway_gtc.Dii.Outs.{invoke-AllIn, invoke_trailing_out}
use api_gateway_gtc.Device.{Device, DeviceCall, is_device_method, has_key, dispatch}
use api_gateway_gtc.Device.Calls.{Dispatched, dispatch-Dispatched}
use api_gateway_gtc.ConfigService
use api_gateway_gtc.ConfigService.{
  ConfigService, ConfigEnv, Property, Answer, answered, initial, property_change,
}
use api_gateway_gtc.ConfigServer
use api_gateway_gtc.ConfigServer.Ends.{Given, response, get_property_lem, set_property-status}
use api_gateway_gtc.Unary.{Runtime, UnaryState, run_on, param_message}
use api_gateway_gtc.Unary.Devices.{Asks, told, run_on-device}
use api_gateway_gtc.Adapter.Any.{AnyValue}
use api_gateway_gtc.Unary.Modes.{param_modes_shifted, meant}
use api_gateway_gtc.Tests.Data.{one_object}
use api_gateway_gtc.Tests.Orb.{Held, long, orb, orb-CorbaLaws}

-- `long get(in long a)` and `short get(in long a)`, and another with an OUT parameter.
abbrev pub described : List (OperationDescription TcKind)
described =
    record {
      name = "get";
      result = tk_long;
      parameters = record { name = "a"; type = tk_long; mode = param_in } ∷ [];
    }
    ∷ record { name = "get"; result = tk_short; parameters = [] }
    ∷ []

abbrev pub repository : Repository ℕ ℕ TcKind
repository = record {
  lookup_id = λ repid. ok (if repid == "IDL:GTC/Pump:1.0" then some 1 else none);
  narrow = λ c. ok (some c);
  describe_interface = λ d. ok described;
  contents = ok (ok "IDL:GTC/Pump:1.0" ∷ ok "IDL:GTC/Gone:1.0" ∷ []);
}

-- A repository that is not there any more.
abbrev gone : Repository ℕ ℕ TcKind
gone = record {
  lookup_id = λ repid. throw (corba "TRANSIENT");
  narrow = λ c. ok none;
  describe_interface = λ d. ok [];
  contents = throw (corba "TRANSIENT");
}

abbrev pub no_cache : IfrClient TcKind
no_cache = record { interface_cache = []; tc_cache = [] }

pub no_cache-Faithful : Faithful repository no_cache
unfolding lookup
no_cache-Faithful repid info h = cc

abbrev pub pump : InterfaceInfo TcKind
pump = get_interface "IDL:GTC/Pump:1.0" described

describe_interface_lem_example :
    ((describe_interface repository "IDL:GTC/Pump:1.0" no_cache).0
      ≡ fetch_from_ifr repository "IDL:GTC/Pump:1.0")
    × Faithful repository (describe_interface repository "IDL:GTC/Pump:1.0" no_cache).1
describe_interface_lem_example =
    describe_interface_lem repository "IDL:GTC/Pump:1.0" no_cache no_cache-Faithful

preload_all-Cached_example :
    ((preload_all repository no_cache).0 ≡ ok tt)
    × Cached repository
        (ok "IDL:GTC/Pump:1.0" ∷ ok "IDL:GTC/Gone:1.0" ∷ [])
        (preload_all repository no_cache).1
unfolding fetch_from_ifr
preload_all-Cached_example =
    preload_all-Cached repository (ok "IDL:GTC/Pump:1.0" ∷ ok "IDL:GTC/Gone:1.0" ∷ []) no_cache
      no_cache-Faithful refl (tt, (tt, tt))

abbrev pub in_a : ParamInfo TcKind
in_a = record { name = "a"; tc = tk_long; mode = in_mode }

abbrev out_b : ParamInfo TcKind
out_b = record { name = "b"; tc = tk_long; mode = out_mode }

abbrev pub target : Target ℕ Held TcKind
target = record { request = λ o m. ok tt; invoke = λ o m tc args. ok (long 4) }

add_in_args-paired_example :
    add_in_args (in_a ∷ out_b ∷ in_a ∷ []) (long 1 ∷ long 2 ∷ [])
    ≡ ("a", long 1) ∷ ("a", long 2) ∷ []
unfolding is_out c_str
add_in_args-paired_example = add_in_args-paired (in_a ∷ out_b ∷ in_a ∷ []) (long 1 ∷ long 2 ∷ [])

invoke-AllIn_example :
    invoke target (some 7) "get" tk_long (in_a ∷ []) (long 1 ∷ [])
    ≡ ok (record { return_value = long 4; out_args = [] })
unfolding is_in rethrown
invoke-AllIn_example = invoke-AllIn target 7 "get" tk_long (in_a ∷ []) (long 1 ∷ []) (refl, tt)

invoke_trailing_out_example :
    invoke target (some 7) "get" tk_long (in_a ∷ out_b ∷ []) (long 1 ∷ []) ≡ throw (corba "Bounds")
unfolding is_in
invoke_trailing_out_example =
    invoke_trailing_out target 7 "get" tk_long (in_a ∷ []) out_b (long 1 ∷ []) (long 4) (refl, tt)
      refl refl (omega arith) refl refl

abbrev pub device : Device
device = record {
  run = λ m. ok tt;
  ask = λ m. ok true;
  configure = λ n. throw (corba "BAD_PARAM");
  report = λ n. ok "";
  internals = ok "";
}

dispatch-Dispatched_example : Dispatched [] (dispatch orb device "configure" [] [])
unfolding is_device_method has_key
dispatch-Dispatched_example = dispatch-Dispatched orb device "configure" [] [] refl refl

abbrev pub config : ConfigEnv ℕ ℕ ℕ ℕ Held
config = record {
  names = one_object;
  ns = record { root = some 0 };
  narrow = λ o. ok (some 1);
  predef_config_repo = λ m. ok (some 2);
  get_property = λ r name. answered (record { name = name; value = long 4 });
  set_property = λ r p. answered tt;
  receive_property_changes = λ m c. throw (corba "TRANSIENT");
}

abbrev pub service : ConfigService ℕ ℕ
service = record { manager = some 1; repository = some 2 }

get_property_lem_example :
    ((property : Property Held) × Given orb config service "MACS.az" property
      × (ConfigServer.get_property orb config service "MACS.az"
          ≡ ok (response orb config property)))
    ⊎ ((what : String) × (ConfigServer.get_property orb config service "MACS.az"
          ≡ ok (internal what, none))
        × ((property : Property Held) → ¬ Given orb config service "MACS.az" property))
get_property_lem_example = get_property_lem orb config service "MACS.az"

set_property-status_example :
    (r : Status × Option Bool) × (ConfigServer.set_property orb config
        (ConfigService.connect config initial).1
        (record { name = "MACS.az"; value = record { type_kind = type_long; value = long_val 4 } })
        7
      ≡ some (ok r))
set_property-status_example =
    set_property-status orb config
      (record { name = "MACS.az"; value = record { type_kind = type_long; value = long_val 4 } }) 7

abbrev pub runtime : Runtime ℕ ℕ Held TcKind ℕ ℕ ℕ ℕ
runtime = record {
  names = one_object;
  ns = record { root = some 0 };
  corba = orb;
  repository = repository;
  target = target;
  narrow_device = λ o. ok (some device);
  repository_id = λ o. ok "IDL:GTC/Pump:1.0";
}

abbrev pub idle : UnaryState TcKind
idle = record { ifr = no_cache; calls = [] }

run_on-device_example :
    (calls : List DeviceCall) × (answer : Outcome (Option (AnyValue ℕ ℕ))) × Asks runtime device
      "isOn" [] calls answer
    × (run_on runtime (some 7) "isOn" [] (some device) idle
        ≡ (ok (told "isOn" answer), record idle { calls = append calls [] }))
unfolding is_device_method has_key
run_on-device_example =
    run_on-device runtime device orb-CorbaLaws refl (some 7) "isOn" [] idle refl refl

param_modes_shifted_example :
    (param_message runtime
      (to_param_info (record { name = "a"; type = tk_long; mode = param_out }))).mode
    ≢ meant param_out
param_modes_shifted_example =
    param_modes_shifted runtime (record { name = "a"; type = tk_long; mode = param_out })
