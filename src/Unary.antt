-- ===== src/Unary.antt =====
-- src/server/unary_server.cpp: the class `Unary`, which calls a component's method, describes a
-- component and lists the naming service.
mod Messages
pub mod Handled
pub mod Devices
pub mod Modes
pub mod Escapes
pub mod Responses
pub mod Generic
unfoldable pub use Messages.{mode_number, proto_mode, cast_mode}
pub use Messages.{
  ProtoMode, mode_unspecified, mode_in, mode_out, mode_inout, mode_other, Param, Method,
  ComponentInfo, InvokeResponse, NamingEntry,
}
use api_gateway_gtc.Base.{
  ℕ, String, ◌++◌, Bool, true, false, Option, none, some, List, [], ◌∷◌, map, ◌==◌, if◌then◌else◌,
  nat_eq,
}
use api_gateway_gtc.Base.Outcome.{
  Outcome, ok, throw, Exec, bind, pure, lift, Status, status_ok, not_found, caught_std, caught_all,
  and_then, ◌>>=◌,
}
use api_gateway_gtc.Naming
use api_gateway_gtc.Naming.{NamingService, NsResolver, NsEntry}
use api_gateway_gtc.Ifr.{
  Mode, in_mode, out_mode, inout_mode, unspecified_mode, ParamInfo, OperationInfo, InterfaceInfo,
  Repository, IfrClient, describe_interface,
}
use api_gateway_gtc.Dii
use api_gateway_gtc.Dii.{InvokeResult, Target}
use api_gateway_gtc.Device.{Device, DeviceCall, dispatch}
use api_gateway_gtc.Adapter.Any.{
  Corba, TcKind, tk_null, tk_void, AnyValue, TypeKind, from_corba, to_corba, to_type_kind,
}

-- What changes: the client's caches, and the calls that devices have taken, the latest first.
pub record UnaryState (TypeCode : Type 0) : Type 0 where
  pub ifr : IfrClient TypeCode
  pub calls : List DeviceCall

-- The parts of `CorbaRuntime`, and what the target object itself is asked: `_narrow` to a device,
-- whose result is nil for another object, and `_repository_id`.
pub record Runtime (Ctx Obj Any TypeCode Contained InterfaceDef Double Float : Type 0)
    : Type 0 where
  pub names : NamingService Ctx Obj
  pub ns : NsResolver Ctx
  pub corba : Corba Any TypeCode Double Float
  pub repository : Repository Contained InterfaceDef TypeCode
  pub target : Target Obj Any TypeCode
  pub narrow_device : Option Obj → Outcome (Option Device)
  pub repository_id : Option Obj → Outcome String

-- The loop over `info.operations`: the first with the name.
unfoldable pub find_operation :
    {TypeCode : Type 0} → String → List (OperationInfo TypeCode) → Option (OperationInfo TypeCode)
find_operation method [] = none
find_operation method (op ∷ operations) =
    if op.name == method then some op else find_operation method operations

-- An action on a part of the state.
abbrev pub on_ifr :
    {TypeCode A : Type 0} → Exec (IfrClient TypeCode) A → Exec (UnaryState TypeCode) A
on_ifr m s = let r = m s.ifr in (r.0, record s { ifr = r.1 })

abbrev pub on_calls :
    {TypeCode A : Type 0} → Exec (List DeviceCall) A → Exec (UnaryState TypeCode) A
on_calls m s = let r = m s.calls in (r.0, record s { calls = r.1 })

abbrev pub no_response : {Double Float : Type 0} → InvokeResponse Double Float
no_response = record { return_value = none; out_args = [] }

module _ {Ctx Obj Any TypeCode Contained InterfaceDef Double Float : Type 0}
    (runtime : Runtime Ctx Obj Any TypeCode Contained InterfaceDef Double Float) where
  -- `AnyAdapter::fromCorba(any, any.type())`.
  unfoldable pub converted : Any → AnyValue Double Float
  unfolding from_corba
  converted any = from_corba runtime.corba any (some (runtime.corba.type any))

  -- The return value of a device's method is left out when its type is null or void.
  unfoldable pub device_value : TcKind → Any → Option (AnyValue Double Float)
  unfolding converted
  device_value tk_null any = none
  device_value tk_void any = none
  device_value _ any = some (converted any)

  unfoldable pub device_response : InvokeResult Any → InvokeResponse Double Float
  unfolding device_value
  device_response result = record {
    return_value =
        device_value (runtime.corba.kind (runtime.corba.type result.return_value))
          result.return_value;
    out_args = map converted result.out_args;
  }

  unfoldable pub dii_response : InvokeResult Any → InvokeResponse Double Float
  unfolding converted
  dii_response result = record {
    return_value = some (converted result.return_value);
    out_args = map converted result.out_args;
  }

  -- The second `try` block of `Invoke`.
  unfoldable pub run_dii :
      Option Obj
      → String
      → OperationInfo TypeCode
      → List Any
      → Outcome (Status × InvokeResponse Double Float)
  unfolding Dii.invoke dii_response
  run_dii obj method op args = caught_all no_response (
      and_then (Dii.invoke runtime.target obj method op.return_tc op.params args)
        (λ result. ok (status_ok, dii_response result)))

  unfoldable pub run_operation :
      Option Obj
      → String
      → List Any
      → Option (OperationInfo TypeCode)
      → Outcome (Status × InvokeResponse Double Float)
  unfolding run_dii
  run_operation obj method args none = ok (not_found ("method not found: " ++ method), no_response)
  run_operation obj method args (some op) = run_dii obj method op args

  -- `Invoke` from `_repository_id` on.
  unfoldable pub run_described :
      Option Obj
      → String
      → List Any
      → Exec (UnaryState TypeCode) (Status × InvokeResponse Double Float)
  unfolding describe_interface find_operation run_operation
  run_described obj method args = do
    repid ← lift (runtime.repository_id obj)
    info ← on_ifr (describe_interface runtime.repository repid)
    lift (run_operation obj method args (find_operation method info.operations))

  -- What follows the call of the dispatcher, in the first `try` block and behind it.
  unfoldable pub after_dispatch :
      Option Obj
      → String
      → List Any
      → Outcome (Option (InvokeResult Any))
      → Exec (UnaryState TypeCode) (Status × InvokeResponse Double Float)
  unfolding device_response run_described
  after_dispatch obj method args (ok (some result)) s = (ok (status_ok, device_response result), s)
  after_dispatch obj method args (ok none) s = run_described obj method args s
  after_dispatch obj method args (throw e) s = (caught_std no_response (throw e), s)

  unfoldable pub run_on :
      Option Obj
      → String
      → List Any
      → Option Device
      → Exec (UnaryState TypeCode) (Status × InvokeResponse Double Float)
  unfolding dispatch after_dispatch run_described
  run_on obj method args none s = run_described obj method args s
  run_on obj method args (some device) s =
      let r = on_calls (dispatch runtime.corba device method args) s in
      after_dispatch obj method args r.0 r.1

  unfoldable pub invoke :
      String
      → String
      → List (AnyValue Double Float)
      → Exec (UnaryState TypeCode) (Status × InvokeResponse Double Float)
  unfolding Naming.resolve to_corba run_on
  invoke component method args = do
    target ← lift (Naming.resolve runtime.names runtime.ns component "")
    device ← lift (runtime.narrow_device target)
    run_on target method (map (to_corba runtime.corba) args) device

  unfoldable pub param_message : ParamInfo TypeCode → Param
  unfolding to_type_kind cast_mode
  param_message param = record {
    name = param.name;
    type_code = to_type_kind runtime.corba (some param.tc);
    mode = cast_mode param.mode;
  }

  unfoldable pub method_message : OperationInfo TypeCode → Method
  unfolding param_message to_type_kind
  method_message operation = record {
    name = operation.name;
    result_type_code = to_type_kind runtime.corba (some operation.return_tc);
    params = map param_message operation.params;
  }

  -- `Resolve`.
  unfoldable pub resolve : String → Exec (UnaryState TypeCode) (Status × ComponentInfo)
  unfolding Naming.resolve describe_interface method_message
  resolve component = do
    target ← lift (Naming.resolve runtime.names runtime.ns component "")
    repid ← lift (runtime.repository_id target)
    interface ← on_ifr (describe_interface runtime.repository repid)
    pure (
      status_ok,
      record { component_name = component; methods = map method_message interface.operations },
    )

  unfoldable pub naming_entry : NsEntry → NamingEntry
  naming_entry entry = record {
    name = if entry.kind == "" then entry.name else entry.name ++ "." ++ entry.kind;
    path = entry.path;
    ior = entry.ior;
  }

  abbrev pub listed :
      Option (Outcome (Unit {0}) × List NsEntry) → Option (Outcome (Status × List NamingEntry))
  unfolding naming_entry
  listed none = none
  listed (some (throw e, entries)) = some (throw e)
  listed (some (ok u, entries)) = some (ok (status_ok, map naming_entry entries))

  -- `ListNaming`; the fuel is that of the walk.
  unfoldable pub list_naming : ℕ → Option (Outcome (Status × List NamingEntry))
  unfolding Naming.list
  list_naming fuel = listed (Naming.list runtime.names fuel runtime.ns 32)
