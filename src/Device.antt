-- ===== src/Device.antt =====
-- src/corba/DII/device_dispatcher.cpp: the class `DeviceDispatcher`, which calls a device through
-- its own stubs. The state of an action is the list of the calls made, the latest first.
pub mod Calls
use api_gateway_gtc.Base.{
  ℕ, String, ◌++◌, Bool, true, false, ◌||◌, Option, none, some, List, [], ◌∷◌, ◌==◌, if◌then◌else◌,
}
use api_gateway_gtc.Base.Outcome.{
  Outcome, ok, throw, Exn, runtime_error, invalid_argument, corba, Exec, bind, pure, raise, ◌>>=◌,
  ◌>>◌,
}
use api_gateway_gtc.Adapter.Any.{Corba, or_else}
use api_gateway_gtc.Dii.{InvokeResult}

-- The calls of `DCF::Device_ifce`: a method of the two tables, or one of the three others.
pub data DeviceCall : Type 0 where
  plain : String → DeviceCall
  configure : String → DeviceCall
  report : ℕ → DeviceCall
  internals : DeviceCall

-- How a device answers.
pub record Device : Type 0 where
  pub run : String → Outcome (Unit {0})
  pub ask : String → Outcome Bool
  pub configure : String → Outcome (Unit {0})
  pub report : ℕ → Outcome String
  pub internals : Outcome String

-- The keys of `VoidMethodsList` and of `BoolMethodsList`; each stands for the method of its name.
abbrev pub void_methods : List String
void_methods =
    "enable" ∷ "disable" ∷ "start" ∷ "init" ∷ "halt" ∷ "shutdown" ∷ "restore" ∷ "abort" ∷ "reset"
    ∷ "test" ∷ "ping" ∷ "startDebug" ∷ "stopDebug" ∷ []

abbrev pub bool_methods : List String
bool_methods =
    "isOff" ∷ "isStarting" ∷ "isShuttingDown" ∷ "isOn" ∷ "isInitialising" ∷ "isHalting" ∷ "isIdle"
    ∷ "isRunning" ∷ "isDisabled" ∷ "isFault" ∷ "isResetting" ∷ "isReady" ∷ "isConfigurable"
    ∷ "isComposite" ∷ "isIntegrated" ∷ []

-- `count` of a table's key.
unfoldable pub has_key : String → List String → Bool
has_key method [] = false
has_key method (name ∷ names) = if name == method then true else has_key method names

unfoldable pub is_device_method : String → Bool
unfolding has_key
is_device_method method =
    has_key method void_methods
    || has_key method bool_methods
    || method == "configure"
    || method == "report"
    || method == "internals"

-- A call of the device, with its answer.
abbrev pub calling : {A : Type 0} → DeviceCall → Outcome A → Exec (List DeviceCall) A
calling call answer log = (answer, call ∷ log)

-- `catch (const CORBA::Exception&)` around the body of `dispatch`.
unfoldable pub corba_as_runtime :
    {A : Type 0} → String → Outcome A × List DeviceCall → Outcome A × List DeviceCall
corba_as_runtime method (ok a, log) = (ok a, log)
corba_as_runtime method (throw (corba info), log) = (
  throw (runtime_error ("DeviceDispatcher: CORBA exception on '" ++ method ++ "': " ++ info)),
  log,
)
corba_as_runtime method (throw (runtime_error what), log) = (throw (runtime_error what), log)
corba_as_runtime method (throw (invalid_argument what), log) = (throw (invalid_argument what), log)

module _ {Any TypeCode Double Float : Type 0} (orb : Corba Any TypeCode Double Float) where
  unfoldable pub make_void : Any
  make_void = orb.empty

  unfoldable pub make_bool : Bool → Any
  make_bool = orb.of_boolean

  unfoldable pub make_string : String → Any
  make_string = orb.of_string

  -- `result.return_value = value; return new InvokeResult(result)`.
  abbrev pub returned : Any → Option (InvokeResult Any)
  returned value = some (record { return_value = value; out_args = [] })

  -- The argument of `configure`: `none` if there is one that is not a text.
  unfoldable pub config_name : List Any → Option String
  config_name [] = some ""
  config_name (arg ∷ args) = orb.to_string arg

  -- The level of `report`: 0 if there is no argument, or if it is not a short.
  unfoldable pub report_level : List Any → ℕ
  report_level [] = 0
  report_level (arg ∷ args) = or_else (orb.to_short arg) 0

  module _ (device : Device) where
    unfoldable pub run_configure : List Any → Exec (List DeviceCall) (Option (InvokeResult Any))
    unfolding config_name make_void
    run_configure args = elim (config_name args) [
      | none ↦
          raise (
            runtime_error
              "[DeviceDispatcher] DeviceDispatcher::configure: expected string argument")
      | some name ↦ calling (DeviceCall.configure name) (device.configure name) >>= λ u.
          pure (returned make_void)
    ]

    -- The body of the `try` block, in the order of its tests.
    unfoldable pub dispatch_body :
        String → List Any → Exec (List DeviceCall) (Option (InvokeResult Any))
    unfolding is_device_method has_key run_configure report_level make_void make_bool make_string
    dispatch_body method args =
        if is_device_method method
        then (if has_key method void_methods
            then (calling (plain method) (device.run method) >>= λ u. pure (returned make_void))
            else if has_key method bool_methods
            then (calling (plain method) (device.ask method) >>= λ b. pure (returned (make_bool b)))
            else if method == "configure"
            then run_configure args
            else if method == "report"
            then (calling (DeviceCall.report (report_level args))
                  (device.report (report_level args))
                >>= λ s. pure (returned (make_string s)))
            else if method == "internal"
            then (calling DeviceCall.internals device.internals >>= λ s.
                pure (returned (make_string s)))
            else pure none)
        else pure none

    unfoldable pub dispatch : String → List Any → Exec (List DeviceCall) (Option (InvokeResult Any))
    unfolding dispatch_body corba_as_runtime
    dispatch method args log = corba_as_runtime method (dispatch_body method args log)
