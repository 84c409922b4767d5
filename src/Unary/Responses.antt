-- ===== src/Unary/Responses.antt =====
-- The values in the responses of `Invoke`.
use api_gateway_gtc.Base.{String, Option, none, some, List, [], ◌∷◌, map, All}
use api_gateway_gtc.Base.Outcome.{
  Outcome, ok, throw, runtime_error, invalid_argument, corba, bind, Status, status_ok, caught_all,
  and_then, Exec, lift, ◌>>=◌,
}
use api_gateway_gtc.Naming
use api_gateway_gtc.Ifr.{OperationInfo, describe_interface}
use api_gateway_gtc.Dii
use api_gateway_gtc.Dii.{InvokeResult}
use api_gateway_gtc.Device.{Device}
use api_gateway_gtc.Adapter.Any.{TcKind, tk_null, tk_void, AnyValue, to_corba}
use api_gateway_gtc.Adapter.Bounds.{CorbaRanges}
use api_gateway_gtc.Adapter.Typed.{IsWellFormed, from_corba-IsWellFormed}
use api_gateway_gtc.Unary.{
  Runtime, UnaryState, InvokeResponse, no_response, converted, device_value, device_response,
  dii_response, find_operation, on_ifr, run_dii, run_operation, run_described, after_dispatch,
  run_on, invoke,
}

abbrev pub OptionAll : {A : Type 0} → (A → Type 0) → Option A → Type 0
OptionAll P none = Unit {0}
OptionAll P (some a) = P a

module _ {Double Float : Type 0} where
  -- The return value, if there is one, and the values of the OUT parameters are well formed.
  abbrev pub ResponseIsWellFormed : InvokeResponse Double Float → Type 0
  ResponseIsWellFormed r = OptionAll IsWellFormed r.return_value × All IsWellFormed r.out_args

  -- If the call returns, its response is well formed.
  abbrev pub Returns : Outcome (Status × InvokeResponse Double Float) → Type 0
  Returns (ok r) = ResponseIsWellFormed r.1
  Returns (throw e) = Unit {0}

  caught_all-Returns :
      (o : Outcome (Status × InvokeResponse Double Float))
      → Returns o
      → Returns (caught_all no_response o)
  caught_all-Returns (ok r) h = h
  caught_all-Returns (throw (runtime_error what)) h = (tt, tt)
  caught_all-Returns (throw (invalid_argument what)) h = (tt, tt)
  caught_all-Returns (throw (corba name)) h = (tt, tt)

  bind-Returns :
      {S A : Type 0} (r : Outcome A × S)
      (f : A → S → Outcome (Status × InvokeResponse Double Float) × S)
      → ((a : A) (s : S) → Returns (f a s).0)
      → Returns (bind r f).0
  bind-Returns (ok a, s) f h = h a s
  bind-Returns (throw e, s) f h = tt

module _ {Ctx Obj Any TypeCode Contained InterfaceDef Double Float : Type 0}
    (runtime : Runtime Ctx Obj Any TypeCode Contained InterfaceDef Double Float)
    (ranges : CorbaRanges runtime.corba) where
  converted-IsWellFormed : (any : Any) → IsWellFormed (converted runtime any)
  unfolding converted
  converted-IsWellFormed any =
      from_corba-IsWellFormed runtime.corba ranges any (some (runtime.corba.type any))

  All-converted : (anys : List Any) → All IsWellFormed (map (converted runtime) anys)
  All-converted [] = tt
  All-converted (any ∷ anys) = (converted-IsWellFormed any, All-converted anys)

  device_value-IsWellFormed :
      (k : TcKind) (any : Any) → OptionAll IsWellFormed (device_value runtime k any)
  unfolding device_value
  device_value-IsWellFormed tk_null any = tt
  device_value-IsWellFormed tk_void any = tt
  device_value-IsWellFormed _ any = converted-IsWellFormed any

  run_operation-Returns :
      (obj : Option Obj) (method : String) (args : List Any) (o : Option (OperationInfo TypeCode))
      → Returns (run_operation runtime obj method args o)
  unfolding run_operation run_dii dii_response
  run_operation-Returns obj method args none = (tt, tt)
  run_operation-Returns obj method args (some op) =
      caught_all-Returns
        (and_then (Dii.invoke runtime.target obj method op.return_tc op.params args)
          (λ result. ok (status_ok, dii_response runtime result)))
        (by (Dii.invoke runtime.target obj method op.return_tc op.params args))
    where
      by :
          (o : Outcome (InvokeResult Any))
          → Returns (and_then o (λ result. ok (status_ok, dii_response runtime result)))
      by (ok result) = (converted-IsWellFormed result.return_value, All-converted result.out_args)
      by (throw e) = tt

  run_described-Returns :
      (obj : Option Obj) (method : String) (args : List Any) (s : UnaryState TypeCode)
      → Returns (run_described runtime obj method args s).0
  unfolding run_described
  run_described-Returns obj method args s =
      bind-Returns (runtime.repository_id obj, s)
        (λ repid. on_ifr (describe_interface runtime.repository repid) >>= λ info.
          lift (run_operation runtime obj method args (find_operation method info.operations)))
        (λ repid t.
          bind-Returns (on_ifr (describe_interface runtime.repository repid) t)
            (λ info.
              lift (run_operation runtime obj method args (find_operation method info.operations)))
            (λ info u.
              run_operation-Returns obj method args (find_operation method info.operations)))

  after_dispatch-Returns :
      (obj : Option Obj) (method : String) (args : List Any)
      (o : Outcome (Option (InvokeResult Any))) (s : UnaryState TypeCode)
      → Returns (after_dispatch runtime obj method args o s).0
  unfolding after_dispatch device_response
  after_dispatch-Returns obj method args (ok (some result)) s =
      (device_value-IsWellFormed _ result.return_value, All-converted result.out_args)
  after_dispatch-Returns obj method args (ok none) s = run_described-Returns obj method args s
  after_dispatch-Returns obj method args (throw (runtime_error what)) s = (tt, tt)
  after_dispatch-Returns obj method args (throw (invalid_argument what)) s = (tt, tt)
  after_dispatch-Returns obj method args (throw (corba name)) s = tt

  run_on-Returns :
      (obj : Option Obj) (method : String) (args : List Any) (device : Option Device)
      (s : UnaryState TypeCode)
      → Returns (run_on runtime obj method args device s).0
  unfolding run_on
  run_on-Returns obj method args none s = run_described-Returns obj method args s
  run_on-Returns obj method args (some device) s = after_dispatch-Returns obj method args _ _

  -- If CORBA extracts numbers in the range of their types, every value in a response of `Invoke`
  -- that returns has a `oneof` that its kind allows and a number in the range of its type.
  pub invoke-Returns :
      (component method : String) (args : List (AnyValue Double Float)) (s : UnaryState TypeCode)
      → Returns (invoke runtime component method args s).0
  unfolding invoke
  invoke-Returns component method args s =
      bind-Returns (Naming.resolve runtime.names runtime.ns component "", s)
        (λ target. lift (runtime.narrow_device target) >>= run target)
        (λ target t.
          bind-Returns (runtime.narrow_device target, t) (run target)
            (λ device u. run_on-Returns target method (map (to_corba runtime.corba) args) device u))
    where
      run :
          Option Obj
          → Option Device
          → Exec (UnaryState TypeCode) (Status × InvokeResponse Double Float)
      run target = run_on runtime target method (map (to_corba runtime.corba) args)
