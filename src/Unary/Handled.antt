-- ===== src/Unary/Handled.antt =====
-- How a call of `Invoke` is handled.
use api_gateway_gtc.Base.{String, ◌++◌, ◌≡◌, refl, ◌∙◌, Option, none, some, List}
use api_gateway_gtc.Base.Outcome.{
  Outcome, ok, throw, runtime_error, invalid_argument, corba, Status, status_ok, not_found,
  caught_all, and_then,
}
use api_gateway_gtc.Ifr.{OperationInfo, InterfaceInfo, fetch_from_ifr}
use api_gateway_gtc.Ifr.Interfaces.{Faithful, describe_interface_lem}
use api_gateway_gtc.Dii
use api_gateway_gtc.Dii.{InvokeResult}
use api_gateway_gtc.Unary.{
  Runtime, UnaryState, InvokeResponse, no_response, find_operation, run_dii, run_operation,
  run_described, dii_response,
}

module _ {Ctx Obj Any TypeCode Contained InterfaceDef Double Float : Type 0}
    (runtime : Runtime Ctx Obj Any TypeCode Contained InterfaceDef Double Float) where
  -- The status and the response with which a call ends.
  abbrev pub Response : Type 0
  Response = Status × InvokeResponse Double Float

  pub described :
      (obj : Option Obj) (method : String) (args : List Any) (o : Option (OperationInfo TypeCode))
      → (r : Response) × (run_operation runtime obj method args o ≡ ok r)
  unfolding run_operation run_dii
  described obj method args none = (_, refl)
  described obj method args (some op) = caught (
      and_then (Dii.invoke runtime.target obj method op.return_tc op.params args)
        (λ result. ok (status_ok, dii_response runtime result)))
    where
      caught : (o : Outcome Response) → (r : Response) × (caught_all no_response o ≡ ok r)
      caught (ok r) = (r, refl)
      caught (throw (runtime_error what)) = (_, refl)
      caught (throw (invalid_argument what)) = (_, refl)
      caught (throw (corba name)) = (_, refl)

  -- A call by way of the interface repository, which describes the target, ends with a status and
  -- no exception, calls no device, and keeps the cache in agreement with the repository.
  pub run_described-status :
      (obj : Option Obj) (method : String) (args : List Any) (s : UnaryState TypeCode)
      (repid : String) (info : InterfaceInfo TypeCode)
      → runtime.repository_id obj ≡ ok repid
      → fetch_from_ifr runtime.repository repid ≡ ok info
      → Faithful runtime.repository s.ifr
      → let r = run_described runtime obj method args s in
        ((response : Response) × (r.0 ≡ ok response))
        × (r.1.calls ≡ s.calls)
        × Faithful runtime.repository r.1.ifr
  unfolding run_described
  run_described-status obj method args s repid info ri f v =
      let d = describe_interface_lem runtime.repository repid s.ifr v in
      rw (run_described, ri, d.0 ∙ f)
        (described obj method args (find_operation method info.operations), refl, d.1)

  -- If besides no operation of the interface has the method's name, the status is `NOT_FOUND`.
  pub run_described-not_found :
      (obj : Option Obj) (method : String) (args : List Any) (s : UnaryState TypeCode)
      (repid : String) (info : InterfaceInfo TypeCode)
      → runtime.repository_id obj ≡ ok repid
      → fetch_from_ifr runtime.repository repid ≡ ok info
      → Faithful runtime.repository s.ifr
      → find_operation method info.operations ≡ none
      → (run_described runtime obj method args s).0
        ≡ ok (not_found ("method not found: " ++ method), no_response)
  unfolding run_described run_operation
  run_described-not_found obj method args s repid info ri f v missing =
      let d = describe_interface_lem runtime.repository repid s.ifr v in
      rw (run_described, ri, d.0 ∙ f, missing, run_operation) refl
