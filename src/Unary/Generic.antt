-- ===== src/Unary/Generic.antt =====
-- A call of a component that is no device, from its name to its answer.
use api_gateway_gtc.Base.{c_str, String, ◌≡◌, refl, ◌∙◌, none, some, List, [], map}
use api_gateway_gtc.Base.Outcome.{ok, status_ok}
use api_gateway_gtc.Naming
use api_gateway_gtc.Ifr.{OperationInfo, InterfaceInfo, fetch_from_ifr}
use api_gateway_gtc.Ifr.Interfaces.{Faithful, describe_interface_lem}
use api_gateway_gtc.Dii.{rethrown}
use api_gateway_gtc.Dii.Args.{paired, inputs}
use api_gateway_gtc.Dii.Outs.{AllIn, invoke-AllIn}
use api_gateway_gtc.Adapter.Any.{AnyValue, to_corba}
use api_gateway_gtc.Unary.{
  Runtime, UnaryState, converted, dii_response, find_operation, run_dii, run_operation,
  run_described, run_on, invoke,
}

module _ {Ctx Obj Any TypeCode Contained InterfaceDef Double Float : Type 0}
    (runtime : Runtime Ctx Obj Any TypeCode Contained InterfaceDef Double Float) where
  -- Where a name resolves to an object that is no device, the repository describes it with a
  -- method of IN parameters, and the object answers the request with the paired, converted
  -- arguments, `Invoke` gives `OK` with the converted answer and no out arguments, and no device
  -- is called.
  pub invoke_answered :
      (component method : String) (args : List (AnyValue Double Float)) (s : UnaryState TypeCode)
      (obj : Obj) (repid : String) (info : InterfaceInfo TypeCode) (op : OperationInfo TypeCode)
      (value : Any)
      → Naming.resolve runtime.names runtime.ns component "" ≡ ok (some obj)
      → runtime.narrow_device (some obj) ≡ ok none
      → runtime.repository_id (some obj) ≡ ok repid
      → fetch_from_ifr runtime.repository repid ≡ ok info
      → Faithful runtime.repository s.ifr
      → find_operation method info.operations ≡ some op
      → AllIn op.params
      → runtime.target.request obj (c_str method) ≡ ok tt
      → runtime.target.invoke obj
          (c_str method)
          op.return_tc
          (paired (inputs op.params) (map (to_corba runtime.corba) args))
        ≡ ok value
      → let r = invoke runtime component method args s in
        (r.0
          ≡ ok (status_ok, record { return_value = some (converted runtime value); out_args = [] }))
        × (r.1.calls ≡ s.calls)
  unfolding invoke run_on run_described run_operation run_dii dii_response rethrown
  invoke_answered component method args s obj repid info op value n d i f v found ins rq iv =
      let known = describe_interface_lem runtime.repository repid s.ifr v in
      let sent =
        invoke-AllIn runtime.target obj method op.return_tc op.params
          (map (to_corba runtime.corba) args) ins in
      rw
        (
          invoke,
          n,
          d,
          run_on,
          run_described,
          i,
          known.0 ∙ f,
          found,
          run_operation,
          run_dii,
          sent,
          rq,
          iv,
          rethrown,
        )
        (refl, refl)
