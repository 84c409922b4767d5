-- ===== src/Dii.antt =====
-- src/corba/DII/dii_invocation.cpp: the struct `InvokeResult` and the class `DiiEngine`. A CORBA
-- request is a parameter; `TypeCode` are the type codes, `Any` its values.
pub mod Args
pub mod Outs
use api_gateway_gtc.Base.{
  c_str, ℕ, zero, suc, ◌+◌, ◌%◌, ◌^◌, String, ◌++◌, Bool, true, false, Option, none, some, List, [],
  ◌∷◌, ltb, if◌then◌else◌, get_elem?, length,
}
use api_gateway_gtc.Base.Outcome.{
  Outcome, ok, throw, runtime_error, invalid_argument, corba, and_then,
}
use api_gateway_gtc.Ifr.{ParamInfo, Mode, in_mode, out_mode, inout_mode, unspecified_mode}

pub record InvokeResult (Any : Type 0) : Type 0 where
  pub return_value : Any
  pub out_args : List Any

-- What the code calls of the target: `_request`, and `invoke` of a request with its return type and
-- its arguments, all of them in arguments, which a call leaves as they are.
pub record Target (Obj Any TypeCode : Type 0) : Type 0 where
  pub request : Obj → String → Outcome (Unit {0})
  pub invoke : Obj → String → TypeCode → List (String × Any) → Outcome Any

-- `params[p].mode == ParamInfo::OUT`, and the test of `extractOutArgs`.
unfoldable pub is_out : Mode → Bool
is_out out_mode = true
is_out in_mode = false
is_out inout_mode = false
is_out unspecified_mode = false

unfoldable pub is_in : Mode → Bool
is_in in_mode = true
is_in unspecified_mode = true
is_in out_mode = false
is_in inout_mode = false

-- `request->arguments()->item(p)->value()`, which throws when `p` is too large.
unfoldable pub item_value : {Any : Type 0} → List (String × Any) → ℕ → Outcome Any
item_value arguments p = elim (get_elem? arguments p) [
  | none ↦ throw (corba "Bounds")
  | some arg ↦ ok arg.1
]

module _ {Any TypeCode : Type 0} where
  -- The loop of `addInArgs`, from the argument at `index` on: the request's list of arguments.
  unfoldable pub add_from : List (ParamInfo TypeCode) → List Any → ℕ → List (String × Any)
  unfolding is_out c_str
  add_from [] args index = []
  add_from (p ∷ params) args index = elim (get_elem? args index) [
    | none ↦ []
    | some arg ↦ elim (is_out p.mode) [
      | true ↦ add_from params args index
      | false ↦ (c_str p.name, arg) ∷ add_from params args (suc index)
    ]
  ]

  unfoldable pub add_in_args : List (ParamInfo TypeCode) → List Any → List (String × Any)
  unfolding add_from
  add_in_args params [] = []
  add_in_args params (arg ∷ args) = add_from params (arg ∷ args) 0

  -- The loop of `extractOutArgs`, from the parameter at `p` on. (The value of an item is never null.)
  unfoldable pub extract_from :
      List (ParamInfo TypeCode) → List (String × Any) → ℕ → Outcome (List Any)
  unfolding is_in item_value
  extract_from [] arguments p = ok []
  extract_from (param ∷ params) arguments p = elim (is_in param.mode) [
    | true ↦ extract_from params arguments (suc p)
    | false ↦
        and_then (item_value arguments (p % 2 ^ 32))
          (λ val. and_then (extract_from params arguments (suc p)) (λ rest. ok (val ∷ rest)))
  ]

  unfoldable pub extract_out_args :
      List (ParamInfo TypeCode) → List (String × Any) → Outcome (List Any)
  unfolding extract_from
  extract_out_args params arguments = extract_from params arguments 0

-- `catch(const CORBA::Exception&)` around `request->invoke()`.
unfoldable pub rethrown : {A : Type 0} → Outcome A → Outcome A
rethrown (ok a) = ok a
rethrown (throw (corba name)) = throw (runtime_error ("DiiEngine: CORBA exception: " ++ name))
rethrown (throw (runtime_error what)) = throw (runtime_error what)
rethrown (throw (invalid_argument what)) = throw (invalid_argument what)

module _ {Obj Any TypeCode : Type 0} (target : Target Obj Any TypeCode) where
  unfoldable pub invoke :
      Option Obj
      → String
      → TypeCode
      → List (ParamInfo TypeCode)
      → List Any
      → Outcome (InvokeResult Any)
  unfolding add_in_args extract_out_args rethrown c_str
  invoke none method ret_tc params args = throw (runtime_error "DiiEngine: target is nil")
  invoke (some obj) method ret_tc params args =
      let arguments = add_in_args params args in
      and_then (target.request obj (c_str method)) (λ _.
        and_then (rethrown (target.invoke obj (c_str method) ret_tc arguments)) (λ value.
          and_then (extract_out_args params arguments)
            (λ outs. ok (record { return_value = value; out_args = outs }))))
