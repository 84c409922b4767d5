-- ===== src/Dii/Outs.antt =====
-- What comes back of a call, with IN parameters alone and with an OUT parameter.
use api_gateway_gtc.Base.{
  c_str, ℕ, zero, suc, ◌+◌, ◌≡◌, ◌≤◌, ◌<◌, ◌^◌, ◌%◌, refl, ap, ◌∙◌, arith, String, ◌++◌, true,
  false, none, some, List, [], ◌∷◌, get_elem?, length, append, All,
}
use api_gateway_gtc.Base.Outcome.{
  Outcome, ok, throw, corba, runtime_error, invalid_argument, and_then,
}
use api_gateway_gtc.Ifr.{ParamInfo}
use api_gateway_gtc.Dii.{
  InvokeResult, Target, is_in, add_in_args, item_value, extract_from, extract_out_args, rethrown,
  invoke,
}
use api_gateway_gtc.Dii.Args.{inputs, paired, add_in_args-paired}

module _ {TypeCode : Type 0} where
  -- Parameters that are IN, or of a mode that is not given.
  abbrev pub AllIn : List (ParamInfo TypeCode) → Type 0
  AllIn = All (λ p. is_in p.mode ≡ true)

module _ {Any TypeCode : Type 0} where
  extract_from-AllIn :
      (ins rest : List (ParamInfo TypeCode)) (arguments : List (String × Any)) (p : ℕ)
      → AllIn ins
      → extract_from (append ins rest) arguments p ≡ extract_from rest arguments (length ins + p)
  unfolding extract_from
  extract_from-AllIn [] rest arguments p h = ap (extract_from rest arguments) (omega arith)
  extract_from-AllIn (i ∷ ins) rest arguments p h =
      rw (extract_from, h.0)
        (extract_from-AllIn ins rest arguments (suc p) h.1
          ∙ ap (extract_from rest arguments) (omega arith))

  only_ins :
      (ins : List (ParamInfo TypeCode)) (arguments : List (String × Any)) (p : ℕ)
      → AllIn ins
      → extract_from ins arguments p ≡ ok []
  unfolding extract_from
  only_ins [] arguments p h = refl
  only_ins (i ∷ ins) arguments p h = rw (extract_from, h.0) (only_ins ins arguments (suc p) h.1)

get_elem?-past : {A : Type 0} (xs : List A) (i : ℕ) → length xs ≤ i → get_elem? xs i ≡ none
get_elem?-past [] i h = refl
get_elem?-past (x ∷ xs) zero h = absurd (omega (arith, h))
get_elem?-past (x ∷ xs) (suc i) h = get_elem?-past xs i (omega (arith, h))

length-paired :
    {Any : Type 0} (names : List String) (args : List Any)
    → length (paired names args) ≤ length args
length-paired [] args = omega arith
length-paired (n ∷ names) [] = omega arith
length-paired (n ∷ names) (arg ∷ args) = omega (arith, length-paired names args)

module _ {Obj Any TypeCode : Type 0} (target : Target Obj Any TypeCode) where
  -- How a call of IN parameters ends, by how `_request` and the call itself end: the exceptions of
  -- the first pass through, a CORBA exception of the second is told as a text.
  abbrev pub ended : Outcome (Unit {0}) → Outcome Any → Outcome (InvokeResult Any)
  ended (throw e) answer = throw e
  ended (ok u) (ok value) = ok (record { return_value = value; out_args = [] })
  ended (ok u) (throw (corba name)) = throw (runtime_error ("DiiEngine: CORBA exception: " ++ name))
  ended (ok u) (throw (runtime_error what)) = throw (runtime_error what)
  ended (ok u) (throw (invalid_argument what)) = throw (invalid_argument what)

  -- When all parameters are IN, `DiiEngine::invoke` sends the paired arguments and gives the
  -- return value with no out arguments, or what was thrown, a CORBA exception of the call as a
  -- runtime error with its text.
  pub invoke-AllIn :
      (obj : Obj) (method : String) (tc : TypeCode) (params : List (ParamInfo TypeCode))
      (args : List Any)
      → AllIn params
      → invoke target (some obj) method tc params args
        ≡ ended
            (target.request obj (c_str method))
            (target.invoke obj (c_str method) tc (paired (inputs params) args))
  unfolding invoke extract_out_args rethrown
  invoke-AllIn obj method tc params args h =
      let sent = paired (inputs params) args in
      rw (invoke, add_in_args-paired params args, only_ins params sent 0 h)
        (by (target.request obj (c_str method)) (target.invoke obj (c_str method) tc sent))
    where
      by :
          (a : Outcome (Unit {0})) (b : Outcome Any)
          → and_then a (λ _.
            and_then (rethrown b) (λ value. ok (record { return_value = value; out_args = [] })))
            ≡ ended a b
      by (throw e) b = refl
      by (ok u) (ok value) = refl
      by (ok u) (throw (corba name)) = refl
      by (ok u) (throw (runtime_error what)) = refl
      by (ok u) (throw (invalid_argument what)) = refl

  -- With one argument for each IN parameter and an OUT or INOUT parameter behind them,
  -- `DiiEngine::invoke` throws although the target answered.
  pub invoke_trailing_out :
      (obj : Obj) (method : String) (tc : TypeCode) (ins : List (ParamInfo TypeCode))
      (out : ParamInfo TypeCode) (args : List Any) (value : Any)
      → AllIn ins
      → is_in out.mode ≡ false
      → length args ≡ length ins
      → length ins < 2 ^ 32
      → target.request obj (c_str method) ≡ ok tt
      → target.invoke obj (c_str method) tc (add_in_args (append ins (out ∷ [])) args) ≡ ok value
      → invoke target (some obj) method tc (append ins (out ∷ [])) args ≡ throw (corba "Bounds")
  unfolding invoke extract_out_args extract_from item_value rethrown
  invoke_trailing_out obj method tc ins out args value hi ho hl hr rq iv =
      let nv = add_in_args (append ins (out ∷ [])) args in
      let short : length nv ≤ length ins + 0 =
        rw (add_in_args-paired (append ins (out ∷ [])) args)
          (omega (arith, length-paired (inputs (append ins (out ∷ []))) args)) in
      let miss : get_elem? nv ((length ins + 0) % 2 ^ 32) ≡ none =
        get_elem?-past nv _ (omega (arith, short)) in
      rw
        (
          invoke,
          rq,
          iv,
          extract_from-AllIn ins (out ∷ []) nv 0 hi,
          extract_from,
          ho,
          item_value,
          miss,
        )
        refl
