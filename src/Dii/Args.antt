-- ===== src/Dii/Args.antt =====
-- Which arguments a request carries.
use api_gateway_gtc.Base.{
  c_str, ℕ, zero, suc, ◌≡◌, refl, sym, ap, arith, String, Bool, true, false, Option, none, some,
  List, [], ◌∷◌, get_elem?,
}
use api_gateway_gtc.Ifr.{ParamInfo}
use api_gateway_gtc.Dii.{is_out, add_from, add_in_args}

module _ {TypeCode : Type 0} where
  -- The names of the parameters that a caller gives a value for, as C reads them.
  abbrev pub inputs : List (ParamInfo TypeCode) → List String
  inputs [] = []
  inputs (p ∷ params) = elim (is_out p.mode) [
    | true ↦ inputs params
    | false ↦ c_str p.name ∷ inputs params
  ]

module _ {Any : Type 0} where
  -- Each name with the value in its place, as far as both lists go.
  abbrev pub paired : List String → List Any → List (String × Any)
  paired [] args = []
  paired (n ∷ names) [] = []
  paired (n ∷ names) (arg ∷ args) = (n, arg) ∷ paired names args

  abbrev from_index : List Any → ℕ → List Any
  from_index [] index = []
  from_index (arg ∷ args) zero = arg ∷ args
  from_index (arg ∷ args) (suc index) = from_index args index

  paired-nil : (names : List String) → paired names [] ≡ []
  paired-nil [] = refl
  paired-nil (n ∷ names) = refl

  from_index-none :
      (args : List Any) (index : ℕ) → get_elem? args index ≡ none → from_index args index ≡ []
  from_index-none [] index h = refl
  from_index-none (arg ∷ args) zero h = cc
  from_index-none (arg ∷ args) (suc index) h = from_index-none args index h

  from_index-some :
      (args : List Any) (index : ℕ) (arg : Any)
      → get_elem? args index ≡ some arg
      → from_index args index ≡ arg ∷ from_index args (suc index)
  from_index-some [] index arg h = cc
  from_index-some (a ∷ []) zero arg h = ground arith
  from_index-some (a ∷ b ∷ args) zero arg h = ground arith
  from_index-some (a ∷ args) (suc index) arg h = from_index-some args index arg h

module _ {Any TypeCode : Type 0} where
  add_from-paired :
      (params : List (ParamInfo TypeCode)) (args : List Any) (index : ℕ)
      → add_from params args index ≡ paired (inputs params) (from_index args index)
  unfolding add_from
  add_from-paired [] args index = refl
  add_from-paired (p ∷ params) args index =
      by (get_elem? args index) refl (is_out p.mode) refl (add_from-paired params args)
    where
      by :
          (o : Option Any)
          → get_elem? args index ≡ o
          → (b : Bool) → is_out p.mode ≡ b
          → ((i : ℕ) → add_from params args i ≡ paired (inputs params) (from_index args i))
          → add_from (p ∷ params) args index ≡ paired (inputs (p ∷ params)) (from_index args index)
      by none e b m ih =
          rw (add_from, e, from_index-none args index e) (sym (paired-nil (inputs (p ∷ params))))
      by (some arg) e true m ih = rw (add_from, inputs, e, m) (ih index)
      by (some arg) e false m ih =
          rw (add_from, inputs, e, m, from_index-some args index arg e)
            (ap (λ l. (c_str p.name, arg) ∷ l) (ih (suc index)))

  -- A request carries the arguments in order, each under the name, up to its first NUL, of the
  -- next parameter that is not an OUT one; what is left over on either side is dropped.
  pub add_in_args-paired :
      (params : List (ParamInfo TypeCode)) (args : List Any)
      → add_in_args params args ≡ paired (inputs params) args
  unfolding add_in_args
  add_in_args-paired params [] = sym (paired-nil (inputs params))
  add_in_args-paired params (arg ∷ args) = add_from-paired params (arg ∷ args) 0
