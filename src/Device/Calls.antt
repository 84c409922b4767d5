-- ===== src/Device/Calls.antt =====
-- Which calls a device gets.
use api_gateway_gtc.Base.{
  String, ◌++◌, ◌≡◌, ◌⊎◌, inl, inr, refl, arith, true, false, Option, none, some, List, [], ◌∷◌,
  ◌==◌, Bool-cases, Option-cases,
}
use api_gateway_gtc.Base.Outcome.{
  Outcome, ok, throw, Exn, is_corba, runtime_error, invalid_argument, corba, pure, ◌>>=◌,
}
use api_gateway_gtc.Adapter.Any.{Corba}
use api_gateway_gtc.Dii.{InvokeResult}
use api_gateway_gtc.Device.{
  Device, DeviceCall, plain, void_methods, bool_methods, has_key, is_device_method, calling,
  corba_as_runtime, returned, make_void, make_bool, make_string, config_name, report_level,
  run_configure, dispatch_body, dispatch,
}

-- The end of a dispatched call: at most one call of the device was made, there is a result, or an
-- exception that is not a `CORBA::Exception`.
abbrev pub Dispatched :
    {Any : Type 0}
    → List DeviceCall
    → Outcome (Option (InvokeResult Any)) × List DeviceCall
    → Type 0
Dispatched log r =
    ((r.1 ≡ log) ⊎ ((call : DeviceCall) × (r.1 ≡ call ∷ log)))
    × (((result : InvokeResult _) × (r.0 ≡ ok (some result)))
        ⊎ ((e : Exn) × (r.0 ≡ throw e) × (is_corba e ≡ false)))

module _ {Any TypeCode Double Float : Type 0} (orb : Corba Any TypeCode Double Float)
    (device : Device) where
  called :
      {A : Type 0} (method : String) (call : DeviceCall) (value : A → Any) (log : List DeviceCall)
      (answer : Outcome A)
      → Dispatched log (
          corba_as_runtime method
            ((calling call answer >>= λ a. pure (returned orb (value a))) log))
  unfolding corba_as_runtime
  called method call value log (ok a) =
      (inr (call, refl), inl (record { return_value = value a; out_args = [] }, refl))
  called method call value log (throw (corba info)) = (
    inr (call, refl),
    inr (
      runtime_error ("DeviceDispatcher: CORBA exception on '" ++ method ++ "': " ++ info),
      refl,
      refl,
    ),
  )
  called method call value log (throw (runtime_error what)) =
      (inr (call, refl), inr (runtime_error what, refl, refl))
  called method call value log (throw (invalid_argument what)) =
      (inr (call, refl), inr (invalid_argument what, refl, refl))

  configured :
      (method : String) (args : List Any) (log : List DeviceCall)
      → Dispatched log (corba_as_runtime method (run_configure orb device args log))
  unfolding run_configure corba_as_runtime
  configured method args log = elim (Option-cases (config_name orb args)) [
    | inl e ↦ rw (run_configure, e) (inl refl, inr (runtime_error _, refl, refl))
    | inr (name, e) ↦
        rw (run_configure, e)
          (called method (DeviceCall.configure name) (λ u. make_void orb) log
            (device.configure name))
  ]

  -- A method that is not a device's is left to the caller, and the device is not called.
  pub dispatch_other :
      (method : String) (args : List Any) (log : List DeviceCall)
      → is_device_method method ≡ false
      → dispatch orb device method args log ≡ (ok none, log)
  unfolding dispatch dispatch_body corba_as_runtime
  dispatch_other method args log other = rw (dispatch, dispatch_body, other) refl

  -- A device's method other than `internals` makes at most one call of the device, and ends with a
  -- result or with an exception that is not a CORBA exception.
  pub dispatch-Dispatched :
      (method : String) (args : List Any) (log : List DeviceCall)
      → is_device_method method ≡ true
      → (method == "internals") ≡ false
      → Dispatched log (dispatch orb device method args log)
  unfolding dispatch dispatch_body corba_as_runtime
  dispatch-Dispatched method args log d i = elim (Bool-cases (has_key method void_methods)) [
    | inl v ↦
        rw (dispatch, dispatch_body, d, v)
          (called method (plain method) (λ u. make_void orb) log (device.run method))
    | inr v ↦ elim (Bool-cases (has_key method bool_methods)) [
      | inl b ↦
          rw (dispatch, dispatch_body, d, v, b)
            (called method (plain method) (make_bool orb) log (device.ask method))
      | inr b ↦ elim (Bool-cases (method == "configure")) [
        | inl c ↦ rw (dispatch, dispatch_body, d, v, b, c) (configured method args log)
        | inr c ↦ elim (Bool-cases (method == "report")) [
          | inl r ↦
              rw (dispatch, dispatch_body, d, v, b, c, r)
                (called method (DeviceCall.report (report_level orb args)) (make_string orb) log
                  (device.report (report_level orb args)))
          | inr r ↦ absurd (unfold is_device_method in ground arith)
        ]
      ]
    ]
  ]

  -- `internals` passes the test of `isDeviceMethod`, and is then left to the caller like a method
  -- that is not a device's: the device is not called.
  pub internals_unhandled :
      (args : List Any) (log : List DeviceCall)
      → (is_device_method "internals" ≡ true)
        × (dispatch orb device "internals" args log ≡ (ok none, log))
  unfolding is_device_method has_key dispatch dispatch_body corba_as_runtime
  internals_unhandled args log = (refl, refl)
