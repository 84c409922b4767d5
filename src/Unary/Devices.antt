-- ===== src/Unary/Devices.antt =====
-- `Invoke` on a device: src/server/unary_server.cpp with src/corba/DII/device_dispatcher.cpp.
use api_gateway_gtc.Base.{
  ℕ, String, ◌++◌, ◌≡◌, refl, ap, Bool, true, false, Option, none, some, List, [], ◌∷◌, ◌==◌,
  eq_iff, append, arith, Bool-cases, Option-cases, inl, inr,
}
use api_gateway_gtc.Base.Outcome.{
  Outcome, ok, throw, runtime_error, invalid_argument, corba, Status, status_ok, internal, pure,
  ◌>>=◌,
}
use api_gateway_gtc.Adapter.Any.{
  tk_null, AnyValue, type_boolean, type_string, bool_val, string_val, from_corba, value_of,
}
use api_gateway_gtc.Adapter.Any.RoundTrip.{CorbaLaws}
use api_gateway_gtc.Device.{
  Device, DeviceCall, plain, void_methods, bool_methods, has_key, is_device_method, calling,
  corba_as_runtime, returned, make_void, make_bool, make_string, config_name, report_level,
  run_configure, dispatch_body, dispatch,
}
use api_gateway_gtc.Unary.{
  Runtime, UnaryState, InvokeResponse, no_response, converted, device_value, device_response,
  after_dispatch, run_on,
}

-- An answer, as a response shows it.
abbrev pub shown : {A B : Type 0} → (A → B) → Outcome A → Outcome B
shown f (ok a) = ok (f a)
shown f (throw e) = throw e

-- The response of a call of a device, with the value that it shows, if any, and no out arguments.
abbrev pub told :
    {Double Float : Type 0}
    → String
    → Outcome (Option (AnyValue Double Float))
    → Status × InvokeResponse Double Float
told method (ok value) = (status_ok, record { return_value = value; out_args = [] })
told method (throw (corba info)) =
    (internal ("DeviceDispatcher: CORBA exception on '" ++ method ++ "': " ++ info), no_response)
told method (throw (runtime_error what)) = (internal what, no_response)
told method (throw (invalid_argument what)) = (internal what, no_response)

module _ {Ctx Obj Any TypeCode Contained InterfaceDef Double Float : Type 0}
    (runtime : Runtime Ctx Obj Any TypeCode Contained InterfaceDef Double Float)
    (device : Device) where
  -- What a method asks of the device, and what the device's answer shows: a method of the first
  -- table and `configure` nothing, one of the second a truth value, `report` a text.
  pub data Asks (method : String) (args : List Any)
      : List DeviceCall → Outcome (Option (AnyValue Double Float)) → Type 0 where
    runs :
        has_key method void_methods ≡ true
        → Asks method args (plain method ∷ []) (shown (λ u. none) (device.run method))
    asks :
        has_key method bool_methods ≡ true
        → Asks method args (plain method ∷ []) (
            shown
              (λ b. some (record { type_kind = type_boolean; value = bool_val b }))
              (device.ask method))
    configures :
        (name : String)
        → method ≡ "configure"
        → config_name runtime.corba args ≡ some name
        → Asks method args
            (DeviceCall.configure name ∷ [])
            (shown (λ u. none) (device.configure name))
    refuses :
        method ≡ "configure"
        → config_name runtime.corba args ≡ none
        → Asks method args [] (
            throw (
              runtime_error
                "[DeviceDispatcher] DeviceDispatcher::configure: expected string argument"))
    reports :
        (level : ℕ)
        → method ≡ "report"
        → report_level runtime.corba args ≡ level
        → Asks method args (DeviceCall.report level ∷ []) (
            shown
              (λ s. some (record { type_kind = type_string; value = string_val s }))
              (device.report level))

  module _ (laws : CorbaLaws runtime.corba)
      (untyped : runtime.corba.kind (runtime.corba.type runtime.corba.empty) ≡ tk_null) where
    open laws use {boolean_type, boolean_back, string_type, string_back}

    -- What the conversion makes of a value.
    abbrev seen : Any → Option (AnyValue Double Float)
    seen any = device_value runtime (runtime.corba.kind (runtime.corba.type any)) any

    seen-void : seen (make_void runtime.corba) ≡ none
    unfolding make_void device_value
    seen-void = rw untyped refl

    seen-bool :
        (b : Bool)
        → seen (make_bool runtime.corba b)
          ≡ some (record { type_kind = type_boolean; value = bool_val b })
    unfolding make_bool device_value converted from_corba
    seen-bool b =
        rw (boolean_type b, device_value, converted, boolean_type b, value_of, boolean_back b) refl

    seen-string :
        (s : String)
        → seen (make_string runtime.corba s)
          ≡ some (record { type_kind = type_string; value = string_val s })
    unfolding make_string device_value converted from_corba
    seen-string s =
        rw (string_type s, device_value, converted, string_type s, value_of, string_back s) refl

    -- One call of the device, from its answer to the response.
    answered :
        {A : Type 0} (obj : Option Obj) (method : String) (args : List Any) (call : DeviceCall)
        (value : A → Any) (show : A → Option (AnyValue Double Float))
        → ((a : A) → seen (value a) ≡ show a)
        → (s : UnaryState TypeCode) (answer : Outcome A)
        → let q =
            corba_as_runtime method
              ((calling call answer >>= λ a. pure (returned runtime.corba (value a))) s.calls) in
          after_dispatch runtime obj method args q.0 (record s { calls = q.1 })
          ≡ (ok (told method (shown show answer)), record s { calls = call ∷ s.calls })
    unfolding corba_as_runtime after_dispatch device_response
    answered obj method args call value show each s (ok a) =
        ap
          (λ v. (
            ok (status_ok, record { return_value = v; out_args = [] }),
            record s { calls = call ∷ s.calls },
          ))
          (each a)
    answered obj method args call value show each s (throw (corba info)) = refl
    answered obj method args call value show each s (throw (runtime_error what)) = refl
    answered obj method args call value show each s (throw (invalid_argument what)) = refl

    configured :
        (obj : Option Obj) (method : String) (args : List Any) (s : UnaryState TypeCode)
        → method ≡ "configure"
        → let q = corba_as_runtime method (run_configure runtime.corba device args s.calls) in
          (calls : List DeviceCall) × (answer : Outcome (Option (AnyValue Double Float))) × Asks
            method args calls answer
          × (after_dispatch runtime obj method args q.0 (record s { calls = q.1 })
              ≡ (ok (told method answer), record s { calls = append calls s.calls }))
    unfolding run_configure corba_as_runtime after_dispatch
    configured obj method args s is = elim (Option-cases (config_name runtime.corba args)) [
      | inl e ↦ ([], _, refuses is e, rw (run_configure, e) refl)
      | inr (name, e) ↦ (
        DeviceCall.configure name ∷ [],
        _,
        configures name is e,
        rw (run_configure, e)
            (answered obj method args (DeviceCall.configure name) (λ u. make_void runtime.corba)
              (λ u. none) (λ u. seen-void) s (device.configure name)),
      )
    ]

    -- A method of a device other than `internals` makes the call that its name and arguments stand
    -- for, none for a `configure` without a text, and ends with `OK` and what the answer shows,
    -- nothing, a truth value or a text, with no out arguments, or with `INTERNAL` and the text of
    -- the exception; the interface caches stay. An inserted value has its type and comes back, and
    -- an empty one is of kind null.
    pub run_on-device :
        (obj : Option Obj) (method : String) (args : List Any) (s : UnaryState TypeCode)
        → is_device_method method ≡ true
        → (method == "internals") ≡ false
        → (calls : List DeviceCall) × (answer : Outcome (Option (AnyValue Double Float))) × Asks
            method args calls answer
          × (run_on runtime obj method args (some device) s
              ≡ (ok (told method answer), record s { calls = append calls s.calls }))
    unfolding run_on dispatch dispatch_body corba_as_runtime
    run_on-device obj method args s d i = elim (Bool-cases (has_key method void_methods)) [
      | inl v ↦ (
        plain method ∷ [],
        _,
        runs v,
        rw (run_on, dispatch, dispatch_body, d, v)
            (answered obj method args (plain method) (λ u. make_void runtime.corba) (λ u. none)
              (λ u. seen-void) s (device.run method)),
      )
      | inr v ↦ elim (Bool-cases (has_key method bool_methods)) [
        | inl b ↦ (
          plain method ∷ [],
          _,
          asks b,
          rw (run_on, dispatch, dispatch_body, d, v, b)
              (answered obj method args (plain method) (make_bool runtime.corba)
                (λ b. some (record { type_kind = type_boolean; value = bool_val b })) seen-bool s
                (device.ask method)),
        )
        | inr b ↦ elim (Bool-cases (method == "configure")) [
          | inl c ↦
              let (calls, answer, asked, e) =
                configured obj method args s ((eq_iff method "configure").0 c) in
              (calls, answer, asked, rw (run_on, dispatch, dispatch_body, d, v, b, c) e)
          | inr c ↦ elim (Bool-cases (method == "report")) [
            | inl r ↦
                let level = report_level runtime.corba args in
                (
                  DeviceCall.report level ∷ [],
                  _,
                  reports level ((eq_iff method "report").0 r) refl,
                  rw (run_on, dispatch, dispatch_body, d, v, b, c, r)
                      (answered obj method args (DeviceCall.report level)
                        (make_string runtime.corba)
                        (λ s. some (record { type_kind = type_string; value = string_val s }))
                        seen-string s (device.report level)),
                )
            | inr r ↦ absurd (unfold is_device_method in ground arith)
          ]
        ]
      ]
    ]
