-- ===== src/Unary/Escapes.antt =====
-- What leaves `Invoke` and `Resolve` by an exception, and what they do to the caches.
use api_gateway_gtc.Base.{
  String, ◌≡◌, refl, ◌∙◌, false, Option, none, some, List, map, ◌⊎◌, inl, inr, subst,
}
use api_gateway_gtc.Base.Outcome.{
  Outcome, ok, throw, Exn, is_corba, runtime_error, invalid_argument, corba,
}
use api_gateway_gtc.Naming
use api_gateway_gtc.Ifr.{InterfaceInfo, fetch_from_ifr}
use api_gateway_gtc.Ifr.Interfaces.{Faithful, describe_interface_lem}
use api_gateway_gtc.Dii.{InvokeResult}
use api_gateway_gtc.Device.{Device, DeviceCall, dispatch, dispatch_body, corba_as_runtime}
use api_gateway_gtc.Adapter.Any.{AnyValue, to_corba}
use api_gateway_gtc.Unary.{
  Runtime, UnaryState, find_operation, run_described, after_dispatch, run_on, invoke, resolve,
}
use api_gateway_gtc.Unary.Handled.{described}

moved :
    {A : Type 0} (Cause : Exn → Type 0) (x e : Exn)
    → Cause x
    → ◌≡◌ {A = Outcome A} (throw x) (throw e)
    → Cause e
moved Cause x e c h = subst Cause (cc) c

no_corba :
    {A : Type 0} (method : String) (o : Outcome A × List DeviceCall) (e : Exn)
    → (corba_as_runtime method o).0 ≡ throw e
    → is_corba e ≡ false
unfolding corba_as_runtime
no_corba method (ok a, log) e h = absurd (cc)
no_corba method (throw (corba info), log) e h = moved (λ x. is_corba x ≡ false) _ e refl h
no_corba method (throw (runtime_error what), log) e h = moved (λ x. is_corba x ≡ false) _ e refl h
no_corba method (throw (invalid_argument what), log) e h =
    moved (λ x. is_corba x ≡ false) _ e refl h

module _ {Ctx Obj Any TypeCode Contained InterfaceDef Double Float : Type 0}
    (runtime : Runtime Ctx Obj Any TypeCode Contained InterfaceDef Double Float) where
  -- The target could not be described: `_repository_id` or the repository threw the exception.
  abbrev pub Undescribed : Option Obj → Exn → Type 0
  Undescribed obj e =
      (runtime.repository_id obj ≡ throw e)
      ⊎ ((repid : String) × (runtime.repository_id obj ≡ ok repid)
          × (fetch_from_ifr runtime.repository repid ≡ throw e))

  -- The caches still agree with the repository, and an exception has one of the given causes.
  abbrev pub Keeps : {A : Type 0} → (Exn → Type 0) → Outcome A × UnaryState TypeCode → Type 0
  Keeps {A} Cause r = Faithful runtime.repository r.1.ifr × ((e : Exn) → r.0 ≡ throw e → Cause e)

  run_described-Keeps :
      (Cause : Exn → Type 0) (obj : Option Obj) (method : String) (args : List Any)
      (s : UnaryState TypeCode)
      → ((e : Exn) → Undescribed obj e → Cause e)
      → Faithful runtime.repository s.ifr
      → Keeps Cause (run_described runtime obj method args s)
  unfolding run_described
  run_described-Keeps Cause obj method args s cause v = ask (runtime.repository_id obj) refl
    where
      answered :
          (repid : String)
          → runtime.repository_id obj ≡ ok repid
          → (o : Outcome (InterfaceInfo TypeCode)) → fetch_from_ifr runtime.repository repid ≡ o
          → Keeps Cause (run_described runtime obj method args s)
      answered repid q (throw x) f =
          let d = describe_interface_lem runtime.repository repid s.ifr v in
          let c = cause x (inr (repid, q, f)) in
          rw (run_described, q, d.0 ∙ f) (d.1, λ e h. moved Cause x e c h)
      answered repid q (ok info) f =
          let d = describe_interface_lem runtime.repository repid s.ifr v in
          let r = described runtime obj method args (find_operation method info.operations) in
          rw (run_described, q, d.0 ∙ f, r.1) (d.1, λ e h. cc)

      ask :
          (o : Outcome String)
          → runtime.repository_id obj ≡ o
          → Keeps Cause (run_described runtime obj method args s)
      ask (throw x) q =
          let c = cause x (inl q) in rw (run_described, q) (v, λ e h. moved Cause x e c h)
      ask (ok repid) q = answered repid q (fetch_from_ifr runtime.repository repid) refl

  -- What the dispatcher throws, never a CORBA exception, ends in `INTERNAL`.
  after_dispatch-Keeps :
      (Cause : Exn → Type 0) (obj : Option Obj) (method : String) (args : List Any)
      (o : Outcome (Option (InvokeResult Any))) (s : UnaryState TypeCode)
      → ((e : Exn) → Undescribed obj e → Cause e)
      → ((e : Exn) → o ≡ throw e → is_corba e ≡ false)
      → Faithful runtime.repository s.ifr
      → Keeps Cause (after_dispatch runtime obj method args o s)
  unfolding after_dispatch
  after_dispatch-Keeps Cause obj method args (ok (some result)) s cause told v = (v, λ e h. cc)
  after_dispatch-Keeps Cause obj method args (ok none) s cause told v =
      run_described-Keeps Cause obj method args s cause v
  after_dispatch-Keeps Cause obj method args (throw (runtime_error what)) s cause told v =
      (v, λ e h. cc)
  after_dispatch-Keeps Cause obj method args (throw (invalid_argument what)) s cause told v =
      (v, λ e h. cc)
  after_dispatch-Keeps Cause obj method args (throw (corba name)) s cause told v =
      absurd (cc (told (corba name) refl))

  run_on-Keeps :
      (Cause : Exn → Type 0) (obj : Option Obj) (method : String) (args : List Any)
      (device : Option Device) (s : UnaryState TypeCode)
      → ((e : Exn) → Undescribed obj e → Cause e)
      → Faithful runtime.repository s.ifr
      → Keeps Cause (run_on runtime obj method args device s)
  unfolding run_on dispatch
  run_on-Keeps Cause obj method args none s cause v =
      run_described-Keeps Cause obj method args s cause v
  run_on-Keeps Cause obj method args (some device) s cause v =
      let r = dispatch runtime.corba device method args s.calls in
      after_dispatch-Keeps Cause obj method args r.0 (record s { calls = r.1 }) cause
        (no_corba method (dispatch_body runtime.corba device method args s.calls)) v

  -- The causes for which `Invoke` throws.
  abbrev pub Escapes : String → Exn → Type 0
  Escapes component e =
      (Naming.resolve runtime.names runtime.ns component "" ≡ throw e)
      ⊎ ((target : Option Obj) × (Naming.resolve runtime.names runtime.ns component "" ≡ ok target)
          × ((runtime.narrow_device target ≡ throw e) ⊎ Undescribed target e))

  -- With a cache that agrees with the repository, which `Invoke` keeps so, an exception leaves
  -- `Invoke` only if the name does not resolve, the narrowing to a device throws, or the target or
  -- the repository throws when the target is described; what a device or the generic call throws
  -- never leaves.
  pub invoke-Escapes :
      (component method : String) (args : List (AnyValue Double Float)) (s : UnaryState TypeCode)
      → Faithful runtime.repository s.ifr
      → Keeps (Escapes component) (invoke runtime component method args s)
  unfolding invoke
  invoke-Escapes component method args s v =
      by (Escapes component) (Naming.resolve runtime.names runtime.ns component "") refl
        (λ e h. inl h) (λ target q e h. inr (target, q, h))
    where
      narrowed :
          (Cause : Exn → Type 0) (target : Option Obj)
          → Naming.resolve runtime.names runtime.ns component "" ≡ ok target
          → (o : Outcome (Option Device)) → runtime.narrow_device target ≡ o
          → ((e : Exn) → (runtime.narrow_device target ≡ throw e) ⊎ Undescribed target e → Cause e)
          → Keeps Cause (invoke runtime component method args s)
      narrowed Cause target q (throw x) n c =
          let k = c x (inl n) in rw (invoke, q, n) (v, λ e h. moved Cause x e k h)
      narrowed Cause target q (ok none) n c =
          let k =
            run_on-Keeps Cause target method (map (to_corba runtime.corba) args) none s
              (λ e h. c e (inr h)) v in
          rw (invoke, q, n) k
      narrowed Cause target q (ok (some device)) n c =
          let k =
            run_on-Keeps Cause target method (map (to_corba runtime.corba) args) (some device) s
              (λ e h. c e (inr h)) v in
          rw (invoke, q, n) k

      by :
          (Cause : Exn → Type 0) (o : Outcome (Option Obj))
          → Naming.resolve runtime.names runtime.ns component "" ≡ o
          → ((e : Exn) → Naming.resolve runtime.names runtime.ns component "" ≡ throw e → Cause e)
          → ((target : Option Obj)
              → Naming.resolve runtime.names runtime.ns component "" ≡ ok target
              → (e : Exn) → (runtime.narrow_device target ≡ throw e) ⊎ Undescribed target e
              → Cause e)
          → Keeps Cause (invoke runtime component method args s)
      by Cause (throw x) q c d = let k = c x q in rw (invoke, q) (v, λ e h. moved Cause x e k h)
      by Cause (ok target) q c d =
          narrowed Cause target q (runtime.narrow_device target) refl (d target q)

  described-Keeps :
      (Cause : Exn → Type 0) (component : String) (target : Option Obj)
      → Naming.resolve runtime.names runtime.ns component "" ≡ ok target
      → (s : UnaryState TypeCode) → ((e : Exn) → Undescribed target e → Cause e)
      → Faithful runtime.repository s.ifr
      → Keeps Cause (resolve runtime component s)
  unfolding resolve
  described-Keeps Cause component target q s cause v = ask (runtime.repository_id target) refl
    where
      answered :
          (repid : String)
          → runtime.repository_id target ≡ ok repid
          → (o : Outcome (InterfaceInfo TypeCode)) → fetch_from_ifr runtime.repository repid ≡ o
          → Keeps Cause (resolve runtime component s)
      answered repid r (throw x) f =
          let d = describe_interface_lem runtime.repository repid s.ifr v in
          let c = cause x (inr (repid, r, f)) in
          rw (resolve, q, r, d.0 ∙ f) (d.1, λ e h. moved Cause x e c h)
      answered repid r (ok info) f =
          let d = describe_interface_lem runtime.repository repid s.ifr v in
          rw (resolve, q, r, d.0 ∙ f) (d.1, λ e h. cc)

      ask :
          (o : Outcome String)
          → runtime.repository_id target ≡ o
          → Keeps Cause (resolve runtime component s)
      ask (throw x) r =
          let c = cause x (inl r) in rw (resolve, q, r) (v, λ e h. moved Cause x e c h)
      ask (ok repid) r = answered repid r (fetch_from_ifr runtime.repository repid) refl

  -- `Resolve` throws when the name does not resolve or the target cannot be described, and keeps
  -- the cache in agreement with the repository.
  pub resolve-Keeps :
      (component : String) (s : UnaryState TypeCode)
      → Faithful runtime.repository s.ifr
      → Keeps
          (λ e.
            (Naming.resolve runtime.names runtime.ns component "" ≡ throw e)
            ⊎ ((target : Option Obj) × (Naming.resolve runtime.names runtime.ns component ""
                  ≡ ok target)
                × Undescribed target e))
          (resolve runtime component s)
  unfolding resolve
  resolve-Keeps component s v =
      by _ (Naming.resolve runtime.names runtime.ns component "") refl (λ e h. inl h)
        (λ target q e h. inr (target, q, h))
    where
      by :
          (Cause : Exn → Type 0) (o : Outcome (Option Obj))
          → Naming.resolve runtime.names runtime.ns component "" ≡ o
          → ((e : Exn) → Naming.resolve runtime.names runtime.ns component "" ≡ throw e → Cause e)
          → ((target : Option Obj)
              → Naming.resolve runtime.names runtime.ns component "" ≡ ok target
              → (e : Exn) → Undescribed target e
              → Cause e)
          → Keeps Cause (resolve runtime component s)
      by Cause (throw x) q c d = let k = c x q in rw (resolve, q) (v, λ e h. moved Cause x e k h)
      by Cause (ok target) q c d = described-Keeps Cause component target q s (d target q) v
