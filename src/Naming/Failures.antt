-- ===== src/Naming/Failures.antt =====
-- What `NsResolver::processBinding` stores when a call of the name service throws.
use mathlib.Core.List.{append_assoc}
use api_gateway_gtc.Base.{ℕ, suc, String, ◌≡◌, true, Option, some, List, [], ◌∷◌, arith, append, ap}
use api_gateway_gtc.Base.Outcome.{Outcome, ok, throw, corba, and_then}
use api_gateway_gtc.Naming.{
  NamingService, NsEntry, Binding, Walk, new_entry, push, handle, descend, process_binding,
  process_all, store_entry, resolve_entry, list_bindings, list_context,
}

module _ {Ctx Obj : Type 0} (service : NamingService Ctx Obj) where
  -- The reference of a binding, as `processBinding` asks for it.
  pub reference_of : Ctx → Binding → Outcome String
  reference_of c b = and_then (service.resolve c (b.binding_name ∷ [])) service.object_to_string

  -- A name that cannot be resolved, or whose reference cannot be printed, is stored once, with no
  -- reference, and the loop goes on with the bindings behind it.
  pub unresolved_binding :
      (walk : Ctx → String → Walk) (c : Ctx) (b : Binding) (bs : List Binding) (prefix : String)
      (es : List NsEntry) (name : String)
      → reference_of c b ≡ throw (corba name)
      → process_all service walk c (b ∷ bs) prefix es
        ≡ process_all service walk c bs prefix (push (new_entry b prefix "") es)
  unfolding process_all process_binding resolve_entry store_entry handle reference_of
  unresolved_binding walk c b bs prefix es name p = ground arith

  -- A context that is resolved and whose own listing throws is stored twice, where its reference
  -- can be printed.
  pub failed_context_twice :
      (fuel max_entries : ℕ) (c d : Ctx) (b : Binding) (obj : Option Obj) (ior name prefix : String)
      (es : List NsEntry)
      → b.is_ncontext ≡ true
      → service.resolve c (b.binding_name ∷ []) ≡ ok obj
      → service.object_to_string obj ≡ ok ior
      → service.narrow obj ≡ ok (some d)
      → service.list d max_entries ≡ throw (corba name)
      → process_binding service (list_context service (suc fuel) max_entries) c b prefix es
        ≡ some (ok tt, append es (new_entry b prefix ior ∷ new_entry b prefix ior ∷ []))
  unfolding process_binding resolve_entry store_entry handle descend list_context list_bindings
      new_entry
  failed_context_twice fuel max_entries c d b obj ior name prefix es k r s n l =
      rw (process_binding, r, resolve_entry, s, store_entry, k, n, descend, list_context, l)
        (ap (λ xs. some (ok tt, xs)) (simp append_assoc))
